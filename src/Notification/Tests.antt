-- ===== src/Notification/Tests.antt =====
-- Instances of the theorems on jarvis/services/notification_service.py, and runs of it.
use Prim.Native.Char.{Char}
use Prim.Native.String.{◌++◌ as append_text}
use jarvis_server.Prelude.{String, contains, ◌≡◌, refl, true, false, none, some, [], ◌∷◌}
use jarvis_server.Prelude.Int.{pos}
use jarvis_server.Prelude.Dict.{put}
use jarvis_server.Notification.{
  Notification, NotificationService, normal, high, Backend, succeeded, raised, new_notification,
  replace, safe_text, script, deliver, append_to, send_notification, monitor_script, sanitized,
  get_history,
}
use jarvis_server.Notification.Literals.{
  avoids, read_literal, script-IsRead, monitor_script-escapes,
}
use jarvis_server.Notification.Delivery.{is_named, serves, send_notification-Names}
use jarvis_server.Notification.History.{created, sends, Reach-get_history}

abbrev backend : String → Backend
backend name = record { name = name; is_available = true; sends = λ n. succeeded }

abbrev broken : Backend
broken = record { name = "chat"; is_available = true; sends = λ n. raised "timeout" }

abbrev away : Backend
away = record { name = "mail"; is_available = false; sends = λ n. succeeded }

abbrev service : NotificationService
service = record {
  backends = backend "macos" ∷ broken ∷ away ∷ [];
  history = [];
  history_limit = 1;
}

errors_kept :
    (send_notification "t" "m" normal "s" "now" service).0.delivery_errors
    ≡ ("chat", "timeout") ∷ ("mail", "Backend unavailable") ∷ []
unfolding send_notification deliver append_to put
errors_kept = refl

newest_kept :
    (send_notification "t" "b" normal "s" "2"
      (send_notification "t" "a" normal "s" "1" service).1).1.history
    ≡ (send_notification "t" "b" normal "s" "2" service).1.history
unfolding send_notification deliver append_to put
newest_kept = refl

quoted : safe_text "a\"b\\" ≡ "a\\\"b\\\\"
unfolding safe_text replace
quoted = refl

abbrev same_char : Char → Char
same_char c = c

send_notification-Names_example :
    let n = (send_notification "t" "m" normal "s" "now" service).0 in
    (is_named "chat" n ≡ true)
    × (contains "chat" n.delivered_via ≡ true → serves "chat" service.backends ≡ true)
send_notification-Names_example = send_notification-Names "t" "m" normal "s" "now" "chat" service

abbrev odd : Notification
odd = new_notification "a\"" "b\\" high "s" "now"

script-IsRead_example :
    (a b : String) × (script odd ≡ append_text "display notification \"" a)
    × (read_literal same_char false a ≡ some ("b\\", append_text " with title \"" b))
    × (read_literal same_char false b ≡ some ("a\"", " sound name \"Ping\""))
script-IsRead_example = script-IsRead same_char refl refl odd

monitor_script-escapes_example :
    (a : String) × (monitor_script "Device Alert"
        (append_text "disk:" (append_text "\\\"" " & beep"))
      ≡ append_text "display notification \"" a)
    × (read_literal same_char false a
        ≡ some (
          append_text "disk:" "\\",
          append_text
              (sanitized " & beep")
              (append_text "\" with title \"" (append_text (sanitized "Device Alert") "\"")),
        ))
unfolding avoids
monitor_script-escapes_example =
    monitor_script-escapes same_char refl refl "Device Alert" "disk:" " & beep" refl refl refl

abbrev after_two : NotificationService
after_two =
    (send_notification "t" "b" high "s" "2"
      (send_notification "t" "a" normal "s" "1"
        (record { backends = []; history = []; history_limit = 1 })).1).1

Reach-get_history_example :
    get_history (pos 5) (some high) none after_two
    ≡ (send_notification "t" "b" high "s" "2"
        (send_notification "t" "a" normal "s" "1"
          (record { backends = []; history = []; history_limit = 1 })).1).0
      ∷ []
unfolding send_notification
Reach-get_history_example =
    Reach-get_history 1 (sends (sends created "t" "a" normal "s" "1") "t" "b" high "s" "2") (pos 5)
      (some high) none
