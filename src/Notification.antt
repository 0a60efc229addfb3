-- ===== src/Notification.antt =====
-- jarvis/services/notification_service.py: the AppleScript of `MacOSNotificationBackend.send`, and the
-- delivery and the history of `NotificationService`; also `_send_macos_notification` of
-- jarvis/agents/device_monitor_agent/__init__.py. A backend is a value with its answers: what it does
-- outside is no part of the state. Times are arguments.
use Prim.Native.Char.{code}
use Prim.Native.String.{◌++◌ as append_text}
use jarvis_server.Prelude.{
  ℕ, suc, ◌-◌, String, Bool, true, false, Option, none, some, List, [], ◌∷◌, ◌++◌, str_eq, ◌==◌,
  leb, length, is_empty, take, drop, keep, map, if◌then◌else◌,
}
use jarvis_server.Prelude.Int.{ℤ, pos, negsuc}
use jarvis_server.Prelude.Dict.{Dict, put}
pub mod Literals
pub mod Delivery
pub mod History
pub mod Tests

pub data NotificationPriority : Type 0 where
  low normal high critical : NotificationPriority

abbrev same_priority : NotificationPriority → NotificationPriority → Bool
same_priority low low = true
same_priority normal normal = true
same_priority high high = true
same_priority critical critical = true
same_priority _ _ = false

pub record Notification : Type 0 where
  pub title : String
  pub message : String
  pub priority : NotificationPriority
  pub source : String
  pub timestamp : String
  pub delivered_via : List String
  pub delivery_errors : Dict String

-- `Notification(...)`: the text of the present time stands for an empty timestamp.
abbrev pub new_notification :
    String → String → NotificationPriority → String → String → Notification
new_notification title message priority source now = record {
  title = title;
  message = message;
  priority = priority;
  source = source;
  timestamp = now;
  delivered_via = [];
  delivery_errors = [];
}

-- `s.replace(old, new)` for an `old` of one character, given by its code
unfoldable pub replace : ℕ → String → String → String
replace old new String.[] = ""
replace old new (String.◌∷◌ c s) =
    let rest = replace old new s in
    if code c == old then append_text new rest else String.◌∷◌ c rest

-- `text.replace("\\", "\\\\").replace('"', '\\"')`
unfoldable pub safe_text : String → String
safe_text s = replace 34 "\\\"" (replace 92 "\\\\" s)

-- `text.replace('"', '\\"').replace("'", "")`
unfoldable pub sanitized : String → String
sanitized s = replace 39 "" (replace 34 "\\\"" s)

abbrev pub sound_clause : NotificationPriority → String
sound_clause high = " sound name \"Ping\""
sound_clause critical = " sound name \"Ping\""
sound_clause _ = ""

unfoldable pub script : Notification → String
script n = append_text "display notification \"" (
    append_text (safe_text n.message) (
      append_text "\" with title \""
        (append_text (safe_text n.title) (append_text "\"" (sound_clause n.priority)))))

-- `_send_macos_notification`
unfoldable pub monitor_script : String → String → String
monitor_script title message = append_text "display notification \"" (
    append_text (sanitized message)
      (append_text "\" with title \"" (append_text (sanitized title) "\"")))

-- How the call of `send` of a backend ends.
pub data Sent : Type 0 where
  succeeded refused : Sent
  raised : String → Sent

pub record Backend : Type 0 where
  pub name : String
  pub is_available : Bool
  pub sends : Notification → Sent

-- `MacOSNotificationBackend.send`, with the process it starts; `starts` tells that `Popen` returns.
unfoldable macos_send : Bool → Bool → Notification → Sent × List String
macos_send false starts n = (refused, [])
macos_send true true n = (succeeded, script n ∷ [])
macos_send true false n = (refused, [])

pub record NotificationService : Type 0 where
  pub backends : List Backend
  pub history : List Notification
  pub history_limit : ℕ

abbrev pub register_backend : Backend → NotificationService → NotificationService
register_backend b s = record s { backends = s.backends ++ b ∷ [] }

abbrev available_backends : NotificationService → List String
available_backends s = map (λ b. b.name) (keep (λ b. b.is_available) s.backends)

abbrev pub failed : String → String → Notification → Notification
failed name why n = record n { delivery_errors = put name why n.delivery_errors }

abbrev pub after_send : String → Sent → Notification → Notification
after_send name succeeded n = record n { delivered_via = n.delivered_via ++ name ∷ [] }
after_send name refused n = failed name "Send returned False" n
after_send name (raised why) n = failed name why n

abbrev pub deliver_one : Backend → Notification → Notification
deliver_one b n =
    if b.is_available
    then after_send b.name (b.sends n) n
    else failed b.name "Backend unavailable" n

unfoldable pub deliver : List Backend → Notification → Notification
deliver [] n = n
deliver (b ∷ bs) n = deliver bs (deliver_one b n)

-- `deque.append` of a deque with a maximal length
unfoldable pub append_to : ℕ → Notification → List Notification → List Notification
append_to limit n items = let all = items ++ n ∷ [] in drop (length all - limit) all

abbrev pub delivered : List Backend → Notification → Notification
delivered [] n = failed "_global" "No backends configured" n
delivered bs n = deliver bs n

-- `send`
unfoldable pub send_notification :
    String
    → String
    → NotificationPriority
    → String
    → String
    → NotificationService
    → Notification × NotificationService
unfolding append_to
send_notification title message priority source now s =
    let n = delivered s.backends (new_notification title message priority source now) in
    (n, record s { history = append_to s.history_limit n s.history })

-- `items[:limit]`
abbrev pub slice {ℓ} : {A : Type ℓ} → ℤ → List A → List A
slice (pos n) xs = take n xs
slice (negsuc n) xs = take (length xs - suc n) xs

-- `items.reverse()`
unfoldable pub reverse {ℓ} : {A : Type ℓ} → List A → List A
reverse [] = []
reverse (x ∷ xs) = reverse xs ++ x ∷ []

abbrev pub of_priority : Option NotificationPriority → List Notification → List Notification
of_priority none items = items
of_priority (some p) items = keep (λ n. same_priority n.priority p) items

-- An empty text is no filter.
abbrev pub of_source : Option String → List Notification → List Notification
of_source none items = items
of_source (some t) items = if str_eq t "" then items else keep (λ n. str_eq n.source t) items

unfoldable pub get_history :
    ℤ → Option NotificationPriority → Option String → NotificationService → List Notification
get_history limit priority source s =
    slice limit (reverse (of_source source (of_priority priority s.history)))

unfoldable pub clear_history : NotificationService → ℕ × NotificationService
clear_history s = (length s.history, record s { history = [] })
