-- ===== src/Notification/Delivery.antt =====
-- What `send` of jarvis/services/notification_service.py reports of its backends.
use jarvis_server.Prelude.{
  String, ◌≡◌, Bool, false, false, refl, sym, ◌∙◌, true, ◌&&◌, ◌||◌, List, [], ◌∷◌, arith, str_eq,
  any, map, contains, contains-append, Bool-cases, inl, inr,
}
use jarvis_server.Prelude.Dict.{get, has, get-put}
use jarvis_server.Notification.{
  Notification, NotificationPriority, NotificationService, Backend, Sent, succeeded, refused,
  raised, new_notification, failed, after_send, deliver_one, deliver, delivered, send_notification,
}

-- The names that a report must name: the backends, or `_global` where there are none.
abbrev recipients : List Backend → List String
recipients [] = "_global" ∷ []
recipients (b ∷ bs) = b.name ∷ map (λ c. c.name) bs

abbrev pub is_named : String → Notification → Bool
is_named x n = contains x n.delivered_via || has x n.delivery_errors

failed-is_named :
    (x name why : String) (n : Notification)
    → is_named x (failed name why n) ≡ (str_eq name x || is_named x n)
failed-is_named x name why n = rw (get-put name x why n.delivery_errors) (ground arith)

after_send-is_named :
    (x name : String) (o : Sent) (n : Notification)
    → is_named x (after_send name o n) ≡ (str_eq name x || is_named x n)
after_send-is_named x name succeeded n =
    rw (contains-append x n.delivered_via (name ∷ [])) (ground arith)
after_send-is_named x name refused n = failed-is_named x name "Send returned False" n
after_send-is_named x name (raised why) n = failed-is_named x name why n

deliver_one-is_named :
    (x : String) (b : Backend) (n : Notification)
    → is_named x (deliver_one b n) ≡ (str_eq b.name x || is_named x n)
deliver_one-is_named x b n = elim (Bool-cases b.is_available) [
  | inl e ↦ rw e (after_send-is_named x b.name (b.sends n) n)
  | inr e ↦ rw e (failed-is_named x b.name "Backend unavailable" n)
]

deliver-is_named :
    (x : String) (bs : List Backend) (n : Notification)
    → is_named x (deliver bs n) ≡ (contains x (map (λ c. c.name) bs) || is_named x n)
unfolding deliver
deliver-is_named x [] n = refl
deliver-is_named x (b ∷ bs) n =
    deliver-is_named x bs (deliver_one b n) ∙ rw (deliver_one-is_named x b n) (ground arith)

-- A backend that can send, of this name.
abbrev pub serves : String → List Backend → Bool
serves x bs = any (λ b. b.is_available && str_eq b.name x) bs

after_send-via :
    (x name : String) (o : Sent) (n : Notification)
    → contains x (after_send name o n).delivered_via ≡ true
    → (str_eq name x || contains x n.delivered_via) ≡ true
after_send-via x name succeeded n h =
    ground (arith, sym (contains-append x n.delivered_via (name ∷ [])) ∙ h)
after_send-via x name refused n h = ground (arith, h)
after_send-via x name (raised why) n h = ground (arith, h)

deliver_one-via :
    (x : String) (b : Backend) (n : Notification)
    → contains x (deliver_one b n).delivered_via ≡ true
    → ((b.is_available && str_eq b.name x) || contains x n.delivered_via) ≡ true
deliver_one-via x b n h = ground (arith, after_send-via x b.name (b.sends n) n)

deliver-via :
    (x : String) (bs : List Backend) (n : Notification)
    → contains x (deliver bs n).delivered_via ≡ true
    → (serves x bs || contains x n.delivered_via) ≡ true
unfolding deliver
deliver-via x [] n h = h
deliver-via x (b ∷ bs) n h =
    ground (arith, deliver-via x bs (deliver_one b n) h, deliver_one-via x b n)

-- A notification that is sent names, as delivered or as failed, every backend and no other name, or
-- `_global` where there is no backend; it is delivered by backends that are available only.
pub send_notification-Names :
    (title message : String) (priority : NotificationPriority) (source now x : String)
    (s : NotificationService)
    → let n = (send_notification title message priority source now s).0 in
      (is_named x n ≡ contains x (recipients s.backends))
      × (contains x n.delivered_via ≡ true → serves x s.backends ≡ true)
unfolding send_notification get
send_notification-Names title message priority source now x s =
    delivered-Names (new_notification title message priority source now) s.backends refl refl
  where
    delivered-Names :
        (n : Notification) (bs : List Backend)
        → is_named x n ≡ false
        → contains x n.delivered_via ≡ false
        → (is_named x (delivered bs n) ≡ contains x (recipients bs))
          × (contains x (delivered bs n).delivered_via ≡ true → serves x bs ≡ true)
    delivered-Names n [] h k = (failed-is_named x "_global" _ n ∙ ground (arith, h), λ c. cc)
    delivered-Names n (b ∷ bs) h k = (
      deliver-is_named x (b ∷ bs) n ∙ ground (arith, h),
      λ c. ground (arith, deliver-via x (b ∷ bs) n c, k),
    )
