-- ===== src/Notification/History.antt =====
-- The bounded history of jarvis/services/notification_service.py and the log of all notifications.
use jarvis_server.Prelude.{
  ℕ, zero, suc, ◌-◌, ◌≤◌, ◌<◌, String, ◌≡◌, refl, ap, sym, ◌∙◌, Bool, true, false, Option, leb,
  leb→le, none, some, List, [], ◌∷◌, ◌++◌, arith, str_eq, length, take, drop, keep, keep-append,
  length-append, append-nil, if◌then◌else◌, Bool-cases, inl, inr,
}
use jarvis_server.Prelude.Int.{ℤ}
use jarvis_server.Notification.{
  Notification, NotificationPriority, NotificationService, Backend, register_backend, append_to,
  send_notification, slice, reverse, of_priority, of_source, get_history, clear_history,
}

module _ {ℓ} {A : Type ℓ} where
  length-reverse : (xs : List A) → length (reverse xs) ≡ length xs
  unfolding reverse
  length-reverse [] = refl
  length-reverse (x ∷ xs) = omega (arith, length-append (reverse xs) (x ∷ []), length-reverse xs)

  reverse-append_one : (xs : List A) (x : A) → reverse (xs ++ x ∷ []) ≡ x ∷ reverse xs
  unfolding reverse
  reverse-append_one [] x = refl
  reverse-append_one (y ∷ ys) x = ap (λ l. l ++ y ∷ []) (reverse-append_one ys x)

  take_all : (n : ℕ) (xs : List A) → length xs ≤ n → take n xs ≡ xs
  take_all zero [] h = refl
  take_all zero (x ∷ xs) h = absurd (omega arith)
  take_all (suc n) [] h = refl
  take_all (suc n) (x ∷ xs) h = ap (λ l. x ∷ l) (take_all n xs (omega arith))

  take-append : (n : ℕ) (xs ys : List A) → n ≤ length xs → take n (xs ++ ys) ≡ take n xs
  take-append zero xs ys h = refl
  take-append (suc n) [] ys h = absurd (omega arith)
  take-append (suc n) (x ∷ xs) ys h = ap (λ l. x ∷ l) (take-append n xs ys (omega arith))

  take-take : (n k : ℕ) (xs : List A) → n ≤ k → take n (take k xs) ≡ take n xs
  take-take zero k xs h = refl
  take-take (suc n) zero xs h = absurd (omega arith)
  take-take (suc n) (suc k) [] h = refl
  take-take (suc n) (suc k) (x ∷ xs) h = ap (λ l. x ∷ l) (take-take n k xs (omega arith))

  drop-nil : (n : ℕ) → drop {A = A} n [] ≡ []
  drop-nil zero = refl
  drop-nil (suc n) = refl

  -- The last `k` of a list, backwards, are the first `k` of the list backwards.
  reverse-drop : (k : ℕ) (xs : List A) → reverse (drop (length xs - k) xs) ≡ take k (reverse xs)
  unfolding reverse
  reverse-drop k [] = ap reverse (drop-nil (0 - k)) ∙ sym (take_all k [] (omega arith))
  reverse-drop k (x ∷ xs) = elim (Bool-cases (leb k (length xs))) [
    | inl e ↦
        ap (λ n. reverse (drop n (x ∷ xs))) (suc_sub k (length xs) (leb→le k (length xs) e))
        ∙ reverse-drop k xs
        ∙ sym (
            take-append k (reverse xs) (x ∷ [])
              (omega (arith, length-reverse xs, leb→le k (length xs) e)))
    | inr e ↦
        ap (λ n. reverse (drop n (x ∷ xs))) (sub_zero k (length xs) e)
        ∙ sym (
            take_all k (reverse xs ++ x ∷ []) (
              omega (
                arith,
                length-append (reverse xs) (x ∷ []),
                length-reverse xs,
                leb_lt k (length xs) e,
              )))
  ]
    where
      leb_lt : (a b : ℕ) → leb a b ≡ false → b < a
      leb_lt a b h = ground arith

      suc_sub : (a b : ℕ) → a ≤ b → suc b - a ≡ suc (b - a)
      suc_sub a b h = omega arith

      sub_zero : (a b : ℕ) → leb a b ≡ false → suc b - a ≡ 0
      sub_zero a b h = omega (arith, leb_lt a b h)

  keep-reverse : (p : A → Bool) (xs : List A) → keep p (reverse xs) ≡ reverse (keep p xs)
  unfolding reverse
  keep-reverse p [] = refl
  keep-reverse p (x ∷ xs) = keep-append p (reverse xs) (x ∷ []) ∙ rw (keep-reverse p xs) (one (p x))
    where
      one :
          (b : Bool)
          → reverse (keep p xs) ++ (if b then x ∷ [] else [])
            ≡ reverse (if b then x ∷ keep p xs else keep p xs)
      one true = refl
      one false = append-nil _

-- What happens to a service, with the log of the notifications since the history was cleared, the
-- newest first and without a limit.
pub data Reach (limit : ℕ) : NotificationService → List Notification → Type 0 where
  created : Reach limit (record { backends = []; history = []; history_limit = limit }) []
  registers :
      {s : NotificationService} {log : List Notification}
      → Reach limit s log
      → (b : Backend) → Reach limit (register_backend b s) log
  sends :
      {s : NotificationService} {log : List Notification}
      → Reach limit s log
      → (title message : String) (priority : NotificationPriority) (source now : String)
      → Reach limit
          (send_notification title message priority source now s).1
          ((send_notification title message priority source now s).0 ∷ log)
  clears :
      {s : NotificationService} {log : List Notification}
      → Reach limit s log
      → Reach limit (clear_history s).1 []

reverse-append_to :
    (limit : ℕ) (n : Notification) (items log : List Notification)
    → reverse items ≡ take limit log
    → reverse (append_to limit n items) ≡ take limit (n ∷ log)
unfolding append_to
reverse-append_to limit n items log h =
    reverse-drop limit (items ++ n ∷ []) ∙ rw (reverse-append_one items n, h) (room limit)
  where
    room : (k : ℕ) → take k (n ∷ take k log) ≡ take k (n ∷ log)
    room zero = refl
    room (suc k) = ap (λ l. n ∷ l) (take-take k (suc k) log (omega arith))

Reach-log :
    (limit : ℕ) {s : NotificationService} {log : List Notification}
    → Reach limit s log
    → (s.history_limit ≡ limit) × (reverse s.history ≡ take limit log)
unfolding send_notification clear_history reverse
Reach-log limit created = (refl, sym (take_all limit [] (omega arith)))
Reach-log limit (registers r b) = Reach-log limit r
Reach-log limit (sends {s} {log} r title message priority source now) =
    let (e, h) = Reach-log limit r in (e, rw e (reverse-append_to limit _ s.history log h))
Reach-log limit (clears r) = ((Reach-log limit r).0, sym (take_all limit [] (omega arith)))

of_priority-reverse :
    (p : Option NotificationPriority) (xs : List Notification)
    → of_priority p (reverse xs) ≡ reverse (of_priority p xs)
of_priority-reverse none xs = refl
of_priority-reverse (some p) xs = keep-reverse _ xs

of_source-reverse :
    (t : Option String) (xs : List Notification)
    → of_source t (reverse xs) ≡ reverse (of_source t xs)
of_source-reverse none xs = refl
of_source-reverse (some t) xs = elim (Bool-cases (str_eq t "")) [
  | inl e ↦ rw e refl
  | inr e ↦ rw e (keep-reverse _ xs)
]

-- Whatever was sent, registered and cleared, the history that is shown is the slice of those of the
-- newest notifications since the last clearing, as many as the limit of the service, that pass the
-- filters, the newest first.
pub Reach-get_history :
    (limit : ℕ) {s : NotificationService} {log : List Notification}
    → Reach limit s log
    → (k : ℤ) (p : Option NotificationPriority) (t : Option String)
    → get_history k p t s ≡ slice k (of_source t (of_priority p (take limit log)))
unfolding get_history
Reach-get_history limit {s} {log} r k p t = ap (slice k) (
    sym (of_source-reverse t (of_priority p s.history))
    ∙ ap (of_source t) (sym (of_priority-reverse p s.history))
    ∙ ap (λ l. of_source t (of_priority p l)) (Reach-log limit r).1)
