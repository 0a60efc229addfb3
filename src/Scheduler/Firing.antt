-- ===== src/Scheduler/Firing.antt =====
-- When a schedule of jarvis/services/scheduler_service.py is due after it has fired.
use jarvis_server.Prelude.{
  ℕ, String, ◌≡◌, refl, ap, ◌∙◌, Bool, true, false, ◌&&◌, Option, none, some, List, str_eq,
  contains, leb, inl, inr, Option-cases, Bool-cases, sym, keep, is_some, ◌⊎◌,
}
use jarvis_server.Prelude.Int.{ℤ}
use jarvis_server.Scheduler.{
  ScheduleType, once, cron, interval, ScheduleItem, SchedulerService, given_text, given_int,
  add_seconds,
}
use jarvis_server.Scheduler.Store.{
  matches, get, fired, fired_as, rescheduled, mark_fired, mark_item, can_mark, can_mark_as,
  is_none_or, get_due_schedules, is_due,
}
use jarvis_server.Scheduler.Rows.{
  ids, is_keyed, contains-update_found, contains-update_other, update_where-same,
}

module _ (like : String → String → Bool) (text_le : String → String → Bool) (iso : ℕ → String)
    (next_cron : String → String → ℕ → Option String) where
  -- When a schedule that fired at `now` is due, from its own fields.
  abbrev due_from : Option String → ScheduleItem → ℕ → Bool
  due_from none x t = x.enabled && text_le x.next_run (iso t)
  due_from (some next) x t = x.enabled && text_le next (iso t)

  abbrev due_by_cron : Option String → ScheduleItem → ℕ → ℕ → Bool
  due_by_cron none x now t = x.enabled && text_le x.next_run (iso t)
  due_by_cron (some e) x now t = due_from (next_cron e x.timezone now) x t

  abbrev due_by_interval : Option ℤ → ScheduleItem → ℕ → ℕ → Bool
  due_by_interval none x now t = x.enabled && text_le x.next_run (iso t)
  due_by_interval (some n) x now t = x.enabled && leb (add_seconds now n) t

  abbrev due_again_as : ScheduleType → ScheduleItem → ℕ → ℕ → Bool
  due_again_as once x now t = false
  due_again_as cron x now t = due_by_cron (given_text x.cron_expression) x now t
  due_again_as interval x now t = due_by_interval (given_int x.interval_seconds) x now t

  abbrev due_again : ScheduleItem → ℕ → ℕ → Bool
  due_again x now t = due_again_as x.schedule_type x now t

  abbrev due_ids : ℕ → SchedulerService → List String
  due_ids t s = ids (get_due_schedules like text_le iso next_cron t s)

  abbrev pub DueAfter : ScheduleItem → ℕ → ℕ → SchedulerService → SchedulerService → Type 0
  DueAfter x now t s s' =
      (contains x.id (due_ids t s') ≡ due_again x now t)
      × ((j : String)
          → str_eq j x.id ≡ false
          → contains j (due_ids t s') ≡ contains j (due_ids t s))

  id-rescheduled :
      (next : Option String) (now : ℕ) (x : ScheduleItem)
      → (rescheduled like text_le iso next_cron next now x).id ≡ x.id
  id-rescheduled none now x = refl
  id-rescheduled (some n) now x = refl

  id-fired_as :
      (ty : ScheduleType) (now : ℕ) (x : ScheduleItem)
      → (fired_as like text_le iso next_cron ty now x).id ≡ x.id
  id-fired_as once now x = refl
  id-fired_as cron now x = id-rescheduled _ now x
  id-fired_as interval now x = id-rescheduled _ now x

  pub id-fired : (now : ℕ) (x : ScheduleItem) → (fired like text_le iso next_cron now x).id ≡ x.id
  id-fired now x = id-fired_as x.schedule_type now x

  -- The ISO texts of clock readings are ordered as the readings are.
  module _ (ordered : (a b : ℕ) → text_le (iso a) (iso b) ≡ leb a b) where
    due-fired_as :
        (ty : ScheduleType) (now t : ℕ) (x : ScheduleItem)
        → is_due like text_le iso next_cron t (fired_as like text_le iso next_cron ty now x)
          ≡ due_again_as ty x now t
    due-fired_as once now t x = refl
    due-fired_as cron now t x = elim (Option-cases (given_text x.cron_expression)) [
      | inl e ↦ rw e refl
      | inr (c, e) ↦ rw e (elim (Option-cases (next_cron c x.timezone now)) [
        | inl n ↦ rw n refl
        | inr (v, n) ↦ rw n refl
      ])
    ]
    due-fired_as interval now t x = elim (Option-cases (given_int x.interval_seconds)) [
      | inl e ↦ rw e refl
      | inr (n, e) ↦ rw e (ap (λ b. x.enabled && b) (ordered (add_seconds now n) t))
    ]

    -- A row that cannot be marked is due again when it was due before.
    due-unmarked :
        (ty : ScheduleType) (now t : ℕ) (x : ScheduleItem)
        → can_mark_as like text_le iso next_cron ty now x ≡ false
        → is_due like text_le iso next_cron t x ≡ due_again_as ty x now t
    due-unmarked once now t x h = cc
    due-unmarked interval now t x h = cc
    due-unmarked cron now t x h =
        by (given_text x.cron_expression)
          (λ e. elim (Option-cases (next_cron e x.timezone now)) [
            | inl n ↦ inl n
            | inr (v, n) ↦ inr (ap is_some n)
          ])
          h
      where
        by :
            (o : Option String)
            → ((e : String)
                → (next_cron e x.timezone now ≡ none)
                  ⊎ (is_some (next_cron e x.timezone now) ≡ true))
            → is_none_or (λ e. is_some (next_cron e x.timezone now)) o ≡ false
            → is_due like text_le iso next_cron t x ≡ due_by_cron o x now t
        by none c h = refl
        by (some e) c h = elim (c e) [ inl n ↦ rw n refl | inr n ↦ cc ]

    -- Which schedules are due after one has fired. The fired one: never for a one-shot schedule; from the
    -- next time of its cron expression, or from its interval after `now`, if it is enabled; and as
    -- before if the expression is missing, or raises with its time zone, or the interval is missing or
    -- zero. Any other schedule: as before. The ids are distinct, and the texts of times are ordered
    -- as the times are.
    pub due-mark_fired :
        (key : String) (now t : ℕ) (x : ScheduleItem) (s : SchedulerService)
        → is_keyed s.schedules ≡ true
        → get like text_le iso next_cron key s ≡ some x
        → DueAfter x now t s (mark_fired like text_le iso next_cron key now s).1
    unfolding get get_due_schedules mark_fired mark_item
    due-mark_fired key now t x s u h =
        let f = fired like text_le iso next_cron now in
        let p = matches like text_le iso next_cron key in
        let q = is_due like text_le iso next_cron t in
        rw h (elim (Bool-cases (can_mark like text_le iso next_cron now x)) [
          | inl c ↦ rw c (
            contains-update_found p q f x s.schedules (id-fired now) u h
                ∙ due-fired_as x.schedule_type now t x,
            λ j d. contains-update_other x.id j q f s.schedules (id-fired now) d,
          )
          | inr c ↦ rw c (
            ap (λ rows. contains x.id (ids (keep q rows)))
                  (sym (update_where-same x.id s.schedules))
                ∙ contains-update_found p q (λ y. y) x s.schedules (λ y. refl) u h
                ∙ due-unmarked x.schedule_type now t x c,
            λ j d. refl,
          )
        ])
