-- ===== src/Scheduler/Ready.antt =====
-- Tables whose rows `mark_fired` of jarvis/services/scheduler_service.py can all reschedule.
use jarvis_server.Prelude.{
  ℕ, String, ◌≡◌, refl, Bool, true, Option, none, some, List, [], ◌∷◌, arith, all, inl, inr,
  Bool-cases, Option-cases, str_eq,
}
use jarvis_server.Scheduler.{
  ScheduleType, once, cron, interval, ScheduleItem, SchedulerService, fetch_one, update_where,
}
use jarvis_server.Scheduler.Store.{
  matches, get, can_mark, can_mark_as, fired, fired_as, rescheduled, mark_item, mark_fired,
  mark_all, is_value,
}

module _ (like : String → String → Bool) (text_le : String → String → Bool) (iso : ℕ → String)
    (next_cron : String → String → ℕ → Option String) where
  -- No row has a cron expression that raises with its time zone, at any time.
  abbrev pub IsReady : List ScheduleItem → Type 0
  IsReady rows = (n : ℕ) → all (can_mark like text_le iso next_cron n) rows ≡ true

  can_mark-rescheduled :
      (ty : ScheduleType) (o : Option String) (n now : ℕ) (x : ScheduleItem)
      → can_mark_as like text_le iso next_cron ty n (rescheduled like text_le iso next_cron o now x)
        ≡ can_mark_as like text_le iso next_cron ty n x
  can_mark-rescheduled once o n now x = refl
  can_mark-rescheduled interval o n now x = refl
  can_mark-rescheduled cron none n now x = refl
  can_mark-rescheduled cron (some v) n now x = refl

  type-rescheduled :
      (o : Option String) (now : ℕ) (x : ScheduleItem)
      → (rescheduled like text_le iso next_cron o now x).schedule_type ≡ x.schedule_type
  type-rescheduled none now x = refl
  type-rescheduled (some n) now x = refl

  can_mark-fired :
      (n now : ℕ) (x : ScheduleItem)
      → can_mark like text_le iso next_cron n (fired like text_le iso next_cron now x)
        ≡ can_mark like text_le iso next_cron n x
  can_mark-fired n now x = by x.schedule_type
    where
      by :
          (ty : ScheduleType)
          → can_mark like text_le iso next_cron n (fired_as like text_le iso next_cron ty now x)
            ≡ can_mark like text_le iso next_cron n x
      by once = kept x.schedule_type
        where
          kept :
              (ty : ScheduleType)
              → can_mark_as like text_le iso next_cron ty n
                  (fired_as like text_le iso next_cron once now x)
                ≡ can_mark_as like text_le iso next_cron ty n x
          kept once = refl
          kept cron = refl
          kept interval = refl
      by cron = rw (type-rescheduled _ now x) (can_mark-rescheduled x.schedule_type _ n now x)
      by interval = rw (type-rescheduled _ now x) (can_mark-rescheduled x.schedule_type _ n now x)

  pub update-IsReady :
      (j : String) (now : ℕ) (rows : List ScheduleItem)
      → IsReady rows
      → IsReady (update_where j (fired like text_le iso next_cron now) rows)
  update-IsReady j now [] h n = refl
  update-IsReady j now (r ∷ rows) h n = elim (Bool-cases (str_eq r.id j)) [
    | inl e ↦ rw e (
        rw (can_mark-fired n now r)
          (ground (arith, h n, update-IsReady j now rows (λ k. ground (arith, h k)) n)))
    | inr e ↦ rw e (ground (arith, h n, update-IsReady j now rows (λ k. ground (arith, h k)) n))
  ]

  -- What is true of the row that a query finds.
  fetched_all :
      (p q : ScheduleItem → Bool) (x : ScheduleItem) (rows : List ScheduleItem)
      → all q rows ≡ true
      → fetch_one p rows ≡ some x
      → q x ≡ true
  fetched_all p q x [] a h = cc
  fetched_all p q x (r ∷ rows) a h = ground (arith, fetched_all p q x rows)

  pub fetched-can_mark :
      (key : String) (now : ℕ) (x : ScheduleItem) (s : SchedulerService)
      → IsReady s.schedules
      → get like text_le iso next_cron key s ≡ some x
      → can_mark like text_le iso next_cron now x ≡ true
  unfolding get
  fetched-can_mark key now x s ready h =
      fetched_all (matches like text_le iso next_cron key) (can_mark like text_le iso next_cron now)
        x s.schedules (ready now) h

  mark-is_value :
      (key : String) (now : ℕ) (s : SchedulerService)
      → IsReady s.schedules
      → is_value (mark_fired like text_le iso next_cron key now s).0 ≡ true
  unfolding mark_fired mark_item
  mark-is_value key now s ready = elim (Option-cases (get like text_le iso next_cron key s)) [
    | inl e ↦ rw e refl
    | inr (x, e) ↦ rw e (rw (fetched-can_mark key now x s ready e) refl)
  ]

  pub mark_all-next :
      (clock : String → ℕ) (d : ScheduleItem) (ds : List ScheduleItem) (s : SchedulerService)
      → IsReady s.schedules
      → let s' = (mark_fired like text_le iso next_cron d.id (clock d.id) s).1 in
        mark_all like text_le iso next_cron clock (d ∷ ds) s ≡ (
          d ∷ (mark_all like text_le iso next_cron clock ds s').0,
          (mark_all like text_le iso next_cron clock ds s').1,
        )
  unfolding mark_all
  mark_all-next clock d ds s ready = rw (mark-is_value d.id (clock d.id) s ready) refl
