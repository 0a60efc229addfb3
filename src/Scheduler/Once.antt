-- ===== src/Scheduler/Once.antt =====
-- One-shot schedules under a turn of the tick loop of jarvis/agents/scheduler_agent.
use jarvis_server.Prelude.{
  ℕ, String, ◌≡◌, refl, sym, ap, ◌∙◌, Bool, true, false, not, ◌&&◌, ◌||◌, Option, none, some, List,
  [], ◌∷◌, arith, str_eq, str_eq_iff, keep, any, all, contains, inl, inr, Option-cases, Bool-cases,
}
use jarvis_server.Scheduler.{
  ScheduleType, once, cron, interval, ScheduleItem, SchedulerService, fetch_one, update_where,
}
use jarvis_server.Scheduler.Store.{
  matches, get, fired, fired_as, rescheduled, mark_item, mark_fired, mark_all, get_due_schedules,
  is_due, tick, can_mark, is_value,
}
use jarvis_server.Scheduler.Rows.{ids, has_id}
use jarvis_server.Scheduler.Firing.{id-fired}
use jarvis_server.Scheduler.Ready.{IsReady, update-IsReady, fetched-can_mark, mark_all-next}

abbrev is_once : ScheduleType → Bool
is_once once = true
is_once _ = false

-- Every row with the id is a one-shot schedule; every row with the id is disabled.
abbrev once_at : String → List ScheduleItem → Bool
once_at i rows = all (λ r. not (has_id i r) || is_once r.schedule_type) rows

abbrev retired : String → List ScheduleItem → Bool
retired i rows = all (λ r. not (has_id i r) || not r.enabled) rows

contains-keep_id :
    (i : String) (q : ScheduleItem → Bool) (rows : List ScheduleItem)
    → contains i (ids (keep q rows)) ≡ true
    → any (has_id i) rows ≡ true
contains-keep_id i q [] h = cc
contains-keep_id i q (r ∷ rows) h = ground (arith, contains-keep_id i q rows)

module _ (like : String → String → Bool) (text_le : String → String → Bool) (iso : ℕ → String)
    (next_cron : String → String → ℕ → Option String) where
  -- The pattern of the id matches no other id of the table.
  abbrev sole : String → List ScheduleItem → Bool
  sole i rows = all (λ r. not (matches like text_le iso next_cron i r) || has_id i r) rows

  once-rescheduled :
      (o : Option String) (now : ℕ) (x : ScheduleItem)
      → (rescheduled like text_le iso next_cron o now x).schedule_type ≡ x.schedule_type
  once-rescheduled none now x = refl
  once-rescheduled (some n) now x = refl

  once-fired_as :
      (ty : ScheduleType) (now : ℕ) (x : ScheduleItem)
      → (fired_as like text_le iso next_cron ty now x).schedule_type ≡ x.schedule_type
  once-fired_as once now x = refl
  once-fired_as cron now x = once-rescheduled _ now x
  once-fired_as interval now x = once-rescheduled _ now x

  enabled-rescheduled :
      (o : Option String) (now : ℕ) (x : ScheduleItem)
      → (rescheduled like text_le iso next_cron o now x).enabled ≡ x.enabled
  enabled-rescheduled none now x = refl
  enabled-rescheduled (some n) now x = refl

  -- Firing disables a one-shot schedule and leaves the flag of any other.
  enabled-fired_as :
      (ty : ScheduleType) (now : ℕ) (x : ScheduleItem)
      → (fired_as like text_le iso next_cron ty now x).enabled ≡ (x.enabled && not (is_once ty))
  enabled-fired_as once now x = ground arith
  enabled-fired_as cron now x = enabled-rescheduled _ now x ∙ ground arith
  enabled-fired_as interval now x = enabled-rescheduled _ now x ∙ ground arith

  once_at-update :
      (i j : String) (now : ℕ) (rows : List ScheduleItem)
      → once_at i rows ≡ true
      → once_at i (update_where j (fired like text_le iso next_cron now) rows) ≡ true
  once_at-update i j now [] h = refl
  once_at-update i j now (r ∷ rows) h = elim (Bool-cases (str_eq r.id j)) [
    | inl e ↦ rw e (
        rw (id-fired like text_le iso next_cron now r)
          (rw (once-fired_as r.schedule_type now r) (ground (arith, once_at-update i j now rows))))
    | inr e ↦ rw e (ground (arith, once_at-update i j now rows))
  ]

  retired-update :
      (i j : String) (now : ℕ) (rows : List ScheduleItem)
      → retired i rows ≡ true
      → retired i (update_where j (fired like text_le iso next_cron now) rows) ≡ true
  retired-update i j now [] h = refl
  retired-update i j now (r ∷ rows) h = elim (Bool-cases (str_eq r.id j)) [
    | inl e ↦ rw e (
        rw (id-fired like text_le iso next_cron now r) (
          rw (enabled-fired_as r.schedule_type now r)
            (ground (arith, retired-update i j now rows))))
    | inr e ↦ rw e (ground (arith, retired-update i j now rows))
  ]

  retires :
      (i : String) (now : ℕ) (rows : List ScheduleItem)
      → once_at i rows ≡ true
      → retired i (update_where i (fired like text_le iso next_cron now) rows) ≡ true
  retires i now [] h = refl
  retires i now (r ∷ rows) h = elim (Bool-cases (str_eq r.id i)) [
    | inl e ↦ rw e (
        rw (id-fired like text_le iso next_cron now r)
          (rw (enabled-fired_as r.schedule_type now r) (ground (arith, retires i now rows))))
    | inr e ↦ rw e (ground (arith, retires i now rows))
  ]

  retired-due :
      (i : String) (t : ℕ) (rows : List ScheduleItem)
      → retired i rows ≡ true
      → contains i (ids (keep (is_due like text_le iso next_cron t) rows)) ≡ false
  retired-due i t [] h = refl
  retired-due i t (r ∷ rows) h = ground (arith, retired-due i t rows)

  sole-update :
      (i j : String) (now : ℕ) (rows : List ScheduleItem)
      → sole i rows ≡ true
      → sole i (update_where j (fired like text_le iso next_cron now) rows) ≡ true
  sole-update i j now [] h = refl
  sole-update i j now (r ∷ rows) h = elim (Bool-cases (str_eq r.id j)) [
    | inl e ↦
        rw e (
          rw (id-fired like text_le iso next_cron now r) (ground (arith, sole-update i j now rows)))
    | inr e ↦ rw e (ground (arith, sole-update i j now rows))
  ]

  present-update :
      (i j : String) (now : ℕ) (rows : List ScheduleItem)
      → any (has_id i) rows ≡ true
      → any (has_id i) (update_where j (fired like text_le iso next_cron now) rows) ≡ true
  present-update i j now [] h = cc
  present-update i j now (r ∷ rows) h = elim (Bool-cases (str_eq r.id j)) [
    | inl e ↦ rw e (
        rw (id-fired like text_le iso next_cron now r)
          (ground (arith, present-update i j now rows)))
    | inr e ↦ rw e (ground (arith, present-update i j now rows))
  ]

  -- A one-shot schedule that is in the table under an id whose pattern matches no other.
  record IsShot (i : String) (rows : List ScheduleItem) : Type 0 where
    shot_once : once_at i rows ≡ true
    shot_sole : sole i rows ≡ true
    shot_there : any (has_id i) rows ≡ true

  fetched_itself :
      (i : String) (y : ScheduleItem) (rows : List ScheduleItem)
      → sole i rows ≡ true
      → fetch_one (matches like text_le iso next_cron i) rows ≡ some y
      → has_id i y ≡ true
  fetched_itself i y [] s f = cc
  fetched_itself i y (r ∷ rows) s f = ground (arith, fetched_itself i y rows)

  fetched_some :
      (i : String) (rows : List ScheduleItem)
      → any (has_id i) rows ≡ true
      → fetch_one (matches like text_le iso next_cron i) rows ≡ none
      → true ≡ false
  fetched_some i [] h f = sym h
  fetched_some i (r ∷ rows) h f = ground (arith, fetched_some i rows)

  -- What holds of the rows before and after every firing holds after `mark_fired`.
  mark-keeps :
      (Q : List ScheduleItem → Type 0) (key : String) (now : ℕ) (s : SchedulerService)
      → ((j : String)
          → Q s.schedules
          → Q (update_where j (fired like text_le iso next_cron now) s.schedules))
      → Q s.schedules
      → Q (mark_fired like text_le iso next_cron key now s).1.schedules
  unfolding mark_fired mark_item
  mark-keeps Q key now s step h = by (get like text_le iso next_cron key s)
    where
      by : (o : Option ScheduleItem) → Q (mark_item like text_le iso next_cron now o s).1.schedules
      by none = h
      by (some x) = elim (Bool-cases (can_mark like text_le iso next_cron now x)) [
        | inl c ↦ rw c (step x.id h)
        | inr c ↦ rw c h
      ]

  mark-IsShot :
      (i key : String) (now : ℕ) (s : SchedulerService)
      → IsShot i s.schedules
      → IsShot i (mark_fired like text_le iso next_cron key now s).1.schedules
  mark-IsShot i key now s h =
      mark-keeps (IsShot i) key now s
        (λ j q. record {
          shot_once = once_at-update i j now s.schedules q.shot_once;
          shot_sole = sole-update i j now s.schedules q.shot_sole;
          shot_there = present-update i j now s.schedules q.shot_there;
        })
        h

  mark-retires :
      (i : String) (now : ℕ) (s : SchedulerService)
      → IsReady like text_le iso next_cron s.schedules
      → IsShot i s.schedules
      → retired i (mark_fired like text_le iso next_cron i now s).1.schedules ≡ true
  unfolding mark_fired mark_item get
  mark-retires i now s ready h =
      elim (Option-cases (fetch_one (matches like text_le iso next_cron i) s.schedules)) [
        | inl e ↦ ground (arith, fetched_some i s.schedules h.shot_there e)
        | inr (y, e) ↦ rw e (
            rw
              (
                fetched-can_mark like text_le iso next_cron i now y s ready e,
                (str_eq_iff y.id i).0 (fetched_itself i y s.schedules h.shot_sole e),
              )
              (retires i now s.schedules h.shot_once))
      ]

  mark-IsReady :
      (key : String) (now : ℕ) (s : SchedulerService)
      → IsReady like text_le iso next_cron s.schedules
      → IsReady like text_le iso next_cron
          (mark_fired like text_le iso next_cron key now s).1.schedules
  mark-IsReady key now s h =
      mark-keeps (IsReady like text_le iso next_cron) key now s
        (λ j q. update-IsReady like text_le iso next_cron j now s.schedules q) h

  -- Every due schedule is handed over.
  mark_all-fires :
      (clock : String → ℕ) (ds : List ScheduleItem) (s : SchedulerService)
      → IsReady like text_le iso next_cron s.schedules
      → (mark_all like text_le iso next_cron clock ds s).0 ≡ ds
  unfolding mark_all
  mark_all-fires clock [] s h = refl
  mark_all-fires clock (d ∷ ds) s h =
      ap (λ r. r.0) (mark_all-next like text_le iso next_cron clock d ds s h)
      ∙ ap (λ r. d ∷ r)
          (mark_all-fires clock ds (mark_fired like text_le iso next_cron d.id (clock d.id) s).1
            (mark-IsReady d.id (clock d.id) s h))

  mark_all-keeps :
      (Q : List ScheduleItem → Type 0) (clock : String → ℕ) (ds : List ScheduleItem)
      (s : SchedulerService)
      → ((j : String) (now : ℕ) (rows : List ScheduleItem)
          → Q rows
          → Q (update_where j (fired like text_le iso next_cron now) rows))
      → Q s.schedules
      → Q (mark_all like text_le iso next_cron clock ds s).1.schedules
  unfolding mark_all
  mark_all-keeps Q clock [] s step h = h
  mark_all-keeps Q clock (d ∷ ds) s step h =
      let s' = (mark_fired like text_le iso next_cron d.id (clock d.id) s).1 in
      let h' : Q s'.schedules =
        mark-keeps Q d.id (clock d.id) s (λ j q. step j (clock d.id) s.schedules q) h in
      elim (Bool-cases (is_value (mark_fired like text_le iso next_cron d.id (clock d.id) s).0)) [
        | inl e ↦ rw e (mark_all-keeps Q clock ds s' step h')
        | inr e ↦ rw e h'
      ]

  mark_all-retires :
      (i : String) (clock : String → ℕ) (ds : List ScheduleItem) (s : SchedulerService)
      → IsReady like text_le iso next_cron s.schedules
      → contains i (ids ds) ≡ true
      → IsShot i s.schedules
      → retired i (mark_all like text_le iso next_cron clock ds s).1.schedules ≡ true
  unfolding mark_all
  mark_all-retires i clock [] s ready c h = cc
  mark_all-retires i clock (d ∷ ds) s ready c h =
      rw (mark_all-next like text_le iso next_cron clock d ds s ready)
        (elim (Bool-cases (str_eq d.id i)) [
          | inl e ↦ rw ((str_eq_iff d.id i).0 e) (
              mark_all-keeps (λ rows. retired i rows ≡ true) clock ds
                (mark_fired like text_le iso next_cron i (clock i) s).1
                (λ j now rows. retired-update i j now rows) (mark-retires i (clock i) s ready h))
          | inr e ↦
              mark_all-retires i clock ds
                (mark_fired like text_le iso next_cron d.id (clock d.id) s).1
                (mark-IsReady d.id (clock d.id) s ready) (ground arith)
                (mark-IsShot i d.id (clock d.id) s h)
        ])

  -- A one-shot schedule that is due fires once: it is among those that the turn of the tick loop fires,
  -- and after the turn it is due at no time. Its id is in the table with one-shot rows only, the
  -- pattern of its id matches no other id, as for ids of one length, and no row of the table has a
  -- cron expression that raises with its time zone.
  pub tick-fires_once :
      (i : String) (now t : ℕ) (clock : String → ℕ) (s : SchedulerService)
      → IsReady like text_le iso next_cron s.schedules
      → once_at i s.schedules ≡ true
      → sole i s.schedules ≡ true
      → contains i (ids (get_due_schedules like text_le iso next_cron now s)) ≡ true
      → (contains i (ids (tick like text_le iso next_cron now clock s).0) ≡ true)
        × (contains i (
              ids (
                get_due_schedules like text_le iso next_cron t
                  (tick like text_le iso next_cron now clock s).1))
            ≡ false)
  unfolding tick get_due_schedules
  tick-fires_once i now t clock s ready o u c = (
    ap (λ r. contains i (ids r))
          (mark_all-fires clock (get_due_schedules like text_le iso next_cron now s) s ready)
        ∙ c,
    retired-due i t _ (
        mark_all-retires i clock (get_due_schedules like text_le iso next_cron now s) s ready c
          (record {
            shot_once = o;
            shot_sole = u;
            shot_there = contains-keep_id i (is_due like text_le iso next_cron now) s.schedules c;
          })),
  )
