-- ===== src/Scheduler/Store.antt =====
-- The operations of `SchedulerService` in jarvis/services/scheduler_service.py.
use jarvis_server.Prelude.{
  ℕ, String, Bool, true, false, not, ◌&&◌, ◌||◌, Option, none, some, List, [], ◌∷◌, ◌++◌, str_eq,
  is_some, keep, any, if◌then◌else◌, ◌>>=◌, get_or,
}
use jarvis_server.Prelude.Text.{concat}
use jarvis_server.Scheduler.{
  ScheduleType, once, cron, interval, schedule_type_value, to_schedule_type, ScheduleItem,
  SchedulerService, given_text, given_int, add_seconds, fetch_one, update_where, with_schedules,
  CreateArgs, Change, set_name, set_schedule_type, set_cron_expression, set_interval_seconds,
  set_next_run, set_request_text, set_timezone, set_source_agent, set_enabled, skipped,
}

-- How a call ends: with a value, or with an exception: the IntegrityError of a primary key that is
-- taken, or another, which is a ValueError or what `_compute_next_cron_run` raises (`next_cron` is
-- `none`) on an expression or a time zone that is none.
pub data Outcome {ℓ} (A : Type ℓ) : Type ℓ where
  value : A → Outcome A
  value_error integrity_error : Outcome A

abbrev pub is_value {ℓ} : {A : Type ℓ} → Outcome A → Bool
is_value (value a) = true
is_value value_error = false
is_value integrity_error = false

-- The updates that the loop of `update` collects, or the ValueError of `ScheduleType(value)`.
abbrev is_update : Change → Bool
is_update (skipped key) = false
is_update _ = true

abbrev apply_change : Change → ScheduleItem → Option ScheduleItem
apply_change (set_name v) x = some (record x { name = v })
apply_change (set_schedule_type v) x =
    to_schedule_type v >>= λ t. some (record x { schedule_type = t })
apply_change (set_cron_expression v) x = some (record x { cron_expression = v })
apply_change (set_interval_seconds v) x = some (record x { interval_seconds = v })
apply_change (set_next_run v) x = some (record x { next_run = v })
apply_change (set_request_text v) x = some (record x { request_text = v })
apply_change (set_timezone v) x = some (record x { timezone = v })
apply_change (set_source_agent v) x = some (record x { source_agent = v })
apply_change (set_enabled v) x = some (record x { enabled = v })
apply_change (skipped key) x = some x

abbrev apply_changes : List Change → ScheduleItem → Option ScheduleItem
apply_changes [] x = some x
apply_changes (c ∷ cs) x = apply_change c x >>= apply_changes cs

abbrev pub is_none_or {ℓ} : {A : Type ℓ} → (A → Bool) → Option A → Bool
is_none_or p none = true
is_none_or p (some a) = p a

abbrev same_flag : Bool → Bool → Bool
same_flag true b = b
same_flag false b = not b

abbrev is_source : String → Option String → Bool
is_source s none = false
is_source s (some t) = str_eq t s

abbrev get_wake_routine : SchedulerService → String
get_wake_routine s =
    get_or "Turn on the lights and tell me about my first calendar event today." s.wake_routine

abbrev set_wake_routine : String → SchedulerService → String × SchedulerService
set_wake_routine routine s = (routine, record s { wake_routine = some routine })

module _ (like : String → String → Bool) (text_le : String → String → Bool) (iso : ℕ → String)
    (next_cron : String → String → ℕ → Option String) where
  -- `id = ? OR id LIKE ?` with the pattern `f"{schedule_id}%"`
  abbrev pub matches : String → ScheduleItem → Bool
  matches key x = str_eq x.id key || like (concat (key ∷ "%" ∷ [])) x.id

  unfoldable pub get : String → SchedulerService → Option ScheduleItem
  get key s = fetch_one (matches key) s.schedules

  -- The first run of a new schedule; `none` is an exception.
  unfoldable pub first_run : ScheduleType → CreateArgs → ℕ → Option String
  first_run once a now = given_text a.run_at
  first_run cron a now = given_text a.cron_expression >>= λ e. next_cron e a.timezone now
  first_run interval a now = given_int a.interval_seconds >>= λ n. some (iso (add_seconds now n))

  -- INSERT, which fails if the primary key is taken
  abbrev pub insert : ScheduleItem → SchedulerService → Outcome ScheduleItem × SchedulerService
  insert x s =
      if any (λ r. str_eq r.id x.id) s.schedules
      then (integrity_error, s)
      else (value x, with_schedules (λ rows. rows ++ x ∷ []) s)

  abbrev pub new_item : String → ScheduleType → String → CreateArgs → ℕ → ScheduleItem
  new_item id stype next a now = record {
    id = id;
    name = a.name;
    schedule_type = stype;
    cron_expression = a.cron_expression;
    interval_seconds = a.interval_seconds;
    next_run = next;
    last_run = none;
    request_text = a.request_text;
    timezone = a.timezone;
    user_id = a.user_id;
    source_agent = a.source_agent;
    enabled = true;
    created_at = iso now;
    updated_at = iso now;
    created_by = a.created_by;
  }

  abbrev pub create_with :
      String
      → Option (ScheduleType × String)
      → CreateArgs
      → ℕ
      → SchedulerService
      → Outcome ScheduleItem × SchedulerService
  create_with id none a now s = (value_error, s)
  create_with id (some (stype, next)) a now s = insert (new_item id stype next a now) s

  unfoldable pub create :
      String → CreateArgs → ℕ → SchedulerService → Outcome ScheduleItem × SchedulerService
  unfolding first_run
  create id a now s =
      create_with id
        (to_schedule_type a.schedule_type >>= λ t. first_run t a now >>= λ n. some (t, n)) a now s

  unfoldable update_item :
      List Change
      → ℕ
      → Option ScheduleItem
      → SchedulerService
      → Outcome (Option ScheduleItem) × SchedulerService
  unfolding get
  update_item cs now none s = (value none, s)
  update_item cs now (some x) s =
      if is_some (apply_changes cs x)
      then (if any is_update cs
          then (let s' =
                with_schedules
                  (update_where x.id
                    (λ r. record (get_or r (apply_changes cs r)) { updated_at = iso now }))
                  s in
              (value (get x.id s'), s'))
          else (value (some x), s))
      else (value_error, s)

  unfoldable update :
      String → List Change → ℕ → SchedulerService → Outcome (Option ScheduleItem) × SchedulerService
  unfolding get update_item
  update key cs now s = update_item cs now (get key s) s

  abbrev delete_item : Option ScheduleItem → SchedulerService → Bool × SchedulerService
  delete_item none s = (false, s)
  delete_item (some x) s = (true, with_schedules (keep (λ r. not (str_eq r.id x.id))) s)

  unfoldable pub delete : String → SchedulerService → Bool × SchedulerService
  unfolding get
  delete key s = delete_item (get key s) s

  abbrev enable : String → ℕ → SchedulerService → Outcome (Option ScheduleItem) × SchedulerService
  enable key = update key (set_enabled true ∷ [])

  abbrev disable : String → ℕ → SchedulerService → Outcome (Option ScheduleItem) × SchedulerService
  disable key = update key (set_enabled false ∷ [])

  -- `enabled = 1 AND next_run <= now`
  abbrev pub is_due : ℕ → ScheduleItem → Bool
  is_due now x = x.enabled && text_le x.next_run (iso now)

  unfoldable pub get_due_schedules : ℕ → SchedulerService → List ScheduleItem
  get_due_schedules now s = keep (is_due now) s.schedules

  -- The row after it fired: the three branches of `mark_fired`, and none of them.
  abbrev pub rescheduled : Option String → ℕ → ScheduleItem → ScheduleItem
  rescheduled none now x = x
  rescheduled (some next) now x = record x {
    next_run = next;
    last_run = some (iso now);
    updated_at = iso now;
  }

  abbrev pub fired_as : ScheduleType → ℕ → ScheduleItem → ScheduleItem
  fired_as once now x = record x {
    enabled = false;
    last_run = some (iso now);
    updated_at = iso now;
  }
  fired_as cron now x =
      rescheduled (given_text x.cron_expression >>= λ e. next_cron e x.timezone now) now x
  fired_as interval now x =
      rescheduled (given_int x.interval_seconds >>= λ n. some (iso (add_seconds now n))) now x

  abbrev pub fired : ℕ → ScheduleItem → ScheduleItem
  fired now x = fired_as x.schedule_type now x

  -- Whether `_compute_next_cron_run` returns, for a row whose next run it computes.
  abbrev pub can_mark_as : ScheduleType → ℕ → ScheduleItem → Bool
  can_mark_as once now x = true
  can_mark_as cron now x =
      is_none_or (λ e. is_some (next_cron e x.timezone now)) (given_text x.cron_expression)
  can_mark_as interval now x = true

  abbrev pub can_mark : ℕ → ScheduleItem → Bool
  can_mark now x = can_mark_as x.schedule_type now x

  unfoldable pub mark_item :
      ℕ → Option ScheduleItem → SchedulerService → Outcome (Option ScheduleItem) × SchedulerService
  unfolding get
  mark_item now none s = (value none, s)
  mark_item now (some x) s =
      if can_mark now x
      then (let s' = with_schedules (update_where x.id (fired now)) s in (value (get x.id s'), s'))
      else (value_error, s)

  unfoldable pub mark_fired :
      String → ℕ → SchedulerService → Outcome (Option ScheduleItem) × SchedulerService
  unfolding get mark_item
  mark_fired key now s = mark_item now (get key s) s

  -- `list`, its filters as the query has them. The rows are sorted by the time of creation, the newest
  -- first, which `newest_first` stands for.
  abbrev passes : Option Bool → Option String → Option String → ScheduleItem → Bool
  passes enabled stype source x =
      is_none_or (λ e. same_flag e x.enabled) enabled
      && is_none_or (λ t. str_eq t (schedule_type_value x.schedule_type)) (given_text stype)
      && is_none_or (λ a. is_source a x.source_agent) (given_text source)

  unfoldable list :
      (List ScheduleItem → List ScheduleItem)
      → Option Bool
      → Option String
      → Option String
      → SchedulerService
      → List ScheduleItem
  list newest_first enabled stype source s =
      newest_first (keep (passes enabled stype source) s.schedules)

  -- One turn of `_tick_loop` where an orchestrator is set: every due schedule is marked, at its own
  -- reading of the clock, and the request of the row that was read is handed to the orchestrator. An
  -- exception of `mark_fired` ends the turn: the row and those after it are not handed over.
  unfoldable pub mark_all :
      (String → ℕ) → List ScheduleItem → SchedulerService → List ScheduleItem × SchedulerService
  mark_all clock [] s = ([], s)
  mark_all clock (x ∷ xs) s =
      let r = mark_fired x.id (clock x.id) s in
      let rest = mark_all clock xs r.1 in if is_value r.0 then (x ∷ rest.0, rest.1) else ([], r.1)

  unfoldable pub tick : ℕ → (String → ℕ) → SchedulerService → List ScheduleItem × SchedulerService
  unfolding get_due_schedules mark_all
  tick now clock s = mark_all clock (get_due_schedules now s) s
