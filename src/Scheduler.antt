-- ===== src/Scheduler.antt =====
-- jarvis/services/scheduler_service.py: the store of scheduled tasks. The table is the list of its
-- rows in the order of the table, a clock reading is a number of seconds, and a time as it is stored
-- is its ISO text. Parameters: the pattern test of SQL (`like`), the order of texts in SQL
-- (`text_le`), the text of a time (`iso`) and the computation of cron times (`next_cron`),
-- which is `none` where `croniter` or `ZoneInfo` raises. The overflow of dates is not modelled.
use jarvis_server.Prelude.{
  ℕ, zero, suc, String, Bool, true, false, not, ◌&&◌, ◌||◌, Option, none, some, List, [], ◌∷◌, ◌++◌,
  map, ◌+◌, ◌-◌, str_eq, is_some, keep, any, if◌then◌else◌, ◌>>=◌,
}
use jarvis_server.Prelude.Int.{ℤ, pos, negsuc}
use jarvis_server.Prelude.Text.{concat}
pub mod Store
pub mod Rows
pub mod Firing
pub mod Lookup
pub mod Ready
pub mod Once
pub mod Tests

pub data ScheduleType : Type 0 where
  once cron interval : ScheduleType

abbrev pub schedule_type_value : ScheduleType → String
schedule_type_value once = "once"
schedule_type_value cron = "cron"
schedule_type_value interval = "interval"

-- `ScheduleType(value)`, which raises a ValueError for any other text
abbrev pub to_schedule_type : String → Option ScheduleType
to_schedule_type s =
    if str_eq s "once"
    then some once
    else if str_eq s "cron"
    then some cron
    else if str_eq s "interval"
    then some interval
    else none

pub record ScheduleItem : Type 0 where
  pub id : String
  pub name : String
  pub schedule_type : ScheduleType
  pub cron_expression : Option String
  pub interval_seconds : Option ℤ
  pub next_run : String
  pub last_run : Option String
  pub request_text : String
  pub timezone : String
  pub user_id : ℤ
  pub source_agent : Option String
  pub enabled : Bool
  pub created_at : String
  pub updated_at : String
  pub created_by : String

pub record SchedulerService : Type 0 where
  pub schedules : List ScheduleItem
  pub wake_routine : Option String

-- `not text`, for an optional text
abbrev pub given_text : Option String → Option String
given_text none = none
given_text (some s) = if str_eq s "" then none else some s

-- `if interval_seconds`
abbrev pub given_int : Option ℤ → Option ℤ
given_int none = none
given_int (some (pos zero)) = none
given_int (some n) = some n

-- `now + timedelta(seconds=n)`, for a time that is not before the start of the clock
abbrev pub add_seconds : ℕ → ℤ → ℕ
add_seconds now (pos n) = now + n
add_seconds now (negsuc n) = now - suc n

-- `fetchone` over a WHERE clause
abbrev pub fetch_one : (ScheduleItem → Bool) → List ScheduleItem → Option ScheduleItem
fetch_one p [] = none
fetch_one p (x ∷ xs) = if p x then some x else fetch_one p xs

-- `UPDATE schedules SET ... WHERE id = ?`
abbrev pub update_where :
    String → (ScheduleItem → ScheduleItem) → List ScheduleItem → List ScheduleItem
update_where id f [] = []
update_where id f (x ∷ xs) = (if str_eq x.id id then f x else x) ∷ update_where id f xs

abbrev pub with_schedules :
    (List ScheduleItem → List ScheduleItem) → SchedulerService → SchedulerService
with_schedules f s = record s { schedules = f s.schedules }

-- The arguments of `create`.
pub record CreateArgs : Type 0 where
  pub name : String
  pub schedule_type : String
  pub request_text : String
  pub cron_expression : Option String
  pub interval_seconds : Option ℤ
  pub run_at : Option String
  pub timezone : String
  pub user_id : ℤ
  pub source_agent : Option String
  pub created_by : String

-- The fields that `update` accepts; any other key is skipped.
pub data Change : Type 0 where
  set_name : String → Change
  set_schedule_type : String → Change
  set_cron_expression : Option String → Change
  set_interval_seconds : Option ℤ → Change
  set_next_run : String → Change
  set_request_text : String → Change
  set_timezone : String → Change
  set_source_agent : Option String → Change
  set_enabled : Bool → Change
  skipped : String → Change
