-- ===== src/Scheduler/Tests.antt =====
-- Instances of the theorems on jarvis/services/scheduler_service.py, and a run of it. Times are
-- written in unary, so that the order of texts by length is the order of the times.
use Prim.Native.String.{count}
use text.Mathlib.TextLemmas.{length-append}
use jarvis_server.Prelude.{
  contains, false, ℕ, zero, suc, String, ◌≡◌, refl, Bool, true, ◌||◌, Option, none, some, [], ◌∷◌,
  ◌+◌, arith, leb, str_eq,
}
use jarvis_server.Prelude.Int.{pos}
use jarvis_server.Prelude.Text.{concat}
use jarvis_server.Scheduler.{once, cron, interval, ScheduleItem, SchedulerService, CreateArgs}
use jarvis_server.Scheduler.Store.{
  get, new_item, get_due_schedules, mark_fired, mark_item, mark_all, tick,
}
use jarvis_server.Scheduler.Firing.{DueAfter, due-mark_fired}
use jarvis_server.Scheduler.Rows.{ids}
use jarvis_server.Scheduler.Once.{tick-fires_once}

abbrev like : String → String → Bool
like p s = str_eq p "%" || str_eq p (concat (s ∷ "%" ∷ []))

abbrev text_le : String → String → Bool
text_le s t = leb (count s) (count t)

unfoldable iso : ℕ → String
unfolding concat
iso zero = ""
iso (suc n) = concat ("|" ∷ iso n ∷ [])

abbrev next_cron : String → String → ℕ → Option String
next_cron e tz now = some (iso (now + 60))

count-iso : (n : ℕ) → count (iso n) ≡ n
unfolding iso concat
count-iso zero = refl
count-iso (suc n) =
    rw (length-append "|" _) (rw (length-append (iso n) "") (rw (count-iso n) (omega arith)))

ordered : (a b : ℕ) → text_le (iso a) (iso b) ≡ leb a b
ordered a b = rw (count-iso a) (rw (count-iso b) refl)

abbrev args : CreateArgs
args = record {
  name = "news";
  schedule_type = "interval";
  request_text = "read the news";
  cron_expression = none;
  interval_seconds = some (pos 30);
  run_at = none;
  timezone = "UTC";
  user_id = pos 0;
  source_agent = none;
  created_by = "user";
}

abbrev item : String → ScheduleItem
item id = new_item like text_le iso next_cron id interval (iso 5) args 2

abbrev service : SchedulerService
service = record { schedules = item "aa" ∷ item "bb" ∷ []; wake_routine = none }

due-mark_fired_example :
    DueAfter like text_le iso next_cron
      (item "bb")
      7
      40
      service
      (mark_fired like text_le iso next_cron "bb" 7 service).1
unfolding get concat
due-mark_fired_example =
    due-mark_fired like text_le iso next_cron ordered "bb" 7 40 (item "bb") service refl refl

abbrev shots : SchedulerService
shots = record {
  schedules = record (item "aa") { schedule_type = once } ∷ item "bb" ∷ [];
  wake_routine = none;
}

tick-fires_once_example :
    (contains "aa" (ids (tick like text_le iso next_cron 9 (λ i. 9) shots).0) ≡ true)
    × (contains "aa" (
          ids (
            get_due_schedules like text_le iso next_cron 50
              (tick like text_le iso next_cron 9 (λ i. 9) shots).1))
        ≡ false)
unfolding iso concat get_due_schedules
tick-fires_once_example =
    tick-fires_once like text_le iso next_cron "aa" 9 50 (λ i. 9) shots (λ n. refl) refl refl refl

-- A cron expression that raises ends the turn: the one-shot schedule behind it does not fire.
abbrev raising : String → String → ℕ → Option String
raising e tz now = none

abbrev broken : SchedulerService
broken = record {
  schedules =
      record (item "bb") { schedule_type = cron; cron_expression = some "never" }
      ∷ record (item "aa") { schedule_type = once }
      ∷ [];
  wake_routine = none;
}

tick-stops : tick like text_le iso raising 9 (λ i. 9) broken ≡ ([], broken)
unfolding iso concat get get_due_schedules mark_all mark_fired mark_item tick
tick-stops = refl
