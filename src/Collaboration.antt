-- ===== src/Collaboration.antt =====
-- jarvis/agents/collaboration.py with jarvis/agents/dialogue.py: recruitment of other agents by a
-- lead, and dialogues with them. A call that waits on the network is two steps here: what runs up to
-- the wait, under the budget lock, and what runs with the answer.
pub mod Dialogue
pub mod Interleaving
pub mod Rounds
pub mod Turns
pub mod Lead
pub mod Paid
pub mod Bounds
pub mod LeadTests
pub mod Tests
use jarvis_server.Prelude.{
  ℕ, String, Bool, true, false, not, ◌&&◌, Option, none, some, List, [], ◌∷◌, ◌++◌, str_eq,
  contains, if◌then◌else◌,
}
use Prim.Native.String.{◌++◌ as append_text}
use jarvis_server.Prelude.Int.{ℤ, pred_ℤ}
use jarvis_server.Prelude.Dict.{Dict}
use jarvis_server.Value.{Value, Fields, text, obj, end, field}
use jarvis_server.Mission.{
  MissionBudget, MissionContext, MissionBrief, is_expired, can_recruit, add_result, has_visited,
}

pub data RecruitError : Type 0 where
  budget_exhausted : (remaining_depth remaining_recruitments : ℤ) → Bool → RecruitError
  capability_not_found : String → RecruitError
  circular_recruitment : List String → RecruitError

-- `_find_capability_provider`: the first agent in the order of the catalog, never the agent itself.
unfoldable pub find_capability_provider : String → String → Dict (List String) → Option String
find_capability_provider self capability [] = none
find_capability_provider self capability ((agent, caps) ∷ rest) =
    if contains capability caps && not (str_eq agent self)
    then some agent
    else find_capability_provider self capability rest

-- `get_recruitable_capabilities`
unfoldable get_recruitable_capabilities : String → Dict (List String) → Dict (List String)
get_recruitable_capabilities self [] = []
get_recruitable_capabilities self ((agent, caps) ∷ rest) =
    let others = get_recruitable_capabilities self rest in
    if str_eq agent self then others else (agent, caps) ∷ others

pub data Guarded : Type 0 where
  granted : String → Guarded
  refused : RecruitError → Guarded

-- `if not provider_agent`: the empty name is no provider.
abbrev given_name : Option String → Option String
given_name none = none
given_name (some agent) = if str_eq agent "" then none else some agent

abbrev check_provider : MissionBrief → String → Option String → Guarded
check_provider brief capability none = refused (capability_not_found capability)
check_provider brief capability (some agent) =
    if has_visited brief.context agent
    then refused (circular_recruitment (brief.context.recruitment_chain ++ agent ∷ []))
    else granted agent

-- The guards of `recruit` and of `dialogue`, in their order.
unfoldable pub check_recruit : String → String → MissionBrief → ℕ → Guarded
check_recruit self capability brief now =
    let budget = brief.budget in
    if can_recruit budget now
    then check_provider brief capability
        (given_name (find_capability_provider self capability brief.available_capabilities))
    else refused (
        budget_exhausted budget.remaining_depth budget.remaining_recruitments
          (is_expired budget now))

-- `budget.remaining_recruitments -= 1`
abbrev pub spend : MissionBrief → MissionBrief
spend brief = record brief {
  budget = record brief.budget {
    remaining_recruitments = pred_ℤ brief.budget.remaining_recruitments;
  };
}

abbrev pub spend_if : Guarded → MissionBrief → MissionBrief
spend_if (granted agent) brief = spend brief
spend_if (refused e) brief = brief

-- The first half of `recruit`: the atomic check and decrement.
unfoldable pub reserve : String → String → MissionBrief → ℕ → Guarded × MissionBrief
unfolding check_recruit
reserve self capability brief now =
    let outcome = check_recruit self capability brief now in (outcome, spend_if outcome brief)

-- How the wait for the recruited agent ends.
pub data Answer : Type 0 where
  answered : Value → Answer
  timed_out : String → Answer
  failed : String → Answer

-- The second half of `recruit`: an exception of the wait passes through and records nothing.
unfoldable pub complete : String → String → Answer → MissionBrief → MissionBrief
unfolding add_result
complete agent capability (answered v) brief = record brief {
  context = add_result agent capability v brief.context;
}
complete agent capability (timed_out message) brief = brief
complete agent capability (failed message) brief = brief

pub data RecruitResult : Type 0 where
  returned : Value → RecruitResult
  raised : RecruitError → RecruitResult
  raised_timeout : String → RecruitResult
  raised_other : String → RecruitResult

abbrev as_result : Answer → RecruitResult
as_result (answered v) = returned v
as_result (timed_out message) = raised_timeout message
as_result (failed message) = raised_other message

abbrev pub recruit_outcome : String → Answer → Guarded → MissionBrief → RecruitResult × MissionBrief
recruit_outcome capability answer (granted agent) brief =
    (as_result answer, complete agent capability answer brief)
recruit_outcome capability answer (refused e) brief = (raised e, brief)

-- `recruit` with no other task of the lead in between.
unfoldable pub recruit : String → String → MissionBrief → ℕ → Answer → RecruitResult × MissionBrief
unfolding reserve complete
recruit self capability brief now answer =
    let (outcome, brief') = reserve self capability brief now in
    recruit_outcome capability answer outcome brief'

-- `_handle_recruit_tool_call`: every exception becomes an error entry. `message_of` is the text of
-- an exception, `text_of` that of a value that is no dictionary.
module _ (message_of : RecruitError → String) (text_of : Value → String) where
  abbrev tool_result : RecruitResult → Value
  tool_result (returned (obj fs)) = obj fs
  tool_result (returned v) = obj (field "response" (text (text_of v)) end)
  tool_result (raised e) = obj (field "error" (text (message_of e)) end)
  tool_result (raised_timeout m) =
      obj (field "error" (text (append_text "Recruitment failed: " m)) end)
  tool_result (raised_other m) =
      obj (field "error" (text (append_text "Recruitment failed: " m)) end)

  unfoldable pub handle_recruit_tool_call :
      String → String → MissionBrief → ℕ → Answer → Value × MissionBrief
  unfolding recruit
  handle_recruit_tool_call self capability brief now answer =
      let (result, brief') = recruit self capability brief now answer in
      (tool_result result, brief')
