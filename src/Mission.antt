-- ===== src/Mission.antt =====
-- jarvis/core/mission.py: budgets, contexts and briefs of missions. Counts are signed, as a child
-- budget may fall below zero; the time of `time.time()` is an argument, in whole units.
pub mod Codec
pub mod Budgets
pub mod Tests
use jarvis_server.Prelude.{ℕ, ◌-◌, String, Bool, not, ◌&&◌, List, [], ◌∷◌, ◌++◌, leb, contains}
use jarvis_server.Prelude.Int.{ℤ, pos, pred_ℤ, is_pos}
use jarvis_server.Prelude.Dict.{Dict}
use jarvis_server.Value.{Value, Fields, Items}

pub data MissionComplexity : Type 0 where
  simple complex : MissionComplexity

pub record MissionBudget : Type 0 where
  pub max_depth : ℤ
  pub remaining_depth : ℤ
  pub deadline : ℕ
  pub max_recruitments : ℤ
  pub remaining_recruitments : ℤ

-- `max(0.0, deadline - time.time())`
unfoldable pub time_remaining : MissionBudget → ℕ → ℕ
time_remaining b now = b.deadline - now

unfoldable pub is_expired : MissionBudget → ℕ → Bool
is_expired b now = leb b.deadline now

unfoldable pub can_recruit : MissionBudget → ℕ → Bool
unfolding is_expired
can_recruit b now =
    is_pos b.remaining_depth && (is_pos b.remaining_recruitments && not (is_expired b now))

unfoldable pub child_budget : MissionBudget → MissionBudget
child_budget b = record b {
  remaining_depth = pred_ℤ b.remaining_depth;
  remaining_recruitments = pred_ℤ b.remaining_recruitments;
}

-- One entry of `recruitment_results`.
pub record RecruitmentResult : Type 0 where
  pub agent : String
  pub capability : String
  pub result : Value

pub record MissionContext : Type 0 where
  pub user_input : String
  pub conversation_history : Items
  pub recruitment_results : List RecruitmentResult
  pub recruitment_chain : List String

unfoldable pub add_result : String → String → Value → MissionContext → MissionContext
add_result agent capability result c = record c {
  recruitment_results =
      c.recruitment_results
      ++ record { agent = agent; capability = capability; result = result } ∷ [];
}

unfoldable pub has_visited : MissionContext → String → Bool
has_visited c agent = contains agent c.recruitment_chain

pub record MissionBrief : Type 0 where
  pub user_input : String
  pub complexity : MissionComplexity
  pub lead_agent : String
  pub lead_capability : String
  pub budget : MissionBudget
  pub context : MissionContext
  pub available_capabilities : Dict (List String)
  pub metadata : Fields
