-- ===== src/Collaboration/LeadTests.antt =====
-- Instances of the theorems on the tool loop of a lead agent.
use jarvis_server.Prelude.{
  ℕ, zero, suc, ◌+◌, ◌<◌, ◌≡◌, refl, String, Option, none, some, [], ◌∷◌, arith, ltb, if◌then◌else◌,
  lt→ltb,
}
use jarvis_server.Prelude.Int.{ℤ}
use jarvis_server.Value.{text, end}
use jarvis_server.Mission.{is_expired}
use jarvis_server.Mission.Tests.{brief}
use jarvis_server.Collaboration.{RecruitError, answered}
use jarvis_server.Collaboration.Tests.{shown, world}
use jarvis_server.Collaboration.Lead.{
  ToolCall, ToolWorld, replied, returns, LeadWorld, LeadState, lead_response, execute_as_lead,
  lead_loop, exec_tools, exec_tool,
}
use jarvis_server.Collaboration.Bounds.{IsMission, execute_as_lead-IsMission}

abbrev told : RecruitError → String
told e = "refused"

abbrev no_int : String → Option ℤ
no_int s = none

abbrev outside : ToolWorld
outside = record {
  now = 8;
  answer = answered (text "found");
  turns = world;
  own = returns (text "ok");
}

abbrev own_call : ToolCall
own_call = record { id = "t1"; name = "add_event"; arguments = some end; raw = "{}" }

-- One call of an own tool, and then the final reply
abbrev lead : ℕ → LeadWorld
lead zero = record { check_time = 8; chat = replied none ((own_call, outside) ∷ []) }
lead (suc n) = record { check_time = 9; chat = replied (some "All done.") [] }

abbrev acted : LeadState
acted = record {
  brief = brief;
  actions = record { function = "add_event"; arguments = end; result = text "ok" } ∷ [];
  iterations = 1;
  response = some (some "All done.");
}

mission_ends :
    execute_as_lead told shown no_int "ChatAgent" lead 7 9 brief
    ≡ some (lead_response told shown no_int "ChatAgent" 9 acted)
unfolding execute_as_lead lead_loop exec_tools exec_tool is_expired
mission_ends = refl

execute_as_lead-IsMission_example :
    IsMission told shown no_int "ChatAgent" brief
      (lead_response told shown no_int "ChatAgent" 9 acted)
execute_as_lead-IsMission_example =
    execute_as_lead-IsMission told shown no_int "ChatAgent" lead 7 9 brief
      (lead_response told shown no_int "ChatAgent" 9 acted) mission_ends

-- A model that goes on forever differs from this one after the last reply that is asked for.
abbrev endless : ℕ → LeadWorld
endless i = if ltb i 8 then lead i else lead 0

agree : (k : ℕ) → k < 5 + 3 → lead k ≡ endless k
agree k l = rw (lt→ltb k 8 (omega arith)) refl
