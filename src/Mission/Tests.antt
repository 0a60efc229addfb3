-- ===== src/Mission/Tests.antt =====
-- Instances of the theorems on missions.
use jarvis_server.Prelude.{◌≡◌, some, [], ◌∷◌}
use jarvis_server.Prelude.Int.{pos}
use jarvis_server.Value.{text, nil, end, field}
use jarvis_server.Mission.{complex, MissionBudget, MissionBrief}
use jarvis_server.Mission.Codec.{to_dict, from_dict, from_dict-to_dict}

abbrev pub budget : MissionBudget
budget = record {
  max_depth = pos 3;
  remaining_depth = pos 3;
  deadline = 100;
  max_recruitments = pos 5;
  remaining_recruitments = pos 5;
}

abbrev pub brief : MissionBrief
brief = record {
  user_input = "plan my evening";
  complexity = complex;
  lead_agent = "ChatAgent";
  lead_capability = "chat";
  budget = budget;
  context = record {
    user_input = "plan my evening";
    conversation_history = nil;
    recruitment_results =
        record { agent = "SearchAgent"; capability = "search"; result = text "x" } ∷ [];
    recruitment_chain = "ChatAgent" ∷ [];
  };
  available_capabilities =
      ("ChatAgent", "chat" ∷ [])
      ∷ ("SearchAgent", "search" ∷ "news" ∷ [])
      ∷ ("LightsAgent", "lights_on" ∷ [])
      ∷ [];
  metadata = field "source" (text "cli") end;
}

from_dict-to_dict_example : from_dict (to_dict brief) ≡ some brief
from_dict-to_dict_example = from_dict-to_dict brief
