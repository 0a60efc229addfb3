-- ===== src/Orchestrator/Tests.antt =====
-- Instances of the theorems on jarvis/core/orchestrator.py, and a mission that is dispatched.
use jarvis_server.Prelude.{
  String, ◌≡◌, refl, Bool, true, false, not, ◌&&◌, none, some, [], ◌∷◌, arith, contains, str_eq,
}
use jarvis_server.Prelude.Int.{pos}
use jarvis_server.Prelude.Dict.{get, put}
use jarvis_server.Value.{Value, null, text, obj, end, field, field_of, set_field, flag}
use jarvis_server.Orchestrator.{
  Turn, Orchestrator, run_raised, parsed, answered, expired, World, Caller,
}
use jarvis_server.Orchestrator.Catalog.{
  is_permitted, build_capability_catalog, listed, provides, listed-build_capability_catalog,
}
use jarvis_server.Orchestrator.Answers.{dispatch_mission, extract_response_text, process_request}
use jarvis_server.Orchestrator.History.{IsCapped, process_request-IsCapped}
use jarvis_server.Orchestrator.Leads.{OnlySound, process_request-OnlySound}

abbrev shown : Value → String
shown v = "shown"

abbrev same_text : String → String
same_text s = s

abbrev in_text : String → String → Bool
in_text s t = str_eq s t

abbrev old_turn : Turn
old_turn = record { user = "hello"; assistant = text "good evening" }

abbrev state : Orchestrator
state = record {
  agents = "ChatAgent" ∷ "CalendarAgent" ∷ "NLUAgent" ∷ [];
  capability_registry =
      ("chat", "ChatAgent" ∷ [])
      ∷ ("add_event", "CalendarAgent" ∷ [])
      ∷ ("intent_matching", "NLUAgent" ∷ [])
      ∷ [];
  has_protocol_runtime = true;
  has_ai_client = true;
  enable_coordinator = true;
  feedback_collector = none;
  response_timeout = 15;
  max_history_length = pos 2;
  conversation_history = λ u. old_turn ∷ old_turn ∷ [];
  night_mode = false;
  requests = [];
  interactions = [];
}

abbrev world : World
world = record {
  now = 100;
  matched = none;
  run = run_raised "unused";
  triage = parsed (
      obj (
        field "complexity" (text "complex") (
          field "lead_agent" (text "CalendarAgent")
            (field "lead_capability" (text "add_event") end))));
  mission = answered (obj (field "response" (text "the meeting is set") end));
  nlu = expired;
  correction_id = "c1";
  timestamp = "now";
}

abbrev caller : Caller
caller = record { user_id = pos 1; source = null; allowed_agents = none }

-- The coordinator answers with the lead's text.
coordinator_answers :
    (process_request shown same_text in_text shown "plan my day" caller world state).0
    ≡ obj (
        field "response"
          (text "the meeting is set")
          (field "coordinator" (flag true) (field "lead_agent" (text "CalendarAgent") end)))
unfolding process_request dispatch_mission extract_response_text get put field_of set_field
coordinator_answers = refl

listed-build_capability_catalog_example :
    contains "add_event" (
      listed "CalendarAgent"
        (build_capability_catalog (some ("ChatAgent" ∷ [])) state.capability_registry))
    ≡ (is_permitted (some ("ChatAgent" ∷ [])) "CalendarAgent"
        && (not (str_eq "add_event" "intent_matching")
            && provides "CalendarAgent" "add_event" state.capability_registry))
listed-build_capability_catalog_example =
    listed-build_capability_catalog (some ("ChatAgent" ∷ [])) state.capability_registry
      "CalendarAgent" "add_event"

process_request-IsCapped_example :
    IsCapped
      (pos 2)
      (process_request shown same_text in_text shown "plan my day" caller world state).1
process_request-IsCapped_example =
    process_request-IsCapped shown same_text in_text shown caller "plan my day" world (pos 2) state
      refl (refl, λ u. omega arith)

process_request-OnlySound_example :
    OnlySound caller state
      (process_request shown same_text in_text shown "plan my day" caller world state).1
process_request-OnlySound_example =
    process_request-OnlySound shown same_text in_text shown caller "plan my day" world state
