-- ===== src/Orchestrator/Routing.antt =====
-- The stages of `process_request` in jarvis/core/orchestrator.py before the answers of other agents:
-- night mode, negative feedback, a matching protocol, and the triage of the coordinator. One request
-- is processed at a time, and the calls of the response logger do not raise.
use jarvis_server.Prelude.{
  String, Bool, true, false, Option, none, some, List, [], ◌∷◌, ◌+◌, str_eq, if◌then◌else◌,
}
use jarvis_server.Prelude.Int.{pos}
use jarvis_server.Prelude.Dict.{Dict}
use jarvis_server.Value.{Value, num, text, obj, Fields, end, field, truthy, field_of, set_field}
use jarvis_server.Mission.{MissionBrief, complex}
use jarvis_server.Feedback.{FeedbackCollector, log_correction}
use jarvis_server.Orchestrator.{
  Turn, Orchestrator, Run, ran, run_raised, Triage, parsed, unparsable, chat_raised, World, Caller,
  log_interaction, turn_values,
}

-- `{"response": v}`
abbrev pub say : Value → Value
say v = obj (field "response" v end)

-- A stage returns a response or lets the request fall through.
abbrev pub or_else :
    Option Value × Orchestrator → (Orchestrator → Value × Orchestrator) → Value × Orchestrator
or_else (none, o) go_on = go_on o
or_else (some v, o) go_on = if truthy v then (v, o) else go_on o

-- `protocol_runtime.try_match`, if there is a runtime
abbrev pub match_of : World → Orchestrator → Option String
match_of w o = if o.has_protocol_runtime then w.matched else none

abbrev pub is_wake_up : Option String → Bool
is_wake_up none = false
is_wake_up (some name) = str_eq name "wake_up"

unfoldable pub handle_night_mode : World → Orchestrator → Option Value × Orchestrator
handle_night_mode w o = if is_wake_up (match_of w o) then (none, o) else (
  some (say (text "Jarvis is in maintenance mode")),
  log_interaction (text "maintenance") false o,
)

abbrev pub last_turn : List Turn → Option Turn
last_turn [] = none
last_turn (t ∷ []) = some t
last_turn (t ∷ u ∷ ts) = last_turn (u ∷ ts)

abbrev pub feedback_on :
    Option Turn
    → FeedbackCollector
    → String
    → Caller
    → World
    → Orchestrator
    → Option Value × Orchestrator
feedback_on none c input caller w o = (none, o)
feedback_on (some t) c input caller w o = (
  some (say (text "Noted. That response has been flagged — I won't make that mistake again.")),
  record o {
    feedback_collector = some (
        log_correction w.correction_id w.timestamp caller.user_id t.user t.assistant input none none
          c);
  },
)

abbrev pub feedback_by :
    Option FeedbackCollector
    → Bool
    → String
    → Caller
    → World
    → Orchestrator
    → Option Value × Orchestrator
feedback_by none negative input caller w o = (none, o)
feedback_by (some c) negative input caller w o =
    if negative
    then feedback_on (last_turn (o.conversation_history caller.user_id)) c input caller w o
    else (none, o)

abbrev run_protocol : String → Run → Orchestrator → Option Value × Orchestrator
run_protocol name (ran response) o = (
  some (
      obj (
        field "response" response
          (field "protocol_executed" (text name) (field "execution_time" (text "fast") end)))),
  log_interaction (text "protocol") true o,
)
run_protocol name (run_raised e) o = (none, log_interaction (text "protocol") false o)

abbrev pub run_matched : Option String → Run → Orchestrator → Option Value × Orchestrator
run_matched none run o = (none, o)
run_matched (some name) run o = run_protocol name run o

unfoldable pub try_protocol_match : World → Orchestrator → Option Value × Orchestrator
try_protocol_match w o = run_matched (match_of w o) w.run o

-- What `_classify_complexity` makes of the model's reply.
pub data Complexity : Type 0 where
  simple_request : Complexity
  complex_request : String → String → Complexity

abbrev led_by : Option Value → Option Value → Complexity
led_by (some (text lead)) (some (text capability)) = complex_request lead capability
led_by _ _ = simple_request

abbrev pub classified : Option Value → Fields → Complexity
classified (some (text complexity)) fs =
    if str_eq complexity "complex"
    then led_by (field_of "lead_agent" fs) (field_of "lead_capability" fs)
    else simple_request
classified _ fs = simple_request

abbrev classify_value : Value → Complexity
classify_value (obj fs) = classified (field_of "complexity" fs) fs
classify_value _ = simple_request

-- An exception of the chat call itself reaches `_coordinate_request`, which gives up as for a simple
-- request.
unfoldable pub classify_complexity : Triage → Complexity
classify_complexity (parsed v) = classify_value v
classify_complexity unparsable = simple_request
classify_complexity chat_raised = simple_request

abbrev pub mission_brief :
    String → String → Dict (List String) → String → Caller → World → Orchestrator → MissionBrief
mission_brief lead capability catalog input caller w o = record {
  user_input = input;
  complexity = complex;
  lead_agent = lead;
  lead_capability = capability;
  budget = record {
    max_depth = pos 3;
    remaining_depth = pos 3;
    deadline = w.now + o.response_timeout;
    max_recruitments = pos 5;
    remaining_recruitments = pos 5;
  };
  context = record {
    user_input = input;
    conversation_history = turn_values (o.conversation_history caller.user_id);
    recruitment_results = [];
    recruitment_chain = lead ∷ [];
  };
  available_capabilities = catalog;
  metadata = field "user_id" (num caller.user_id) (field "source" caller.source end);
}

-- `if key in result: response_dict[key] = result[key]` for a dict
abbrev pub copy_found : Option Value → String → Fields → Fields
copy_found none key base = base
copy_found (some v) key base = set_field key v base
