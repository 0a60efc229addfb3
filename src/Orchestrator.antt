-- ===== src/Orchestrator.antt =====
-- jarvis/core/orchestrator.py: the state of `RequestOrchestrator`, the conversation history, and the
-- answers of the outside that a request meets. User ids are numbers; a request that the orchestrator
-- sends to the network is an entry of `requests`, an interaction that it logs one of `interactions`.
-- Profiles and tracing are left out.
use jarvis_server.Prelude.{
  ℕ, String, Bool, true, false, Option, none, some, List, [], ◌∷◌, ◌++◌, length, if◌then◌else◌,
}
use jarvis_server.Prelude.Int.{ℤ, pos, ltb_ℤ, eq_ℤ, last_slice}
use jarvis_server.Prelude.Dict.{Dict}
use jarvis_server.Value.{Value, text, obj, Items, nil, cons, Fields, end, field}
use jarvis_server.Feedback.{FeedbackCollector}
pub mod Catalog
pub mod Routing
pub mod Answers
pub mod Stages
pub mod History
pub mod Leads
pub mod Tests

-- A turn of the conversation; the answer is whatever the agent put under `response`.
pub record Turn : Type 0 where
  pub user : String
  pub assistant : Value

-- A call of `network.request_capability` by the orchestrator.
pub record Request : Type 0 where
  pub capability : String
  pub payload : Value
  pub allowed : Option (List String)

-- A call of the response logger: `log_successful_interaction` or `log_failed_interaction`.
pub record Interaction : Type 0 where
  pub intent : Value
  pub succeeded : Bool

pub record Orchestrator : Type 0 where
  pub agents : List String
  pub capability_registry : Dict (List String)
  pub has_protocol_runtime : Bool
  pub has_ai_client : Bool
  pub enable_coordinator : Bool
  pub feedback_collector : Option FeedbackCollector
  pub response_timeout : ℕ
  pub max_history_length : ℤ
  pub conversation_history : ℤ → List Turn
  pub night_mode : Bool
  pub requests : List Request
  pub interactions : List Interaction

-- What `protocol_runtime.run_and_format` does: it returns a response or raises.
pub data Run : Type 0 where
  ran : Value → Run
  run_raised : String → Run

-- What `ai_client.weak_chat` and the parsing of its text give.
pub data Triage : Type 0 where
  parsed : Value → Triage
  unparsable : Triage
  chat_raised : Triage

-- How `network.wait_for_response` ends.
pub data Wait : Type 0 where
  answered : Value → Wait
  expired : Wait
  wait_raised : String → Wait

-- What the outside answers while one request is processed.
pub record World : Type 0 where
  pub now : ℕ
  pub matched : Option String
  pub run : Run
  pub triage : Triage
  pub mission : Wait
  pub nlu : Wait
  pub correction_id : String
  pub timestamp : String

-- The caller of `process_request`.
pub record Caller : Type 0 where
  pub user_id : ℤ
  pub source : Value
  pub allowed_agents : Option (List String)

-- `self.conversation_history[user_id] = turns`
abbrev set_history : ℤ → List Turn → (ℤ → List Turn) → ℤ → List Turn
set_history user turns history u = if eq_ℤ u user then turns else history u

-- The slice that keeps the last turns when there are too many.
abbrev pub trim : ℤ → List Turn → List Turn
trim most turns = if ltb_ℤ most (pos (length turns)) then last_slice most turns else turns

-- `_store_conversation_turn`
unfoldable pub store_conversation_turn : ℤ → String → Value → Orchestrator → Orchestrator
store_conversation_turn user input response o = record o {
  conversation_history =
      set_history user
        (trim o.max_history_length
          (o.conversation_history user ++ record { user = input; assistant = response } ∷ []))
        o.conversation_history;
}

abbrev pub log_interaction : Value → Bool → Orchestrator → Orchestrator
log_interaction intent ok o = record o {
  interactions = o.interactions ++ record { intent = intent; succeeded = ok } ∷ [];
}

abbrev pub ask_network : String → Value → Option (List String) → Orchestrator → Orchestrator
ask_network capability payload allowed o = record o {
  requests =
      o.requests ++ record { capability = capability; payload = payload; allowed = allowed } ∷ [];
}

abbrev turn_value : Turn → Value
turn_value t = obj (field "user" (text t.user) (field "assistant" t.assistant end))

abbrev pub turn_values : List Turn → Items
turn_values [] = nil
turn_values (t ∷ ts) = cons (turn_value t) (turn_values ts)
