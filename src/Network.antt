-- ===== src/Network.antt =====
-- jarvis/agents/agent_network.py with jarvis/agents/message.py: the message broker. A task that the
-- broker creates for `receive_message` is an entry of `spawned`; a future is a cell of `store`, since
-- the table of pending requests and a waiting caller share it; the clock is an argument.
pub mod Registry
pub mod Send
pub mod Futures
pub mod Process
pub mod Accounting
pub mod Bounds
pub mod Order
pub mod Settled
pub mod Steps
pub mod Broadcast
pub mod Tests
use jarvis_server.Prelude.{
  ℕ, zero, suc, ◌+◌, ◌*◌, ◌/◌, String, Bool, true, false, not, ◌&&◌, Option, none, some, List, [],
  ◌∷◌, ◌++◌, length, str_eq, if◌then◌else◌,
}
use jarvis_server.Prelude.Dict.{Dict, has}
use jarvis_server.Value.{Value}
use jarvis_server.Recorder.{MethodRecorder}

pub data MessagePriority : Type 0 where
  low normal high : MessagePriority

-- The message types that the broker tells apart.
pub data MessageType : Type 0 where
  capability_request capability_response error : MessageType
  other : String → MessageType

pub record Message : Type 0 where
  pub from_agent : String
  pub to_agent : Option String
  pub message_type : MessageType
  pub content : Value
  pub request_id : String
  pub reply_to : Option String
  pub trace_id : Option String
  pub parent_span_id : Option String

-- What the broker reads of an agent object.
pub record Agent : Type 0 where
  pub name : String
  pub capabilities : List String
  pub protocols : Option (List String)

pub data Future : Type 0 where
  pending cancelled : Future
  resolved : Value → Future

-- `fut.done()`
abbrev pub is_done : Future → Bool
is_done pending = false
is_done cancelled = true
is_done (resolved v) = true

pub record Metrics : Type 0 where
  pub direct_messages : ℕ
  pub queued_messages : ℕ
  pub broadcast_messages : ℕ
  pub future_cleanups : ℕ
  pub dropped_messages : ℕ
  pub backpressure_events : ℕ

pub record Pending : Type 0 where
  pub future : ℕ
  pub created : ℕ

pub record Network : Type 0 where
  pub agents : Dict Agent
  pub night_agents : Dict Agent
  pub high_queue : List Message
  pub normal_queue : List Message
  pub low_queue : List Message
  pub queue_maxsize : ℕ
  pub capability_registry : Dict (List String)
  pub night_capability_registry : Dict (List String)
  pub store : List Future
  pub response_futures : Dict Pending
  pub future_ttl : ℕ
  pub protocol_registry : List String
  pub metrics : Metrics
  pub backpressure_threshold : ℕ
  pub circuit_breaker_threshold : ℕ
  pub circuit_breaker_active : Bool
  pub method_recorder : Option MethodRecorder
  pub spawned : List (String × Message)

abbrev no_metrics : Metrics
no_metrics = record {
  direct_messages = 0;
  queued_messages = 0;
  broadcast_messages = 0;
  future_cleanups = 0;
  dropped_messages = 0;
  backpressure_events = 0;
}

-- The constructor; `int(maxsize * 0.8)` and `int(maxsize * 0.95)` in exact arithmetic.
unfoldable pub new_network : ℕ → ℕ → Option MethodRecorder → Network
new_network maxsize ttl recorder = record {
  agents = [];
  night_agents = [];
  high_queue = [];
  normal_queue = [];
  low_queue = [];
  queue_maxsize = maxsize;
  capability_registry = [];
  night_capability_registry = [];
  store = [];
  response_futures = [];
  future_ttl = ttl;
  protocol_registry = [];
  metrics = no_metrics;
  backpressure_threshold = maxsize * 80 / 100;
  circuit_breaker_threshold = maxsize * 95 / 100;
  circuit_breaker_active = false;
  method_recorder = recorder;
  spawned = [];
}

unfoldable pub get_message_priority : MessageType → MessagePriority
get_message_priority capability_response = high
get_message_priority error = high
get_message_priority capability_request = normal
get_message_priority (other s) = low

-- `message.to_agent and message.to_agent in self.agents`
abbrev pub is_known : Network → Option String → Bool
is_known net none = false
is_known net (some name) = not (str_eq name "") && has name net.agents

abbrev pub deliver : Option String → Message → Network → Network
deliver none m net = net
deliver (some name) m net = record net { spawned = net.spawned ++ (name, m) ∷ [] }

-- `create_task(agent.receive_message(message))` for a known addressee
abbrev pub deliver_if_known : Message → Network → Network
deliver_if_known m net = if is_known net m.to_agent then deliver m.to_agent m net else net

abbrev pub queue : MessagePriority → Network → List Message
queue high net = net.high_queue
queue normal net = net.normal_queue
queue low net = net.low_queue

abbrev pub with_queue : MessagePriority → List Message → Network → Network
with_queue high q net = record net { high_queue = q }
with_queue normal q net = record net { normal_queue = q }
with_queue low q net = record net { low_queue = q }

abbrev pub with_metrics : (Metrics → Metrics) → Network → Network
with_metrics f net = record net { metrics = f net.metrics }
