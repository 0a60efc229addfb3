-- ===== src/Network/Process.antt =====
-- The worker: the next message by priority, and what it does with each message. `none` is an
-- exception, which the loop logs and passes over, keeping what was written before it.
use package.text.Mathlib.Text.{find?}
use jarvis_server.Prelude.{
  ◌+◌, String, Bool, false, not, ◌&&◌, Option, none, some, List, [], ◌∷◌, ◌++◌, keep, is_some,
  get_or, str_eq, if◌then◌else◌,
}
use jarvis_server.Prelude.Dict.{Dict, get, has}
use jarvis_server.Value.{
  nil, cons, Value, Fields, text, arr, pair, obj, end, field, field_of, truthy, in_items,
}
use jarvis_server.Recorder.{MethodRecorder, record_step}
use jarvis_server.Network.{
  Network, Message, MessageType, capability_request, capability_response, error, other, Pending,
  Future, is_done, resolved, deliver_if_known, with_metrics,
}
use jarvis_server.Network.Registry.{providers_of}
use jarvis_server.Network.Futures.{
  cell, settle, fulfill_response_future, error_field, error_dict, forget,
}

-- `_get_next_message_with_timeout`: high before normal before low, each first in, first out.
abbrev pub next_low : List Message → Network → Option (Message × Network)
next_low [] net = none
next_low (m ∷ q) net = some (m, record net { low_queue = q })

abbrev pub next_normal : List Message → Network → Option (Message × Network)
next_normal [] net = next_low net.low_queue net
next_normal (m ∷ q) net = some (m, record net { normal_queue = q })

abbrev pub next_high : List Message → Network → Option (Message × Network)
next_high [] net = next_normal net.normal_queue net
next_high (m ∷ q) net = some (m, record net { high_queue = q })

unfoldable pub get_next_message : Network → Option (Message × Network)
get_next_message net = next_high net.high_queue net

-- `_handle_capability_response`
unfoldable pub handle_capability_response : Message → Network → Network
unfolding fulfill_response_future
handle_capability_response m net = deliver_if_known m (fulfill_response_future m net)

-- `_handle_error_message`: a future that is not done takes the error, and its entry goes. A content
-- that is no dictionary has no `get`: the exception leaves all as it was, the delivery included.
abbrev pub settle_error : Option Future → Pending → Message → Value → Network → Option Network
settle_error none p m v net = some net
settle_error (some f) p m (obj fs) net =
    if is_done f
    then some net
    else some (
        forget m.request_id (record net {
          store =
              settle p.future (resolved (error_dict (error_field (field_of "error" fs)))) net.store;
        }))
settle_error (some f) p m v net = if is_done f then some net else none

abbrev pub settle_error_entry : Option Pending → Message → Network → Option Network
settle_error_entry none m net = some net
settle_error_entry (some p) m net = settle_error (cell p.future net.store) p m m.content net

unfoldable pub handle_error_message : Message → Network → Option Network
handle_error_message m net =
    elim (settle_error_entry (get m.request_id net.response_futures) m net) [
      | none ↦ none
      | some net' ↦ some (deliver_if_known m net')
    ]

-- `p in allowed` for the value under "allowed_agents"; `none` where Python raises a TypeError.
abbrev allows : Value → Option (String → Bool)
allows (arr xs) = some (λ p. in_items p xs)
allows (obj fs) = some (λ p. is_some (field_of p fs))
allows (pair v w) = some (λ p. in_items p (cons v (cons w nil)))
allows (text s) = some (λ p. is_some (find? s p))
allows v = none

abbrev restrict_by : Option (String → Bool) → List String → Option (List String)
restrict_by test [] = some []
restrict_by none (p ∷ ps) = none
restrict_by (some test) (p ∷ ps) = some (keep test (p ∷ ps))

-- `if allowed: providers = [p for p in providers if p in allowed]`
abbrev pub restrict : Option Value → List String → Option (List String)
restrict none providers = some providers
restrict (some v) providers = if truthy v then restrict_by (allows v) providers else some providers

-- `registry.get(capability, [])` for the value under "capability"; a list or a dictionary is no key.
abbrev pub lookup_providers : Option Value → Dict (List String) → Option (List String)
lookup_providers (some (text c)) registry = some (providers_of c registry)
lookup_providers (some (arr xs)) registry = none
lookup_providers (some (obj fs)) registry = none
lookup_providers v registry = some []

abbrev as_mapping : Option Value → Fields
as_mapping (some (obj fs)) = fs
as_mapping v = end

-- The mappings that a step declares are texts; a value that is no text is left out.
abbrev text_fields : Fields → Dict String
text_fields end = []
text_fields (field k (text s) fs) = (k, s) ∷ text_fields fs
text_fields (field k v fs) = text_fields fs

abbrev capability_text : Option Value → String
capability_text (some (text c)) = c
capability_text v = ""

-- The recording hook: the first provider, unless it has no name or the capability is the internal
-- one. Data that is no dictionary is recorded as an empty one.
abbrev record_call :
    Option Value → List String → Fields → Option MethodRecorder → Option MethodRecorder
record_call capability providers fs none = none
record_call capability [] fs (some r) = some r
record_call capability (p ∷ ps) fs (some r) =
    if r.recording
      && not (str_eq (capability_text capability) "intent_matching")
      && not (str_eq p "")
    then some (
        record_step
          (record {
            agent = p;
            function = capability_text capability;
            parameters = as_mapping (field_of "data" fs);
            parameter_mappings = text_fields (as_mapping (field_of "mappings" fs));
          })
          r)
    else some r

abbrev pub clone_for : String → Message → Message
clone_for provider m = record m { to_agent = some provider }

-- One round of the loop over the providers.
unfoldable pub send_clone : String → Message → Network → Network
send_clone p m net =
    if has p net.agents
    then with_metrics (λ x. record x { broadcast_messages = x.broadcast_messages + 1 })
        (record net { spawned = net.spawned ++ (p, clone_for p m) ∷ [] })
    else net

unfoldable pub broadcast_to : List String → Message → Network → Network
unfolding send_clone
broadcast_to [] m net = net
broadcast_to (p ∷ ps) m net = broadcast_to ps m (send_clone p m net)

abbrev pub broadcast_allowed : Fields → Message → Network → Option (List String) → Option Network
broadcast_allowed fs m net none = none
broadcast_allowed fs m net (some providers) = some (
    broadcast_to providers m (record net {
      method_recorder = record_call (field_of "capability" fs) providers fs net.method_recorder;
    }))

abbrev pub broadcast_found : Fields → Message → Network → Option (List String) → Option Network
broadcast_found fs m net none = none
broadcast_found fs m net (some found) =
    broadcast_allowed fs m net (restrict (field_of "allowed_agents" fs) found)

abbrev pub broadcast_content : Value → Message → Network → Option Network
broadcast_content (obj fs) m net =
    broadcast_found fs m net (lookup_providers (field_of "capability" fs) net.capability_registry)
broadcast_content v m net = none

-- `_handle_capability_request_broadcast`
unfoldable pub handle_capability_request_broadcast : Message → Network → Option Network
unfolding broadcast_to
handle_capability_request_broadcast m net = broadcast_content m.content m net

-- `if message.to_agent`
abbrev pub has_addressee : Option String → Bool
has_addressee none = false
has_addressee (some name) = not (str_eq name "")

-- The body of the worker's loop behind the two kinds of answers.
unfoldable dispatch_request : MessageType → Message → Network → Option Network
unfolding handle_capability_request_broadcast
dispatch_request capability_request m net =
    if has_addressee m.to_agent
    then some (deliver_if_known m net)
    else handle_capability_request_broadcast m net
dispatch_request _ m net =
    if has_addressee m.to_agent then some (deliver_if_known m net) else some net

unfoldable pub dispatch : MessageType → Message → Network → Option Network
unfolding handle_capability_response handle_error_message dispatch_request
dispatch capability_response m net = some (handle_capability_response m net)
dispatch error m net = handle_error_message m net
dispatch capability_request m net = dispatch_request capability_request m net
dispatch (other s) m net = dispatch_request (other s) m net

-- One message of the worker: an exception is logged and the state is what it was.
unfoldable pub process_message : Message → Network → Network
unfolding dispatch
process_message m net = get_or net (dispatch m.message_type m net)

-- One turn of `_process_messages`.
unfoldable pub process_next : Network → Network
unfolding get_next_message process_message
process_next net = elim (get_next_message net) [
  | none ↦ net
  | some (m, net') ↦ process_message m net'
]
