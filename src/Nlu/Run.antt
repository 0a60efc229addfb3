-- ===== src/Nlu/Run.antt =====
-- The execution of a graph of capabilities in jarvis/agents/nlu_agent/__init__.py: capabilities start
-- once all that they wait for is complete, and the last answer completes the request. Parameters:
-- `format_response` (the language model's text for several results; `none` is an exception) and
-- `error_text` (the text of an exception). The queue of the network takes every message.
use jarvis_server.Prelude.{
  String, Bool, false, not, ◌&&◌, ◌||◌, Option, none, some, List, [], ◌∷◌, str_eq, ◌==◌,
  if◌then◌else◌, contains, keep, all, is_empty, length,
}
use jarvis_server.Prelude.Dict.{put, remove, keys}
use jarvis_server.Prelude.Text.{concat}
use jarvis_server.Value.{Value, text, arr, obj, nil, end, field}
use jarvis_server.Nlu.Graph.{Dag}
use jarvis_server.Nlu.Requests.{
  AgentResult, Request, Ask, asked, replied, NluAgent, send, results_items, build_final_response,
}

-- `s.add(x)` for a set that is kept as a list
abbrev pub add : String → List String → List String
add x xs = if contains x xs then xs else x ∷ xs

-- `s.discard(x)`
abbrev pub discard : String → List String → List String
discard x xs = keep (λ y. not (str_eq y x)) xs

abbrev pub all_in : List String → List String → Bool
all_in xs ds = all (λ d. contains d xs) ds

-- The test of `_execute_ready_capabilities` on an item of the graph
abbrev is_ready : List String → List String → String × List String → Bool
is_ready completed running (cap, deps) =
    not (contains cap completed || contains cap running) && all_in completed deps

abbrev pub ready_caps : List String → List String → Dag → List String
ready_caps completed running dag = keys (keep (is_ready completed running) dag)

-- `f"{request_id}:{cap}"`
abbrev pub sub_id : String → String → String
sub_id request_id cap = concat (request_id ∷ ":" ∷ cap ∷ [])

-- The results of completed capabilities, if any is complete
abbrev is_completed_result : List String → Option String → Bool
is_completed_result completed none = false
is_completed_result completed (some cap) = contains cap completed

abbrev previous_results : Request → Option (List AgentResult)
previous_results info =
    if is_empty info.completed_caps
    then none
    else some (keep (λ r. is_completed_result info.completed_caps r.capability) info.agent_results)

abbrev sub_request : Request → String → String → Request
sub_request info user_input cap = record {
  user_input = user_input;
  original_requester = info.original_requester;
  user_id = info.user_id;
  agent_results = [];
  dag = none;
  completed_caps = [];
  running_caps = [];
  capability_request_ids = [];
  remaining_capabilities = [];
  current_capability = some cap;
  original_message_id = none;
  context = obj end;
  allowed_agents = none;
  step = 0;
}

abbrev pub started : String → String → Request → Request
started request_id cap info = record info {
  running_caps = add cap info.running_caps;
  capability_request_ids = put cap (sub_id request_id cap) info.capability_request_ids;
}

abbrev pub capability_ask : String → String → Option (List String) → Request → Ask
capability_ask request_id cap allowed info = record {
  capability = cap;
  prompt = text info.user_input;
  context = info.context;
  previous = previous_results info;
  user_id = info.user_id;
  request_id = sub_id request_id cap;
  allowed = allowed;
}

-- One turn of the loop over the ready capabilities
unfoldable pub start_cap :
    String → String → Option (List String) → Request → NluAgent → Request × NluAgent
unfolding put
start_cap request_id cap allowed info a =
    let info' = started request_id cap info in
    (
      info',
      send (asked (capability_ask request_id cap allowed info')) (record a {
        active_requests =
            put (sub_id request_id cap) (sub_request info' info'.user_input cap)
              (put request_id info' a.active_requests);
      }),
    )

unfoldable pub start_all :
    String → List String → Option (List String) → Request → NluAgent → NluAgent
unfolding start_cap
start_all request_id [] allowed info a = a
start_all request_id (cap ∷ caps) allowed info a =
    let s = start_cap request_id cap allowed info a in start_all request_id caps allowed s.0 s.1

-- `if original_requester`: the agent to answer, where no name and the empty name are none
abbrev pub answered_agent : Option String → Option String
answered_agent none = none
answered_agent (some name) = if str_eq name "" then none else some name

module _ (format_response : String → List AgentResult → Option String) (error_text : Value) where
  -- The text of the model, or else the plain join, whose TypeError is `none`.
  abbrev pub final_text : Request → Option String → Option Value
  final_text info (some s) = some (text s)
  final_text info none = build_final_response info.agent_results

  abbrev pub dag_payload : Request → Option Value → Value
  dag_payload info (some v) =
      obj (field "response" v (field "results" (arr (results_items info.agent_results)) end))
  dag_payload info none = obj (field "response" error_text (field "results" (arr nil) end))

  abbrev pub complete_for : String → Request → Option String → NluAgent → NluAgent
  complete_for request_id info none a = a
  complete_for request_id info (some requester) a =
      let response = final_text info (format_response info.user_input info.agent_results) in
      let a' =
        send (replied requester (dag_payload info response) request_id info.original_message_id)
          a in
      record a' { active_requests = remove request_id a'.active_requests }

  -- `_complete_dag_execution`
  unfoldable pub complete_dag_execution : String → Request → NluAgent → NluAgent
  unfolding build_final_response results_items remove
  complete_dag_execution request_id info a =
      complete_for request_id info (answered_agent info.original_requester) a

  abbrev pub start_or_complete :
      String → Dag → Option (List String) → Request → List String → NluAgent → NluAgent
  start_or_complete request_id dag allowed info [] a =
      if length info.completed_caps == length dag
      then complete_dag_execution request_id info a
      else a
  start_or_complete request_id dag allowed info (cap ∷ caps) a =
      start_all request_id (cap ∷ caps) allowed info a

  -- `_execute_ready_capabilities`, for the request `info` that is stored under `request_id`
  unfoldable pub execute_ready : String → Dag → Option (List String) → Request → NluAgent → NluAgent
  unfolding complete_dag_execution start_all
  execute_ready request_id dag allowed info a =
      start_or_complete request_id dag allowed info
        (ready_caps info.completed_caps info.running_caps dag) a
