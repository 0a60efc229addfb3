-- ===== src/Nlu/Handlers.antt =====
-- The handlers of jarvis/agents/nlu_agent/__init__.py for requests, answers and errors. Parameters:
-- those of the execution of a graph, and the capabilities of the network (`registry`). A capability to
-- follow up that is no text counts as unknown.
use jarvis_server.Prelude.{
  ◌+◌, String, false, not, ◌&&◌, Option, none, some, List, [], ◌∷◌, ◌++◌, str_eq, if◌then◌else◌,
  get_or, ◌>>=◌, contains,
}
use jarvis_server.Prelude.Dict.{Dict, get, put, remove}
use jarvis_server.Value.{Value, null, text, arr, obj, end, field, flag, truthy, field_of}
use jarvis_server.Nlu.Graph.{Dag}
use jarvis_server.Nlu.Requests.{
  AgentResult, Request, Ask, asked, replied, NluAgent, send, split_id, results_items,
  build_final_response, has_preview, first_failure, response_payload,
}
use jarvis_server.Nlu.Run.{add, answered_agent, discard, execute_ready}

-- An answer or an error that reaches the agent
pub record Incoming : Type 0 where
  pub id : String
  pub from_agent : String
  pub request_id : String
  pub content : Value

-- The request that an answer belongs to, with its key and the capability that is answered.
pub record Match : Type 0 where
  pub key : String
  pub info : Request
  pub capability : Option String

abbrev direct_match : String → Dict Request → Option Match
direct_match id active =
    get id active >>= λ r. some (record { key = id; info = r; capability = r.current_capability })

abbrev parent_match : String → String → Dict Request → Option Match
parent_match parent cap active =
    get parent active >>= λ r. some (record { key = parent; info = r; capability = some cap })

abbrev or_match : Option Match → Option Match → Option Match
or_match none m = m
or_match (some m) n = some m

abbrev pub match_of : String → Option (String × String) → Dict Request → Option Match
match_of id none active = direct_match id active
match_of id (some (parent, cap)) active =
    or_match (parent_match parent cap active) (direct_match id active)

unfoldable pub find_match : String → Dict Request → Option Match
unfolding split_id get
find_match id active = match_of id (split_id id) active

abbrev pub with_result : Match → Incoming → Request
with_result f m = record f.info {
  agent_results =
      f.info.agent_results
      ++ record { from_agent = m.from_agent; capability = f.capability; result = m.content } ∷ [];
}

abbrev pub store : String → Request → NluAgent → NluAgent
store key info a = record a { active_requests = put key info a.active_requests }

abbrev pub forget : String → NluAgent → NluAgent
forget key a = record a { active_requests = remove key a.active_requests }

abbrev pub completed : String → Request → Request
completed cap info = record info {
  completed_caps = add cap info.completed_caps;
  running_caps = discard cap info.running_caps;
}

-- The next capability of a sequence, or one that an agent asks to follow up, under the same id
abbrev plain_ask : String → String → Value → Request → Ask
plain_ask request_id cap prompt info = record {
  capability = cap;
  prompt = prompt;
  context = obj end;
  previous = some info.agent_results;
  user_id = info.user_id;
  request_id = request_id;
  allowed = none;
}

abbrev followup_text : List String → Option Value → Option String
followup_text registry (some (text cap)) =
    if not (str_eq cap "") && contains cap registry then some cap else none
followup_text registry v = none

-- The capability that the result asks to follow up with, and the prompt for it
abbrev followup_of : List String → Value → Request → Option (String × Value)
followup_of registry (obj fs) info =
    if truthy (get_or null (field_of "needs_followup" fs))
    then (followup_text registry (field_of "followup_capability" fs) >>= λ cap.
        some (cap, get_or (text info.user_input) (field_of "followup_prompt" fs)))
    else none
followup_of registry v info = none

module _ (format_response : String → List AgentResult → Option String) (error_text : Value)
    (registry : List String) where
  abbrev previewed : Value → Option Value
  previewed v = if has_preview v then some v else none

  abbrev plain_payload : Request → Option Value → Value
  plain_payload info (some v) =
      obj (response_payload (first_failure info.agent_results) v (results_items info.agent_results))
  plain_payload info none =
      obj
        (field "response" error_text (field "results" (arr (results_items info.agent_results)) end))

  abbrev finish_for : String → String → Option String → Request → NluAgent → NluAgent
  finish_for message_id key none info a = a
  finish_for message_id key (some requester) info a = forget key (
      send
        (replied requester
          (plain_payload info (build_final_response info.agent_results >>= previewed)) key
          (some message_id))
        a)

  abbrev pub follow_up : Incoming → String → Request → Option (String × Value) → NluAgent → NluAgent
  follow_up m key info (some (cap, prompt)) a =
      let info' = record info { step = info.step + 1; current_capability = some cap } in
      send (asked (plain_ask key cap prompt info')) (store key info' a)
  follow_up m key info none a = finish_for m.id key (answered_agent info.original_requester) info a

  -- The sequential part of `_handle_capability_response`
  abbrev sequential : Incoming → String → Request → List String → NluAgent → NluAgent
  sequential m key info (cap ∷ caps) a =
      let info' = record info {
        step = info.step + 1;
        remaining_capabilities = caps;
        current_capability = some cap;
      } in
      send (asked (plain_ask key cap (text info.user_input) info')) (store key info' a)
  sequential m key info [] a = follow_up m key info (followup_of registry m.content info) a

  -- The part for graphs: the capability is complete, and what waited for it may start.
  abbrev pub advance : String → Dag → Option String → Request → NluAgent → NluAgent
  advance key dag none info a = a
  advance key dag (some cap) info a =
      if str_eq cap ""
      then a
      else (let info' = completed cap info in
          execute_ready format_response error_text key dag info.allowed_agents info'
            (store key info' a))

  abbrev pub continue_with : Incoming → Match → Request → Option Dag → NluAgent → NluAgent
  continue_with m f info (some dag) a = advance f.key dag f.capability info a
  continue_with m f info none a = sequential m f.key info info.remaining_capabilities a

  abbrev pub receive : Incoming → Option Match → NluAgent → NluAgent
  receive m none a = a
  receive m (some f) a =
      let info = with_result f m in continue_with m f info info.dag (store f.key info a)

  unfoldable pub handle_capability_response : Incoming → NluAgent → NluAgent
  unfolding find_match execute_ready put remove first_failure build_final_response results_items
  handle_capability_response m a = receive m (find_match m.request_id a.active_requests) a

-- The text of an error message, whose content is a dictionary
abbrev error_content : Value → Value
error_content (obj fs) = get_or (text "Unknown error") (field_of "error" fs)
error_content v = text "Unknown error"

-- `prefix` writes "Error: " before the text of a value.
module _ (prefix : Value → Value) where
  abbrev error_reply : Value → Value
  error_reply e = obj (
      field "response" (prefix e) (
        field "success" (flag false) (
          field "error" (obj (field "message" e (field "error_type" (text "AgentError") end)))
            end)))

  abbrev error_to : Incoming → String → Option String → NluAgent → NluAgent
  error_to m key none a = a
  error_to m key (some requester) a =
      forget key
        (send (replied requester (error_reply (error_content m.content)) key (some m.id)) a)

  -- A direct match first, and then the parent of a sub-request.
  abbrev error_match : String → Option (String × String) → Dict Request → Option Match
  error_match id none active = direct_match id active
  error_match id (some (parent, cap)) active =
      or_match (direct_match id active) (parent_match parent cap active)

  abbrev answer_error : Incoming → Option Match → NluAgent → NluAgent
  answer_error m none a = a
  answer_error m (some f) a = error_to m f.key (answered_agent f.info.original_requester) a

  unfoldable handle_error : Incoming → NluAgent → NluAgent
  unfolding split_id get remove
  handle_error m a =
      answer_error m (error_match m.request_id (split_id m.request_id) a.active_requests) a
