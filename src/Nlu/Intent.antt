-- ===== src/Nlu/Intent.antt =====
-- `_handle_capability_request` and `classify` of jarvis/agents/nlu_agent/__init__.py: a request is
-- classified by the cache or the language model, and its graph starts to run. The reply of the model
-- is an argument, as `extract_json_from_text` reads it. A protocol that carries a graph of its own is
-- cached only if that is a dictionary.
use jarvis_server.Prelude.{
  ℕ, String, Bool, not, ◌&&◌, Option, none, some, List, [], ◌∷◌, str_eq, if◌then◌else◌, ◌>>=◌,
  contains, is_empty, is_some,
}
use jarvis_server.Prelude.Dict.{put, keys}
use jarvis_server.Value.{Value, text, obj, Fields, end, field, truthy, field_of, set_field}
use jarvis_server.Nlu.Graph.{Dag}
use jarvis_server.Nlu.Classify.{Classification, protocol, graph, normalize_classification, only}
use jarvis_server.Nlu.Cache.{ClassificationCache, get_cached, put_cached}
use jarvis_server.Nlu.Requests.{
  AgentResult, Request, Ask, asked, replied, failed, trained, NluAgent, send,
}
use jarvis_server.Nlu.Run.{execute_ready}

pub record Intent : Type 0 where
  pub id : String
  pub from_agent : String
  pub request_id : String
  pub capability : String
  pub user_input : String
  pub context : Fields
  pub conversation_history : Value
  pub user_id : Option Value
  pub allowed_agents : Option (List String)

pub record Nlu : Type 0 where
  pub agent : NluAgent
  pub classifications : ClassificationCache Classification

-- `classify`
abbrev classify : List String → Option Fields → Option Classification
classify capabilities none = some (graph (only "chat"))
classify capabilities (some end) = some (graph (only "chat"))
classify capabilities (some (field k v fs)) = normalize_classification (field k v fs) capabilities

abbrev field_names : Fields → List String
field_names end = []
field_names (field k v fs) = k ∷ field_names fs

abbrev names_at : Option Value → List String
names_at (some (obj fs)) = field_names fs
names_at v = []

-- The capabilities of `classification.get("dag", {})`
abbrev dag_names : Classification → List String
dag_names (protocol fs) = names_at (field_of "dag" fs)
dag_names (graph dag) = keys dag

abbrev history_context : Intent → Value
history_context m = obj (
    if truthy m.conversation_history
    then set_field "conversation_history" m.conversation_history m.context
    else m.context)

-- `set(allowed_agents) if allowed_agents else None`
abbrev or_none : Option (List String) → Option (List String)
or_none none = none
or_none (some []) = none
or_none (some (x ∷ xs)) = some (x ∷ xs)

abbrev pub new_request : Intent → Option Dag → Option String → Request
new_request m dag cap = record {
  user_input = m.user_input;
  original_requester = some m.from_agent;
  user_id = m.user_id;
  agent_results = [];
  dag = dag;
  completed_caps = [];
  running_caps = [];
  capability_request_ids = [];
  remaining_capabilities = [];
  current_capability = cap;
  original_message_id = some m.id;
  context = history_context m;
  allowed_agents = or_none m.allowed_agents;
  step = if is_some cap then 1 else 0;
}

abbrev single_ask : Intent → String → Ask
single_ask m cap = record {
  capability = cap;
  prompt = text m.user_input;
  context = history_context m;
  previous = none;
  user_id = m.user_id;
  request_id = m.request_id;
  allowed = or_none m.allowed_agents;
}

abbrev pub stored_request : Intent → Request → NluAgent → NluAgent
stored_request m info a = record a { active_requests = put m.request_id info a.active_requests }

module _ (format_response : String → List AgentResult → Option String) (error_text : Value) where
  -- The routing by the classification
  abbrev pub route : Intent → Classification → NluAgent → NluAgent
  route m (protocol fs) a = send (replied m.from_agent (obj fs) m.request_id (some m.id)) a
  route m (graph []) a =
      send
        (failed m.from_agent "Could not understand the request. Please try rephrasing."
          m.request_id)
        a
  route m (graph ((cap, deps) ∷ [])) a =
      send (asked (single_ask m cap)) (stored_request m (new_request m none (some cap)) a)
  route m (graph (e ∷ e' ∷ dag)) a =
      let info = new_request m (some (e ∷ e' ∷ dag)) none in
      execute_ready format_response error_text m.request_id (e ∷ e' ∷ dag) m.allowed_agents info
        (stored_request m info a)

  module _ (normal_key : String → String) (has_fast_classifier : Bool)
      (capabilities : List String) where
    abbrev train : Intent → List String → NluAgent → NluAgent
    train m (cap ∷ []) a = if has_fast_classifier then send (trained m.user_input cap) a else a
    train m names a = a

    -- Classifications are cached unless they are chat.
    abbrev remember : Intent → ℕ → Classification → Nlu → Option Nlu
    remember m now c s =
        let names = dag_names c in
        if not (is_empty names) && not (contains "chat" names)
        then (put_cached normal_key m.user_input c now s.classifications >>= λ cs.
            some (record s { classifications = cs }))
        else some s

    abbrev pub classified : Intent → ℕ → Classification → Nlu → Option Nlu
    classified m now c s = remember m now c s >>= λ s'.
        some (record s' { agent = route m c (train m (dag_names c) s'.agent) })

    abbrev by_cache : Intent → Option Fields → ℕ → Option Classification → Nlu → Option Nlu
    by_cache m reply now (some c) s = some (record s { agent = route m c s.agent })
    by_cache m reply now none s = classify capabilities reply >>= λ c. classified m now c s

    -- `none` is an exception of the cache.
    unfoldable handle_capability_request : Intent → Option Fields → ℕ → Nlu → Option Nlu
    unfolding get_cached put_cached normalize_classification execute_ready put field_of set_field
    handle_capability_request m reply now s =
        if not (str_eq m.capability "intent_matching")
        then some s
        else (let looked = get_cached normal_key m.user_input now s.classifications in
            by_cache m reply now looked.0 (record s { classifications = looked.1 }))
