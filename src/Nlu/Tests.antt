-- ===== src/Nlu/Tests.antt =====
-- Instances of the theorems on jarvis/agents/nlu_agent/__init__.py, and runs of it.
use jarvis_server.Prelude.{
  ℕ, ◌+◌, ◌≤◌, String, ◌≡◌, refl, ap, ◌↔◌, Bool, true, false, Option, none, some, List, [], ◌∷◌,
  ◌++◌, map, arith, str_eq_iff, contains, length, is_some, ltb, if◌then◌else◌, get_or, sym, ◌∙◌,
}
use jarvis_server.Prelude.Dict.{get, put, keys}
use jarvis_server.Prelude.Text.{concat}
use jarvis_server.Value.{null, text, arr, obj, nil, cons, Fields, end, field, field_of}
use jarvis_server.Nlu.Graph.{Dag, deps_of, validate_dag, check_caps, has_cycle, scan}
use jarvis_server.Nlu.Walks.{IsAcyclic}
use jarvis_server.Nlu.Acyclic.{validate_dag-decides}
use jarvis_server.Nlu.Classify.{graph, normalize_classification, checked, filtered_dag, item_deps}
use jarvis_server.Nlu.Cache.{ClassificationCache, get_cached, put_cached, put_cached-IsBounded}
use jarvis_server.Nlu.Requests.{AgentResult, Request, asked, NluAgent, split_id}
use jarvis_server.Nlu.Run.{all_in, ready_caps, execute_ready, start_all, start_cap}
use jarvis_server.Nlu.Handlers.{Incoming, handle_capability_response}
use jarvis_server.Nlu.Intent.{Intent, new_request, route}
use jarvis_server.Nlu.Ready.{IsClosed}
use jarvis_server.Nlu.Progress.{IsSoundGraph}
use jarvis_server.Nlu.Serving.{Progress}
use jarvis_server.Nlu.Served.{Run, here, next, Run-Progress}
use jarvis_server.Nlu.Blocked.{AskedOnly, asks_for, IsBlocked, Run-IsStuck, execute_ready-Asks}

-- The weather first, and then a message about it.
abbrev weather : String × List String
weather = ("weather", [])

abbrev message : String × List String
message = ("message", "weather" ∷ [])

abbrev two : Dag
two = weather ∷ message ∷ []

abbrev loop : Dag
loop = ("a", "b" ∷ []) ∷ ("b", "a" ∷ []) ∷ []

two_accepted : validate_dag two ≡ some true
unfolding validate_dag check_caps has_cycle scan get
two_accepted = refl

loop_refused : validate_dag loop ≡ some false
unfolding validate_dag check_caps has_cycle scan get
loop_refused = refl

validate_dag-decides_example :
    (b : Bool) × (validate_dag loop ≡ some b) × ((b ≡ true) ↔ IsAcyclic loop)
validate_dag-decides_example = validate_dag-decides loop

abbrev loop_reply : Fields
loop_reply =
    field "dag"
      (obj (
        field "a" (arr (cons (text "b") nil))
          (field "b" (arr (cons (text "a") (cons null nil))) end)))
      end

-- The dependencies of a graph with a cycle are dropped.
loop_dropped :
    normalize_classification loop_reply ("a" ∷ "b" ∷ []) ≡ some (graph (("a", []) ∷ ("b", []) ∷ []))
unfolding normalize_classification checked filtered_dag item_deps field_of put validate_dag
    check_caps has_cycle scan get
loop_dropped = refl

abbrev same_key : String → String
same_key s = s

abbrev small : ClassificationCache ℕ
small = record {
  cache = ("hi", record { result = 7; timestamp = 3 }) ∷ [];
  ttl = 120;
  max_size = 1;
}

put_cached-IsBounded_example :
    (d : ClassificationCache ℕ) × (put_cached same_key "news" 8 5 small ≡ some d)
    × (length d.cache ≤ d.max_size)
    × ((get_cached same_key "news" 60 d).0 ≡ (if ltb 60 (5 + 120) then some 8 else none))
put_cached-IsBounded_example =
    put_cached-IsBounded same_key "news" 8 5 60 small (omega arith) (omega arith)

abbrev no_format : String → List AgentResult → Option String
no_format s rs = none

abbrev intent : Intent
intent = record {
  id = "m1";
  from_agent = "Protocol";
  request_id = "r";
  capability = "intent_matching";
  user_input = "tell Ann the weather";
  context = end;
  conversation_history = null;
  user_id = none;
  allowed_agents = none;
}

abbrev idle : NluAgent
idle = record { active_requests = []; outbox = [] }

abbrev answer : String → Incoming
answer id = record { id = "m2"; from_agent = "Weather"; request_id = id; content = text "sunny" }

abbrev asked_info : Request
asked_info = record (new_request intent (some two) none) {
  running_caps = "weather" ∷ [];
  capability_request_ids = ("weather", "r:weather") ∷ [];
}

first_run : Run no_format null [] "r" (route no_format null intent (graph two) idle) 1 (
    handle_capability_response no_format null []
      (answer "r:weather")
      (route no_format null intent (graph two) idle))
unfolding execute_ready start_all start_cap put get concat
first_run = next here "weather" (answer "r:weather") asked_info refl refl refl

two-IsClosed : IsClosed two
unfolding get
two-IsClosed cap d n =
    ground (arith, str_eq_iff "weather" cap, str_eq_iff "message" cap, str_eq_iff "weather" d)

two-IsSoundGraph : IsSoundGraph two
two-IsSoundGraph = record {
  acyclic =
      let (b, e, iff) = validate_dag-decides two in
      iff.0 (ap (get_or false) (sym e ∙ two_accepted));
  closed = two-IsClosed;
  unique = refl;
  named = refl;
}

Run-Progress_example : Progress no_format null "r" "Protocol" two 1 (
    handle_capability_response no_format null []
      (answer "r:weather")
      (route no_format null intent (graph two) idle))
unfolding split_id
Run-Progress_example =
    Run-Progress no_format null [] intent weather message [] 1 idle _ refl refl two-IsSoundGraph
      first_run

-- The news are known, but not in the graph.
abbrev late : String × List String
late = ("message", "news" ∷ [])

abbrev gap : Dag
gap = weather ∷ late ∷ []

gap_accepted :
    normalize_classification
      (field "dag"
        (obj (field "weather" (arr nil) (field "message" (arr (cons (text "news") nil)) end)))
        end)
      ("weather" ∷ "message" ∷ "news" ∷ [])
    ≡ some (graph gap)
unfolding normalize_classification checked filtered_dag item_deps field_of put validate_dag
    check_caps has_cycle scan get
gap_accepted = refl

gap-IsBlocked : IsBlocked gap "message" "news"
unfolding get
gap-IsBlocked = record { inside = refl; needs = refl; outside = refl; unique = refl; named = refl }

blocked_run : Run no_format null [] "r" (route no_format null intent (graph gap) idle) 1 (
    handle_capability_response no_format null []
      (answer "r:weather")
      (route no_format null intent (graph gap) idle))
unfolding execute_ready start_all start_cap put get concat
blocked_run =
    next here "weather" (answer "r:weather") (record asked_info { dag = some gap }) refl refl refl

Run-IsStuck_example :
    let b =
      handle_capability_response no_format null []
        (answer "r:weather")
        (route no_format null intent (graph gap) idle) in
    (is_some (get "r" b.active_requests) ≡ true) × AskedOnly idle.outbox b
unfolding split_id
Run-IsStuck_example =
    Run-IsStuck no_format null [] intent weather late [] "message" "news" 1 idle _ refl
      gap-IsBlocked blocked_run

abbrev half : Request
half = record (new_request intent (some two) none) { completed_caps = "weather" ∷ [] }

execute_ready-Asks_example :
    ((execute_ready no_format null "r" two none half idle).outbox
      ≡ idle.outbox
        ++ map (λ c. asked (asks_for "r" none half c)) (ready_caps ("weather" ∷ []) [] two))
    × ((c : String)
        → contains c (ready_caps ("weather" ∷ []) [] two) ≡ true
        → (contains c (keys two) ≡ true)
          × (contains c ("weather" ∷ []) ≡ false)
          × (contains c [] ≡ false)
          × (all_in ("weather" ∷ []) (deps_of c two) ≡ true))
execute_ready-Asks_example = execute_ready-Asks no_format null "r" two none half idle refl refl
