-- ===== src/Nlu/Classify.antt =====
-- `_normalize_classification` of jarvis/agents/nlu_agent/__init__.py. `none` means that the search for
-- cycles ran out of fuel, which it never does.
use jarvis_server.Prelude.{
  String, Bool, true, false, not, ◌&&◌, ◌||◌, Option, none, some, List, [], ◌∷◌, str_eq, map,
  contains, if◌then◌else◌, ◌>>=◌,
}
use jarvis_server.Prelude.Dict.{put}
use jarvis_server.Value.{
  Value, null, text, arr, obj, Items, nil, cons, Fields, end, field, field_of,
}
use jarvis_server.Nlu.Graph.{Dag, validate_dag}

pub data Classification : Type 0 where
  protocol : Fields → Classification
  graph : Dag → Classification

abbrev pub only : String → Dag
only cap = (cap, []) ∷ []

-- `cap in capabilities or cap == "chat"`
abbrev pub is_known : List String → String → Bool
is_known capabilities cap = contains cap capabilities || str_eq cap "chat"

-- `result.get(key) == s`
abbrev pub is_text_at : Option Value → String → Bool
is_text_at (some (text t)) s = str_eq t s
is_text_at _ s = false

-- `result.get(key) is None`
abbrev is_none_at : Option Value → Bool
is_none_at none = true
is_none_at (some null) = true
is_none_at (some v) = false

-- The legacy form, an intent and a capability without a graph.
abbrev pub legacy_capability : List String → Option Value → Dag
legacy_capability capabilities (some (text cap)) =
    if not (str_eq cap "") && is_known capabilities cap then only cap else only "chat"
legacy_capability capabilities v = only "chat"

abbrev pub legacy : List String → Option Value → Option Value → Dag
legacy capabilities intent capability =
    if is_text_at intent "chat" || is_none_at intent && is_none_at capability
    then only "chat"
    else legacy_capability capabilities capability

-- The list comprehension `valid_deps`
unfoldable pub item_deps : List String → String → Items → List String
item_deps capabilities cap nil = []
item_deps capabilities cap (cons (text d) vs) =
    let rest = item_deps capabilities cap vs in
    if is_known capabilities d && not (str_eq d cap) then d ∷ rest else rest
item_deps capabilities cap (cons v vs) = item_deps capabilities cap vs

abbrev pub valid_deps : List String → String → Value → List String
valid_deps capabilities cap (arr vs) = item_deps capabilities cap vs
valid_deps capabilities cap v = []

-- The loop that fills `filtered_dag`
unfoldable pub filtered_dag : List String → Fields → Dag → Dag
unfolding item_deps put
filtered_dag capabilities end acc = acc
filtered_dag capabilities (field cap deps fs) acc =
    filtered_dag capabilities fs
      (if is_known capabilities cap then put cap (valid_deps capabilities cap deps) acc else acc)

-- The dependencies are dropped: all capabilities run in parallel.
abbrev pub parallel : Dag → Dag
parallel = map (λ e. (e.0, []))

abbrev pub if_valid : Dag → Bool → Dag
if_valid dag true = dag
if_valid dag false = parallel dag

unfoldable pub checked : Dag → Option Dag
unfolding validate_dag
checked [] = some (only "chat")
checked (e ∷ dag) = validate_dag (e ∷ dag) >>= λ valid. some (if_valid (e ∷ dag) valid)

abbrev pub graph_of : List String → Value → Option Dag
graph_of capabilities (obj fs) = checked (filtered_dag capabilities fs [])
graph_of capabilities v = some (only "chat")

abbrev pub normalize_dag : List String → Fields → Option Value → Option Dag
normalize_dag capabilities result none =
    some (legacy capabilities (field_of "intent" result) (field_of "capability" result))
normalize_dag capabilities result (some dag) = graph_of capabilities dag

unfoldable pub normalize_classification : Fields → List String → Option Classification
unfolding checked filtered_dag field_of
normalize_classification result capabilities =
    if is_text_at (field_of "intent" result) "run_protocol"
    then some (protocol result)
    else normalize_dag capabilities result (field_of "dag" result) >>= λ dag. some (graph dag)
