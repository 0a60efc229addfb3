-- ===== src/Nlu/Graph.antt =====
-- `_validate_dag` of jarvis/agents/nlu_agent/__init__.py: a depth-first search that shares its two
-- sets with the nested function `has_cycle`. A graph gives each capability the capabilities that it
-- waits for.
use jarvis_server.Prelude.{
  ℕ, zero, suc, String, Bool, true, false, not, Option, none, some, List, [], ◌∷◌, ◌++◌, str_eq,
  keep, length, contains, if◌then◌else◌, get_or, ◌>>=◌,
}
use jarvis_server.Prelude.Dict.{Dict, get, keys}

abbrev pub Dag : Type 0
Dag = Dict (List String)

-- `dag.get(cap, [])`
abbrev pub deps_of : String → Dag → List String
deps_of cap dag = get_or [] (get cap dag)

-- The sets `visited` and `rec_stack`.
pub record Walk : Type 0 where
  pub visited : List String
  pub rec_stack : List String

-- The two returns of `has_cycle`, with the sets as they are then.
pub data Found : Type 0 where
  cycle : Found
  clear : Walk → Found

abbrev pub then_scan : (Walk → Option Found) → Found → Option Found
then_scan k cycle = some cycle
then_scan k (clear w) = k w

-- The loop over the dependencies; `visit` is the recursive call.
unfoldable pub scan : (String → Walk → Option Found) → List String → Walk → Option Found
scan visit [] w = some (clear w)
scan visit (d ∷ ds) w =
    let rest = scan visit ds w in
    let deeper = visit d w >>= then_scan (scan visit ds) in
    if contains d w.visited then (if contains d w.rec_stack then some cycle else rest) else deeper

abbrev pub enter : String → Walk → Walk
enter cap w = record { visited = cap ∷ w.visited; rec_stack = cap ∷ w.rec_stack }

-- `rec_stack.remove(cap)`
abbrev pub leave : String → Found → Found
leave cap cycle = cycle
leave cap (clear w) =
    clear (record { visited = w.visited; rec_stack = keep (λ x. not (str_eq x cap)) w.rec_stack })

-- The fuel bounds the depth of the recursion; `none` means that it ran out.
unfoldable pub has_cycle : Dag → ℕ → String → Walk → Option Found
unfolding scan
has_cycle dag zero cap w = none
has_cycle dag (suc fuel) cap w =
    scan (has_cycle dag fuel) (deps_of cap dag) (enter cap w) >>= λ f. some (leave cap f)

abbrev pub verdict : (Walk → Option Bool) → Found → Option Bool
verdict k cycle = some false
verdict k (clear w) = k w

unfoldable pub check_caps : (String → Walk → Option Found) → List String → Walk → Option Bool
check_caps visit [] w = some true
check_caps visit (c ∷ cs) w =
    let rest = check_caps visit cs w in
    let deeper = visit c w >>= verdict (check_caps visit cs) in
    if contains c w.visited then rest else deeper

-- All names of a graph: its keys and their dependencies.
abbrev pub names : Dag → List String
names [] = []
names ((k, ds) ∷ dag) = k ∷ (ds ++ names dag)

unfoldable pub validate_dag : Dag → Option Bool
unfolding check_caps has_cycle
validate_dag dag =
    check_caps (has_cycle dag (length (names dag))) (keys dag)
      (record { visited = []; rec_stack = [] })
