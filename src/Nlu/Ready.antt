-- ===== src/Nlu/Ready.antt =====
-- Which capabilities of a graph are ready, for `_execute_ready_capabilities` of
-- jarvis/agents/nlu_agent/__init__.py.
use mathlib.Core.WellFounded.{Acc}
use jarvis_server.Prelude.{
  suc, ◌<◌, String, ◌≡◌, refl, ap, Bool, true, false, List, [], ◌∷◌, arith, inl, inr, str_eq_iff,
  length, contains, Bool-cases,
}
use jarvis_server.Prelude.Dict.{get, keys}
use jarvis_server.Nlu.Graph.{Dag, deps_of}
use jarvis_server.Nlu.Walks.{Needs, IsAcyclic}
use jarvis_server.Nlu.Run.{all_in, ready_caps, discard}
use jarvis_server.Nlu.Sets.{is_distinct, Within, length-Within, length-discard_lt, contains-discard}

-- Every dependency is a capability of the graph.
abbrev pub IsClosed : Dag → Type 0
IsClosed dag = (cap d : String) → Needs dag d cap → contains d (keys dag) ≡ true

clash : {b : Bool} → b ≡ true → b ≡ false → ⊥
clash p q = cc

all_in_of_Within : (c ds : List String) → Within ds c → all_in c ds ≡ true
all_in_of_Within c [] w = refl
all_in_of_Within c (d ∷ ds) w =
    ground (arith, w d, str_eq_iff d d, all_in_of_Within c ds (λ x h. w x (ground arith)))

pub Within-of_all_in : (c ds : List String) → all_in c ds ≡ true → Within ds c
Within-of_all_in c [] h x k = cc
Within-of_all_in c (d ∷ ds) h x k =
    ground (arith, Within-of_all_in c ds (ground arith) x, str_eq_iff d x)

module _ (c r : List String) where
  -- What is ready is a capability of the graph that is neither complete nor running.
  pub ready-new :
      (cap : String) (dag : Dag)
      → contains cap (ready_caps c r dag) ≡ true
      → (contains cap (keys dag) ≡ true) × (contains cap c ≡ false) × (contains cap r ≡ false)
  ready-new cap [] h = cc
  ready-new cap ((k, ds) ∷ dag) h = ground (arith, ready-new cap dag, str_eq_iff k cap)

  pub ready-deps :
      (cap : String) (dag : Dag)
      → is_distinct (keys dag) ≡ true
      → contains cap (ready_caps c r dag) ≡ true
      → all_in c (deps_of cap dag) ≡ true
  unfolding get
  ready-deps cap [] u h = cc
  ready-deps cap ((k, ds) ∷ dag) u h =
      ground (arith, ready-deps cap dag, ready-new cap dag, str_eq_iff k cap)

  ready_of_deps :
      (cap : String) (dag : Dag)
      → contains cap (keys dag) ≡ true
      → contains cap c ≡ false
      → contains cap r ≡ false
      → all_in c (deps_of cap dag) ≡ true
      → contains cap (ready_caps c r dag) ≡ true
  unfolding get
  ready_of_deps cap [] k nc nr h = cc
  ready_of_deps cap ((j, ds) ∷ dag) k nc nr h =
      ground (arith, ready_of_deps cap dag, str_eq_iff j cap)

  -- In a closed graph without cycles something is ready or running until all is complete.
  pub all_complete :
      (dag : Dag)
      → IsAcyclic dag
      → IsClosed dag
      → ((x : String) → contains x r ≡ false)
      → ready_caps c r dag ≡ []
      → Within (keys dag) c
  all_complete dag acyclic closed idle e x k = go x (acyclic x) k
    where
      go : (x : String) → Acc (Needs dag) x → contains x (keys dag) ≡ true → contains x c ≡ true
      go x (Acc.intro _ smaller) k = elim (Bool-cases (contains x c)) [
        | inl done ↦ done
        | inr new ↦ absurd (
            clash
              (ready_of_deps x dag k new (idle x)
                (all_in_of_Within c (deps_of x dag) (λ d n. go d (smaller d n) (closed x d n))))
              (ap (contains x) e))
      ]

length-keys : (dag : Dag) → length (keys dag) ≡ length dag
length-keys [] = refl
length-keys (e ∷ dag) = ap suc (length-keys dag)

-- As many are complete as the graph has capabilities, if all are.
pub length_complete :
    (c : List String) (dag : Dag)
    → is_distinct c ≡ true
    → is_distinct (keys dag) ≡ true
    → Within c (keys dag)
    → Within (keys dag) c
    → length c ≡ length dag
length_complete c dag d u w v =
    omega (arith, length-keys dag, length-Within c (keys dag) d w, length-Within (keys dag) c u v)

-- Fewer are, if one of the graph is not.
pub length_incomplete :
    (c : List String) (dag : Dag) (x : String)
    → is_distinct c ≡ true
    → Within c (keys dag)
    → contains x (keys dag) ≡ true
    → contains x c ≡ false
    → length c < length dag
length_incomplete c dag x d w k n = omega (
  arith,
  length-keys dag,
  length-discard_lt x (keys dag) k,
  length-Within c (discard x (keys dag)) d
      (λ y h. ground (arith, contains-discard x y (keys dag), w y h, str_eq_iff y x)),
)
