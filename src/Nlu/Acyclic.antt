-- ===== src/Nlu/Acyclic.antt =====
-- The search for cycles of jarvis/agents/nlu_agent/__init__.py against the relation "waits for".
use mathlib.Core.WellFounded.{Acc}
use jarvis_server.Prelude.{
  ℕ, ◌≤◌, String, ◌≡◌, refl, ap, ◌∙◌, ◌↔◌, inl, inr, Bool, true, false, not, Option, none, some,
  List, [], ◌∷◌, arith, str_eq, str_eq_iff, length, contains, contains-append, length-keep-le,
  ◌>>=◌, Bool-cases,
}
use jarvis_server.Prelude.Dict.{get, keys, contains-keys}
use jarvis_server.Nlu.Graph.{
  Dag, deps_of, Walk, Found, cycle, clear, has_cycle, verdict, check_caps, names, validate_dag,
}
use jarvis_server.Nlu.Walks.{
  Needs, Cycle, IsAcyclic, clash, IsAcyclic-no-Cycle, missing, IsSound, Outcome, missing-grows,
}
use jarvis_server.Nlu.Searches.{has_cycle-Visits}

module _ (dag : Dag) where
  -- The answer of the loop over the capabilities.
  abbrev Answers : List String → Option Bool → Type 0
  Answers cs none = ⊥
  Answers cs (some false) = Cycle dag
  Answers cs (some true) = (x : String) → contains x cs ≡ true → Acc (Needs dag) x

  -- Between two capabilities nothing is on the stack.
  record IsIdle (w : Walk) : Type 0 where
    sound : IsSound dag w
    empty : (x : String) → contains x w.rec_stack ≡ false

  Answers-later :
      (c : String) (cs : List String)
      → Acc (Needs dag) c
      → (o : Option Bool) → Answers cs o
      → Answers (c ∷ cs) o
  Answers-later c cs a none h = h
  Answers-later c cs a (some false) h = h
  Answers-later c cs a (some true) h = λ x m. elim (Bool-cases (str_eq c x)) [
    | inl q ↦ rw (← (str_eq_iff c x).0 q) a
    | inr q ↦ h x (ground arith)
  ]

  verdict-Answers :
      (c : String) (cs : List String) (w : Walk) (k : Walk → Option Bool)
      → IsIdle w
      → ((w' : Walk) → IsIdle w' → missing dag w' ≤ missing dag w → Answers cs (k w'))
      → (o : Option Found) → Outcome dag (λ _ w'. contains c w'.visited ≡ true) w o
      → Answers (c ∷ cs) (o >>= verdict k)
  verdict-Answers c cs w k i again none h = h
  verdict-Answers c cs w k i again (some cycle) h = h
  verdict-Answers c cs w k i again (some (clear w')) (e, v) =
      let idle : IsIdle w' = record { sound = e.sound; empty = λ x. e.same x ∙ i.empty x } in
      Answers-later c cs (e.sound.finished c v (idle.empty c)) (k w')
        (again w' idle (missing-grows dag w w' e.grows))

  check_caps-Answers :
      (fuel : ℕ) (cs : List String) (w : Walk)
      → IsIdle w
      → ((c : String) → contains c cs ≡ true → contains c (names dag) ≡ true)
      → missing dag w ≤ fuel
      → Answers cs (check_caps (has_cycle dag fuel) cs w)
  unfolding check_caps
  check_caps-Answers fuel [] w i n m = λ x h. cc
  check_caps-Answers fuel (c ∷ cs) w i n m = elim (Bool-cases (contains c w.visited)) [
    | inl v ↦ rw v (
        Answers-later c cs (i.sound.finished c v (i.empty c)) (check_caps (has_cycle dag fuel) cs w)
          (check_caps-Answers fuel cs w i (λ x h. n x (ground arith)) m))
    | inr v ↦ rw v (
        verdict-Answers c cs w (check_caps (has_cycle dag fuel) cs) i
          (λ w' i' l.
            check_caps-Answers fuel cs w' i' (λ x h. n x (ground arith)) (omega (arith, l, m)))
          (has_cycle dag fuel c w)
          (has_cycle-Visits dag fuel c w
            (record {
              sound = i.sound;
              fresh = v;
              known = n c (ground (arith, str_eq_iff c c));
              leads = λ x h. absurd (clash h (i.empty x));
            })
            m))
  ]

  names-keys : (c : String) (m : Dag) → contains c (keys m) ≡ true → contains c (names m) ≡ true
  names-keys c [] h = cc
  names-keys c ((k, ds) ∷ m) h = ground (arith, names-keys c m, contains-append c ds (names m))

  deps-no_key : (x : String) → contains x (keys dag) ≡ false → deps_of x dag ≡ []
  deps-no_key x h = ground (arith, contains-keys x dag, get x dag)

  all-IsAcyclic : ((x : String) → contains x (keys dag) ≡ true → Acc (Needs dag) x) → IsAcyclic dag
  all-IsAcyclic h = λ x. elim (Bool-cases (contains x (keys dag))) [
    | inl k ↦ h x k
    | inr k ↦ Acc.intro x (λ d n. absurd (none_needed d x (deps-no_key x k) n))
  ]
    where
      none_needed : (d x : String) → deps_of x dag ≡ [] → Needs dag d x → ⊥
      none_needed d x e n = cc (ap (contains d) e)

  decided :
      (o : Option Bool)
      → Answers (keys dag) o
      → (b : Bool) × (o ≡ some b) × ((b ≡ true) ↔ IsAcyclic dag)
  decided none h = absurd h
  decided (some false) h =
      (false, refl, (λ e. absurd (clash e refl), λ a. absurd (IsAcyclic-no-Cycle dag a h)))
  decided (some true) h = (true, refl, (λ e. all-IsAcyclic h, λ a. refl))

-- The validation of a graph always ends with a verdict, and accepts the graph exactly when its
-- dependencies are well-founded: no chain of them leads from a capability back to it.
pub validate_dag-decides :
    (dag : Dag) → (b : Bool) × (validate_dag dag ≡ some b) × ((b ≡ true) ↔ IsAcyclic dag)
unfolding validate_dag
validate_dag-decides dag = decided dag _ (
    check_caps-Answers dag (length (names dag)) (keys dag) (record { visited = []; rec_stack = [] })
      (record { sound = record { finished = λ x v. cc; stacked = λ x v. cc }; empty = λ x. refl })
      (λ c h. names-keys dag c dag h) (length-keep-le (λ n. not (contains n [])) (names dag)))
