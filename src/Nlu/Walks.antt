-- ===== src/Nlu/Walks.antt =====
-- The relation "waits for" of a graph and the sets of the search for cycles of
-- jarvis/agents/nlu_agent/__init__.py.
use mathlib.Core.WellFounded.{Acc}
use jarvis_server.Prelude.{
  ℕ, ◌≤◌, ◌<◌, String, ◌≡◌, refl, ◌∙◌, inl, inr, Bool, true, false, not, Option, none, some, List,
  [], ◌∷◌, arith, str_eq, str_eq_iff, keep, length, contains, contains-append, get_or, Bool-cases,
}
use jarvis_server.Prelude.Dict.{get}
use jarvis_server.Nlu.Graph.{Dag, deps_of, Walk, Found, cycle, clear, enter, names}

-- `cap` waits for `d`.
abbrev pub Needs : Dag → String → String → Type 0
Needs dag d cap = contains d (deps_of cap dag) ≡ true

-- A chain of dependencies from a capability to another one.
pub data Leads (dag : Dag) : String → String → Type 0 where
  here : {x : String} → Leads dag x x
  step : {x y z : String} → Needs dag y x → Leads dag y z → Leads dag x z

abbrev pub Cycle : Dag → Type 0
Cycle dag = (x : String) × (y : String) × Leads dag x y × Needs dag x y

abbrev pub IsAcyclic : Dag → Type 0
IsAcyclic dag = (x : String) → Acc (Needs dag) x

pub clash : {b : Bool} → b ≡ true → b ≡ false → ⊥
clash p q = cc

module _ (dag : Dag) where
  pub Leads-append : {x y z : String} → Leads dag x y → Needs dag z y → Leads dag x z
  Leads-append here n = step n here
  Leads-append (step m p) n = step m (Leads-append p n)

  no_cycle_from :
      (x : String) → Acc (Needs dag) x → (y : String) → Leads dag x y → Needs dag x y → ⊥
  no_cycle_from x (Acc.intro _ smaller) y here n = no_cycle_from x (smaller x n) x here n
  no_cycle_from x (Acc.intro _ smaller) y (step {y = w} m p) n =
      no_cycle_from w (smaller w m) x (Leads-append p n) m

  pub IsAcyclic-no-Cycle : IsAcyclic dag → Cycle dag → ⊥
  IsAcyclic-no-Cycle h (x, y, p, n) = no_cycle_from x (h x) y p n

  abbrev pub missing : Walk → ℕ
  missing w = length (keep (λ n. not (contains n w.visited)) (names dag))

  -- What holds of the two sets while no call is running, apart from the capabilities on the stack.
  pub record IsSound (w : Walk) : Type 0 where
    pub finished :
        (x : String)
        → contains x w.visited ≡ true
        → contains x w.rec_stack ≡ false
        → Acc (Needs dag) x
    pub stacked : (x : String) → contains x w.rec_stack ≡ true → contains x w.visited ≡ true

  pub record Explored (w w' : Walk) : Type 0 where
    pub sound : IsSound w'
    pub grows : (x : String) → contains x w.visited ≡ true → contains x w'.visited ≡ true
    pub same : (x : String) → contains x w'.rec_stack ≡ contains x w.rec_stack

  abbrev IsDone : Walk → String → Type 0
  IsDone w d = (contains d w.visited ≡ true) × (contains d w.rec_stack ≡ false)

  -- The call is possible: the capability is new, and all on the stack lead to it.
  pub record IsOpen (cap : String) (w : Walk) : Type 0 where
    pub sound : IsSound w
    pub fresh : contains cap w.visited ≡ false
    pub known : contains cap (names dag) ≡ true
    pub leads : (x : String) → contains x w.rec_stack ≡ true → Leads dag x cap

  abbrev pub Outcome : (Walk → Walk → Type 0) → Walk → Option Found → Type 0
  Outcome P w none = ⊥
  Outcome P w (some cycle) = Cycle dag
  Outcome P w (some (clear w')) = Explored w w' × P w w'

  abbrev pub Visits : ℕ → (String → Walk → Option Found) → Type 0
  Visits fuel visit =
      (d : String) (w : Walk)
      → IsOpen d w
      → missing w ≤ fuel
      → Outcome (λ _ w'. contains d w'.visited ≡ true) w (visit d w)

  length-keep_le :
      (p q : String → Bool) (xs : List String)
      → ((x : String) → p x ≡ true → q x ≡ true)
      → length (keep p xs) ≤ length (keep q xs)
  length-keep_le p q [] h = omega arith
  length-keep_le p q (x ∷ xs) h = ground (arith, h x, length-keep_le p q xs h)

  length-keep_lt :
      (p q : String → Bool) (c : String) (xs : List String)
      → ((x : String) → p x ≡ true → q x ≡ true)
      → contains c xs ≡ true
      → p c ≡ false
      → q c ≡ true
      → length (keep p xs) < length (keep q xs)
  length-keep_lt p q c [] h k n y = cc
  length-keep_lt p q c (x ∷ xs) h k n y =
      ground (arith, h x, length-keep_le p q xs h, length-keep_lt p q c xs h, str_eq_iff x c)

  pub missing-grows :
      (w w' : Walk)
      → ((x : String) → contains x w.visited ≡ true → contains x w'.visited ≡ true)
      → missing w' ≤ missing w
  missing-grows w w' g = length-keep_le _ _ (names dag) (λ x h. ground (arith, g x))

  pub missing-enter : (cap : String) (w : Walk) → IsOpen cap w → missing (enter cap w) < missing w
  missing-enter cap w o =
      length-keep_lt _ _ cap (names dag) (λ x h. ground arith) o.known
        (ground (arith, str_eq_iff cap cap)) (ground (arith, o.fresh))

  pub enter-IsSound : (cap : String) (w : Walk) → IsSound w → IsSound (enter cap w)
  enter-IsSound cap w s = record {
    finished = λ x v k. s.finished x (ground (arith)) (ground (arith));
    stacked = λ x k. ground (arith, s.stacked x);
  }

  pub Explored-self : (w : Walk) → IsSound w → Explored w w
  Explored-self w s = record { sound = s; grows = λ x h. h; same = λ x. refl }

  Explored-trans : {w w' w'' : Walk} → Explored w w' → Explored w' w'' → Explored w w''
  Explored-trans a b = record {
    sound = b.sound;
    grows = λ x h. b.grows x (a.grows x h);
    same = λ x. b.same x ∙ a.same x;
  }

  unfoldable pub AllDone : List String → Walk → Walk → Type 0
  AllDone ds w w' = (d : String) → contains d ds ≡ true → IsDone w' d

  pub Outcome-later :
      (w w' : Walk) (d : String) (ds : List String)
      → Explored w w'
      → IsDone w' d
      → (o : Option Found) → Outcome (AllDone ds) w' o
      → Outcome (AllDone (d ∷ ds)) w o
  unfolding AllDone
  Outcome-later w w' d ds e n none h = h
  Outcome-later w w' d ds e n (some cycle) h = h
  Outcome-later w w' d ds e n (some (clear v)) (k, all) = (
    Explored-trans e k,
    λ x m. elim (Bool-cases (str_eq d x)) [
      | inl q ↦ rw (← (str_eq_iff d x).0 q) (k.grows d n.0, k.same d ∙ n.1)
      | inr q ↦ all x (ground arith)
    ],
  )

  pub names-deps :
      (cap d : String) (m : Dag)
      → contains d (get_or [] (get cap m)) ≡ true
      → contains d (names m) ≡ true
  unfolding get
  names-deps cap d [] h = cc
  names-deps cap d ((k, ds) ∷ m) h =
      ground (arith, names-deps cap d m, contains-append d ds (names m))
