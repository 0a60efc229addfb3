-- ===== src/Protocols/Clashes.antt =====
-- Lemmas on the tests for duplicate names of jarvis/protocols/registry.py: no two protocols clash.
use jarvis_server.Prelude.{
  String, ◌≡◌, refl, sym, ap, ◌∙◌, Bool, true, false, Option, none, some, List, [], ◌∷◌, str_eq,
  str_eq_iff, any, contains, if◌then◌else◌, is_some, get_or, ◌⊎◌, Bool-cases, Option-cases, inl,
  inr, arith,
}
use jarvis_server.Prelude.Dict.{Dict, get, put, remove, keys, get-put, get-remove, contains-keys}
use jarvis_server.Protocols.{Protocol}
use jarvis_server.Protocols.Registry.{
  ProtocolRegistry, passes_at, last_with, some_with, same_name, same_triggers, save, drop_duplicate,
  duplicate_id, replace, register,
}

passing_key :
    (f : Protocol → Bool) (k : String) (ks : List String) (d : Dict Protocol)
    → contains k ks ≡ true
    → passes_at f (get k d) ≡ true
    → any (λ j. passes_at f (get j d)) ks ≡ true
passing_key f k [] d c p = cc
passing_key f k (j ∷ ks) d c p = elim (Bool-cases (str_eq j k)) [
  | inl b ↦ rw ((str_eq_iff j k).0 b) (rw p refl)
  | inr b ↦ ground (arith, passing_key f k ks d)
]

-- A test that no item passes fails at every key.
pub none_passes :
    (f : Protocol → Bool) (k : String) (d : Dict Protocol)
    → some_with f d ≡ false
    → passes_at f (get k d) ≡ false
none_passes f k d h = elim (Option-cases (get k d)) [
  | inl e ↦ rw e refl
  | inr (p, e) ↦ ground (arith, passing_key f k (keys d) d (contains-keys k d ∙ ap is_some e))
]

pick :
    (rest : Option String) (b : Bool) (k i : String)
    → (if is_some rest then rest else if b then some k else none) ≡ some i
    → (rest ≡ some i) ⊎ ((b ≡ true) × (k ≡ i))
pick (some j) b k i h = inl h
pick none true k i h = inr (refl, ap (get_or k) h)
pick none false k i h = cc

pick_none :
    (rest : Option String) (b : Bool) (k : String)
    → (if is_some rest then rest else if b then some k else none) ≡ none
    → (rest ≡ none) × (b ≡ false)
pick_none (some j) b k h = cc
pick_none none true k h = cc
pick_none none false k h = (refl, refl)

last_with_passes :
    (f : Protocol → Bool) (i : String) (ks : List String) (d : Dict Protocol)
    → last_with f ks d ≡ some i
    → passes_at f (get i d) ≡ true
last_with_passes f i [] d h = cc
last_with_passes f i (k ∷ ks) d h = elim (pick (last_with f ks d) (passes_at f (get k d)) k i h) [
  | inl e ↦ last_with_passes f i ks d e
  | inr (b, e) ↦ ap (λ j. passes_at f (get j d)) (sym e) ∙ b
]

last_with-none :
    (f : Protocol → Bool) (ks : List String) (d : Dict Protocol)
    → last_with f ks d ≡ none
    → any (λ k. passes_at f (get k d)) ks ≡ false
last_with-none f [] d h = refl
last_with-none f (k ∷ ks) d h =
    let (e, b) = pick_none (last_with f ks d) (passes_at f (get k d)) k h in
    rw b (last_with-none f ks d e)

abbrev without_duplicate : Option String → Dict Protocol → Dict Protocol
without_duplicate none d = d
without_duplicate (some i) d = remove i d

module _ (folded : String → String) where
  abbrev pub clash : Option Protocol → Option Protocol → Bool
  clash none q = false
  clash (some p) q = passes_at (same_name folded p) q

  -- In terms of the tests: protocols under different keys have different names.
  abbrev pub IsClashFree : Dict Protocol → Type 0
  IsClashFree d = (j k : String) → clash (get j d) (get k d) ≡ true → j ≡ k

  clash-none : (o : Option Protocol) → clash o none ≡ false
  clash-none none = refl
  clash-none (some p) = refl

  clash_both :
      (p : Protocol) (x y : Option Protocol)
      → passes_at (same_name folded p) x ≡ true
      → passes_at (same_name folded p) y ≡ true
      → clash x y ≡ true
  unfolding same_name
  clash_both p none y t s = cc
  clash_both p (some a) none t s = cc
  clash_both p (some a) (some b) t s = (str_eq_iff (folded b.name) (folded a.name)).1 (
      (str_eq_iff (folded b.name) (folded p.name)).0 s
      ∙ sym ((str_eq_iff (folded a.name) (folded p.name)).0 t))

  clash_sym :
      (p : Protocol) (o : Option Protocol)
      → clash o (some p) ≡ true
      → passes_at (same_name folded p) o ≡ true
  unfolding same_name
  clash_sym p none h = h
  clash_sym p (some q) h =
      (str_eq_iff (folded q.name) (folded p.name)).1
        (sym ((str_eq_iff (folded p.name) (folded q.name)).0 h))

  pub put-IsClashFree :
      (p : Protocol) (d : Dict Protocol)
      → ((k : String) → passes_at (same_name folded p) (get k d) ≡ false)
      → IsClashFree d
      → IsClashFree (put p.id p d)
  put-IsClashFree p d fresh u j k h = by (str_eq p.id j) (str_eq p.id k) refl refl (
      ap (λ o. clash o (if str_eq p.id k then some p else get k d)) (sym (get-put p.id j p d))
      ∙ ap (clash (get j (put p.id p d))) (sym (get-put p.id k p d))
      ∙ h)
    where
      by :
          (a b : Bool)
          → str_eq p.id j ≡ a
          → str_eq p.id k ≡ b
          → clash (if a then some p else get j d) (if b then some p else get k d) ≡ true
          → j ≡ k
      by true true a b c = sym ((str_eq_iff p.id j).0 a) ∙ (str_eq_iff p.id k).0 b
      by true false a b c = ground (arith, fresh k)
      by false true a b c = ground (arith, fresh j, clash_sym p (get j d) c)
      by false false a b c = u j k c

  remove-IsClashFree : (id : String) (d : Dict Protocol) → IsClashFree d → IsClashFree (remove id d)
  remove-IsClashFree id d u j k h = by (str_eq id j) (str_eq id k) (
      ap (λ o. clash o (if str_eq id k then none else get k d)) (sym (get-remove id j d))
      ∙ ap (clash (get j (remove id d))) (sym (get-remove id k d))
      ∙ h)
    where
      by :
          (a b : Bool)
          → clash (if a then none else get j d) (if b then none else get k d) ≡ true
          → j ≡ k
      by true b c = cc
      by false true c = ground (arith, clash-none (get j d))
      by false false c = u j k c

  -- After the removal of a protocol with the name of `p`, no protocol has that name.
  fresh_after :
      (p : Protocol) (i : String) (d : Dict Protocol)
      → IsClashFree d
      → passes_at (same_name folded p) (get i d) ≡ true
      → (k : String) → passes_at (same_name folded p) (get k (remove i d)) ≡ false
  fresh_after p i d u t k = rw (get-remove i k d) (elim (Bool-cases (str_eq i k)) [
    | inl b ↦ rw b refl
    | inr b ↦ rw b (elim (Bool-cases (passes_at (same_name folded p) (get k d))) [
      | inl s ↦ ground (arith, str_eq_iff i k, u i k (clash_both p (get i d) (get k d) t s))
      | inr s ↦ s
    ])
  ])

  still_fresh :
      (p : Protocol) (i : String) (d : Dict Protocol)
      → ((k : String) → passes_at (same_name folded p) (get k d) ≡ false)
      → (k : String) → passes_at (same_name folded p) (get k (remove i d)) ≡ false
  still_fresh p i d f k =
      rw (get-remove i k d)
        (elim (Bool-cases (str_eq i k)) [ inl b ↦ rw b refl | inr b ↦ rw b (f k) ])

  drop-fresh :
      (p : Protocol) (d : Dict Protocol)
      → IsClashFree d
      → (k : String)
      → passes_at (same_name folded p) (get k (without_duplicate (duplicate_id folded p d) d))
        ≡ false
  unfolding duplicate_id
  drop-fresh p d u = elim (Option-cases (last_with (same_name folded p) (keys d) d)) [
    | inl e ↦ rw e (
        let fresh : (k : String) → passes_at (same_name folded p) (get k d) ≡ false = λ k.
          none_passes (same_name folded p) k d (last_with-none (same_name folded p) (keys d) d e) in
        by (last_with (same_triggers folded p) (keys d) d) fresh)
    | inr (i, e) ↦ rw e (fresh_after p i d u (last_with_passes (same_name folded p) i (keys d) d e))
  ]
    where
      by :
          (o : Option String)
          → ((k : String) → passes_at (same_name folded p) (get k d) ≡ false)
          → (k : String) → passes_at (same_name folded p) (get k (without_duplicate o d)) ≡ false
      by none f = f
      by (some i) f = still_fresh p i d f

  module _ {Row : Type 0} (row_of : Protocol → Row) where
    dropped :
        (o : Option String) (s : ProtocolRegistry Row)
        → (drop_duplicate folded row_of o s).protocols ≡ without_duplicate o s.protocols
    unfolding drop_duplicate
    dropped none s = refl
    dropped (some i) s = refl

    without-IsClashFree :
        (o : Option String) (d : Dict Protocol)
        → IsClashFree d
        → IsClashFree (without_duplicate o d)
    without-IsClashFree none d u = u
    without-IsClashFree (some i) d u = remove-IsClashFree i d u

    replace-IsClashFree :
        (p : Protocol) (o : Option String) (s : ProtocolRegistry Row)
        → ((k : String)
            → passes_at (same_name folded p) (get k (without_duplicate o s.protocols)) ≡ false)
        → IsClashFree s.protocols
        → IsClashFree (replace folded row_of p o s).1.protocols
    unfolding replace save
    replace-IsClashFree p o s f u = rw (dropped o s) (
        put-IsClashFree p (without_duplicate o s.protocols) f (without-IsClashFree o s.protocols u))

    pub register-IsClashFree :
        (p : Protocol) (replace_duplicates : Bool) (s : ProtocolRegistry Row)
        → IsClashFree s.protocols
        → IsClashFree (register folded row_of p replace_duplicates s).1.protocols
    unfolding register
    register-IsClashFree p true s u =
        replace-IsClashFree p (duplicate_id folded p s.protocols) s (drop-fresh p s.protocols u) u
    register-IsClashFree p false s u =
        elim (Bool-cases (some_with (same_name folded p) s.protocols)) [
          | inl e ↦ rw e u
          | inr e ↦ elim (Bool-cases (some_with (same_triggers folded p) s.protocols)) [
            | inl t ↦ rw e (rw t u)
            | inr t ↦ rw e (
                rw t (
                  replace-IsClashFree p none s
                    (λ k. none_passes (same_name folded p) k s.protocols e) u))
          ]
        ]
