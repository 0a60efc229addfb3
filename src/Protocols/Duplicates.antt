-- ===== src/Protocols/Duplicates.antt =====
-- Duplicates, and the database beside the memory, in jarvis/protocols/registry.py.
use jarvis_server.Prelude.{
  String, ◌≡◌, refl, sym, ap, ◌∙◌, Bool, true, false, not, ◌||◌, Option, none, some, List, [], ◌∷◌,
  str_eq, str_eq_iff, any, contains, if◌then◌else◌, is_some, Bool-cases, Option-cases, inl, inr,
  arith,
}
use jarvis_server.Prelude.Dict.{Dict, get, put, remove, keys, get-put, get-remove, contains-keys}
use jarvis_server.Protocols.{Protocol}
use jarvis_server.Protocols.Registry.{
  ProtocolRegistry, Registration, registered, duplicate_name, duplicate_triggers, passes_at,
  some_with, same_name, same_triggers, is_duplicate, save_row, save_rows, save, drop_duplicate,
  duplicate_id, add_protocol, replace, register,
}

abbrev is_registered : Registration → Bool
is_registered (registered id replaced) = true
is_registered duplicate_name = false
is_registered duplicate_triggers = false

any-or :
    (f g : Protocol → Bool) (ks : List String) (d : Dict Protocol)
    → any (λ k. passes_at (λ q. f q || g q) (get k d)) ks
      ≡ (any (λ k. passes_at f (get k d)) ks || any (λ k. passes_at g (get k d)) ks)
any-or f g [] d = refl
any-or f g (k ∷ ks) d = elim (Option-cases (get k d)) [
  | inl e ↦ rw e (any-or f g ks d)
  | inr (p, e) ↦ rw e (ground (arith, any-or f g ks d))
]

-- The row of an optional protocol.
abbrev row_at : {Row : Type 0} → (Protocol → Row) → Option Protocol → Option Row
row_at row_of none = none
row_at row_of (some p) = some (row_of p)

-- Every protocol stands under its own id.
abbrev id_at : String → Option Protocol → String
id_at k none = k
id_at k (some p) = p.id

abbrev IsKeyed : Dict Protocol → Type 0
IsKeyed d = (k : String) → id_at k (get k d) ≡ k

-- The database has the rows of the protocols in memory and no other.
abbrev Mirrors : {Row : Type 0} → (Protocol → Row) → ProtocolRegistry Row → Type 0
Mirrors row_of s = (k : String) → get k s.rows ≡ row_at row_of (get k s.protocols)

module _ (folded : String → String) {Row : Type 0} (row_of : Protocol → Row) where
  -- Without replacement, a protocol is registered exactly if `is_duplicate` denies that there is one
  -- with its name or its trigger phrases, both up to case, outer space and order.
  register-is_duplicate :
      (p : Protocol) (s : ProtocolRegistry Row)
      → is_registered (register folded row_of p false s).0 ≡ not (is_duplicate folded p s)
  unfolding register replace is_duplicate
  register-is_duplicate p s =
      rw (any-or (same_name folded p) (same_triggers folded p) (keys s.protocols) s.protocols)
        (elim (Bool-cases (some_with (same_name folded p) s.protocols)) [
          | inl e ↦ rw e refl
          | inr e ↦ elim (Bool-cases (some_with (same_triggers folded p) s.protocols)) [
            | inl t ↦ rw e (rw t refl)
            | inr t ↦ rw e (rw t refl)
          ]
        ])

  put-IsKeyed : (p : Protocol) (d : Dict Protocol) → IsKeyed d → IsKeyed (put p.id p d)
  put-IsKeyed p d h k = rw (get-put p.id k p d) (elim (Bool-cases (str_eq p.id k)) [
    | inl b ↦ rw b ((str_eq_iff p.id k).0 b)
    | inr b ↦ rw b (h k)
  ])

  remove-IsKeyed : (id : String) (d : Dict Protocol) → IsKeyed d → IsKeyed (remove id d)
  remove-IsKeyed id d h k =
      rw (get-remove id k d)
        (elim (Bool-cases (str_eq id k)) [ inl b ↦ rw b refl | inr b ↦ rw b (h k) ])

  -- What `save` leaves at a key of the rows.
  abbrev over : Option Row → Option Row → Option Row
  over none r = r
  over (some x) r = some x

  over_twice : (x r : Option Row) → over x (over x r) ≡ over x r
  over_twice none r = refl
  over_twice (some x) r = refl

  -- The two writes to one key, by whether the key is written first and again later.
  saved_at :
      (b c : Bool) (x y r : Option Row)
      → (b ≡ true → y ≡ x)
      → (if c then over x (if b then over y r else r) else (if b then over y r else r))
        ≡ (if b || c then over x r else r)
  saved_at true true x y r e = rw (e refl) (over_twice x r)
  saved_at true false x y r e = rw (e refl) refl
  saved_at false true x y r e = refl
  saved_at false false x y r e = refl

  get-save_row :
      (j k : String) (d : Dict Protocol) (rows : Dict Row)
      → IsKeyed d
      → get k (save_row folded row_of (get j d) rows)
        ≡ (if str_eq j k then over (row_at row_of (get j d)) (get k rows) else get k rows)
  get-save_row j k d rows h = elim (Option-cases (get j d)) [
    | inl e ↦ rw e (ground arith)
    | inr (p, e) ↦ rw e (
        get-put p.id k (row_of p) rows
        ∙ ap (λ i. if str_eq i k then some (row_of p) else get k rows) (ap (id_at j) (sym e) ∙ h j))
  ]

  get-save_rows :
      (ks : List String) (k : String) (d : Dict Protocol) (rows : Dict Row)
      → IsKeyed d
      → get k (save_rows folded row_of ks d rows)
        ≡ (if contains k ks then over (row_at row_of (get k d)) (get k rows) else get k rows)
  unfolding save_rows
  get-save_rows [] k d rows h = refl
  get-save_rows (j ∷ ks) k d rows h =
      get-save_rows ks k d (save_row folded row_of (get j d) rows) h
      ∙ rw (get-save_row j k d rows h) (
          saved_at (str_eq j k) (contains k ks) (row_at row_of (get k d)) (row_at row_of (get j d))
            (get k rows) λ b. ap (λ i. row_at row_of (get i d)) ((str_eq_iff j k).0 b))

  -- After a write of `p` and a save, the rows mirror the protocols, if they did before.
  mirrored_at :
      (b : Bool) (p : Protocol) (x : Option Protocol) (r : Option Row)
      → r ≡ row_at row_of x
      → (if is_some (if b then some p else x)
          then over (row_at row_of (if b then some p else x)) r
          else r)
        ≡ row_at row_of (if b then some p else x)
  mirrored_at true p x r e = refl
  mirrored_at false p none r e = e
  mirrored_at false p (some q) r e = refl

  add-Mirrors :
      (p : Protocol) (s : ProtocolRegistry Row)
      → IsKeyed s.protocols
      → Mirrors row_of s
      → Mirrors row_of (save folded row_of (add_protocol folded row_of p s))
  unfolding save
  add-Mirrors p s h m k =
      get-save_rows (keys (put p.id p s.protocols)) k (put p.id p s.protocols) s.rows
        (put-IsKeyed p s.protocols h)
      ∙ rw (contains-keys k (put p.id p s.protocols)) (
          rw (get-put p.id k p s.protocols)
            (mirrored_at (str_eq p.id k) p (get k s.protocols) (get k s.rows) (m k)))

  drop-Mirrors :
      (id : Option String) (s : ProtocolRegistry Row)
      → Mirrors row_of s
      → Mirrors row_of (drop_duplicate folded row_of id s)
  unfolding drop_duplicate
  drop-Mirrors none s m k = m k
  drop-Mirrors (some id) s m k = rw (get-remove id k s.rows) (
      rw (get-remove id k s.protocols)
        (elim (Bool-cases (str_eq id k)) [ inl b ↦ rw b refl | inr b ↦ rw b (m k) ]))

  drop-IsKeyed :
      (id : Option String) (s : ProtocolRegistry Row)
      → IsKeyed s.protocols
      → IsKeyed (drop_duplicate folded row_of id s).protocols
  unfolding drop_duplicate
  drop-IsKeyed none s h = h
  drop-IsKeyed (some id) s h = remove-IsKeyed id s.protocols h

  abbrev pub IsStored : ProtocolRegistry Row → Type 0
  IsStored s = IsKeyed s.protocols × Mirrors row_of s

  replace-IsStored :
      (p : Protocol) (id : Option String) (s : ProtocolRegistry Row)
      → IsStored s
      → IsStored (replace folded row_of p id s).1
  unfolding replace save
  replace-IsStored p id s (h, m) = (
    put-IsKeyed p (drop_duplicate folded row_of id s).protocols (drop-IsKeyed id s h),
    add-Mirrors p (drop_duplicate folded row_of id s) (drop-IsKeyed id s h) (drop-Mirrors id s m),
  )

  -- Registering keeps memory and database in step, with or without replacement and whatever it
  -- answers: every protocol stands under its id, and the database has the rows of the protocols in
  -- memory and no other.
  pub register-IsStored :
      (p : Protocol) (replace_duplicates : Bool) (s : ProtocolRegistry Row)
      → IsStored s
      → IsStored (register folded row_of p replace_duplicates s).1
  unfolding register
  register-IsStored p true s h = replace-IsStored p (duplicate_id folded p s.protocols) s h
  register-IsStored p false s h = elim (Bool-cases (some_with (same_name folded p) s.protocols)) [
    | inl e ↦ rw e h
    | inr e ↦ elim (Bool-cases (some_with (same_triggers folded p) s.protocols)) [
      | inl t ↦ rw e (rw t h)
      | inr t ↦ rw e (rw t (replace-IsStored p none s h))
    ]
  ]
