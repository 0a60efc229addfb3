-- ===== src/Protocols/Names.antt =====
-- The names of the protocols that jarvis/protocols/registry.py holds.
use jarvis_server.Prelude.{
  String, ◌≡◌, refl, sym, ap, ◌∙◌, Bool, true, false, Option, none, some, str_eq_iff, Bool-cases,
  inl, inr, arith,
}
use jarvis_server.Prelude.Dict.{Dict, get, get-put_self}
use jarvis_server.Protocols.{Protocol}
use jarvis_server.Protocols.Clashes.{none_passes, clash, IsClashFree, register-IsClashFree}
use jarvis_server.Protocols.Registry.{
  ProtocolRegistry, passes_at, some_with, same_name, save, drop_duplicate, duplicate_id, replace,
  register, Registration, duplicate_name,
}

module _ (folded : String → String) where
  -- Protocols under different keys have different names, up to case and outer space.
  abbrev pub IsDistinct : Dict Protocol → Type 0
  IsDistinct d =
      (j k : String) (p q : Protocol)
      → get j d ≡ some p
      → get k d ≡ some q
      → folded p.name ≡ folded q.name
      → j ≡ k

  named :
      (p q : Protocol) (o : Option Protocol)
      → o ≡ some q
      → folded q.name ≡ folded p.name
      → passes_at (same_name folded p) o ≡ true
  unfolding same_name
  named p q o e n = rw e ((str_eq_iff (folded q.name) (folded p.name)).1 n)

  pub IsClashFree-IsDistinct : (d : Dict Protocol) → IsClashFree folded d → IsDistinct d
  IsClashFree-IsDistinct d u j k p q ep eq n =
      u j k (ap (λ o. clash folded o (get k d)) ep ∙ named p q (get k d) eq (sym n))

  IsDistinct-IsClashFree : (d : Dict Protocol) → IsDistinct d → IsClashFree folded d
  unfolding same_name
  IsDistinct-IsClashFree d u j k h = by (get j d) (get k d) refl refl h
    where
      by : (x y : Option Protocol) → get j d ≡ x → get k d ≡ y → clash folded x y ≡ true → j ≡ k
      by none y ex ey c = cc
      by (some p) none ex ey c = cc
      by (some p) (some q) ex ey c =
          u j k p q ex ey (sym ((str_eq_iff (folded q.name) (folded p.name)).0 c))

  module _ {Row : Type 0} (row_of : Protocol → Row) where
    -- What `register` does about a protocol of the same name.
    abbrev pub NameSettled :
        Protocol → Bool → ProtocolRegistry Row → Registration × ProtocolRegistry Row → Type 0
    NameSettled p true s r =
        (get p.id r.1.protocols ≡ some p)
        × ((j : String) (q : Protocol)
            → get j r.1.protocols ≡ some q
            → folded q.name ≡ folded p.name
            → j ≡ p.id)
    NameSettled p false s r =
        (j : String) (q : Protocol)
        → get j s.protocols ≡ some q
        → folded q.name ≡ folded p.name
        → r ≡ (duplicate_name, s)

    register-there :
        (p : Protocol) (s : ProtocolRegistry Row)
        → get p.id (register folded row_of p true s).1.protocols ≡ some p
    unfolding register replace save
    register-there p s =
        get-put_self p.id p
          (drop_duplicate folded row_of (duplicate_id folded p s.protocols) s).protocols

    register-refused :
        (p : Protocol) (s : ProtocolRegistry Row) (j : String)
        → passes_at (same_name folded p) (get j s.protocols) ≡ true
        → register folded row_of p false s ≡ (duplicate_name, s)
    unfolding register
    register-refused p s j t = elim (Bool-cases (some_with (same_name folded p) s.protocols)) [
      | inl e ↦ rw e refl
      | inr e ↦ ground (arith, none_passes (same_name folded p) j s.protocols e)
    ]

    -- Registering keeps the names of the protocols distinct, up to case and outer space. With
    -- replacement the protocol is in the registry afterwards, and no protocol under another key has
    -- its name. Without it, when a protocol has the name, registering is refused as a duplicate name
    -- and the registry is unchanged.
    pub register-IsDistinct :
        (p : Protocol) (replace_duplicates : Bool) (s : ProtocolRegistry Row)
        → IsDistinct s.protocols
        → IsDistinct (register folded row_of p replace_duplicates s).1.protocols
          × NameSettled p replace_duplicates s (register folded row_of p replace_duplicates s)
    register-IsDistinct p true s u =
        let after = (register folded row_of p true s).1.protocols in
        let free =
          IsClashFree-IsDistinct after
            (register-IsClashFree folded row_of p true s (IsDistinct-IsClashFree s.protocols u)) in
        (free, (register-there p s, λ j q e n. free j p.id q p e (register-there p s) n))
    register-IsDistinct p false s u = (
      IsClashFree-IsDistinct (register folded row_of p false s).1.protocols
          (register-IsClashFree folded row_of p false s (IsDistinct-IsClashFree s.protocols u)),
      λ j q e n. register-refused p s j (named p q (get j s.protocols) e n),
    )
