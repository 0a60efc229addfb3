-- ===== src/Nlu/Cache.antt =====
-- `ClassificationCache` of jarvis/agents/nlu_agent/__init__.py. Times are arguments; `normal_key`
-- stands for `user_input.lower().strip()`.
use jarvis_server.Prelude.{
  ℕ, ◌+◌, ◌≤◌, ◌<◌, String, ◌≡◌, refl, true, Option, none, some, [], ◌∷◌, arith, inl, inr,
  str_eq_iff, ltb, leb, length, if◌then◌else◌, ◌>>=◌, Bool-cases, Option-cases, is_some,
}
use jarvis_server.Prelude.Dict.{
  Dict, get, put, remove, has, get-put, length-put-le, length-remove-le,
}

pub record Entry {ℓ} (A : Type ℓ) : Type ℓ where
  pub result : A
  pub timestamp : ℕ

pub record ClassificationCache {ℓ} (A : Type ℓ) : Type ℓ where
  pub cache : Dict (Entry A)
  pub ttl : ℕ
  pub max_size : ℕ

-- `min(cache, key=...)`: the first of the keys with the least time; no key for an empty dictionary
abbrev older : String × ℕ → Option (String × ℕ) → Option (String × ℕ)
older e none = some e
older (k, t) (some (j, u)) = if leb t u then some (k, t) else some (j, u)

module _ {ℓ} {A : Type ℓ} where
  unfoldable oldest : Dict (Entry A) → Option (String × ℕ)
  oldest [] = none
  oldest ((k, e) ∷ m) = older (k, e.timestamp) (oldest m)

  module _ (normal_key : String → String) where
    abbrev look_up :
        String → ℕ → Option (Entry A) → ClassificationCache A → Option A × ClassificationCache A
    look_up key now none c = (none, c)
    look_up key now (some e) c =
        if ltb now (e.timestamp + c.ttl)
        then (some e.result, c)
        else (none, record c { cache = remove key c.cache })

    unfoldable pub get_cached :
        String → ℕ → ClassificationCache A → Option A × ClassificationCache A
    get_cached user_input now c =
        look_up (normal_key user_input) now (get (normal_key user_input) c.cache) c

    -- `none` is the ValueError of `min` for an empty dictionary.
    abbrev make_place : ClassificationCache A → Option (Dict (Entry A))
    make_place c =
        if leb c.max_size (length c.cache)
        then (oldest c.cache >>= λ e. some (remove e.0 c.cache))
        else some c.cache

    unfoldable pub put_cached :
        String → A → ℕ → ClassificationCache A → Option (ClassificationCache A)
    unfolding oldest
    put_cached user_input value now c = make_place c >>= λ m. some (record c {
      cache = put (normal_key user_input) (record { result = value; timestamp = now }) m;
    })

    -- `clear`
    abbrev clear_cache : ClassificationCache A → ClassificationCache A
    clear_cache c = record c { cache = [] }

    oldest-has : (m : Dict (Entry A)) (k : String) (t : ℕ) → oldest m ≡ some (k, t) → has k m ≡ true
    unfolding oldest get
    oldest-has [] k t h = cc
    oldest-has ((j, e) ∷ m) k t h = elim (Option-cases (oldest m)) [
      | inl q ↦ ground (arith, str_eq_iff j k)
      | inr ((i, u), q) ↦ ground (arith, oldest-has m i u q, str_eq_iff j k)
    ]

    oldest-some : (e : String × Entry A) (m : Dict (Entry A)) → is_some (oldest (e ∷ m)) ≡ true
    unfolding oldest
    oldest-some (k, e) m = ground arith

    length-remove-lt :
        (k : String) (m : Dict (Entry A)) → has k m ≡ true → length (remove k m) < length m
    unfolding get remove
    length-remove-lt k [] h = cc
    length-remove-lt k ((j, e) ∷ m) h =
        ground (arith, length-remove-lt k m, length-remove-le k m, str_eq_iff j k)

    make_place-lt :
        (c : ClassificationCache A)
        → 0 < c.max_size
        → length c.cache ≤ c.max_size
        → (m : Dict (Entry A)) × (make_place c ≡ some m) × (length m < c.max_size)
    make_place-lt c p h = elim (Bool-cases (leb c.max_size (length c.cache))) [
      | inr e ↦ (c.cache, rw e refl, ground arith)
      | inl e ↦ elim (Option-cases (oldest c.cache)) [
        | inl q ↦ absurd (nothing c.cache (ground arith) q)
        | inr ((k, t), q) ↦ (
          remove k c.cache,
          rw (e, q) refl,
          omega (arith, length-remove-lt k c.cache (oldest-has c.cache k t q), h),
        )
      ]
    ]
      where
        nothing : (m : Dict (Entry A)) → 0 < length m → oldest m ≡ none → ⊥
        nothing [] l q = absurd (omega arith)
        nothing (x ∷ m) l q = cc (oldest-some x m)

    -- A cache with room for one entry at least, and not above its limit, takes every new
    -- classification, stays within its limit, and answers with it until its time is over and not later.
    pub put_cached-IsBounded :
        (user_input : String) (value : A) (now later : ℕ) (c : ClassificationCache A)
        → 0 < c.max_size
        → length c.cache ≤ c.max_size
        → (d : ClassificationCache A) × (put_cached user_input value now c ≡ some d)
          × (length d.cache ≤ d.max_size)
          × ((get_cached user_input later d).0
              ≡ (if ltb later (now + c.ttl) then some value else none))
    unfolding put_cached get_cached
    put_cached-IsBounded user_input value now later c p h =
        let key = normal_key user_input in
        let (m, e, l) = make_place-lt c p h in
        let d = record c { cache = put key (record { result = value; timestamp = now }) m } in
        (
          d,
          rw e refl,
          omega (arith, length-put-le key (record { result = value; timestamp = now }) m, l),
          rw (get-put key key (record { result = value; timestamp = now }) m)
              (rw ((str_eq_iff key key).1 refl) (ground arith)),
        )
