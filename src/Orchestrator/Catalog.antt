-- ===== src/Orchestrator/Catalog.antt =====
-- `_build_capability_catalog` of jarvis/core/orchestrator.py: the registry of capabilities, turned
-- into the capabilities of each agent.
use jarvis_server.Prelude.{
  String, ◌≡◌, refl, sym, ap, ◌∙◌, Bool, true, false, not, ◌&&◌, ◌||◌, Option, none, some, List, [],
  ◌∷◌, ◌++◌, str_eq, str_eq_iff, contains, contains-append, is_empty, if◌then◌else◌, get_or, arith,
  Bool-cases, inl, inr,
}
use jarvis_server.Prelude.Dict.{Dict, get, put, get-put}

-- `not allowed_agents or provider in allowed_agents`: an empty set allows every agent
abbrev may_use : Option (List String) → String → Bool
may_use none agent = true
may_use (some allowed) agent = is_empty allowed || contains agent allowed

-- `catalog.setdefault(provider, []).append(capability)`
abbrev append_capability : String → String → Dict (List String) → Dict (List String)
append_capability capability provider catalog =
    put provider (get_or [] (get provider catalog) ++ capability ∷ []) catalog

abbrev add_providers :
    Option (List String) → String → List String → Dict (List String) → Dict (List String)
add_providers allowed capability [] catalog = catalog
add_providers allowed capability (p ∷ ps) catalog =
    add_providers allowed capability ps
      (if may_use allowed p then append_capability capability p catalog else catalog)

abbrev catalog_from :
    Option (List String) → Dict (List String) → Dict (List String) → Dict (List String)
catalog_from allowed [] catalog = catalog
catalog_from allowed ((capability, providers) ∷ registry) catalog = catalog_from allowed registry (
    if str_eq capability "intent_matching"
    then catalog
    else add_providers allowed capability providers catalog)

unfoldable pub build_capability_catalog :
    Option (List String) → Dict (List String) → Dict (List String)
build_capability_catalog allowed registry = catalog_from allowed registry []

-- The capabilities that a catalog lists for an agent.
abbrev pub listed : String → Dict (List String) → List String
listed agent catalog = get_or [] (get agent catalog)

-- Whether some entry of the registry names the agent as a provider of the capability.
abbrev pub provides : String → String → Dict (List String) → Bool
provides agent capability [] = false
provides agent capability ((c, providers) ∷ registry) =
    str_eq c capability && contains agent providers || provides agent capability registry

listed-append :
    (capability p agent c : String) (catalog : Dict (List String))
    → contains c (listed agent (append_capability capability p catalog))
      ≡ (contains c (listed agent catalog) || str_eq p agent && str_eq capability c)
listed-append capability p agent c catalog = elim (Bool-cases (str_eq p agent)) [
  | inl e ↦ rw (get-put p agent (listed p catalog ++ capability ∷ []) catalog) (
      rw e (
        rw ((str_eq_iff p agent).0 e)
          (contains-append c (listed agent catalog) (capability ∷ []) ∙ ground arith)))
  | inr e ↦ rw (get-put p agent (listed p catalog ++ capability ∷ []) catalog) (rw e (ground arith))
]

may_use_same :
    (allowed : Option (List String)) (p agent : String)
    → str_eq p agent ≡ true
    → may_use allowed agent ≡ may_use allowed p
may_use_same allowed p agent h = ap (may_use allowed) (sym ((str_eq_iff p agent).0 h))

str_eq_same : (a c k : String) → str_eq a c ≡ true → str_eq c k ≡ str_eq a k
str_eq_same a c k h = ap (λ s. str_eq s k) (sym ((str_eq_iff a c).0 h))

listed-add_providers :
    (allowed : Option (List String)) (capability agent c : String) (ps : List String)
    (catalog : Dict (List String))
    → contains c (listed agent (add_providers allowed capability ps catalog)) ≡ (
        contains c (listed agent catalog)
        || may_use allowed agent && (str_eq capability c && contains agent ps))
listed-add_providers allowed capability agent c [] catalog = ground arith
listed-add_providers allowed capability agent c (p ∷ ps) catalog =
    elim (Bool-cases (may_use allowed p)) [
      | inl e ↦ rw e (
          listed-add_providers allowed capability agent c ps
            (append_capability capability p catalog)
          ∙ ground
              (arith, listed-append capability p agent c catalog, may_use_same allowed p agent))
      | inr e ↦ rw e (
          listed-add_providers allowed capability agent c ps catalog
          ∙ ground (arith, may_use_same allowed p agent))
    ]

listed-catalog_from :
    (allowed : Option (List String)) (agent c : String) (registry catalog : Dict (List String))
    → contains c (listed agent (catalog_from allowed registry catalog)) ≡ (
        contains c (listed agent catalog)
        || may_use allowed agent && (not (str_eq c "intent_matching") && provides agent c registry))
listed-catalog_from allowed agent c [] catalog = ground arith
listed-catalog_from allowed agent c ((capability, providers) ∷ registry) catalog =
    elim (Bool-cases (str_eq capability "intent_matching")) [
      | inl e ↦ rw e (
          listed-catalog_from allowed agent c registry catalog
          ∙ ground (arith, str_eq_same capability c "intent_matching"))
      | inr e ↦ rw e (
          listed-catalog_from allowed agent c registry
            (add_providers allowed capability providers catalog)
          ∙ ground (
            arith,
            listed-add_providers allowed capability agent c providers catalog,
            str_eq_same capability c "intent_matching",
          ))
    ]

-- The meaning of a set of allowed agents: none and the empty set permit every agent.
abbrev pub is_permitted : Option (List String) → String → Bool
is_permitted none agent = true
is_permitted (some []) agent = true
is_permitted (some (a ∷ names)) agent = contains agent (a ∷ names)

may_use-is_permitted :
    (allowed : Option (List String)) (agent : String)
    → may_use allowed agent ≡ is_permitted allowed agent
may_use-is_permitted none agent = refl
may_use-is_permitted (some []) agent = refl
may_use-is_permitted (some (a ∷ names)) agent = refl

-- The catalog is the registry turned around: it lists a capability for an agent exactly if the
-- registry names the agent as one of its providers, the capability is not the internal
-- `intent_matching`, and the agent is allowed, where an empty set of allowed agents allows all.
pub listed-build_capability_catalog :
    (allowed : Option (List String)) (registry : Dict (List String)) (agent c : String)
    → contains c (listed agent (build_capability_catalog allowed registry)) ≡ (
        is_permitted allowed agent
        && (not (str_eq c "intent_matching") && provides agent c registry))
unfolding build_capability_catalog get
listed-build_capability_catalog allowed registry agent c =
    listed-catalog_from allowed agent c registry []
    ∙ ap (λ b. b && (not (str_eq c "intent_matching") && provides agent c registry))
        (may_use-is_permitted allowed agent)
