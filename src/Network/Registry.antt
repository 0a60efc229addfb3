-- ===== src/Network/Registry.antt =====
-- Registration of agents, and the table of capabilities and their providers.
use jarvis_server.Prelude.{
  ◌≡◌, refl, ◌∙◌, String, Bool, true, false, not, List, [], ◌∷◌, ◌++◌, append-nil, append_assoc,
  arith, keep, contains, is_empty, get_or, str_eq, str_eq_iff, ◌⊎◌, if◌then◌else◌, keep-append,
  keep_of_all, all-keep, Bool-cases, inl, inr,
}
use jarvis_server.Prelude.Dict.{Dict, get, put, remove, get-put, get-remove}
use jarvis_server.Network.{Network, Agent}

-- `registry.get(capability, [])`
abbrev pub providers_of : String → Dict (List String) → List String
providers_of capability registry = get_or [] (get capability registry)

-- `registry.setdefault(capability, []).append(name)` for each capability
unfoldable add_capabilities : String → List String → Dict (List String) → Dict (List String)
add_capabilities name [] registry = registry
add_capabilities name (c ∷ cs) registry =
    add_capabilities name cs (put c (providers_of c registry ++ name ∷ []) registry)

abbrev without : String → List String → List String
without name = keep (λ p. not (str_eq p name))

abbrev drop_provider : String → String → List String → Dict (List String) → Dict (List String)
drop_provider name c providers registry =
    if contains name providers
    then (if is_empty (without name providers)
        then remove c registry
        else put c (without name providers) registry)
    else registry

unfoldable remove_capabilities : String → List String → Dict (List String) → Dict (List String)
remove_capabilities name [] registry = registry
remove_capabilities name (c ∷ cs) registry =
    remove_capabilities name cs (drop_provider name c (providers_of c registry) registry)

abbrev add_agent_capabilities : Agent → Network → Network
add_agent_capabilities a net = record net {
  capability_registry = add_capabilities a.name a.capabilities net.capability_registry;
}

abbrev remove_agent_capabilities : Agent → Network → Network
remove_agent_capabilities a net = record net {
  capability_registry = remove_capabilities a.name a.capabilities net.capability_registry;
}

-- `register_agent`
unfoldable pub register_agent : Agent → Bool → Bool → Network → Network
unfolding add_capabilities
register_agent a include_capabilities night_agent net = record net {
  agents = put a.name a net.agents;
  night_agents = if night_agent then put a.name a net.night_agents else net.night_agents;
  night_capability_registry =
      if night_agent
      then add_capabilities a.name a.capabilities net.night_capability_registry
      else net.night_capability_registry;
  capability_registry =
      if include_capabilities
      then add_capabilities a.name a.capabilities net.capability_registry
      else net.capability_registry;
  protocol_registry = get_or net.protocol_registry a.protocols;
}

abbrev pub register_night_agent : Agent → Bool → Network → Network
register_night_agent a include_capabilities net = register_agent a include_capabilities true net

-- How often an agent that registers the capabilities is added for one of them.
abbrev copies : String → String → List String → List String
copies name c [] = []
copies name c (d ∷ ds) = let rest = copies name c ds in if str_eq d c then name ∷ rest else rest

providers-put :
    (c d : String) (ps : List String) (registry : Dict (List String))
    → providers_of c (put d ps registry) ≡ (if str_eq d c then ps else providers_of c registry)
providers-put c d ps registry = ground (arith, get-put d c ps registry)

one_added :
    (name c d : String) (rest : List String) (registry : Dict (List String))
    → providers_of c (put d (providers_of d registry ++ name ∷ []) registry) ++ rest
      ≡ providers_of c registry ++ (if str_eq d c then name ∷ rest else rest)
one_added name c d rest registry = elim (Bool-cases (str_eq d c)) [
  | inl e ↦
      rw (providers-put c d _ registry)
        (rw e (rw ((str_eq_iff d c).0 e) (append_assoc (providers_of c registry) (name ∷ []) rest)))
  | inr e ↦ rw (providers-put c d _ registry) (rw e refl)
]

-- Adding an agent appends it to the providers of each of its capabilities, and leaves the others.
providers-add_capabilities :
    (name c : String) (cs : List String) (registry : Dict (List String))
    → providers_of c (add_capabilities name cs registry)
      ≡ providers_of c registry ++ copies name c cs
unfolding add_capabilities
providers-add_capabilities name c [] registry = simp append-nil
providers-add_capabilities name c (d ∷ ds) registry =
    providers-add_capabilities name c ds _ ∙ one_added name c d (copies name c ds) registry

without_absent :
    (name : String) (xs : List String) → contains name xs ≡ false → without name xs ≡ xs
without_absent name [] h = refl
without_absent name (x ∷ xs) h = ground (arith, without_absent name xs)

providers-drop_provider :
    (name c d : String) (registry : Dict (List String))
    → providers_of c (drop_provider name d (providers_of d registry) registry)
      ≡ (if str_eq d c then without name (providers_of c registry) else providers_of c registry)
providers-drop_provider name c d registry = ground (
  arith,
  get-put d c (without name (providers_of d registry)) registry,
  get-remove d c registry,
  str_eq_iff d c,
  without_absent name (providers_of d registry),
)

without_twice :
    (name : String) (xs : List String) → without name (without name xs) ≡ without name xs
without_twice name xs = keep_of_all _ (without name xs) (all-keep _ xs)

remove_step :
    (name c d : String) (ds ps : List String)
    → (if contains c ds
        then without name (if str_eq d c then without name ps else ps)
        else if str_eq d c
        then without name ps
        else ps)
      ≡ (if contains c (d ∷ ds) then without name ps else ps)
remove_step name c d ds ps = ground (arith, without_twice name ps)

-- After an agent's capabilities are removed, it provides none of them any more: the providers of each
-- of its capabilities are the old ones without it, in their order, and the other capabilities keep
-- theirs.
providers-remove_capabilities :
    (name c : String) (cs : List String) (registry : Dict (List String))
    → providers_of c (remove_capabilities name cs registry)
      ≡ (if contains c cs then without name (providers_of c registry) else providers_of c registry)
unfolding remove_capabilities
providers-remove_capabilities name c [] registry = refl
providers-remove_capabilities name c (d ∷ ds) registry =
    providers-remove_capabilities name c ds _
    ∙ rw (providers-drop_provider name c d registry)
        (remove_step name c d ds (providers_of c registry))

without-copies : (name c : String) (cs : List String) → without name (copies name c cs) ≡ []
without-copies name c [] = refl
without-copies name c (d ∷ ds) = ground (arith, without-copies name c ds, str_eq_iff name name)

copies_absent : (name c : String) (cs : List String) → contains c cs ≡ false → copies name c cs ≡ []
copies_absent name c [] h = refl
copies_absent name c (d ∷ ds) h = ground (arith, copies_absent name c ds)

-- A night agent that is switched on and off again (`add_agent_capabilities`, then
-- `remove_agent_capabilities`) leaves every provider list as it was, if it was in none of those
-- of its capabilities before.
remove-add_agent_capabilities :
    (a : Agent) (net : Network) (c : String)
    → contains a.name (providers_of c net.capability_registry) ≡ false
    → providers_of c
        (remove_agent_capabilities a (add_agent_capabilities a net)).capability_registry
      ≡ providers_of c net.capability_registry
remove-add_agent_capabilities a net c h =
    providers-remove_capabilities a.name c a.capabilities _
    ∙ rw (providers-add_capabilities a.name c a.capabilities net.capability_registry)
        (back (Bool-cases (contains c a.capabilities)))
  where
    ps : List String
    ps = providers_of c net.capability_registry

    back :
        (contains c a.capabilities ≡ true) ⊎ (contains c a.capabilities ≡ false)
        → (if contains c a.capabilities
            then without a.name (ps ++ copies a.name c a.capabilities)
            else ps ++ copies a.name c a.capabilities)
          ≡ ps
    back (inl e) =
        rw e (simp (keep-append, without-copies, append-nil) (without_absent a.name ps h))
    back (inr e) = rw e (simp (copies_absent a.name c a.capabilities e, append-nil))
