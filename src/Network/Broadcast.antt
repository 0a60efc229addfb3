-- ===== src/Network/Broadcast.antt =====
-- Which agents a broadcast request reaches.
use jarvis_server.Prelude.{
  ℕ, ◌≡◌, ◌≢◌, refl, ap, ◌∙◌, String, Bool, Option, none, some, List, [], ◌∷◌, ◌++◌, map,
  append-nil, append_assoc, arith, contains, keep, fun_ext, Bool-cases, inl, inr,
}
use jarvis_server.Prelude.Dict.{Dict, has}
use jarvis_server.Value.{Value, field_of, texts, in_items-texts}
use jarvis_server.Network.{Network, Message, Agent}
use jarvis_server.Network.Registry.{providers_of}
use jarvis_server.Network.Send.{
  allowed_providers, allowed_value, request_message, request_capability,
}
use jarvis_server.Network.Process.{
  clone_for, send_clone, broadcast_to, restrict, handle_capability_request_broadcast,
}

-- The agents that the set lets through, when the broadcast is handled. An empty set reads as none
-- given.
abbrev effective_providers : Option (List String) → List String → List String
effective_providers none ps = ps
effective_providers (some []) ps = ps
effective_providers (some (a ∷ as')) ps = keep (λ p. contains p (a ∷ as')) ps

module _ (text_of : Value → String) where
  restrict-allowed_value :
      (allowed : Option (List String)) (ps : List String)
      → restrict (some (allowed_value text_of allowed)) ps ≡ some (effective_providers allowed ps)
  restrict-allowed_value none ps = refl
  restrict-allowed_value (some []) ps = refl
  restrict-allowed_value (some (a ∷ as')) [] = unfold texts in refl
  restrict-allowed_value (some (a ∷ as')) (p ∷ ps) =
      unfold texts in
      ap (λ (t : String → Bool). some (keep t (p ∷ ps))) (fun_ext (λ q. in_items-texts q (a ∷ as')))

-- The tasks that a worker has created, after a step that may raise.
abbrev spawned_by : Network → Option Network → List (String × Message)
spawned_by net none = net.spawned
spawned_by net (some x) = x.spawned

-- One task for each of the agents, with its own copy of the message.
abbrev clones : Message → List String → List (String × Message)
clones m = map (λ p. (p, clone_for p m))

abbrev pub registered : Network → List String → List String
registered net = keep (λ p. has p net.agents)

send_clone-agents :
    (p : String) (m : Message) (net : Network) → (send_clone p m net).agents ≡ net.agents
unfolding send_clone
send_clone-agents p m net = ground arith

send_clone-spawned :
    (p : String) (m : Message) (net : Network) (rest : List String)
    → (send_clone p m net).spawned ++ clones m (registered net rest)
      ≡ net.spawned ++ clones m (registered net (p ∷ rest))
unfolding send_clone
send_clone-spawned p m net rest = elim (Bool-cases (has p net.agents)) [
  | inl k ↦
      rw k (append_assoc net.spawned ((p, clone_for p m) ∷ []) (clones m (registered net rest)))
  | inr k ↦ rw k refl
]

spawned-broadcast_to :
    (ps : List String) (m : Message) (net : Network)
    → (broadcast_to ps m net).spawned ≡ net.spawned ++ clones m (registered net ps)
unfolding broadcast_to
spawned-broadcast_to [] m net = simp append-nil
spawned-broadcast_to (p ∷ ps) m net =
    spawned-broadcast_to ps m (send_clone p m net)
    ∙ ap (λ (d : Dict Agent). (send_clone p m net).spawned ++ clones m (keep (λ q. has q d) ps))
        (send_clone-agents p m net)
    ∙ send_clone-spawned p m net ps

module _ (text_of : Value → String) (from_agent capability : String) (payload : Value) (id : String)
    (allowed : Option (List String)) (trace span : Option String) (net : Network) where
  -- What a worker does with the broadcast of `request_capability`.
  spawned-request :
      spawned_by net (
        handle_capability_request_broadcast
          (request_message text_of from_agent capability payload id allowed trace span)
          net)
      ≡ net.spawned
        ++ clones (request_message text_of from_agent capability payload id allowed trace span) (
            registered net
              (effective_providers allowed (providers_of capability net.capability_registry)))
  unfolding handle_capability_request_broadcast field_of
  spawned-request =
      rw (restrict-allowed_value text_of allowed (providers_of capability net.capability_registry))
        (spawned-broadcast_to _ _ _)

effective-allowed :
    (text_of : Value → String) (allowed : Option (List String)) (ps : List String)
    → allowed ≢ some []
    → effective_providers allowed ps ≡ allowed_providers text_of allowed ps
effective-allowed text_of none ps h = refl
effective-allowed text_of (some []) ps h = absurd (h refl)
effective-allowed text_of (some (a ∷ as')) ps h = refl

-- With no set of allowed agents, or a set that is not empty, the broadcast of a request creates one
-- task for each registered agent among the providers that `request_capability` returned, in their
-- order, each with its own copy of the request, and no other task.
spawned-request_capability :
    (text_of : Value → String) (from_agent capability : String) (payload : Value) (id : String)
    (allowed : Option (List String)) (now : ℕ) (trace span : Option String) (net : Network)
    → allowed ≢ some []
    → spawned_by net (
        handle_capability_request_broadcast
          (request_message text_of from_agent capability payload id allowed trace span)
          net)
      ≡ net.spawned
        ++ clones (request_message text_of from_agent capability payload id allowed trace span) (
            registered net
              (request_capability text_of from_agent capability payload id allowed now trace span
                net).0)
unfolding request_capability
spawned-request_capability text_of from_agent capability payload id allowed now trace span net h =
    rw (← effective-allowed text_of allowed (providers_of capability net.capability_registry) h)
      (spawned-request text_of from_agent capability payload id allowed trace span net)

-- With an empty set of allowed agents the two sides disagree: `request_capability` returns no
-- provider, but its broadcast still creates a task for every registered provider of the capability.
spawned-request_empty_set :
    (text_of : Value → String) (from_agent capability : String) (payload : Value) (id : String)
    (now : ℕ) (trace span : Option String) (net : Network)
    → ((request_capability text_of from_agent capability payload id (some []) now trace span net).0
        ≡ [])
      × (spawned_by net (
            handle_capability_request_broadcast
              (request_message text_of from_agent capability payload id (some []) trace span)
              net)
          ≡ net.spawned
            ++ clones
                (request_message text_of from_agent capability payload id (some []) trace span)
                (registered net (providers_of capability net.capability_registry)))
unfolding request_capability
spawned-request_empty_set text_of from_agent capability payload id now trace span net = (
  keep_nothing (providers_of capability net.capability_registry),
  spawned-request text_of from_agent capability payload id (some []) trace span net,
)
  where
    keep_nothing : (ps : List String) → keep (λ p. contains p []) ps ≡ []
    keep_nothing [] = refl
    keep_nothing (p ∷ ps) = keep_nothing ps
