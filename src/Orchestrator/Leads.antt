-- ===== src/Orchestrator/Leads.antt =====
-- The requests that jarvis/core/orchestrator.py sends into the network.
use jarvis_server.Prelude.{
  All-append_one, String, ◌≡◌, refl, sym, ap, ◌∙◌, Bool, true, not, ◌&&◌, Option, none, some, List,
  [], ◌∷◌, ◌++◌, ◌⊎◌, inl, inr, str_eq, contains, arith, append-nil, append_assoc, All,
}
use jarvis_server.Value.{Value}
use jarvis_server.Orchestrator.{
  Request, Orchestrator, World, Caller, store_conversation_turn, ask_network,
}
use jarvis_server.Orchestrator.Catalog.{
  is_permitted, provides, listed, build_capability_catalog, listed-build_capability_catalog,
}
use jarvis_server.Orchestrator.Answers.{process_request}
use jarvis_server.Orchestrator.Stages.{process_request-P}

-- The meaning of a caller's set of agents: no set and the empty set permit every agent.
abbrev Permits : Option (List String) → String → Type 0
Permits none agent = Unit
Permits (some []) agent = Unit
Permits (some (a ∷ names)) agent = contains agent (a ∷ names) ≡ true

is_permitted-Permits :
    (allowed : Option (List String)) (agent : String)
    → is_permitted allowed agent ≡ true
    → Permits allowed agent
is_permitted-Permits none agent h = tt
is_permitted-Permits (some []) agent h = tt
is_permitted-Permits (some (a ∷ names)) agent h = h

-- A request for the understanding of language, under the caller's set of agents, or a mission for one
-- registered agent that provides the capability and that the caller permits.
abbrev pub IsLed : Caller → Orchestrator → Request → Type 0
IsLed caller o r =
    (lead : String) × (r.allowed ≡ some (lead ∷ []))
    × (contains lead o.agents ≡ true)
    × Permits caller.allowed_agents lead
    × (provides lead r.capability o.capability_registry ≡ true)

abbrev pub IsSound : Caller → Orchestrator → Request → Type 0
IsSound caller o r =
    ((r.capability ≡ "intent_matching") × (r.allowed ≡ caller.allowed_agents)) ⊎ IsLed caller o r

-- What has been sent since the state `o`.
record Sends (caller : Caller) (o o' : Orchestrator) : Type 0 where
  agents_stay : o'.agents ≡ o.agents
  registry_stays : o'.capability_registry ≡ o.capability_registry
  sent : List Request
  sent_now : o'.requests ≡ o.requests ++ sent
  each_sound : All (IsSound caller o) sent

abbrev pub OnlySound : Caller → Orchestrator → Orchestrator → Type 0
OnlySound caller o o' =
    (sent : List Request) × (o'.requests ≡ o.requests ++ sent) × All (IsSound caller o) sent

kept :
    (caller : Caller) (o o' o'' : Orchestrator)
    → Sends caller o o'
    → o''.agents ≡ o'.agents
    → o''.capability_registry ≡ o'.capability_registry
    → o''.requests ≡ o'.requests
    → Sends caller o o''
kept caller o o' o'' s a c r = record {
  agents_stay = a ∙ s.agents_stay;
  registry_stays = c ∙ s.registry_stays;
  sent = s.sent;
  sent_now = r ∙ s.sent_now;
  each_sound = s.each_sound;
}

store-Sends :
    (caller : Caller) (o o' : Orchestrator) (input : String) (v : Value)
    → Sends caller o o'
    → Sends caller o (store_conversation_turn caller.user_id input v o')
unfolding store_conversation_turn
store-Sends caller o o' input v s = kept caller o o' _ s refl refl refl

send-Sends :
    (caller : Caller) (o o' : Orchestrator) (capability : String) (payload : Value)
    (allowed : Option (List String))
    → IsSound caller o (record { capability = capability; payload = payload; allowed = allowed })
    → Sends caller o o'
    → Sends caller o (ask_network capability payload allowed o')
send-Sends caller o o' capability payload allowed q s =
    let r : Request = record { capability = capability; payload = payload; allowed = allowed } in
    record {
      agents_stay = s.agents_stay;
      registry_stays = s.registry_stays;
      sent = s.sent ++ r ∷ [];
      sent_now = ap (λ rs. rs ++ r ∷ []) s.sent_now ∙ append_assoc o.requests s.sent (r ∷ []);
      each_sound = All-append_one (IsSound caller o) r s.sent s.each_sound q;
    }

lead-IsLed :
    (caller : Caller) (o o' : Orchestrator) (lead capability : String) (payload : Value)
    → Sends caller o o'
    → contains lead o'.agents ≡ true
    → contains capability
        (listed lead (build_capability_catalog caller.allowed_agents o'.capability_registry))
      ≡ true
    → IsLed caller o
        (record { capability = capability; payload = payload; allowed = some (lead ∷ []) })
lead-IsLed caller o o' lead capability payload s a c =
    let registry = o.capability_registry in
    let e : (is_permitted caller.allowed_agents lead
          && (not (str_eq capability "intent_matching") && provides lead capability registry))
        ≡ true =
      sym (listed-build_capability_catalog caller.allowed_agents registry lead capability)
      ∙ ap
          (λ r.
            contains capability (listed lead (build_capability_catalog caller.allowed_agents r)))
          (sym s.registry_stays)
      ∙ c in
    (
      lead,
      refl,
      ap (contains lead) (sym s.agents_stay) ∙ a,
      is_permitted-Permits caller.allowed_agents lead (ground arith),
      ground arith,
    )

-- Whatever the outside answers, a request of a user makes the orchestrator send two kinds of requests
-- only: for the understanding of language, with the caller's set of allowed agents, or to a single
-- lead that is registered, a provider of the capability, and in the caller's set of allowed agents,
-- where no set and the empty set allow every agent. No reply of the language model makes it ask another
-- agent.
pub process_request-OnlySound :
    (text_of : Value → String) (folded : String → String) (in_text : String → String → Bool)
    (exception_text : Value → String) (caller : Caller) (input : String) (w : World)
    (o : Orchestrator)
    → OnlySound caller o (process_request text_of folded in_text exception_text input caller w o).1
process_request-OnlySound text_of folded in_text exception_text caller input w o =
    let start : Sends caller o o = record {
      agents_stay = refl;
      registry_stays = refl;
      sent = [];
      sent_now = sym (append-nil o.requests);
      each_sound = tt;
    } in
    let s =
      process_request-P text_of folded in_text exception_text caller (Sends caller o)
        (λ i ok o' h. kept caller o o' _ h refl refl refl)
        (λ f o' h. kept caller o o' _ h refl refl refl) (λ i v o' h. store-Sends caller o o' i v h)
        (λ d o' h.
          send-Sends caller o o' "intent_matching" d caller.allowed_agents (inl (refl, refl)) h)
        (λ l k d o' a c h.
          send-Sends caller o o' k d (some (l ∷ [])) (inr (lead-IsLed caller o o' l k d h a c)) h)
        input w o start in
    (s.sent, s.sent_now, s.each_sound)
