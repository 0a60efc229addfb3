-- ===== src/Nlu/Blocked.antt =====
-- Graphs with a dependency that is not among their capabilities, and the order of the requests, for
-- jarvis/agents/nlu_agent/__init__.py.
use jarvis_server.Prelude.{
  ℕ, String, ◌≡◌, refl, ap, sym, ◌∙◌, subst, Bool, true, false, all, ◌&&◌, Option, none, some, List,
  [], ◌∷◌, ◌++◌, map, arith, inl, inr, str_eq, str_eq_iff, length, contains, is_empty, is_some,
  Bool-cases, ◌==◌, append_assoc, append-nil, get_or, keep, if◌then◌else◌,
}
use jarvis_server.Prelude.Dict.{get, keys, get-put_self}
use jarvis_server.Value.{Value, text}
use jarvis_server.Prelude.Text.{concat}
use jarvis_server.Nlu.Graph.{Dag, deps_of}
use jarvis_server.Nlu.Walks.{Needs}
use jarvis_server.Nlu.Classify.{graph}
use jarvis_server.Nlu.Requests.{Ask, AgentResult, Request, Effect, asked, NluAgent, split_id}
use jarvis_server.Nlu.Run.{
  all_in, ready_caps, sub_id, started, start_cap, start_all, capability_ask, start_or_complete,
  execute_ready,
}
use jarvis_server.Nlu.Handlers.{
  Incoming, continue_with, with_result, store, completed, handle_capability_response,
}
use jarvis_server.Nlu.Intent.{Intent, new_request, stored_request, route}
use jarvis_server.Nlu.Sets.{is_distinct}
use jarvis_server.Nlu.Ready.{ready-new, ready-deps, length_incomplete}
use jarvis_server.Nlu.Progress.{
  started_all, Grew, started_all-Grew, get-start_all, IsUnder, started-IsUnder, answered-IsUnder,
}
use jarvis_server.Nlu.Served.{runs, Run, here, next, new-IsUnder, found, match_for}

-- Requests to agents, in contrast to replies, errors and training.
abbrev is_ask : Effect → Bool
is_ask (asked x) = true
is_ask _ = false

-- What was sent after `start`: requests to agents and nothing else.
abbrev pub AskedOnly : List Effect → NluAgent → Type 0
AskedOnly start a = (more : List Effect) × (a.outbox ≡ start ++ more) × (all is_ask more ≡ true)

all-append : (xs ys : List Effect) → all is_ask (xs ++ ys) ≡ (all is_ask xs && all is_ask ys)
all-append [] ys = refl
all-append (x ∷ xs) ys = ground (arith, all-append xs ys)

all_asks :
    (rid : String) (allowed : Option (List String)) (info : Request) (caps : List String)
    → all is_ask (map (λ c. asked (capability_ask rid c allowed info)) caps) ≡ true
all_asks rid allowed info [] = refl
all_asks rid allowed info (c ∷ caps) = all_asks rid allowed info caps

previous-started :
    (rid c : String) (info : Request) (allowed : Option (List String)) (x : String)
    → capability_ask rid x allowed (started rid c info) ≡ capability_ask rid x allowed info
previous-started rid c info allowed x = refl

outbox-start_all :
    (rid : String) (caps : List String) (allowed : Option (List String)) (info : Request)
    (a : NluAgent)
    → (start_all rid caps allowed info a).outbox
      ≡ a.outbox ++ map (λ c. asked (capability_ask rid c allowed info)) caps
unfolding start_all start_cap
outbox-start_all rid [] allowed info a = sym (append-nil a.outbox)
outbox-start_all rid (c ∷ caps) allowed info a =
    outbox-start_all rid caps allowed (started rid c info) (start_cap rid c allowed info a).1
    ∙ append_assoc a.outbox (asked (capability_ask rid c allowed info) ∷ []) _

start_all-AskedOnly :
    (start : List Effect) (rid : String) (caps : List String) (allowed : Option (List String))
    (info : Request) (a : NluAgent)
    → AskedOnly start a
    → AskedOnly start (start_all rid caps allowed info a)
start_all-AskedOnly start rid caps allowed info a (more, e, h) =
    let asks = map (λ c. asked (capability_ask rid c allowed info)) caps in
    (
      more ++ asks,
      outbox-start_all rid caps allowed info a
          ∙ ap (λ xs. xs ++ asks) e
          ∙ append_assoc start more asks,
      all-append more asks ∙ rw (h, all_asks rid allowed info caps) refl,
    )

-- One capability of the graph waits for one that is not in it.
pub record IsBlocked (g : Dag) (cap d : String) : Type 0 where
  pub inside : contains cap (keys g) ≡ true
  pub needs : Needs g d cap
  pub outside : contains d (keys g) ≡ false
  pub unique : is_distinct (keys g) ≡ true
  pub named : contains "" (keys g) ≡ false

module _ (format_response : String → List AgentResult → Option String) (error_text : Value)
    (rid : String) (g : Dag) (cap d : String) (start : List Effect) (plain : split_id rid ≡ none)
    (blocked : IsBlocked g cap d) where
  -- The request is stored, and since the start only requests to agents were sent.
  record IsWaiting (a : NluAgent) : Type 0 where
    info : Request
    asked_only : AskedOnly start a
    stored_info : get rid a.active_requests ≡ some info
    under : IsUnder g info

  clash : {b : Bool} → b ≡ true → b ≡ false → ⊥
  clash p q = cc

  never_complete : (info : Request) → IsUnder g info → contains cap info.completed_caps ≡ false
  never_complete info i = elim (Bool-cases (contains cap info.completed_caps)) [
    | inr new ↦ new
    | inl done ↦
        absurd (
          clash (i.completed_known d (i.completed_ordered cap d done blocked.needs))
            blocked.outside)
  ]

  start_or_complete-IsWaiting :
      (allowed : Option (List String)) (info : Request) (caps : List String) (a : NluAgent)
      → ready_caps info.completed_caps info.running_caps g ≡ caps
      → get rid a.active_requests ≡ some info
      → IsUnder g info
      → AskedOnly start a
      → IsWaiting (start_or_complete format_response error_text rid g allowed info caps a)
  start_or_complete-IsWaiting allowed info [] a e s i o =
      let few =
        length_incomplete info.completed_caps g cap i.distinct i.completed_known blocked.inside
          (never_complete info i) in
      let test : (length info.completed_caps == length g) ≡ false = ground (arith, few) in
      rw test (record { info = info; asked_only = o; stored_info = s; under = i })
  start_or_complete-IsWaiting allowed info (c ∷ cs) a e s i o = record {
    info = started_all rid (c ∷ cs) info;
    asked_only = start_all-AskedOnly start rid (c ∷ cs) allowed info a o;
    stored_info = get-start_all rid (c ∷ cs) allowed info a plain s;
    under = started-IsUnder g info (started_all rid (c ∷ cs) info) blocked.unique i (
        subst (λ xs. Grew xs info (started_all rid (c ∷ cs) info)) (sym e)
          (started_all-Grew rid (c ∷ cs) info));
  }

  execute_ready-IsWaiting :
      (allowed : Option (List String)) (info : Request) (a : NluAgent)
      → get rid a.active_requests ≡ some info
      → IsUnder g info
      → AskedOnly start a
      → IsWaiting (execute_ready format_response error_text rid g allowed info a)
  unfolding execute_ready
  execute_ready-IsWaiting allowed info a s i o =
      start_or_complete-IsWaiting allowed info (ready_caps info.completed_caps info.running_caps g)
        a refl s i o

  module _ (registry : List String) where
    handle-IsWaiting :
        (c : String) (m : Incoming) (a : NluAgent) (w : IsWaiting a)
        → m.request_id ≡ sub_id rid c
        → runs c w.info ≡ true
        → IsWaiting (handle_capability_response format_response error_text registry m a)
    unfolding handle_capability_response
    handle-IsWaiting c m a w e k =
        let f = match_for rid c w.info in
        let info = with_result f m in
        let next_info = completed c info in
        let named : str_eq c "" ≡ false =
          ground (arith, w.under.running_known c k, blocked.named, str_eq_iff c "") in
        rw (found rid plain c m w.info a e w.stored_info) (
          subst
            (λ o.
              IsWaiting
                (continue_with format_response error_text registry m f info o (store rid info a)))
            (sym w.under.has_dag)
            (rw named (
              execute_ready-IsWaiting info.allowed_agents next_info
                (store rid next_info (store rid info a))
                (get-put_self rid next_info (store rid info a).active_requests)
                (answered-IsUnder g c w.info next_info w.under k refl refl refl) w.asked_only)))

    Run-IsWaiting :
        {a : NluAgent} {n : ℕ} {b : NluAgent}
        → Run format_response error_text registry rid a n b
        → IsWaiting a
        → IsWaiting b
    Run-IsWaiting here w = w
    Run-IsWaiting (next {n} {b} r c m info s k e) w =
        let v = Run-IsWaiting r w in
        handle-IsWaiting c m b v e (ap (runs c) (ap (get_or info) (sym v.stored_info ∙ s)) ∙ k)

-- If a capability of the graph waits for one that is not in it, the request is never answered: after
-- any number of answers of running capabilities it is still stored, and all that was sent since its
-- arrival are requests to agents, no reply and no error. The names of the graph are distinct and not
-- empty, and the id of the request has no colon.
pub Run-IsStuck :
    (format_response : String → List AgentResult → Option String) (error_text : Value)
    (registry : List String) (m : Intent) (e e' : String × List String) (dag : Dag) (cap d : String)
    (n : ℕ) (a b : NluAgent)
    → split_id m.request_id ≡ none
    → IsBlocked (e ∷ e' ∷ dag) cap d
    → Run format_response error_text registry m.request_id
        (route format_response error_text m (graph (e ∷ e' ∷ dag)) a)
        n
        b
    → (is_some (get m.request_id b.active_requests) ≡ true) × AskedOnly a.outbox b
Run-IsStuck format_response error_text registry m e e' dag cap d n a b plain blocked r =
    let g = e ∷ e' ∷ dag in
    let info = new_request m (some g) none in
    let w =
      Run-IsWaiting format_response error_text m.request_id g cap d a.outbox plain blocked registry
        r
        (execute_ready-IsWaiting format_response error_text m.request_id g cap d a.outbox plain
          blocked m.allowed_agents info (stored_request m info a)
          (get-put_self m.request_id info a.active_requests) (new-IsUnder m g)
          ([], sym (append-nil a.outbox), refl)) in
    (ap is_some w.stored_info, w.asked_only)

-- A request for a capability: the words and the context of the user, the results of the capabilities
-- that are complete if there are any, and an id of its own.
abbrev answered_by : List String → Option String → Bool
answered_by caps none = false
answered_by caps (some c) = contains c caps

abbrev pub asks_for : String → Option (List String) → Request → String → Ask
asks_for rid allowed info c = record {
  capability = c;
  prompt = text info.user_input;
  context = info.context;
  previous =
      if is_empty info.completed_caps
      then none
      else some (keep (λ r. answered_by info.completed_caps r.capability) info.agent_results);
  user_id = info.user_id;
  request_id = concat (rid ∷ ":" ∷ c ∷ []);
  allowed = allowed;
}

-- While some capability is ready, the execution of a graph asks for the ready ones, in
-- the order of the graph, with the user's words and context, the results of the complete ones and the
-- allowed agents, each under an id of its own, and sends nothing else. A capability is ready only if it is in the graph, neither complete nor running, and all that it waits for is
-- complete. The names of the graph are distinct.
pub execute_ready-Asks :
    (format_response : String → List AgentResult → Option String) (error_text : Value)
    (rid : String) (g : Dag) (allowed : Option (List String)) (info : Request) (a : NluAgent)
    → is_distinct (keys g) ≡ true
    → is_empty (ready_caps info.completed_caps info.running_caps g) ≡ false
    → ((execute_ready format_response error_text rid g allowed info a).outbox
        ≡ a.outbox
          ++ map
              (λ c. asked (asks_for rid allowed info c))
              (ready_caps info.completed_caps info.running_caps g))
      × ((c : String)
          → contains c (ready_caps info.completed_caps info.running_caps g) ≡ true
          → (contains c (keys g) ≡ true)
            × (contains c info.completed_caps ≡ false)
            × (contains c info.running_caps ≡ false)
            × (all_in info.completed_caps (deps_of c g) ≡ true))
unfolding execute_ready
execute_ready-Asks format_response error_text rid g allowed info a u h = (
  by (ready_caps info.completed_caps info.running_caps g) h,
  λ c k.
      let n = ready-new info.completed_caps info.running_caps c g k in
      (n.0, n.1, n.2, ready-deps info.completed_caps info.running_caps c g u k),
)
  where
    by :
        (caps : List String)
        → is_empty caps ≡ false
        → (start_or_complete format_response error_text rid g allowed info caps a).outbox
          ≡ a.outbox ++ map (λ c. asked (capability_ask rid c allowed info)) caps
    by [] h = cc
    by (c ∷ caps) h = outbox-start_all rid (c ∷ caps) allowed info a
