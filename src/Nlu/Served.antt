-- ===== src/Nlu/Served.antt =====
-- Every request with a graph is answered, for jarvis/agents/nlu_agent/__init__.py: the answers of
-- running capabilities lead from the start of a graph to the reply.
use jarvis_server.Prelude.{
  ℕ, suc, String, ◌≡◌, refl, ap, sym, ◌∙◌, subst, Bool, true, false, Option, none, some, List, ◌∷◌,
  arith, inl, inr, str_eq, str_eq_iff, length, contains, get_or,
}
use jarvis_server.Prelude.Dict.{get, get-put_self}
use jarvis_server.Value.{Value}
use jarvis_server.Nlu.Graph.{Dag}
use jarvis_server.Nlu.Requests.{AgentResult, Request, NluAgent, split_id}
use jarvis_server.Nlu.Run.{add, discard, sub_id, execute_ready}
use jarvis_server.Nlu.Handlers.{
  Incoming, Match, find_match, continue_with, with_result, store, completed, advance,
  handle_capability_response,
}
use jarvis_server.Nlu.Classify.{graph}
use jarvis_server.Nlu.Intent.{Intent, new_request, stored_request, route}
use jarvis_server.Nlu.Sets.{split_id-sub_id}
use jarvis_server.Nlu.Progress.{IsUnder, IsSoundGraph, answered-IsUnder}
use jarvis_server.Nlu.Serving.{IsServing, Progress, execute_ready-Progress}

abbrev pub runs : String → Request → Bool
runs cap info = contains cap info.running_caps

abbrev pub match_for : String → String → Request → Match
match_for rid cap info = record { key = rid; info = info; capability = some cap }

pub found :
    (rid : String)
    → split_id rid ≡ none
    → (cap : String) (m : Incoming) (info : Request) (a : NluAgent) → m.request_id ≡ sub_id rid cap
    → get rid a.active_requests ≡ some info
    → find_match m.request_id a.active_requests ≡ some (match_for rid cap info)
unfolding find_match
found rid plain cap m info a e s = rw e (rw (split_id-sub_id rid cap plain) (rw s refl))

-- Answers of capabilities that are running, one after the other.
pub data Run (format_response : String → List AgentResult → Option String) (error_text : Value)
    (registry : List String) (rid : String) (a : NluAgent) : ℕ → NluAgent → Type 0 where
  here : Run format_response error_text registry rid a 0 a
  next :
      {n : ℕ} {b : NluAgent}
      → Run format_response error_text registry rid a n b
      → (cap : String) (m : Incoming) (info : Request) → get rid b.active_requests ≡ some info
      → runs cap info ≡ true
      → m.request_id ≡ sub_id rid cap
      → Run format_response error_text registry rid a
          (suc n)
          (handle_capability_response format_response error_text registry m b)

module _ (format_response : String → List AgentResult → Option String) (error_text : Value)
    (rid requester : String) (g : Dag) (plain : split_id rid ≡ none)
    (called : str_eq requester "" ≡ false) (sound : IsSoundGraph g) (registry : List String) where
  advance-Progress :
      (cap : String) (n : ℕ) (info info' : Request) (a : NluAgent)
      → IsUnder g info
      → info.original_requester ≡ some requester
      → length info.completed_caps ≡ n
      → runs cap info ≡ true
      → info'.dag ≡ info.dag
      → info'.original_requester ≡ info.original_requester
      → info'.completed_caps ≡ info.completed_caps
      → info'.running_caps ≡ info.running_caps
      → Progress format_response error_text rid requester g
          (suc n)
          (advance format_response error_text registry rid g (some cap) info' a)
  advance-Progress cap n info info' a i q l k ed eq ec er =
      let named : str_eq cap "" ≡ false =
        ground (arith, i.running_known cap k, sound.named, str_eq_iff cap "") in
      let next = completed cap info' in
      let under = answered-IsUnder g cap info next i k ed (ap (add cap) ec) (ap (discard cap) er) in
      let more : length next.completed_caps ≡ suc n =
        ap (λ c. length (add cap c)) ec ∙ ground (arith, i.apart cap k) in
      let done =
        execute_ready format_response error_text rid g info'.allowed_agents next
          (store rid next a) in
      rw named (
        subst (λ t. Progress format_response error_text rid requester g t done) more
          (execute_ready-Progress format_response error_text rid requester g plain called sound
            info'.allowed_agents next (store rid next a) (get-put_self rid next a.active_requests)
            under (eq ∙ q)))

  handle-Progress :
      (cap : String) (n : ℕ) (m : Incoming) (a : NluAgent)
      (s : IsServing format_response error_text rid requester g n a)
      → m.request_id ≡ sub_id rid cap
      → runs cap s.info ≡ true
      → Progress format_response error_text rid requester g
          (suc n)
          (handle_capability_response format_response error_text registry m a)
  unfolding handle_capability_response
  handle-Progress cap n m a s e k =
      let f = match_for rid cap s.info in
      let info = with_result f m in
      rw (found rid plain cap m s.info a e s.stored) (
        subst
          (λ o.
            Progress format_response error_text rid requester g (suc n)
              (continue_with format_response error_text registry m f info o (store rid info a)))
          (sym s.under.has_dag)
          (advance-Progress cap n s.info info (store rid info a) s.under s.from s.count k refl refl
            refl refl))

  some_inj : {x y : Request} → some x ≡ some y → x ≡ y
  some_inj {x} e = ap (get_or x) e

  Run-Progress_from :
      {a : NluAgent} {n : ℕ} {b : NluAgent}
      → Run format_response error_text registry rid a n b
      → Progress format_response error_text rid requester g 0 a
      → Progress format_response error_text rid requester g n b
  Run-Progress_from here p = p
  Run-Progress_from (next {n} {b} r cap m info s k e) p = elim (Run-Progress_from r p) [
    | inl (v, l) ↦ handle-Progress cap n m b v e (ap (runs cap) (some_inj (sym v.stored ∙ s)) ∙ k)
    | inr (v, l) ↦ absurd (gone_stored (sym v.gone ∙ s))
  ]
    where
      gone_stored : {i : Request} → none ≡ some i → ⊥
      gone_stored e = cc

pub new-IsUnder : (m : Intent) (g : Dag) → IsUnder g (new_request m (some g) none)
new-IsUnder m g = record {
  has_dag = refl;
  completed_known = λ x h. cc;
  running_known = λ x h. cc;
  distinct = refl;
  apart = λ x h. cc;
  running_ordered = λ x d h n. cc;
  completed_ordered = λ x d h n. cc;
}

-- A request whose graph has two capabilities or more, no cycle, distinct names none of which is empty,
-- and every dependency among its capabilities is served to its end: after `n` answers of running
-- capabilities `n` are complete, all that the complete and the running ones wait for is complete, and
-- one at least is running; but when all of the graph have answered, the request is gone and its reply
-- to the agent that asked is the last message. The id of the request has no colon, and the name of the
-- agent that asked is not empty.
pub Run-Progress :
    (format_response : String → List AgentResult → Option String) (error_text : Value)
    (registry : List String) (m : Intent) (e e' : String × List String) (dag : Dag) (n : ℕ)
    (a b : NluAgent)
    → split_id m.request_id ≡ none
    → str_eq m.from_agent "" ≡ false
    → IsSoundGraph (e ∷ e' ∷ dag)
    → Run format_response error_text registry m.request_id
        (route format_response error_text m (graph (e ∷ e' ∷ dag)) a)
        n
        b
    → Progress format_response error_text m.request_id m.from_agent (e ∷ e' ∷ dag) n b
Run-Progress format_response error_text registry m e e' dag n a b plain called sound r =
    let g = e ∷ e' ∷ dag in
    let info = new_request m (some g) none in
    Run-Progress_from format_response error_text m.request_id m.from_agent g plain called sound
      registry r
      (execute_ready-Progress format_response error_text m.request_id m.from_agent g plain called
        sound m.allowed_agents info (stored_request m info a)
        (get-put_self m.request_id info a.active_requests) (new-IsUnder m g) refl)
