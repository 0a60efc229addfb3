-- ===== src/Nlu/Serving.antt =====
-- A request with a graph that is served, and what `_execute_ready_capabilities` of
-- jarvis/agents/nlu_agent/__init__.py makes of it.
use jarvis_server.Prelude.{
  ℕ, ◌<◌, String, ◌≡◌, refl, ap, sym, ◌∙◌, subst, ◌⊎◌, str_eq, true, false, Option, none, some,
  List, [], ◌∷◌, ◌++◌, arith, inl, inr, str_eq_iff, length, contains, is_empty, Bool-cases, ◌==◌,
  get_or,
}
use jarvis_server.Prelude.Dict.{get, get-remove_self}
use jarvis_server.Value.{Value}
use jarvis_server.Nlu.Graph.{Dag}
use jarvis_server.Nlu.Requests.{AgentResult, Request, Effect, replied, NluAgent, split_id}
use jarvis_server.Nlu.Run.{
  ready_caps, start_all, complete_for, answered_agent, complete_dag_execution, start_or_complete,
  execute_ready, dag_payload, final_text,
}
use jarvis_server.Nlu.Ready.{ready-new, all_complete, length_complete, length_incomplete}
use jarvis_server.Nlu.Progress.{
  started_all, Grew, started_all-Grew, get-start_all, IsUnder, IsSoundGraph, started-IsUnder,
}

first_in : (xs : List String) → is_empty xs ≡ false → (x : String) × (contains x xs ≡ true)
first_in [] h = cc
first_in (x ∷ xs) h = (x, ground (arith, str_eq_iff x x))

none_in : (xs : List String) (x : String) → is_empty xs ≡ true → contains x xs ≡ false
none_in [] x h = refl
none_in (y ∷ ys) x h = cc

not_empty : (xs : List String) (x : String) → contains x xs ≡ true → is_empty xs ≡ false
not_empty [] x h = cc
not_empty (y ∷ ys) x h = refl

module _ (format_response : String → List AgentResult → Option String) (error_text : Value)
    (rid requester : String) (g : Dag) where
  -- The request waits for agents: `n` capabilities are complete, and one at least is running.
  pub record IsServing (n : ℕ) (a : NluAgent) : Type 0 where
    pub info : Request
    pub stored : get rid a.active_requests ≡ some info
    pub under : IsUnder g info
    pub from : info.original_requester ≡ some requester
    pub busy : is_empty info.running_caps ≡ false
    pub count : length info.completed_caps ≡ n

  -- The request is gone, and its reply is the last message.
  pub record IsAnswered (a : NluAgent) : Type 0 where
    pub gone : get rid a.active_requests ≡ none
    pub before : List Effect
    pub reply : Value
    pub message_id : Option String
    pub last : a.outbox ≡ before ++ replied requester reply rid message_id ∷ []

  abbrev pub Progress : ℕ → NluAgent → Type 0
  Progress n a = (IsServing n a × (n < length g)) ⊎ (IsAnswered a × (n ≡ length g))

  module _ (plain : split_id rid ≡ none) (called : str_eq requester "" ≡ false)
      (sound : IsSoundGraph g) where
    started-Progress :
        (cap : String) (caps : List String) (allowed : Option (List String)) (info : Request)
        (a : NluAgent)
        → ready_caps info.completed_caps info.running_caps g ≡ cap ∷ caps
        → get rid a.active_requests ≡ some info
        → IsUnder g info
        → info.original_requester ≡ some requester
        → Progress (length info.completed_caps) (start_all rid (cap ∷ caps) allowed info a)
    started-Progress cap caps allowed info a e s i q =
        let grew = started_all-Grew rid (cap ∷ caps) info in
        let info' = started_all rid (cap ∷ caps) info in
        let new =
          ready-new info.completed_caps info.running_caps cap g
            (rw e (ground (arith, str_eq_iff cap cap))) in
        inl (
          record {
            info = info';
            stored = get-start_all rid (cap ∷ caps) allowed info a plain s;
            under =
                started-IsUnder g info info' sound.unique i
                  (subst (λ cs. Grew cs info info') (sym e) grew);
            from = grew.grew_requester ∙ q;
            busy =
                not_empty info'.running_caps cap
                  (grew.grew_running cap ∙ ground (arith, str_eq_iff cap cap));
            count = ap length grew.grew_completed;
          },
          length_incomplete info.completed_caps g cap i.distinct i.completed_known new.0 new.1,
        )

    complete_for-IsAnswered :
        (info : Request) (o : Option String) (a : NluAgent)
        → o ≡ some requester
        → IsAnswered (complete_for format_response error_text rid info o a)
    complete_for-IsAnswered info none a e = cc
    complete_for-IsAnswered info (some r) a e =
        let text =
          final_text format_response error_text info
            (format_response info.user_input info.agent_results) in
        let payload = dag_payload format_response error_text info text in
        record {
          gone = get-remove_self rid a.active_requests;
          before = a.outbox;
          reply = payload;
          message_id = info.original_message_id;
          last =
              ap (λ o. a.outbox ++ replied (get_or r o) payload rid info.original_message_id ∷ [])
                e;
        }

    -- Nothing runs and nothing is ready: all is complete, and the reply goes out.
    complete-Progress :
        (allowed : Option (List String)) (info : Request) (a : NluAgent)
        → ready_caps info.completed_caps info.running_caps g ≡ []
        → IsUnder g info
        → info.original_requester ≡ some requester
        → is_empty info.running_caps ≡ true
        → Progress
            (length info.completed_caps)
            (start_or_complete format_response error_text rid g allowed info [] a)
    unfolding complete_dag_execution
    complete-Progress allowed info a e i q idle =
        let agent : answered_agent info.original_requester ≡ some requester =
          ap answered_agent q ∙ rw called refl in
        let all =
          all_complete info.completed_caps info.running_caps g sound.acyclic sound.closed
            (λ x. none_in info.running_caps x idle) e in
        let full =
          length_complete info.completed_caps g i.distinct sound.unique i.completed_known all in
        let test : (length info.completed_caps == length g) ≡ true = ground (arith, full) in
        inr (
          rw test (complete_for-IsAnswered info (answered_agent info.original_requester) a agent),
          full,
        )

    -- Nothing is ready, but something runs: the request waits.
    wait-Progress :
        (allowed : Option (List String)) (info : Request) (a : NluAgent)
        → get rid a.active_requests ≡ some info
        → IsUnder g info
        → info.original_requester ≡ some requester
        → is_empty info.running_caps ≡ false
        → Progress
            (length info.completed_caps)
            (start_or_complete format_response error_text rid g allowed info [] a)
    wait-Progress allowed info a s i q busy =
        let (x, k) = first_in info.running_caps busy in
        let few =
          length_incomplete info.completed_caps g x i.distinct i.completed_known
            (i.running_known x k) (i.apart x k) in
        let test : (length info.completed_caps == length g) ≡ false = ground (arith, few) in
        inl (
          rw test
              (record { info = info; stored = s; under = i; from = q; busy = busy; count = refl }),
          few,
        )

    pub execute_ready-Progress :
        (allowed : Option (List String)) (info : Request) (a : NluAgent)
        → get rid a.active_requests ≡ some info
        → IsUnder g info
        → info.original_requester ≡ some requester
        → Progress
            (length info.completed_caps)
            (execute_ready format_response error_text rid g allowed info a)
    unfolding execute_ready
    execute_ready-Progress allowed info a s i q =
        by (ready_caps info.completed_caps info.running_caps g) refl
      where
        by :
            (caps : List String)
            → ready_caps info.completed_caps info.running_caps g ≡ caps
            → Progress
                (length info.completed_caps)
                (start_or_complete format_response error_text rid g allowed info caps a)
        by (cap ∷ caps) e = started-Progress cap caps allowed info a e s i q
        by [] e = elim (Bool-cases (is_empty info.running_caps)) [
          | inl idle ↦ complete-Progress allowed info a e i q idle
          | inr busy ↦ wait-Progress allowed info a s i q busy
        ]
