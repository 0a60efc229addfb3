-- ===== src/Orchestrator/Stages.antt =====
-- Induction over the stages of `process_request` in jarvis/core/orchestrator.py, for any predicate on
-- the state of the orchestrator.
use jarvis_server.Prelude.{
  String, ◌≡◌, Bool, true, false, ◌&&◌, Option, none, some, [], ◌∷◌, contains, is_empty,
  if◌then◌else◌, Bool-cases, inl, inr,
}
use jarvis_server.Value.{Value, truthy}
use jarvis_server.Feedback.{FeedbackCollector, is_negative_feedback}
use jarvis_server.Orchestrator.{
  Turn, Orchestrator, Run, ran, run_raised, Wait, answered, expired, wait_raised, World, Caller,
  store_conversation_turn, log_interaction, ask_network,
}
use jarvis_server.Orchestrator.Catalog.{build_capability_catalog, listed}
use jarvis_server.Orchestrator.Routing.{
  or_else, match_of, is_wake_up, handle_night_mode, last_turn, feedback_on, feedback_by,
  run_matched, try_protocol_match, Complexity, simple_request, complex_request, classify_complexity,
}
use jarvis_server.Orchestrator.Answers.{
  extract_intent, store_if, extract_response_text, mission_end, dispatch_mission, lead_mission,
  coordinate_request, or_error, nlu_answer, nlu_end, route_to_nlu, handle_feedback, route,
  process_request,
}

module _ (text_of : Value → String) (folded : String → String) (in_text : String → String → Bool)
    (exception_text : Value → String) (caller : Caller) (P : Orchestrator → Type 0)
    (logs : (i : Value) (ok : Bool) (o : Orchestrator) → P o → P (log_interaction i ok o))
    (corrects : (c : Option FeedbackCollector) (o : Orchestrator)
      → P o
      → P (record o { feedback_collector = c }))
    (stores : (input : String) (v : Value) (o : Orchestrator)
      → P o
      → P (store_conversation_turn caller.user_id input v o))
    (asks_nlu : (payload : Value) (o : Orchestrator)
      → P o
      → P (ask_network "intent_matching" payload caller.allowed_agents o))
    (asks_lead : (lead capability : String) (payload : Value) (o : Orchestrator)
      → contains lead o.agents ≡ true
      → contains capability
          (listed lead (build_capability_catalog caller.allowed_agents o.capability_registry))
        ≡ true
      → P o
      → P (ask_network capability payload (some (lead ∷ [])) o)) where
  or_else-P :
      (x : Option Value × Orchestrator) (f : Orchestrator → Value × Orchestrator)
      → P x.1
      → ((o : Orchestrator) → P o → P (f o).1)
      → P (or_else x f).1
  or_else-P (none, o) f h g = g o h
  or_else-P (some v, o) f h g = elim (Bool-cases (truthy v)) [
    | inl e ↦ rw e h
    | inr e ↦ rw e (g o h)
  ]

  night-P : (w : World) (o : Orchestrator) → P o → P (handle_night_mode w o).1
  unfolding handle_night_mode
  night-P w o h = elim (Bool-cases (is_wake_up (match_of w o))) [
    | inl e ↦ rw e h
    | inr e ↦ rw e (logs _ _ o h)
  ]

  feedback-P :
      (input : String) (w : World) (o : Orchestrator)
      → P o
      → P (handle_feedback text_of folded in_text exception_text input caller w o).1
  unfolding handle_feedback
  feedback-P input w o h = by o.feedback_collector (is_negative_feedback folded input)
    where
      on : (t : Option Turn) (c : FeedbackCollector) → P (feedback_on t c input caller w o).1
      on none c = h
      on (some t) c = corrects _ o h

      by : (c : Option FeedbackCollector) (b : Bool) → P (feedback_by c b input caller w o).1
      by none b = h
      by (some c) true = on (last_turn (o.conversation_history caller.user_id)) c
      by (some c) false = h

  protocol-P : (w : World) (o : Orchestrator) → P o → P (try_protocol_match w o).1
  unfolding try_protocol_match
  protocol-P w o h = by (match_of w o) w.run
    where
      by : (m : Option String) (r : Run) → P (run_matched m r o).1
      by none r = h
      by (some name) (ran v) = logs _ _ o h
      by (some name) (run_raised e) = logs _ _ o h

  store_if-P :
      (b : Bool) (input : String) (v : Value) (o : Orchestrator)
      → P o
      → P (store_if b caller.user_id input v o)
  store_if-P true input v o h = stores input v o h
  store_if-P false input v o h = h

  mission_end-P :
      (lead input : String) (a : Wait) (o : Orchestrator)
      → P o
      → P (mission_end text_of folded in_text exception_text lead input caller a o).1
  mission_end-P lead input (answered r) o h = logs _ _ _ (store_if-P _ input _ o h)
  mission_end-P lead input expired o h = h
  mission_end-P lead input (wait_raised e) o h = h

  lead-P :
      (c : Complexity) (input : String) (w : World) (o : Orchestrator)
      → P o
      → P
          (lead_mission text_of folded in_text exception_text c
            (build_capability_catalog caller.allowed_agents o.capability_registry)
            input
            caller
            w
            o).1
  unfolding dispatch_mission
  lead-P simple_request input w o h = h
  lead-P (complex_request lead capability) input w o h =
      let catalog = build_capability_catalog caller.allowed_agents o.capability_registry in
      elim (Bool-cases (contains lead o.agents)) [
        | inl a ↦ elim (Bool-cases (contains capability (listed lead catalog))) [
          | inl c ↦
              rw a
                (rw c (mission_end-P lead input w.mission _ (asks_lead lead capability _ o a c h)))
          | inr c ↦ rw a (rw c h)
        ]
        | inr a ↦ rw a h
      ]

  coordinate-P :
      (input : String) (w : World) (o : Orchestrator)
      → P o
      → P (coordinate_request text_of folded in_text exception_text input caller w o).1
  unfolding coordinate_request
  coordinate-P input w o h = elim (Bool-cases (o.has_ai_client && o.enable_coordinator)) [
    | inl e ↦
        rw e
          (elim (Bool-cases
            (is_empty (build_capability_catalog caller.allowed_agents o.capability_registry))) [
              | inl b ↦ rw b h
              | inr b ↦ rw b (lead-P (classify_complexity w.triage) input w o h)
            ])
    | inr e ↦ rw e h
  ]

  or_error-P :
      (reply : Option Value) (r : Value) (o : Orchestrator)
      → P o
      → P (or_error text_of folded in_text exception_text reply r o).1
  or_error-P none r o h = logs _ _ o h
  or_error-P (some v) r o h = h

  nlu_answer-P :
      (input : String) (r answer : Value) (i : Option Value) (o : Orchestrator)
      → P o
      → P (nlu_answer text_of folded in_text exception_text input caller r answer i o).1
  nlu_answer-P input r answer none o h = logs _ _ o h
  nlu_answer-P input r answer (some i) o h =
      or_error-P _ r _ (logs _ _ _ (store_if-P _ input answer o h))

  nlu_end-P :
      (input : String) (a : Wait) (o : Orchestrator)
      → P o
      → P (nlu_end text_of folded in_text exception_text input caller a o).1
  nlu_end-P input (answered r) o h =
      nlu_answer-P input r (extract_response_text text_of folded in_text exception_text r)
        (extract_intent r) o h
  nlu_end-P input expired o h = logs _ _ o h
  nlu_end-P input (wait_raised e) o h = logs _ _ o h

  nlu-P :
      (input : String) (w : World) (o : Orchestrator)
      → P o
      → P (route_to_nlu text_of folded in_text exception_text input caller w o).1
  unfolding route_to_nlu
  nlu-P input w o h = nlu_end-P input w.nlu _ (asks_nlu _ o h)

  route-P :
      (input : String) (w : World) (o : Orchestrator)
      → P o
      → P (route text_of folded in_text exception_text input caller w o).1
  unfolding route
  route-P input w o h =
      let last = route_to_nlu text_of folded in_text exception_text input caller w in
      let triaged = λ (o₂ : Orchestrator).
        or_else (coordinate_request text_of folded in_text exception_text input caller w o₂) last in
      or_else-P (handle_feedback text_of folded in_text exception_text input caller w o)
        (λ o₁. or_else (try_protocol_match w o₁) triaged) (feedback-P input w o h)
        λ o₁ h₁. or_else-P (try_protocol_match w o₁) triaged (protocol-P w o₁ h₁) λ o₂ h₂.
          or_else-P (coordinate_request text_of folded in_text exception_text input caller w o₂)
            last (coordinate-P input w o₂ h₂) (nlu-P input w)

  pub process_request-P :
      (input : String) (w : World) (o : Orchestrator)
      → P o
      → P (process_request text_of folded in_text exception_text input caller w o).1
  unfolding process_request
  process_request-P input w o h = by o.night_mode
    where
      by :
          (b : Bool)
          → P
              (if b
                then or_else
                    (handle_night_mode w o)
                    (route text_of folded in_text exception_text input caller w)
                else route text_of folded in_text exception_text input caller w o).1
      by true =
          or_else-P (handle_night_mode w o)
            (route text_of folded in_text exception_text input caller w) (night-P w o h)
            (route-P input w)
      by false = route-P input w o h
