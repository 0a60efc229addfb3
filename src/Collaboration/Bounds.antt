-- ===== src/Collaboration/Bounds.antt =====
-- The tool loop of a lead agent against its budget, for jarvis/agents/collaboration.py.
use jarvis_server.Prelude.{
  ℕ, zero, suc, ◌+◌, ◌<◌, fun_ext, String, ◌≡◌, refl, sym, ap, subst, true, Option, none, some,
  List, [], ◌∷◌, ◌++◌, arith, inl, inr, length, length-append, ◌>>=◌, Bool-cases,
}
use jarvis_server.Prelude.Int.{ℤ, pos}
use jarvis_server.Value.{Value, arr, flag}
use jarvis_server.Mission.{MissionBrief, is_expired}
use jarvis_server.Response.{AgentResponse, success_response}
use jarvis_server.Collaboration.{RecruitError}
use jarvis_server.Collaboration.Lead.{
  ToolCall, ToolWorld, Action, Chat, timed_out, fails, replied, LeadWorld, LeadState, exec_tool,
  exec_tools, after_tools, after_chat, lead_loop, max_iterations, lead_response, lead_start,
  execute_as_lead, actions_items,
}
use jarvis_server.Collaboration.Paid.{IsPaid, IsPaid-same, IsPaid-trans, Paid, exec_tool-Paid}

module _ (message_of : RecruitError → String) (text_of : Value → String)
    (int_of_text : String → Option ℤ) (self : String) where
  abbrev IsLed : MissionBrief → LeadState → Type 0
  IsLed start s = IsPaid (length s.actions) start s.brief

  abbrev Led : MissionBrief → Option LeadState → Type 0
  Led start none = Unit
  Led start (some s) = IsLed start s

  tool-IsLed :
      (start : MissionBrief) (s : LeadState) (act : Action) (b : MissionBrief)
      → IsLed start s
      → IsPaid 1 s.brief b
      → IsLed start (record s { brief = b; actions = s.actions ++ act ∷ [] })
  tool-IsLed start s act b h p =
      subst (λ n. IsPaid n start b) (sym (length-append s.actions (act ∷ []))) (IsPaid-trans h p)

  exec_tools-Led :
      (start : MissionBrief) (calls : List (ToolCall × ToolWorld)) (s : LeadState)
      → IsLed start s
      → Led start (exec_tools message_of text_of int_of_text self calls s)
  unfolding exec_tools
  exec_tools-Led start [] s h = h
  exec_tools-Led start ((c, w) ∷ calls) s h =
      by (exec_tool message_of text_of int_of_text self c w s.brief)
        (exec_tool-Paid message_of text_of int_of_text self c w s.brief)
        (λ s'. exec_tools-Led start calls s')
    where
      by :
          (o : Option (Action × MissionBrief))
          → Paid 1 s.brief o
          → ((s' : LeadState)
              → IsLed start s'
              → Led start (exec_tools message_of text_of int_of_text self calls s'))
          → Led start (
              o >>= λ r.
              exec_tools message_of text_of int_of_text self calls
                (record s { brief = r.1; actions = s.actions ++ r.0 ∷ [] }))
      by none p again = tt
      by (some (act, b)) p again = again _ (tool-IsLed start s act b h p)

  after_chat-Led :
      (start : MissionBrief) (chat : Chat) (s : LeadState) (rest : LeadState → Option LeadState)
      → IsLed start s
      → ((s' : LeadState) → IsLed start s' → Led start (rest s'))
      → Led start (after_chat message_of text_of int_of_text self chat s rest)
  after_chat-Led start timed_out s rest h again = h
  after_chat-Led start fails s rest h again = tt
  after_chat-Led start (replied content []) s rest h again = h
  after_chat-Led start (replied content (c ∷ calls)) s rest h again =
      by
        (exec_tools message_of text_of int_of_text self (c ∷ calls)
          (record s { response = some content }))
        (exec_tools-Led start (c ∷ calls) (record s { response = some content }) h)
    where
      by : (o : Option LeadState) → Led start o → Led start (o >>= after_tools rest)
      by none p = tt
      by (some s') p = again (record s' { iterations = s'.iterations + 1 }) p

  lead_loop-Led :
      (start : MissionBrief) (world : ℕ → LeadWorld) (left i : ℕ) (s : LeadState)
      → IsLed start s
      → Led start (lead_loop message_of text_of int_of_text self world left i s)
  unfolding lead_loop
  lead_loop-Led start world zero i s h = h
  lead_loop-Led start world (suc left) i s h =
      elim (Bool-cases (is_expired s.brief.budget (world i).check_time)) [
        | inl e ↦ rw e h
        | inr e ↦ rw e (
            after_chat-Led start (world i).chat s _ h
              (λ s' p. lead_loop-Led start world left (i + 1) s' p))
      ]

  -- How a mission ends: with a response that reports success, and `n` actions in it.
  pub record IsMission (start : MissionBrief) (r : AgentResponse × MissionBrief) : Type 0 where
    pub actions : List Action
    pub listed : r.0.actions ≡ arr (actions_items actions)
    pub paid : IsPaid (length actions) start r.1
    pub reported : r.0.success ≡ flag true

  abbrev Missions : MissionBrief → Option (AgentResponse × MissionBrief) → Type 0
  Missions start none = Unit
  Missions start (some r) = IsMission start r

  end-Missions :
      (start : MissionBrief) (end_time : ℕ) (o : Option LeadState)
      → Led start o
      → Missions start
          (o >>= λ s. some (lead_response message_of text_of int_of_text self end_time s))
  unfolding success_response
  end-Missions start end_time none h = tt
  end-Missions start end_time (some s) h = record {
    actions = s.actions;
    listed = refl;
    paid = h;
    reported = refl;
  }

  execute-Missions :
      (world : ℕ → LeadWorld) (start_time end_time : ℕ) (b : MissionBrief)
      → Missions b (execute_as_lead message_of text_of int_of_text self world start_time end_time b)
  unfolding execute_as_lead success_response
  execute-Missions world start_time end_time b =
      elim (Bool-cases (is_expired b.budget start_time)) [
        | inl e ↦
            rw e (record { actions = []; listed = refl; paid = IsPaid-same 0 b; reported = refl })
        | inr e ↦ rw e (
            end-Missions b end_time _ (
              lead_loop-Led b world (max_iterations b.budget.max_recruitments) 0 (lead_start b)
                (IsPaid-same 0 b)))
      ]

  -- However the language model and the agents behave, a mission that ends gives no recruitment back,
  -- leaves at most one result in the context for each action that its response lists, and reports
  -- success.
  pub execute_as_lead-IsMission :
      (world : ℕ → LeadWorld) (start_time end_time : ℕ) (b : MissionBrief)
      (r : AgentResponse × MissionBrief)
      → execute_as_lead message_of text_of int_of_text self world start_time end_time b ≡ some r
      → IsMission b r
  execute_as_lead-IsMission world start_time end_time b r e =
      subst (Missions b) e (execute-Missions world start_time end_time b)

  lead_loop-Agrees :
      (world other : ℕ → LeadWorld) (left i : ℕ) (s : LeadState)
      → ((k : ℕ) → k < i + left → world k ≡ other k)
      → lead_loop message_of text_of int_of_text self world left i s
        ≡ lead_loop message_of text_of int_of_text self other left i s
  unfolding lead_loop
  lead_loop-Agrees world other zero i s h = refl
  lead_loop-Agrees world other (suc left) i s h =
      let rest : lead_loop message_of text_of int_of_text self world left (i + 1)
          ≡ lead_loop message_of text_of int_of_text self other left (i + 1) =
        fun_ext (λ x. lead_loop-Agrees world other left (i + 1) x (λ k l. h k (omega arith))) in
      rw (h i (omega arith), rest) refl

  -- A mission asks the language model `max_recruitments + 3` times at most: its result does not depend
  -- on later replies, times or answers.
  execute_as_lead-Agrees :
      (world other : ℕ → LeadWorld) (start_time end_time n : ℕ) (b : MissionBrief)
      → b.budget.max_recruitments ≡ pos n
      → ((k : ℕ) → k < n + 3 → world k ≡ other k)
      → execute_as_lead message_of text_of int_of_text self world start_time end_time b
        ≡ execute_as_lead message_of text_of int_of_text self other start_time end_time b
  unfolding execute_as_lead
  execute_as_lead-Agrees world other start_time end_time n b e h =
      let count = max_iterations b.budget.max_recruitments in
      let same =
        lead_loop-Agrees world other count 0 (lead_start b)
          (λ k l. h k (omega (arith, l, ap max_iterations e))) in
      rw same refl
