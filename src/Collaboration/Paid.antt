-- ===== src/Collaboration/Paid.antt =====
-- A tool call of a lead agent against its budget, for jarvis/agents/collaboration.py.
use jarvis_server.Prelude.{
  ℕ, ◌+◌, ◌≤◌, String, ◌≡◌, refl, ap, Bool, true, false, Option, none, some, arith, inl, inr,
  str_eq, length, if◌then◌else◌, ◌>>=◌,
}
use jarvis_server.Prelude.Int.{ℤ, pos_part}
use jarvis_server.Value.{Value, Fields, field_of}
use jarvis_server.Mission.{MissionBudget, MissionBrief}
use jarvis_server.Mission.Budgets.{pos_part-pred}
use jarvis_server.Collaboration.{
  RecruitError, Answer, check_recruit, spend, spend_if, reserve, complete, recruit_outcome, recruit,
  handle_recruit_tool_call,
}
use jarvis_server.Collaboration.Dialogue.{TurnWorld, DialogueResult, raised, session, dialogue}
use jarvis_server.Collaboration.Interleaving.{Guarded-cases, length-complete, complete-chain}
use jarvis_server.Collaboration.Turns.{dialogue-IsSettled}
use jarvis_server.Collaboration.Lead.{
  ToolCall, ToolWorld, turns_arg, text_arg, dialogue_value, handle_dialogue_tool_call, called,
  action_of, exec_with, exec_tool,
}

-- From `a` to `b`, with `n` tool calls between: no recruitment is given back, and each call leaves one
-- result at most.
pub record IsPaid (n : ℕ) (a b : MissionBrief) : Type 0 where
  pub spent : pos_part b.budget.remaining_recruitments ≤ pos_part a.budget.remaining_recruitments
  pub recorded : length b.context.recruitment_results ≤ length a.context.recruitment_results + n

pub IsPaid-same : (n : ℕ) (b : MissionBrief) → IsPaid n b b
IsPaid-same n b = record { spent = omega arith; recorded = omega arith }

pub IsPaid-trans :
    {n m : ℕ} {a b c : MissionBrief} → IsPaid n a b → IsPaid m b c → IsPaid (n + m) a c
IsPaid-trans p q = record {
  spent = omega (arith, p.spent, q.spent);
  recorded = omega (arith, p.recorded, q.recorded);
}

complete-IsPaid :
    (agent capability : String) (answer : Answer) (b : MissionBrief)
    → IsPaid 1 b (complete agent capability answer (spend b))
complete-IsPaid agent capability answer b = record {
  spent = omega (
    arith,
    ap (λ (x : MissionBudget). pos_part x.remaining_recruitments)
        (complete-chain agent capability answer (spend b)).1,
    pos_part-pred b.budget.remaining_recruitments,
  );
  recorded = length-complete agent capability answer (spend b);
}

recruit-IsPaid :
    (self capability : String) (b : MissionBrief) (now : ℕ) (answer : Answer)
    → IsPaid 1 b (recruit self capability b now answer).1
unfolding recruit reserve
recruit-IsPaid self capability b now answer =
    elim (Guarded-cases (check_recruit self capability b now)) [
      | inl (agent, e) ↦
          rw (e, recruit_outcome, spend_if) (complete-IsPaid agent capability answer b)
      | inr (x, e) ↦ rw (e, recruit_outcome, spend_if) (IsPaid-same 1 b)
    ]

abbrev pub Paid : {A : Type 0} → ℕ → MissionBrief → Option (A × MissionBrief) → Type 0
Paid n b none = Unit
Paid n b (some (x, b')) = IsPaid n b b'

module _ (message_of : RecruitError → String) (text_of : Value → String)
    (int_of_text : String → Option ℤ) (self : String) where
  recruit_call-IsPaid :
      (capability : String) (b : MissionBrief) (now : ℕ) (answer : Answer)
      → IsPaid 1 b (handle_recruit_tool_call message_of text_of self capability b now answer).1
  unfolding handle_recruit_tool_call
  recruit_call-IsPaid capability b now answer = recruit-IsPaid self capability b now answer

  dialogue_value-IsPaid :
      (turns : ℕ → TurnWorld) (capability message goal : String) (max_turns : ℤ) (b : MissionBrief)
      (now : ℕ) (d : DialogueResult)
      → dialogue text_of turns self capability message goal max_turns b now ≡ d
      → IsPaid 1 b (dialogue_value message_of text_of int_of_text self b d).1
  dialogue_value-IsPaid turns capability message goal max_turns b now (raised x) e = IsPaid-same 1 b
  dialogue_value-IsPaid turns capability message goal max_turns b now (session s b') e =
      let settled =
        dialogue-IsSettled text_of turns self capability message goal max_turns b now s b' e in
      record { spent = omega (arith, settled.spent); recorded = omega (arith, settled.recorded) }

  dialogue_call-Paid :
      (args : Fields) (w : ToolWorld) (b : MissionBrief)
      → Paid 1 b (handle_dialogue_tool_call message_of text_of int_of_text self args w b)
  unfolding handle_dialogue_tool_call
  dialogue_call-Paid args w b =
      by (turns_arg message_of text_of int_of_text self (field_of "max_turns" args))
    where
      by :
          (o : Option ℤ)
          → Paid 1 b (
              o >>= λ max_turns. some (
                dialogue_value message_of text_of int_of_text self b (
                  dialogue text_of w.turns self
                    (text_arg message_of text_of int_of_text self "capability" args)
                    (text_arg message_of text_of int_of_text self "initial_message" args)
                    (text_arg message_of text_of int_of_text self "goal" args)
                    max_turns
                    b
                    w.now)))
      by none = tt
      by (some n) = dialogue_value-IsPaid w.turns _ _ _ n b w.now _ refl

  if-Paid :
      {A : Type 0} (n : ℕ) (b : MissionBrief) (t : Bool) (x y : Option (A × MissionBrief))
      → Paid n b x
      → Paid n b y
      → Paid n b (if t then x else y)
  if-Paid n b true x y h k = h
  if-Paid n b false x y h k = k

  pub exec_tool-Paid :
      (c : ToolCall) (w : ToolWorld) (b : MissionBrief)
      → Paid 1 b (exec_tool message_of text_of int_of_text self c w b)
  unfolding exec_tool
  exec_tool-Paid c w b = by c.arguments
    where
      map-Paid :
          (args : Fields) (o : Option (Value × MissionBrief))
          → Paid 1 b o
          → Paid 1 b (o >>= λ r. some (action_of c args r))
      map-Paid args none h = tt
      map-Paid args (some (v, b')) h = h

      by : (o : Option Fields) → Paid 1 b (exec_with message_of text_of int_of_text self c o w b)
      by none = IsPaid-same 1 b
      by (some args) = map-Paid args (called message_of text_of int_of_text self c args w b) (
          if-Paid 1 b (str_eq c.name "recruit_agent") _ _
            (recruit_call-IsPaid (text_arg message_of text_of int_of_text self "capability" args) b
              w.now w.answer)
            (if-Paid 1 b (str_eq c.name "start_dialogue") _ _ (dialogue_call-Paid args w b)
              (IsPaid-same 1 b)))
