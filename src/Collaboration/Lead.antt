-- ===== src/Collaboration/Lead.antt =====
-- The tool loop of a lead agent, `_execute_as_lead` of jarvis/agents/collaboration.py. The calls of one
-- reply run one after the other here; how recruitments interleave is the subject of Interleaving. The
-- messages for the language model are left out: its replies are arguments, as are the times and what
-- agents answer. `none` is an exception that the loop does not catch.
use jarvis_server.Prelude.{
  ℕ, zero, suc, ◌+◌, String, Bool, true, false, not, ◌&&◌, Option, none, some, List, [], ◌∷◌, ◌++◌,
  str_eq, is_empty, if◌then◌else◌, get_or, ◌>>=◌,
}
use jarvis_server.Prelude.Int.{ℤ, pos, negsuc}
use jarvis_server.Prelude.Text.{concat}
use jarvis_server.Value.{
  Value, null, flag, num, text, arr, obj, Items, nil, cons, Fields, end, field, field_of,
}
use jarvis_server.Mission.{MissionBrief, is_expired}
use jarvis_server.Response.{AgentResponse, success_response}
use jarvis_server.Collaboration.{RecruitError, Answer, handle_recruit_tool_call}
use jarvis_server.Collaboration.Dialogue.{
  TurnWorld, DialogueResult, raised, session, dialogue, format_transcript, status_value, turn_count,
}

-- A call of a tool; `arguments` is `none` if its text is no JSON. JSON that is no object does not
-- occur.
pub record ToolCall : Type 0 where
  pub id : String
  pub name : String
  pub arguments : Option Fields
  pub raw : String

-- What an own tool of the agent brings.
pub data OwnResult : Type 0 where
  returns : Value → OwnResult
  fails : String → OwnResult

-- The outside of one tool call
pub record ToolWorld : Type 0 where
  pub now : ℕ
  pub answer : Answer
  pub turns : ℕ → TurnWorld
  pub own : OwnResult

pub record Action : Type 0 where
  pub function : String
  pub arguments : Fields
  pub result : Value

-- A call of `strong_chat` under its timeout
pub data Chat : Type 0 where
  timed_out : Chat
  fails : Chat
  replied : Option String → List (ToolCall × ToolWorld) → Chat

pub record LeadWorld : Type 0 where
  pub check_time : ℕ
  pub chat : Chat

-- The variables of the loop; `response` is the content of the last reply, if there is one.
pub record LeadState : Type 0 where
  pub brief : MissionBrief
  pub actions : List Action
  pub iterations : ℕ
  pub response : Option (Option String)

abbrev own_value : OwnResult → Value
own_value (returns v) = v
own_value (fails m) = obj (field "error" (text m) end)

abbrev pub action_of : ToolCall → Fields → Value × MissionBrief → Action × MissionBrief
action_of c args (v, brief) = (record { function = c.name; arguments = args; result = v }, brief)

abbrev pub after_tools : (LeadState → Option LeadState) → LeadState → Option LeadState
after_tools rest s = rest (record s { iterations = s.iterations + 1 })

-- `max_recruitments + 3`, as a number of iterations
abbrev pub max_iterations : ℤ → ℕ
max_iterations (pos n) = n + 3
max_iterations (negsuc zero) = 2
max_iterations (negsuc (suc zero)) = 1
max_iterations (negsuc (suc (suc n))) = 0

abbrev action_value : Action → Value
action_value a = obj (
    field "function" (text a.function)
      (field "arguments" (obj a.arguments) (field "result" a.result end)))

abbrev pub actions_items : List Action → Items
actions_items [] = nil
actions_items (a ∷ rest) = cons (action_value a) (actions_items rest)

abbrev is_blank : Option String → Bool
is_blank none = true
is_blank (some s) = str_eq s ""

abbrev optional_value : Option String → Value
optional_value none = null
optional_value (some s) = text s

-- The text of the last reply, or a partial one after the deadline
abbrev response_text : Bool → LeadState → Value
response_text expired s =
    let content = get_or (some "") s.response in
    if is_blank content && (expired && not (is_empty s.actions))
    then text "I gathered some information but ran out of time to complete the full request."
    else optional_value content

abbrev pub lead_start : MissionBrief → LeadState
lead_start brief = record { brief = brief; actions = []; iterations = 0; response = none }

module _ (message_of : RecruitError → String) (text_of : Value → String)
    (int_of_text : String → Option ℤ) (self : String) where
  -- `args.get(key, "")`
  abbrev pub text_arg : String → Fields → String
  text_arg key args = elim (field_of key args) [
    | none ↦ ""
    | some (text s) ↦ s
    | some v ↦ text_of v
  ]

  -- `int(args.get("max_turns", 3))`, whose exception is `none`
  abbrev pub turns_arg : Option Value → Option ℤ
  turns_arg none = some (pos 3)
  turns_arg (some (num n)) = some n
  turns_arg (some (flag true)) = some (pos 1)
  turns_arg (some (flag false)) = some (pos 0)
  turns_arg (some (text s)) = int_of_text s
  turns_arg (some v) = none

  abbrev pub dialogue_value : MissionBrief → DialogueResult → Value × MissionBrief
  dialogue_value brief (raised e) = (obj (field "error" (text (message_of e)) end), brief)
  dialogue_value brief (session s b) = (
    obj (
        field "transcript" (text (format_transcript s)) (
          field "status" (text (status_value s.status))
            (field "turns" (num (pos (turn_count s))) (field "goal" (text s.goal) end)))),
    b,
  )

  -- `_handle_dialogue_tool_call`
  unfoldable pub handle_dialogue_tool_call :
      Fields → ToolWorld → MissionBrief → Option (Value × MissionBrief)
  unfolding dialogue field_of
  handle_dialogue_tool_call args w brief = turns_arg (field_of "max_turns" args) >>= λ max_turns.
      some (
        dialogue_value brief (
          dialogue text_of w.turns self (text_arg "capability" args)
            (text_arg "initial_message" args) (text_arg "goal" args) max_turns brief w.now))

  abbrev pub called : ToolCall → Fields → ToolWorld → MissionBrief → Option (Value × MissionBrief)
  called c args w brief =
      if str_eq c.name "recruit_agent"
      then some (
          handle_recruit_tool_call message_of text_of self (text_arg "capability" args) brief w.now
            w.answer)
      else if str_eq c.name "start_dialogue"
      then handle_dialogue_tool_call args w brief
      else some (own_value w.own, brief)

  -- `_exec_tool`
  abbrev pub exec_with :
      ToolCall → Option Fields → ToolWorld → MissionBrief → Option (Action × MissionBrief)
  exec_with c none w brief =
      let message = concat ("Invalid arguments for " ∷ c.name ∷ ": " ∷ c.raw ∷ []) in
      some (action_of c end (obj (field "error" (text message) end), brief))
  exec_with c (some args) w brief = called c args w brief >>= λ r. some (action_of c args r)

  unfoldable pub exec_tool : ToolCall → ToolWorld → MissionBrief → Option (Action × MissionBrief)
  unfolding handle_recruit_tool_call handle_dialogue_tool_call
  exec_tool c w brief = exec_with c c.arguments w brief

  -- `asyncio.gather` over the calls of a reply, and the loop that records their results
  unfoldable pub exec_tools : List (ToolCall × ToolWorld) → LeadState → Option LeadState
  unfolding exec_tool
  exec_tools [] s = some s
  exec_tools ((c, w) ∷ calls) s = exec_tool c w s.brief >>= λ r.
      exec_tools calls (record s { brief = r.1; actions = s.actions ++ r.0 ∷ [] })

  -- What follows a reply; `rest` is the remaining loop.
  abbrev pub after_chat : Chat → LeadState → (LeadState → Option LeadState) → Option LeadState
  after_chat timed_out s rest = some s
  after_chat fails s rest = none
  after_chat (replied content []) s rest = some (record s { response = some content })
  after_chat (replied content (c ∷ calls)) s rest =
      exec_tools (c ∷ calls) (record s { response = some content }) >>= after_tools rest

  -- The `while` loop with `left` iterations to go
  unfoldable pub lead_loop : (ℕ → LeadWorld) → ℕ → ℕ → LeadState → Option LeadState
  unfolding exec_tools
  lead_loop world zero i s = some s
  lead_loop world (suc left) i s =
      let w = world i in
      let more = after_chat w.chat s (lead_loop world left (i + 1)) in
      if is_expired s.brief.budget w.check_time then some s else more

  abbrev lead_metadata : Bool → Value
  lead_metadata expired = obj (
      field "lead_agent" (text self) (
        field "mission_complexity" (text "complex")
          (if expired then field "budget_expired" (flag true) end else end)))

  abbrev pub lead_response : ℕ → LeadState → AgentResponse × MissionBrief
  lead_response end_time s =
      let expired = is_expired s.brief.budget end_time in
      (
        record (success_response "") {
          response = response_text expired s;
          actions = arr (actions_items s.actions);
          metadata = lead_metadata expired;
        },
        s.brief,
      )

  unfoldable pub execute_as_lead :
      (ℕ → LeadWorld) → ℕ → ℕ → MissionBrief → Option (AgentResponse × MissionBrief)
  unfolding lead_loop
  execute_as_lead world start_time end_time brief =
      if is_expired brief.budget start_time
      then some (
        record (success_response "The request deadline has passed before processing could begin.") {
          metadata = lead_metadata true;
        },
        brief,
      )
      else (lead_loop world (max_iterations brief.budget.max_recruitments) 0 (lead_start brief)
          >>= λ s. some (lead_response end_time s))
