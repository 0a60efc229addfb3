-- ===== src/Collaboration/Dialogue.antt =====
-- jarvis/agents/dialogue.py and `dialogue` of jarvis/agents/collaboration.py. The answers of the
-- responder, the replies of the language model and the times of the clock are given turn by turn;
-- no other task of the lead spends its budget in between.
use jarvis_server.Prelude.{
  ℕ, zero, suc, ◌+◌, String, Bool, true, false, Option, none, some, List, [], ◌∷◌, ◌++◌, map,
  length, if◌then◌else◌,
}
use jarvis_server.Prelude.Int.{ℤ, pos, pos_part, pred_ℤ, ltb_ℤ}
use jarvis_server.Prelude.Text.{decimal, concat, join}
use jarvis_server.Value.{Value, text, num, obj, end, field, field_of, truthy}
use jarvis_server.Mission.{MissionBrief, is_expired, can_recruit, add_result}
use jarvis_server.Collaboration.{
  Guarded, granted, refused, RecruitError, check_recruit, spend, Answer, answered, timed_out,
  failed,
}

pub data DialogueStatus : Type 0 where
  active completed terminated error : DialogueStatus

abbrev pub status_value : DialogueStatus → String
status_value active = "active"
status_value completed = "completed"
status_value terminated = "terminated"
status_value error = "error"

-- `note` is the text under the key "error" of the metadata of a turn.
pub record DialogueTurn : Type 0 where
  pub turn_number : ℕ
  pub speaker : String
  pub message : String
  pub note : Option String

pub record DialogueSession : Type 0 where
  pub initiator : String
  pub responder : String
  pub goal : String
  pub capability : String
  pub turns : List DialogueTurn
  pub max_turns : ℤ
  pub status : DialogueStatus

abbrev pub turn_count : DialogueSession → ℕ
turn_count s = length s.turns

unfoldable pub is_complete : DialogueStatus → Bool
is_complete active = false
is_complete completed = true
is_complete terminated = true
is_complete error = true

unfoldable pub add_turn : String → String → Option String → DialogueSession → DialogueSession
add_turn speaker message note s = record s {
  turns =
      s.turns
      ++ record {
        turn_number = turn_count s + 1;
        speaker = speaker;
        message = message;
        note = note;
      }
        ∷ [];
}

unfoldable pub format_transcript : DialogueSession → String
format_transcript s = join "\n" (
    map (λ t. concat ("[Turn " ∷ decimal t.turn_number ∷ "] " ∷ t.speaker ∷ ": " ∷ t.message ∷ []))
      s.turns)

-- What the call of the language model brings for the next message of the lead: no client, an
-- exception, a text that is no JSON, or an object with its two keys.
pub data LlmReply : Type 0 where
  no_client raises : LlmReply
  plain : String → LlmReply
  parsed : String → Option String → Bool → LlmReply

-- `_generate_dialogue_reply`: the next message, and whether to conclude
unfoldable pub generate_dialogue_reply : LlmReply → String × Bool
generate_dialogue_reply no_client = ("I have no further questions.", true)
generate_dialogue_reply raises = ("I have no further questions.", true)
generate_dialogue_reply (plain content) = (content, false)
generate_dialogue_reply (parsed content none conclude) = (content, conclude)
generate_dialogue_reply (parsed content (some message) conclude) = (message, conclude)

-- `bool(result.get("dialogue_done", False))` of a dictionary
unfoldable pub extract_dialogue_done_signal : Value → Bool
unfolding field_of
extract_dialogue_done_signal (obj fs) = elim (field_of "dialogue_done" fs) [
  | none ↦ false
  | some v ↦ truthy v
]
extract_dialogue_done_signal v = false

pub record TurnWorld : Type 0 where
  pub gate_time : ℕ
  pub answer : Answer
  pub check_time : ℕ
  pub reply : LlmReply

-- `text_of` is `str(x)` of a value.
module _ (text_of : Value → String) where
  unfoldable pub extract_dialogue_response : Value → String
  unfolding field_of
  extract_dialogue_response (obj fs) = elim (field_of "dialogue_message" fs) [
    | some v ↦ text_of v
    | none ↦ elim (field_of "response" fs) [ some v ↦ text_of v | none ↦ text_of (obj fs) ]
  ]
  extract_dialogue_response v = text_of v

-- How a round of the loop ends: by `break`, or with the message for the next round.
pub data Round : Type 0 where
  break : DialogueSession → MissionBrief → Round
  continue : DialogueSession → MissionBrief → String → Round

abbrev pub with_status : DialogueStatus → DialogueSession → DialogueSession
with_status st s = record s { status = st }

-- The lead's follow-up, asked for only if another round follows.
abbrev pub follow_up : Bool → String × Bool → String → DialogueSession → MissionBrief → Round
follow_up false reply message s brief = continue s brief message
follow_up true (next_message, true) message s brief = break (with_status completed s) brief
follow_up true (next_message, false) message s brief = continue s brief next_message

abbrev pub close_status : DialogueStatus → DialogueStatus
close_status active = completed
close_status other = other

abbrev pub transcript_value : DialogueSession → Value
transcript_value s = obj (
    field "transcript" (text (format_transcript s)) (
      field "status" (text (status_value s.status)) (field "turns" (num (pos (turn_count s))) end)))

abbrev pub new_session : String → String → String → String → ℤ → DialogueSession
new_session self provider goal capability max_turns = record {
  initiator = self;
  responder = provider;
  goal = goal;
  capability = capability;
  turns = [];
  max_turns = max_turns;
  status = active;
}

-- What follows the loop: the status of an exhausted loop, and the transcript in the context.
abbrev pub record_dialogue :
    String → String → DialogueSession × MissionBrief → DialogueSession × MissionBrief
record_dialogue provider capability (s, brief) =
    let s' = with_status (close_status s.status) s in
    (
      s',
      record brief {
        context =
            add_result provider (concat ("dialogue:" ∷ capability ∷ [])) (transcript_value s')
              brief.context;
      },
    )

pub data DialogueResult : Type 0 where
  raised : RecruitError → DialogueResult
  session : DialogueSession → MissionBrief → DialogueResult

abbrev pub as_session : DialogueSession × MissionBrief → DialogueResult
as_session (s, brief) = session s brief

-- What follows the wait for the responder: an exception ends the dialogue with a turn of its own.
module _ (text_of : Value → String) where
  unfoldable pub after_answer :
      Bool → TurnWorld → Answer → String → DialogueSession → MissionBrief → Round
  unfolding add_turn extract_dialogue_response extract_dialogue_done_signal generate_dialogue_reply
  after_answer more w (timed_out m) message s brief =
      break (add_turn s.responder "[timeout — no response]" (some "timeout") (with_status error s))
        brief
  after_answer more w (failed m) message s brief =
      break
        (add_turn s.responder (concat ("[error: " ∷ m ∷ "]" ∷ [])) (some m) (with_status error s))
        brief
  after_answer more w (answered v) message s brief =
      let s' = add_turn s.responder (extract_dialogue_response text_of v) none s in
      if extract_dialogue_done_signal v
      then break (with_status completed s') brief
      else if is_expired brief.budget w.check_time
      then break (with_status terminated s') brief
      else follow_up more (generate_dialogue_reply w.reply) message s' brief

  -- The body of the `for` loop, with the budget gate in front.
  unfoldable pub dialogue_round : ℕ → TurnWorld → String → DialogueSession → MissionBrief → Round
  unfolding after_answer
  dialogue_round turn_idx w message s brief =
      if can_recruit brief.budget w.gate_time
      then after_answer (ltb_ℤ (pos turn_idx) (pred_ℤ s.max_turns)) w w.answer message
          (add_turn s.initiator message none s) (spend brief)
      else break (with_status terminated s) brief

  -- `for turn_idx in range(max_turns)`, with `left` rounds to go
  unfoldable pub dialogue_rounds :
      (ℕ → TurnWorld)
      → ℕ
      → ℕ
      → String
      → DialogueSession
      → MissionBrief
      → DialogueSession × MissionBrief
  dialogue_rounds world zero turn_idx message s brief = (s, brief)
  dialogue_rounds world (suc left) turn_idx message s brief =
      elim (dialogue_round turn_idx (world turn_idx) message s brief) [
        | break s' brief' ↦ (s', brief')
        | continue s' brief' message' ↦ dialogue_rounds world left (turn_idx + 1) message' s' brief'
      ]

  abbrev pub run_dialogue :
      (ℕ → TurnWorld)
      → String
      → String
      → String
      → String
      → ℤ
      → MissionBrief
      → Guarded
      → DialogueResult
  run_dialogue world self capability message goal max_turns brief (refused e) = raised e
  run_dialogue world self capability message goal max_turns brief (granted provider) = as_session (
      record_dialogue provider capability (
        dialogue_rounds world (pos_part max_turns) 0 message
          (new_session self provider goal capability max_turns) brief))

  unfoldable pub dialogue :
      (ℕ → TurnWorld) → String → String → String → String → ℤ → MissionBrief → ℕ → DialogueResult
  unfolding dialogue_rounds
  dialogue world self capability message goal max_turns brief now =
      run_dialogue world self capability message goal max_turns brief
        (check_recruit self capability brief now)
