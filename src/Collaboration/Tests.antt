-- ===== src/Collaboration/Tests.antt =====
-- Instances of the theorems on recruitment and dialogues.
use jarvis_server.Prelude.{ℕ, zero, suc, ◌≡◌, refl, String, true, [], ◌∷◌}
use jarvis_server.Prelude.Int.{pos}
use jarvis_server.Value.{Value, text, obj, end, field, flag}
use jarvis_server.Mission.{MissionBrief, can_recruit, has_visited}
use jarvis_server.Mission.Tests.{brief}
use jarvis_server.Collaboration.{find_capability_provider, check_recruit, answered}
use jarvis_server.Collaboration.Interleaving.{
  Shared, begin_recruit, begin, Reach, here, next, fresh, IsWithin, Reach-IsWithin,
}
use jarvis_server.Collaboration.Dialogue.{
  DialogueSession, DialogueResult, session, completed, plain, TurnWorld, dialogue_round, dialogue,
}
use jarvis_server.Collaboration.Turns.{IsSettled, dialogue-IsSettled}

-- Two recruits overlap: the second begins before the first one ends.
abbrev one : Shared
one = begin_recruit "ChatAgent" "search" 7 (fresh brief)

abbrev two : Shared
two = begin_recruit "ChatAgent" "lights_on" 8 one

overlapping : Reach "ChatAgent" (fresh brief) two
overlapping = next (next here (begin (fresh brief) "search" 7)) (begin one "lights_on" 8)

Reach-IsWithin_example : IsWithin "ChatAgent" brief two
Reach-IsWithin_example = Reach-IsWithin brief overlapping

granted_twice : two.grants ≡ "LightsAgent" ∷ "SearchAgent" ∷ []
unfolding begin_recruit find_capability_provider can_recruit has_visited
granted_twice = refl

abbrev pub shown : Value → String
shown v = "?"

abbrev pub world : ℕ → TurnWorld
world zero = record {
  gate_time = 8;
  answer = answered (obj (field "dialogue_message" (text "where?") end));
  check_time = 9;
  reply = plain "in the hall";
}
world (suc n) = record {
  gate_time = 10;
  answer = answered (obj (field "dialogue_done" (flag true) end));
  check_time = 11;
  reply = plain "";
}

abbrev final_session : DialogueResult → DialogueSession
final_session (session s b) = s
final_session r = record {
  initiator = "";
  responder = "";
  goal = "";
  capability = "";
  turns = [];
  max_turns = pos 0;
  status = completed;
}

abbrev final_brief : DialogueResult → MissionBrief
final_brief (session s b) = b
final_brief r = brief

abbrev final : DialogueResult
final = dialogue shown world "ChatAgent" "lights_on" "light please" "light" (pos 3) brief 7

final-session : final ≡ session (final_session final) (final_brief final)
unfolding dialogue dialogue_round find_capability_provider can_recruit has_visited check_recruit
final-session = refl

dialogue-IsSettled_example :
    IsSettled "ChatAgent" (pos 3) brief (final_session final) (final_brief final)
dialogue-IsSettled_example =
    dialogue-IsSettled shown world "ChatAgent" "lights_on" "light please" "light" (pos 3) brief 7
      (final_session final) (final_brief final) final-session
