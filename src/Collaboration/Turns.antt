-- ===== src/Collaboration/Turns.antt =====
-- A whole dialogue of jarvis/agents/collaboration.py, from its guards to the recorded transcript.
use jarvis_server.Prelude.{
  ℕ, ◌+◌, ◌*◌, ◌≤◌, ◌≡◌, refl, ap, ◌∙◌, String, true, false, [], ◌∷◌, arith, inl, inr, subst,
  length, length-append, str_eq,
}
use jarvis_server.Prelude.Int.{ℤ, pos_part}
use jarvis_server.Prelude.Text.{concat}
use jarvis_server.Value.{Value}
use jarvis_server.Mission.{MissionBrief, MissionContext, RecruitmentResult, add_result}
use jarvis_server.Collaboration.{check_recruit}
use jarvis_server.Collaboration.Interleaving.{check_recruit-granted, Guarded-cases}
use jarvis_server.Collaboration.Dialogue.{
  DialogueStatus, active, completed, terminated, error, DialogueSession, turn_count,
  transcript_value, is_complete, TurnWorld, with_status, close_status, new_session, record_dialogue,
  DialogueResult, raised, session, as_session, run_dialogue, dialogue,
}
use jarvis_server.Collaboration.Rounds.{
  IsNumbered, turns_of, IsFair, PairIsFair, dialogue_rounds-IsFair,
}

-- What a dialogue that was started leaves behind.
pub record IsSettled (self : String) (max_turns : ℤ) (start : MissionBrief) (s : DialogueSession)
    (b : MissionBrief) : Type 0 where
  pub ended : is_complete s.status ≡ true
  pub numbered : IsNumbered 1 s.turns
  pub bounded : turn_count s ≤ 2 * pos_part max_turns
  pub spent :
      pos_part b.budget.remaining_recruitments + turns_of self s.turns
      ≡ pos_part start.budget.remaining_recruitments
  pub recorded : length b.context.recruitment_results ≡ length start.context.recruitment_results + 1
  pub other : str_eq s.responder self ≡ false

is_complete-close_status : (st : DialogueStatus) → is_complete (close_status st) ≡ true
unfolding is_complete
is_complete-close_status active = refl
is_complete-close_status completed = refl
is_complete-close_status terminated = refl
is_complete-close_status error = refl

abbrev OnSession : (DialogueSession → MissionBrief → Type 0) → DialogueResult → Type 0
OnSession P (raised e) = Unit
OnSession P (session s b) = P s b

module _ (text_of : Value → String) (world : ℕ → TurnWorld) (self capability : String) where
  record-IsSettled :
      (provider : String) (max_turns : ℤ) (start : MissionBrief)
      (p : DialogueSession × MissionBrief)
      → (apart : str_eq provider self ≡ false)
      → PairIsFair self provider start apart (0 + 2 * pos_part max_turns) p
      → OnSession
          (IsSettled self max_turns start)
          (as_session (record_dialogue provider capability p))
  unfolding add_result
  record-IsSettled provider max_turns start (s, b) apart f = record {
    ended = is_complete-close_status s.status;
    numbered = f.numbered;
    bounded = omega (arith, f.bounded);
    spent = f.spent;
    recorded = omega (
      arith,
      ap (λ (c : MissionContext). length c.recruitment_results) f.context,
      length-append b.context.recruitment_results (entry ∷ []),
    );
    other = ap (λ t. str_eq t self) f.responder ∙ apart;
  }
    where
      entry : RecruitmentResult
      entry = record {
        agent = provider;
        capability = concat ("dialogue:" ∷ capability ∷ []);
        result = transcript_value (with_status (close_status s.status) s);
      }

  start-IsFair :
      (provider goal : String) (max_turns : ℤ) (start : MissionBrief)
      → IsFair self provider start 0 (new_session self provider goal capability max_turns) start
  start-IsFair provider goal max_turns start = record {
    initiator = refl;
    responder = refl;
    numbered = tt;
    bounded = omega arith;
    spent = omega arith;
    context = refl;
  }

  dialogue-OnSession :
      (message goal : String) (max_turns : ℤ) (start : MissionBrief) (now : ℕ)
      → OnSession
          (IsSettled self max_turns start)
          (dialogue text_of world self capability message goal max_turns start now)
  unfolding dialogue
  dialogue-OnSession message goal max_turns start now =
      elim (Guarded-cases (check_recruit self capability start now)) [
        | inr (e, h) ↦ rw (h, run_dialogue) tt
        | inl (provider, h) ↦
            rw (h, run_dialogue)
              (let apart = (check_recruit-granted self capability start now provider h).1.0 in
                record-IsSettled provider max_turns start _ apart (
                  dialogue_rounds-IsFair self provider start apart text_of world
                    (pos_part max_turns) 0 message 0 _ start
                    (start-IsFair provider goal max_turns start)))
      ]

-- A dialogue that starts always ends in a final status (never active); its turns are numbered
-- 1, 2, 3, ... and are at most twice the turns asked for; every turn of the lead cost exactly one
-- recruitment of the budget; the transcript is one more result of the context; and the responder is
-- another agent.
pub dialogue-IsSettled :
    (text_of : Value → String) (world : ℕ → TurnWorld) (self capability message goal : String)
    (max_turns : ℤ) (start : MissionBrief) (now : ℕ) (s : DialogueSession) (b : MissionBrief)
    → dialogue text_of world self capability message goal max_turns start now ≡ session s b
    → IsSettled self max_turns start s b
dialogue-IsSettled text_of world self capability message goal max_turns start now s b e =
    subst (OnSession (IsSettled self max_turns start)) e
      (dialogue-OnSession text_of world self capability message goal max_turns start now)
