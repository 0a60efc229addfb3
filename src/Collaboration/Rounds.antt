-- ===== src/Collaboration/Rounds.antt =====
-- The transcript and the budget over the rounds of `dialogue` of jarvis/agents/collaboration.py.
use jarvis_server.Prelude.{
  ℕ, zero, suc, ◌+◌, ◌*◌, ◌≤◌, ◌≡◌, refl, String, Bool, true, false, Option, none, List, [], ◌∷◌,
  ◌++◌, arith, Bool-cases, inl, inr, subst, ◌⊎◌, length, length-append, str_eq, str_eq_iff,
  if◌then◌else◌,
}
use jarvis_server.Prelude.Int.{pos_part}
use jarvis_server.Value.{Value}
use jarvis_server.Mission.{MissionBrief, can_recruit, is_expired}
use jarvis_server.Collaboration.{spend, Answer, answered, timed_out, failed}
use jarvis_server.Collaboration.Interleaving.{spend_one}
use jarvis_server.Collaboration.Dialogue.{
  DialogueStatus, completed, terminated, error, DialogueTurn, DialogueSession, turn_count, add_turn,
  generate_dialogue_reply, extract_dialogue_response, extract_dialogue_done_signal, TurnWorld,
  Round, break, continue, with_status, follow_up, after_answer, dialogue_round, dialogue_rounds,
}

-- Turns numbered without gaps, from the given number.
abbrev pub IsNumbered : ℕ → List DialogueTurn → Type 0
IsNumbered n [] = Unit
IsNumbered n (t ∷ ts) = (t.turn_number ≡ n) × IsNumbered (n + 1) ts

-- How many of the turns an agent speaks.
abbrev pub turns_of : String → List DialogueTurn → ℕ
turns_of agent [] = 0
turns_of agent (t ∷ ts) =
    if str_eq t.speaker agent then suc (turns_of agent ts) else turns_of agent ts

IsNumbered-append :
    (n : ℕ) (ts : List DialogueTurn) (t : DialogueTurn)
    → t.turn_number ≡ n + length ts
    → IsNumbered n ts
    → IsNumbered n (ts ++ t ∷ [])
IsNumbered-append n [] t e h = (omega arith, tt)
IsNumbered-append n (u ∷ ts) t e h = (h.0, IsNumbered-append (n + 1) ts t (omega arith) h.1)

turns_of-append :
    (agent : String) (ts : List DialogueTurn) (t : DialogueTurn)
    → turns_of agent (ts ++ t ∷ []) ≡ turns_of agent ts + turns_of agent (t ∷ [])
turns_of-append agent [] t = omega arith
turns_of-append agent (u ∷ ts) t = ground (arith, turns_of-append agent ts t)

-- What holds between two rounds: at most `n` turns, numbered from one, and the budget short by one
-- recruitment for each turn of the lead.
pub record IsFair (self provider : String) (start : MissionBrief) (n : ℕ) (s : DialogueSession)
    (b : MissionBrief) : Type 0 where
  pub initiator : s.initiator ≡ self
  pub responder : s.responder ≡ provider
  pub numbered : IsNumbered 1 s.turns
  pub bounded : turn_count s ≤ n
  pub spent :
      pos_part b.budget.remaining_recruitments + turns_of self s.turns
      ≡ pos_part start.budget.remaining_recruitments
  pub context : b.context ≡ start.context

abbrev RoundIsFair : String → String → MissionBrief → ℕ → Round → Type 0
RoundIsFair self provider start n (break s b) = IsFair self provider start n s b
RoundIsFair self provider start n (continue s b m) = IsFair self provider start n s b

module _ (self provider : String) (start : MissionBrief)
    (apart : str_eq provider self ≡ false) where
  lead-IsFair :
      (n now : ℕ) (message : String) (s : DialogueSession) (b : MissionBrief)
      → can_recruit b.budget now ≡ true
      → IsFair self provider start n s b
      → IsFair self provider start (n + 1) (add_turn s.initiator message none s) (spend b)
  unfolding add_turn
  lead-IsFair n now message s b c f = record {
    initiator = f.initiator;
    responder = f.responder;
    numbered = IsNumbered-append 1 s.turns _ (omega arith) f.numbered;
    bounded = omega (
      arith,
      f.bounded,
      length-append s.turns (
          record {
            turn_number = turn_count s + 1;
            speaker = s.initiator;
            message = message;
            note = none;
          }
          ∷ []),
    );
    spent = ground (
      arith,
      f.spent,
      f.initiator,
      str_eq_iff s.initiator self,
      spend_one b.budget now c,
      turns_of-append self s.turns (record {
        turn_number = turn_count s + 1;
        speaker = s.initiator;
        message = message;
        note = none;
      }),
    );
    context = f.context;
  }

  responder-IsFair :
      (n : ℕ) (message : String) (note : Option String) (st : DialogueStatus) (s : DialogueSession)
      (b : MissionBrief)
      → IsFair self provider start n s b
      → IsFair self provider start (n + 1) (add_turn s.responder message note (with_status st s)) b
  unfolding add_turn
  responder-IsFair n message note st s b f = record {
    initiator = f.initiator;
    responder = f.responder;
    numbered = IsNumbered-append 1 s.turns _ (omega arith) f.numbered;
    bounded = omega (
      arith,
      f.bounded,
      length-append s.turns (
          record {
            turn_number = turn_count s + 1;
            speaker = s.responder;
            message = message;
            note = note;
          }
          ∷ []),
    );
    spent = ground (
      arith,
      f.spent,
      f.responder,
      apart,
      str_eq_iff s.responder self,
      str_eq_iff provider self,
      turns_of-append self s.turns (record {
        turn_number = turn_count s + 1;
        speaker = s.responder;
        message = message;
        note = note;
      }),
    );
    context = f.context;
  }

  status-IsFair :
      (n : ℕ) (st : DialogueStatus) (s : DialogueSession) (b : MissionBrief)
      → IsFair self provider start n s b
      → IsFair self provider start n (with_status st s) b
  status-IsFair n st s b f = record {
    initiator = f.initiator;
    responder = f.responder;
    numbered = f.numbered;
    bounded = f.bounded;
    spent = f.spent;
    context = f.context;
  }

  follow_up-IsFair :
      (more : Bool) (reply : String × Bool) (message : String) (n : ℕ) (s : DialogueSession)
      (b : MissionBrief)
      → IsFair self provider start n s b
      → RoundIsFair self provider start n (follow_up more reply message s b)
  follow_up-IsFair false reply message n s b f = f
  follow_up-IsFair true (m, true) message n s b f = status-IsFair n completed s b f
  follow_up-IsFair true (m, false) message n s b f = f

  weaken :
      (n m : ℕ) (s : DialogueSession) (b : MissionBrief)
      → n ≤ m
      → IsFair self provider start n s b
      → IsFair self provider start m s b
  weaken n m s b h f = record {
    initiator = f.initiator;
    responder = f.responder;
    numbered = f.numbered;
    bounded = omega (arith, f.bounded);
    spent = f.spent;
    context = f.context;
  }

  weaken_round :
      (n m : ℕ) (r : Round)
      → n ≤ m
      → RoundIsFair self provider start n r
      → RoundIsFair self provider start m r
  weaken_round n m (break s b) h f = weaken n m s b h f
  weaken_round n m (continue s b x) h f = weaken n m s b h f

  abbrev pub PairIsFair : ℕ → DialogueSession × MissionBrief → Type 0
  PairIsFair n (s, b) = IsFair self provider start n s b

  weaken_pair :
      (n m : ℕ) (p : DialogueSession × MissionBrief) → n ≤ m → PairIsFair n p → PairIsFair m p
  weaken_pair n m (s, b) h f = weaken n m s b h f

  module _ (text_of : Value → String) where
    after_answer-IsFair :
        (more : Bool) (w : TurnWorld) (answer : Answer) (message : String) (n : ℕ)
        (s : DialogueSession) (b : MissionBrief)
        → IsFair self provider start n s b
        → RoundIsFair self provider start (n + 1) (after_answer text_of more w answer message s b)
    unfolding after_answer
    after_answer-IsFair more w (timed_out m) message n s b f = responder-IsFair n _ _ error s b f
    after_answer-IsFair more w (failed m) message n s b f = responder-IsFair n _ _ error s b f
    after_answer-IsFair more w (answered v) message n s b f =
        let f' = responder-IsFair n (extract_dialogue_response text_of v) none s.status s b f in
        elim (Bool-cases (extract_dialogue_done_signal v)) [
          | inl d ↦ rw d (status-IsFair (n + 1) completed _ b f')
          | inr d ↦ rw d (elim (Bool-cases (is_expired b.budget w.check_time)) [
            | inl x ↦ rw x (status-IsFair (n + 1) terminated _ b f')
            | inr x ↦
                rw x
                  (follow_up-IsFair more (generate_dialogue_reply w.reply) message (n + 1) _ b f')
          ])
        ]

    dialogue_round-IsFair :
        (turn_idx : ℕ) (w : TurnWorld) (message : String) (n : ℕ) (s : DialogueSession)
        (b : MissionBrief)
        → IsFair self provider start n s b
        → RoundIsFair self provider start (n + 2) (dialogue_round text_of turn_idx w message s b)
    unfolding dialogue_round
    dialogue_round-IsFair turn_idx w message n s b f =
        elim (Bool-cases (can_recruit b.budget w.gate_time)) [
          | inl c ↦ rw c (
              weaken_round (n + 1 + 1) (n + 2) _ (omega arith) (
                after_answer-IsFair _ w w.answer message (n + 1) _ (spend b)
                  (lead-IsFair n w.gate_time message s b c f)))
          | inr c ↦ rw c (weaken n (n + 2) _ b (omega arith) (status-IsFair n terminated s b f))
        ]

    Round-cases :
        (r : Round)
        → ((s : DialogueSession) × (b : MissionBrief) × (r ≡ break s b))
          ⊎ ((s : DialogueSession) × (b : MissionBrief) × (m : String) × (r ≡ continue s b m))
    Round-cases (break s b) = inl (s, b, refl)
    Round-cases (continue s b m) = inr (s, b, m, refl)

    pub dialogue_rounds-IsFair :
        (world : ℕ → TurnWorld) (left turn_idx : ℕ) (message : String) (n : ℕ) (s : DialogueSession)
        (b : MissionBrief)
        → IsFair self provider start n s b
        → PairIsFair (n + 2 * left) (dialogue_rounds text_of world left turn_idx message s b)
    unfolding dialogue_rounds
    dialogue_rounds-IsFair world zero turn_idx message n s b f =
        weaken n (n + 2 * 0) s b (omega arith) f
    dialogue_rounds-IsFair world (suc left) turn_idx message n s b f =
        let fair = dialogue_round-IsFair turn_idx (world turn_idx) message n s b f in
        elim (Round-cases (dialogue_round text_of turn_idx (world turn_idx) message s b)) [
          | inl (s', b', e) ↦
              rw (e, dialogue_rounds)
                (weaken (n + 2) (n + 2 * suc left) s' b' (omega arith)
                  (subst (RoundIsFair self provider start (n + 2)) e fair))
          | inr (s', b', m, e) ↦
              rw (e, dialogue_rounds)
                (weaken_pair (n + 2 + 2 * left) (n + 2 * suc left) _ (omega arith) (
                  dialogue_rounds-IsFair world left (turn_idx + 1) m (n + 2) s' b'
                    (subst (RoundIsFair self provider start (n + 2)) e fair)))
        ]
