-- ===== src/Orchestrator/History.antt =====
-- The length of the conversation history of jarvis/core/orchestrator.py.
use jarvis_server.Prelude.{
  zero, suc, String, ◌≡◌, refl, ◌≤◌, ◌+◌, ◌-◌, Bool, true, List, [], ◌∷◌, ◌++◌, length,
  length-append, length-drop, Bool-cases, inl, inr, arith,
}
use jarvis_server.Prelude.Int.{ℤ, pos, negsuc, pos_part, is_pos, ltb_ℤ, eq_ℤ, eq_ℤ_self}
use jarvis_server.Value.{Value}
use jarvis_server.Orchestrator.{Turn, Orchestrator, World, Caller, trim, store_conversation_turn}
use jarvis_server.Orchestrator.Answers.{process_request}
use jarvis_server.Orchestrator.Stages.{process_request-P}

-- The limit is `most`, and no user has more turns than that.
abbrev pub IsCapped : ℤ → Orchestrator → Type 0
IsCapped most o =
    (o.max_history_length ≡ most)
    × ((user : ℤ) → length (o.conversation_history user) ≤ pos_part most)

length-trim :
    (most : ℤ) (turns : List Turn) → is_pos most ≡ true → length (trim most turns) ≤ pos_part most
length-trim (pos zero) turns h = cc
length-trim (pos (suc n)) turns h = ground (arith, length-drop (length turns - suc n) turns)
length-trim (negsuc n) turns h = cc

trim_zero : (turns : List Turn) → trim (pos 0) turns ≡ turns
trim_zero turns = elim (Bool-cases (ltb_ℤ (pos 0) (pos (length turns)))) [
  | inl e ↦ rw e refl
  | inr e ↦ rw e refl
]

store-IsCapped :
    (most user : ℤ) (input : String) (v : Value) (o : Orchestrator)
    → is_pos most ≡ true
    → IsCapped most o
    → IsCapped most (store_conversation_turn user input v o)
unfolding store_conversation_turn
store-IsCapped most user input v o p (m, h) = (
  m,
  λ u. elim (Bool-cases (eq_ℤ u user)) [
    | inl e ↦ rw e (rw m (length-trim most _ p))
    | inr e ↦ rw e (h u)
  ],
)

-- With a positive limit, no request makes the history of any user longer than the limit, whichever
-- stage answers it and whatever the outside does.
pub process_request-IsCapped :
    (text_of : Value → String) (folded : String → String) (in_text : String → String → Bool)
    (exception_text : Value → String) (caller : Caller) (input : String) (w : World) (most : ℤ)
    (o : Orchestrator)
    → is_pos most ≡ true
    → IsCapped most o
    → IsCapped most (process_request text_of folded in_text exception_text input caller w o).1
process_request-IsCapped text_of folded in_text exception_text caller input w most o p h =
    process_request-P text_of folded in_text exception_text caller (IsCapped most) (λ i ok o' c. c)
      (λ f o' c. c) (λ i v o' c. store-IsCapped most caller.user_id i v o' p c) (λ d o' c. c)
      (λ l k d o' a b c. c) input w o h

-- With the limit 0 nothing is ever dropped, since the slice `history[-0:]` is the whole list: every
-- stored turn makes the history one longer.
store-unlimited :
    (user : ℤ) (input : String) (v : Value) (o : Orchestrator)
    → o.max_history_length ≡ pos 0
    → length ((store_conversation_turn user input v o).conversation_history user)
      ≡ length (o.conversation_history user) + 1
unfolding store_conversation_turn
store-unlimited user input v o h =
    let turns = o.conversation_history user ++ record { user = input; assistant = v } ∷ [] in
    rw (eq_ℤ_self user)
      (rw h (rw (trim_zero turns) (length-append (o.conversation_history user) _)))
