-- ===== src/Network/Order.antt =====
-- The order of messages in the queues of jarvis/agents/agent_network.py.
use jarvis_server.Prelude.{
  ℕ, ◌≤◌, ◌≡◌, refl, true, Option, none, some, List, [], ◌∷◌, ◌++◌, arith, length, leb, ltb, ◌==◌,
  ap, ◌∙◌, not-ltb→le, Bool-cases, inl, inr,
}
use jarvis_server.Network.{Network, Message, high}
use jarvis_server.Network.Send.{
  SendResult, sent, put_waits, make_room, put_message, reset_breaker, enqueue,
}
use jarvis_server.Network.Process.{next_high, next_normal, next_low, get_next_message}

-- The message stands at the end of the queue for answers, or its put waits there because that queue
-- is full.
abbrev pub HighKept : Message → Network → SendResult → Type 0
HighKept m net (sent net') = net'.high_queue ≡ net.high_queue ++ m ∷ []
HighKept m net (put_waits p net') =
    (p ≡ high) × (net'.high_queue ≡ net.high_queue) × (net.queue_maxsize ≤ length net.high_queue)

put-HighKept :
    (m : Message) (net net₁ : Network)
    → net₁.high_queue ≡ net.high_queue
    → net₁.queue_maxsize ≡ net.queue_maxsize
    → HighKept m net (put_message high m net₁)
unfolding put_message
put-HighKept m net net₁ e f = elim (Bool-cases (net₁.queue_maxsize == 0)) [
  | inl z ↦ rw z (ap (λ q. q ++ m ∷ []) e)
  | inr z ↦ rw z (elim (Bool-cases (ltb (length net₁.high_queue) net₁.queue_maxsize)) [
    | inl t ↦ rw t (ap (λ q. q ++ m ∷ []) e)
    | inr t ↦ rw t (refl, e, omega (arith, ap length e, f, not-ltb→le _ _ t))
  ])
]

reset-kept :
    (size : ℕ) (net : Network)
    → ((reset_breaker size net).high_queue ≡ net.high_queue)
      × ((reset_breaker size net).queue_maxsize ≡ net.queue_maxsize)
unfolding reset_breaker
reset-kept size net = ground arith

-- Answers are never dropped: a message of high priority that takes the queue ends in it or waits for
-- it, whatever the thresholds and the circuit breaker say, and no earlier answer leaves the queue.
pub enqueue-HighKept : (m : Message) (net : Network) → HighKept m net (enqueue high m net)
unfolding enqueue make_room
enqueue-HighKept m net =
    elim (Bool-cases (leb net.circuit_breaker_threshold (length net.high_queue))) [
      | inl c ↦ rw c (kept (record net { circuit_breaker_active = true }) refl refl)
      | inr c ↦ rw c (elim (Bool-cases (leb net.backpressure_threshold (length net.high_queue))) [
        | inl h ↦ rw h (kept (make_room net) refl refl)
        | inr h ↦ rw h (kept net refl refl)
      ])
    ]
  where
    kept :
        (net₁ : Network)
        → net₁.high_queue ≡ net.high_queue
        → net₁.queue_maxsize ≡ net.queue_maxsize
        → HighKept m net (put_message high m (reset_breaker (length net.high_queue) net₁))
    kept net₁ e f =
        let (a, b) = reset-kept (length net.high_queue) net₁ in put-HighKept m net _ (a ∙ e) (b ∙ f)

-- All queued messages in the order in which workers take them.
abbrev backlog : Network → List Message
backlog net = net.high_queue ++ (net.normal_queue ++ net.low_queue)

abbrev Takes : Network → Option (Message × Network) → Type 0
Takes net none = backlog net ≡ []
Takes net (some (m, net')) = backlog net ≡ m ∷ backlog net'

-- A worker takes the first message of the backlog, answers before requests before the rest and each
-- in the order of sending, and finds none only if all three queues are empty.
get_next_message-Takes : (net : Network) → Takes net (get_next_message net)
unfolding get_next_message
get_next_message-Takes net = high_takes net.high_queue refl
  where
    low_takes :
        (l : List Message)
        → net.low_queue ≡ l
        → net.normal_queue ≡ []
        → net.high_queue ≡ []
        → Takes net (next_low l net)
    low_takes [] el en eh = rw (eh, en, el) refl
    low_takes (m ∷ q) el en eh = rw (eh, en, el) refl

    normal_takes :
        (n : List Message)
        → net.normal_queue ≡ n
        → net.high_queue ≡ []
        → Takes net (next_normal n net)
    normal_takes [] en eh = low_takes net.low_queue refl en eh
    normal_takes (m ∷ q) en eh = rw (eh, en) refl

    high_takes : (h : List Message) → net.high_queue ≡ h → Takes net (next_high h net)
    high_takes [] eh = normal_takes net.normal_queue refl eh
    high_takes (m ∷ q) eh = ap (λ h. h ++ (net.normal_queue ++ net.low_queue)) eh
