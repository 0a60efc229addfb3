-- ===== src/Network/Bounds.antt =====
-- The maximal sizes of the queues under `send_message` of jarvis/agents/agent_network.py.
use jarvis_server.Prelude.{
  ℕ, ◌+◌, ◌≤◌, ◌≡◌, ◌≢◌, String, true, Option, none, some, [], ◌∷◌, ◌++◌, arith, length,
  length-append, length-drop, leb, ltb, ◌==◌, ◌||◌, ◌&&◌, Bool-cases, inl, inr,
}
use jarvis_server.Prelude.Dict.{get}
use jarvis_server.Network.{
  Future, Pending, Network, Message, MessageType, MessagePriority, low, normal, high, other,
  capability_request, capability_response, error, is_known, deliver, queue, with_queue,
  with_metrics,
}
use jarvis_server.Network.Send.{
  SendResult, sent, put_waits, is_high, min_ℕ, make_room, put_message, reset_breaker, enqueue,
  send_direct, send_message, fulfill_direct,
}
use jarvis_server.Network.Futures.{settle_pending, fulfill_response_future, fulfill_error_future}
use jarvis_server.Value.{Value}

-- No queue is over the bound; the bound 0 is none.
abbrev pub IsBounded : Network → Type 0
IsBounded net =
    net.queue_maxsize ≢ 0
    → (length net.high_queue ≤ net.queue_maxsize)
      × (length net.normal_queue ≤ net.queue_maxsize)
      × (length net.low_queue ≤ net.queue_maxsize)

-- What both ways of ending a send satisfy.
abbrev OnNetwork : (Network → Type 0) → SendResult → Type 0
OnNetwork P (sent net) = P net
OnNetwork P (put_waits p net) = P net

put-IsBounded :
    (p : MessagePriority) (m : Message) (net : Network)
    → IsBounded net
    → OnNetwork IsBounded (put_message p m net)
unfolding put_message
put-IsBounded p m net b =
    elim (Bool-cases (net.queue_maxsize == 0 || ltb (length (queue p net)) net.queue_maxsize)) [
      | inl e ↦ rw e (grown p e)
      | inr e ↦ rw e b
    ]
  where
    grown :
        (p : MessagePriority)
        → (net.queue_maxsize == 0 || ltb (length (queue p net)) net.queue_maxsize) ≡ true
        → OnNetwork IsBounded (
            sent (
              with_metrics
                (λ x. record x { queued_messages = x.queued_messages + 1 })
                (with_queue p (queue p net ++ m ∷ []) net)))
    grown high e z = ground (arith, b z, length-append net.high_queue (m ∷ []))
    grown normal e z = ground (arith, b z, length-append net.normal_queue (m ∷ []))
    grown low e z = ground (arith, b z, length-append net.low_queue (m ∷ []))

room-IsBounded : (net : Network) → IsBounded net → IsBounded (make_room net)
unfolding make_room
room-IsBounded net b z = (
  (b z).0,
  (b z).1,
  omega (arith, (b z).2, length-drop (min_ℕ 3 (length net.low_queue)) net.low_queue),
)

reset-IsBounded : (size : ℕ) (net : Network) → IsBounded net → IsBounded (reset_breaker size net)
unfolding reset_breaker
reset-IsBounded size net b = elim (Bool-cases (ltb size net.backpressure_threshold)) [
  | inl e ↦ rw e b
  | inr e ↦ rw e b
]

enqueue-IsBounded :
    (p : MessagePriority) (m : Message) (net : Network)
    → IsBounded net
    → OnNetwork IsBounded (enqueue p m net)
unfolding enqueue
enqueue-IsBounded p m net b = elim (Bool-cases (leb net.circuit_breaker_threshold size)) [
  | inl c ↦ rw c (elim (Bool-cases (is_high p)) [
    | inl h ↦ rw h (put-IsBounded p m (reset_breaker size opened) (reset-IsBounded size opened b))
    | inr h ↦ rw h b
  ])
  | inr c ↦ rw c (elim (Bool-cases (leb net.backpressure_threshold size && is_high p)) [
    | inl h ↦ rw h (
        put-IsBounded p m (reset_breaker size (make_room net))
          (reset-IsBounded size (make_room net) (room-IsBounded net b)))
    | inr h ↦ rw h (put-IsBounded p m (reset_breaker size net) (reset-IsBounded size net b))
  ])
]
  where
    size : ℕ
    size = length (queue p net)

    opened : Network
    opened = record net { circuit_breaker_active = true }

module _ (text_of : Value → String) where
  settled-IsBounded :
      (p : Option Pending) (f : Future) (net : Network)
      → IsBounded net
      → IsBounded (settle_pending p f net)
  settled-IsBounded none f net b = b
  settled-IsBounded (some p) f net b = b

  direct-IsBounded :
      (t : MessageType) (m : Message) (net : Network)
      → IsBounded net
      → IsBounded (fulfill_direct text_of t m net)
  unfolding fulfill_direct fulfill_response_future fulfill_error_future
  direct-IsBounded capability_response m net b =
      settled-IsBounded (get m.request_id net.response_futures) _ net b
  direct-IsBounded error m net b = settled-IsBounded (get m.request_id net.response_futures) _ net b
  direct-IsBounded capability_request m net b = b
  direct-IsBounded (other s) m net b = b

  deliver-IsBounded :
      (to : Option String) (m : Message) (net : Network)
      → IsBounded net
      → IsBounded (deliver to m net)
  deliver-IsBounded none m net b = b
  deliver-IsBounded (some a) m net b = b

  -- Sending keeps every queue within its maximal size.
  send-IsBounded :
      (priority : Option MessagePriority) (m : Message) (net : Network)
      → IsBounded net
      → OnNetwork IsBounded (send_message text_of priority m net)
  unfolding send_message send_direct
  send-IsBounded priority m net b = elim (Bool-cases (is_known net m.to_agent)) [
    | inr u ↦ rw u (enqueue-IsBounded _ m net b)
    | inl k ↦ rw k (direct-IsBounded m.message_type m _ (deliver-IsBounded m.to_agent m net b))
  ]
