-- ===== src/Network/Accounting.antt =====
-- Where `send_message` of jarvis/agents/agent_network.py puts messages.
use jarvis_server.Prelude.{
  ℕ, ◌+◌, ◌≤◌, ◌≡◌, ◌≢◌, refl, String, List, drop, get_or, Option-cases, true, false, Option, none,
  some, [], ◌∷◌, ◌++◌, arith, length, leb, ltb, ◌==◌, ◌||◌, ◌&&◌, ap, ◌∙◌, Bool-cases, inl, inr,
}
use jarvis_server.Prelude.Dict.{get}
use jarvis_server.Network.{
  Future, Pending, Network, Message, MessageType, MessagePriority, low, normal, high, other,
  get_message_priority, capability_request, capability_response, error, is_known, deliver, queue,
  with_queue, with_metrics,
}
use jarvis_server.Network.Send.{
  SendResult, sent, put_waits, is_high, min_ℕ, make_room, put_message, reset_breaker, enqueue,
  send_direct, send_message, fulfill_direct,
}
use jarvis_server.Network.Futures.{settle_pending, fulfill_response_future, fulfill_error_future}
use jarvis_server.Value.{Value}

-- What the broker holds: its queues, the deliveries it started, and the count of dropped messages.
pub record Traffic : Type 0 where
  high_part : List Message
  normal_part : List Message
  low_part : List Message
  deliveries : List (String × Message)
  dropped : ℕ

abbrev traffic : Network → Traffic
traffic net = record {
  high_part = net.high_queue;
  normal_part = net.normal_queue;
  low_part = net.low_queue;
  deliveries = net.spawned;
  dropped = net.metrics.dropped_messages;
}

-- The message behind the others of its priority
abbrev stand : MessagePriority → Message → Traffic → Traffic
stand high m t = record t { high_part = t.high_part ++ m ∷ [] }
stand normal m t = record t { normal_part = t.normal_part ++ m ∷ [] }
stand low m t = record t { low_part = t.low_part ++ m ∷ [] }

-- The first `k` messages of low priority go, and are counted.
abbrev pub room : ℕ → Traffic → Traffic
room k t = record t { low_part = drop k t.low_part; dropped = t.dropped + k }

-- The three fates of a message of priority `p`: a delivery to its addressee, a place in its queue, or
-- a count among the dropped ones, which no message of high priority meets.
pub data Fate (p : MessagePriority) (m : Message) (t t' : Traffic) : Type 0 where
  delivered :
      (a : String)
      → m.to_agent ≡ some a
      → t' ≡ record t { deliveries = t.deliveries ++ (a, m) ∷ [] }
      → Fate p m t t'
  queued : (k : ℕ) → k ≤ length t.low_part → t' ≡ stand p m (room k t) → Fate p m t t'
  discarded : p ≢ high → t' ≡ record t { dropped = t.dropped + 1 } → Fate p m t t'

-- A put that waits has made room at most.
abbrev pub Accounts : MessagePriority → Message → Network → SendResult → Type 0
Accounts p m net (sent net') = Fate p m (traffic net) (traffic net')
Accounts p m net (put_waits q net') =
    (q ≡ p) × (k : ℕ) × (k ≤ length net.low_queue) × (traffic net' ≡ room k (traffic net))

room_0 : (t : Traffic) → t ≡ room 0 t
room_0 t = ap (λ d. record t { dropped = d }) (omega arith)

put-Accounts :
    (p : MessagePriority) (m : Message) (net net' : Network) (k : ℕ)
    → k ≤ length net.low_queue
    → traffic net' ≡ room k (traffic net)
    → Accounts p m net (put_message p m net')
unfolding put_message
put-Accounts p m net net' k l e =
    elim (Bool-cases (net'.queue_maxsize == 0 || ltb (length (queue p net')) net'.queue_maxsize)) [
      | inl c ↦ rw c (queued k l (stands p ∙ ap (stand p m) e))
      | inr c ↦ rw c (refl, k, l, e)
    ]
  where
    stands :
        (p : MessagePriority)
        → traffic (
            with_metrics
              (λ x. record x { queued_messages = x.queued_messages + 1 })
              (with_queue p (queue p net' ++ m ∷ []) net'))
          ≡ stand p m (traffic net')
    stands high = refl
    stands normal = refl
    stands low = refl

reset-traffic : (size : ℕ) (net : Network) → traffic (reset_breaker size net) ≡ traffic net
unfolding reset_breaker
reset-traffic size net = elim (Bool-cases (ltb size net.backpressure_threshold)) [
  | inl e ↦ rw e refl
  | inr e ↦ rw e refl
]

not_high : (p : MessagePriority) → is_high p ≡ false → p ≢ high
not_high p h e = cc

enqueue-Accounts :
    (p : MessagePriority) (m : Message) (net : Network) → Accounts p m net (enqueue p m net)
unfolding enqueue make_room
enqueue-Accounts p m net = elim (Bool-cases (leb net.circuit_breaker_threshold size)) [
  | inl c ↦ rw c (elim (Bool-cases (is_high p)) [
    | inl h ↦ rw h (
        put-Accounts p m net (reset_breaker size opened) 0 (omega arith)
          (reset-traffic size opened ∙ room_0 (traffic net)))
    | inr h ↦ rw h (discarded (not_high p h) refl)
  ])
  | inr c ↦ rw c (elim (Bool-cases (leb net.backpressure_threshold size && is_high p)) [
    | inl h ↦ rw h (
        put-Accounts p m net (reset_breaker size (make_room net)) (min_ℕ 3 (length net.low_queue))
          (ground arith) (reset-traffic size (make_room net)))
    | inr h ↦ rw h (
        put-Accounts p m net (reset_breaker size net) 0 (omega arith)
          (reset-traffic size net ∙ room_0 (traffic net)))
  ])
]
  where
    size : ℕ
    size = length (queue p net)

    opened : Network
    opened = record net { circuit_breaker_active = true }

module _ (text_of : Value → String) where
  settled-traffic :
      (p : Option Pending) (f : Future) (net : Network)
      → traffic (settle_pending p f net) ≡ traffic net
  settled-traffic none f net = refl
  settled-traffic (some p) f net = refl

  direct-traffic :
      (t : MessageType) (m : Message) (net : Network)
      → traffic (fulfill_direct text_of t m net) ≡ traffic net
  unfolding fulfill_direct fulfill_response_future fulfill_error_future
  direct-traffic capability_response m net =
      settled-traffic (get m.request_id net.response_futures) _ net
  direct-traffic error m net = settled-traffic (get m.request_id net.response_futures) _ net
  direct-traffic capability_request m net = refl
  direct-traffic (other s) m net = refl

  -- Nothing is lost unseen. A message that is sent is started as a delivery to its addressee, or stands
  -- at the end of the queue of its priority, or is counted as dropped, which happens to no message of
  -- high priority. The queues, the deliveries and the count of dropped messages change in no other
  -- way, except that the first messages of low priority may make room for one that is queued, and
  -- each of them is counted as dropped. A put that waits has done nothing to them but make room in
  -- that way.
  pub send-Accounts :
      (priority : Option MessagePriority) (m : Message) (net : Network)
      → Accounts
          (get_or (get_message_priority m.message_type) priority)
          m
          net
          (send_message text_of priority m net)
  unfolding send_message send_direct
  send-Accounts priority m net = elim (Bool-cases (is_known net m.to_agent)) [
    | inr u ↦ rw u (enqueue-Accounts _ m net)
    | inl k ↦ rw k (elim (Option-cases m.to_agent) [
      | inl e ↦ absurd (known_some e k)
      | inr (a, e) ↦
          delivered a e
            (direct-traffic m.message_type m _ ∙ ap (λ to. traffic (deliver to m net)) e)
    ])
  ]
    where
      known_some : {o : Option String} → o ≡ none → is_known net o ≡ true → ⊥
      known_some e k = cc
