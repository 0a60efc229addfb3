-- ===== src/Network/Send.antt =====
-- `send_message` and `request_capability`. `put` of the asyncio queue waits while its queue is full
-- and never raises `QueueFull`, so the handler of that exception is not modelled; a queue of maximal
-- size 0 has no bound.
use jarvis_server.Prelude.{
  ℕ, ◌+◌, String, Bool, true, false, ◌&&◌, ◌||◌, Option, none, some, List, [], ◌∷◌, ◌++◌, length,
  drop, leb, ltb, ◌==◌, keep, contains, get_or, if◌then◌else◌,
}
use jarvis_server.Value.{Value, null, text, arr, obj, end, field, texts}
use jarvis_server.Network.{
  Network, Message, MessageType, capability_request, capability_response, error, other,
  MessagePriority, low, normal, high, get_message_priority, is_known, deliver, queue, with_queue,
  with_metrics,
}
use jarvis_server.Network.Registry.{providers_of}
use jarvis_server.Network.Futures.{fulfill_response_future, fulfill_error_future, ensure_future}

pub data SendResult : Type 0 where
  sent : Network → SendResult
  put_waits : MessagePriority → Network → SendResult

abbrev pub is_high : MessagePriority → Bool
is_high high = true
is_high normal = false
is_high low = false

abbrev pub min_ℕ : ℕ → ℕ → ℕ
min_ℕ a b = if leb a b then a else b

-- The loop that makes room: up to three messages of low priority go.
unfoldable pub make_room : Network → Network
make_room net =
    let n = min_ℕ 3 (length net.low_queue) in
    record net {
      low_queue = drop n net.low_queue;
      metrics = record net.metrics {
        dropped_messages = net.metrics.dropped_messages + n;
        backpressure_events = net.metrics.backpressure_events + 1;
      };
    }

abbrev drop_message : Network → Network
drop_message = with_metrics λ m. record m {
  dropped_messages = m.dropped_messages + 1;
  backpressure_events = m.backpressure_events + 1;
}

-- `await target_queue.put(message)` with the count behind it
unfoldable pub put_message : MessagePriority → Message → Network → SendResult
put_message p m net =
    if net.queue_maxsize == 0 || ltb (length (queue p net)) net.queue_maxsize
    then sent (
        with_metrics (λ x. record x { queued_messages = x.queued_messages + 1 })
          (with_queue p (queue p net ++ m ∷ []) net))
    else put_waits p net

-- The checks on the size that the target queue had, and the message put.
unfoldable pub reset_breaker : ℕ → Network → Network
reset_breaker size net =
    if ltb size net.backpressure_threshold
    then record net { circuit_breaker_active = false }
    else net

unfoldable pub enqueue : MessagePriority → Message → Network → SendResult
unfolding make_room put_message reset_breaker
enqueue p m net =
    let size = length (queue p net) in
    if leb net.circuit_breaker_threshold size
    then (if is_high p
        then put_message p m (reset_breaker size (record net { circuit_breaker_active = true }))
        else sent (drop_message net))
    else if leb net.backpressure_threshold size && is_high p
    then put_message p m (reset_breaker size (make_room net))
    else put_message p m (reset_breaker size net)

module _ (text_of : Value → String) where
  -- The future that a direct message fulfils, by its type.
  unfoldable pub fulfill_direct : MessageType → Message → Network → Network
  fulfill_direct capability_response m net = fulfill_response_future m net
  fulfill_direct error m net = fulfill_error_future text_of m net
  fulfill_direct capability_request m net = net
  fulfill_direct (other s) m net = net

  -- The fast path: a task for the addressee, and the future.
  unfoldable pub send_direct : Message → Network → Network
  unfolding fulfill_direct
  send_direct m net = fulfill_direct m.message_type m (
      with_metrics (λ x. record x { direct_messages = x.direct_messages + 1 })
        (deliver m.to_agent m net))

  unfoldable pub send_message : Option MessagePriority → Message → Network → SendResult
  unfolding send_direct enqueue get_message_priority
  send_message priority m net =
      if is_known net m.to_agent
      then sent (send_direct m net)
      else enqueue (get_or (get_message_priority m.message_type) priority) m net

  -- `p in allowed_agents` when the set is given
  abbrev pub allowed_providers : Option (List String) → List String → List String
  allowed_providers none providers = providers
  allowed_providers (some allowed) providers = keep (λ p. contains p allowed) providers

  -- `list(allowed_agents) if allowed_agents else None`
  abbrev pub allowed_value : Option (List String) → Value
  allowed_value none = null
  allowed_value (some []) = null
  allowed_value (some (a ∷ as')) = arr (texts (a ∷ as'))

  abbrev request_content : String → Value → Option (List String) → Value
  request_content capability payload allowed = obj (
      field "capability" (text capability)
        (field "data" payload (field "allowed_agents" (allowed_value allowed) end)))

  abbrev pub request_message :
      String
      → String
      → Value
      → String
      → Option (List String)
      → Option String
      → Option String
      → Message
  request_message from_agent capability payload request_id allowed trace span = record {
    from_agent = from_agent;
    to_agent = none;
    message_type = capability_request;
    content = request_content capability payload allowed;
    request_id = request_id;
    reply_to = none;
    trace_id = trace;
    parent_span_id = span;
  }

  -- `request_capability`: the providers that it returns, and the broadcast it sends. The tracer's
  -- current ids are arguments.
  unfoldable pub request_capability :
      String
      → String
      → Value
      → String
      → Option (List String)
      → ℕ
      → Option String
      → Option String
      → Network
      → List String × SendResult
  unfolding ensure_future send_message
  request_capability from_agent capability payload request_id allowed now trace span net = (
    allowed_providers allowed (providers_of capability net.capability_registry),
    send_message none (request_message from_agent capability payload request_id allowed trace span)
        (ensure_future request_id now net),
  )
