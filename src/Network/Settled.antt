-- ===== src/Network/Settled.antt =====
-- The cell of a settled future under the operations of jarvis/agents/agent_network.py.
use jarvis_server.Prelude.{
  ℕ, ◌≡◌, leb, ltb, ◌==◌, ◌||◌, ◌+◌, String, Bool, true, false, Option, none, some, List, [], ◌∷◌,
  ◌++◌, length, get_or, if◌then◌else◌, Bool-cases, inl, inr, ◌⊎◌, ◌&&◌,
}
use jarvis_server.Prelude.Dict.{Dict, get, has}
use jarvis_server.Value.{Value, Fields, null, flag, num, text, arr, pair, obj, field_of}
use jarvis_server.Network.{
  Network, Message, MessageType, MessagePriority, capability_request, capability_response, error,
  other, Future, pending, cancelled, resolved, is_done, Pending, deliver, deliver_if_known,
  is_known, with_metrics, with_queue, queue, high, normal, low,
}
use jarvis_server.Network.Futures.{
  cell, settle, cell-settle, cell-append, settle_pending, fulfill_response_future,
  fulfill_error_future, error_of, error_dict, ensure_future, cancel_stale, delete_all, stale_ids,
  cleanup_expired_futures, is_stale,
}
use jarvis_server.Network.Send.{
  SendResult, sent, put_waits, make_room, put_message, reset_breaker, enqueue, fulfill_direct,
  send_direct, send_message, is_high,
}
use jarvis_server.Network.Process.{
  handle_error_message, settle_error, settle_error_entry, send_clone, broadcast_to,
  broadcast_allowed, broadcast_found, broadcast_content, handle_capability_request_broadcast,
  has_addressee, dispatch, process_message, restrict, lookup_providers,
}

-- The cell has the settled value.
abbrev pub Holds : ℕ → Future → Network → Type 0
Holds r f net = cell r net.store ≡ some f

module _ (r : ℕ) (f : Future) (done : is_done f ≡ true) where
  settle_pending-Holds :
      (p : Option Pending) (g : Future) (net : Network)
      → Holds r f net
      → Holds r f (settle_pending p g net)
  settle_pending-Holds none g net h = h
  settle_pending-Holds (some p) g net h = cell-settle p.future r g f net.store h done

  deliver-Holds :
      (to : Option String) (m : Message) (net : Network)
      → Holds r f net
      → Holds r f (deliver to m net)
  deliver-Holds none m net h = h
  deliver-Holds (some a) m net h = h

  deliver_if_known-Holds :
      (m : Message) (net : Network) → Holds r f net → Holds r f (deliver_if_known m net)
  deliver_if_known-Holds m net h = elim (Bool-cases (is_known net m.to_agent)) [
    | inl k ↦ rw k (deliver-Holds m.to_agent m net h)
    | inr k ↦ rw k h
  ]

  send_clone-Holds :
      (p : String) (m : Message) (net : Network) → Holds r f net → Holds r f (send_clone p m net)
  unfolding send_clone
  send_clone-Holds p m net h = elim (Bool-cases (has p net.agents)) [
    | inl k ↦ rw k h
    | inr k ↦ rw k h
  ]

  broadcast_to-Holds :
      (ps : List String) (m : Message) (net : Network)
      → Holds r f net
      → Holds r f (broadcast_to ps m net)
  unfolding broadcast_to
  broadcast_to-Holds [] m net h = h
  broadcast_to-Holds (p ∷ ps) m net h =
      broadcast_to-Holds ps m (send_clone p m net) (send_clone-Holds p m net h)

  -- A step that may raise keeps the cell if it returns.
  abbrev Keeps : Option Network → Type 0
  Keeps none = Unit
  Keeps (some net) = Holds r f net

  settle_error-Holds :
      (c : Option Future) (p : Pending) (m : Message) (v : Value) (net : Network)
      → Holds r f net
      → Keeps (settle_error c p m v net)
  settle_error-Holds none p m v net h = h
  settle_error-Holds (some pending) p m (obj fs) net h = cell-settle p.future r _ f net.store h done
  settle_error-Holds (some cancelled) p m (obj fs) net h = h
  settle_error-Holds (some (resolved x)) p m (obj fs) net h = h
  settle_error-Holds (some pending) p m null net h = tt
  settle_error-Holds (some pending) p m (flag b) net h = tt
  settle_error-Holds (some pending) p m (num n) net h = tt
  settle_error-Holds (some pending) p m (text s) net h = tt
  settle_error-Holds (some pending) p m (arr s) net h = tt
  settle_error-Holds (some pending) p m (pair s t) net h = tt
  settle_error-Holds (some cancelled) p m v net h = h
  settle_error-Holds (some (resolved x)) p m v net h = h

  settle_entry-Holds :
      (p : Option Pending) (m : Message) (net : Network)
      → Holds r f net
      → Keeps (settle_error_entry p m net)
  settle_entry-Holds none m net h = h
  settle_entry-Holds (some p) m net h =
      settle_error-Holds (cell p.future net.store) p m m.content net h

  then_deliver-Holds :
      (m : Message) (o : Option Network)
      → Keeps o
      → Keeps (elim o [ none ↦ none | some net ↦ some (deliver_if_known m net) ])
  then_deliver-Holds m none h = tt
  then_deliver-Holds m (some net) h = deliver_if_known-Holds m net h

  handle_error-Holds :
      (m : Message) (net : Network) → Holds r f net → Keeps (handle_error_message m net)
  unfolding handle_error_message
  handle_error-Holds m net h =
      then_deliver-Holds m (settle_error_entry (get m.request_id net.response_futures) m net)
        (settle_entry-Holds (get m.request_id net.response_futures) m net h)

  broadcast_allowed-Holds :
      (fs : Fields) (m : Message) (net : Network) (o : Option (List String))
      → Holds r f net
      → Keeps (broadcast_allowed fs m net o)
  broadcast_allowed-Holds fs m net none h = tt
  broadcast_allowed-Holds fs m net (some ps) h = broadcast_to-Holds ps m _ h

  broadcast_found-Holds :
      (fs : Fields) (m : Message) (net : Network) (o : Option (List String))
      → Holds r f net
      → Keeps (broadcast_found fs m net o)
  broadcast_found-Holds fs m net none h = tt
  broadcast_found-Holds fs m net (some found) h =
      broadcast_allowed-Holds fs m net (restrict (field_of "allowed_agents" fs) found) h

  broadcast_content-Holds :
      (v : Value) (m : Message) (net : Network) → Holds r f net → Keeps (broadcast_content v m net)
  broadcast_content-Holds (obj fs) m net h =
      broadcast_found-Holds fs m net
        (lookup_providers (field_of "capability" fs) net.capability_registry) h
  broadcast_content-Holds null m net h = tt
  broadcast_content-Holds (flag b) m net h = tt
  broadcast_content-Holds (num n) m net h = tt
  broadcast_content-Holds (text s) m net h = tt
  broadcast_content-Holds (arr xs) m net h = tt
  broadcast_content-Holds (pair x y) m net h = tt

  if_addressed-Holds :
      (b : Bool) (m : Message) (net : Network) (o : Option Network)
      → Holds r f net
      → Keeps o
      → Keeps (if b then some (deliver_if_known m net) else o)
  if_addressed-Holds true m net o h k = deliver_if_known-Holds m net h
  if_addressed-Holds false m net o h k = k

  dispatch-Holds :
      (t : MessageType) (m : Message) (net : Network) → Holds r f net → Keeps (dispatch t m net)
  unfolding dispatch handle_capability_request_broadcast fulfill_response_future
  dispatch-Holds capability_response m net h =
      deliver_if_known-Holds m _
        (settle_pending-Holds (get m.request_id net.response_futures) (resolved m.content) net h)
  dispatch-Holds error m net h = handle_error-Holds m net h
  dispatch-Holds capability_request m net h =
      if_addressed-Holds (has_addressee m.to_agent) m net _ h
        (broadcast_content-Holds m.content m net h)
  dispatch-Holds (other s) m net h =
      if_addressed-Holds (has_addressee m.to_agent) m net (some net) h h

  or_same-Holds :
      (net : Network) (o : Option Network) → Holds r f net → Keeps o → Holds r f (get_or net o)
  or_same-Holds net none h k = h
  or_same-Holds net (some x) h k = k

  pub process-Holds :
      (m : Message) (net : Network) → Holds r f net → Holds r f (process_message m net)
  unfolding process_message
  process-Holds m net h =
      or_same-Holds net (dispatch m.message_type m net) h (dispatch-Holds m.message_type m net h)

  -- What both ways of ending a send satisfy.
  abbrev pub KeepsSent : SendResult → Type 0
  KeepsSent (sent net) = Holds r f net
  KeepsSent (put_waits p net) = Holds r f net

  pub put-Holds :
      (p : MessagePriority) (m : Message) (net : Network)
      → Holds r f net
      → KeepsSent (put_message p m net)
  unfolding put_message
  put-Holds p m net h =
      elim (Bool-cases (net.queue_maxsize == 0 || ltb (length (queue p net)) net.queue_maxsize)) [
        | inl e ↦ rw e (grown p)
        | inr e ↦ rw e h
      ]
    where
      grown :
          (p : MessagePriority)
          → Holds r f (
              with_metrics
                (λ x. record x { queued_messages = x.queued_messages + 1 })
                (with_queue p (queue p net ++ m ∷ []) net))
      grown high = h
      grown normal = h
      grown low = h

  reset-Holds : (size : ℕ) (net : Network) → Holds r f net → Holds r f (reset_breaker size net)
  unfolding reset_breaker
  reset-Holds size net h = elim (Bool-cases (ltb size net.backpressure_threshold)) [
    | inl e ↦ rw e h
    | inr e ↦ rw e h
  ]

  enqueue-Holds :
      (p : MessagePriority) (m : Message) (net : Network)
      → Holds r f net
      → KeepsSent (enqueue p m net)
  unfolding enqueue make_room
  enqueue-Holds p m net h = elim (Bool-cases (leb net.circuit_breaker_threshold size)) [
    | inl c ↦ rw c (elim (Bool-cases (is_high p)) [
      | inl x ↦
          rw x (put-Holds p m _ (reset-Holds size (record net { circuit_breaker_active = true }) h))
      | inr x ↦ rw x h
    ])
    | inr c ↦ rw c (elim (Bool-cases (leb net.backpressure_threshold size && is_high p)) [
      | inl x ↦ rw x (put-Holds p m _ (reset-Holds size (make_room net) h))
      | inr x ↦ rw x (put-Holds p m _ (reset-Holds size net h))
    ])
  ]
    where
      size : ℕ
      size = length (queue p net)

  direct-Holds :
      (text_of : Value → String) (t : MessageType) (m : Message) (net : Network)
      → Holds r f net
      → Holds r f (fulfill_direct text_of t m net)
  unfolding fulfill_direct fulfill_response_future fulfill_error_future
  direct-Holds text_of capability_response m net h =
      settle_pending-Holds (get m.request_id net.response_futures) (resolved m.content) net h
  direct-Holds text_of error m net h =
      settle_pending-Holds (get m.request_id net.response_futures)
        (resolved (error_dict (error_of text_of m.content))) net h
  direct-Holds text_of capability_request m net h = h
  direct-Holds text_of (other s) m net h = h

  pub send-Holds :
      (text_of : Value → String) (priority : Option MessagePriority) (m : Message) (net : Network)
      → Holds r f net
      → KeepsSent (send_message text_of priority m net)
  unfolding send_message send_direct
  send-Holds text_of priority m net h = elim (Bool-cases (is_known net m.to_agent)) [
    | inr u ↦ rw u (enqueue-Holds _ m net h)
    | inl k ↦ rw k (direct-Holds text_of m.message_type m _ (deliver-Holds m.to_agent m net h))
  ]

  pub ensure-Holds :
      (id : String) (now : ℕ) (net : Network) → Holds r f net → Holds r f (ensure_future id now net)
  unfolding ensure_future
  ensure-Holds id now net h = elim (Bool-cases (has id net.response_futures)) [
    | inl e ↦ rw e h
    | inr e ↦ rw e (cell-append r f pending net.store h)
  ]

  cancel-Holds :
      (ttl now : ℕ) (ps : Dict Pending) (fs : List Future)
      → cell r fs ≡ some f
      → cell r (cancel_stale ttl now ps fs) ≡ some f
  unfolding cancel_stale
  cancel-Holds ttl now [] fs h = h
  cancel-Holds ttl now ((id, p) ∷ ps) fs h =
      cancel-Holds ttl now ps _ (either (Bool-cases (is_stale ttl now p)))
    where
      either :
          (is_stale ttl now p ≡ true) ⊎ (is_stale ttl now p ≡ false)
          → cell r (if is_stale ttl now p then settle p.future cancelled fs else fs) ≡ some f
      either (inl e) = rw e (cell-settle p.future r cancelled f fs h done)
      either (inr e) = rw e h

  delete-Holds :
      (ids : List String) (net : Network) → Holds r f net → Holds r f (delete_all ids net)
  unfolding delete_all
  delete-Holds [] net h = h
  delete-Holds (id ∷ ids) net h = delete-Holds ids _ h

  pub cleanup-Holds :
      (now : ℕ) (net : Network) → Holds r f net → Holds r f (cleanup_expired_futures now net)
  unfolding cleanup_expired_futures
  cleanup-Holds now net h =
      delete-Holds (stale_ids net.future_ttl now net.response_futures) _
        (cancel-Holds net.future_ttl now net.response_futures net.store h)
