-- ===== src/Network/Steps.antt =====
-- The broker as a system of steps: its callers, its workers and its clean-up interleave in any order
-- between their waits.
use jarvis_server.Prelude.{
  ℕ, ◌≡◌, refl, ap, ◌∙◌, String, str_eq, true, false, Option, none, some, List, [], ◌∷◌, ◌++◌,
  arith, length,
}
use jarvis_server.Prelude.Dict.{get, has, get-put, get-put_self, get-remove, get-remove_self}
use jarvis_server.Value.{Value}
use jarvis_server.Network.{
  Network, Pending, Message, MessagePriority, Future, pending, resolved, is_done, deliver_if_known,
}
use jarvis_server.Network.Futures.{
  settle_pending, fulfill_response_future, cell, cell-settle_self, ensure_future,
  cleanup_expired_futures, poll, poll_cell, result,
}
use jarvis_server.Network.Send.{
  SendResult, sent, put_waits, put_message, send_message, request_message, request_capability,
}
use jarvis_server.Network.Process.{
  get_next_message, process_message, process_next, handle_capability_response,
}
use jarvis_server.Network.Settled.{
  Holds, KeepsSent, put-Holds, send-Holds, ensure-Holds, process-Holds, cleanup-Holds,
}

abbrev network_of : SendResult → Network
network_of (sent net) = net
network_of (put_waits p net) = net

module _ (text_of : Value → String) where
  pub data Step : Network → Network → Type 0 where
    send :
        (net : Network) (priority : Option MessagePriority) (m : Message)
        → Step net (network_of (send_message text_of priority m net))
    request :
        (net : Network) (from_agent capability : String) (payload : Value) (request_id : String)
        (allowed : Option (List String)) (now : ℕ) (trace span : Option String)
        → Step net (
            network_of
              (request_capability text_of from_agent capability payload request_id allowed now trace
                span net).1)
    resume_put :
        (net : Network) (p : MessagePriority) (m : Message)
        → Step net (network_of (put_message p m net))
    work : (net : Network) → Step net (process_next net)
    clean_up : (net : Network) (now : ℕ) → Step net (cleanup_expired_futures now net)
    look :
        (net : Network) (ref : ℕ) (request_id : String) (elapsed : ℕ) (timeout : Option ℕ)
        → Step net (poll ref request_id elapsed timeout net).1

  pub data Reach (net : Network) : Network → Type 0 where
    here : Reach net net
    next : {a b : Network} → Reach net a → Step a b → Reach net b

  module _ (r : ℕ) (f : Future) (done : is_done f ≡ true) where
    sent-Holds : (s : SendResult) → KeepsSent r f done s → Holds r f (network_of s)
    sent-Holds (sent net) h = h
    sent-Holds (put_waits p net) h = h

    next-Holds :
        (net : Network) (o : Option (Message × Network))
        → Holds r f net
        → ((m : Message) (x : Network) → o ≡ some (m, x) → Holds r f x)
        → Holds r f (elim o [ none ↦ net | some (m, x) ↦ process_message m x ])
    next-Holds net none h k = h
    next-Holds net (some (m, x)) h k = process-Holds r f done m x (k m x refl)

    taken-Holds :
        (net : Network) (m : Message) (x : Network)
        → Holds r f net
        → get_next_message net ≡ some (m, x)
        → Holds r f x
    unfolding get_next_message
    taken-Holds net m x h e = ground arith

    work-Holds : (net : Network) → Holds r f net → Holds r f (process_next net)
    unfolding process_next
    work-Holds net h = next-Holds net (get_next_message net) h (λ m x e. taken-Holds net m x h e)

    look-Holds :
        (c : Option Future) (ref : ℕ) (id : String) (elapsed : ℕ) (t : Option ℕ) (net : Network)
        → Holds r f net
        → Holds r f (poll_cell c ref id elapsed t net).1
    look-Holds c ref id elapsed t net h = ground arith

    Step-Holds : {a b : Network} → Step a b → Holds r f a → Holds r f b
    unfolding request_capability poll
    Step-Holds (send net priority m) h =
        sent-Holds (send_message text_of priority m net)
          (send-Holds r f done text_of priority m net h)
    Step-Holds (request net from_agent capability payload id allowed now trace span) h =
        let m = request_message text_of from_agent capability payload id allowed trace span in
        sent-Holds (send_message text_of none m (ensure_future id now net)) (
          send-Holds r f done text_of none m (ensure_future id now net)
            (ensure-Holds r f done id now net h))
    Step-Holds (resume_put net p m) h =
        sent-Holds (put_message p m net) (put-Holds r f done p m net h)
    Step-Holds (work net) h = work-Holds net h
    Step-Holds (clean_up net now) h = cleanup-Holds r f done now net h
    Step-Holds (look net ref id elapsed t) h =
        look-Holds (cell ref net.store) ref id elapsed t net h

  -- Once a future has its result, or is cancelled, no sequence of sends, requests, worker turns,
  -- clean-ups and waits changes it: the first answer to a request stands.
  pub Reach-Holds :
      (r : ℕ) (f : Future) {a b : Network}
      → is_done f ≡ true
      → cell r a.store ≡ some f
      → Reach a b
      → cell r b.store ≡ some f
  Reach-Holds r f done h here = h
  Reach-Holds r f done h (next p st) = Step-Holds r f done st (Reach-Holds r f done h p)

cell-end : (f : Future) (fs : List Future) → cell (length fs) (fs ++ f ∷ []) ≡ some f
cell-end f [] = refl
cell-end f (x ∷ fs) = cell-end f fs

fresh-entry :
    (id : String) (now : ℕ) (net : Network)
    → has id net.response_futures ≡ false
    → (get id (ensure_future id now net).response_futures
        ≡ some (record { future = length net.store; created = now }))
      × (cell (length net.store) (ensure_future id now net).store ≡ some pending)
unfolding ensure_future
fresh-entry id now net h = rw h (
  get-put_self id (record { future = length net.store; created = now }) net.response_futures,
  cell-end pending net.store,
)

store-deliver_if_known : (m : Message) (net : Network) → (deliver_if_known m net).store ≡ net.store
store-deliver_if_known m net = ground arith

answered-cell :
    (id : String) (now : ℕ) (m : Message) (net : Network)
    → get id (ensure_future id now net).response_futures
      ≡ some (record { future = length net.store; created = now })
    → cell (length net.store) (ensure_future id now net).store ≡ some pending
    → m.request_id ≡ id
    → cell (length net.store) (handle_capability_response m (ensure_future id now net)).store
      ≡ some (resolved m.content)
unfolding handle_capability_response
answered-cell id now m net entry open_cell e = rw (store-deliver_if_known m _) (
    rw (e, entry)
      (cell-settle_self (length net.store) (resolved m.content) (ensure_future id now net).store
        open_cell))

futures-deliver_if_known :
    (m : Message) (net : Network) → (deliver_if_known m net).response_futures ≡ net.response_futures
futures-deliver_if_known m net = ground arith

futures-settle_pending :
    (o : Option Pending) (f : Future) (net : Network)
    → (settle_pending o f net).response_futures ≡ net.response_futures
futures-settle_pending none f net = refl
futures-settle_pending (some p) f net = refl

other-entry :
    (id j : String) (now : ℕ) (net : Network)
    → str_eq id j ≡ false
    → get j (ensure_future id now net).response_futures ≡ get j net.response_futures
unfolding ensure_future
other-entry id j now net d =
    ground (
      arith,
      get-put id j (record { future = length net.store; created = now }) net.response_futures,
    )

others-answered :
    (id j : String) (now : ℕ) (m : Message) (net : Network)
    → str_eq id j ≡ false
    → get j (handle_capability_response m (ensure_future id now net)).response_futures
      ≡ get j net.response_futures
unfolding handle_capability_response fulfill_response_future
others-answered id j now m net d =
    ap (get j) (
      futures-deliver_if_known m (fulfill_response_future m (ensure_future id now net))
      ∙ futures-settle_pending _ (resolved m.content) (ensure_future id now net))
    ∙ other-entry id j now net d

-- After the answer to a request under a new id, the next look of its caller gives the content of the
-- answer, even if the time limit has passed at that look; the entry of the request is then gone, and
-- every other entry is as it was.
pub poll-handle_capability_response :
    (id : String) (now elapsed : ℕ) (limit : Option ℕ) (m : Message) (net : Network)
    → has id net.response_futures ≡ false
    → m.request_id ≡ id
    → let x = handle_capability_response m (ensure_future id now net) in
      let r = poll (length net.store) id elapsed limit x in
      (r.0 ≡ result m.content)
      × (get id r.1.response_futures ≡ none)
      × ((j : String)
          → str_eq id j ≡ false
          → get j r.1.response_futures ≡ get j net.response_futures)
unfolding poll
poll-handle_capability_response id now elapsed limit m net h e =
    let (entry, open_cell) = fresh-entry id now net h in
    let x = handle_capability_response m (ensure_future id now net) in
    rw (answered-cell id now m net entry open_cell e) (
      refl,
      get-remove_self id x.response_futures,
      λ j d. get-remove id j x.response_futures ∙ rw d (others-answered id j now m net d),
    )
