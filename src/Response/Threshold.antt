-- ===== src/Response/Threshold.antt =====
-- When the aggregator of jarvis/agents/response_aggregator.py settles the future of a request.
use jarvis_server.Prelude.{
  ℕ, String, ◌≡◌, refl, ap, ◌∙◌, ◌≤◌, ◌<◌, ◌+◌, ◌/◌, Bool, true, false, ◌&&◌, Option, none, some,
  List, [], ◌∷◌, if◌then◌else◌, length, length-append, get_or, arith,
}
use jarvis_server.Prelude.Dict.{get, put, get-put_self}
use jarvis_server.Value.{Value, Items, Fields}
use jarvis_server.Network.{Future, pending, resolved, is_done}
use jarvis_server.Network.Futures.{cell, cell-settle, cell-settle_self}
use jarvis_server.Response.Aggregator.{
  AggregationStrategy, every, majority, ResponseTracker, ResponseAggregator, first, by_timeout,
  complete_by, is_complete, added, add_sender, receive, add_response, add_to, settle_if,
  settle_with, is_pending, get_result, add_result,
}

-- An answer: the sender, the content, whether it is an error, and when it comes.
pub record Answer : Type 0 where
  pub sender : String
  pub content : Value
  pub is_error : Bool
  pub time : ℕ

-- The different senders after a list of answers.
abbrev senders_after : List Answer → List String → List String
senders_after [] ss = ss
senders_after (x ∷ xs) ss = senders_after xs (add_sender x.sender ss)

-- The number of different senders that completes a request, where their number decides.
abbrev pub required : AggregationStrategy → ResponseTracker → Option ℕ
required every t = some (length t.expected_providers)
required majority t = some (length t.expected_providers / 2 + 1)
required _ t = none

add_sender-grows : (s : String) (ss : List String) → length ss ≤ length (add_sender s ss)
add_sender-grows s ss = ground (arith, length-append ss (s ∷ []))

senders_after-grows :
    (xs : List Answer) (ss : List String) → length ss ≤ length (senders_after xs ss)
senders_after-grows [] ss = omega arith
senders_after-grows (x ∷ xs) ss =
    omega (arith, add_sender-grows x.sender ss, senders_after-grows xs (add_sender x.sender ss))

received_senders :
    (from_agent : String) (content : Value) (is_error : Bool) (now : ℕ) (t : ResponseTracker)
    → (receive from_agent content is_error now t).received_from
      ≡ add_sender from_agent t.received_from
received_senders from_agent content true now t = refl
received_senders from_agent content false now t = refl

few_senders :
    (from_agent : String) (content : Value) (is_error : Bool) (now n : ℕ) (t : ResponseTracker)
    → length (add_sender from_agent t.received_from) < n
    → length (receive from_agent content is_error now t).received_from < n
few_senders from_agent content true now n t h = h
few_senders from_agent content false now n t h = h

received_required :
    (s : AggregationStrategy) (from_agent : String) (content : Value) (is_error : Bool) (now : ℕ)
    (t : ResponseTracker)
    → required s (receive from_agent content is_error now t) ≡ required s t
received_required first from_agent content b now t = refl
received_required every from_agent content true now t = refl
received_required every from_agent content false now t = refl
received_required majority from_agent content true now t = refl
received_required majority from_agent content false now t = refl
received_required by_timeout from_agent content b now t = refl

kept_required :
    (from_agent : String) (content : Value) (is_error : Bool) (now : ℕ) (t : ResponseTracker)
    → (let t' = receive from_agent content is_error now t in required t'.strategy t')
      ≡ required t.strategy t
kept_required from_agent content true now t =
    received_required t.strategy from_agent content true now t
kept_required from_agent content false now t =
    received_required t.strategy from_agent content false now t

incomplete :
    (s : AggregationStrategy) (n now : ℕ) (t : ResponseTracker)
    → required s t ≡ some n
    → length t.received_from < n
    → complete_by s now t ≡ false
incomplete first n now t e h = cc
incomplete every n now t e h =
    let m : length t.expected_providers ≡ n = ap (get_or 0) e in ground arith
incomplete majority n now t e h =
    let m : length t.expected_providers / 2 + 1 ≡ n = ap (get_or 0) e in ground arith
incomplete by_timeout n now t e h = cc

module _ (items_of : Value → Option Items) (update_with : Fields → Value → Option Fields)
    (listed : List String → List String) where
  abbrev pub add_all : String → List Answer → ResponseAggregator → ResponseAggregator
  add_all id [] a = a
  add_all id (x ∷ xs) a =
      add_all id xs
        (add_response items_of update_with listed id x.sender x.content x.is_error x.time a).1

  -- One answer that leaves too few senders is stored, and settles nothing.
  add_early :
      (id : String) (x : Answer) (n : ℕ) (t : ResponseTracker) (a : ResponseAggregator)
      → get id a.trackers ≡ some t
      → required t.strategy t ≡ some n
      → length (add_sender x.sender t.received_from) < n
      → add_response items_of update_with listed id x.sender x.content x.is_error x.time a ≡ (
        added,
        record a { trackers = put id (receive x.sender x.content x.is_error x.time t) a.trackers },
      )
  unfolding add_response add_to settle_if is_complete
  add_early id x n t a g e h =
      let t' = receive x.sender x.content x.is_error x.time t in
      let low : complete_by t'.strategy x.time t' ≡ false =
        incomplete t'.strategy n x.time t'
          (kept_required x.sender x.content x.is_error x.time t ∙ e)
          (few_senders x.sender x.content x.is_error x.time n t h) in
      rw g (rw low refl)

  -- Where the number of senders decides, no answers settle anything before they come from enough
  -- different agents: as long as the senders, counted once each, are fewer than all expected providers
  -- or than a majority of them, every future of the aggregator is as it was, whatever the answers say.
  pub add_all-early :
      (id : String) (xs : List Answer) (n : ℕ) (t : ResponseTracker) (a : ResponseAggregator)
      → get id a.trackers ≡ some t
      → required t.strategy t ≡ some n
      → length (senders_after xs t.received_from) < n
      → (add_all id xs a).store ≡ a.store
  add_all-early id [] n t a g e h = refl
  add_all-early id (x ∷ xs) n t a g e h =
      let t' = receive x.sender x.content x.is_error x.time t in
      let grown = senders_after-grows xs (add_sender x.sender t.received_from) in
      ap (λ p. (add_all id xs p.1).store) (add_early id x n t a g e (omega (arith, grown, h)))
      ∙ add_all-early id xs n t' (record a { trackers = put id t' a.trackers })
          (get-put_self id t' a.trackers) (kept_required x.sender x.content x.is_error x.time t ∙ e)
          (rw (received_senders x.sender x.content x.is_error x.time t) h)

  complete_enough :
      (s : AggregationStrategy) (n now : ℕ) (t : ResponseTracker)
      → required s t ≡ some n
      → n ≤ length t.received_from
      → complete_by s now t ≡ true
  complete_enough first n now t e h = cc
  complete_enough every n now t e h =
      let m : length t.expected_providers ≡ n = ap (get_or 0) e in ground arith
  complete_enough majority n now t e h =
      let m : length t.expected_providers / 2 + 1 ≡ n = ap (get_or 0) e in ground arith
  complete_enough by_timeout n now t e h = cc

  settled_cell :
      (b : Bool) (v : Value) (t : ResponseTracker) (a : ResponseAggregator)
      → b ≡ true
      → cell t.future a.store ≡ some pending
      → get_result items_of update_with listed t ≡ some v
      → cell t.future (settle_if items_of update_with listed b t a).1.store ≡ some (resolved v)
  unfolding settle_if
  settled_cell b v t a h c g = rw h (rw c (rw g (cell-settle_self t.future (resolved v) a.store c)))

  done_stays :
      (b : Bool) (r : ℕ) (f : Future) (t : ResponseTracker) (a : ResponseAggregator)
      → is_done f ≡ true
      → cell r a.store ≡ some f
      → cell r (settle_if items_of update_with listed b t a).1.store ≡ some f
  unfolding settle_if
  done_stays b r f t a d c =
      by (b && is_pending items_of update_with listed (cell t.future a.store))
        (get_result items_of update_with listed t)
    where
      by :
          (b : Bool) (o : Option Value)
          → cell r
              (if b
                then settle_with items_of update_with listed o t.future a
                else (true, a)).1.store
            ≡ some f
      by true none = c
      by true (some v) = cell-settle t.future r (resolved v) f a.store c d
      by false o = c

  added_store :
      (p : Bool × ResponseAggregator)
      → (add_result items_of update_with listed p).1.store ≡ p.1.store
  added_store (true, a) = refl
  added_store (false, a) = refl

  add_response-done :
      (id : String) (x : Answer) (r : ℕ) (f : Future) (a : ResponseAggregator)
      → is_done f ≡ true
      → cell r a.store ≡ some f
      → cell r
          (add_response items_of update_with listed id x.sender x.content x.is_error x.time
            a).1.store
        ≡ some f
  unfolding add_response add_to
  add_response-done id x r f a d c = by (get id a.trackers)
    where
      by :
          (o : Option ResponseTracker)
          → cell r
              (add_to items_of update_with listed o id x.sender x.content x.is_error x.time
                a).1.store
            ≡ some f
      by none = c
      by (some t) =
          let t' = receive x.sender x.content x.is_error x.time t in
          let a' : ResponseAggregator = record a { trackers = put id t' a.trackers } in
          ap (cell r)
            (added_store (settle_if items_of update_with listed (is_complete x.time t') t' a'))
          ∙ done_stays (is_complete x.time t') r f t' a' d c

  add_all-done :
      (id : String) (xs : List Answer) (r : ℕ) (f : Future) (a : ResponseAggregator)
      → is_done f ≡ true
      → cell r a.store ≡ some f
      → cell r (add_all id xs a).store ≡ some f
  add_all-done id [] r f a d c = c
  add_all-done id (x ∷ xs) r f a d c = add_all-done id xs r f _ d (add_response-done id x r f a d c)

  -- Where the number of senders decides, the answer that brings enough different senders settles the
  -- future of the request with the result of the answers so far, if they give one, and later answers
  -- to the request do not change it.
  pub add_all-settled :
      (id : String) (x : Answer) (xs : List Answer) (n : ℕ) (v : Value) (t : ResponseTracker)
      (a : ResponseAggregator)
      → get id a.trackers ≡ some t
      → required t.strategy t ≡ some n
      → n ≤ length (add_sender x.sender t.received_from)
      → cell (receive x.sender x.content x.is_error x.time t).future a.store ≡ some pending
      → get_result items_of update_with listed (receive x.sender x.content x.is_error x.time t)
        ≡ some v
      → cell (receive x.sender x.content x.is_error x.time t).future (add_all id (x ∷ xs) a).store
        ≡ some (resolved v)
  unfolding add_response add_to is_complete
  add_all-settled id x xs n v t a g e h c w =
      let t' = receive x.sender x.content x.is_error x.time t in
      let a' : ResponseAggregator = record a { trackers = put id t' a.trackers } in
      let full : complete_by t'.strategy x.time t' ≡ true =
        complete_enough t'.strategy n x.time t'
          (kept_required x.sender x.content x.is_error x.time t ∙ e)
          (rw (received_senders x.sender x.content x.is_error x.time t) h) in
      add_all-done id xs t'.future (resolved v) _ refl (
        rw g (
          ap (cell t'.future)
            (added_store (settle_if items_of update_with listed (is_complete x.time t') t' a'))
          ∙ settled_cell (is_complete x.time t') v t' a' full c w))
