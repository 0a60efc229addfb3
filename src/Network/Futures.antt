-- ===== src/Network/Futures.antt =====
-- The futures of pending requests: creation, first fulfilment, waiting, and the periodic clean-up.
use jarvis_server.Prelude.{
  ℕ, zero, suc, ◌+◌, ◌-◌, ◌≡◌, String, Bool, true, Option, none, some, List, [], ◌∷◌, ◌++◌, arith,
  length, ltb, if◌then◌else◌,
}
use jarvis_server.Prelude.Dict.{Dict, get, put, remove, has}
use jarvis_server.Value.{Value, null, text, obj, end, field, field_of}
use jarvis_server.Network.{
  Network, Pending, Future, pending, cancelled, resolved, is_done, Message, with_metrics,
}

-- The cells of the store; a cell that is not there never changes.
abbrev pub cell : ℕ → List Future → Option Future
cell n [] = none
cell zero (f ∷ fs) = some f
cell (suc n) (f ∷ fs) = cell n fs

-- `if not fut.done(): fut.set_result(v)` or `fut.cancel()`
abbrev pub settle : ℕ → Future → List Future → List Future
settle n g [] = []
settle zero g (f ∷ fs) = if is_done f then f ∷ fs else g ∷ fs
settle (suc n) g (f ∷ fs) = f ∷ settle n g fs

-- A future is settled once: writing to one that is done changes nothing, and no other cell changes.
pub cell-settle :
    (n m : ℕ) (g f : Future) (fs : List Future)
    → cell m fs ≡ some f
    → is_done f ≡ true
    → cell m (settle n g fs) ≡ some f
cell-settle n m g f [] h d = h
cell-settle zero zero g f (x ∷ fs) h d = ground arith
cell-settle zero (suc m) g f (x ∷ fs) h d = ground arith
cell-settle (suc n) zero g f (x ∷ fs) h d = h
cell-settle (suc n) (suc m) g f (x ∷ fs) h d = cell-settle n m g f fs h d

pub cell-settle_self :
    (n : ℕ) (g : Future) (fs : List Future)
    → cell n fs ≡ some pending
    → cell n (settle n g fs) ≡ some g
cell-settle_self n g [] h = cc
cell-settle_self zero g (x ∷ fs) h = ground arith
cell-settle_self (suc n) g (x ∷ fs) h = cell-settle_self n g fs h

pub cell-append :
    (m : ℕ) (f g : Future) (fs : List Future) → cell m fs ≡ some f → cell m (fs ++ g ∷ []) ≡ some f
cell-append m f g [] h = cc
cell-append zero f g (x ∷ fs) h = h
cell-append (suc m) f g (x ∷ fs) h = cell-append m f g fs h

abbrev pub settle_pending : Option Pending → Future → Network → Network
settle_pending none g net = net
settle_pending (some p) g net = record net { store = settle p.future g net.store }

-- `_fulfill_response_future`
unfoldable pub fulfill_response_future : Message → Network → Network
fulfill_response_future m net =
    settle_pending (get m.request_id net.response_futures) (resolved m.content) net

-- `content.get("error")`, where a missing key is `None`
abbrev pub error_field : Option Value → Value
error_field none = null
error_field (some v) = v

-- `{"error": v}`
abbrev pub error_dict : Value → Value
error_dict v = obj (field "error" v end)

module _ (text_of : Value → String) where
  abbrev pub error_of : Value → Value
  error_of (obj fs) = error_field (field_of "error" fs)
  error_of v = text (text_of v)

  -- `_fulfill_error_future`
  unfoldable pub fulfill_error_future : Message → Network → Network
  fulfill_error_future m net =
      settle_pending (get m.request_id net.response_futures)
        (resolved (error_dict (error_of m.content))) net

-- The future of a new request; a request id in use keeps its future.
unfoldable pub ensure_future : String → ℕ → Network → Network
ensure_future request_id now net = if has request_id net.response_futures then net else record net {
  store = net.store ++ pending ∷ [];
  response_futures =
      put request_id (record { future = length net.store; created = now }) net.response_futures;
}

-- `wait_for_response`: the state of a caller that waits on a future it holds.
pub data WaitResult : Type 0 where
  key_error : WaitResult
  waiting : ℕ → WaitResult
  result : Value → WaitResult
  raised_cancelled : WaitResult
  timeout_error : WaitResult

unfoldable begin_wait : String → Network → WaitResult
begin_wait request_id net = elim (get request_id net.response_futures) [
  | none ↦ key_error
  | some p ↦ waiting p.future
]

abbrev pub forget : String → Network → Network
forget request_id net = record net { response_futures = remove request_id net.response_futures }

abbrev pub poll_cell : Option Future → ℕ → String → ℕ → Option ℕ → Network → WaitResult × Network
poll_cell (some (resolved v)) ref request_id elapsed timeout net = (result v, forget request_id net)
poll_cell (some cancelled) ref request_id elapsed timeout net = (raised_cancelled, net)
poll_cell other ref request_id elapsed none net = (waiting ref, net)
poll_cell other ref request_id elapsed (some zero) net = (waiting ref, net)
poll_cell other ref request_id elapsed (some (suc t)) net =
    if ltb (suc t) elapsed then (timeout_error, forget request_id net) else (waiting ref, net)

-- One look of the waiting loop at its future, `elapsed` after the start. A time limit of 0 or `None`
-- is no limit. `CancelledError` is no `Exception`: it passes the handlers.
unfoldable pub poll : ℕ → String → ℕ → Option ℕ → Network → WaitResult × Network
poll ref request_id elapsed timeout net =
    poll_cell (cell ref net.store) ref request_id elapsed timeout net

-- The first loop of `_cleanup_expired_futures`: the expired ids, and the store with them cancelled.
unfoldable pub is_stale : ℕ → ℕ → Pending → Bool
is_stale ttl now p = ltb ttl (now - p.created)

unfoldable pub stale_ids : ℕ → ℕ → Dict Pending → List String
stale_ids ttl now [] = []
stale_ids ttl now ((id, p) ∷ rest) =
    let ids = stale_ids ttl now rest in if is_stale ttl now p then id ∷ ids else ids

unfoldable pub cancel_stale : ℕ → ℕ → Dict Pending → List Future → List Future
cancel_stale ttl now [] fs = fs
cancel_stale ttl now ((id, p) ∷ rest) fs =
    cancel_stale ttl now rest (if is_stale ttl now p then settle p.future cancelled fs else fs)

-- The second loop: `del` and the count.
unfoldable pub delete_all : List String → Network → Network
delete_all [] net = net
delete_all (id ∷ ids) net =
    delete_all ids
      (with_metrics (λ m. record m { future_cleanups = m.future_cleanups + 1 }) (forget id net))

unfoldable pub cleanup_expired_futures : ℕ → Network → Network
unfolding stale_ids cancel_stale delete_all
cleanup_expired_futures now net =
    delete_all (stale_ids net.future_ttl now net.response_futures)
      (record net { store = cancel_stale net.future_ttl now net.response_futures net.store })
