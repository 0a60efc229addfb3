-- ===== src/Retry.antt =====
-- jarvis/utils/retry_client.py: the retrying HTTP client. Delays are whole numbers of one unit of
-- time; the client library below it enters as the outcome of each attempt, and its
-- `raise_for_status` as a test on status codes.
pub mod Loop
pub mod Tests
use jarvis_server.Prelude.{
  ℕ, zero, suc, ◌+◌, ◌*◌, ◌^◌, Bool, true, false, ◌&&◌, ◌||◌, Option, none, some, List, [], ◌∷◌,
  ◌++◌, ltb, leb, ◌==◌, if◌then◌else◌,
}
use jarvis_server.Prelude.Int.{ℤ, pos, negsuc, pos_part}

pub record RetryConfig : Type 0 where
  pub max_retries : ℤ
  pub base_delay : ℕ
  pub max_delay : ℕ
  pub exponential_base : ℕ
  pub retry_on_timeout : Bool
  pub retry_on_connection_error : Bool
  pub retry_on_status_codes : List ℕ

-- The defaults of the constructor, in seconds.
abbrev pub default_config : RetryConfig
default_config = record {
  max_retries = pos 3;
  base_delay = 1;
  max_delay = 60;
  exponential_base = 2;
  retry_on_timeout = true;
  retry_on_connection_error = true;
  retry_on_status_codes = 429 ∷ 500 ∷ 502 ∷ 503 ∷ 504 ∷ [];
}

abbrev pub min_ℕ : ℕ → ℕ → ℕ
min_ℕ a b = if leb a b then a else b

unfoldable pub get_delay : RetryConfig → ℕ → ℕ
get_delay c attempt = min_ℕ (c.base_delay * c.exponential_base ^ attempt) c.max_delay

-- What one call of the underlying client does: a response with its status, or an exception.
pub data Outcome : Type 0 where
  response : ℕ → Outcome
  timeout : Outcome
  connect_error : Outcome
  other_exception : Outcome

-- What `request` returns or raises. `status_error` is the client library's own exception.
pub data Reply : Type 0 where
  returned : ℕ → Reply
  timed_out : ℕ → Reply
  connection_failed : ℕ → Reply
  service_error : ℕ → ℕ → Reply
  status_error : ℕ → Reply
  raised_other : Reply
  all_failed : Reply
  failed_unexpectedly : Reply

-- The exception that the loop remembers.
pub data LastException : Type 0 where
  timeout_exception connection_exception http_exception : LastException

-- One round of the loop goes on to the next attempt or ends the request.
pub data Decision : Type 0 where
  retry : Option LastException → Decision
  finish : Reply → Decision

-- `status_code in retry_on_status_codes`
abbrev pub has_code : ℕ → List ℕ → Bool
has_code n [] = false
has_code n (m ∷ ms) = m == n || has_code n ms

-- `attempt < max_retries`
abbrev pub can_retry : ℕ → ℤ → Bool
can_retry attempt (pos n) = ltb attempt n
can_retry attempt (negsuc n) = false

-- The `except httpx.HTTPStatusError` branch, for the status that `raise_for_status` raised.
unfoldable on_status_error : RetryConfig → ℕ → ℕ → Option LastException → Decision
on_status_error c attempt status last =
    if leb 400 status && ltb status 500
    then finish (status_error status)
    else if can_retry attempt c.max_retries
    then retry (some http_exception)
    else finish (service_error status (attempt + 1))

-- What follows the loop.
abbrev after_loop : Option LastException → Reply
after_loop none = failed_unexpectedly
after_loop (some e) = all_failed

pub record Trace : Type 0 where
  pub reply : Reply
  pub attempts : ℕ
  pub delays : List ℕ

abbrev pub waited : ℕ → Trace → Trace
waited delay t = record t { attempts = t.attempts + 1; delays = delay ∷ t.delays }

-- `max_retries + 1`, which is no round for a negative setting
abbrev pub rounds : ℤ → ℕ
rounds (pos n) = suc n
rounds (negsuc n) = 0

module _ (raises_for_status : ℕ → Bool) where
  -- The body of the `for` loop: the `try` with its handlers.
  unfoldable pub round : RetryConfig → ℕ → Outcome → Option LastException → Decision
  unfolding on_status_error
  round c attempt (response status) last =
      if has_code status c.retry_on_status_codes
      then (if can_retry attempt c.max_retries
          then retry last
          else if raises_for_status status
          then on_status_error c attempt status last
          else finish (returned status))
      else finish (returned status)
  round c attempt timeout last =
      if c.retry_on_timeout && can_retry attempt c.max_retries
      then retry (some timeout_exception)
      else finish (timed_out (attempt + 1))
  round c attempt connect_error last =
      if c.retry_on_connection_error && can_retry attempt c.max_retries
      then retry (some connection_exception)
      else finish (connection_failed (attempt + 1))
  round c attempt other_exception last = finish raised_other

  -- `for attempt in range(...)`: `left` rounds remain; the trace counts the calls of the client and
  -- lists the delays that `_log_and_wait` slept.
  unfoldable pub request_from : RetryConfig → (ℕ → Outcome) → ℕ → ℕ → Option LastException → Trace
  request_from c world zero attempt last = record {
    reply = after_loop last;
    attempts = 0;
    delays = [];
  }
  request_from c world (suc left) attempt last = elim (round c attempt (world attempt) last) [
    | retry next ↦ waited (get_delay c attempt) (request_from c world left (attempt + 1) next)
    | finish r ↦ record { reply = r; attempts = 1; delays = [] }
  ]

  unfoldable pub request : RetryConfig → (ℕ → Outcome) → Trace
  unfolding request_from
  request c world = request_from c world (rounds c.max_retries) 0 none
