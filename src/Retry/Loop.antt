-- ===== src/Retry/Loop.antt =====
-- The loop of the retrying client: bounds on attempts and delays, and the way that it ends.
use jarvis_server.Prelude.{
  ℕ, zero, suc, ◌+◌, ◌≤◌, ◌<◌, ◌≡◌, refl, Bool, true, false, Option, none, some, List, [], ◌∷◌,
  arith, All, length, ltb, lt→ltb, inl, inr, ◌⊎◌, leb, ◌&&◌, if◌then◌else◌,
}
use jarvis_server.Prelude.Int.{pos}
use jarvis_server.Retry.{
  RetryConfig, get_delay, Outcome, response, timeout, connect_error, other_exception, Reply,
  returned, timed_out, connection_failed, raised_other, all_failed, failed_unexpectedly,
  status_error, LastException, timeout_exception, connection_exception, Decision, retry, finish,
  has_code, can_retry, round, Trace, waited, request_from, rounds, request, service_error,
}

-- A delay never exceeds the cap of the configuration.
get_delay-le_max : (c : RetryConfig) (attempt : ℕ) → get_delay c attempt ≤ c.max_delay
unfolding get_delay
get_delay-le_max c attempt = ground arith

-- What one whole request may cost: attempts, one delay between two attempts, each within the cap.
pub record IsBounded (c : RetryConfig) (left : ℕ) (t : Trace) : Type 0 where
  pub attempts_within : t.attempts ≤ left
  pub delays_between : length t.delays ≤ t.attempts
  pub each_capped : All (λ d. d ≤ c.max_delay) t.delays

-- Whether the outcome is one that the configuration retries while attempts are left.
abbrev pub is_transient : RetryConfig → Outcome → Bool
is_transient c (response status) = has_code status c.retry_on_status_codes
is_transient c timeout = c.retry_on_timeout
is_transient c connect_error = c.retry_on_connection_error
is_transient c other_exception = false

-- The answer to an outcome that is not retried, at the given attempt.
abbrev pub settled : Outcome → ℕ → Reply
settled (response status) attempt = returned status
settled timeout attempt = timed_out (attempt + 1)
settled connect_error attempt = connection_failed (attempt + 1)
settled other_exception attempt = raised_other

-- The delays slept before attempt `attempt + k`, from attempt `attempt` on.
abbrev backoff : RetryConfig → ℕ → ℕ → List ℕ
backoff c attempt zero = []
backoff c attempt (suc k) = get_delay c attempt ∷ backoff c (attempt + 1) k

abbrev is_decided : Reply → Bool
is_decided all_failed = false
is_decided failed_unexpectedly = false
is_decided _ = true

module _ (raises : ℕ → Bool) (c : RetryConfig) where
  Decision-cases :
      (d : Decision) → ((e : Option LastException) × (d ≡ retry e)) ⊎ ((r : Reply) × (d ≡ finish r))
  Decision-cases (retry e) = inl (e, refl)
  Decision-cases (finish r) = inr (r, refl)

  round_retries :
      (attempt : ℕ) (o : Outcome) (last e : Option LastException)
      → round raises c attempt o last ≡ retry e
      → can_retry attempt c.max_retries ≡ true
  unfolding round
  round_retries attempt (response s) last e h = ground arith
  round_retries attempt _ last e h = ground arith

  not_last :
      (n attempt : ℕ)
      → c.max_retries ≡ pos n
      → attempt + 0 ≡ n
      → can_retry attempt c.max_retries ≡ true
      → ⊥
  not_last n attempt m e h = ground arith

  round_decided :
      (attempt : ℕ) (o : Outcome) (last : Option LastException) (r : Reply)
      → round raises c attempt o last ≡ finish r
      → is_decided r ≡ true
  unfolding round
  round_decided attempt (response s) last r h = ground arith
  round_decided attempt _ last r h = ground arith

  round_transient :
      (attempt : ℕ) (o : Outcome) (last : Option LastException)
      → can_retry attempt c.max_retries ≡ true
      → is_transient c o ≡ true
      → (e : Option LastException) × (round raises c attempt o last ≡ retry e)
  unfolding round
  round_transient attempt (response s) last h t = (last, ground arith)
  round_transient attempt timeout last h t = (some timeout_exception, ground arith)
  round_transient attempt connect_error last h t = (some connection_exception, ground arith)
  round_transient attempt other_exception last h t = cc

  round-settled :
      (attempt : ℕ) (o : Outcome) (last : Option LastException)
      → is_transient c o ≡ false
      → round raises c attempt o last ≡ finish (settled o attempt)
  unfolding round
  round-settled attempt (response s) last t = ground arith
  round-settled attempt _ last t = ground arith

  module _ (world : ℕ → Outcome) where
    step_retry :
        (left attempt : ℕ) (last e : Option LastException)
        → round raises c attempt (world attempt) last ≡ retry e
        → request_from raises c world (suc left) attempt last
          ≡ waited (get_delay c attempt) (request_from raises c world left (attempt + 1) e)
    unfolding request_from
    step_retry left attempt last e p = ground arith

    step_finish :
        (left attempt : ℕ) (last : Option LastException) (r : Reply)
        → round raises c attempt (world attempt) last ≡ finish r
        → request_from raises c world (suc left) attempt last
          ≡ record { reply = r; attempts = 1; delays = [] }
    unfolding request_from
    step_finish left attempt last r p = ground arith

    waited-IsBounded :
        (left attempt : ℕ) (t : Trace)
        → IsBounded c left t
        → IsBounded c (suc left) (waited (get_delay c attempt) t)
    waited-IsBounded left attempt t b = record {
      attempts_within = omega (arith, b.attempts_within);
      delays_between = omega (arith, b.delays_between);
      each_capped = (get_delay-le_max c attempt, b.each_capped);
    }

    request_from-IsBounded :
        (left attempt : ℕ) (last : Option LastException)
        → IsBounded c left (request_from raises c world left attempt last)
    unfolding request_from
    request_from-IsBounded zero attempt last = ground arith
    request_from-IsBounded (suc left) attempt last =
        elim (Decision-cases (round raises c attempt (world attempt) last)) [
          | inl (e, p) ↦
              rw (step_retry left attempt last e p)
                (waited-IsBounded left attempt _ (request_from-IsBounded left (attempt + 1) e))
          | inr (r, p) ↦ rw (step_finish left attempt last r p) (record {
            attempts_within = omega arith;
            delays_between = omega arith;
            each_capped = tt;
          })
        ]

    -- With `left + 1` rounds to go and at most `n` retries, the loop ends inside a round.
    request_from_decided :
        (n left attempt : ℕ) (last : Option LastException)
        → c.max_retries ≡ pos n
        → attempt + left ≡ n
        → is_decided (request_from raises c world (suc left) attempt last).reply ≡ true
    request_from_decided n zero attempt last m e =
        elim (Decision-cases (round raises c attempt (world attempt) last)) [
          | inr (r, p) ↦
              rw (step_finish zero attempt last r p)
                (round_decided attempt (world attempt) last r p)
          | inl (x, p) ↦
              absurd (not_last n attempt m e (round_retries attempt (world attempt) last x p))
        ]
    request_from_decided n (suc left) attempt last m e =
        elim (Decision-cases (round raises c attempt (world attempt) last)) [
          | inr (r, p) ↦
              rw (step_finish (suc left) attempt last r p)
                (round_decided attempt (world attempt) last r p)
          | inl (x, p) ↦
              rw (step_retry (suc left) attempt last x p)
                (request_from_decided n left (attempt + 1) x m (omega arith))
        ]

    -- A run of transient outcomes and then one that ends the loop.
    request_from_run :
        (k total attempt m : ℕ) (last : Option LastException) (r : Reply)
        → attempt + k ≡ m
        → k < total
        → ((i : ℕ) → i < m → is_transient c (world i) ≡ true)
        → ((i : ℕ) → i < m → can_retry i c.max_retries ≡ true)
        → ((last : Option LastException) → round raises c m (world m) last ≡ finish r)
        → request_from raises c world total attempt last
          ≡ record { reply = r; attempts = k + 1; delays = backoff c attempt k }
    request_from_run k zero attempt m last r e h t b f = absurd (omega arith)
    request_from_run zero (suc total) attempt m last r e h t b f =
        let e' : attempt ≡ m = omega arith in rw e' (step_finish total m last r (f last))
    request_from_run (suc k) (suc total) attempt m last r e h t b f =
        let (x, p) =
          round_transient attempt (world attempt) last (b attempt (omega arith))
            (t attempt (omega arith)) in
        let rest = request_from_run k total (attempt + 1) m x r (omega arith) (omega arith) t b f in
        ground (arith, step_retry total attempt last x p, rest)

can_retry_of_lt :
    (c : RetryConfig) (n k i : ℕ)
    → c.max_retries ≡ pos n
    → k ≤ n
    → i < k
    → can_retry i c.max_retries ≡ true
can_retry_of_lt c n k i m h l = rw m (lt→ltb i n (omega arith))

last_round :
    (raises : ℕ → Bool) (c : RetryConfig) (n status : ℕ)
    → c.max_retries ≡ pos n
    → has_code status c.retry_on_status_codes ≡ true
    → raises status ≡ true
    → (last : Option LastException)
    → round raises c n (response status) last
      ≡ finish (
          if leb 400 status && ltb status 500
          then status_error status
          else service_error status (n + 1))
unfolding round
last_round raises c n status m h e last = ground arith

-- One request makes at most `max_retries + 1` calls of the client (none for a negative setting),
-- sleeps at most once per call, and each sleep is within `max_delay`.
request-IsBounded :
    (raises : ℕ → Bool) (c : RetryConfig) (world : ℕ → Outcome)
    → IsBounded c (rounds c.max_retries) (request raises c world)
unfolding request
request-IsBounded raises c world =
    request_from-IsBounded raises c world (rounds c.max_retries) 0 none

-- With a setting that is not negative the code behind the loop is never reached: the request
-- returns or raises from inside a round.
request_decided :
    (raises : ℕ → Bool) (c : RetryConfig) (world : ℕ → Outcome) (n : ℕ)
    → c.max_retries ≡ pos n
    → is_decided (request raises c world).reply ≡ true
unfolding request
request_decided raises c world n m =
    simp m (request_from_decided raises c world n n 0 none m (omega arith))

-- If the outcomes before attempt `k ≤ max_retries` are all transient and that of attempt `k` is not,
-- the request makes `k + 1` calls, sleeps the delays of the exponential backoff between them, and
-- ends as the last outcome says: a response is returned as it is, a timeout or a connection error is
-- raised with the number of attempts, any other exception passes through.
pub request-settled :
    (raises : ℕ → Bool) (c : RetryConfig) (world : ℕ → Outcome) (n k : ℕ)
    → c.max_retries ≡ pos n
    → k ≤ n
    → ((i : ℕ) → i < k → is_transient c (world i) ≡ true)
    → is_transient c (world k) ≡ false
    → request raises c world
      ≡ record { reply = settled (world k) k; attempts = k + 1; delays = backoff c 0 k }
unfolding request
request-settled raises c world n k m h t s = simp m (
    request_from_run raises c world k (suc n) 0 k none (settled (world k) k) (omega arith)
      (omega arith) t (λ i l. can_retry_of_lt c n k i m h l)
      (λ last. round-settled raises c k (world k) last s))

-- If every attempt gets the same retried status, for which `raise_for_status` raises, the request
-- makes all `max_retries + 1` calls. A server error then ends in the service error of the program,
-- with the count of attempts; a status of 400 to 499, such as 429, is raised as the client library's
-- own exception.
request_exhausted :
    (raises : ℕ → Bool) (c : RetryConfig) (n status : ℕ)
    → c.max_retries ≡ pos n
    → has_code status c.retry_on_status_codes ≡ true
    → raises status ≡ true
    → request raises c (λ i. response status) ≡ record {
      reply =
          (if leb 400 status && ltb status 500
            then status_error status
            else service_error status (n + 1));
      attempts = n + 1;
      delays = backoff c 0 n;
    }
unfolding request
request_exhausted raises c n status m h e = simp m (
    request_from_run raises c (λ i. response status) n (suc n) 0 n none _ (omega arith)
      (omega arith) (λ i l. h) (λ i l. can_retry_of_lt c n n i m (omega arith) l)
      (last_round raises c n status m h e))
