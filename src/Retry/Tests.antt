-- ===== src/Retry/Tests.antt =====
-- Instances of the retrying client's theorems, and runs of it.
use jarvis_server.Prelude.{ℕ, zero, suc, ◌<◌, ◌≡◌, refl, Bool, true, [], ◌∷◌, arith, leb}
use jarvis_server.Retry.{default_config, Outcome, response, timeout, returned, get_delay, request}
use jarvis_server.Retry.Loop.{is_transient, request-settled}

-- The documented behaviour of `raise_for_status`: it raises for statuses from 400 on.
abbrev raises : ℕ → Bool
raises status = leb 400 status

abbrev recovers : ℕ → Outcome
recovers zero = timeout
recovers (suc zero) = response 503
recovers (suc (suc n)) = response 200

recovers_transient : (i : ℕ) → i < 2 → is_transient default_config (recovers i) ≡ true
recovers_transient zero h = refl
recovers_transient (suc zero) h = refl
recovers_transient (suc (suc i)) h = absurd (omega arith)

request-settled_example :
    request raises default_config recovers
    ≡ record { reply = returned 200; attempts = 3; delays = 1 ∷ 2 ∷ [] }
unfolding get_delay
request-settled_example =
    request-settled raises default_config recovers 3 2 refl (omega arith) recovers_transient refl
