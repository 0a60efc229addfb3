-- ===== src/Protocols/Calls.antt =====
-- What the executor of jarvis/protocols/executor.py calls and what it records.
use jarvis_server.Prelude.{
  All-append_one, ℕ, suc, String, ◌≡◌, refl, Bool, true, ◌&&◌, Option, none, some, List, [], ◌∷◌,
  str_eq_iff, contains, is_some, get_or, All, arith,
}
use jarvis_server.Value.{Value, Fields, end, field_of, set_field, field_of-set_field}
use jarvis_server.Protocols.{ProtocolStep, Protocol}
use jarvis_server.Protocols.Execution.{
  CapabilityResult, Call, Progress, step_id, refusal, run_step, run_steps, execute, error_result,
  step_result, map_parameters,
}

-- The agent is registered, and allowed if the caller restricts the agents.
abbrev may_run : Option (List String) → List String → String → Bool
may_run none agents agent = contains agent agents
may_run (some allowed) agents agent = contains agent allowed && contains agent agents

abbrev pub IsPermitted : Option (List String) → List String → Call → Type 0
IsPermitted allowed agents c = may_run allowed agents c.agent ≡ true

-- Each step from index `i` on has an entry under its id.
abbrev IsRecorded : ℕ → List ProtocolStep → Fields → Type 0
IsRecorded i [] results = Unit
IsRecorded i (s ∷ ss) results =
    (is_some (field_of (step_id i s) results) ≡ true) × IsRecorded (suc i) ss results

refusal-may_run :
    (allowed : Option (List String)) (agents : List String) (agent : String)
    → refusal allowed agents agent ≡ none
    → may_run allowed agents agent ≡ true
refusal-may_run none agents agent h = ground arith
refusal-may_run (some allowed) agents agent h = ground arith

has-set_field :
    (k j : String) (v : Value) (fs : Fields)
    → is_some (field_of j fs) ≡ true
    → is_some (field_of j (set_field k v fs)) ≡ true
has-set_field k j v fs h = ground (arith, field_of-set_field k j v fs)

has-set_field_self :
    (k : String) (v : Value) (fs : Fields) → is_some (field_of k (set_field k v fs)) ≡ true
has-set_field_self k v fs = ground (arith, field_of-set_field k k v fs, str_eq_iff k k)

module _ (is_failure : String → Bool) (allowed : Option (List String)) (agents : List String)
    (world : ℕ → Fields → CapabilityResult) (context : Fields) where
  step-IsPermitted :
      (r : Option String) (i : ℕ) (s : ProtocolStep) (p : Progress)
      → refusal allowed agents s.agent ≡ r
      → All (IsPermitted allowed agents) p.calls
      → All (IsPermitted allowed agents) (run_step is_failure r world context i s p).calls
  step-IsPermitted (some reason) i s p e h = h
  step-IsPermitted none i s p e h =
      All-append_one (IsPermitted allowed agents) _ p.calls h
        (refusal-may_run allowed agents s.agent e)

  steps-IsPermitted :
      (i : ℕ) (ss : List ProtocolStep) (p : Progress)
      → All (IsPermitted allowed agents) p.calls
      → All
          (IsPermitted allowed agents)
          (run_steps is_failure allowed agents world context i ss p).calls
  unfolding run_steps
  steps-IsPermitted i [] p h = h
  steps-IsPermitted i (s ∷ ss) p h =
      steps-IsPermitted (suc i) ss _
        (step-IsPermitted (refusal allowed agents s.agent) i s p refl h)

  step-keeps :
      (k : String) (r : Option String) (i : ℕ) (s : ProtocolStep) (p : Progress)
      → is_some (field_of k p.results) ≡ true
      → is_some (field_of k (run_step is_failure r world context i s p).results) ≡ true
  step-keeps k (some reason) i s p h =
      has-set_field (step_id i s) k (error_result reason) p.results h
  step-keeps k none i s p h =
      has-set_field (step_id i s) k
        (step_result is_failure
          (world i (map_parameters context p.results s.parameter_mappings s.parameters)))
        p.results h

  step-records :
      (r : Option String) (i : ℕ) (s : ProtocolStep) (p : Progress)
      → is_some (field_of (step_id i s) (run_step is_failure r world context i s p).results) ≡ true
  step-records (some reason) i s p =
      has-set_field_self (step_id i s) (error_result reason) p.results
  step-records none i s p =
      has-set_field_self (step_id i s)
        (step_result is_failure
          (world i (map_parameters context p.results s.parameter_mappings s.parameters)))
        p.results

  steps-keep :
      (k : String) (i : ℕ) (ss : List ProtocolStep) (p : Progress)
      → is_some (field_of k p.results) ≡ true
      → is_some (field_of k (run_steps is_failure allowed agents world context i ss p).results)
        ≡ true
  unfolding run_steps
  steps-keep k i [] p h = h
  steps-keep k i (s ∷ ss) p h =
      steps-keep k (suc i) ss _ (step-keeps k (refusal allowed agents s.agent) i s p h)

  steps-IsRecorded :
      (i : ℕ) (ss : List ProtocolStep) (p : Progress)
      → IsRecorded i ss (run_steps is_failure allowed agents world context i ss p).results
  unfolding run_steps
  steps-IsRecorded i [] p = tt
  steps-IsRecorded i (s ∷ ss) p = (
    steps-keep (step_id i s) (suc i) ss _ (step-records (refusal allowed agents s.agent) i s p),
    steps-IsRecorded (suc i) ss _,
  )

-- The executor calls only agents that are registered and, if the caller restricts the agents, allowed.
pub execute-IsPermitted :
    (is_failure : String → Bool) (allowed : Option (List String)) (agents : List String)
    (world : ℕ → Fields → CapabilityResult) (context : Option Fields) (protocol : Protocol)
    → All
        (IsPermitted allowed agents)
        (execute is_failure allowed agents world context protocol).calls
unfolding execute
execute-IsPermitted is_failure allowed agents world context protocol =
    steps-IsPermitted is_failure allowed agents world (get_or end context) 0 protocol.steps _ tt

-- No step is lost: whatever refused, failing or raising steps stand before it, each step of the
-- protocol has an entry in the results under its own id.
execute-IsRecorded :
    (is_failure : String → Bool) (allowed : Option (List String)) (agents : List String)
    (world : ℕ → Fields → CapabilityResult) (context : Option Fields) (protocol : Protocol)
    → IsRecorded 0 protocol.steps (execute is_failure allowed agents world context protocol).results
unfolding execute
execute-IsRecorded is_failure allowed agents world context protocol =
    steps-IsRecorded is_failure allowed agents world (get_or end context) 0 protocol.steps _
