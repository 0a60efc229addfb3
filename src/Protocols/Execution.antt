-- ===== src/Protocols/Execution.antt =====
-- jarvis/protocols/executor.py: the execution of the steps of a protocol. What
-- `agent.run_capability` does for the step with an index and its parameters is the argument `world`;
-- `is_failure` stands for `s.lower().startswith("failed to")`. Logging is left out.
use Prim.Native.String.{slice, len}
use package.text.Mathlib.Text.{starts_with}
use jarvis_server.Prelude.{
  ℕ, suc, String, Bool, false, Option, none, some, List, [], ◌∷◌, ◌++◌, str_eq, contains, ltb, ◌==◌,
  if◌then◌else◌, length, is_some, get_or,
}
use jarvis_server.Prelude.Dict.{Dict}
use jarvis_server.Prelude.Text.{concat, decimal}
use jarvis_server.Value.{Value, text, pair, obj, Fields, end, field, truthy, field_of, set_field}
use jarvis_server.Protocols.{ProtocolStep, Protocol}

-- How `run_capability` ends.
pub data CapabilityResult : Type 0 where
  returned : Value → CapabilityResult
  not_implemented : CapabilityResult
  raised : String → CapabilityResult

-- A call of `agent.run_capability(function, **params)`.
pub record Call : Type 0 where
  pub agent : String
  pub function : String
  pub parameters : Fields

pub record Progress : Type 0 where
  pub results : Fields
  pub calls : List Call

pub data ExecutionResult : Type 0 where
  success partial failure : ExecutionResult

abbrev pub error_result : String → Value
error_result e = obj (field "error" (text e) end)

unfoldable pub step_id : ℕ → ProtocolStep → String
unfolding concat decimal
step_id i s = concat ("step_" ∷ decimal i ∷ "_" ∷ s.function ∷ [])

-- The reason for which a step is not executed.
abbrev pub refusal : Option (List String) → List String → String → Option String
refusal none agents agent = if contains agent agents then none else some "agent_not_found"
refusal (some allowed) agents agent =
    if contains agent allowed
    then (if contains agent agents then none else some "agent_not_found")
    else some "agent_disallowed"

-- The reference `$name`: an extracted argument, or else the result of an earlier step.
abbrev first_of : Option Value → Option Value → Option Value
first_of (some v) r = some v
first_of none r = r

abbrev set_found : Option Value → String → Fields → Fields
set_found none name params = params
set_found (some v) name params = set_field name v params

abbrev map_parameter : Fields → Fields → String → String → Fields → Fields
map_parameter context results name mapping params =
    if starts_with mapping "$"
    then (let ref = slice mapping 1 (len mapping) in
        set_found (first_of (field_of ref context) (field_of ref results)) name params)
    else params

unfoldable pub map_parameters : Fields → Fields → Dict String → Fields → Fields
map_parameters context results [] params = params
map_parameters context results ((name, mapping) ∷ mappings) params =
    map_parameters context results mappings (map_parameter context results name mapping params)

module _ (is_failure : String → Bool) where
  -- A text that tells of a failure and a pair of nothing and a message count as errors.
  abbrev pub checked : Value → Value
  checked (text s) = if is_failure s then error_result s else text s
  checked (pair first (text message)) =
      if truthy first
      then pair first (text message)
      else error_result (if str_eq message "" then "Unknown error" else message)
  checked v = v

  abbrev pub step_result : CapabilityResult → Value
  step_result (returned v) = checked v
  step_result not_implemented = error_result "function_not_found"
  step_result (raised e) = error_result e

  abbrev pub run_step :
      Option String
      → (ℕ → Fields → CapabilityResult)
      → Fields
      → ℕ
      → ProtocolStep
      → Progress
      → Progress
  run_step (some reason) world context i s p = record p {
    results = set_field (step_id i s) (error_result reason) p.results;
  }
  run_step none world context i s p =
      let params = map_parameters context p.results s.parameter_mappings s.parameters in
      record {
        results = set_field (step_id i s) (step_result (world i params)) p.results;
        calls =
            p.calls ++ record { agent = s.agent; function = s.function; parameters = params } ∷ [];
      }

  -- The loop over the steps, from index `i` on.
  unfoldable pub run_steps :
      Option (List String)
      → List String
      → (ℕ → Fields → CapabilityResult)
      → Fields
      → ℕ
      → List ProtocolStep
      → Progress
      → Progress
  run_steps allowed agents world context i [] p = p
  run_steps allowed agents world context i (s ∷ ss) p =
      run_steps allowed agents world context (suc i) ss
        (run_step (refusal allowed agents s.agent) world context i s p)

  -- `execute`, where a missing context is an empty one
  unfoldable pub execute :
      Option (List String)
      → List String
      → (ℕ → Fields → CapabilityResult)
      → Option Fields
      → Protocol
      → Progress
  unfolding run_steps
  execute allowed agents world context protocol =
      run_steps allowed agents world (get_or end context) 0 protocol.steps
        (record { results = end; calls = [] })

-- `isinstance(r, dict) and "error" in r`
abbrev pub is_error : Value → Bool
is_error (obj fs) = is_some (field_of "error" fs)
is_error _ = false

abbrev count_errors : Fields → ℕ
count_errors end = 0
count_errors (field k v fs) = let n = count_errors fs in if is_error v then suc n else n

-- The result that is logged for the execution.
unfoldable pub execution_result : Protocol → Fields → ExecutionResult
execution_result protocol results =
    if count_errors results == 0
    then success
    else if ltb (count_errors results) (length protocol.steps)
    then partial
    else failure
