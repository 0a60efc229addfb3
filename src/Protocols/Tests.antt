-- ===== src/Protocols/Tests.antt =====
-- Instances of the theorems on jarvis/protocols, and a protocol that is executed.
use jarvis_server.Prelude.{
  zero, suc, ℕ, String, ◌≡◌, refl, Bool, true, Option, none, some, List, [], ◌∷◌, str_eq,
  str_eq_iff, All, Bool-cases, inl, inr,
}
use jarvis_server.Prelude.Dict.{Dict, get, put}
use jarvis_server.Prelude.Text.{concat, decimal, decimal_from}
use jarvis_server.Value.{null, text, pair, Fields, end, field, field_of, set_field}
use jarvis_server.Protocols.{ProtocolStep, Protocol}
use jarvis_server.Protocols.Execution.{
  CapabilityResult, returned, Progress, partial, error_result, step_id, map_parameters, execute,
  execution_result,
}
use jarvis_server.Protocols.Calls.{IsPermitted, execute-IsPermitted}
use jarvis_server.Protocols.Registry.{ProtocolRegistry, register}
use jarvis_server.Protocols.Duplicates.{IsStored, register-IsStored}
use jarvis_server.Protocols.Clashes.{put-IsClashFree}
use jarvis_server.Protocols.Names.{
  IsDistinct, NameSettled, IsClashFree-IsDistinct, register-IsDistinct,
}

abbrev step : String → String → Dict String → ProtocolStep
step agent function mappings = record {
  agent = agent;
  function = function;
  parameters = end;
  parameter_mappings = mappings;
}

abbrev protocol : String → String → List ProtocolStep → Protocol
protocol id name steps = record {
  id = id;
  name = name;
  description = "";
  arguments = end;
  trigger_phrases = name ∷ [];
  steps = steps;
  argument_definitions = [];
  response = none;
}

abbrev evening : Protocol
evening = protocol "p1" "evening" (
    step "Lights" "set_color" (("color", "$color") ∷ [])
    ∷ step "Roku" "stop" []
    ∷ step "Chat" "say" []
    ∷ [])

abbrev world : ℕ → Fields → CapabilityResult
world zero params = returned (text "done")
world (suc n) params = returned (pair null (text ""))

abbrev allowed : Option (List String)
allowed = some ("Lights" ∷ "Chat" ∷ [])

abbrev agents : List String
agents = "Lights" ∷ "Chat" ∷ "Roku" ∷ []

abbrev failed : String → Bool
failed s = str_eq s "failed to"

abbrev run : Progress
run = execute failed allowed agents world (some (field "color" (text "red") end)) evening

run_results :
    run.results
    ≡ field "step_0_set_color" (text "done") (
        field "step_1_stop"
          (error_result "agent_disallowed")
          (field "step_2_say" (error_result "Unknown error") end))
unfolding execute step_id concat decimal decimal_from set_field map_parameters
run_results = refl

run_parts : execution_result evening run.results ≡ partial
unfolding execute step_id concat decimal decimal_from set_field map_parameters execution_result
    field_of
run_parts = refl

execute-IsPermitted_example : All (IsPermitted allowed agents) run.calls
execute-IsPermitted_example =
    execute-IsPermitted failed allowed agents world (some (field "color" (text "red") end)) evening

abbrev same : String → String
same s = s

abbrev name_of : Protocol → String
name_of p = p.name

abbrev registry : ProtocolRegistry String
registry = record { protocols = ("p1", evening) ∷ []; rows = ("p1", "evening") ∷ [] }

registry-IsStored : IsStored same name_of registry
unfolding get
registry-IsStored = (
  λ k. elim (Bool-cases (str_eq "p1" k)) [
    | inl b ↦ rw b ((str_eq_iff "p1" k).0 b)
    | inr b ↦ rw b refl
  ],
  λ k. elim (Bool-cases (str_eq "p1" k)) [ inl b ↦ rw b refl | inr b ↦ rw b refl ],
)

register-IsStored_example :
    IsStored same name_of (register same name_of (protocol "p2" "evening" []) true registry).1
register-IsStored_example =
    register-IsStored same name_of (protocol "p2" "evening" []) true registry registry-IsStored

registry-IsDistinct : IsDistinct same registry.protocols
unfolding get put
registry-IsDistinct =
    IsClashFree-IsDistinct same registry.protocols
      (put-IsClashFree same evening [] (λ k. refl) (λ j k h. cc))

abbrev second : Protocol
second = protocol "p2" "evening" []

register-IsDistinct_example :
    IsDistinct same (register same name_of second true registry).1.protocols
    × NameSettled same name_of second true registry (register same name_of second true registry)
register-IsDistinct_example =
    register-IsDistinct same name_of second true registry registry-IsDistinct
