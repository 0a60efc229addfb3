-- ===== src/Protocols.antt =====
-- jarvis/protocols/models and jarvis/protocols/instruction_protocol.py: protocols and their steps.
use jarvis_server.Prelude.{String, Bool, Option, List, [], ◌∷◌, ◌++◌}
use jarvis_server.Prelude.Int.{ℤ}
use jarvis_server.Prelude.Dict.{Dict}
use jarvis_server.Value.{Fields}
pub mod Execution
pub mod Calls
pub mod Registry
pub mod Duplicates
pub mod Clashes
pub mod Names
pub mod Tests

pub record ProtocolStep : Type 0 where
  pub agent : String
  pub function : String
  pub parameters : Fields
  pub parameter_mappings : Dict String

pub data ArgumentType : Type 0 where
  choice range free_text boolean : ArgumentType

pub record ArgumentDefinition : Type 0 where
  pub name : String
  pub type : ArgumentType
  pub choices : List String
  pub min_val : Option ℤ
  pub max_val : Option ℤ
  pub required : Bool
  pub description : String

pub data ResponseMode : Type 0 where
  static ai : ResponseMode

pub record ProtocolResponse : Type 0 where
  pub mode : ResponseMode
  pub phrases : List String
  pub prompt : String

pub record Protocol : Type 0 where
  pub id : String
  pub name : String
  pub description : String
  pub arguments : Fields
  pub trigger_phrases : List String
  pub steps : List ProtocolStep
  pub argument_definitions : List ArgumentDefinition
  pub response : Option ProtocolResponse

-- `InstructionProtocol.add_step`
unfoldable pub add_step : ProtocolStep → Protocol → Protocol
add_step s p = record p { steps = p.steps ++ s ∷ [] }
