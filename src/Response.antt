-- ===== src/Response.antt =====
-- jarvis/agents/response.py: `ErrorInfo`, `AgentResponse` and their dictionary forms. Fields that the
-- code takes from a dictionary without a check are values of any kind; `null` is None.
use jarvis_server.Prelude.{
  String, Bool, true, false, Option, none, some, List, [], ◌∷◌, str_eq, if◌then◌else◌, get_or,
  ◌>>=◌,
}
use jarvis_server.Value.{
  Value, null, flag, text, arr, obj, nil, Fields, end, field, truthy, field_of, set_field,
}
pub mod Roundtrip
pub mod Merge
pub mod Aggregator
pub mod Threshold
pub mod Tests

pub data ErrorSeverity : Type 0 where
  warning error critical : ErrorSeverity

abbrev pub severity_value : ErrorSeverity → String
severity_value warning = "warning"
severity_value error = "error"
severity_value critical = "critical"

-- `ErrorSeverity(value)`, which raises for any other value
abbrev pub to_severity : Value → Option ErrorSeverity
to_severity (text s) =
    if str_eq s "warning"
    then some warning
    else if str_eq s "error"
    then some error
    else if str_eq s "critical"
    then some critical
    else none
to_severity _ = none

pub record ErrorInfo : Type 0 where
  pub message : Value
  pub error_type : Value
  pub severity : ErrorSeverity
  pub details : Value
  pub retry_after : Value

-- `payload` is the field `data`.
pub record AgentResponse : Type 0 where
  pub success : Value
  pub response : Value
  pub actions : Value
  pub payload : Value
  pub metadata : Value
  pub error : Option ErrorInfo

-- `if v: result[key] = v`
abbrev pub set_truthy : String → Value → Fields → Fields
set_truthy key v fs = if truthy v then set_field key v fs else fs

-- `if v is not None: result[key] = v`
abbrev pub set_present : String → Value → Fields → Fields
set_present key null fs = fs
set_present key v fs = set_field key v fs

-- `data.get(key)` and `data.get(key, default)`
abbrev pub field_or : Value → String → Fields → Value
field_or default key fs = get_or default (field_of key fs)

unfoldable pub error_to_dict : ErrorInfo → Fields
error_to_dict e = set_present "retry_after" e.retry_after (
    set_truthy "details" e.details (
      set_truthy "error_type" e.error_type
        (field "message" e.message (field "severity" (text (severity_value e.severity)) end))))

-- `ErrorInfo.from_dict`; `none` is a KeyError or a ValueError.
unfoldable pub error_from_dict : Fields → Option ErrorInfo
error_from_dict fs = to_severity (field_or (text "error") "severity" fs) >>= λ severity.
    field_of "message" fs >>= λ message. some (record {
      message = message;
      error_type = field_or null "error_type" fs;
      severity = severity;
      details = field_or null "details" fs;
      retry_after = field_or null "retry_after" fs;
    })

abbrev pub set_error : Option ErrorInfo → Fields → Fields
set_error none fs = fs
set_error (some e) fs = set_field "error" (obj (error_to_dict e)) fs

unfoldable pub to_dict : AgentResponse → Fields
to_dict r = set_error r.error (
    set_present "metadata" r.metadata (
      set_present "data" r.payload (
        set_truthy "actions" r.actions
          (field "success" r.success (field "response" r.response end)))))

-- `ErrorInfo.from_dict(error_data) if error_data else None`
abbrev pub error_in : Value → Option (Option ErrorInfo)
error_in (obj fs) =
    if truthy (obj fs) then (error_from_dict fs >>= λ e. some (some e)) else some none
error_in v = if truthy v then none else some none

unfoldable pub from_dict : Fields → Option AgentResponse
unfolding error_from_dict
from_dict fs = error_in (field_or null "error" fs) >>= λ e. some (record {
  success = field_or (flag true) "success" fs;
  response = field_or (text "") "response" fs;
  actions = field_or (arr nil) "actions" fs;
  payload = field_or null "data" fs;
  metadata = field_or null "metadata" fs;
  error = e;
})

unfoldable pub error_response : String → String → Value → AgentResponse
error_response response message details = record {
  success = flag false;
  response = text response;
  actions = arr nil;
  payload = null;
  metadata = null;
  error = some (record {
    message = text message;
    error_type = null;
    severity = error;
    details = details;
    retry_after = null;
  });
}

unfoldable pub success_response : String → AgentResponse
success_response response = record {
  success = flag true;
  response = text response;
  actions = arr nil;
  payload = null;
  metadata = null;
  error = none;
}
