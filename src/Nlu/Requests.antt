-- ===== src/Nlu/Requests.antt =====
-- The requests that jarvis/agents/nlu_agent/__init__.py keeps while agents work on them, the messages
-- it sends, and the texts of its replies. A request in `active_requests` is one dictionary that the
-- handlers change in place; here its new value is written back under its key.
use Prim.Native.Char.{code}
use jarvis_server.Prelude.{
  ℕ, suc, String, Bool, true, false, Option, none, some, List, [], ◌∷◌, ◌++◌, leb, ◌==◌,
  if◌then◌else◌, get_or, ◌>>=◌,
}
use jarvis_server.Prelude.Dict.{Dict}
use jarvis_server.Prelude.Text.{join}
use jarvis_server.Value.{
  Value, null, flag, num, text, arr, pair, obj, Items, nil, cons, Fields, end, field, truthy,
  field_of,
}
use jarvis_server.Nlu.Graph.{Dag}

pub record AgentResult : Type 0 where
  pub from_agent : String
  pub capability : Option String
  pub result : Value

-- An entry of `active_requests`; `remaining_capabilities` and `dag` are empty or `none` if the key is
-- missing.
pub record Request : Type 0 where
  pub user_input : String
  pub original_requester : Option String
  pub user_id : Option Value
  pub agent_results : List AgentResult
  pub dag : Option Dag
  pub completed_caps : List String
  pub running_caps : List String
  pub capability_request_ids : Dict String
  pub remaining_capabilities : List String
  pub current_capability : Option String
  pub original_message_id : Option String
  pub context : Value
  pub allowed_agents : Option (List String)
  pub step : ℕ

-- A call of `request_capability`; `previous` is the key `previous_results` of its context.
pub record Ask : Type 0 where
  pub capability : String
  pub prompt : Value
  pub context : Value
  pub previous : Option (List AgentResult)
  pub user_id : Option Value
  pub request_id : String
  pub allowed : Option (List String)

-- What the agent sends: requests, `send_capability_response`, `send_error`, and the task that trains
-- the fast classifier.
pub data Effect : Type 0 where
  asked : Ask → Effect
  replied : String → Value → String → Option String → Effect
  failed : String → String → String → Effect
  trained : String → String → Effect

pub record NluAgent : Type 0 where
  pub active_requests : Dict Request
  pub outbox : List Effect

abbrev pub send : Effect → NluAgent → NluAgent
send e a = record a { outbox = a.outbox ++ e ∷ [] }

-- `request_id.split(":", 1)`, for an id with a colon
unfoldable pub split_id : String → Option (String × String)
split_id String.[] = none
split_id (String.◌∷◌ c s) =
    let rest = split_id s in
    if code c == 58 then some ("", s) else (rest >>= λ p. some (String.◌∷◌ c p.0, p.1))

abbrev optional_text : Option String → Value
optional_text none = null
optional_text (some s) = text s

abbrev result_value : AgentResult → Value
result_value r = obj (
    field "from_agent" (text r.from_agent)
      (field "capability" (optional_text r.capability) (field "result" r.result end)))

unfoldable pub results_items : List AgentResult → Items
results_items [] = nil
results_items (r ∷ rs) = cons (result_value r) (results_items rs)

-- `result_data.get("response") or result_data.get("message", "")` for a dictionary
abbrev response_of : Fields → Value
response_of fs =
    let response = get_or null (field_of "response" fs) in
    if truthy response then response else get_or (text "") (field_of "message" fs)

abbrev push_truthy : Value → List Value → List Value
push_truthy v vs = if truthy v then v ∷ vs else vs

abbrev push_response : Value → List Value → List Value
push_response (obj fs) rest = push_truthy (response_of fs) rest
push_response v rest = rest

unfoldable pub responses : List AgentResult → List Value
unfolding field_of
responses [] = []
responses (r ∷ rs) = push_response r.result (responses rs)

-- The texts that `"\n\n".join` takes; `none` is its TypeError.
abbrev as_texts : List Value → Option (List String)
as_texts [] = some []
as_texts (text s ∷ vs) = as_texts vs >>= λ ss. some (s ∷ ss)
as_texts (v ∷ vs) = none

abbrev joined : List Value → Option Value
joined [] = some (text "I completed your request.")
joined (v ∷ []) = some v
joined (v ∷ w ∷ vs) = as_texts (v ∷ w ∷ vs) >>= λ ss. some (text (join "\n\n" ss))

-- `_build_final_response`
unfoldable pub build_final_response : List AgentResult → Option Value
unfolding responses join
build_final_response results = joined (responses results)

abbrev length_fields : Fields → ℕ
length_fields end = 0
length_fields (field k v fs) = suc (length_fields fs)

-- The first hundred characters, for the log: an error for a value with no length or no slices.
abbrev pub has_preview : Value → Bool
has_preview null = false
has_preview (flag b) = false
has_preview (num n) = false
has_preview (text s) = true
has_preview (arr vs) = true
has_preview (pair v w) = true
has_preview (obj fs) = leb (length_fields fs) 100

-- The loop over the results: the error of the first that failed, if one did.
abbrev failed_result : Value → Option Value
failed_result (obj fs) = elim (field_of "success" fs) [
  | some (flag false) ↦ some (get_or null (field_of "error" fs))
  | _ ↦ field_of "error" fs
]
failed_result v = none

unfoldable pub first_failure : List AgentResult → Option Value
unfolding field_of
first_failure [] = none
first_failure (r ∷ rs) = elim (failed_result r.result) [ none ↦ first_failure rs | some e ↦ some e ]

abbrev with_error : Value → Value → Items → Fields
with_error e response results =
    if truthy e
    then field "response" response
        (field "results" (arr results) (field "success" (flag false) (field "error" e end)))
    else field "response" response
        (field "results" (arr results) (field "success" (flag false) end))

abbrev pub response_payload : Option Value → Value → Items → Fields
response_payload none response results =
    field "response" response (field "results" (arr results) (field "success" (flag true) end))
response_payload (some e) response results = with_error e response results
