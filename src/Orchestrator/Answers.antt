-- ===== src/Orchestrator/Answers.antt =====
-- The answers of the lead agent and of the language-understanding agent in
-- jarvis/core/orchestrator.py, and `process_request`, which puts the stages together. Parameters:
-- `text_of` for `str(x)`, `folded` for `s.lower().strip()`, `in_text` for the test whether a text
-- contains another, and `exception_text` for the text of the exception that a result raises when the
-- code takes it for a dictionary.
use jarvis_server.Prelude.{
  String, Bool, true, false, ◌&&◌, Option, none, some, List, [], ◌∷◌, contains, is_empty,
  if◌then◌else◌, get_or, is_some, ◌>>=◌,
}
use jarvis_server.Prelude.Int.{ℤ}
use jarvis_server.Prelude.Dict.{Dict}
use jarvis_server.Prelude.Text.{concat}
use jarvis_server.Value.{
  Value, flag, num, text, arr, pair, obj, nil, cons, Fields, end, field, truthy, field_of,
  set_field, in_items,
}
use jarvis_server.Mission.{MissionBrief}
use jarvis_server.Mission.Codec.{to_dict}
use jarvis_server.Feedback.{is_negative_feedback}
use jarvis_server.Orchestrator.{
  Orchestrator, Wait, answered, expired, wait_raised, World, Caller, store_conversation_turn,
  log_interaction, ask_network, turn_values,
}
use jarvis_server.Orchestrator.Catalog.{build_capability_catalog, listed}
use jarvis_server.Orchestrator.Routing.{
  say, or_else, handle_night_mode, feedback_by, try_protocol_match, Complexity, simple_request,
  complex_request, classify_complexity, mission_brief, copy_found,
}

abbrev as_dict : Value → Option Fields
as_dict (obj fs) = some fs
as_dict _ = none

-- `md.get("intent", result.get("intent", "chat"))`, where a field `metadata` that is no dictionary
-- has no `get`
abbrev intent_in : Option Value → Fields → Option Value
intent_in none fs = some (get_or (text "chat") (field_of "intent" fs))
intent_in (some md) fs = as_dict md >>= λ m.
    some (get_or (get_or (text "chat") (field_of "intent" fs)) (field_of "intent" m))

abbrev pub extract_intent : Value → Option Value
extract_intent (obj fs) = intent_in (field_of "metadata" fs) fs
extract_intent _ = some (text "chat")

-- `{"response": text} if text else result`
abbrev reply_base : Value → Value → Value
reply_base answer result = if truthy answer then say answer else result

abbrev pub store_if : Bool → ℤ → String → Value → Orchestrator → Orchestrator
store_if true user input answer o = store_conversation_turn user input answer o
store_if false user input answer o = o

-- The copies of `success` and `error`, for a result that is a dictionary.
abbrev copy_both : Fields → Fields → Fields
copy_both fs base =
    copy_found (field_of "error" fs) "error" (copy_found (field_of "success" fs) "success" base)

module _ (text_of : Value → String) (folded : String → String) (in_text : String → String → Bool)
    (exception_text : Value → String) where
  -- `_extract_response_text`
  abbrev response_in : Option Value → Value → Value
  response_in none result = text (text_of result)
  response_in (some v) result = v

  unfoldable pub extract_response_text : Value → Value
  extract_response_text (obj fs) = response_in (field_of "response" fs) (obj fs)
  extract_response_text result = text (text_of result)

  -- `_dispatch_mission` once the answer is there. A result that is no dictionary and has an empty text
  -- cannot take the fields, which raises.
  abbrev mission_fields : Value → Fields → Fields
  mission_fields (obj fs) base = copy_both fs base
  mission_fields result base = base

  abbrev mission_reply : String → Value → Option Fields → Option Value
  mission_reply lead result none = none
  mission_reply lead result (some base) = some (
      obj (
        set_field "lead_agent" (text lead)
          (set_field "coordinator" (flag true) (mission_fields result base))))

  abbrev mission_answer :
      String → String → Caller → Value → Value → Orchestrator → Option Value × Orchestrator
  mission_answer lead input caller result answer o = (
    mission_reply lead result (as_dict (reply_base answer result)),
    log_interaction (text "coordinator") true
        (store_if (truthy answer) caller.user_id input answer o),
  )

  abbrev pub mission_end :
      String → String → Caller → Wait → Orchestrator → Option Value × Orchestrator
  mission_end lead input caller (answered result) o =
      mission_answer lead input caller result (extract_response_text result) o
  mission_end lead input caller expired o = (none, o)
  mission_end lead input caller (wait_raised e) o = (none, o)

  -- The data of the request that carries the mission to its lead.
  abbrev mission_payload : MissionBrief → Value
  mission_payload b = obj (
      field "prompt" (text b.user_input) (
        field "input" (text b.user_input) (
          field "mission_brief" (obj (to_dict b)) (
            field "context"
              (obj (field "conversation_history" (arr b.context.conversation_history) end)) end))))

  unfoldable pub dispatch_mission :
      MissionBrief → Caller → World → Orchestrator → Option Value × Orchestrator
  dispatch_mission b caller w o =
      mission_end b.lead_agent b.user_input caller w.mission
        (ask_network b.lead_capability (mission_payload b) (some (b.lead_agent ∷ [])) o)

  abbrev pub lead_mission :
      Complexity
      → Dict (List String)
      → String
      → Caller
      → World
      → Orchestrator
      → Option Value × Orchestrator
  lead_mission simple_request catalog input caller w o = (none, o)
  lead_mission (complex_request lead capability) catalog input caller w o =
      if contains lead o.agents && contains capability (listed lead catalog)
      then dispatch_mission (mission_brief lead capability catalog input caller w o) caller w o
      else (none, o)

  unfoldable pub coordinate_request :
      String → Caller → World → Orchestrator → Option Value × Orchestrator
  unfolding build_capability_catalog classify_complexity
  coordinate_request input caller w o =
      if o.has_ai_client && o.enable_coordinator
      then (let catalog = build_capability_catalog caller.allowed_agents o.capability_registry in
          if is_empty catalog
          then (none, o)
          else lead_mission (classify_complexity w.triage) catalog input caller w o)
      else (none, o)

  -- `key in result` and `result[key]` for any value: `none` is a TypeError.
  abbrev in_value : String → Value → Option Bool
  in_value key (obj fs) = some (is_some (field_of key fs))
  in_value key (arr vs) = some (in_items key vs)
  in_value key (pair v w) = some (in_items key (cons v (cons w nil)))
  in_value key (text s) = some (in_text key s)
  in_value key _ = none

  abbrev copy_into : Option Value → String → Option Fields → Option Value
  copy_into (some v) key (some base) = some (obj (set_field key v base))
  copy_into _ key _ = none

  abbrev copy_if : Option Bool → String → Value → Value → Option Value
  copy_if none key result base = none
  copy_if (some false) key result base = some base
  copy_if (some true) key result base =
      copy_into (as_dict result >>= field_of key) key (as_dict base)

  abbrev nlu_reply : Value → Value → Option Value
  nlu_reply answer result =
      copy_if (in_value "success" result) "success" result (reply_base answer result)
      >>= copy_if (in_value "error" result) "error" result

  -- The `except Exception` branch.
  abbrev nlu_error : String → Orchestrator → Value × Orchestrator
  nlu_error e o = (
    say (text (concat ("Sorry, I encountered an error: " ∷ e ∷ []))),
    log_interaction (text "error") false o,
  )

  abbrev pub or_error : Option Value → Value → Orchestrator → Value × Orchestrator
  or_error none result o = nlu_error (exception_text result) o
  or_error (some reply) result o = (reply, o)

  abbrev pub nlu_answer :
      String → Caller → Value → Value → Option Value → Orchestrator → Value × Orchestrator
  nlu_answer input caller result answer none o = nlu_error (exception_text result) o
  nlu_answer input caller result answer (some intent) o =
      or_error (nlu_reply answer result) result
        (log_interaction intent true (store_if (truthy answer) caller.user_id input answer o))

  abbrev pub nlu_end : String → Caller → Wait → Orchestrator → Value × Orchestrator
  nlu_end input caller (answered result) o =
      nlu_answer input caller result (extract_response_text result) (extract_intent result) o
  nlu_end input caller expired o = (
    say (text "The request took too long to complete. Please try again."),
    log_interaction (text "timeout") false o,
  )
  nlu_end input caller (wait_raised e) o = nlu_error e o

  abbrev nlu_payload : String → Caller → Orchestrator → Value
  nlu_payload input caller o = obj (
      field "input" (text input) (
        field "conversation_history" (arr (turn_values (o.conversation_history caller.user_id)))
          (field "user_id" (num caller.user_id) end)))

  unfoldable pub route_to_nlu : String → Caller → World → Orchestrator → Value × Orchestrator
  route_to_nlu input caller w o =
      nlu_end input caller w.nlu
        (ask_network "intent_matching" (nlu_payload input caller o) caller.allowed_agents o)

  -- The feedback stage.
  unfoldable pub handle_feedback :
      String → Caller → World → Orchestrator → Option Value × Orchestrator
  unfolding is_negative_feedback
  handle_feedback input caller w o =
      feedback_by o.feedback_collector (is_negative_feedback folded input) input caller w o

  -- The stages behind the night mode.
  unfoldable pub route : String → Caller → World → Orchestrator → Value × Orchestrator
  unfolding handle_feedback try_protocol_match coordinate_request route_to_nlu
  route input caller w o = or_else (handle_feedback input caller w o) λ o₁.
      or_else (try_protocol_match w o₁)
        λ o₂. or_else (coordinate_request input caller w o₂) (route_to_nlu input caller w)

  unfoldable pub process_request : String → Caller → World → Orchestrator → Value × Orchestrator
  unfolding handle_night_mode route
  process_request input caller w o =
      if o.night_mode
      then or_else (handle_night_mode w o) (route input caller w)
      else route input caller w o
