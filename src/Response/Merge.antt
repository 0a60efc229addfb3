-- ===== src/Response/Merge.antt =====
-- `merge_responses` of jarvis/agents/response.py; `none` is a TypeError. Parameters: what iterating
-- over a value that is no list gives (`items_of`), and what `dict.update` does with a value that is no
-- dictionary (`update_with`).
use jarvis_server.Prelude.{
  String, Option, none, some, List, [], ◌∷◌, if◌then◌else◌, length, all, ◌>>=◌,
}
use jarvis_server.Prelude.Int.{pos}
use jarvis_server.Prelude.Text.{join}
use jarvis_server.Value.{
  Value, null, flag, num, text, arr, obj, Items, nil, cons, Fields, end, field, truthy, set_field,
}
use jarvis_server.Response.{ErrorInfo, AgentResponse, success_response}

abbrev append_items : Items → Items → Items
append_items nil ws = ws
append_items (cons v vs) ws = cons v (append_items vs ws)

-- `merged.update(fs)`
abbrev update_fields : Fields → Fields → Fields
update_fields merged end = merged
update_fields merged (field k v fs) = update_fields (set_field k v merged) fs

abbrev or_some : {A : Type 0} → Option A → Option A → Option A
or_some none o = o
or_some (some a) o = some a

abbrev first_error : List AgentResponse → Option ErrorInfo
first_error [] = none
first_error (r ∷ rs) = or_some r.error (first_error rs)

-- The truthy responses, which `" ".join` takes if they are texts.
abbrev pub as_text : Value → Option String
as_text (text s) = some s
as_text _ = none

abbrev response_texts : List AgentResponse → Option (List String)
response_texts [] = some []
response_texts (r ∷ rs) =
    let rest = response_texts rs in
    if truthy r.response then (as_text r.response >>= λ s. rest >>= λ ss. some (s ∷ ss)) else rest

abbrev dict_or_none : Fields → Value
dict_or_none end = null
dict_or_none fs = obj fs

module _ (items_of : Value → Option Items) (update_with : Fields → Value → Option Fields) where
  abbrev pub items : Value → Option Items
  items (arr vs) = some vs
  items v = items_of v

  abbrev merged_actions : List AgentResponse → Option Items
  merged_actions [] = some nil
  merged_actions (r ∷ rs) =
      items r.actions >>= λ vs. merged_actions rs >>= λ ws. some (append_items vs ws)

  abbrev update_data : Fields → Value → Option Fields
  update_data merged (obj fs) = some (update_fields merged fs)
  update_data merged v = if truthy v then update_with merged v else some merged

  abbrev merged_data : Fields → List AgentResponse → Option Fields
  merged_data merged [] = some merged
  merged_data merged (r ∷ rs) = update_data merged r.payload >>= λ m. merged_data m rs

  abbrev merge_many : List AgentResponse → Option AgentResponse
  merge_many rs = response_texts rs >>= λ ss. merged_actions rs >>= λ vs.
      merged_data end rs >>= λ fs. some (record {
        success = flag (all (λ r. truthy r.success) rs);
        response = text (join " " ss);
        actions = arr vs;
        payload = dict_or_none fs;
        metadata = obj (field "merged_from" (num (pos (length rs))) end);
        error = first_error rs;
      })

  unfoldable pub merge_responses : List AgentResponse → Option AgentResponse
  merge_responses [] = some (success_response "No responses to merge")
  merge_responses (r ∷ []) = some r
  merge_responses (r ∷ q ∷ rs) = merge_many (r ∷ q ∷ rs)
