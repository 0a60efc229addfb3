-- ===== src/Mission/Codec.antt =====
-- `to_dict` and `from_dict` of MissionBrief, over the values that messages carry. `from_dict` of a
-- value of another shape than `to_dict` writes is `none` here.
use jarvis_server.Prelude.{
  ℕ, String, ◌≡◌, refl, Option, none, some, List, [], ◌∷◌, str_eq, if◌then◌else◌, ◌>>=◌,
}
use jarvis_server.Prelude.Int.{ℤ, pos}
use jarvis_server.Prelude.Dict.{Dict}
use jarvis_server.Value.{
  Value, Items, Fields, num, text, arr, obj, nil, cons, end, field, field_of, texts,
}
use jarvis_server.Mission.{
  MissionComplexity, simple, complex, MissionBudget, RecruitmentResult, MissionContext,
  MissionBrief,
}

abbrev complexity_value : MissionComplexity → String
complexity_value simple = "simple"
complexity_value complex = "complex"

-- `MissionComplexity(s)`, which raises for any other text
abbrev to_complexity : String → Option MissionComplexity
to_complexity s =
    if str_eq s "simple" then some simple else if str_eq s "complex" then some complex else none

result_to_value : RecruitmentResult → Value
result_to_value r = obj (
    field "agent" (text r.agent)
      (field "capability" (text r.capability) (field "result" r.result end)))

results_to_items : List RecruitmentResult → Items
results_to_items [] = nil
results_to_items (r ∷ rs) = cons (result_to_value r) (results_to_items rs)

caps_to_fields : Dict (List String) → Fields
caps_to_fields [] = end
caps_to_fields ((k, caps) ∷ m) = field k (arr (texts caps)) (caps_to_fields m)

budget_to_dict : MissionBudget → Fields
budget_to_dict b = field "max_depth" (num b.max_depth) (
    field "remaining_depth" (num b.remaining_depth) (
      field "deadline" (num (pos b.deadline)) (
        field "max_recruitments" (num b.max_recruitments)
          (field "remaining_recruitments" (num b.remaining_recruitments) end))))

context_to_dict : MissionContext → Fields
context_to_dict c = field "user_input" (text c.user_input) (
    field "conversation_history" (arr c.conversation_history) (
      field "recruitment_results" (arr (results_to_items c.recruitment_results))
        (field "recruitment_chain" (arr (texts c.recruitment_chain)) end)))

pub to_dict : MissionBrief → Fields
unfolding budget_to_dict context_to_dict
to_dict b = field "user_input" (text b.user_input) (
    field "complexity" (text (complexity_value b.complexity)) (
      field "lead_agent" (text b.lead_agent) (
        field "lead_capability" (text b.lead_capability) (
          field "budget" (obj (budget_to_dict b.budget)) (
            field "context" (obj (context_to_dict b.context)) (
              field "available_capabilities" (obj (caps_to_fields b.available_capabilities))
                (field "metadata" (obj b.metadata) end)))))))

as_text : Value → Option String
as_text (text s) = some s
as_text v = none

as_int : Value → Option ℤ
as_int (num n) = some n
as_int v = none

as_time : Value → Option ℕ
as_time (num (pos n)) = some n
as_time v = none

as_items : Value → Option Items
as_items (arr xs) = some xs
as_items v = none

as_fields : Value → Option Fields
as_fields (obj fs) = some fs
as_fields v = none

to_texts : Items → Option (List String)
unfolding as_text
to_texts nil = some []
to_texts (cons v vs) = do s ← as_text v; ss ← to_texts vs; some (s ∷ ss)

value_to_result : Value → Option RecruitmentResult
unfolding as_fields as_text field_of
value_to_result v = do
  fs ← as_fields v
  agent ← field_of "agent" fs >>= as_text
  capability ← field_of "capability" fs >>= as_text
  result ← field_of "result" fs
  some (record { agent = agent; capability = capability; result = result })

items_to_results : Items → Option (List RecruitmentResult)
items_to_results nil = some []
items_to_results (cons v vs) = do r ← value_to_result v; rs ← items_to_results vs; some (r ∷ rs)

fields_to_caps : Fields → Option (Dict (List String))
fields_to_caps end = some []
fields_to_caps (field k v fs) = do
  caps ← as_items v >>= to_texts
  rest ← fields_to_caps fs
  some ((k, caps) ∷ rest)

-- `data.get(key, default)`, read at the type of the field
read : {A : Type 0} → (Value → Option A) → String → A → Fields → Option A
unfolding field_of
read decode key default fs = elim (field_of key fs) [ none ↦ some default | some v ↦ decode v ]

budget_from_dict : Fields → Option MissionBudget
unfolding read as_int as_time
budget_from_dict fs = do
  max_depth ← read as_int "max_depth" (pos 3) fs
  remaining_depth ← read as_int "remaining_depth" (pos 3) fs
  deadline ← read as_time "deadline" 0 fs
  max_recruitments ← read as_int "max_recruitments" (pos 5) fs
  remaining_recruitments ← read as_int "remaining_recruitments" (pos 5) fs
  some (record {
    max_depth = max_depth;
    remaining_depth = remaining_depth;
    deadline = deadline;
    max_recruitments = max_recruitments;
    remaining_recruitments = remaining_recruitments;
  })

context_from_dict : Fields → Option MissionContext
unfolding read as_text as_items
context_from_dict fs = do
  user_input ← read as_text "user_input" "" fs
  history ← read as_items "conversation_history" nil fs
  results ← read as_items "recruitment_results" nil fs >>= items_to_results
  chain ← read as_items "recruitment_chain" nil fs >>= to_texts
  some (record {
    user_input = user_input;
    conversation_history = history;
    recruitment_results = results;
    recruitment_chain = chain;
  })

pub from_dict : Fields → Option MissionBrief
unfolding read as_text as_fields budget_from_dict context_from_dict
from_dict fs = do
  budget ← read as_fields "budget" end fs >>= budget_from_dict
  context ← read as_fields "context" end fs >>= context_from_dict
  user_input ← read as_text "user_input" "" fs
  complexity ← read as_text "complexity" "simple" fs >>= to_complexity
  lead_agent ← read as_text "lead_agent" "" fs
  lead_capability ← read as_text "lead_capability" "" fs
  caps ← read as_fields "available_capabilities" end fs >>= fields_to_caps
  metadata ← read as_fields "metadata" end fs
  some (record {
    user_input = user_input;
    complexity = complexity;
    lead_agent = lead_agent;
    lead_capability = lead_capability;
    budget = budget;
    context = context;
    available_capabilities = caps;
    metadata = metadata;
  })

to_texts-texts : (ss : List String) → to_texts (texts ss) ≡ some ss
unfolding to_texts texts
to_texts-texts [] = refl
to_texts-texts (s ∷ ss) = rw (to_texts-texts ss)

items_to_results-results_to_items :
    (rs : List RecruitmentResult) → items_to_results (results_to_items rs) ≡ some rs
unfolding items_to_results results_to_items value_to_result result_to_value
items_to_results-results_to_items [] = refl
items_to_results-results_to_items (r ∷ rs) = rw (items_to_results-results_to_items rs)

fields_to_caps-caps_to_fields :
    (m : Dict (List String)) → fields_to_caps (caps_to_fields m) ≡ some m
unfolding fields_to_caps caps_to_fields as_items
fields_to_caps-caps_to_fields [] = refl
fields_to_caps-caps_to_fields ((k, caps) ∷ m) =
    rw (to_texts-texts caps) (rw (fields_to_caps-caps_to_fields m))

to_complexity-complexity_value :
    (c : MissionComplexity) → to_complexity (complexity_value c) ≡ some c
to_complexity-complexity_value simple = refl
to_complexity-complexity_value complex = refl

-- A brief survives the dictionary form in which it travels to the lead agent: reading what
-- `to_dict` wrote gives the brief back, with every count of its budget, the results, the chain and
-- the capabilities.
pub from_dict-to_dict : (b : MissionBrief) → from_dict (to_dict b) ≡ some b
unfolding from_dict to_dict
from_dict-to_dict b = simp (
  to_texts-texts, items_to_results-results_to_items, fields_to_caps-caps_to_fields,
  to_complexity-complexity_value,
)
