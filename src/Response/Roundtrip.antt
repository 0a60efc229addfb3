-- ===== src/Response/Roundtrip.antt =====
-- Reading back the dictionary form of a response, for jarvis/agents/response.py.
use jarvis_server.Prelude.{
  String, ◌≡◌, refl, sym, ap, ◌∙◌, true, false, Option, none, some, ◌⊎◌, inl, inr, str_eq,
  str_eq_iff, if◌then◌else◌, get_or, Bool-cases,
}
use jarvis_server.Value.{
  Value, null, flag, num, text, arr, pair, obj, nil, Fields, end, field, truthy, field_of,
  field_of-set_field,
}
use jarvis_server.Response.{
  ErrorSeverity, warning, error, critical, ErrorInfo, AgentResponse, severity_value, to_severity,
  set_truthy, set_present, field_or, error_to_dict, error_from_dict, set_error, to_dict, error_in,
  from_dict,
}

-- A value that the code leaves out when it is falsy, and reads back as the default.
abbrev IsKept : Value → Value → Type 0
IsKept default v = (truthy v ≡ true) ⊎ (v ≡ default)

field_of-set_truthy :
    (key j : String) (v : Value) (fs : Fields)
    → field_of j (set_truthy key v fs)
      ≡ (if truthy v then (if str_eq key j then some v else field_of j fs) else field_of j fs)
field_of-set_truthy key j v fs = elim (Bool-cases (truthy v)) [
  | inl e ↦ rw e (field_of-set_field key j v fs)
  | inr e ↦ rw e refl
]

to_severity-severity_value : (s : ErrorSeverity) → to_severity (text (severity_value s)) ≡ some s
to_severity-severity_value warning = refl
to_severity-severity_value error = refl
to_severity-severity_value critical = refl

-- What `error.to_dict` drops and `from_dict` restores.
pub record IsNormalError (e : ErrorInfo) : Type 0 where
  pub type_kept : IsKept null e.error_type
  pub details_kept : IsKept null e.details

str_eq_self : (s : String) → str_eq s s ≡ true
str_eq_self s = (str_eq_iff s s).1 refl

abbrev first_present : Value → Option Value → Option Value
first_present null o = o
first_present v o = some v

field_of-set_present :
    (key j : String) (v : Value) (fs : Fields)
    → field_of j (set_present key v fs)
      ≡ (if str_eq key j then first_present v (field_of j fs) else field_of j fs)
field_of-set_present key j null fs = elim (Bool-cases (str_eq key j)) [
  | inl e ↦ rw e refl
  | inr e ↦ rw e refl
]
field_of-set_present key j (flag b) fs = field_of-set_field key j (flag b) fs
field_of-set_present key j (num n) fs = field_of-set_field key j (num n) fs
field_of-set_present key j (text s) fs = field_of-set_field key j (text s) fs
field_of-set_present key j (arr vs) fs = field_of-set_field key j (arr vs) fs
field_of-set_present key j (pair v w) fs = field_of-set_field key j (pair v w) fs
field_of-set_present key j (obj gs) fs = field_of-set_field key j (obj gs) fs

present_or_null : (v : Value) → get_or null (first_present v none) ≡ v
present_or_null null = refl
present_or_null (flag b) = refl
present_or_null (num n) = refl
present_or_null (text s) = refl
present_or_null (arr vs) = refl
present_or_null (pair v w) = refl
present_or_null (obj fs) = refl

kept_or_default :
    (default v : Value) → IsKept default v → get_or default (if truthy v then some v else none) ≡ v
kept_or_default default v (inl e) = rw e refl
kept_or_default default v (inr e) = elim (Bool-cases (truthy v)) [
  | inl t ↦ rw t refl
  | inr t ↦ rw t (sym e)
]

skip_truthy :
    (key j : String) (v : Value) (fs : Fields)
    → str_eq key j ≡ false
    → field_of j (set_truthy key v fs) ≡ field_of j fs
skip_truthy key j v fs d = elim (Bool-cases (truthy v)) [
  | inl e ↦ rw e (field_of-set_field key j v fs ∙ rw d refl)
  | inr e ↦ rw e refl
]

skip_present :
    (key j : String) (v : Value) (fs : Fields)
    → str_eq key j ≡ false
    → field_of j (set_present key v fs) ≡ field_of j fs
skip_present key j v fs d = field_of-set_present key j v fs ∙ rw d refl

hit_truthy :
    (default : Value) (key : String) (v : Value) (fs : Fields)
    → field_of key fs ≡ none
    → IsKept default v
    → field_or default key (set_truthy key v fs) ≡ v
hit_truthy default key v fs a k =
    ap (get_or default) (field_of-set_truthy key key v fs)
    ∙ rw (str_eq_self key) (rw a (kept_or_default default v k))

hit_present :
    (key : String) (v : Value) (fs : Fields)
    → field_of key fs ≡ none
    → field_or null key (set_present key v fs) ≡ v
hit_present key v fs a =
    ap (get_or null) (field_of-set_present key key v fs)
    ∙ rw (str_eq_self key) (rw a (present_or_null v))

module _ (e : ErrorInfo) where
  abbrev head : Fields
  head = field "message" e.message (field "severity" (text (severity_value e.severity)) end)

  abbrev typed : Fields
  typed = set_truthy "error_type" e.error_type head

  abbrev detailed : Fields
  detailed = set_truthy "details" e.details typed

  head_field :
      (j : String)
      → str_eq "retry_after" j ≡ false
      → str_eq "details" j ≡ false
      → str_eq "error_type" j ≡ false
      → field_of j (error_to_dict e) ≡ field_of j head
  unfolding error_to_dict
  head_field j a b c =
      skip_present "retry_after" j e.retry_after detailed a
      ∙ skip_truthy "details" j e.details typed b
      ∙ skip_truthy "error_type" j e.error_type head c

  head_message : field_of "message" head ≡ some e.message
  unfolding field_of
  head_message = refl

  retry_field : field_or null "retry_after" (error_to_dict e) ≡ e.retry_after
  unfolding error_to_dict field_of
  retry_field = hit_present "retry_after" e.retry_after detailed (
      skip_truthy "details" "retry_after" e.details typed refl
      ∙ skip_truthy "error_type" "retry_after" e.error_type head refl)

  details_field : IsKept null e.details → field_or null "details" (error_to_dict e) ≡ e.details
  unfolding error_to_dict field_of
  details_field k =
      ap (get_or null) (skip_present "retry_after" "details" e.retry_after detailed refl)
      ∙ hit_truthy null "details" e.details typed
          (skip_truthy "error_type" "details" e.error_type head refl) k

  type_field :
      IsKept null e.error_type → field_or null "error_type" (error_to_dict e) ≡ e.error_type
  unfolding error_to_dict field_of
  type_field k =
      ap (get_or null) (
        skip_present "retry_after" "error_type" e.retry_after detailed refl
        ∙ skip_truthy "details" "error_type" e.details typed refl)
      ∙ hit_truthy null "error_type" e.error_type head refl k

  error_from_dict-error_to_dict : IsNormalError e → error_from_dict (error_to_dict e) ≡ some e
  unfolding error_from_dict field_of
  error_from_dict-error_to_dict n = rw (head_field "severity" refl refl refl) (
      rw (head_field "message" refl refl refl) (
        rw (to_severity-severity_value e.severity)
          (rw retry_field (rw (details_field n.details_kept) (rw (type_field n.type_kept) refl)))))

truthy_of_field :
    (key : String) (v : Value) (fs : Fields) → field_of key fs ≡ some v → truthy (obj fs) ≡ true
unfolding field_of
truthy_of_field key v end h = cc
truthy_of_field key v (field j w fs) h = refl

skip_error :
    (j : String) (o : Option ErrorInfo) (fs : Fields)
    → str_eq "error" j ≡ false
    → field_of j (set_error o fs) ≡ field_of j fs
skip_error j none fs d = refl
skip_error j (some e) fs d = field_of-set_field "error" j (obj (error_to_dict e)) fs ∙ rw d refl

-- What `to_dict` leaves out and `from_dict` puts back: falsy actions are the empty list, and so on.
pub record IsNormal (r : AgentResponse) : Type 0 where
  pub actions_kept : IsKept (arr nil) r.actions
  pub error_kept : (e : ErrorInfo) → r.error ≡ some e → IsNormalError e

error_in-set_error :
    (o : Option ErrorInfo) (fs : Fields)
    → field_of "error" fs ≡ none
    → ((e : ErrorInfo) → o ≡ some e → IsNormalError e)
    → error_in (field_or null "error" (set_error o fs)) ≡ some o
error_in-set_error none fs a n = rw a refl
error_in-set_error (some e) fs a n =
    let message = head_field e "message" refl refl refl ∙ head_message e in
    rw (field_of-set_field "error" "error" (obj (error_to_dict e)) fs) (
      rw (truthy_of_field "message" e.message (error_to_dict e) message)
        (rw (error_from_dict-error_to_dict e (n e refl)) refl))

module _ (r : AgentResponse) where
  abbrev plain : Fields
  plain = field "success" r.success (field "response" r.response end)

  abbrev acted : Fields
  acted = set_truthy "actions" r.actions plain

  abbrev filled : Fields
  filled = set_present "data" r.payload acted

  abbrev labelled : Fields
  labelled = set_present "metadata" r.metadata filled

  below_error :
      (j : String) → str_eq "error" j ≡ false → field_of j (to_dict r) ≡ field_of j labelled
  unfolding to_dict
  below_error j d = skip_error j r.error labelled d

  plain_field :
      (j : String)
      → str_eq "error" j ≡ false
      → str_eq "metadata" j ≡ false
      → str_eq "data" j ≡ false
      → str_eq "actions" j ≡ false
      → field_of j (to_dict r) ≡ field_of j plain
  plain_field j a b c d =
      below_error j a
      ∙ skip_present "metadata" j r.metadata filled b
      ∙ skip_present "data" j r.payload acted c
      ∙ skip_truthy "actions" j r.actions plain d

  actions_field : IsKept (arr nil) r.actions → field_or (arr nil) "actions" (to_dict r) ≡ r.actions
  unfolding field_of
  actions_field k =
      ap (get_or (arr nil)) (
        below_error "actions" refl
        ∙ skip_present "metadata" "actions" r.metadata filled refl
        ∙ skip_present "data" "actions" r.payload acted refl)
      ∙ hit_truthy (arr nil) "actions" r.actions plain refl k

  data_field : field_or null "data" (to_dict r) ≡ r.payload
  unfolding field_of
  data_field =
      ap (get_or null)
        (below_error "data" refl ∙ skip_present "metadata" "data" r.metadata filled refl)
      ∙ hit_present "data" r.payload acted (skip_truthy "actions" "data" r.actions plain refl)

  metadata_field : field_or null "metadata" (to_dict r) ≡ r.metadata
  unfolding field_of
  metadata_field =
      ap (get_or null) (below_error "metadata" refl)
      ∙ hit_present "metadata" r.metadata filled (
          skip_present "data" "metadata" r.payload acted refl
          ∙ skip_truthy "actions" "metadata" r.actions plain refl)

  error_field :
      ((e : ErrorInfo) → r.error ≡ some e → IsNormalError e)
      → error_in (field_or null "error" (to_dict r)) ≡ some r.error
  unfolding to_dict field_of
  error_field n =
      error_in-set_error r.error labelled
        (skip_present "metadata" "error" r.metadata filled refl
          ∙ skip_present "data" "error" r.payload acted refl
          ∙ skip_truthy "actions" "error" r.actions plain refl)
        n

-- A response survives the dictionary form in which it travels: reading what `to_dict` wrote gives it
-- back, for a response whose falsy actions are the empty list and whose error has no falsy type or
-- details but None. These are what `to_dict` leaves out.
pub from_dict-to_dict_response : (r : AgentResponse) → IsNormal r → from_dict (to_dict r) ≡ some r
unfolding from_dict field_of
from_dict-to_dict_response r n = rw (error_field r n.error_kept) (
    rw (plain_field r "success" refl refl refl refl) (
      rw (plain_field r "response" refl refl refl refl)
        (rw (actions_field r n.actions_kept) (rw (data_field r) (rw (metadata_field r) refl)))))
