-- ===== src/Feedback.antt =====
-- jarvis/core/feedback.py: negative feedback and the file of corrections. The file is the list of its
-- records; a line that is no JSON never arises from `log_correction` and is left out. `folded` stands
-- for `text.lower().strip()`, and times and ids are arguments.
use jarvis_server.Prelude.{
  ◌≡◌, refl, arith, Bool-cases, inl, inr, ℕ, suc, last_n, last_n-append, keep-append, String, Bool,
  true, false, not, ◌&&◌, Option, none, some, List, [], ◌∷◌, ◌++◌, str_eq, keep, any, contains,
  if◌then◌else◌,
}
use jarvis_server.Prelude.Int.{ℤ, pos, eq_ℤ, eq_ℤ_self, last_slice}
use jarvis_server.Value.{Value}

pub record Correction : Type 0 where
  pub id : String
  pub timestamp : String
  pub user_id : ℤ
  pub original_input : String
  pub bad_response : Value
  pub feedback_text : String
  pub intent : Option String
  pub capability : Option String
  pub resolved : Bool

pub record FeedbackCollector : Type 0 where
  pub corrections : List Correction

abbrev feedback_triggers : List String
feedback_triggers =
    "bad!" ∷ "bad" ∷ "wrong" ∷ "terrible" ∷ "awful" ∷ "no!" ∷ "that's wrong" ∷ "incorrect" ∷ []

unfoldable pub is_negative_feedback : (String → String) → String → Bool
is_negative_feedback folded s = contains (folded s) feedback_triggers

abbrev new_correction :
    String → String → ℤ → String → Value → String → Option String → Option String → Correction
new_correction id timestamp user input bad feedback intent capability = record {
  id = id;
  timestamp = timestamp;
  user_id = user;
  original_input = input;
  bad_response = bad;
  feedback_text = feedback;
  intent = intent;
  capability = capability;
  resolved = false;
}

unfoldable pub log_correction :
    String
    → String
    → ℤ
    → String
    → Value
    → String
    → Option String
    → Option String
    → FeedbackCollector
    → FeedbackCollector
log_correction id timestamp user input bad feedback intent capability c = record {
  corrections =
      c.corrections ++ new_correction id timestamp user input bad feedback intent capability ∷ [];
}

abbrev is_of_user : Option ℤ → Correction → Bool
is_of_user none r = true
is_of_user (some u) r = eq_ℤ r.user_id u

abbrev is_open : Option ℤ → Correction → Bool
is_open user r = not r.resolved && is_of_user user r

-- `records[-limit:]` of the open records
unfoldable get_corrections : ℤ → Option ℤ → FeedbackCollector → List Correction
get_corrections limit user c = last_slice limit (keep (is_open user) c.corrections)

abbrev resolve : String → List Correction → List Correction
resolve id [] = []
resolve id (r ∷ rs) = (if str_eq r.id id then record r { resolved = true } else r) ∷ resolve id rs

-- The file is written again only if a record has the id.
unfoldable mark_resolved : String → FeedbackCollector → Bool × FeedbackCollector
mark_resolved id c =
    if any (λ r. str_eq r.id id) c.corrections
    then (true, record { corrections = resolve id c.corrections })
    else (false, c)

abbrev open_before : String → Option ℤ → List Correction → List Correction
open_before id user rs = keep (λ r. is_open user r && not (str_eq r.id id)) rs

keep-resolve :
    (id : String) (user : Option ℤ) (rs : List Correction)
    → keep (is_open user) (resolve id rs) ≡ open_before id user rs
keep-resolve id user [] = refl
keep-resolve id user (r ∷ rs) = elim (Bool-cases (str_eq r.id id)) [
  | inl e ↦ rw e (ground (arith, keep-resolve id user rs))
  | inr e ↦ rw e (ground (arith, keep-resolve id user rs))
]

open_absent :
    (id : String) (user : Option ℤ) (rs : List Correction)
    → any (λ r. str_eq r.id id) rs ≡ false
    → keep (is_open user) rs ≡ open_before id user rs
open_absent id user [] h = refl
open_absent id user (r ∷ rs) h = ground (arith, open_absent id user rs)

-- Once a correction is marked as resolved, the corrections of any user and limit are the last of the
-- open ones without it, whether or not the file had a record with that id.
get_corrections-mark_resolved :
    (limit : ℤ) (user : Option ℤ) (id : String) (c : FeedbackCollector)
    → get_corrections limit user (mark_resolved id c).1
      ≡ last_slice limit (open_before id user c.corrections)
unfolding get_corrections mark_resolved
get_corrections-mark_resolved limit user id c =
    elim (Bool-cases (any (λ r. str_eq r.id id) c.corrections)) [
      | inl e ↦ rw e (rw (keep-resolve id user c.corrections) refl)
      | inr e ↦ rw e (rw (open_absent id user c.corrections e) refl)
    ]

-- A correction that is logged is the last one that its user is shown, behind the `n` newest of the
-- open ones before it, for any limit `n + 1`.
get_corrections-log_correction :
    (n : ℕ) (id timestamp : String) (user : ℤ) (input : String) (bad : Value) (feedback : String)
    (intent capability : Option String) (c : FeedbackCollector)
    → get_corrections
        (pos (suc n))
        (some user)
        (log_correction id timestamp user input bad feedback intent capability c)
      ≡ last_n n (keep (is_open (some user)) c.corrections)
        ++ new_correction id timestamp user input bad feedback intent capability ∷ []
unfolding get_corrections log_correction
get_corrections-log_correction n id timestamp user input bad feedback intent capability c =
    let r = new_correction id timestamp user input bad feedback intent capability in
    rw (keep-append (is_open (some user)) c.corrections (r ∷ []))
      (rw (eq_ℤ_self user) (last_n-append n r (keep (is_open (some user)) c.corrections)))
