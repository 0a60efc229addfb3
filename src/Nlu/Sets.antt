-- ===== src/Nlu/Sets.antt =====
-- Sets that are kept as lists of texts, as the execution of a graph in
-- jarvis/agents/nlu_agent/__init__.py uses them, and the ids of its sub-requests.
use Prim.Native.Char.{code}
use Prim.Native.String.{◌++◌ as append_text}
use text.Mathlib.TextLemmas.{append-nil, nil-append, cons-append}
use jarvis_server.Prelude.{
  ◌≤◌, ◌<◌, String, ◌≡◌, refl, ap, sym, ◌∙◌, Bool, true, false, not, ◌&&◌, ◌||◌, none, some, List,
  [], ◌∷◌, arith, inl, inr, str_eq, str_eq_iff, length, contains, contains-keep, Bool-cases, ◌==◌,
}
use jarvis_server.Prelude.Text.{concat}
use jarvis_server.Nlu.Requests.{split_id}
use jarvis_server.Nlu.Run.{add, discard, sub_id}

abbrev pub is_distinct : List String → Bool
is_distinct [] = true
is_distinct (x ∷ xs) = not (contains x xs) && is_distinct xs

abbrev pub Within : List String → List String → Type 0
Within xs ys = (x : String) → contains x xs ≡ true → contains x ys ≡ true

pub contains-add :
    (x y : String) (xs : List String) → contains y (add x xs) ≡ (str_eq x y || contains y xs)
contains-add x y xs = ground (arith, str_eq_iff x y)

pub contains-discard :
    (x y : String) (xs : List String)
    → contains y (discard x xs) ≡ (contains y xs && not (str_eq y x))
contains-discard x y xs = contains-keep (λ z. not (str_eq z x)) y xs

pub is_distinct-add :
    (x : String) (xs : List String) → is_distinct xs ≡ true → is_distinct (add x xs) ≡ true
is_distinct-add x xs h = ground arith

length-discard_le : (x : String) (xs : List String) → length (discard x xs) ≤ length xs
length-discard_le x [] = omega arith
length-discard_le x (y ∷ ys) = ground (arith, length-discard_le x ys)

pub length-discard_lt :
    (x : String) (xs : List String) → contains x xs ≡ true → length (discard x xs) < length xs
length-discard_lt x [] h = cc
length-discard_lt x (y ∷ ys) h =
    ground (arith, length-discard_lt x ys, length-discard_le x ys, str_eq_iff y x)

-- A list of distinct names is not longer than a list that has them all.
pub length-Within :
    (xs ys : List String) → is_distinct xs ≡ true → Within xs ys → length xs ≤ length ys
length-Within [] ys d w = omega arith
length-Within (x ∷ xs) ys d w = omega (
  arith,
  length-discard_lt x ys (w x (ground (arith, str_eq_iff x x))),
  length-Within xs (discard x ys) (ground arith)
      (λ y h. ground (arith, contains-discard x y ys, w y, str_eq_iff y x)),
)

colon-append : (t : String) → append_text ":" t ≡ String.◌∷◌ ":" t
colon-append t = cons-append ":" "" t ∙ ap (String.◌∷◌ ":") (nil-append t)

split_id-colon : (t : String) → split_id (append_text ":" t) ≡ some ("", t)
unfolding split_id
split_id-colon t = rw (colon-append t) refl

split_id-append :
    (rid cap : String)
    → split_id rid ≡ none
    → split_id (append_text rid (append_text ":" cap)) ≡ some (rid, cap)
unfolding split_id
split_id-append String.[] cap h =
    ap split_id (nil-append (append_text ":" cap)) ∙ split_id-colon cap
split_id-append (String.◌∷◌ c s) cap h = elim (Bool-cases (code c == 58)) [
  | inl e ↦ ground (arith, e)
  | inr e ↦
      let ih = split_id-append s cap (ground (arith, e)) in
      ap split_id (cons-append c s (append_text ":" cap)) ∙ rw e (rw ih refl)
]

-- The id of a sub-request leads back to its request and its capability, if the id of the request has
-- no colon.
pub split_id-sub_id :
    (rid cap : String) → split_id rid ≡ none → split_id (sub_id rid cap) ≡ some (rid, cap)
unfolding concat
split_id-sub_id rid cap h =
    ap (λ (s : String). split_id (append_text rid (append_text ":" s))) (append-nil cap)
    ∙ split_id-append rid cap h

clash : {p : String × String} → some p ≡ none → ⊥
clash e = cc

pub sub_id-ne : (rid cap : String) → split_id rid ≡ none → str_eq (sub_id rid cap) rid ≡ false
sub_id-ne rid cap h = elim (Bool-cases (str_eq (sub_id rid cap) rid)) [
  | inr e ↦ e
  | inl e ↦ absurd (
      clash
        (sym (split_id-sub_id rid cap h) ∙ ap split_id ((str_eq_iff (sub_id rid cap) rid).0 e) ∙ h))
]
