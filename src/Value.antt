-- ===== src/Value.antt =====
-- The values that agents exchange: Python's `Any` where it carries JSON-like data. Floats do not
-- occur in the modelled code. `text_of` of the other modules stands for `str(x)`.
use jarvis_server.Prelude.{
  String, ◌≡◌, refl, Bool, true, false, ◌||◌, Option, none, some, List, [], ◌∷◌, arith, str_eq,
  str_eq_iff, contains, if◌then◌else◌, ◌==◌,
}
use jarvis_server.Prelude.Int.{ℤ, pos, negsuc}

mutual
  pub data Value : Type 0 where
    null : Value
    flag : Bool → Value
    num : ℤ → Value
    text : String → Value
    arr : Items → Value
    pair : Value → Value → Value
    obj : Fields → Value

  pub data Items : Type 0 where
    nil : Items
    cons : Value → Items → Items

  pub data Fields : Type 0 where
    end : Fields
    field : String → Value → Fields → Fields

-- Python's truth of a value
abbrev pub truthy : Value → Bool
truthy null = false
truthy (flag b) = b
truthy (num (pos n)) = if n == 0 then false else true
truthy (num (negsuc n)) = true
truthy (text s) = if str_eq s "" then false else true
truthy (arr nil) = false
truthy (arr (cons v vs)) = true
truthy (pair v w) = true
truthy (obj end) = false
truthy (obj (field k v fs)) = true

-- `d.get(k)`, where a missing key and `null` are told apart
unfoldable pub field_of : String → Fields → Option Value
field_of k end = none
field_of k (field j v fs) = if str_eq j k then some v else field_of k fs

-- `d[k] = v`
unfoldable pub set_field : String → Value → Fields → Fields
set_field k v end = field k v end
set_field k v (field j w fs) = if str_eq j k then field j v fs else field j w (set_field k v fs)

-- `list(names)` for a collection of texts
unfoldable pub texts : List String → Items
texts [] = nil
texts (s ∷ ss) = cons (text s) (texts ss)

abbrev is_text : String → Value → Bool
is_text s (text t) = str_eq t s
is_text s v = false

-- `s in xs`
unfoldable pub in_items : String → Items → Bool
in_items s nil = false
in_items s (cons v vs) = is_text s v || in_items s vs

pub in_items-texts : (s : String) (ss : List String) → in_items s (texts ss) ≡ contains s ss
unfolding in_items texts
in_items-texts s [] = refl
in_items-texts s (t ∷ ss) = ground (arith, in_items-texts s ss)

pub field_of-set_field :
    (k j : String) (v : Value) (fs : Fields)
    → field_of j (set_field k v fs) ≡ (if str_eq k j then some v else field_of j fs)
unfolding field_of set_field
field_of-set_field k j v end = refl
field_of-set_field k j v (field i w fs) =
    ground (arith, field_of-set_field k j v fs, str_eq_iff i k, str_eq_iff i j, str_eq_iff k j)
