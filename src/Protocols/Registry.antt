-- ===== src/Protocols/Registry.antt =====
-- jarvis/protocols/registry.py: the protocols in memory and their rows in the database. `row_of`
-- stands for the row that `save` writes, whose columns hold JSON, and `folded` for
-- `s.strip().lower()`. Items of a dictionary are read by their keys.
use Prim.Native.String.{compare}
use Prim.Native.Nat.{Ordering}
use jarvis_server.Prelude.{
  String, Bool, true, false, ◌&&◌, ◌||◌, Option, none, some, List, [], ◌∷◌, map, str_eq, any,
  if◌then◌else◌, is_some,
}
use jarvis_server.Prelude.Dict.{Dict, get, put, remove, keys}
use jarvis_server.Protocols.{Protocol}

pub record ProtocolRegistry (Row : Type 0) : Type 0 where
  pub protocols : Dict Protocol
  pub rows : Dict Row

-- The answers of `register`.
pub data Registration : Type 0 where
  registered : String → Bool → Registration
  duplicate_name duplicate_triggers : Registration

-- `sorted` of a set, built by insertion
abbrev insert_text : String → List String → List String
insert_text s [] = s ∷ []
insert_text s (t ∷ ts) =
    let rest = insert_text s ts in
    elim (compare s t) [ Ordering.lt ↦ s ∷ t ∷ ts | Ordering.eq ↦ t ∷ ts | Ordering.gt ↦ t ∷ rest ]

abbrev sorted_set : List String → List String
sorted_set [] = []
sorted_set (s ∷ ss) = insert_text s (sorted_set ss)

abbrev same_texts : List String → List String → Bool
same_texts [] [] = true
same_texts [] (t ∷ ts) = false
same_texts (s ∷ ss) [] = false
same_texts (s ∷ ss) (t ∷ ts) = str_eq s t && same_texts ss ts

-- The last key whose protocol passes the test: the loop over `items()` does not stop at the first.
abbrev pub passes_at : (Protocol → Bool) → Option Protocol → Bool
passes_at f none = false
passes_at f (some p) = f p

abbrev pub last_with : (Protocol → Bool) → List String → Dict Protocol → Option String
last_with f [] d = none
last_with f (k ∷ ks) d =
    let rest = last_with f ks d in
    if is_some rest then rest else if passes_at f (get k d) then some k else none

abbrev pub some_with : (Protocol → Bool) → Dict Protocol → Bool
some_with f d = any (λ k. passes_at f (get k d)) (keys d)

module _ (folded : String → String) where
  unfoldable normalize_trigger_phrases : List String → List String
  normalize_trigger_phrases phrases = sorted_set (map folded phrases)

  unfoldable pub same_name : Protocol → Protocol → Bool
  same_name p q = str_eq (folded q.name) (folded p.name)

  unfoldable pub same_triggers : Protocol → Protocol → Bool
  unfolding normalize_trigger_phrases
  same_triggers p q =
      same_texts (normalize_trigger_phrases q.trigger_phrases)
        (normalize_trigger_phrases p.trigger_phrases)

  -- The duplicate that a replacement takes away: one by name, or else one by triggers.
  unfoldable pub duplicate_id : Protocol → Dict Protocol → Option String
  duplicate_id p d =
      let by_name = last_with (same_name p) (keys d) d in
      if is_some by_name then by_name else last_with (same_triggers p) (keys d) d

  module _ {Row : Type 0} where
    unfoldable pub is_duplicate : Protocol → ProtocolRegistry Row → Bool
    is_duplicate p s = some_with (λ q. same_name p q || same_triggers p q) s.protocols

    module _ (row_of : Protocol → Row) where
      -- `save`: INSERT OR REPLACE of every protocol
      abbrev pub save_row : Option Protocol → Dict Row → Dict Row
      save_row none rows = rows
      save_row (some p) rows = put p.id (row_of p) rows

      unfoldable pub save_rows : List String → Dict Protocol → Dict Row → Dict Row
      save_rows [] d rows = rows
      save_rows (k ∷ ks) d rows = save_rows ks d (save_row (get k d) rows)

      unfoldable pub save : ProtocolRegistry Row → ProtocolRegistry Row
      save s = record s { rows = save_rows (keys s.protocols) s.protocols s.rows }

      unfoldable pub drop_duplicate : Option String → ProtocolRegistry Row → ProtocolRegistry Row
      drop_duplicate none s = s
      drop_duplicate (some id) s = record {
        protocols = remove id s.protocols;
        rows = remove id s.rows;
      }

      abbrev pub add_protocol : Protocol → ProtocolRegistry Row → ProtocolRegistry Row
      add_protocol p s = record s { protocols = put p.id p s.protocols }

      unfoldable pub replace :
          Protocol → Option String → ProtocolRegistry Row → Registration × ProtocolRegistry Row
      unfolding save drop_duplicate
      replace p id s = (registered p.id (is_some id), save (add_protocol p (drop_duplicate id s)))

      unfoldable pub register :
          Protocol → Bool → ProtocolRegistry Row → Registration × ProtocolRegistry Row
      unfolding replace duplicate_id
      register p replace_duplicates s =
          if replace_duplicates
          then replace p (duplicate_id p s.protocols) s
          else if some_with (same_name p) s.protocols
          then (duplicate_name, s)
          else if some_with (same_triggers p) s.protocols
          then (duplicate_triggers, s)
          else replace p none s
