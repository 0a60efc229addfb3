-- ===== src/Todo.antt =====
-- jarvis/services/todo_service.py: the board of tasks. The table is the list of its rows in the order
-- of the table; a row keeps the tags as one text. Parameters: the pattern test of SQL (`like`). Times
-- and new ids are arguments.
use jarvis_server.Prelude.{
  ℕ, suc, String, Bool, true, false, not, ◌&&◌, ◌||◌, Option, none, some, List, [], ◌∷◌, ◌++◌,
  str_eq, any, keep, if◌then◌else◌, ◌>>=◌, is_some, get_or,
}
use jarvis_server.Prelude.Text.{concat, join}
pub mod Counts
pub mod Tests

pub data TaskStatus : Type 0 where
  todo in_progress done : TaskStatus

pub data TaskPriority : Type 0 where
  urgent high medium low : TaskPriority

abbrev status_text : TaskStatus → String
status_text todo = "todo"
status_text in_progress = "in_progress"
status_text done = "done"

-- `TaskStatus(value)` and `TaskPriority(value)`, which raise for any other text
abbrev to_status : String → Option TaskStatus
to_status s =
    if str_eq s "todo"
    then some todo
    else if str_eq s "in_progress"
    then some in_progress
    else if str_eq s "done"
    then some done
    else none

abbrev to_priority : String → Option TaskPriority
to_priority s =
    if str_eq s "urgent"
    then some urgent
    else if str_eq s "high"
    then some high
    else if str_eq s "medium"
    then some medium
    else if str_eq s "low"
    then some low
    else none

pub record TodoItem : Type 0 where
  pub id : String
  pub title : String
  pub description : String
  pub status : TaskStatus
  pub priority : TaskPriority
  pub tags : String
  pub due_date : Option String
  pub created_at : String
  pub updated_at : String

-- The keyword arguments of `update`; tags come as a list or as a text.
pub data TodoChange : Type 0 where
  set_title set_description set_status set_priority set_tag_text : String → TodoChange
  set_tags : List String → TodoChange
  set_due_date : Option String → TodoChange
  unknown : String → TodoChange

abbrev is_known_change : TodoChange → Bool
is_known_change (unknown key) = false
is_known_change _ = true

abbrev change_item : TodoChange → TodoItem → Option TodoItem
change_item (set_title v) x = some (record x { title = v })
change_item (set_description v) x = some (record x { description = v })
change_item (set_status v) x = to_status v >>= λ s. some (record x { status = s })
change_item (set_priority v) x = to_priority v >>= λ p. some (record x { priority = p })
change_item (set_tag_text v) x = some (record x { tags = v })
change_item (set_tags ts) x = some (record x { tags = join "," ts })
change_item (set_due_date v) x = some (record x { due_date = v })
change_item (unknown key) x = some x

abbrev change_all : List TodoChange → TodoItem → Option TodoItem
change_all [] x = some x
change_all (c ∷ cs) x = change_item c x >>= change_all cs

abbrev pub find_item : (TodoItem → Bool) → List TodoItem → Option TodoItem
find_item p [] = none
find_item p (x ∷ xs) = if p x then some x else find_item p xs

-- `UPDATE todos SET ... WHERE id = ?`
abbrev pub set_where : String → (TodoItem → TodoItem) → List TodoItem → List TodoItem
set_where id f [] = []
set_where id f (x ∷ xs) = (if str_eq x.id id then f x else x) ∷ set_where id f xs

-- How a call ends: a value, a ValueError, or the IntegrityError of an id that is taken.
pub data TodoOutcome (A : Type 0) : Type 0 where
  returned : A → TodoOutcome A
  bad_value id_taken : TodoOutcome A

abbrev insert_item : TodoItem → List TodoItem → TodoOutcome TodoItem × List TodoItem
insert_item x rows =
    if any (λ r. str_eq r.id x.id) rows then (id_taken, rows) else (returned x, rows ++ x ∷ [])

abbrev create_item :
    String
    → String
    → String
    → Option TaskPriority
    → List String
    → Option String
    → String
    → List TodoItem
    → TodoOutcome TodoItem × List TodoItem
create_item id title description none tags due now rows = (bad_value, rows)
create_item id title description (some p) tags due now rows =
    insert_item
      (record {
        id = id;
        title = title;
        description = description;
        status = todo;
        priority = p;
        tags = join "," tags;
        due_date = due;
        created_at = now;
        updated_at = now;
      })
      rows

unfoldable pub create_todo :
    String
    → String
    → String
    → String
    → List String
    → Option String
    → String
    → List TodoItem
    → TodoOutcome TodoItem × List TodoItem
create_todo id title description priority tags due now rows =
    create_item id title description (to_priority priority) tags due now rows

-- The new row of an update, whose changes are known to apply.
abbrev pub updated_row : List TodoChange → String → TodoItem → TodoItem
updated_row cs now r = record (get_or r (change_all cs r)) { updated_at = now }

module _ (like : String → String → Bool) where
  -- `id = ? OR id LIKE ?`
  abbrev pub matches_todo : String → TodoItem → Bool
  matches_todo key x = str_eq x.id key || like (concat (key ∷ "%" ∷ [])) x.id

  unfoldable pub get_todo : String → List TodoItem → Option TodoItem
  get_todo key rows = find_item (matches_todo key) rows

  unfoldable pub update_found :
      List TodoChange
      → String
      → Option TodoItem
      → List TodoItem
      → TodoOutcome (Option TodoItem) × List TodoItem
  unfolding get_todo
  update_found cs now none rows = (returned none, rows)
  update_found cs now (some x) rows =
      if is_some (change_all cs x)
      then (if any is_known_change cs
          then (let rows' = set_where x.id (updated_row cs now) rows in
              (returned (get_todo x.id rows'), rows'))
          else (returned (some x), rows))
      else (bad_value, rows)

  unfoldable pub update_todo :
      String
      → List TodoChange
      → String
      → List TodoItem
      → TodoOutcome (Option TodoItem) × List TodoItem
  unfolding get_todo update_found
  update_todo key cs now rows = update_found cs now (get_todo key rows) rows

  abbrev delete_found : Option TodoItem → List TodoItem → Bool × List TodoItem
  delete_found none rows = (false, rows)
  delete_found (some x) rows = (true, keep (λ r. not (str_eq r.id x.id)) rows)

  unfoldable pub delete_todo : String → List TodoItem → Bool × List TodoItem
  unfolding get_todo
  delete_todo key rows = delete_found (get_todo key rows) rows

  abbrev pub complete_todo :
      String → String → List TodoItem → TodoOutcome (Option TodoItem) × List TodoItem
  complete_todo key = update_todo key (set_status "done" ∷ [])

  abbrev start_todo :
      String → String → List TodoItem → TodoOutcome (Option TodoItem) × List TodoItem
  start_todo key = update_todo key (set_status "in_progress" ∷ [])

abbrev pub same_status : TaskStatus → TaskStatus → Bool
same_status todo todo = true
same_status in_progress in_progress = true
same_status done done = true
same_status _ _ = false

-- `counts_by_status()[status.value]`
unfoldable pub count_of : TaskStatus → List TodoItem → ℕ
count_of s [] = 0
count_of s (x ∷ xs) = let n = count_of s xs in if same_status s x.status then suc n else n
