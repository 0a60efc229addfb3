-- ===== src/Todo/Tests.antt =====
-- An instance of the theorem on jarvis/services/todo_service.py, and runs of its operations.
use jarvis_server.Prelude.{
  ◌+◌, String, ◌≡◌, refl, Bool, true, ◌&&◌, ◌||◌, none, some, List, [], ◌∷◌, str_eq,
}
use jarvis_server.Prelude.Text.{concat, join}
use jarvis_server.Todo.{
  todo, done, TodoItem, medium, set_priority, unknown, returned, bad_value, get_todo, update_found,
  update_todo, complete_todo, create_todo, same_status, count_of, delete_todo,
}
use jarvis_server.Todo.Counts.{one_if, count-complete_todo}

abbrev like : String → String → Bool
like p s = str_eq p "%" || str_eq p "b1%" && str_eq s "b1"

abbrev row : String → TodoItem
row i = record {
  id = i;
  title = "buy milk";
  description = "";
  status = todo;
  priority = medium;
  tags = "";
  due_date = none;
  created_at = "10:00";
  updated_at = "10:00";
}

abbrev board : List TodoItem
board = row "a1" ∷ row "b1" ∷ []

create_refused : create_todo "c1" "call" "" "soon" [] none "11:00" board ≡ (bad_value, board)
unfolding create_todo
create_refused = refl

create_returned :
    create_todo "b1" "buy milk" "" "medium" [] none "10:00" []
    ≡ (returned (row "b1"), row "b1" ∷ [])
unfolding create_todo join concat
create_returned = refl

update_ignored :
    update_todo like "b1" (unknown "color" ∷ []) "11:00" board ≡ (returned (some (row "b1")), board)
unfolding update_todo update_found get_todo concat
update_ignored = refl

update_refused : update_todo like "b1" (set_priority "soon" ∷ []) "11:00" board ≡ (bad_value, board)
unfolding update_todo update_found get_todo concat
update_refused = refl

-- The empty id is a prefix of every id.
delete_first : delete_todo like "" board ≡ (true, row "b1" ∷ [])
unfolding delete_todo get_todo concat
delete_first = refl

count-complete_todo_example :
    count_of done (complete_todo like "b1" "11:00" board).1 + one_if (same_status done todo)
    ≡ count_of done board + one_if (same_status done done)
unfolding get_todo concat
count-complete_todo_example = count-complete_todo like done "b1" "11:00" (row "b1") board refl refl
