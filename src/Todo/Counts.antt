-- ===== src/Todo/Counts.antt =====
-- The counts by status under a change of status, for jarvis/services/todo_service.py.
use jarvis_server.Prelude.{
  ℕ, suc, ◌+◌, String, ◌≡◌, refl, ap, ◌∙◌, Bool, true, false, not, ◌&&◌, some, List, [], ◌∷◌,
  str_eq, str_eq_iff, any, if◌then◌else◌, Bool-cases, inl, inr, arith, get_or, subst, sym,
}
use jarvis_server.Todo.{
  TaskStatus, done, TodoItem, set_status, find_item, set_where, updated_row, matches_todo, get_todo,
  update_found, update_todo, complete_todo, same_status, count_of,
}

-- The ids of the rows differ, as the primary key demands.
abbrev is_keyed_board : List TodoItem → Bool
is_keyed_board [] = true
is_keyed_board (x ∷ xs) = not (any (λ r. str_eq r.id x.id) xs) && is_keyed_board xs

abbrev pub one_if : Bool → ℕ
one_if true = 1
one_if false = 0

found_there :
    (p : TodoItem → Bool) (x : TodoItem) (xs : List TodoItem)
    → find_item p xs ≡ some x
    → any (λ r. str_eq r.id x.id) xs ≡ true
found_there p x [] h = cc
found_there p x (y ∷ ys) h =
    ground (arith, found_there p x ys, str_eq_iff x.id x.id, str_eq_iff y.id x.id)

count-absent :
    (s : TaskStatus) (i : String) (f : TodoItem → TodoItem) (xs : List TodoItem)
    → any (λ r. str_eq r.id i) xs ≡ false
    → count_of s (set_where i f xs) ≡ count_of s xs
unfolding count_of
count-absent s i f [] h = refl
count-absent s i f (y ∷ ys) h = ground (arith, count-absent s i f ys, str_eq_iff y.id i)

-- A row that changes its status from `b` to `a`, and a row that stays, against a count.
swapped :
    (a b : Bool) (n m : ℕ)
    → n ≡ m
    → (if a then suc n else n) + one_if b ≡ (if b then suc m else m) + one_if a
swapped true true n m h = omega arith
swapped true false n m h = omega arith
swapped false true n m h = omega arith
swapped false false n m h = omega arith

shifted :
    (c : Bool) (n m k l : ℕ)
    → n + k ≡ m + l
    → (if c then suc n else n) + k ≡ (if c then suc m else m) + l
shifted true n m k l h = omega arith
shifted false n m k l h = h

count-set_head :
    (s : TaskStatus) (f : TodoItem → TodoItem) (y : TodoItem) (ys : List TodoItem)
    → is_keyed_board (y ∷ ys) ≡ true
    → count_of s (set_where y.id f (y ∷ ys)) + one_if (same_status s y.status)
      ≡ count_of s (y ∷ ys) + one_if (same_status s (f y).status)
unfolding count_of
count-set_head s f y ys u = rw ((str_eq_iff y.id y.id).1 refl) (
    swapped (same_status s (f y).status) (same_status s y.status) _ _
      (count-absent s y.id f ys (ground arith)))

other_row :
    (p : TodoItem → Bool) (x y : TodoItem) (ys : List TodoItem)
    → is_keyed_board (y ∷ ys) ≡ true
    → find_item p ys ≡ some x
    → str_eq y.id x.id ≡ false
other_row p x y ys u h =
    ground (arith, found_there p x ys h, str_eq_iff y.id x.id, str_eq_iff x.id y.id)

count-set_where :
    (s : TaskStatus) (p : TodoItem → Bool) (f : TodoItem → TodoItem) (x : TodoItem)
    (xs : List TodoItem)
    → is_keyed_board xs ≡ true
    → find_item p xs ≡ some x
    → count_of s (set_where x.id f xs) + one_if (same_status s x.status)
      ≡ count_of s xs + one_if (same_status s (f x).status)
unfolding count_of
count-set_where s p f x [] u h = cc
count-set_where s p f x (y ∷ ys) u h = elim (Bool-cases (p y)) [
  | inl e ↦
      let first : find_item p (y ∷ ys) ≡ some y = rw e refl in
      subst
        (λ z.
          count_of s (set_where z.id f (y ∷ ys)) + one_if (same_status s z.status)
          ≡ count_of s (y ∷ ys) + one_if (same_status s (f z).status))
        (ap (get_or y) (sym first ∙ h)) (count-set_head s f y ys u)
  | inr e ↦
      let later : find_item p (y ∷ ys) ≡ find_item p ys = rw e refl in
      rw (other_row p x y ys u (sym later ∙ h)) (
        shifted (same_status s y.status) _ _ _ _
          (count-set_where s p f x ys (ground arith) (sym later ∙ h)))
]

-- Completing a task that its key finds moves it in the counts by status: the count of done tasks gains
-- one, the count of its old status loses one, which cancel for a task that was done, and no other
-- count changes. The ids of the table are distinct.
pub count-complete_todo :
    (like : String → String → Bool) (s : TaskStatus) (key now : String) (x : TodoItem)
    (rows : List TodoItem)
    → is_keyed_board rows ≡ true
    → get_todo like key rows ≡ some x
    → count_of s (complete_todo like key now rows).1 + one_if (same_status s x.status)
      ≡ count_of s rows + one_if (same_status s done)
unfolding get_todo update_todo update_found
count-complete_todo like s key now x rows u h = rw h (
    count-set_where s (matches_todo like key) (updated_row (set_status "done" ∷ []) now) x rows u h)
