-- ===== src/Scheduler/Rows.antt =====
-- Lemmas on the rows of the table of jarvis/services/scheduler_service.py: distinct ids, the row that
-- a query finds, and an update of one row.
use jarvis_server.Prelude.{
  String, ◌≡◌, refl, Bool, true, false, not, ◌&&◌, some, List, [], ◌∷◌, arith, str_eq, str_eq_iff,
  keep, any, contains,
}
use jarvis_server.Scheduler.{ScheduleItem, fetch_one, update_where}

abbrev pub has_id : String → ScheduleItem → Bool
has_id i r = str_eq r.id i

abbrev pub ids : List ScheduleItem → List String
ids [] = []
ids (x ∷ xs) = x.id ∷ ids xs

-- The ids of the rows differ, as the primary key demands.
abbrev pub is_keyed : List ScheduleItem → Bool
is_keyed [] = true
is_keyed (x ∷ xs) = not (any (has_id x.id) xs) && is_keyed xs

pub update_where-same : (i : String) (xs : List ScheduleItem) → update_where i (λ y. y) xs ≡ xs
update_where-same i [] = refl
update_where-same i (y ∷ ys) = ground (arith, update_where-same i ys)

fetched_any :
    (p : ScheduleItem → Bool) (x : ScheduleItem) (xs : List ScheduleItem)
    → fetch_one p xs ≡ some x
    → any (has_id x.id) xs ≡ true
fetched_any p x [] h = cc
fetched_any p x (y ∷ ys) h =
    ground (arith, fetched_any p x ys, str_eq_iff x.id x.id, str_eq_iff y.id x.id)

contains_absent :
    (i : String) (q : ScheduleItem → Bool) (f : ScheduleItem → ScheduleItem)
    (xs : List ScheduleItem)
    → any (has_id i) xs ≡ false
    → contains i (ids (keep q (update_where i f xs))) ≡ false
contains_absent i q f [] h = refl
contains_absent i q f (y ∷ ys) h = ground (arith, contains_absent i q f ys, str_eq_iff y.id i)

-- The row that a query finds is the only one with its id: after an update of that row, its id is
-- among the rows of a second query exactly if the new row passes that query.
pub contains-update_found :
    (p q : ScheduleItem → Bool) (f : ScheduleItem → ScheduleItem) (x : ScheduleItem)
    (xs : List ScheduleItem)
    → ((y : ScheduleItem) → (f y).id ≡ y.id)
    → is_keyed xs ≡ true
    → fetch_one p xs ≡ some x
    → contains x.id (ids (keep q (update_where x.id f xs))) ≡ q (f x)
contains-update_found p q f x [] same u h = cc
contains-update_found p q f x (y ∷ ys) same u h = ground (
  arith,
  same y,
  fetched_any p x ys,
  contains_absent x.id q f ys,
  contains-update_found p q f x ys same,
  str_eq_iff y.id x.id,
  str_eq_iff x.id x.id,
  str_eq_iff (f y).id x.id,
)

pub contains-update_other :
    (i j : String) (q : ScheduleItem → Bool) (f : ScheduleItem → ScheduleItem)
    (xs : List ScheduleItem)
    → ((y : ScheduleItem) → (f y).id ≡ y.id)
    → str_eq j i ≡ false
    → contains j (ids (keep q (update_where i f xs))) ≡ contains j (ids (keep q xs))
contains-update_other i j q f [] same d = refl
contains-update_other i j q f (y ∷ ys) same d = ground (
  arith,
  same y,
  contains-update_other i j q f ys same d,
  str_eq_iff y.id i,
  str_eq_iff y.id j,
  str_eq_iff (f y).id j,
  str_eq_iff j i,
)
