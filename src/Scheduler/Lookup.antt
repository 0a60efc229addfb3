-- ===== src/Scheduler/Lookup.antt =====
-- Lookups after `create` and `delete` of jarvis/services/scheduler_service.py.
use jarvis_server.Prelude.{
  ℕ, String, ◌≡◌, refl, ap, Bool, true, false, not, Option, none, some, List, [], ◌∷◌, ◌++◌, arith,
  str_eq, str_eq_iff, keep, any, inl, inr, Bool-cases,
}
use jarvis_server.Prelude.Text.{concat}
use jarvis_server.Scheduler.{ScheduleType, ScheduleItem, SchedulerService, fetch_one, CreateArgs}
use jarvis_server.Scheduler.Store.{
  Outcome, value, value_error, integrity_error, matches, get, insert, new_item, create_with, create,
  delete,
}
use jarvis_server.Scheduler.Rows.{has_id, is_keyed}

fetch_one-append :
    (p : ScheduleItem → Bool) (x y : ScheduleItem) (xs : List ScheduleItem)
    → fetch_one p xs ≡ some y
    → fetch_one p (xs ++ x ∷ []) ≡ some y
fetch_one-append p x y [] h = cc
fetch_one-append p x y (z ∷ zs) h = ground (arith, fetch_one-append p x y zs)

fetch_one-last :
    (p : ScheduleItem → Bool) (x : ScheduleItem) (xs : List ScheduleItem)
    → fetch_one p xs ≡ none
    → p x ≡ true
    → fetch_one p (xs ++ x ∷ []) ≡ some x
fetch_one-last p x [] h t = rw t refl
fetch_one-last p x (z ∷ zs) h t = ground (arith, fetch_one-last p x zs)

keep-others :
    (i : String) (xs : List ScheduleItem)
    → any (has_id i) xs ≡ false
    → keep (λ r. not (str_eq r.id i)) xs ≡ xs
keep-others i [] h = refl
keep-others i (x ∷ xs) h = ground (arith, keep-others i xs)

keep-first :
    (x : ScheduleItem) (xs : List ScheduleItem)
    → is_keyed (x ∷ xs) ≡ true
    → keep (λ r. not (str_eq r.id x.id)) (x ∷ xs) ≡ xs
keep-first x xs u = ground (arith, keep-others x.id xs, str_eq_iff x.id x.id)

module _ (like : String → String → Bool) (text_le : String → String → Bool) (iso : ℕ → String)
    (next_cron : String → String → ℕ → Option String) where
  abbrev Created : String → SchedulerService → Outcome ScheduleItem × SchedulerService → Type 0
  Created id s (value x, s') =
      (get like text_le iso next_cron id s' ≡ some x)
      × ((key : String) (y : ScheduleItem)
          → get like text_le iso next_cron key s ≡ some y
          → get like text_le iso next_cron key s' ≡ some y)
  Created id s (value_error, s') = s' ≡ s
  Created id s (integrity_error, s') = s' ≡ s

  itself : (x : ScheduleItem) → matches like text_le iso next_cron x.id x ≡ true
  itself x = ground (arith, str_eq_iff x.id x.id)

  every_matches :
      ((i : String) → like "%" i ≡ true)
      → (x : ScheduleItem) → matches like text_le iso next_cron "" x ≡ true
  unfolding concat
  every_matches every x = ground (arith, every x.id)

  insert-Created :
      (x : ScheduleItem) (s : SchedulerService)
      → get like text_le iso next_cron x.id s ≡ none
      → Created x.id s (insert like text_le iso next_cron x s)
  unfolding get
  insert-Created x s h = elim (Bool-cases (any (λ r. str_eq r.id x.id) s.schedules)) [
    | inl e ↦ rw e refl
    | inr e ↦ rw e (
      fetch_one-last (matches like text_le iso next_cron x.id) x s.schedules h (itself x),
      λ key y g. fetch_one-append (matches like text_le iso next_cron key) x y s.schedules g,
    )
  ]

  -- A schedule whose new id finds no row yet: if `create` returns it, looking up its id finds exactly
  -- it and every earlier lookup that found a row finds the same row; if `create` raises, the service
  -- is unchanged.
  create-Created :
      (id : String) (a : CreateArgs) (now : ℕ) (s : SchedulerService)
      → get like text_le iso next_cron id s ≡ none
      → Created id s (create like text_le iso next_cron id a now s)
  unfolding create
  create-Created id a now s h = go _
    where
      go :
          (o : Option (ScheduleType × String))
          → Created id s (create_with like text_le iso next_cron id o a now s)
      go none = refl
      go (some (stype, next)) =
          insert-Created (new_item like text_le iso next_cron id stype next a now) s h

  -- The empty text is the id of no schedule, yet its pattern `%` matches every id: deleting it from a
  -- table that is not empty reports success and removes the first row.
  delete-empty_id :
      (x : ScheduleItem) (xs : List ScheduleItem) (routine : Option String)
      → ((i : String) → like "%" i ≡ true)
      → is_keyed (x ∷ xs) ≡ true
      → delete like text_le iso next_cron "" (record { schedules = x ∷ xs; wake_routine = routine })
        ≡ (true, record { schedules = xs; wake_routine = routine })
  unfolding delete get
  delete-empty_id x xs routine every u =
      rw (every_matches every x) (
        ap (λ rows. (true, record { schedules = rows; wake_routine = routine }))
          (keep-first x xs u))
