-- ===== src/Servers/Restarts.antt =====
-- The count of restarts of jarvis/services/server_manager_service.py against its maximum.
use jarvis_server.Prelude.{
  ℕ, ◌≤◌, String, ◌≡◌, refl, ap, ◌∙◌, true, false, not, ◌||◌, Option, none, some, arith, inl, inr,
  str_eq, leb, Bool-cases,
}
use jarvis_server.Prelude.Dict.{get, get-put}
use jarvis_server.Servers.{ServerState, ServerManager, is_managed, set_state}
use jarvis_server.Servers.Health.{window_count, restart_found, maybe_auto_restart, policy_allows}
use jarvis_server.Servers.Kept.{Tally, tally, tally_at, Kept}

-- The count of every server stays within its maximum.
abbrev pub IsCapped : Option Tally → Type 0
IsCapped none = Unit
IsCapped (some t) = t.count ≤ t.config.max_restarts

abbrev pub AllCapped : ServerManager → Type 0
AllCapped m = (n : String) → IsCapped (tally_at n m)

pub Kept-AllCapped : (m m' : ServerManager) → Kept m m' → AllCapped m → AllCapped m'
Kept-AllCapped m m' k h = λ n. rw (k n) (h n)

-- A server that used up its restarts.
abbrev pub IsUsedUp : Option Tally → Type 0
IsUsedUp none = ⊥
IsUsedUp (some t) = t.config.max_restarts ≤ t.count

pub put-AllCapped :
    (name : String) (s : ServerState) (m : ServerManager)
    → AllCapped m
    → s.restart_count ≤ s.config.max_restarts
    → AllCapped (set_state name s m)
put-AllCapped name s m h c = λ n.
    rw (get-put name n s m.servers)
      (elim (Bool-cases (str_eq name n)) [ inl q ↦ rw q c | inr q ↦ rw q (h n) ])

window_count-le :
    (o : Option ℕ) (now : ℕ) (s : ServerState) → window_count o now s ≤ s.restart_count
window_count-le none now s = omega arith
window_count-le (some t) now s = ground arith

pub maybe_auto_restart-AllCapped :
    (name : String) (now : ℕ) (m : ServerManager)
    → AllCapped m
    → AllCapped (maybe_auto_restart name now m).1
unfolding maybe_auto_restart
maybe_auto_restart-AllCapped name now m h = by (get name m.servers)
  where
    by : (o : Option ServerState) → AllCapped (restart_found name o now m).1
    by none = h
    by (some s) =
        elim (Bool-cases (
          not (is_managed s.config.mode) || not (policy_allows s.config.restart_policy s.status))) [
            | inl q ↦ rw q h
            | inr q ↦ elim (Bool-cases (leb s.config.max_restarts s.restart_count)) [
              | inl full ↦ rw (q, full) h
              | inr room ↦
                  rw (q, room)
                    (put-AllCapped name _ m h (ground (arith, window_count-le s.started_at now s)))
            ]
          ]

-- A server that used up its restarts is not restarted, and its tally stays.
pub maybe_auto_restart-IsUsedUp :
    (name : String) (now : ℕ) (m : ServerManager)
    → IsUsedUp (tally_at name m)
    → ((maybe_auto_restart name now m).0 ≡ false) × ((maybe_auto_restart name now m).1 ≡ m)
unfolding maybe_auto_restart
maybe_auto_restart-IsUsedUp name now m h = by (get name m.servers) h
  where
    by :
        (o : Option ServerState)
        → IsUsedUp (tally o)
        → ((restart_found name o now m).0 ≡ false) × ((restart_found name o now m).1 ≡ m)
    by none h = absurd h
    by (some s) h =
        let full : leb s.config.max_restarts s.restart_count ≡ true = ground arith in
        ground (arith, full)

-- The restart of another server leaves the tally of this one.
pub maybe_auto_restart-other :
    (name n : String) (now : ℕ) (m : ServerManager)
    → str_eq name n ≡ false
    → tally_at n (maybe_auto_restart name now m).1 ≡ tally_at n m
unfolding maybe_auto_restart
maybe_auto_restart-other name n now m d = by (get name m.servers)
  where
    by : (o : Option ServerState) → tally_at n (restart_found name o now m).1 ≡ tally_at n m
    by none = refl
    by (some s) =
        elim (Bool-cases (
          not (is_managed s.config.mode) || not (policy_allows s.config.restart_policy s.status))) [
            | inl q ↦ rw q refl
            | inr q ↦ elim (Bool-cases (leb s.config.max_restarts s.restart_count)) [
              | inl full ↦ rw (q, full) refl
              | inr room ↦ rw (q, room) (ap tally (get-put name n _ m.servers) ∙ rw d refl)
            ]
          ]
