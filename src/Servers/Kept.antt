-- ===== src/Servers/Kept.antt =====
-- What the operations of jarvis/services/server_manager_service.py leave of the configuration and of
-- the count of restarts.
use jarvis_server.Prelude.{
  ℕ, String, ◌≡◌, refl, sym, ap, ◌∙◌, Bool, true, false, not, ◌&&◌, Option, none, some, List, [],
  ◌∷◌, arith, inl, inr, str_eq, str_eq_iff, if◌then◌else◌, Bool-cases,
}
use jarvis_server.Prelude.Int.{ℤ}
use jarvis_server.Prelude.Dict.{get, get-put}
use jarvis_server.Servers.{
  ServerConfig, ServerState, Process, ServerManager, is_managed, is_running, set_state, Lifecycle,
  done, unknown_server, external_server, no_command, spawn_failed, Spawn, spawned, refused,
  start_managed, start_found, start_server, live_process, stop_process, stop_found, stop_server,
  restart_after, restart_server, boots, boot_one, boot_all, stop_one, stop_each,
}
use jarvis_server.Servers.Health.{
  Answers, check_state, check_found, check_health, check_each, delayed_restart, exit_of,
  crash_found, detect_each, may_crash,
}

pub record Tally : Type 0 where
  pub config : ServerConfig
  pub count : ℕ

abbrev pub tally : Option ServerState → Option Tally
tally none = none
tally (some s) = some (record { config = s.config; count = s.restart_count })

abbrev pub tally_at : String → ServerManager → Option Tally
tally_at n m = tally (get n m.servers)

-- The configurations and the counts of restarts are as they were.
abbrev pub Kept : ServerManager → ServerManager → Type 0
Kept m m' = (n : String) → tally_at n m' ≡ tally_at n m

set_state-Kept :
    (name : String) (s s' : ServerState) (m : ServerManager)
    → get name m.servers ≡ some s
    → tally (some s') ≡ tally (some s)
    → Kept m (set_state name s' m)
set_state-Kept name s s' m e t n =
    ap tally (get-put name n s' m.servers) ∙ elim (Bool-cases (str_eq name n)) [
      | inl q ↦ rw q (rw (← (str_eq_iff name n).0 q) (t ∙ ap tally (sym e)))
      | inr q ↦ rw q refl
    ]

start_managed-Kept :
    (name : String) (s : ServerState) (command : List String) (now : ℕ) (o : Spawn)
    (m : ServerManager)
    → get name m.servers ≡ some s
    → Kept m (start_managed name s command now o m).1
start_managed-Kept name s [] now o m e = set_state-Kept name s _ m e refl
start_managed-Kept name s (c ∷ cs) now (spawned p) m e = set_state-Kept name s _ m e refl
start_managed-Kept name s (c ∷ cs) now (refused t) m e = set_state-Kept name s _ m e refl

if-Kept :
    {A : Type 0} (b : Bool) (m : ServerManager) (x y : A × ServerManager)
    → Kept m x.1
    → Kept m y.1
    → Kept m (if b then x else y).1
if-Kept true m x y h k = h
if-Kept false m x y h k = k

-- An operation that looks a server up keeps the tallies if it does so for each outcome.
found-Kept :
    {A : Type 0} (name : String) (m : ServerManager) (f : Option ServerState → A × ServerManager)
    → Kept m (f none).1
    → ((s : ServerState) → get name m.servers ≡ some s → Kept m (f (some s)).1)
    → Kept m (f (get name m.servers)).1
found-Kept {A} name m f h k = by (get name m.servers) refl
  where
    by : (o : Option ServerState) → get name m.servers ≡ o → Kept m (f o).1
    by none e = h
    by (some s) e = k s e

pub start_server-Kept :
    (name : String) (now : ℕ) (o : Spawn) (m : ServerManager) → Kept m (start_server name now o m).1
unfolding start_server
start_server-Kept name now o m =
    found-Kept name m (λ x. start_found name x now o m) (λ n. refl)
      λ s e.
        if-Kept (not (is_managed s.config.mode)) m _ _ (λ n. refl)
          (if-Kept (is_running s.status) m _ _ (λ n. refl)
            (start_managed-Kept name s s.config.command now o m e))

stop_process-Kept :
    (name : String) (s : ServerState) (p : Option ℕ) (exit : Option ℤ) (m : ServerManager)
    → get name m.servers ≡ some s
    → Kept m (stop_process name s p exit m).1
stop_process-Kept name s none exit m e = set_state-Kept name s _ m e refl
stop_process-Kept name s (some p) exit m e = set_state-Kept name s _ m e refl

pub stop_server-Kept :
    (name : String) (exit : Option ℤ) (m : ServerManager) → Kept m (stop_server name exit m).1
unfolding stop_server
stop_server-Kept name exit m =
    found-Kept name m (λ x. stop_found name x exit m) (λ n. refl)
      λ s e.
        if-Kept (not (is_managed s.config.mode)) m _ _ (λ n. refl)
          (stop_process-Kept name s (live_process (get name m.processes)) exit m e)

pub restart_server-Kept :
    (name : String) (exit : Option ℤ) (now : ℕ) (o : Spawn) (m : ServerManager)
    → Kept m (restart_server name exit now o m).1
unfolding restart_server
restart_server-Kept name exit now o m = by (stop_server name exit m) (stop_server-Kept name exit m)
  where
    by : (r : Lifecycle × ServerManager) → Kept m r.1 → Kept m (restart_after name now o r).1
    by (done s, x) h = λ n. start_server-Kept name now o x n ∙ h n
    by (unknown_server, x) h = h
    by (external_server, x) h = h
    by (no_command, x) h = h
    by (spawn_failed e, x) h = h

pub boot_all-Kept :
    (names : List String) (now : ℕ) (o : String → Spawn) (m : ServerManager)
    → Kept m (boot_all names now o m).1
unfolding boot_all
boot_all-Kept [] now o m = λ n. refl
boot_all-Kept (name ∷ names) now o m = λ n.
    boot_all-Kept names now o _ n
    ∙ found-Kept name m (λ x. boot_one name x now (o name) m) (λ k. refl)
        (λ s e. if-Kept (boots s) m _ _ (start_server-Kept name now (o name) m) (λ k. refl)) n

pub stop_each-Kept :
    (names : List String) (exits : String → Option ℤ) (m : ServerManager)
    → Kept m (stop_each names exits m)
unfolding stop_each
stop_each-Kept [] exits m = λ n. refl
stop_each-Kept (name ∷ names) exits m = λ n.
    stop_each-Kept names exits _ n
    ∙ found-Kept {A = Unit {0}} name m (λ x. (tt, stop_one name x (exits name) m)) (λ k. refl)
        (λ s e. stop_one-Kept s) n
  where
    stop_one-Kept : (s : ServerState) → Kept m (stop_one name (some s) (exits name) m)
    stop_one-Kept s = elim (Bool-cases (is_managed s.config.mode && is_running s.status)) [
      | inl q ↦ rw q (stop_server-Kept name (exits name) m)
      | inr q ↦ rw q (λ k. refl)
    ]

check_state-tally :
    (name : String) (p : Option Process) (answers : Answers) (now : ℕ) (s : ServerState)
    → tally (some (check_state name p answers now s).1) ≡ tally (some s)
check_state-tally name none answers now s = ground arith
check_state-tally name (some p) answers now s = ground arith

pub check_health-Kept :
    (name : String) (answers : Answers) (now : ℕ) (m : ServerManager)
    → Kept m (check_health name answers now m).1
unfolding check_health
check_health-Kept name answers now m =
    found-Kept name m (λ x. check_found name x answers now m) (λ n. refl)
      λ s e.
        set_state-Kept name s _ m e (check_state-tally name (get name m.processes) answers now s)

pub check_each-Kept :
    (names : List String) (answers : String → Answers) (now : ℕ) (m : ServerManager)
    → Kept m (check_each names answers now m).1
unfolding check_each
check_each-Kept [] answers now m = λ n. refl
check_each-Kept (name ∷ names) answers now m =
    λ n. check_each-Kept names answers now _ n ∙ check_health-Kept name (answers name) now m n

crash_found-Kept :
    (name : String) (code : Option ℤ) (text : ℤ → String) (m : ServerManager)
    → Kept m (crash_found name (get name m.servers) code text m).1
crash_found-Kept name none text m =
    found-Kept name m (λ x. crash_found name x none text m) (λ n. refl) (λ s e n. refl)
crash_found-Kept name (some code) text m =
    found-Kept name m (λ x. crash_found name x (some code) text m) (λ n. refl)
      λ s e. if-Kept (may_crash s) m _ _ (set_state-Kept name s _ m e refl) (λ n. refl)

pub detect_each-Kept :
    (names : List String) (text : ℤ → String) (m : ServerManager)
    → Kept m (detect_each names text m).1
unfolding detect_each
detect_each-Kept [] text m = λ n. refl
detect_each-Kept (name ∷ names) text m = λ n.
    detect_each-Kept names text _ n
    ∙ crash_found-Kept name (exit_of (get name m.processes)) text m n

pub delayed_restart-Kept :
    (name : String) (now : ℕ) (o : Spawn) (m : ServerManager)
    → Kept m (delayed_restart name now o m)
unfolding delayed_restart
delayed_restart-Kept name now o m = start_server-Kept name now o m
