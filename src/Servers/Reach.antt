-- ===== src/Servers/Reach.antt =====
-- The server manager of jarvis/services/server_manager_service.py as a system of steps.
use jarvis_server.Prelude.{
  ℕ, String, ◌≡◌, refl, ap, ◌∙◌, true, false, not, Option, none, some, List, [], ◌∷◌, arith, inl,
  inr, str_eq, str_eq_iff, ◌==◌, Bool-cases, any, ◌≢◌, keep,
}
use jarvis_server.Prelude.Int.{ℤ}
use jarvis_server.Prelude.Dict.{get, put, keys, get-put_self, get-remove, get-remove_self}
use jarvis_server.Servers.{
  ServerConfig, ServerState, Process, ServerManager, unhealthy, managed, new_state, register_server,
  unregister_found, unregister_server, Spawn, spawned, spawn, starting, running, stop_process,
  stop_found, start_server, start_found, stop_server, restart_server, start_boot_servers, stop_all,
}
use jarvis_server.Servers.Health.{
  Answers, check_health, check_all_health, maybe_auto_restart, delayed_restart, detect_crashes,
  restart_each, unhealthy_names, monitor_round,
}
use jarvis_server.Servers.Kept.{
  tally, tally_at, Kept, start_server-Kept, stop_server-Kept, restart_server-Kept, boot_all-Kept,
  stop_each-Kept, check_health-Kept, check_each-Kept, detect_each-Kept, delayed_restart-Kept,
}
use jarvis_server.Servers.Restarts.{
  AllCapped, Kept-AllCapped, IsUsedUp, put-AllCapped, maybe_auto_restart-AllCapped,
  maybe_auto_restart-IsUsedUp, maybe_auto_restart-other,
}

-- A process ends by itself with an exit code.
abbrev pub exits : String → ℤ → Option Process → ServerManager → ServerManager
exits name code none m = m
exits name code (some p) m = record m {
  processes = put name (record p { returncode = some code }) m.processes;
}

-- What happens to the servers that are registered.
pub data Step : ServerManager → ServerManager → Type 0 where
  start :
      (m : ServerManager) (name : String) (now : ℕ) (o : Spawn)
      → Step m (start_server name now o m).1
  stop : (m : ServerManager) (name : String) (exit : Option ℤ) → Step m (stop_server name exit m).1
  restart :
      (m : ServerManager) (name : String) (exit : Option ℤ) (now : ℕ) (o : Spawn)
      → Step m (restart_server name exit now o m).1
  boot : (m : ServerManager) (now : ℕ) (o : String → Spawn) → Step m (start_boot_servers now o m).1
  stop_servers : (m : ServerManager) (codes : String → Option ℤ) → Step m (stop_all codes m)
  check :
      (m : ServerManager) (name : String) (answers : Answers) (now : ℕ)
      → Step m (check_health name answers now m).1
  auto : (m : ServerManager) (name : String) (now : ℕ) → Step m (maybe_auto_restart name now m).1
  timer :
      (m : ServerManager) (name : String) (now : ℕ) (o : Spawn)
      → Step m (delayed_restart name now o m)
  round :
      (m : ServerManager) (answers : String → Answers) (text : ℤ → String) (now : ℕ)
      → Step m (monitor_round answers text now m)
  ended :
      (m : ServerManager) (name : String) (code : ℤ)
      → Step m (exits name code (get name m.processes) m)

pub data Reach (a : ServerManager) : ServerManager → Type 0 where
  here : Reach a a
  next : {b c : ServerManager} → Reach a b → Step b c → Reach a c
  register : {b : ServerManager} → Reach a b → (c : ServerConfig) → Reach a (register_server c b)
  unregister : {b : ServerManager} → Reach a b → (n : String) → Reach a (unregister_server n b).1

-- Runs in which no server is registered or unregistered.
pub data Steps (a : ServerManager) : ServerManager → Type 0 where
  here : Steps a a
  next : {b c : ServerManager} → Steps a b → Step b c → Steps a c

exits-servers :
    (name : String) (code : ℤ) (o : Option Process) (m : ServerManager)
    → (exits name code o m).servers ≡ m.servers
exits-servers name code none m = refl
exits-servers name code (some p) m = refl

-- A property of managers that the operations on tallies keep is kept by every step.
module _ (P : ServerManager → Type 0) (kept : (m m' : ServerManager) → Kept m m' → P m → P m')
    (auto_kept : (name : String) (now : ℕ) (m : ServerManager)
      → P m
      → P (maybe_auto_restart name now m).1) where
  restart_each-keeps :
      (names : List String) (now : ℕ) (m : ServerManager) → P m → P (restart_each names now m)
  unfolding restart_each
  restart_each-keeps [] now m h = h
  restart_each-keeps (name ∷ names) now m h =
      restart_each-keeps names now _ (auto_kept name now m h)

  Step-keeps : {a b : ServerManager} → Step a b → P a → P b
  unfolding monitor_round
  Step-keeps (start m name now o) h = kept m _ (start_server-Kept name now o m) h
  Step-keeps (stop m name exit) h = kept m _ (stop_server-Kept name exit m) h
  Step-keeps (restart m name exit now o) h = kept m _ (restart_server-Kept name exit now o m) h
  Step-keeps (boot m now o) h = kept m _ (boot_all-Kept (keys m.servers) now o m) h
  Step-keeps (stop_servers m codes) h = kept m _ (stop_each-Kept (keys m.servers) codes m) h
  Step-keeps (check m name answers now) h = kept m _ (check_health-Kept name answers now m) h
  Step-keeps (auto m name now) h = auto_kept name now m h
  Step-keeps (timer m name now o) h = kept m _ (delayed_restart-Kept name now o m) h
  Step-keeps (round m answers text now) h =
      let crashes = detect_crashes text m in
      let x = restart_each crashes.0 now crashes.1 in
      let probes = check_all_health answers now x in
      restart_each-keeps (unhealthy_names probes.0) now probes.1 (
        kept x probes.1 (check_each-Kept (keys x.servers) answers now x) (
          restart_each-keeps crashes.0 now crashes.1
            (kept m crashes.1 (detect_each-Kept (keys m.servers) text m) h)))
  Step-keeps (ended m name code) h =
      kept m _ (λ n. ap (λ d. tally (get n d)) (exits-servers name code (get name m.processes) m)) h

unregister-AllCapped :
    (name : String) (m : ServerManager) → AllCapped m → AllCapped (unregister_server name m).1
unfolding unregister_server
unregister-AllCapped name m h = by (get name m.servers)
  where
    by : (o : Option ServerState) → AllCapped (unregister_found name o m).1
    by none = h
    by (some s) = λ n.
        rw (get-remove name n m.servers)
          (elim (Bool-cases (str_eq name n)) [ inl q ↦ rw q tt | inr q ↦ rw q (h n) ])

-- The count of restarts of every server stays within its maximum, under any sequence of operations,
-- timers, monitor rounds and exits, and of servers that are registered and unregistered.
pub Reach-AllCapped : {a b : ServerManager} → AllCapped a → Reach a b → AllCapped b
unfolding register_server
Reach-AllCapped h here = h
Reach-AllCapped h (next r st) =
    Step-keeps AllCapped Kept-AllCapped maybe_auto_restart-AllCapped st (Reach-AllCapped h r)
Reach-AllCapped h (register {b} r c) =
    put-AllCapped c.name (new_state c) b (Reach-AllCapped h r) (omega arith)
Reach-AllCapped h (unregister {b} r n) = unregister-AllCapped n b (Reach-AllCapped h r)

auto-IsUsedUp :
    (n name : String) (now : ℕ) (m : ServerManager)
    → IsUsedUp (tally_at n m)
    → IsUsedUp (tally_at n (maybe_auto_restart name now m).1)
auto-IsUsedUp n name now m h = elim (Bool-cases (str_eq name n)) [
  | inl q ↦ rw ((str_eq_iff name n).0 q) (rw ((maybe_auto_restart-IsUsedUp n now m h).1) h)
  | inr q ↦ rw (maybe_auto_restart-other name n now m q) h
]

-- For a server that used up its restarts no automatic restart is scheduled again: the check for one
-- answers no and changes nothing, however long the server has run since and whatever happens to the
-- servers, as long as none is registered or unregistered. A restart that was scheduled before may still
-- run.
pub Steps-IsUsedUp :
    {a b : ServerManager} (n : String) (now : ℕ)
    → IsUsedUp (tally_at n a)
    → Steps a b
    → ((maybe_auto_restart n now b).0 ≡ false) × ((maybe_auto_restart n now b).1 ≡ b)
Steps-IsUsedUp {a} n now h r = maybe_auto_restart-IsUsedUp n now _ (along r)
  where
    along : {b : ServerManager} → Steps a b → IsUsedUp (tally_at n b)
    along here = h
    along (next p st) =
        Step-keeps (λ m. IsUsedUp (tally_at n m)) (λ m m' k u. rw (k n) u) (auto-IsUsedUp n) st
          (along p)

any-keep_other :
    (p q : ℕ) (xs : List ℕ)
    → p ≢ q
    → any (λ x. x == p) xs ≡ true
    → any (λ x. x == p) (keep (λ x. not (x == q)) xs) ≡ true
any-keep_other p q [] d h = cc
any-keep_other p q (x ∷ xs) d h = ground (arith, any-keep_other p q xs)

abbrev started : String → ℕ → ℕ → ServerState → ServerManager → ServerManager
started name now q s m = (spawn name (record s { status = starting }) now (spawned q) m).1

start_server-unhealthy :
    (name : String) (now q : ℕ) (s : ServerState) (word : String) (words : List String)
    (m : ServerManager)
    → get name m.servers ≡ some s
    → s.config.mode ≡ managed
    → s.status ≡ unhealthy
    → s.config.command ≡ word ∷ words
    → (start_server name now (spawned q) m).1 ≡ started name now q s m
unfolding start_server
start_server-unhealthy name now q s word words m es em est ec =
    ap (λ o. (start_found name o now (spawned q) m).1) es ∙ ground arith

stop_server-live :
    (name : String) (q : ℕ) (code : Option ℤ) (s : ServerState) (m : ServerManager)
    → get name m.servers ≡ some s
    → s.config.mode ≡ managed
    → get name m.processes ≡ some (record { pid = q; returncode = none })
    → (stop_server name code m).1 ≡ (stop_process name s (some q) code m).1
unfolding stop_server
stop_server-live name q code s m es em ep =
    ap (λ o. (stop_found name o code m).1) es ∙ ground (arith, ep)

-- The automatic restart of an unhealthy server whose process still runs starts a second process beside
-- it. The first one is not tracked any more: stopping the server leaves it alive.
pub stop-delayed_restart :
    (name : String) (now p q : ℕ) (code : Option ℤ) (s : ServerState) (word : String)
    (words : List String) (m : ServerManager)
    → get name m.servers ≡ some s
    → s.config.mode ≡ managed
    → s.status ≡ unhealthy
    → s.config.command ≡ word ∷ words
    → get name m.processes ≡ some (record { pid = p; returncode = none })
    → any (λ x. x == p) m.alive ≡ true
    → p ≢ q
    → let m1 = delayed_restart name now (spawned q) m in
      let m2 = (stop_server name code m1).1 in
      (get name m1.processes ≡ some (record { pid = q; returncode = none }))
      × (get name m2.processes ≡ none)
      × (any (λ x. x == p) m2.alive ≡ true)
unfolding delayed_restart
stop-delayed_restart name now p q code s word words m es em est ec ep al d =
    let x = started name now q s m in
    let s' = record s {
      pid = some q;
      status = running;
      started_at = some now;
      error_message = none;
    } in
    let there = get-put_self name (record { pid = q; returncode = none }) m.processes in
    rw (start_server-unhealthy name now q s word words m es em est ec) (
      there,
      rw (stop_server-live name q code s' x (get-put_self name s' m.servers) em there)
          (get-remove_self name x.processes),
      rw (stop_server-live name q code s' x (get-put_self name s' m.servers) em there)
          (any-keep_other p q x.alive d (ground arith)),
    )
