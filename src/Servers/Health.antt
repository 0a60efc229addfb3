-- ===== src/Servers/Health.antt =====
-- Health checks, crashes and automatic restarts of jarvis/services/server_manager_service.py, and one
-- round of the monitor loop of jarvis/agents/server_manager_agent. Of a `ProbeResult` the status and
-- the latency are kept.
use jarvis_server.Prelude.{
  ℕ, ◌+◌, ◌^◌, String, Bool, true, false, not, ◌&&◌, ◌||◌, Option, none, some, List, [], ◌∷◌, ◌++◌,
  str_eq, ◌==◌, ltb, leb, if◌then◌else◌, is_some, ◌>>=◌,
}
use jarvis_server.Prelude.Int.{ℤ}
use jarvis_server.Prelude.Dict.{get, put, remove, keys}
use jarvis_server.Servers.{
  ServerStatus, starting, running, unhealthy, crashed, RestartPolicy, never, on_failure, always,
  ServerConfig, ServerState, Process, ServerManager, is_managed, set_state, Spawn, start_server,
}

pub data ComponentStatus : Type 0 where
  healthy not_healthy unknown : ComponentStatus

pub record ProbeResult : Type 0 where
  pub component : String
  pub status : ComponentStatus
  pub latency_ms : Option ℕ

-- What the network answers: the status code of the health endpoint, or `none` for an exception; and
-- whether the port is open.
pub record Answers : Type 0 where
  pub http : Option ℕ
  pub port_open : Bool
  pub latency : ℕ

-- `health_url()` is given
abbrev has_health_url : ServerConfig → Bool
has_health_url c =
    is_some (c.health_endpoint >>= λ e. if str_eq e "" then none else some e) && not (c.port == 0)

abbrev recovered : ServerStatus → ServerStatus
recovered unhealthy = running
recovered starting = running
recovered s = s

abbrev probed : ℕ → ℕ → ServerState → ServerState
probed now latency s = record s {
  last_health_check = some now;
  last_health_latency_ms = some latency;
}

abbrev well : ServerState → ServerState
well s = record s { consecutive_failures = 0; status = recovered s.status }

abbrev unwell : ServerState → ServerState
unwell s = record s { consecutive_failures = s.consecutive_failures + 1; status = unhealthy }

abbrev probe : String → ComponentStatus → Option ℕ → ProbeResult
probe name status latency = record { component = name; status = status; latency_ms = latency }

-- `resp.status_code < 400`
abbrev is_good : Option ℕ → Bool
is_good none = false
is_good (some code) = ltb code 400

-- A check over the network, by the endpoint or by the port
abbrev network_check : String → Bool → ℕ → ℕ → ServerState → ProbeResult × ServerState
network_check name good now latency s =
    if good
    then (probe name healthy (some latency), well (probed now latency s))
    else (probe name not_healthy (some latency), unwell (probed now latency s))

-- The check of the process
abbrev process_check : String → Option Process → ℕ → ServerState → ProbeResult × ServerState
process_check name none now s = (
  probe name not_healthy none,
  record s {
    consecutive_failures = s.consecutive_failures + 1;
    status = crashed;
    last_exit_code = none;
  },
)
process_check name (some p) now s =
    if is_some p.returncode
    then (
      probe name not_healthy none,
      record s {
        consecutive_failures = s.consecutive_failures + 1;
        status = crashed;
        last_exit_code = p.returncode;
      },
    )
    else (
      probe name healthy none,
      record s { last_health_check = some now; consecutive_failures = 0 },
    )

abbrev pub check_state :
    String → Option Process → Answers → ℕ → ServerState → ProbeResult × ServerState
check_state name p answers now s =
    if has_health_url s.config
    then network_check name (is_good answers.http) now answers.latency s
    else if not (s.config.port == 0)
    then network_check name answers.port_open now answers.latency s
    else if is_managed s.config.mode
    then process_check name p now s
    else (probe name unknown none, s)

abbrev pub check_found :
    String → Option ServerState → Answers → ℕ → ServerManager → ProbeResult × ServerManager
check_found name none answers now m = (probe name unknown none, m)
check_found name (some s) answers now m =
    let r = check_state name (get name m.processes) answers now s in (r.0, set_state name r.1 m)

unfoldable pub check_health : String → Answers → ℕ → ServerManager → ProbeResult × ServerManager
unfolding get put
check_health name answers now m = check_found name (get name m.servers) answers now m

unfoldable pub check_each :
    List String → (String → Answers) → ℕ → ServerManager → List ProbeResult × ServerManager
unfolding check_health
check_each [] answers now m = ([], m)
check_each (name ∷ names) answers now m =
    let r = check_health name (answers name) now m in
    let rest = check_each names answers now r.1 in (r.0 ∷ rest.0, rest.1)

abbrev pub check_all_health :
    (String → Answers) → ℕ → ServerManager → List ProbeResult × ServerManager
check_all_health answers now m = check_each (keys m.servers) answers now m

-- `state.status in (CRASHED, UNHEALTHY)`
abbrev is_failed : ServerStatus → Bool
is_failed crashed = true
is_failed unhealthy = true
is_failed _ = false

-- Whether the policy of the server lets it restart
abbrev pub policy_allows : RestartPolicy → ServerStatus → Bool
policy_allows never status = false
policy_allows on_failure status = is_failed status
policy_allows always status = true

-- The count after the test whether the window is over since the last start
abbrev pub window_count : Option ℕ → ℕ → ServerState → ℕ
window_count none now s = s.restart_count
window_count (some started) now s =
    if leb (started + s.config.restart_window) now then 0 else s.restart_count

-- `min(1.0 * (2 ** count), 60.0)`
abbrev restart_delay : ℕ → ℕ
restart_delay count = if ltb (2 ^ count) 60 then 2 ^ count else 60

abbrev schedule_restart : String → ℕ → ServerState → ServerManager → Bool × ServerManager
schedule_restart name count s m = (
  true,
  record (set_state name (record s { restart_count = count + 1 }) m) {
    restart_timers = put name (restart_delay count) (remove name m.restart_timers);
  },
)

abbrev pub restart_found : String → Option ServerState → ℕ → ServerManager → Bool × ServerManager
restart_found name none now m = (false, m)
restart_found name (some s) now m =
    if not (is_managed s.config.mode) || not (policy_allows s.config.restart_policy s.status)
    then (false, m)
    else if leb s.config.max_restarts s.restart_count
    then (false, m)
    else schedule_restart name (window_count s.started_at now s) s m

unfoldable pub maybe_auto_restart : String → ℕ → ServerManager → Bool × ServerManager
unfolding get put remove
maybe_auto_restart name now m = restart_found name (get name m.servers) now m

-- `_delayed_restart` after its sleep: the timer's task is over, and an exception is logged.
unfoldable pub delayed_restart : String → ℕ → Spawn → ServerManager → ServerManager
unfolding start_server
delayed_restart name now o m = (start_server name now o m).1

abbrev is_up : ServerStatus → Bool
is_up running = true
is_up starting = true
is_up _ = false

abbrev pub may_crash : ServerState → Bool
may_crash s = is_managed s.config.mode && is_up s.status

-- The exit code of a process that is over
abbrev pub exit_of : Option Process → Option ℤ
exit_of none = none
exit_of (some p) = p.returncode

abbrev pub crash_found :
    String
    → Option ServerState
    → Option ℤ
    → (ℤ → String)
    → ServerManager
    → List String × ServerManager
crash_found name none code text m = ([], m)
crash_found name (some s) none text m = ([], m)
crash_found name (some s) (some code) text m =
    if may_crash s
    then (
      name ∷ [],
      set_state name
          (record s {
            status = crashed;
            last_exit_code = some code;
            error_message = some (text code);
          })
          m,
    )
    else ([], m)

-- `detect_crashes`; `text` writes the message for an exit code.
unfoldable pub detect_each :
    List String → (ℤ → String) → ServerManager → List String × ServerManager
unfolding get put
detect_each [] text m = ([], m)
detect_each (name ∷ names) text m =
    let r = crash_found name (get name m.servers) (exit_of (get name m.processes)) text m in
    let rest = detect_each names text r.1 in (r.0 ++ rest.0, rest.1)

abbrev pub detect_crashes : (ℤ → String) → ServerManager → List String × ServerManager
detect_crashes text m = detect_each (keys m.servers) text m

-- `maybe_auto_restart` for each name
unfoldable pub restart_each : List String → ℕ → ServerManager → ServerManager
unfolding maybe_auto_restart
restart_each [] now m = m
restart_each (name ∷ names) now m = restart_each names now (maybe_auto_restart name now m).1

abbrev is_bad : ComponentStatus → Bool
is_bad not_healthy = true
is_bad _ = false

abbrev pub unhealthy_names : List ProbeResult → List String
unhealthy_names [] = []
unhealthy_names (r ∷ rs) =
    let rest = unhealthy_names rs in if is_bad r.status then r.component ∷ rest else rest

-- A round of `_monitor_loop` after its sleep; a server that is not managed is refused again by
-- `maybe_auto_restart`. A probe carries the bare name of its server: the prefix `server:`, and that
-- `replace` would take it out of a name that contains it too, are not modelled.
unfoldable pub monitor_round : (String → Answers) → (ℤ → String) → ℕ → ServerManager → ServerManager
unfolding detect_each restart_each check_each
monitor_round answers text now m =
    let crashes = detect_crashes text m in
    let probes = check_all_health answers now (restart_each crashes.0 now crashes.1) in
    restart_each (unhealthy_names probes.0) now probes.1
