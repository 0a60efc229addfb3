-- ===== src/Servers.antt =====
-- jarvis/services/server_manager_service.py and the models of jarvis/agents/server_manager_agent: the
-- registry of servers, their processes, health checks and restarts. A process of `_processes` is the
-- entry of its server; `alive` are the processes that the system runs. Times, the outcome of a spawn,
-- exit codes and the answers of health checks are arguments.
use jarvis_server.Prelude.{
  ℕ, zero, suc, ◌+◌, ◌-◌, ◌^◌, String, Bool, true, false, not, ◌&&◌, ◌||◌, Option, none, some, List,
  [], ◌∷◌, ◌++◌, str_eq, ◌==◌, ltb, leb, if◌then◌else◌, get_or, contains, keep, is_empty, is_some,
  map,
}
use jarvis_server.Prelude.Int.{ℤ}
use jarvis_server.Prelude.Dict.{Dict, get, put, remove, keys, values, has}
pub mod Health
pub mod Kept
pub mod Restarts
pub mod Reach
pub mod Tests

pub data ServerMode : Type 0 where
  managed external : ServerMode

pub data ServerStatus : Type 0 where
  stopped starting running unhealthy stopping crashed : ServerStatus

pub data RestartPolicy : Type 0 where
  never on_failure always : RestartPolicy

pub record ServerConfig : Type 0 where
  pub name : String
  pub mode : ServerMode
  pub command : List String
  pub working_directory : Option String
  pub environment : Dict String
  pub host : String
  pub port : ℕ
  pub health_endpoint : Option String
  pub health_check_interval : ℕ
  pub restart_policy : RestartPolicy
  pub max_restarts : ℕ
  pub restart_window : ℕ
  pub start_on_boot : Bool
  pub tags : List String

pub record ServerState : Type 0 where
  pub config : ServerConfig
  pub status : ServerStatus
  pub pid : Option ℕ
  pub started_at : Option ℕ
  pub last_health_check : Option ℕ
  pub last_health_latency_ms : Option ℕ
  pub restart_count : ℕ
  pub consecutive_failures : ℕ
  pub last_exit_code : Option ℤ
  pub error_message : Option String

-- A process of asyncio: its exit code once it has one
pub record Process : Type 0 where
  pub pid : ℕ
  pub returncode : Option ℤ

-- `saved` is the registry file; a timer is the delay of its task.
pub record ServerManager : Type 0 where
  pub servers : Dict ServerState
  pub processes : Dict Process
  pub restart_timers : Dict ℕ
  pub saved : List ServerConfig
  pub alive : List ℕ

abbrev pub is_managed : ServerMode → Bool
is_managed managed = true
is_managed external = false

abbrev pub is_running : ServerStatus → Bool
is_running running = true
is_running _ = false

abbrev pub new_state : ServerConfig → ServerState
new_state c = record {
  config = c;
  status = stopped;
  pid = none;
  started_at = none;
  last_health_check = none;
  last_health_latency_ms = none;
  restart_count = 0;
  consecutive_failures = 0;
  last_exit_code = none;
  error_message = none;
}

abbrev pub set_state : String → ServerState → ServerManager → ServerManager
set_state name s m = record m { servers = put name s m.servers }

-- `_save_registry`
abbrev save_registry : ServerManager → ServerManager
save_registry m = record m { saved = map (λ e. e.1.config) m.servers }

-- The entries of the file, in its order
unfoldable load_entries : List ServerConfig → Dict ServerState → Dict ServerState
unfolding put
load_entries [] servers = servers
load_entries (c ∷ cs) servers = load_entries cs (put c.name (new_state c) servers)

abbrev load_registry : ServerManager → ServerManager
load_registry m = record m { servers = load_entries m.saved m.servers }

unfoldable pub register_server : ServerConfig → ServerManager → ServerManager
unfolding put
register_server c m = save_registry (set_state c.name (new_state c) m)

abbrev pub unregister_found : String → Option ServerState → ServerManager → Bool × ServerManager
unregister_found name none m = (false, m)
unregister_found name (some s) m = (
  true,
  save_registry (record m {
    restart_timers = remove name m.restart_timers;
    servers = remove name m.servers;
    processes = remove name m.processes;
  }),
)

unfoldable pub unregister_server : String → ServerManager → Bool × ServerManager
unfolding get remove
unregister_server name m = unregister_found name (get name m.servers) m

-- `get_servers_by_tag`
abbrev get_servers_by_tag : String → ServerManager → List ServerState
get_servers_by_tag tag m = keep (λ s. contains tag s.config.tags) (values m.servers)

-- How a call of the life cycle ends: with the state of the server, or by an exception.
pub data Lifecycle : Type 0 where
  done : ServerState → Lifecycle
  unknown_server external_server no_command : Lifecycle
  spawn_failed : String → Lifecycle

-- The outcome of `create_subprocess_exec`: the id of the process, or the text of the exception.
pub data Spawn : Type 0 where
  spawned : ℕ → Spawn
  refused : String → Spawn

abbrev pub spawn : String → ServerState → ℕ → Spawn → ServerManager → Lifecycle × ServerManager
spawn name s now (spawned p) m =
    let s' = record s {
      pid = some p;
      status = running;
      started_at = some now;
      error_message = none;
    } in
    (
      done s',
      record (set_state name s' m) {
        processes = put name (record { pid = p; returncode = none }) m.processes;
        alive = p ∷ m.alive;
      },
    )
spawn name s now (refused e) m =
    (spawn_failed e, set_state name (record s { status = crashed; error_message = some e }) m)

abbrev pub start_managed :
    String → ServerState → List String → ℕ → Spawn → ServerManager → Lifecycle × ServerManager
start_managed name s [] now o m = (
  no_command,
  set_state name (record s { status = crashed; error_message = some "No command configured" }) m,
)
start_managed name s (c ∷ cs) now o m = spawn name (record s { status = starting }) now o m

abbrev pub start_found :
    String → Option ServerState → ℕ → Spawn → ServerManager → Lifecycle × ServerManager
start_found name none now o m = (unknown_server, m)
start_found name (some s) now o m =
    if not (is_managed s.config.mode)
    then (external_server, m)
    else if is_running s.status
    then (done s, m)
    else start_managed name s s.config.command now o m

unfoldable pub start_server : String → ℕ → Spawn → ServerManager → Lifecycle × ServerManager
unfolding get put
start_server name now o m = start_found name (get name m.servers) now o m

-- `not proc or proc.returncode is not None`
abbrev pub live_process : Option Process → Option ℕ
live_process none = none
live_process (some p) = if is_some p.returncode then none else some p.pid

-- The process ends by the signal or is killed; `exit` is its exit code then.
abbrev pub stop_process :
    String → ServerState → Option ℕ → Option ℤ → ServerManager → Lifecycle × ServerManager
stop_process name s none exit m =
    let s' = record s { status = stopped; pid = none } in (done s', set_state name s' m)
stop_process name s (some p) exit m =
    let s' = record s { last_exit_code = exit; status = stopped; pid = none } in
    (
      done s',
      record (set_state name s' m) {
        processes = remove name m.processes;
        alive = keep (λ q. not (q == p)) m.alive;
      },
    )

abbrev pub stop_found :
    String → Option ServerState → Option ℤ → ServerManager → Lifecycle × ServerManager
stop_found name none exit m = (unknown_server, m)
stop_found name (some s) exit m =
    if not (is_managed s.config.mode)
    then (external_server, m)
    else stop_process name s (live_process (get name m.processes)) exit m

unfoldable pub stop_server : String → Option ℤ → ServerManager → Lifecycle × ServerManager
unfolding get put remove
stop_server name exit m = stop_found name (get name m.servers) exit m

abbrev pub restart_after :
    String → ℕ → Spawn → Lifecycle × ServerManager → Lifecycle × ServerManager
restart_after name now o (done s, m) = start_server name now o m
restart_after name now o (e, m) = (e, m)

unfoldable pub restart_server :
    String → Option ℤ → ℕ → Spawn → ServerManager → Lifecycle × ServerManager
unfolding stop_server start_server
restart_server name exit now o m = restart_after name now o (stop_server name exit m)

-- `start_boot_servers` and `stop_all`: the loop goes over the names; `o` gives each spawn its outcome.
abbrev pub boots : ServerState → Bool
boots s = s.config.start_on_boot && is_managed s.config.mode

abbrev named_done : String → Lifecycle → List String → List String
named_done name (done s) names = name ∷ names
named_done name _ names = names

abbrev pub boot_one :
    String → Option ServerState → ℕ → Spawn → ServerManager → List String × ServerManager
boot_one name none now o m = ([], m)
boot_one name (some s) now o m =
    if boots s
    then (let r = start_server name now o m in (named_done name r.0 [], r.1))
    else ([], m)

unfoldable pub boot_all :
    List String → ℕ → (String → Spawn) → ServerManager → List String × ServerManager
unfolding start_server get
boot_all [] now o m = ([], m)
boot_all (name ∷ names) now o m =
    let r = boot_one name (get name m.servers) now (o name) m in
    let rest = boot_all names now o r.1 in (r.0 ++ rest.0, rest.1)

abbrev pub start_boot_servers : ℕ → (String → Spawn) → ServerManager → List String × ServerManager
start_boot_servers now o m = boot_all (keys m.servers) now o m

abbrev pub stop_one : String → Option ServerState → Option ℤ → ServerManager → ServerManager
stop_one name none exit m = m
stop_one name (some s) exit m =
    if is_managed s.config.mode && is_running s.status then (stop_server name exit m).1 else m

unfoldable pub stop_each : List String → (String → Option ℤ) → ServerManager → ServerManager
unfolding stop_server get
stop_each [] exits m = m
stop_each (name ∷ names) exits m =
    stop_each names exits (stop_one name (get name m.servers) (exits name) m)

abbrev pub stop_all : (String → Option ℤ) → ServerManager → ServerManager
stop_all exits m = stop_each (keys m.servers) exits m
