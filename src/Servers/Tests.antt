-- ===== src/Servers/Tests.antt =====
-- Instances of the theorems on jarvis/services/server_manager_service.py, and runs of it.
use jarvis_server.Prelude.{◌≡◌, refl, true, false, none, some, [], ◌∷◌, arith, any, ◌==◌}
use jarvis_server.Prelude.Int.{pos}
use jarvis_server.Prelude.Dict.{get, put, remove}
use jarvis_server.Servers.{
  ServerConfig, ServerState, ServerManager, managed, unhealthy, running, on_failure, new_state,
  spawned, stop_server, register_server,
}
use jarvis_server.Servers.Health.{maybe_auto_restart, delayed_restart, detect_each, detect_crashes}
use jarvis_server.Servers.Restarts.{AllCapped}
use jarvis_server.Servers.Reach.{
  Reach, Steps, auto, timer, stop-delayed_restart, Reach-AllCapped, Steps-IsUsedUp,
}

abbrev web : ServerConfig
web = record {
  name = "web";
  mode = managed;
  command = "serve" ∷ [];
  working_directory = none;
  environment = [];
  host = "localhost";
  port = 80;
  health_endpoint = some "/health";
  health_check_interval = 30;
  restart_policy = on_failure;
  max_restarts = 2;
  restart_window = 300;
  start_on_boot = false;
  tags = [];
}

abbrev manager : ServerState → ServerManager
manager s = record {
  servers = ("web", s) ∷ [];
  processes = ("web", record { pid = 7; returncode = none }) ∷ [];
  restart_timers = [];
  saved = web ∷ [];
  alive = 7 ∷ [];
}

abbrev ill : ServerState
ill = record (new_state web) { status = unhealthy; pid = some 7; started_at = some 10 }

-- The second restart waits twice as long.
second_delay :
    (maybe_auto_restart "web" 20 (maybe_auto_restart "web" 15 (manager ill)).1).1.restart_timers
    ≡ ("web", 2) ∷ []
unfolding maybe_auto_restart get put remove
second_delay = refl

-- After the window the count starts again.
window_over :
    (maybe_auto_restart "web" 310 (manager (record ill { restart_count = 1 }))).1.restart_timers
    ≡ ("web", 1) ∷ []
unfolding maybe_auto_restart get put remove
window_over = refl

abbrev over : ServerManager
over = record (manager (record ill { status = running })) {
  processes = ("web", record { pid = 7; returncode = some (pos 1) }) ∷ [];
}

crash_seen : (detect_crashes (λ c. "gone") over).0 ≡ "web" ∷ []
unfolding detect_each get put
crash_seen = refl

ill-AllCapped : AllCapped (manager ill)
unfolding get
ill-AllCapped n = grind arith

Reach-AllCapped_example :
    AllCapped (register_server web (maybe_auto_restart "web" 15 (manager ill)).1)
Reach-AllCapped_example =
    Reach-AllCapped ill-AllCapped
      (Reach.register (Reach.next Reach.here (auto (manager ill) "web" 15)) web)

abbrev spent : ServerManager
spent = manager (record ill { restart_count = 2 })

-- An hour of healthy life does not help.
Steps-IsUsedUp_example :
    let m = delayed_restart "web" 400 (spawned 8) spent in
    ((maybe_auto_restart "web" 4000 m).0 ≡ false) × ((maybe_auto_restart "web" 4000 m).1 ≡ m)
unfolding get
Steps-IsUsedUp_example =
    Steps-IsUsedUp "web" 4000 (omega arith)
      (Steps.next Steps.here (timer spent "web" 400 (spawned 8)))

stop-delayed_restart_example :
    let m1 = delayed_restart "web" 30 (spawned 8) (manager ill) in
    let m2 = (stop_server "web" none m1).1 in
    (get "web" m1.processes ≡ some (record { pid = 8; returncode = none }))
    × (get "web" m2.processes ≡ none)
    × (any (λ x. x == 7) m2.alive ≡ true)
unfolding get
stop-delayed_restart_example =
    stop-delayed_restart "web" 30 7 8 none ill "serve" [] (manager ill) refl refl refl refl refl
      refl (omega arith)
