-- ===== src/Monitor.antt =====
-- jarvis/agents/device_monitor_agent/__init__.py: the transitions of severities, the alerts and a tick
-- of the monitor loop, with the snapshot of jarvis/services/device_monitor_service.py. Parameter: the
-- type of measured values. What the machine answers is an argument.
use jarvis_server.Prelude.{
  ℕ, suc, ◌+◌, ◌%◌, String, Bool, true, false, not, ◌&&◌, ◌||◌, Option, none, some, List, [], ◌∷◌,
  ◌++◌, str_eq, ◌==◌, leb, any, keep, map, if◌then◌else◌, is_some,
}
use jarvis_server.Prelude.Dict.{Dict, get, put}
use jarvis_server.Prelude.Text.{concat}
pub mod Parts
pub mod Snapshots
pub mod Transitions
pub mod Ticks
pub mod Tests

pub data Severity : Type 0 where
  ok warning critical : Severity

abbrev pub same_severity : Severity → Severity → Bool
same_severity ok ok = true
same_severity warning warning = true
same_severity critical critical = true
same_severity _ _ = false

-- A measurement, without its details.
pub record Metric (V : Type 0) : Type 0 where
  pub name : String
  pub value : V
  pub unit : String
  pub severity : Severity

-- The measurements of a snapshot; the description of the machine has no part in what follows.
pub record DeviceSnapshot (V : Type 0) : Type 0 where
  pub cpu : List (Metric V)
  pub memory : List (Metric V)
  pub disk : List (Metric V)
  pub battery : Option (Metric V)
  pub thermals : List (Metric V)
  pub network : List (Metric V)
  pub disk_io : List (Metric V)
  pub network_io : List (Metric V)

-- The keys of `self.network.agents`, where the agent has a network.
pub record DeviceMonitorAgent : Type 0 where
  pub name : String
  pub agents : Option (List String)
  pub is_darwin : Bool
  pub has_store : Bool
  pub component_statuses : Dict Severity
  pub consecutive_high_cpu : ℕ
  pub tick_count : ℕ

-- What the monitor does outside: alerts (the agent, the component, its old and its new severity),
-- notifications on the screen (title and message), warnings in the log, and calls of its services.
pub data Effect : Type 0 where
  alerted : String → String → Severity → Severity → Effect
  notified : String → String → Effect
  warned_cpu warned_memory cleaned : Effect
  recorded recorded_slow compacted : Effect

abbrev pub is_degradation : Severity → Severity → Bool
is_degradation ok warning = true
is_degradation ok critical = true
is_degradation warning critical = true
is_degradation _ _ = false

abbrev pub is_recovery : Severity → Severity → Bool
is_recovery warning ok = true
is_recovery critical ok = true
is_recovery critical warning = true
is_recovery _ _ = false

module _ {V : Type 0} where
  -- The severities of the components of a snapshot, loop by loop.
  abbrev pub put_named : String → String → List (Metric V) → Dict Severity → Dict Severity
  put_named metric component [] d = d
  put_named metric component (m ∷ ms) d =
      put_named metric component ms (if str_eq m.name metric then put component m.severity d else d)

  abbrev pub put_each : String → List (Metric V) → Dict Severity → Dict Severity
  put_each prefix [] d = d
  put_each prefix (m ∷ ms) d = put_each prefix ms (put (concat (prefix ∷ m.name ∷ [])) m.severity d)

  abbrev pub put_battery : Option (Metric V) → Dict Severity → Dict Severity
  put_battery none d = d
  put_battery (some m) d = put "battery" m.severity d

  unfoldable pub components_of : DeviceSnapshot V → Dict Severity
  components_of s = put_each "thermal:" s.thermals (
      put_battery s.battery (
        put_each "disk:" s.disk
          (put_named "ram" "memory" s.memory (put_named "cpu_overall" "cpu" s.cpu []))))

-- `_broadcast_health_alert`
abbrev pub alert_each : String → List String → String → Severity → Severity → List Effect
alert_each self [] component old new = []
alert_each self (a ∷ names) component old new =
    let rest = alert_each self names component old new in
    if str_eq a self then rest else alerted a component old new ∷ rest

abbrev pub alert_all : Option (List String) → String → String → Severity → Severity → List Effect
alert_all none self component old new = []
alert_all (some names) self component old new = alert_each self names component old new

abbrev pub broadcast_health_alert : DeviceMonitorAgent → String → Severity → Severity → List Effect
broadcast_health_alert d component old new = alert_all d.agents d.name component old new

-- `new_sev.upper()`
abbrev upper_text : Severity → String
upper_text ok = "OK"
upper_text warning = "WARNING"
upper_text critical = "CRITICAL"

abbrev pub notify_degradation : DeviceMonitorAgent → String → Severity → List Effect
notify_degradation d component new =
    if d.is_darwin
    then notified (concat ("Device Alert: " ∷ component ∷ []))
        (concat (component ∷ " is now " ∷ upper_text new ∷ []))
      ∷ []
    else []

-- What follows from the old and the new severity of a component.
abbrev pub transition : DeviceMonitorAgent → String → Option Severity → Severity → List Effect
transition d component none new = []
transition d component (some old) new =
    if same_severity old new
    then []
    else if is_degradation old new || is_recovery old new
    then broadcast_health_alert d component old new
      ++ (if is_degradation old new then notify_degradation d component new else [])
    else []

abbrev pub set_status : String → Severity → DeviceMonitorAgent → DeviceMonitorAgent
set_status component new d = record d {
  component_statuses = put component new d.component_statuses;
}

unfoldable pub process_each : Dict Severity → DeviceMonitorAgent → List Effect × DeviceMonitorAgent
process_each [] d = ([], d)
process_each ((component, new) ∷ rest) d =
    let now = transition d component (get component d.component_statuses) new in
    let later = process_each rest (set_status component new d) in (now ++ later.0, later.1)

-- A part of a tick: whether it completes (an exception leaves the tick), what it does, and the agent
-- after it.
pub record Part : Type 0 where
  pub completes : Bool
  pub effects : List Effect
  pub agent : DeviceMonitorAgent

abbrev pub run_part : Bool → List Effect → DeviceMonitorAgent → Part
run_part b es d = record { completes = b; effects = es; agent = d }

abbrev pub chain : Part → (DeviceMonitorAgent → Part) → Part
chain p f =
    let next = f p.agent in
    if p.completes then run_part next.completes (p.effects ++ next.effects) next.agent else p

-- One effect, if the call of the service returns.
abbrev pub calls : Bool → Effect → DeviceMonitorAgent → Part
calls returns e d = if returns then run_part true (e ∷ []) d else run_part false [] d

abbrev pub idle : DeviceMonitorAgent → Part
idle d = run_part true [] d

abbrev pub watch_cpu : Bool → Bool → DeviceMonitorAgent → Part
watch_cpu high lists d =
    let more = record d { consecutive_high_cpu = suc d.consecutive_high_cpu } in
    if high
    then (if leb 3 (suc d.consecutive_high_cpu) then calls lists warned_cpu more else idle more)
    else idle (record d { consecutive_high_cpu = 0 })

module _ {V : Type 0} where
  -- `_process_transitions`
  unfoldable pub process_transitions :
      DeviceSnapshot V → DeviceMonitorAgent → List Effect × DeviceMonitorAgent
  process_transitions s d = process_each (components_of s) d

  abbrev pub is_critical : Metric V → Bool
  is_critical m = same_severity m.severity critical

  abbrev pub find_cpu : List (Metric V) → Option (Metric V)
  find_cpu [] = none
  find_cpu (m ∷ ms) = let rest = find_cpu ms in if str_eq m.name "cpu_overall" then some m else rest

  abbrev pub cpu_is_critical : Option (Metric V) → Bool
  cpu_is_critical none = false
  cpu_is_critical (some m) = is_critical m

  -- `_auto_correct`; `cleans` and `lists` tell that `clear_temp_files` and `top_processes` return.
  unfoldable pub auto_correct : Bool → Bool → DeviceSnapshot V → DeviceMonitorAgent → Part
  auto_correct cleans lists s d =
      chain
        (chain (if any is_critical s.disk then calls cleans cleaned d else idle d)
          (watch_cpu (cpu_is_critical (find_cpu s.cpu)) lists))
        (λ e.
          if any (λ m. str_eq m.name "ram" && is_critical m) s.memory
          then calls lists warned_memory e
          else idle e)

-- What the machine does in a tick: the snapshot, unless it raises, and whether the rows of the metrics
-- can be built and the services return.
pub record TickWorld (V : Type 0) : Type 0 where
  pub snap : Option (DeviceSnapshot V)
  pub records : Bool
  pub cleans : Bool
  pub lists : Bool
  pub slow : Bool

abbrev pub every : ℕ → DeviceMonitorAgent → Bool
every n d = (d.tick_count % n) == 0 && d.has_store

module _ {V : Type 0} where
  abbrev pub on_snapshot : Option (DeviceSnapshot V) → TickWorld V → DeviceMonitorAgent → Part
  on_snapshot none w d = run_part false [] d
  on_snapshot (some s) w d =
      chain
        (chain (if d.has_store then calls w.records recorded d else idle d)
          (λ e. let r = process_transitions s e in run_part true r.0 r.1))
        (auto_correct w.cleans w.lists s)

  -- The body of `_monitor_loop`; the loop goes on after an exception.
  unfoldable pub tick : TickWorld V → DeviceMonitorAgent → Part
  tick w d =
      let counted = record d { tick_count = d.tick_count + 1 } in
      chain
        (chain (on_snapshot w.snap w counted)
          (λ e. if every 10 e then calls w.slow recorded_slow e else idle e))
        (λ e. if every 120 e then calls true compacted e else idle e)

  -- The ticks of a run of the loop, with what they did.
  unfoldable pub ticks :
      List (TickWorld V) → DeviceMonitorAgent → List (List Effect) × DeviceMonitorAgent
  ticks [] d = ([], d)
  ticks (w ∷ ws) d =
      let p = tick w d in let later = ticks ws p.agent in (p.effects ∷ later.0, later.1)
