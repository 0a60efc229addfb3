-- ===== src/Monitor/Tests.antt =====
-- Instances of the theorems on jarvis/agents/device_monitor_agent/__init__.py, and runs of it.
use jarvis_server.Prelude.{ℕ, String, ◌≡◌, refl, true, none, some, [], ◌∷◌, map}
use jarvis_server.Prelude.Dict.{get, put}
use jarvis_server.Prelude.Text.{concat}
use jarvis_server.Monitor.{
  Severity, ok, warning, critical, Metric, DeviceSnapshot, DeviceMonitorAgent, alerted, notified,
  components_of, process_each, process_transitions, TickWorld, ticks, auto_correct, warned_cpu,
}
use jarvis_server.Monitor.Snapshots.{newer, reported}
use jarvis_server.Monitor.Transitions.{alerts_on, due_alerts, process_transitions-Alerts}
use jarvis_server.Monitor.Ticks.{working, compactions, ticks-IsPeriodic}

abbrev metric : String → Severity → Metric ℕ
metric name s = record { name = name; value = 0; unit = "%"; severity = s }

abbrev measured : Severity → Severity → DeviceSnapshot ℕ
measured cpu disk = record {
  cpu = metric "cpu_overall" cpu ∷ [];
  memory = metric "ram" ok ∷ [];
  disk = metric "root" disk ∷ [];
  battery = none;
  thermals = [];
  network = [];
  disk_io = [];
  network_io = [];
}

abbrev monitor : DeviceMonitorAgent
monitor = record {
  name = "DeviceMonitorAgent";
  agents = some ("DeviceMonitorAgent" ∷ "NightAgent" ∷ []);
  is_darwin = true;
  has_store = true;
  component_statuses = ("cpu", ok) ∷ [];
  consecutive_high_cpu = 2;
  tick_count = 118;
}

-- One agent is alerted of the processor, and nobody of the disk, which is measured first now.
alerts_once :
    (process_transitions (measured critical critical) monitor).0
    ≡ alerted "NightAgent" "cpu" ok critical
      ∷ notified "Device Alert: cpu" "cpu is now CRITICAL"
      ∷ []
unfolding process_transitions process_each components_of get put concat
alerts_once = refl

third_time : (auto_correct true true (measured critical ok) monitor).effects ≡ warned_cpu ∷ []
unfolding auto_correct
third_time = refl

process_transitions-Alerts_example :
    let r = process_transitions (measured critical ok) monitor in
    (get "cpu" r.1.component_statuses
      ≡ newer (reported "cpu" (measured critical ok)) (get "cpu" monitor.component_statuses))
    × (alerts_on "cpu" r.0
        ≡ due_alerts monitor "cpu"
            (get "cpu" monitor.component_statuses)
            (reported "cpu" (measured critical ok)))
process_transitions-Alerts_example = process_transitions-Alerts (measured critical ok) monitor "cpu"

abbrev lost : TickWorld ℕ
lost = record { snap = none; records = true; cleans = true; lists = true; slow = true }

ticks-IsPeriodic_example :
    compactions
      (ticks
        (map working (measured ok ok ∷ measured warning ok ∷ []))
        (ticks (lost ∷ []) monitor).1).0
    ≡ 1
ticks-IsPeriodic_example =
    ticks-IsPeriodic (lost ∷ []) (measured ok ok ∷ measured warning ok ∷ []) monitor refl
