-- ===== src/Monitor/Parts.antt =====
-- The parts of a tick of jarvis/agents/device_monitor_agent/__init__.py.
use jarvis_server.Prelude.{
  suc, String, ◌≡◌, refl, ◌∙◌, Bool, true, false, ◌||◌, ◌&&◌, Option, none, some, List, [], ◌∷◌,
  ◌++◌, arith, any, if◌then◌else◌, Bool-cases, inl, inr, leb, str_eq,
}
use jarvis_server.Prelude.Dict.{Dict, get}
use jarvis_server.Monitor.{
  Severity, DeviceSnapshot, DeviceMonitorAgent, Effect, compacted, recorded, cleaned, warned_cpu,
  warned_memory, transition, alert_each, alert_all, set_status, is_degradation, is_recovery,
  same_severity, process_each, components_of, process_transitions, Part, run_part, chain, calls,
  idle, watch_cpu, auto_correct, TickWorld, on_snapshot, is_critical, cpu_is_critical, find_cpu,
}

abbrev pub is_compacted : Effect → Bool
is_compacted compacted = true
is_compacted _ = false

pub any-append :
    (p : Effect → Bool) (xs ys : List Effect) → any p (xs ++ ys) ≡ (any p xs || any p ys)
any-append p [] ys = refl
any-append p (x ∷ xs) ys = ground (arith, any-append p xs ys)

-- A part that compacts nothing and leaves the number of the tick.
pub record Quiet (p : Part) (d : DeviceMonitorAgent) : Type 0 where
  pub nothing : any is_compacted p.effects ≡ false
  pub count : p.agent.tick_count ≡ d.tick_count
  pub store : p.agent.has_store ≡ d.has_store

still :
    {p : Part} {d : DeviceMonitorAgent}
    → any is_compacted p.effects ≡ false
    → p.agent.tick_count ≡ d.tick_count
    → p.agent.has_store ≡ d.has_store
    → Quiet p d
still a b c = record { nothing = a; count = b; store = c }

pub chain-Quiet :
    (p : Part) (f : DeviceMonitorAgent → Part) (d : DeviceMonitorAgent)
    → Quiet p d
    → ((e : DeviceMonitorAgent) → Quiet (f e) e)
    → Quiet (chain p f) d
chain-Quiet p f d q h =
    let r = h p.agent in
    elim (Bool-cases p.completes) [
      | inl e ↦
          still
            (rw e (
              any-append is_compacted p.effects (f p.agent).effects
              ∙ rw (q.nothing, r.nothing) refl))
            (rw e (r.count ∙ q.count)) (rw e (r.store ∙ q.store))
      | inr e ↦ still (rw e q.nothing) (rw e q.count) (rw e q.store)
    ]

calls-Quiet :
    (r : Bool) (x : Effect) (d e : DeviceMonitorAgent)
    → is_compacted x ≡ false
    → e.tick_count ≡ d.tick_count
    → e.has_store ≡ d.has_store
    → Quiet (calls r x e) d
calls-Quiet true x d e h t s = still (rw h refl) t s
calls-Quiet false x d e h t s = still refl t s

alert_all-NotCompacted :
    (o : Option (List String)) (self k : String) (old new : Severity)
    → any is_compacted (alert_all o self k old new) ≡ false
alert_all-NotCompacted none self k old new = refl
alert_all-NotCompacted (some names) self k old new = go names
  where
    go : (ns : List String) → any is_compacted (alert_each self ns k old new) ≡ false
    go [] = refl
    go (a ∷ ns) = ground (arith, go ns)

transition-NotCompacted :
    (d : DeviceMonitorAgent) (k : String) (o : Option Severity) (v : Severity)
    → any is_compacted (transition d k o v) ≡ false
transition-NotCompacted d k none v = refl
transition-NotCompacted d k (some old) v =
    branches (same_severity old v) (is_degradation old v || is_recovery old v)
      (is_degradation old v) _ _ (alert_all-NotCompacted d.agents d.name k old v) (ground arith)
  where
    branches :
        (a b c : Bool) (xs ys : List Effect)
        → any is_compacted xs ≡ false
        → any is_compacted ys ≡ false
        → any is_compacted (if a then [] else if b then xs ++ (if c then ys else []) else [])
          ≡ false
    branches true b c xs ys h k = refl
    branches false false c xs ys h k = refl
    branches false true true xs ys h k = any-append is_compacted xs ys ∙ rw (h, k) refl
    branches false true false xs ys h k = any-append is_compacted xs [] ∙ rw h refl

process_each-Quiet :
    (m : Dict Severity) (d : DeviceMonitorAgent)
    → Quiet (run_part true (process_each m d).0 (process_each m d).1) d
unfolding process_each
process_each-Quiet [] d = still refl refl refl
process_each-Quiet ((k, v) ∷ m) d =
    let q = process_each-Quiet m (set_status k v d) in
    still
      (any-append is_compacted (transition d k (get k d.component_statuses) v) _
        ∙ rw (transition-NotCompacted d k (get k d.component_statuses) v) q.nothing)
      q.count q.store

watch_cpu-Quiet : (high lists : Bool) (d : DeviceMonitorAgent) → Quiet (watch_cpu high lists d) d
watch_cpu-Quiet false lists d = still refl refl refl
watch_cpu-Quiet true lists d = go (leb 3 (suc d.consecutive_high_cpu))
  where
    more : DeviceMonitorAgent
    more = record d { consecutive_high_cpu = suc d.consecutive_high_cpu }

    go : (b : Bool) → Quiet (if b then calls lists warned_cpu more else idle more) d
    go true = calls-Quiet lists warned_cpu d more refl refl refl
    go false = still refl refl refl

pub optional-Quiet :
    (b r : Bool) (x : Effect) (d : DeviceMonitorAgent)
    → is_compacted x ≡ false
    → Quiet (if b then calls r x d else idle d) d
optional-Quiet true r x d h = calls-Quiet r x d d h refl refl
optional-Quiet false r x d h = still refl refl refl

pub record Completes (p : Part) : Type 0 where
  pub holds : p.completes ≡ true

pub optional-Completes :
    (b : Bool) (x : Effect) (d : DeviceMonitorAgent)
    → Completes (if b then calls true x d else idle d)
optional-Completes true x d = record { holds = refl }
optional-Completes false x d = record { holds = refl }

pub watch_cpu-Completes : (high : Bool) (d : DeviceMonitorAgent) → Completes (watch_cpu high true d)
watch_cpu-Completes false d = record { holds = refl }
watch_cpu-Completes true d = record { holds = ground arith }

pub chain-Completes :
    (p : Part) (f : DeviceMonitorAgent → Part)
    → Completes p
    → ((e : DeviceMonitorAgent) → Completes (f e))
    → Completes (chain p f)
chain-Completes p f h k = record { holds = rw h.holds (k p.agent).holds }

module _ {V : Type 0} where
  pub on_snapshot-Quiet :
      (o : Option (DeviceSnapshot V)) (w : TickWorld V) (d : DeviceMonitorAgent)
      → Quiet (on_snapshot o w d) d
  unfolding process_transitions auto_correct
  on_snapshot-Quiet none w d = still refl refl refl
  on_snapshot-Quiet (some s) w d =
      chain-Quiet _ _ d
        (chain-Quiet _ _ d (optional-Quiet d.has_store w.records recorded d refl)
          (λ e. process_each-Quiet (components_of s) e))
        (λ e.
          chain-Quiet _ _ e
            (chain-Quiet _ _ e (optional-Quiet (any is_critical s.disk) w.cleans cleaned e refl)
              (watch_cpu-Quiet (cpu_is_critical (find_cpu s.cpu)) w.lists))
            (λ g.
              optional-Quiet (any (λ m. str_eq m.name "ram" && is_critical m) s.memory) w.lists
                warned_memory g refl))
