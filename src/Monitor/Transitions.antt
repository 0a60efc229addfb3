-- ===== src/Monitor/Transitions.antt =====
-- The alerts of `_process_transitions` of jarvis/agents/device_monitor_agent/__init__.py.
use jarvis_server.Prelude.{
  map, not, get_or, String, ◌≡◌, refl, ap, sym, ◌∙◌, Bool, false, Option, none, some, List, [], ◌∷◌,
  ◌++◌, arith, str_eq, str_eq_iff, keep, keep-append, append-nil, if◌then◌else◌, Bool-cases,
  Option-cases, inl, inr,
}
use jarvis_server.Prelude.Dict.{Dict, get, put, has, get-put, get-put_self}
use jarvis_server.Monitor.{
  Severity, ok, warning, critical, same_severity, DeviceSnapshot, DeviceMonitorAgent, Effect,
  alerted, components_of, alert_each, alert_all, broadcast_health_alert, notify_degradation,
  transition, set_status, process_each, process_transitions,
}
use jarvis_server.Monitor.Snapshots.{
  newer, IsDict, components_of-IsDict, reported, get-components_of,
}

-- The alerts on one component among all effects.
abbrev is_alert_on : String → Effect → Bool
is_alert_on c (alerted to k old new) = str_eq k c
is_alert_on c _ = false

abbrev pub alerts_on : String → List Effect → List Effect
alerts_on c = keep (is_alert_on c)

-- One alert for each agent of the network but the monitor itself.
abbrev alert_others : DeviceMonitorAgent → String → Severity → Severity → List Effect
alert_others d c old new =
    map (λ a. alerted a c old new) (keep (λ a. not (str_eq a d.name)) (get_or [] d.agents))

alert_each-others :
    (self c : String) (old new : Severity) (names : List String)
    → alert_each self names c old new
      ≡ map (λ a. alerted a c old new) (keep (λ a. not (str_eq a self)) names)
alert_each-others self c old new [] = refl
alert_each-others self c old new (a ∷ names) =
    let rest = alert_each-others self c old new names in
    elim (Bool-cases (str_eq a self)) [
      | inl e ↦ rw e rest
      | inr e ↦ rw e (ap (λ es. alerted a c old new ∷ es) rest)
    ]

broadcast-others :
    (d : DeviceMonitorAgent) (c : String) (old new : Severity)
    → broadcast_health_alert d c old new ≡ alert_others d c old new
broadcast-others d c old new = go d.agents
  where
    go :
        (o : Option (List String))
        → alert_all o d.name c old new
          ≡ map (λ a. alerted a c old new) (keep (λ a. not (str_eq a d.name)) (get_or [] o))
    go none = refl
    go (some names) = alert_each-others d.name c old new names

-- What is due for a component with this known and this new severity.
abbrev pub due_alerts :
    DeviceMonitorAgent → String → Option Severity → Option Severity → List Effect
due_alerts d c none new = []
due_alerts d c (some old) none = []
due_alerts d c (some old) (some new) =
    if same_severity old new then [] else alert_others d c old new

alerts_on-alert_each :
    (c k self : String) (names : List String) (old new : Severity)
    → alerts_on c (alert_each self names k old new)
      ≡ (if str_eq k c then alert_each self names k old new else [])
alerts_on-alert_each c k self [] old new = ground arith
alerts_on-alert_each c k self (a ∷ names) old new =
    ground (arith, alerts_on-alert_each c k self names old new)

alerts_on-broadcast :
    (d : DeviceMonitorAgent) (c k : String) (old new : Severity)
    → alerts_on c (broadcast_health_alert d k old new)
      ≡ (if str_eq k c then broadcast_health_alert d k old new else [])
alerts_on-broadcast d c k old new = go d.agents
  where
    go :
        (o : Option (List String))
        → alerts_on c (alert_all o d.name k old new)
          ≡ (if str_eq k c then alert_all o d.name k old new else [])
    go none = ground arith
    go (some names) = alerts_on-alert_each c k d.name names old new

alerts_on-notify :
    (d : DeviceMonitorAgent) (c k : String) (new : Severity)
    → alerts_on c (notify_degradation d k new) ≡ []
alerts_on-notify d c k new = ground arith

alerts_on-broadcast_and :
    (d : DeviceMonitorAgent) (c k : String) (old new : Severity) (more : List Effect)
    → alerts_on c more ≡ []
    → alerts_on c (broadcast_health_alert d k old new ++ more)
      ≡ (if str_eq k c then alert_others d k old new else [])
alerts_on-broadcast_and d c k old new more h =
    keep-append (is_alert_on c) (broadcast_health_alert d k old new) more
    ∙ rw (h, append-nil (alerts_on c (broadcast_health_alert d k old new)))
        (alerts_on-broadcast d c k old new)
    ∙ ap (λ es. if str_eq k c then es else []) (broadcast-others d k old new)

alerts_on-transition :
    (d : DeviceMonitorAgent) (c k : String) (o : Option Severity) (new : Severity)
    → alerts_on c (transition d k o new) ≡ (if str_eq k c then due_alerts d k o (some new) else [])
alerts_on-transition d c k none new = ground arith
alerts_on-transition d c k (some ok) ok = ground arith
alerts_on-transition d c k (some warning) warning = ground arith
alerts_on-transition d c k (some critical) critical = ground arith
alerts_on-transition d c k (some ok) warning =
    alerts_on-broadcast_and d c k ok warning _ (alerts_on-notify d c k warning)
alerts_on-transition d c k (some ok) critical =
    alerts_on-broadcast_and d c k ok critical _ (alerts_on-notify d c k critical)
alerts_on-transition d c k (some warning) critical =
    alerts_on-broadcast_and d c k warning critical _ (alerts_on-notify d c k critical)
alerts_on-transition d c k (some warning) ok = alerts_on-broadcast_and d c k warning ok [] refl
alerts_on-transition d c k (some critical) ok = alerts_on-broadcast_and d c k critical ok [] refl
alerts_on-transition d c k (some critical) warning =
    alerts_on-broadcast_and d c k critical warning [] refl

due_alerts-none :
    (d : DeviceMonitorAgent) (c : String) (o : Option Severity) → due_alerts d c o none ≡ []
due_alerts-none d c none = refl
due_alerts-none d c (some old) = refl

-- The effects of the rest of the components after those of the first one.
abbrev Follows : Dict Severity → DeviceMonitorAgent → String → Option Severity → Type 0
Follows m d c new =
    let r = process_each m d in
    (get c r.1.component_statuses ≡ newer new (get c d.component_statuses))
    × (alerts_on c r.0 ≡ due_alerts d c (get c d.component_statuses) new)

abbrev first_effects : String → Severity → DeviceMonitorAgent → List Effect
first_effects k v d = transition d k (get k d.component_statuses) v

at_key :
    (k : String) (v : Severity) (m : Dict Severity) (d : DeviceMonitorAgent)
    → has k m ≡ false
    → Follows m (set_status k v d) k (get k m)
    → (get k (process_each m (set_status k v d)).1.component_statuses ≡ some v)
      × (alerts_on k (first_effects k v d ++ (process_each m (set_status k v d)).0)
          ≡ due_alerts d k (get k d.component_statuses) (some v))
at_key k v m d h (status, alerts) = elim (Option-cases (get k m)) [
  | inr (w, q) ↦ absurd (clash q h)
  | inl q ↦ (
    status ∙ rw (q, get-put_self k v d.component_statuses) refl,
    keep-append (is_alert_on k) (first_effects k v d) _
        ∙ rw
            (
              alerts,
              q,
              due_alerts-none (set_status k v d) k (get k (put k v d.component_statuses)),
              append-nil (alerts_on k (first_effects k v d)),
            )
            (alerts_on-transition d k k (get k d.component_statuses) v
              ∙ rw ((str_eq_iff k k).1 refl) refl),
  )
]
  where
    clash : {w : Severity} → get k m ≡ some w → has k m ≡ false → ⊥
    clash q h = cc

at_other :
    (k : String) (v : Severity) (m : Dict Severity) (d : DeviceMonitorAgent) (c : String)
    → str_eq k c ≡ false
    → Follows m (set_status k v d) c (get c m)
    → (get c (process_each m (set_status k v d)).1.component_statuses
        ≡ newer (get c m) (get c d.component_statuses))
      × (alerts_on c (first_effects k v d ++ (process_each m (set_status k v d)).0)
          ≡ due_alerts d c (get c d.component_statuses) (get c m))
at_other k v m d c e (status, alerts) =
    let same = get-put k c v d.component_statuses ∙ rw e refl in
    (
      status ∙ ap (newer (get c m)) same,
      keep-append (is_alert_on c) (first_effects k v d) _
          ∙ rw (alerts_on-transition d c k (get k d.component_statuses) v, e)
              (alerts ∙ ap (λ o. due_alerts d c o (get c m)) same),
    )

process_each-Alerts :
    (m : Dict Severity) (d : DeviceMonitorAgent) (c : String)
    → IsDict m
    → let r = process_each m d in
      (get c r.1.component_statuses ≡ newer (get c m) (get c d.component_statuses))
      × (alerts_on c r.0 ≡ due_alerts d c (get c d.component_statuses) (get c m))
unfolding process_each get
process_each-Alerts [] d c h = (refl, sym (due_alerts-none d c (get c d.component_statuses)))
process_each-Alerts ((k, v) ∷ m) d c (h, t) = elim (Bool-cases (str_eq k c)) [
  | inl e ↦
      rw (sym ((str_eq_iff k c).0 e), (str_eq_iff k k).1 refl)
        (at_key k v m d h (process_each-Alerts m (set_status k v d) k t))
  | inr e ↦ rw e (at_other k v m d c e (process_each-Alerts m (set_status k v d) c t))
]

-- After a snapshot the status of each component is its severity in the snapshot, that of the last
-- metric that stands for it, or the one before if there is none. If the severity of a component was known and is another now, there is one alert on it,
-- with both severities, for each agent of the network but the monitor itself, in their order, and no
-- other; in every other case there is no alert on it.
pub process_transitions-Alerts :
    {V : Type 0} (s : DeviceSnapshot V) (d : DeviceMonitorAgent) (c : String)
    → let r = process_transitions s d in
      (get c r.1.component_statuses ≡ newer (reported c s) (get c d.component_statuses))
      × (alerts_on c r.0 ≡ due_alerts d c (get c d.component_statuses) (reported c s))
unfolding process_transitions
process_transitions-Alerts s d c =
    rw (sym (get-components_of c s))
      (process_each-Alerts (components_of s) d c (components_of-IsDict s))
