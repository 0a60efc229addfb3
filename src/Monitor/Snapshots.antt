-- ===== src/Monitor/Snapshots.antt =====
-- The severities of a snapshot that `_process_transitions` of
-- jarvis/agents/device_monitor_agent/__init__.py collects.
use jarvis_server.Prelude.{
  map, String, ◌≡◌, refl, sym, ◌∙◌, false, Option, none, some, List, [], ◌∷◌, ◌++◌, arith, str_eq,
  str_eq_iff, keep, if◌then◌else◌, Bool-cases, inl, inr,
}
use jarvis_server.Prelude.Dict.{Dict, get, put, has, get-put}
use jarvis_server.Prelude.Text.{concat}
use jarvis_server.Monitor.{
  Severity, Metric, DeviceSnapshot, put_named, put_each, put_battery, components_of,
}

-- Every key stands once.
abbrev pub IsDict : Dict Severity → Type 0
IsDict [] = Unit
IsDict ((k, v) ∷ m) = (has k m ≡ false) × IsDict m

put-IsDict : (k : String) (v : Severity) (m : Dict Severity) → IsDict m → IsDict (put k v m)
unfolding get put
put-IsDict k v [] h = (refl, tt)
put-IsDict k v ((j, w) ∷ m) (h, t) = elim (Bool-cases (str_eq j k)) [
  | inl e ↦ rw e (h, t)
  | inr e ↦ rw e (
    rw (get-put k j v m) (ground (arith, h, e, str_eq_iff j k, str_eq_iff k j)),
    put-IsDict k v m t,
  )
]

module _ {V : Type 0} where
  put_named-IsDict :
      (metric component : String) (ms : List (Metric V)) (m : Dict Severity)
      → IsDict m
      → IsDict (put_named metric component ms m)
  put_named-IsDict metric component [] m h = h
  put_named-IsDict metric component (x ∷ xs) m h = elim (Bool-cases (str_eq x.name metric)) [
    | inl e ↦ rw e (put_named-IsDict metric component xs _ (put-IsDict component x.severity m h))
    | inr e ↦ rw e (put_named-IsDict metric component xs m h)
  ]

  put_each-IsDict :
      (prefix : String) (ms : List (Metric V)) (m : Dict Severity)
      → IsDict m
      → IsDict (put_each prefix ms m)
  put_each-IsDict prefix [] m h = h
  put_each-IsDict prefix (x ∷ xs) m h =
      put_each-IsDict prefix xs _ (put-IsDict (concat (prefix ∷ x.name ∷ [])) x.severity m h)

  put_battery-IsDict :
      (b : Option (Metric V)) (m : Dict Severity) → IsDict m → IsDict (put_battery b m)
  put_battery-IsDict none m h = h
  put_battery-IsDict (some x) m h = put-IsDict "battery" x.severity m h

  pub components_of-IsDict : (s : DeviceSnapshot V) → IsDict (components_of s)
  unfolding components_of
  components_of-IsDict s = put_each-IsDict "thermal:" s.thermals _ (
      put_battery-IsDict s.battery _ (
        put_each-IsDict "disk:" s.disk _ (
          put_named-IsDict "ram" "memory" s.memory _
            (put_named-IsDict "cpu_overall" "cpu" s.cpu [] tt))))

abbrev pub newer : Option Severity → Option Severity → Option Severity
newer none old = old
newer (some v) old = some v

-- The severity that stands last in a list of readings under a name
abbrev last_of : String → List (String × Severity) → Option Severity
last_of c [] = none
last_of c ((k, v) ∷ rs) = newer (last_of c rs) (if str_eq k c then some v else none)

newer_assoc : (x y z : Option Severity) → newer x (newer y z) ≡ newer (newer x y) z
newer_assoc none y z = refl
newer_assoc (some v) y z = refl

last_of-append :
    (c : String) (xs ys : List (String × Severity))
    → last_of c (xs ++ ys) ≡ newer (last_of c ys) (last_of c xs)
last_of-append c [] ys = ground arith
last_of-append c ((k, v) ∷ xs) ys =
    rw (last_of-append c xs ys) (sym (newer_assoc (last_of c ys) (last_of c xs) _))

last_of_five :
    (c : String) (xs ys zs us vs : List (String × Severity))
    → last_of c (xs ++ ys ++ zs ++ us ++ vs)
      ≡ newer
          (last_of c vs)
          (newer (last_of c us) (newer (last_of c zs) (newer (last_of c ys) (last_of c xs))))
last_of_five c xs ys zs us vs =
    rw
      (
        last_of-append c (xs ++ ys ++ zs ++ us) vs,
        last_of-append c (xs ++ ys ++ zs) us,
        last_of-append c (xs ++ ys) zs,
        last_of-append c xs ys,
      )
      refl

newer-none : (o : Option Severity) → newer o none ≡ o
newer-none none = refl
newer-none (some v) = refl

newer-put :
    (c k : String) (v : Severity) (o : Option Severity) (d : Dict Severity)
    → newer o (get c (put k v d)) ≡ newer (newer o (if str_eq k c then some v else none)) (get c d)
newer-put c k v o d = rw (get-put k c v d) (elim (Bool-cases (str_eq k c)) [
  | inl e ↦ rw e (newer_assoc o (some v) (get c d))
  | inr e ↦ rw e (newer_assoc o none (get c d))
])

module _ {V : Type 0} where
  -- The metrics that stand for a component, in the order of the snapshot, each with the component
  abbrev under : String → List (Metric V) → List (String × Severity)
  under component = map (λ m. (component, m.severity))

  abbrev under_own : String → List (Metric V) → List (String × Severity)
  under_own prefix = map (λ m. (concat (prefix ∷ m.name ∷ []), m.severity))

  abbrev battery_readings : Option (Metric V) → List (String × Severity)
  battery_readings none = []
  battery_readings (some m) = ("battery", m.severity) ∷ []

  abbrev readings : DeviceSnapshot V → List (String × Severity)
  readings s =
      under "cpu" (keep (λ m. str_eq m.name "cpu_overall") s.cpu)
      ++ under "memory" (keep (λ m. str_eq m.name "ram") s.memory)
      ++ under_own "disk:" s.disk
      ++ battery_readings s.battery
      ++ under_own "thermal:" s.thermals

  -- The severity of a component in a snapshot
  abbrev pub reported : String → DeviceSnapshot V → Option Severity
  reported c s = last_of c (readings s)

  get-put_named :
      (c metric component : String) (ms : List (Metric V)) (d : Dict Severity)
      → get c (put_named metric component ms d)
        ≡ newer (last_of c (under component (keep (λ m. str_eq m.name metric) ms))) (get c d)
  get-put_named c metric component [] d = refl
  get-put_named c metric component (x ∷ xs) d = elim (Bool-cases (str_eq x.name metric)) [
    | inl e ↦ rw e (
        get-put_named c metric component xs (put component x.severity d)
        ∙ newer-put c component x.severity _ d)
    | inr e ↦ rw e (get-put_named c metric component xs d)
  ]

  get-put_each :
      (c prefix : String) (ms : List (Metric V)) (d : Dict Severity)
      → get c (put_each prefix ms d) ≡ newer (last_of c (under_own prefix ms)) (get c d)
  get-put_each c prefix [] d = refl
  get-put_each c prefix (x ∷ xs) d =
      get-put_each c prefix xs (put (concat (prefix ∷ x.name ∷ [])) x.severity d)
      ∙ newer-put c (concat (prefix ∷ x.name ∷ [])) x.severity _ d

  get-put_battery :
      (c : String) (b : Option (Metric V)) (d : Dict Severity)
      → get c (put_battery b d) ≡ newer (last_of c (battery_readings b)) (get c d)
  get-put_battery c none d = refl
  get-put_battery c (some m) d = newer-put c "battery" m.severity none d

  pub get-components_of :
      (c : String) (s : DeviceSnapshot V) → get c (components_of s) ≡ reported c s
  unfolding components_of get
  get-components_of c s =
      let cpu = under "cpu" (keep (λ m. str_eq m.name "cpu_overall") s.cpu) in
      let memory = under "memory" (keep (λ m. str_eq m.name "ram") s.memory) in
      rw
        (
          get-put_each c "thermal:" s.thermals,
          get-put_battery c s.battery,
          get-put_each c "disk:" s.disk,
          get-put_named c "ram" "memory" s.memory,
          get-put_named c "cpu_overall" "cpu" s.cpu [],
          newer-none (last_of c cpu),
        )
        (sym (
          last_of_five c cpu memory (under_own "disk:" s.disk) (battery_readings s.battery)
            (under_own "thermal:" s.thermals)))
