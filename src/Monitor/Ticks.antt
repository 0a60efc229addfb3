-- ===== src/Monitor/Ticks.antt =====
-- The loop of jarvis/agents/device_monitor_agent/__init__.py over many ticks.
use jarvis_server.Prelude.{
  ℕ, suc, ◌+◌, ◌-◌, ◌/◌, ◌%◌, map, ◌<◌, ◌≡◌, refl, ◌∙◌, Bool, true, false, ◌&&◌, some, List, [],
  ◌∷◌, arith, ◌==◌, any, length, if◌then◌else◌, Bool-cases, inl, inr, str_eq,
}
use jarvis_server.Monitor.{
  DeviceSnapshot, DeviceMonitorAgent, Effect, compacted, recorded, recorded_slow, cleaned,
  warned_memory, process_transitions, Part, run_part, chain, calls, idle, auto_correct, TickWorld,
  on_snapshot, every, tick, ticks, is_critical, cpu_is_critical, find_cpu,
}
use jarvis_server.Monitor.Parts.{
  is_compacted, any-append, Quiet, chain-Quiet, optional-Quiet, Completes, optional-Completes,
  watch_cpu-Completes, chain-Completes, on_snapshot-Quiet,
}

only_compacted :
    (e g : DeviceMonitorAgent) (b : Bool)
    → any is_compacted
        (if b && true then run_part true (compacted ∷ []) e else run_part true [] g).effects
      ≡ b
only_compacted e g true = refl
only_compacted e g false = refl

-- One more tick ends a period of 120 ticks if its number is divisible by 120.
next_period :
    (t n c : ℕ)
    → c ≡ (t + 1 + n) / 120 - (t + 1) / 120
    → (if ((t + 1) % 120) == 0 then suc c else c) ≡ (t + suc n) / 120 - t / 120
next_period t n c h = elim (Bool-cases (((t + 1) % 120) == 0)) [
  | inl e ↦ rw e (omega (arith, h, is_zero ((t + 1) % 120) e))
  | inr e ↦ rw e (omega (arith, h, is_positive ((t + 1) % 120) e))
]
  where
    is_zero : (b : ℕ) → (b == 0) ≡ true → b ≡ 0
    is_zero b e = ground arith

    is_positive : (b : ℕ) → (b == 0) ≡ false → 0 < b
    is_positive b e = ground arith

module _ {V : Type 0} where
  abbrev ordinary : TickWorld V → DeviceMonitorAgent → Part
  ordinary w d =
      chain (on_snapshot w.snap w (record d { tick_count = d.tick_count + 1 }))
        (λ e. if every 10 e then calls w.slow recorded_slow e else idle e)

  ordinary-Quiet :
      (w : TickWorld V) (d : DeviceMonitorAgent)
      → Quiet (ordinary w d) (record d { tick_count = d.tick_count + 1 })
  ordinary-Quiet w d =
      chain-Quiet _ _ _ (on_snapshot-Quiet w.snap w _)
        (λ e. optional-Quiet (every 10 e) w.slow recorded_slow e refl)

  tick-Kept :
      (w : TickWorld V) (d : DeviceMonitorAgent)
      → ((tick w d).agent.tick_count ≡ d.tick_count + 1)
        × ((tick w d).agent.has_store ≡ d.has_store)
  unfolding tick
  tick-Kept w d = go (ordinary w d) (ordinary-Quiet w d)
    where
      go :
          (p : Part)
          → Quiet p (record d { tick_count = d.tick_count + 1 })
          → let q = chain p (λ e. if every 120 e then calls true compacted e else idle e) in
            (q.agent.tick_count ≡ d.tick_count + 1) × (q.agent.has_store ≡ d.has_store)
      go p q = elim (Bool-cases p.completes) [
        | inr e ↦ (rw e q.count, rw e q.store)
        | inl e ↦ elim (Bool-cases (every 120 p.agent)) [
          | inl f ↦ (rw (e, f) q.count, rw (e, f) q.store)
          | inr f ↦ (rw (e, f) q.count, rw (e, f) q.store)
        ]
      ]

  ticks-Kept :
      (ws : List (TickWorld V)) (d : DeviceMonitorAgent)
      → ((ticks ws d).1.tick_count ≡ d.tick_count + length ws)
        × ((ticks ws d).1.has_store ≡ d.has_store)
  unfolding ticks
  ticks-Kept [] d = (omega arith, refl)
  ticks-Kept (w ∷ ws) d =
      let (a, b) = ticks-Kept ws (tick w d).agent in
      let (x, y) = tick-Kept w d in (a ∙ omega (arith, x), b ∙ y)

  -- A tick in which the machine answers and no service raises.
  abbrev pub working : DeviceSnapshot V → TickWorld V
  working s = record { snap = some s; records = true; cleans = true; lists = true; slow = true }

  ordinary-Completes :
      (s : DeviceSnapshot V) (d : DeviceMonitorAgent) → Completes (ordinary (working s) d)
  unfolding auto_correct
  ordinary-Completes s d =
      chain-Completes _ _
        (chain-Completes _ _
          (chain-Completes _ (λ e. let r = process_transitions s e in run_part true r.0 r.1)
            (optional-Completes d.has_store recorded _) (λ e. record { holds = refl }))
          (λ e.
            chain-Completes _ _
              (chain-Completes _ _ (optional-Completes (any is_critical s.disk) cleaned e)
                (watch_cpu-Completes (cpu_is_critical (find_cpu s.cpu))))
              (λ g.
                optional-Completes (any (λ m. str_eq m.name "ram" && is_critical m) s.memory)
                  warned_memory g)))
        (λ e. optional-Completes (every 10 e) recorded_slow e)

  tick-compacts :
      (s : DeviceSnapshot V) (d : DeviceMonitorAgent)
      → d.has_store ≡ true
      → any is_compacted (tick (working s) d).effects ≡ (((d.tick_count + 1) % 120) == 0)
  unfolding tick
  tick-compacts s d h =
      go (ordinary (working s) d) (ordinary-Quiet (working s) d) (ordinary-Completes s d)
    where
      go :
          (p : Part)
          → Quiet p (record d { tick_count = d.tick_count + 1 })
          → Completes p
          → any is_compacted
              (chain p (λ e. if every 120 e then calls true compacted e else idle e)).effects
            ≡ (((d.tick_count + 1) % 120) == 0)
      go p q c =
          rw
            (
              c.holds,
              any-append is_compacted p.effects
                  (if every 120 p.agent
                    then calls true compacted p.agent
                    else idle p.agent).effects,
              q.nothing,
              q.count,
              q.store,
              h,
            )
            (only_compacted _ _ (((d.tick_count + 1) % 120) == 0))

-- In how many ticks the store was compacted.
abbrev pub compactions : List (List Effect) → ℕ
compactions [] = 0
compactions (es ∷ ess) =
    let rest = compactions ess in if any is_compacted es then suc rest else rest

ticks-compactions :
    {V : Type 0} (snaps : List (DeviceSnapshot V)) (d : DeviceMonitorAgent)
    → d.has_store ≡ true
    → compactions (ticks (map working snaps) d).0
      ≡ (d.tick_count + length snaps) / 120 - d.tick_count / 120
unfolding ticks
ticks-compactions [] d h = omega arith
ticks-compactions (s ∷ ss) d h =
    let (a, b) = tick-Kept (working s) d in
    let ih = ticks-compactions ss (tick (working s) d).agent (b ∙ h) in
    rw (tick-compacts s d h) (
      next_period d.tick_count (length ss)
        (compactions (ticks (map working ss) (tick (working s) d).agent).0) (ih ∙ rw a refl))

-- After ticks of any kind, also such in which something raises, the loop of a monitor with a store
-- compacts the store once in 120 ticks, whatever the snapshots measure, while the machine answers and
-- no service raises.
pub ticks-IsPeriodic :
    {V : Type 0} (before : List (TickWorld V)) (snaps : List (DeviceSnapshot V))
    (d : DeviceMonitorAgent)
    → d.has_store ≡ true
    → let start = d.tick_count + length before in
      compactions (ticks (map working snaps) (ticks before d).1).0
      ≡ (start + length snaps) / 120 - start / 120
ticks-IsPeriodic before snaps d h =
    let (a, b) = ticks-Kept before d in
    ticks-compactions snaps (ticks before d).1 (b ∙ h) ∙ rw a refl
