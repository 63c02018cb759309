-- ===== src/Async/Schedule.antt =====
-- When the timer of kernel/hwe_async.c receives a pair, and what it leaves alone.
use linux_hardware_devices_e.Prelude.{
  ℕ, ◌+◌, ◌%◌, ◌^◌, ◌<◌, ◌≤◌, ◌≡◌, ◌≢◌, refl, ap, sym, subst, ◌∙◌, Bool-cases, inl, inr, Bool, true,
  false, arith, ◌==◌, leb, lt→ltb, le→ltb, if◌then◌else◌,
}
use linux_hardware_devices_e.Consts.{Iface, tty, i2c, net, spi}
use linux_hardware_devices_e.Utils.Pair.{HwePair}
use linux_hardware_devices_e.Sysfs.Registry.{State}
use linux_hardware_devices_e.Sysfs.Registry.Sems.{SameSems, set_iface_sems}
use linux_hardware_devices_e.Sysfs.Calls.{lock_iface_devs, unlock_iface_devs, try_lock_iface_devs}
use linux_hardware_devices_e.Sysfs.Calls.Locks.{unlock-lock_sems}
use linux_hardware_devices_e.Async.{
  time_after_eq, due_time, is_due, AsyncRx, visit_locked, visit_iface, timer_func,
}

not_before : (s n : ℕ) → s < 2 ^ 64 → n < 2 ^ 63 → time_after_eq s ((s + n) % 2 ^ 64) ≡ (n == 0)
unfolding time_after_eq
not_before s n s_lt n_lt = elim (Bool-cases (n == 0)) [
  | inl t ↦ (let e : n ≡ 0 = ground arith in lt→ltb _ _ (omega (arith, s_lt, e)) ∙ sym t)
  | inr f ↦ (let e : 0 < n = ground arith in le→ltb _ _ (omega (arith, s_lt, n_lt, e)) ∙ sym f)
]

apart :
    (s n k : ℕ)
    → s < 2 ^ 64
    → n < 2 ^ 62
    → k < 2 ^ 62
    → time_after_eq ((s + k) % 2 ^ 64) ((s + n) % 2 ^ 64) ≡ leb n k
unfolding time_after_eq
apart s n k s_lt n_lt k_lt = elim (Bool-cases (leb n k)) [
  | inl t ↦
      (let e : n ≤ k = ground arith in lt→ltb _ _ (omega (arith, s_lt, n_lt, k_lt, e)) ∙ sym t)
  | inr f ↦
      (let e : k < n = ground arith in le→ltb _ _ (omega (arith, s_lt, n_lt, k_lt, e)) ∙ sym f)
]

-- On a counter of 64 bits: of two times that are less than half its range apart, a time `t` that is `n`
-- ticks later than `s`, whether or not the counter wrapped between them, is at or after `s`, and, unless it
-- is the same, `s` is not at or after `t`.
pub time_after_eq-wraps :
    (s n : ℕ)
    → s < 2 ^ 64
    → n < 2 ^ 63
    → (time_after_eq ((s + n) % 2 ^ 64) s ≡ true) × (time_after_eq s ((s + n) % 2 ^ 64) ≡ (n == 0))
unfolding time_after_eq
time_after_eq-wraps s n s_lt n_lt =
    (lt→ltb _ _ (omega (arith, s_lt, n_lt)), not_before s n s_lt n_lt)

-- An asynchronous pair that was received at a time other than 0 of the 64-bit counter, with a period
-- below 2^62: up to 2^62 ticks later, also if the counter wraps, it is due exactly from the period on, and
-- its next time is the last one plus the period.
pub is_due_period :
    (p : HwePair) (k : ℕ)
    → p.async_rx ≡ true
    → p.time ≢ 0
    → p.time < 2 ^ 64
    → p.period < 2 ^ 62
    → k < 2 ^ 62
    → (is_due ((p.time + k) % 2 ^ 64) p ≡ leb p.period k)
      × (due_time ((p.time + k) % 2 ^ 64) p ≡ (p.time + p.period) % 2 ^ 64)
unfolding is_due due_time
is_due_period p k async received t_lt period_lt k_lt =
    let jiff = (p.time + k) % 2 ^ 64 in
    let due : due_time jiff p ≡ (p.time + p.period) % 2 ^ 64 = ground (arith, received) in
    (
      ap (λ b. if b then time_after_eq jiff (due_time jiff p) else false) async
          ∙ ap (time_after_eq jiff) due
          ∙ apart p.time p.period k t_lt period_lt k_lt,
      due,
    )

module _ {D : Type 0} (async_rx : AsyncRx D) (jiff : ℕ) where
  visit_locked_sems : (st : State D) (ifc : Iface) → SameSems st (visit_locked async_rx jiff st ifc)
  unfolding visit_locked
  visit_locked_sems st ifc i = set_iface_sems st ifc _ refl i

  visit_iface_sems : (st : State D) (ifc : Iface) → SameSems st (visit_iface async_rx jiff st ifc)
  unfolding visit_iface try_lock_iface_devs
  visit_iface_sems st ifc =
      let locked = lock_iface_devs st ifc in
      let tried : Bool → State D × Bool = λ b. if b then (st, false) else (locked, true) in
      let outcome : State D × Bool → State D =
        λ x. if x.1 then unlock_iface_devs (visit_locked async_rx jiff x.0 ifc) ifc else st in
      elim (Bool-cases ((st.ifaces ifc).sem == 0)) [
        | inl taken ↦ subst (λ b. SameSems st (outcome (tried b))) (sym taken) (λ i. refl)
        | inr free ↦
            subst (λ b. SameSems st (outcome (tried b))) (sym free)
              (unlock-lock_sems st (visit_locked async_rx jiff locked ifc) ifc (ground arith)
                (visit_locked_sems locked ifc))
      ]

  -- The timer gives back each semaphore that it takes, and waits for none.
  pub timer_func_sems : (st : State D) → SameSems st (timer_func async_rx jiff st)
  unfolding timer_func
  timer_func_sems st i =
      let st₁ = visit_iface async_rx jiff st tty in
      let st₂ = visit_iface async_rx jiff st₁ i2c in
      let st₃ = visit_iface async_rx jiff st₂ net in
      visit_iface_sems st₃ spi i
      ∙ visit_iface_sems st₂ net i
      ∙ visit_iface_sems st₁ i2c i
      ∙ visit_iface_sems st tty i
