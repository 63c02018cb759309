-- ===== src/Tty/Load.antt =====
-- Loading and unloading in kernel/hwe_tty.c: the loops over the ports and over the table.
use linux_hardware_devices_e.Prelude.{
  ℕ, zero, suc, ◌+◌, ◌<◌, ◌≤◌, ◌≡◌, refl, ap, subst, ◌∙◌, Bool-cases, Option-cases, sym, ◌↔◌, inl,
  inr, Bool, true, false, [], Option, none, some, Bytes, arith, ◌==◌, if◌then◌else◌,
}
use linux_hardware_devices_e.Consts.{hwe_max_devices, Errno, Ret, ok, err, fault}
use linux_hardware_devices_e.Tty.{
  TtyDriver, store, destroy_at, init_ports, destroy_ports, hwe_init_tty, destroy_left,
  hwe_cleanup_tty,
}
use linux_hardware_devices_e.Tty.Slots.{IsTable, destroy_tty-IsTable, destroy_tty_devices}

store_same : {A : Type 0} (i k : ℕ) (x : A) (f : ℕ → A) → f k ≡ x → store i x f k ≡ x
store_same i k x f e = ground arith

destroy_ports-none :
    (n i k : ℕ) (ports : ℕ → Option Bytes) → ports k ≡ none → destroy_ports n i ports k ≡ none
unfolding destroy_ports
destroy_ports-none zero i k ports e = e
destroy_ports-none (suc n) i k ports e =
    destroy_ports-none n (i + 1) k (store i none ports) (store_same i k none ports e)

destroy_ports_in :
    (n i k : ℕ) (ports : ℕ → Option Bytes) → i ≤ k → k < i + n → destroy_ports n i ports k ≡ none
unfolding destroy_ports
destroy_ports_in zero i k ports le lt = absurd (omega arith)
destroy_ports_in (suc n) i k ports le lt = elim (Bool-cases (i == k)) [
  | inl e ↦ destroy_ports-none n (i + 1) k (store i none ports) (ground arith)
  | inr e ↦ destroy_ports_in n (i + 1) k (store i none ports) (ground arith) (omega arith)
]

init_ports-some :
    (n i k : ℕ) (ports : ℕ → Option Bytes) → ports k ≡ some [] → init_ports n i ports k ≡ some []
unfolding init_ports
init_ports-some zero i k ports e = e
init_ports-some (suc n) i k ports e =
    init_ports-some n (i + 1) k (store i (some []) ports) (store_same i k (some []) ports e)

init_ports_in :
    (n i k : ℕ) (ports : ℕ → Option Bytes) → i ≤ k → k < i + n → init_ports n i ports k ≡ some []
unfolding init_ports
init_ports_in zero i k ports le lt = absurd (omega arith)
init_ports_in (suc n) i k ports le lt = elim (Bool-cases (i == k)) [
  | inl e ↦ init_ports-some n (i + 1) k (store i (some []) ports) (ground arith)
  | inr e ↦ init_ports_in n (i + 1) k (store i (some []) ports) (ground arith) (omega arith)
]

left_at : ℕ → TtyDriver → TtyDriver
left_at i t = destroy_at t i (t.devices i)

left_at-IsTable : (i : ℕ) (t : TtyDriver) → IsTable t → IsTable (left_at i t)
unfolding left_at
left_at-IsTable i t v = elim (Option-cases (t.devices i)) [
  | inl e ↦ subst (λ o. IsTable (destroy_at t i o)) (sym e) v
  | inr (dev, e) ↦ subst (λ o. IsTable (destroy_at t i o)) (sym e) (destroy_tty-IsTable t i v)
]

left_at_devices :
    (i k : ℕ) (t : TtyDriver)
    → IsTable t
    → (left_at i t).devices k ≡ (if i == k then none else t.devices k)
unfolding left_at
left_at_devices i k t v = elim (Option-cases (t.devices i)) [
  | inl e ↦ ap (λ o. (destroy_at t i o).devices k) e ∙ elim (Bool-cases (i == k)) [
    | inl s ↦ rw s (let ik : i ≡ k = ground arith in ap t.devices (sym ik) ∙ e)
    | inr s ↦ rw s refl
  ]
  | inr (dev, e) ↦ ap (λ o. (destroy_at t i o).devices k) e ∙ destroy_tty_devices t i k v
]

destroy_left-none :
    (n i k : ℕ) (t : TtyDriver)
    → IsTable t
    → t.devices k ≡ none
    → (destroy_left n i t).devices k ≡ none
unfolding destroy_left left_at
destroy_left-none zero i k t v e = e
destroy_left-none (suc n) i k t v e =
    destroy_left-none n (i + 1) k (left_at i t) (left_at-IsTable i t v)
      (left_at_devices i k t v ∙ store_same i k none t.devices e)

destroy_left_in :
    (n i k : ℕ) (t : TtyDriver)
    → IsTable t
    → i ≤ k
    → k < i + n
    → (destroy_left n i t).devices k ≡ none
unfolding destroy_left left_at
destroy_left_in zero i k t v le lt = absurd (omega arith)
destroy_left_in (suc n) i k t v le lt = elim (Bool-cases (i == k)) [
  | inl e ↦
      destroy_left-none n (i + 1) k (left_at i t) (left_at-IsTable i t v)
        (left_at_devices i k t v ∙ ap (λ b. if b then none else t.devices k) e)
  | inr e ↦
      destroy_left_in n (i + 1) k (left_at i t) (left_at-IsTable i t v) (ground arith) (omega arith)
]

-- Unloading the tty driver ends with no private data and no port at any of the 256 places, and with no
-- driver registered, whatever the interface had left behind in a table that is in order.
pub hwe_cleanup_tty_empty :
    (t : TtyDriver) (k : ℕ)
    → IsTable t
    → k < hwe_max_devices
    → ((hwe_cleanup_tty t).driver ≡ false)
      × ((hwe_cleanup_tty t).devices k ≡ none)
      × ((hwe_cleanup_tty t).ports k ≡ none)
unfolding hwe_cleanup_tty
hwe_cleanup_tty_empty t k v lt = (
  refl,
  destroy_left_in hwe_max_devices 0 k t v (omega arith) (omega arith),
  destroy_ports_in hwe_max_devices 0 k (destroy_left hwe_max_devices 0 t).ports (omega arith)
      (omega arith),
)

-- A place that is free stays free.
pub hwe_cleanup_tty-none :
    (t : TtyDriver) (k : ℕ) → IsTable t → t.devices k ≡ none → (hwe_cleanup_tty t).devices k ≡ none
unfolding hwe_cleanup_tty
hwe_cleanup_tty-none t k v e = destroy_left-none hwe_max_devices 0 k t v e

-- A driver behind hwe_init_tty(), by its result.
abbrev pub loaded : Ret → Bool
loaded (ok n) = true
loaded (err e) = false
loaded fault = false

-- A port behind hwe_init_tty(), by its result.
abbrev pub port_after : Ret → Option Bytes
port_after (ok n) = some []
port_after (err e) = none
port_after fault = some []

-- Loading the tty driver, where none is loaded: it returns 0 with a registered driver whose 256 ports
-- are all ready and empty, and an error with no driver registered and none of them ready. If
-- tty_alloc_driver() fails, it does neither: an error pointer is dereferenced, with the ports ready.
pub hwe_init_tty_cases :
    (alloc_driver : Bool) (register_driver : Option Errno) (t : TtyDriver) (k : ℕ)
    → t.driver ≡ false
    → k < hwe_max_devices
    → ((hwe_init_tty alloc_driver register_driver t).0.driver
        ≡ loaded (hwe_init_tty alloc_driver register_driver t).1)
      × ((hwe_init_tty alloc_driver register_driver t).0.ports k
          ≡ port_after (hwe_init_tty alloc_driver register_driver t).1)
      × ((alloc_driver ≡ false) ↔ ((hwe_init_tty alloc_driver register_driver t).1 ≡ fault))
unfolding hwe_init_tty
hwe_init_tty_cases false register_driver t k driver lt = (
  driver,
  init_ports_in hwe_max_devices 0 k t.ports (omega arith) (omega arith),
  (λ e. refl, λ e. refl),
)
hwe_init_tty_cases true none t k driver lt = (
  refl,
  init_ports_in hwe_max_devices 0 k t.ports (omega arith) (omega arith),
  (λ e. absurd cc, λ e. absurd cc),
)
hwe_init_tty_cases true (some e) t k driver lt = (
  driver,
  destroy_ports_in hwe_max_devices 0 k (init_ports hwe_max_devices 0 t.ports) (omega arith)
      (omega arith),
  (λ e. absurd cc, λ e. absurd cc),
)
