-- ===== src/Tty/Slots.antt =====
-- The table `devices` of kernel/hwe_tty.c: what creating, destroying and unloading do to it.
use linux_hardware_devices_e.Prelude.{
  ℕ, ◌≡◌, ◌≢◌, refl, ap, sym, ◌∙◌, Bool-cases, Option-cases, inl, inr, false, Option, none, some,
  arith, ◌==◌, ltb, if◌then◌else◌,
}
use linux_hardware_devices_e.Consts.{hwe_max_devices}
use linux_hardware_devices_e.Handles.{given}
use linux_hardware_devices_e.Tty.{
  TtyPriv, TtyDriver, TtyEnv, put_device, hwe_create_tty_device, hwe_destroy_tty_device,
}

abbrev pub hwedev_of : Option TtyPriv → Option ℕ
hwedev_of none = none
hwedev_of (some dev) = some dev.hwedev

-- The device that the private data at a place belong to.
abbrev pub tty_owner : TtyDriver → ℕ → Option ℕ
tty_owner t k = hwedev_of (t.devices k)

-- Private data stand at the place of their index, which is their device's.
abbrev pub IsTable : TtyDriver → Type 0
IsTable t = (k : ℕ) (dev : TtyPriv) → t.devices k ≡ some dev → (dev.index ≡ k) × (dev.hwedev ≡ k)

pub slot_free :
    (t : TtyDriver) (i : ℕ) → IsTable t → ((h : ℕ) → tty_owner t h ≢ some i) → t.devices i ≡ none
slot_free t i v free = elim (Option-cases (t.devices i)) [
  | inl e ↦ e
  | inr (dev, e) ↦ absurd (free i (ap hwedev_of e ∙ ap some (v i dev e).1))
]

pub put_device-IsTable :
    (t : TtyDriver) (i : ℕ) (b : Option TtyPriv)
    → IsTable t
    → ((dev : TtyPriv) → b ≡ some dev → (dev.index ≡ i) × (dev.hwedev ≡ i))
    → IsTable (put_device i b t)
put_device-IsTable t i b v new k dev e = elim (Bool-cases (i == k)) [
  | inl c ↦
      let ik : i ≡ k = ground arith in
      let at = new dev (ap (λ x. if x then b else t.devices k) (sym c) ∙ e) in
      (at.0 ∙ ik, at.1 ∙ ik)
  | inr c ↦ v k dev (ap (λ x. if x then b else t.devices k) (sym c) ∙ e)
]

module _ (env : TtyEnv) (t : TtyDriver) (i : ℕ) (v : IsTable t) where
  abbrev priv : TtyPriv
  priv = record { hwedev = i; tty = false; index = i }

  filled-IsTable : IsTable (put_device i (some priv) t)
  filled-IsTable = put_device-IsTable t i (some priv) v (λ dev e.
      let it : priv ≡ dev = cc in
      (ap (λ (x : TtyPriv). x.index) (sym it), ap (λ (x : TtyPriv). x.hwedev) (sym it)))

  pub create_tty-IsTable : IsTable (hwe_create_tty_device env t i i).0
  unfolding hwe_create_tty_device
  create_tty-IsTable = elim (Bool-cases (ltb i hwe_max_devices)) [
    | inr c ↦ rw c v
    | inl c ↦ elim (Bool-cases env.kzalloc) [
      | inr a ↦ rw (c, a) v
      | inl a ↦ elim (Option-cases env.register_device) [
        | inl r ↦ rw (c, a, r) filled-IsTable
        | inr (e, r) ↦
            rw (c, a, r)
              (put_device-IsTable (put_device i (some priv) t) i none filled-IsTable
                (λ dev bad. cc))
      ]
    ]
  ]

  pub create_tty_owner :
      (k : ℕ)
      → t.devices i ≡ none
      → tty_owner (hwe_create_tty_device env t i i).0 k
        ≡ given (hwe_create_tty_device env t i i).1 i k (tty_owner t k)
  unfolding hwe_create_tty_device
  create_tty_owner k free = elim (Bool-cases (ltb i hwe_max_devices)) [
    | inr c ↦ rw c refl
    | inl c ↦ elim (Bool-cases env.kzalloc) [
      | inr a ↦ rw (c, a) refl
      | inl a ↦ elim (Option-cases env.register_device) [
        | inl r ↦ rw (c, a, r) (ground arith)
        | inr (e, r) ↦
            rw (c, a, r)
              (elim (Bool-cases (i == k)) [
                | inl s ↦ rw s (
                    let ik : i ≡ k = ground arith in
                    sym (ap hwedev_of (ap t.devices (sym ik) ∙ free)))
                | inr s ↦ rw s refl
              ])
      ]
    ]
  ]

  pub create_tty_fresh : (h : ℕ) → (hwe_create_tty_device env t i i).1 ≡ some h → h ≡ i
  unfolding hwe_create_tty_device
  create_tty_fresh h e = ground arith

pub destroy_tty-IsTable :
    (t : TtyDriver) (h : ℕ) → IsTable t → IsTable (hwe_destroy_tty_device t h).0
unfolding hwe_destroy_tty_device
destroy_tty-IsTable t h v = elim (Option-cases (t.devices h)) [
  | inl e ↦ rw e v
  | inr (dev, e) ↦ rw e (put_device-IsTable t dev.index none v (λ d bad. cc))
]

pub destroy_tty_devices :
    (t : TtyDriver) (h k : ℕ)
    → IsTable t
    → (hwe_destroy_tty_device t h).0.devices k ≡ (if h == k then none else t.devices k)
unfolding hwe_destroy_tty_device
destroy_tty_devices t h k v = elim (Option-cases (t.devices h)) [
  | inl e ↦ rw e (elim (Bool-cases (h == k)) [
    | inl s ↦ rw s (let hk : h ≡ k = ground arith in ap t.devices (sym hk) ∙ e)
    | inr s ↦ rw s refl
  ])
  | inr (dev, e) ↦ rw (e, (v h dev e).0) refl
]
