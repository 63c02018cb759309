-- ===== src/I2c/Devices/Create.antt =====
-- Creating and destroying devices in the list of kernel/hwe_i2c.c: which entry a device gets, and what
-- becomes of the owners of the others.
use linux_hardware_devices_e.Prelude.{
  ℕ, ◌≡◌, ◌≢◌, ◌⊎◌, refl, ap, sym, subst, ◌∙◌, Bool-cases, Option-cases, inl, inr, false, [], ◌∷◌,
  Option, none, some, arith, All, ◌==◌, ==_refl, ltb, if◌then◌else◌,
}
use linux_hardware_devices_e.Consts.{hwe_max_devices, Errno}
use linux_hardware_devices_e.Pool.{Pool, Memory, addresses, lookup, replace, IsDistinct}
use linux_hardware_devices_e.Pool.Laws.{
  lookup_fresh, lookup-remove, lookup-replace, remove-IsDistinct, replace-IsDistinct,
}
use linux_hardware_devices_e.Handles.{given}
use linux_hardware_devices_e.I2c.Devices.{
  I2cEntry, I2cEnv, init_dev, zero_entry, find_unused_dev, new_entry, alloc_from, alloc_dev,
  del_dev, adapter_added, allocated, hwe_create_i2c_device, unused, destroyed,
  hwe_destroy_i2c_device,
}

abbrev pub hwedev_of : Option I2cEntry → Option ℕ
hwedev_of none = none
hwedev_of (some e) = if e.dev.in_use then some e.hwedev else none

-- The device that the private data at an address belong to.
abbrev pub i2c_owner : Pool I2cEntry → ℕ → Option ℕ
i2c_owner devices a = hwedev_of (lookup devices a)

-- What alloc_dev() finds is the entry at an address, and is not in use.
find_unused_dev_sound :
    (devices : Pool I2cEntry) (u : ℕ × I2cEntry)
    → find_unused_dev devices ≡ some u
    → IsDistinct devices
    → (lookup devices u.0 ≡ some u.1) × (u.1.dev.in_use ≡ false)
unfolding find_unused_dev lookup
find_unused_dev_sound [] u e v = absurd cc
find_unused_dev_sound (d ∷ list) u e v = elim (Bool-cases d.1.dev.in_use) [
  | inr f ↦
      let it : d ≡ u = ground arith in
      subst
        (λ x.
          ((if d.0 == x.0 then some d.1 else lookup list x.0) ≡ some x.1)
          × (x.1.dev.in_use ≡ false))
        it (ap (λ b. if b then some d.1 else lookup list d.0) (==_refl d.0), f)
  | inl t ↦
      let rest = find_unused_dev_sound list u (ground arith) v.1 in
      (
        elim (Bool-cases (d.0 == u.0)) [
          | inl s ↦
              let du : d.0 ≡ u.0 = ground arith in
              let none_there : lookup list u.0 ≡ none =
                lookup_fresh u.0 list (subst (λ n. All (λ b. b ≢ n) (addresses list)) du v.0) in
              let bad : none ≡ some u.1 = sym none_there ∙ rest.0 in absurd cc
          | inr s ↦ ap (λ b. if b then some d.1 else lookup list u.0) s ∙ rest.0
        ],
        rest.1,
      )
]

-- What alloc_dev() returns: nothing, and the list is as it was, or an address that no live device had,
-- with a device of the index in use.
record Allocated (devices : Pool I2cEntry) (i a : ℕ) (after : Pool I2cEntry) : Type 0 where
  distinct : IsDistinct after
  free : i2c_owner devices a ≡ none
  owners : (k : ℕ) → i2c_owner after k ≡ (if a == k then some i else i2c_owner devices k)

module _ (memory : Memory) (devices : Pool I2cEntry) (i : ℕ) (v : IsDistinct devices) where
  taken_over :
      (u : ℕ × I2cEntry)
      → find_unused_dev devices ≡ some u
      → Allocated devices i u.0 (replace u.0 (init_dev u.1 i i) devices)
  taken_over u e =
      let (at, idle) = find_unused_dev_sound devices u e v in
      record {
        distinct = replace-IsDistinct u.0 (init_dev u.1 i i) devices v;
        free = ap hwedev_of at ∙ ap (λ b. if b then some u.1.hwedev else none) idle;
        owners = λ k.
            ap hwedev_of (lookup-replace u.0 k u.1 (init_dev u.1 i i) devices at)
            ∙ elim (Bool-cases (u.0 == k)) [
              | inl s ↦
                  ap (λ b. hwedev_of (if b then some (init_dev u.1 i i) else lookup devices k)) s
                  ∙ ap (λ b. if b then some i else i2c_owner devices k) (sym s)
              | inr s ↦
                  ap (λ b. hwedev_of (if b then some (init_dev u.1 i i) else lookup devices k)) s
                  ∙ ap (λ b. if b then some i else i2c_owner devices k) (sym s)
            ];
      }

  made_new :
      (a : ℕ)
      → memory.alloc (addresses devices) ≡ some a
      → Allocated devices i a ((a, init_dev zero_entry i i) ∷ devices)
  unfolding lookup
  made_new a e =
      let apart = memory.fresh (addresses devices) a e in
      record {
        distinct = (apart, v);
        free = ap hwedev_of (lookup_fresh a devices apart);
        owners = λ k. ground arith;
      }

  alloc_dev_cases :
      (x : Pool I2cEntry × Option ℕ)
      → alloc_dev memory devices i i ≡ x
      → (x ≡ (devices, none)) ⊎ ((a : ℕ) × (x.1 ≡ some a) × Allocated devices i a x.0)
  unfolding alloc_dev alloc_from
  alloc_dev_cases x e = elim (Option-cases (find_unused_dev devices)) [
    | inr (u, f) ↦
        subst (λ y. (y ≡ (devices, none)) ⊎ ((a : ℕ) × (y.1 ≡ some a) × Allocated devices i a y.0))
          (sym (ap (alloc_from memory devices i i) f) ∙ e) (inr (u.0, refl, taken_over u f))
    | inl f ↦ elim (Option-cases (memory.alloc (addresses devices))) [
      | inl m ↦ inl (sym e ∙ ap (alloc_from memory devices i i) f ∙ ap (new_entry devices i i) m)
      | inr (a, m) ↦
          subst
            (λ y. (y ≡ (devices, none)) ⊎ ((a : ℕ) × (y.1 ≡ some a) × Allocated devices i a y.0))
            (sym (ap (alloc_from memory devices i i) f ∙ ap (new_entry devices i i) m) ∙ e)
            (inr (a, refl, made_new a m))
    ]
  ]

-- What a creation for a device does: see the laws of the drivers.
pub record Created (devices : Pool I2cEntry) (i : ℕ) (x : Pool I2cEntry × Option ℕ) : Type 0 where
  pub distinct : IsDistinct x.0
  pub fresh : (h : ℕ) → x.1 ≡ some h → i2c_owner devices h ≡ none
  pub owners : (k : ℕ) → i2c_owner x.0 k ≡ given x.1 i k (i2c_owner devices k)

module _ (env : I2cEnv) (devices : Pool I2cEntry) (i : ℕ) (v : IsDistinct devices) where
  unchanged-Created : Created devices i (devices, none)
  unchanged-Created = record { distinct = v; fresh = λ h e. cc; owners = λ k. refl }

  adapter_added-Created :
      (a : ℕ) (after : Pool I2cEntry) (answer : Option Errno)
      → Allocated devices i a after
      → Created devices i (adapter_added after a answer)
  adapter_added-Created a after none al = record {
    distinct = al.distinct;
    fresh = λ h e. (let ah : a ≡ h = cc in ap (i2c_owner devices) (sym ah) ∙ al.free);
    owners = al.owners;
  }
  adapter_added-Created a after (some err) al = record {
    distinct = unfold del_dev in remove-IsDistinct a after al.distinct;
    fresh = λ h e. cc;
    owners = λ k.
        unfold del_dev in
        (ap hwedev_of (lookup-remove a k after al.distinct) ∙ elim (Bool-cases (a == k)) [
          | inl s ↦
              let ak : a ≡ k = ground arith in
              ap (λ b. hwedev_of (if b then none else lookup after k)) s
              ∙ sym (ap (i2c_owner devices) (sym ak) ∙ al.free)
          | inr s ↦
              ap (λ b. hwedev_of (if b then none else lookup after k)) s
              ∙ al.owners k
              ∙ ap (λ b. if b then some i else i2c_owner devices k) s
        ]);
  }

  allocated-Created : Created devices i (allocated env (alloc_dev env.memory devices i i))
  allocated-Created =
      let x = alloc_dev env.memory devices i i in
      elim (alloc_dev_cases env.memory devices i v x refl) [
        | inl e ↦ subst (λ y. Created devices i (allocated env y)) (sym e) unchanged-Created
        | inr (a, e, al) ↦
            subst (λ o. Created devices i (allocated env (x.0, o))) (sym e)
              (adapter_added-Created a x.0 env.add_adapter al)
      ]

  pub create_i2c-Created : Created devices i (hwe_create_i2c_device env devices i i)
  unfolding hwe_create_i2c_device
  create_i2c-Created = elim (Bool-cases (ltb i hwe_max_devices)) [
    | inl t ↦ rw t allocated-Created
    | inr f ↦ rw f unchanged-Created
  ]

destroyed-IsDistinct :
    (devices : Pool I2cEntry) (h : ℕ) (o : Option I2cEntry)
    → IsDistinct devices
    → IsDistinct (destroyed devices h o)
destroyed-IsDistinct devices h none v = v
destroyed-IsDistinct devices h (some e) v = replace-IsDistinct h (unused e) devices v

pub destroy_i2c-IsDistinct :
    (devices : Pool I2cEntry) (h : ℕ)
    → IsDistinct devices
    → IsDistinct (hwe_destroy_i2c_device devices h)
unfolding hwe_destroy_i2c_device
destroy_i2c-IsDistinct devices h v = destroyed-IsDistinct devices h (lookup devices h) v

pub destroy_i2c_found :
    (devices : Pool I2cEntry) (h : ℕ) (e : I2cEntry)
    → lookup devices h ≡ some e
    → hwe_destroy_i2c_device devices h ≡ replace h (unused e) devices
unfolding hwe_destroy_i2c_device
destroy_i2c_found devices h e at = ap (destroyed devices h) at

pub destroy_i2c_owner :
    (devices : Pool I2cEntry) (h k : ℕ)
    → i2c_owner (hwe_destroy_i2c_device devices h) k
      ≡ (if h == k then none else i2c_owner devices k)
unfolding hwe_destroy_i2c_device
destroy_i2c_owner devices h k = elim (Option-cases (lookup devices h)) [
  | inl e ↦ ap (λ o. i2c_owner (destroyed devices h o) k) e ∙ elim (Bool-cases (h == k)) [
    | inl s ↦
        let hk : h ≡ k = ground arith in
        ap hwedev_of (ap (lookup devices) (sym hk) ∙ e)
        ∙ ap (λ b. if b then none else i2c_owner devices k) (sym s)
    | inr s ↦ ap (λ b. if b then none else i2c_owner devices k) (sym s)
  ]
  | inr (x, e) ↦
      ap (λ o. i2c_owner (destroyed devices h o) k) e
      ∙ ap hwedev_of (lookup-replace h k x (unused x) devices e)
      ∙ elim (Bool-cases (h == k)) [
        | inl s ↦
            ap (λ b. hwedev_of (if b then some (unused x) else lookup devices k)) s
            ∙ ap (λ b. if b then none else i2c_owner devices k) (sym s)
        | inr s ↦
            ap (λ b. hwedev_of (if b then some (unused x) else lookup devices k)) s
            ∙ ap (λ b. if b then none else i2c_owner devices k) (sym s)
      ]
]
