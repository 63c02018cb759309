-- ===== src/I2c/Devices/Reuse.antt =====
-- An entry of the list of kernel/hwe_i2c.c that is given up serves the next device.
use linux_hardware_devices_e.Prelude.{
  ℕ, ◌<◌, ◌≡◌, refl, ap, ◌∙◌, Bool-cases, inl, inr, true, [], ◌∷◌, Option, none, some, arith, ◌==◌,
  ==_refl, ltb, length, if◌then◌else◌,
}
use linux_hardware_devices_e.Consts.{hwe_max_devices}
use linux_hardware_devices_e.Pool.{Pool, lookup, remove, replace}
use linux_hardware_devices_e.Pool.Laws.{lookup-replace}
use linux_hardware_devices_e.I2c.Devices.{
  I2cEntry, I2cEnv, init_dev, find_unused_dev, alloc_from, alloc_dev, del_dev, adapter_added,
  allocated, hwe_create_i2c_device, unused, destroyed, hwe_destroy_i2c_device, cleanup_each,
  hwe_cleanup_i2c,
}
use linux_hardware_devices_e.I2c.Devices.Create.{destroy_i2c_found}

length-replace :
    {A : Type 0} (a : ℕ) (x : A) (list : Pool A) → length (replace a x list) ≡ length list
unfolding replace
length-replace a x [] = refl
length-replace a x (e ∷ list) = ground (arith, length-replace a x list)

-- An entry that is given up is there for the next device.
find_unused_dev-replace :
    (devices : Pool I2cEntry) (h : ℕ) (e : I2cEntry)
    → lookup devices h ≡ some e
    → (u : ℕ × I2cEntry) × (find_unused_dev (replace h (unused e) devices) ≡ some u)
unfolding find_unused_dev replace lookup
find_unused_dev-replace [] h e at = absurd cc
find_unused_dev-replace (d ∷ list) h e at = elim (Bool-cases (d.0 == h)) [
  | inl s ↦ rw s ((h, unused e), refl)
  | inr s ↦ elim (Bool-cases d.1.dev.in_use) [
    | inr f ↦
        rw s (d, ap (λ b. if b then find_unused_dev (replace h (unused e) list) else some d) f)
    | inl t ↦ rw (s, t) (find_unused_dev-replace list h e (ground arith))
  ]
]

-- When an i2c device is destroyed, its entry is given up and stays, so transfers through it find a
-- device that is not in use; and the next device at an index in range is created without memory being
-- asked for, whatever the allocator answers, in a list no longer than before, if the kernel takes the
-- adapter.
pub hwe_create_i2c_device-destroy :
    (env : I2cEnv) (devices : Pool I2cEntry) (h i : ℕ) (e : I2cEntry)
    → lookup devices h ≡ some e
    → i < hwe_max_devices
    → env.add_adapter ≡ none
    → (lookup (hwe_destroy_i2c_device devices h) h ≡ some (unused e))
      × ((a : ℕ) × ((hwe_create_i2c_device env (hwe_destroy_i2c_device devices h) i i).1 ≡ some a))
      × (length (hwe_create_i2c_device env (hwe_destroy_i2c_device devices h) i i).0
          ≡ length devices)
unfolding hwe_create_i2c_device alloc_dev alloc_from
hwe_create_i2c_device-destroy env devices h i e at lt taken =
    let given_up = replace h (unused e) devices in
    let (u, free) = find_unused_dev-replace devices h e at in
    let same = destroy_i2c_found devices h e at in
    let in_range : ltb i hwe_max_devices ≡ true = ground arith in
    let made : hwe_create_i2c_device env (hwe_destroy_i2c_device devices h) i i
        ≡ (replace u.0 (init_dev u.1 i i) given_up, some u.0) =
      ap (λ list. hwe_create_i2c_device env list i i) same
      ∙ ap (λ b. if b then allocated env (alloc_dev env.memory given_up i i) else (given_up, none))
          in_range
      ∙ ap (λ o. allocated env (alloc_from env.memory given_up i i o)) free
      ∙ ap (adapter_added (replace u.0 (init_dev u.1 i i) given_up) u.0) taken in
    (
      ap (λ list. lookup list h) same
          ∙ lookup-replace h h e (unused e) devices at
          ∙ ap (λ b. if b then some (unused e) else lookup devices h) (==_refl h),
      (u.0, ap (λ (x : Pool I2cEntry × Option ℕ). x.1) made),
      ap (λ (x : Pool I2cEntry × Option ℕ). length x.0) made
          ∙ length-replace u.0 (init_dev u.1 i i) given_up
          ∙ length-replace h (unused e) devices,
    )

module _ (e : ℕ × I2cEntry) (rest : Pool I2cEntry) where
  lookup_head : lookup (e ∷ rest) e.0 ≡ some e.1
  unfolding lookup
  lookup_head = ap (λ b. if b then some e.1 else lookup rest e.0) (==_refl e.0)

  replace_head : (x : I2cEntry) → replace e.0 x (e ∷ rest) ≡ (e.0, x) ∷ rest
  unfolding replace
  replace_head x = ap (λ b. if b then (e.0, x) ∷ rest else e ∷ replace e.0 x rest) (==_refl e.0)

  remove_head : remove e.0 (e ∷ rest) ≡ rest
  unfolding remove
  remove_head = ap (λ b. if b then rest else e ∷ remove e.0 rest) (==_refl e.0)

cleanup_each_all : (devices : Pool I2cEntry) → cleanup_each devices devices ≡ []
unfolding cleanup_each del_dev hwe_destroy_i2c_device
cleanup_each_all [] = refl
cleanup_each_all (e ∷ rest) =
    ap (cleanup_each rest) (elim (Bool-cases e.1.dev.in_use) [
      | inl t ↦
          ap
            (λ b.
              remove e.0 (if b then destroyed (e ∷ rest) e.0 (lookup (e ∷ rest) e.0) else e ∷ rest))
            t
          ∙ ap (λ o. remove e.0 (destroyed (e ∷ rest) e.0 o)) (lookup_head e rest)
          ∙ ap (remove e.0) (replace_head e rest (unused e.1))
          ∙ remove_head (e.0, unused e.1) rest
      | inr f ↦
          ap
            (λ b.
              remove e.0 (if b then destroyed (e ∷ rest) e.0 (lookup (e ∷ rest) e.0) else e ∷ rest))
            f
          ∙ remove_head e rest
    ])
    ∙ cleanup_each_all rest

-- Unloading the i2c driver takes every entry out of the list, used or given up.
pub hwe_cleanup_i2c_empty : (devices : Pool I2cEntry) → hwe_cleanup_i2c devices ≡ []
unfolding hwe_cleanup_i2c
hwe_cleanup_i2c_empty devices = cleanup_each_all devices
