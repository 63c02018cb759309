-- ===== src/Main.antt =====
-- hwemu_init() and hwemu_exit() of kernel/hwe_main.c, with the tables of the units' functions, which
-- HWE_FOREACH_IFACE and HWE_FOREACH_UNIT list. What the units' functions do is a parameter.
pub mod Unwind
use linux_hardware_devices_e.Prelude.{
  ℕ, suc, zero, Bool, true, false, List, [], ◌∷◌, ◌++◌, Option, none, some,
}
use linux_hardware_devices_e.Consts.{Ret, ok, err, fault}

pub data Part : Type 0 where
  init_tty init_i2c init_net init_spi init_async init_sysfs init_ioctl : Part

-- init_funcs[], and cleanup_funcs[] in the same order.
abbrev pub parts : List Part
parts = init_tty ∷ init_i2c ∷ init_net ∷ init_spi ∷ init_async ∷ init_sysfs ∷ init_ioctl ∷ []

-- The functions of the two tables on a state.
pub record Units (S : Type 0) : Type 0 where
  pub init : Part → S → S × Ret
  pub cleanup : Part → S → S

module _ {S : Type 0} (units : Units S) where
  open units use {init, cleanup}

  -- The loop that goes down from the last unit; the list is what is below it, last first.
  unfoldable pub cleanup_all : List Part → S → S
  cleanup_all [] s = s
  cleanup_all (u ∷ done) s = cleanup_all done (cleanup u s)

  -- The loop from a unit on; `done` is what was initialised, last first. A unit that dereferences a
  -- pointer that is none is where it ends.
  unfoldable pub init_from : List Part → List Part → S → S × Ret
  unfolding cleanup_all
  init_from [] done s = (s, ok 0)
  init_from (u ∷ rest) done s =
      let (s₁, e) = init u s in
      let next = init_from rest (u ∷ done) s₁ in
      elim e [ ok n ↦ next | err x ↦ (cleanup_all done s₁, err x) | fault ↦ (s₁, fault) ]

  unfoldable pub hwemu_init : S → S × Ret
  unfolding init_from
  hwemu_init s = init_from parts [] s

  unfoldable pub reversed : List Part → List Part → List Part
  reversed [] acc = acc
  reversed (u ∷ us) acc = reversed us (u ∷ acc)

  unfoldable pub hwemu_exit : S → S
  unfolding cleanup_all reversed
  hwemu_exit s = cleanup_all (reversed parts []) s
