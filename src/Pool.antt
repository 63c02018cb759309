-- ===== src/Pool.antt =====
-- The lists `devices` of kernel/hwe_net.c, kernel/hwe_i2c.c and kernel/hwe_spi.c: private data known
-- by their addresses, in the order of the list, and the memory that the kernel gives for them.
pub mod Laws
use linux_hardware_devices_e.Prelude.{
  ℕ, ◌≡◌, ◌≢◌, List, [], ◌∷◌, Option, none, some, All, ◌==◌, if◌then◌else◌,
}

abbrev pub Pool : Type 0 → Type 0
Pool A = List (ℕ × A)

-- The kernel's allocation of private data: what is given is no address in use, or `none` for NULL.
pub record Memory : Type 0 where
  pub alloc : List ℕ → Option ℕ
  pub fresh : (live : List ℕ) (a : ℕ) → alloc live ≡ some a → All (λ b. b ≢ a) live

module _ {A : Type 0} where
  abbrev pub addresses : Pool A → List ℕ
  addresses [] = []
  addresses (e ∷ list) = e.0 ∷ addresses list

  -- What stands at an address.
  unfoldable pub lookup : Pool A → ℕ → Option A
  lookup [] a = none
  lookup (e ∷ list) a = if e.0 == a then some e.1 else lookup list a

  -- list_del() of the entry at an address.
  unfoldable pub remove : ℕ → Pool A → Pool A
  remove a [] = []
  remove a (e ∷ list) = if e.0 == a then list else e ∷ remove a list

  -- A change in place of what stands at an address.
  unfoldable pub replace : ℕ → A → Pool A → Pool A
  replace a x [] = []
  replace a x (e ∷ list) = if e.0 == a then (a, x) ∷ list else e ∷ replace a x list

  -- No two entries stand at one address.
  abbrev pub IsDistinct : Pool A → Type 0
  IsDistinct [] = Unit
  IsDistinct (e ∷ list) = All (λ b. b ≢ e.0) (addresses list) × IsDistinct list
