-- ===== src/Pool/Laws.antt =====
-- What finding, unlinking and changing entries of a driver's list do to each other.
use linux_hardware_devices_e.Prelude.{
  ℕ, ◌≡◌, ◌≢◌, refl, sym, subst, Bool-cases, inl, inr, [], ◌∷◌, none, some, arith, All, ◌==◌,
  if◌then◌else◌,
}
use linux_hardware_devices_e.Pool.{Pool, addresses, lookup, remove, replace, IsDistinct}

module _ {A : Type 0} where
  pub lookup_fresh :
      (a : ℕ) (list : Pool A) → All (λ b. b ≢ a) (addresses list) → lookup list a ≡ none
  unfolding lookup
  lookup_fresh a [] h = refl
  lookup_fresh a (e ∷ list) h = ground (arith, lookup_fresh a list h.1, h.0)

  pub lookup-remove :
      (a k : ℕ) (list : Pool A)
      → IsDistinct list
      → lookup (remove a list) k ≡ (if a == k then none else lookup list k)
  unfolding lookup remove
  lookup-remove a k [] h = ground arith
  lookup-remove a k (e ∷ list) h =
      ground (arith, lookup-remove a k list h.1, lookup_fresh e.0 list h.0)

  pub lookup-replace :
      (a k : ℕ) (x y : A) (list : Pool A)
      → lookup list a ≡ some x
      → lookup (replace a y list) k ≡ (if a == k then some y else lookup list k)
  unfolding lookup replace
  lookup-replace a k x y [] e = cc
  lookup-replace a k x y (d ∷ list) e = ground (arith, lookup-replace a k x y list)

  remove_apart :
      (a c : ℕ) (list : Pool A)
      → All (λ b. b ≢ c) (addresses list)
      → All (λ b. b ≢ c) (addresses (remove a list))
  unfolding remove
  remove_apart a c [] h = tt
  remove_apart a c (e ∷ list) h = ground (arith, remove_apart a c list h.1)

  pub remove-IsDistinct : (a : ℕ) (list : Pool A) → IsDistinct list → IsDistinct (remove a list)
  unfolding remove
  remove-IsDistinct a [] h = tt
  remove-IsDistinct a (e ∷ list) h =
      ground (arith, remove_apart a e.0 list h.0, remove-IsDistinct a list h.1)

  addresses-replace :
      (a : ℕ) (x : A) (list : Pool A) → addresses (replace a x list) ≡ addresses list
  unfolding replace
  addresses-replace a x [] = refl
  addresses-replace a x (e ∷ list) = ground (arith, addresses-replace a x list)

  pub replace-IsDistinct :
      (a : ℕ) (x : A) (list : Pool A) → IsDistinct list → IsDistinct (replace a x list)
  unfolding replace
  replace-IsDistinct a x [] h = tt
  replace-IsDistinct a x (e ∷ list) h = elim (Bool-cases (e.0 == a)) [
    | inl same ↦ let at : e.0 ≡ a = ground arith in rw same (rw at at h)
    | inr other ↦ rw other (
      subst (All (λ b. b ≢ e.0)) (sym (addresses-replace a x list)) h.0,
      replace-IsDistinct a x list h.1,
    )
  ]
