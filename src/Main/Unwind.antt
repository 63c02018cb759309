-- ===== src/Main/Unwind.antt =====
-- What a load of the module that fails unwinds, and what one that returns 0 has done.
use linux_hardware_devices_e.Prelude.{
  ◌≡◌, refl, ap, sym, subst, ◌∙◌, List, [], ◌∷◌, ℕ, ◌⊎◌, inl, inr,
}
use linux_hardware_devices_e.Consts.{Errno, Ret, ok, err, fault}
use linux_hardware_devices_e.Main.{Part, parts, Units, cleanup_all, init_from, hwemu_init}

pub Ret-cases : (r : Ret) → ((n : ℕ) × (r ≡ ok n)) ⊎ ((e : Errno) × (r ≡ err e)) ⊎ (r ≡ fault)
Ret-cases (ok n) = inl (n, refl)
Ret-cases (err e) = inr (inl (e, refl))
Ret-cases fault = inr (inr refl)

module _ {S : Type 0} (units : Units S) where
  open units use {init, cleanup}

  -- What holds when the units of a list, last first, are initialized: an initialization adds its unit to
  -- the list, or fails and leaves the list as it is, and a clean-up takes the last unit off.
  pub record Unwinds (Up : List Part → S → Type 0) : Type 0 where
    pub inits :
        (u : Part) (done : List Part) (s : S) (n : ℕ)
        → Up done s
        → (init u s).1 ≡ ok n
        → Up (u ∷ done) (init u s).0
    pub fails :
        (u : Part) (done : List Part) (s : S) (e : Errno)
        → Up done s
        → (init u s).1 ≡ err e
        → Up done (init u s).0
    pub cleans : (u : Part) (done : List Part) (s : S) → Up (u ∷ done) s → Up done (cleanup u s)

  cleanup_all-Unwinds :
      {Up : List Part → S → Type 0} (done : List Part) (s : S)
      → Unwinds Up
      → Up done s
      → Up [] (cleanup_all units done s)
  unfolding cleanup_all
  cleanup_all-Unwinds [] s laws up = up
  cleanup_all-Unwinds (u ∷ done) s laws up =
      cleanup_all-Unwinds done (cleanup u s) laws (laws.cleans u done s up)

  -- The outcome of a loop that starts with the units of `done`.
  Unwound : (List Part → S → Type 0) → S × Ret → Type 0
  Unwound Up (s, ok n) = Unit
  Unwound Up (s, err e) = Up [] s
  Unwound Up (s, fault) = Unit

  init_from-Unwound :
      {Up : List Part → S → Type 0} (rest done : List Part) (s : S)
      → Unwinds Up
      → Up done s
      → Unwound Up (init_from units rest done s)
  unfolding init_from Unwound
  init_from-Unwound [] done s laws up = tt
  init_from-Unwound {Up = Up} (u ∷ rest) done s laws up =
      let (s₁, e) = init u s in
      let next = init_from units rest (u ∷ done) s₁ in
      let outcome : Ret → S × Ret = λ r. elim r [
        | ok n ↦ next
        | err x ↦ (cleanup_all units done s₁, err x)
        | fault ↦ (s₁, fault)
      ] in
      elim (Ret-cases e) [
        | inl (n, good) ↦
            subst (λ r. Unwound Up (outcome r)) (sym good)
              (init_from-Unwound rest (u ∷ done) s₁ laws (laws.inits u done s n up good))
        | inr (inl (x, bad)) ↦
            subst (λ r. Unwound Up (outcome r)) (sym bad)
              (cleanup_all-Unwinds done s₁ laws (laws.fails u done s x up bad))
        | inr (inr bad) ↦ subst (λ r. Unwound Up (outcome r)) (sym bad) tt
      ]

  -- Under these laws, a load that fails ends as if no unit had been initialized.
  pub hwemu_init-Unwinds :
      {Up : List Part → S → Type 0} (s : S) (e : Errno)
      → Unwinds Up
      → Up [] s
      → (hwemu_init units s).1 ≡ err e
      → Up [] (hwemu_init units s).0
  unfolding hwemu_init Unwound
  hwemu_init-Unwinds {Up = Up} s e laws up failed =
      subst (λ r. Unwound Up ((hwemu_init units s).0, r)) failed
        (init_from-Unwound parts [] s laws up)

  -- Every unit of a list is initialized in turn without an error.
  unfoldable pub AllOk : List Part → S → Type 0
  AllOk [] s = Unit
  AllOk (u ∷ rest) s = ((n : ℕ) × ((init u s).1 ≡ ok n)) × AllOk rest (init u s).0

  -- The state behind the initialization of a list of units.
  unfoldable pub after_all : List Part → S → S
  after_all [] s = s
  after_all (u ∷ rest) s = after_all rest (init u s).0

  init_from-AllOk :
      (rest done : List Part) (s : S)
      → (init_from units rest done s).1 ≡ ok 0
      → ((init_from units rest done s).0 ≡ after_all rest s) × AllOk rest s
  unfolding init_from AllOk after_all
  init_from-AllOk [] done s is_ok = (refl, tt)
  init_from-AllOk (u ∷ rest) done s is_ok =
      let (s₁, e) = init u s in
      let next = init_from units rest (u ∷ done) s₁ in
      let outcome : Ret → S × Ret = λ r. elim r [
        | ok n ↦ next
        | err x ↦ (cleanup_all units done s₁, err x)
        | fault ↦ (s₁, fault)
      ] in
      elim (Ret-cases e) [
        | inl (n, good) ↦
            let there : outcome e ≡ next = ap outcome good in
            let ok' : next.1 ≡ ok 0 = ap (λ (x : S × Ret). x.1) (sym there) ∙ is_ok in
            let rest' = init_from-AllOk rest (u ∷ done) s₁ ok' in
            (ap (λ (x : S × Ret). x.0) there ∙ rest'.0, ((n, good), rest'.1))
        | inr (inl (x, bad)) ↦
            let there : (outcome e).1 ≡ err x = ap (λ r. (outcome r).1) bad in
            absurd (let wrong : ok 0 ≡ err x = sym is_ok ∙ there in cc)
        | inr (inr bad) ↦
            let there : (outcome e).1 ≡ fault = ap (λ r. (outcome r).1) bad in
            absurd (let wrong : ok 0 ≡ fault = sym is_ok ∙ there in cc)
      ]

  -- A load that returns 0 initialized every unit.
  pub hwemu_init-AllOk :
      (s : S)
      → (hwemu_init units s).1 ≡ ok 0
      → ((hwemu_init units s).0 ≡ after_all parts s) × AllOk parts s
  unfolding hwemu_init
  hwemu_init-AllOk s is_ok = init_from-AllOk parts [] s is_ok
