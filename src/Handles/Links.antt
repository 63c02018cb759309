-- ===== src/Handles/Links.antt =====
-- The links between one interface's devices and their private data, as lists and handles change.
use linux_hardware_devices_e.Prelude.{
  ℕ, ◌≡◌, ◌≢◌, refl, ap, sym, ◌∙◌, Bool-cases, inl, inr, List, [], ◌∷◌, Option, none, some, arith,
  All, ◌==◌, ==_refl, if◌then◌else◌,
}
use linux_hardware_devices_e.Consts.{Iface}
use linux_hardware_devices_e.Sysfs.Bitmap.{Bitmap}
use linux_hardware_devices_e.Sysfs.Dev.{HweDev}
use linux_hardware_devices_e.Sysfs.Registry.{find_device_by_index, unlink, update_dev}
use linux_hardware_devices_e.Sysfs.Registry.Lists.{Devices}
use linux_hardware_devices_e.Handles.{given, handle_at, LinkedIn}

pub LinkedIn-same :
    (own own' : ℕ → Option ℕ) (list list' : List HweDev)
    → ((k : ℕ) → own' k ≡ own k)
    → ((i : ℕ) → handle_at list' i ≡ handle_at list i)
    → LinkedIn own list
    → LinkedIn own' list'
LinkedIn-same own own' list list' e f links = record {
  held = λ i o at. let (h, is, by) = links.held i o (sym (f i) ∙ at) in (h, is, e h ∙ by);
  owned = λ h i by. f i ∙ links.owned h i (sym (e h) ∙ by);
}

pub handle_at-update_dev :
    (dev : HweDev) (o : Option ℕ) (list : List HweDev) (i : ℕ)
    → handle_at list dev.index ≡ some o
    → handle_at (update_dev dev list) i
      ≡ (if dev.index == i then some dev.device else handle_at list i)
unfolding find_device_by_index update_dev
handle_at-update_dev dev o [] i e = cc
handle_at-update_dev dev o (d ∷ list) i e =
    ground (arith, handle_at-update_dev dev o list i, ==_refl dev.index)

pub handle_at_apart :
    (j : ℕ) (list : List HweDev) → All (λ q. q.index ≢ j) list → handle_at list j ≡ none
unfolding find_device_by_index
handle_at_apart j [] h = refl
handle_at_apart j (d ∷ list) h = ground (arith, handle_at_apart j list h.1, h.0)

pub handle_at-unlink :
    (iface : Iface) (bits : Bitmap) (j : ℕ) (list : List HweDev) (i : ℕ)
    → Devices iface bits list
    → handle_at (unlink j list) i ≡ (if j == i then none else handle_at list i)
unfolding find_device_by_index unlink
handle_at-unlink iface bits j [] i h = ground arith
handle_at-unlink iface bits j (d ∷ list) i h =
    ground (arith, handle_at-unlink iface bits j list i h.4, handle_at_apart d.index list h.3)

-- The device at `j`, which owned `h`, is out of the list, and `h` is not live any more.
module _ (own own' : ℕ → Option ℕ) (list list' : List HweDev) (h j : ℕ) (links : LinkedIn own list)
    (live : own h ≡ some j) (own_after : (k : ℕ) → own' k ≡ (if h == k then none else own k))
    (list_after : (i : ℕ) → handle_at list' i ≡ (if j == i then none else handle_at list i)) where
  removed_held :
      (i : ℕ) (o : Option ℕ)
      → handle_at list' i ≡ some o
      → (k : ℕ) × (o ≡ some k) × (own' k ≡ some i)
  removed_held i o at = elim (Bool-cases (j == i)) [
    | inl e ↦
        let gone : handle_at list' i ≡ none =
          list_after i ∙ ap (λ b. if b then none else handle_at list i) e in
        absurd (let bad : none ≡ some o = sym gone ∙ at in cc)
    | inr e ↦
        let here : handle_at list' i ≡ handle_at list i =
          list_after i ∙ ap (λ b. if b then none else handle_at list i) e in
        let (k, is, by) = links.held i o (sym here ∙ at) in
        (k, is, own_after k ∙ ground (arith, live, by, e))
  ]

  removed_owned : (k i : ℕ) → own' k ≡ some i → handle_at list' i ≡ some (some k)
  removed_owned k i by = elim (Bool-cases (h == k)) [
    | inl e ↦
        let gone : own' k ≡ none = own_after k ∙ ap (λ b. if b then none else own k) e in
        absurd (let bad : none ≡ some i = sym gone ∙ by in cc)
    | inr e ↦
        let same : own' k ≡ own k = own_after k ∙ ap (λ b. if b then none else own k) e in
        let at = links.owned k i (sym same ∙ by) in
        let before = links.owned h j live in
        list_after i ∙ elim (Bool-cases (j == i)) [
          | inl e' ↦
              let ij : j ≡ i = ground arith in
              let one : some (some h) ≡ some (some k) = sym before ∙ ap (handle_at list) ij ∙ at in
              let hk : h ≡ k = cc in absurd (ground (arith, hk, e))
          | inr e' ↦ ap (λ b. if b then none else handle_at list i) e' ∙ at
        ]
  ]

  pub LinkedIn-removed : LinkedIn own' list'
  LinkedIn-removed = record { held = removed_held; owned = removed_owned }

-- A device at `j`, which owned nothing, is in the list, with a handle that was not live.
module _ (own own' : ℕ → Option ℕ) (list list' : List HweDev) (h j : ℕ) (links : LinkedIn own list)
    (fresh : own h ≡ none) (free : handle_at list j ≡ none)
    (own_after : (k : ℕ) → own' k ≡ given (some h) j k (own k))
    (list_after : (i : ℕ)
      → handle_at list' i ≡ (if j == i then some (some h) else handle_at list i)) where
  added_held :
      (i : ℕ) (o : Option ℕ)
      → handle_at list' i ≡ some o
      → (k : ℕ) × (o ≡ some k) × (own' k ≡ some i)
  added_held i o at = elim (Bool-cases (j == i)) [
    | inl e ↦
        let here : handle_at list' i ≡ some (some h) =
          list_after i ∙ ap (λ b. if b then some (some h) else handle_at list i) e in
        let is : some (some h) ≡ some o = sym here ∙ at in
        (h, cc, own_after h ∙ ground (arith, ==_refl h))
    | inr e ↦
        let here : handle_at list' i ≡ handle_at list i =
          list_after i ∙ ap (λ b. if b then some (some h) else handle_at list i) e in
        let (k, is, by) = links.held i o (sym here ∙ at) in
        (
          k,
          is,
          own_after k ∙ elim (Bool-cases (h == k)) [
            | inl e' ↦
                let hk : h ≡ k = ground arith in
                let bad : none ≡ some i = sym fresh ∙ ap own hk ∙ by in absurd cc
            | inr e' ↦ ap (λ b. if b then some j else own k) e' ∙ by
          ],
        )
  ]

  added_owned : (k i : ℕ) → own' k ≡ some i → handle_at list' i ≡ some (some k)
  added_owned k i by = elim (Bool-cases (h == k)) [
    | inl e ↦
        let hk : h ≡ k = ground arith in
        let now : own' k ≡ some j = own_after k ∙ ap (λ b. if b then some j else own k) e in
        let one : some j ≡ some i = sym now ∙ by in
        let ji : j ≡ i = cc in
        list_after i
        ∙ ap (λ b. if b then some (some h) else handle_at list i)
            (ap (λ n. j == n) (sym ji) ∙ ==_refl j)
        ∙ ap (λ n. some (some n)) hk
    | inr e ↦
        let same : own' k ≡ own k = own_after k ∙ ap (λ b. if b then some j else own k) e in
        let at = links.owned k i (sym same ∙ by) in
        list_after i ∙ elim (Bool-cases (j == i)) [
          | inl e' ↦
              let ij : j ≡ i = ground arith in
              let bad : none ≡ some (some k) = sym free ∙ ap (handle_at list) ij ∙ at in absurd cc
          | inr e' ↦ ap (λ b. if b then some (some h) else handle_at list i) e' ∙ at
        ]
  ]

  pub LinkedIn-added : LinkedIn own' list'
  LinkedIn-added = record { held = added_held; owned = added_owned }
