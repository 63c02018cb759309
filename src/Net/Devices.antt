-- ===== src/Net/Devices.antt =====
-- The list of network devices in kernel/hwe_net.c: what creating, destroying and unloading do to it,
-- and what a transmission does.
use linux_hardware_devices_e.Prelude.{
  ℕ, ◌≡◌, ◌≢◌, refl, ap, sym, subst, ◌∙◌, Bool-cases, Option-cases, inl, inr, List, [], ◌∷◌, Option,
  none, some, Bytes, arith, All, ◌==◌, ==_refl, if◌then◌else◌,
}
use linux_hardware_devices_e.Consts.{Ret}
use linux_hardware_devices_e.Utils.Pair.{HwePair}
use linux_hardware_devices_e.Utils.Lookup.{find_pair}
use linux_hardware_devices_e.Pool.{Pool, addresses, lookup, remove, IsDistinct}
use linux_hardware_devices_e.Pool.Laws.{
  lookup_fresh, lookup-remove, lookup-replace, remove-IsDistinct, replace-IsDistinct,
}
use linux_hardware_devices_e.Handles.{given}
use linux_hardware_devices_e.Net.{
  NetDev, NetEnv, NetRx, hwe_create_net_device, hwe_destroy_net_device, destroy_each,
  hwe_cleanup_net, at_device, hwenet_xmit, hwe_net_async_rx, send_response, count_tx, responded,
  transmitted,
}

abbrev pub hwedev_of : Option NetDev → Option ℕ
hwedev_of none = none
hwedev_of (some ndev) = some ndev.hwedev

-- The device that the private data at an address belong to.
abbrev pub net_owner : Pool NetDev → ℕ → Option ℕ
net_owner devices a = hwedev_of (lookup devices a)

-- A fresh entry that is taken out again.
drop_fresh : {A : Type 0} (a : ℕ) (x : A) (list : Pool A) → remove a ((a, x) ∷ list) ≡ list
unfolding remove
drop_fresh a x list = ap (λ b. if b then list else (a, x) ∷ remove a list) (==_refl a)

module _ (env : NetEnv) (devices : Pool NetDev) (i : ℕ) where
  pub create_net-IsDistinct :
      IsDistinct devices → IsDistinct (hwe_create_net_device env devices i i).0
  unfolding hwe_create_net_device
  create_net-IsDistinct v = elim (Option-cases (env.memory.alloc (addresses devices))) [
    | inl e ↦ rw e v
    | inr (a, e) ↦ elim (Option-cases env.register_netdev) [
      | inl r ↦ rw (e, r) (env.memory.fresh (addresses devices) a e, v)
      | inr (err, r) ↦ rw (e, r) (rw (drop_fresh a) v)
    ]
  ]

  pub create_net_owner :
      (k : ℕ)
      → net_owner (hwe_create_net_device env devices i i).0 k
        ≡ given (hwe_create_net_device env devices i i).1 i k (net_owner devices k)
  unfolding hwe_create_net_device lookup
  create_net_owner k = elim (Option-cases (env.memory.alloc (addresses devices))) [
    | inl e ↦ rw e refl
    | inr (a, e) ↦ elim (Option-cases env.register_netdev) [
      | inl r ↦ rw (e, r) (ground arith)
      | inr (err, r) ↦ rw (e, r) (rw (drop_fresh a) refl)
    ]
  ]

  pub create_net_fresh :
      (h : ℕ) → (hwe_create_net_device env devices i i).1 ≡ some h → net_owner devices h ≡ none
  unfolding hwe_create_net_device
  create_net_fresh h is = elim (Option-cases (env.memory.alloc (addresses devices))) [
    | inl e ↦ let bad : none ≡ some h = sym (rw e refl) ∙ is in absurd cc
    | inr (a, e) ↦ elim (Option-cases env.register_netdev) [
      | inl r ↦
          let it : some a ≡ some h = sym (rw (e, r) refl) ∙ is in
          let ah : a ≡ h = cc in
          ap hwedev_of (
            lookup_fresh h devices (
              subst (λ n. All (λ b. b ≢ n) (addresses devices)) ah
                (env.memory.fresh (addresses devices) a e)))
      | inr (err, r) ↦ let bad : none ≡ some h = sym (rw (e, r) refl) ∙ is in absurd cc
    ]
  ]

pub destroy_net-IsDistinct :
    (devices : Pool NetDev) (h : ℕ)
    → IsDistinct devices
    → IsDistinct (hwe_destroy_net_device devices h)
unfolding hwe_destroy_net_device
destroy_net-IsDistinct devices h v = remove-IsDistinct h devices v

pub destroy_net_owner :
    (devices : Pool NetDev) (h k : ℕ)
    → IsDistinct devices
    → net_owner (hwe_destroy_net_device devices h) k
      ≡ (if h == k then none else net_owner devices k)
unfolding hwe_destroy_net_device
destroy_net_owner devices h k v = ap hwedev_of (lookup-remove h k devices v) ∙ ground arith

destroy_each_all : (devices : Pool NetDev) → destroy_each devices devices ≡ []
unfolding destroy_each hwe_destroy_net_device
destroy_each_all [] = refl
destroy_each_all (e ∷ rest) =
    ap (destroy_each rest)
      (unfold remove in ap (λ b. if b then rest else e ∷ remove e.0 rest) (==_refl e.0))
    ∙ destroy_each_all rest

-- Unloading the net driver destroys every device that is left.
pub hwe_cleanup_net_empty : (devices : Pool NetDev) → hwe_cleanup_net devices ≡ []
unfolding hwe_cleanup_net
hwe_cleanup_net_empty devices = destroy_each_all devices

-- What a handler does to the device at an address leaves the others as they are, and the address.
lookup-at_device :
    (devices : Pool NetDev) (a k : ℕ) (f : NetDev → NetDev × Ret) (ndev : NetDev)
    → lookup devices a ≡ some ndev
    → lookup (at_device devices a f (lookup devices a)).0 k
      ≡ (if a == k then some (f ndev).0 else lookup devices k)
lookup-at_device devices a k f ndev e =
    ap (λ o. lookup (at_device devices a f o).0 k) e ∙ lookup-replace a k ndev (f ndev).0 devices e

pub at_device-IsDistinct :
    (devices : Pool NetDev) (a : ℕ) (f : NetDev → NetDev × Ret) (o : Option NetDev)
    → IsDistinct devices
    → IsDistinct (at_device devices a f o).0
at_device-IsDistinct devices a f none v = v
at_device-IsDistinct devices a f (some ndev) v = replace-IsDistinct a (f ndev).0 devices v

pub at_device_owner :
    (devices : Pool NetDev) (a k : ℕ) (f : NetDev → NetDev × Ret)
    → ((ndev : NetDev) → (f ndev).0.hwedev ≡ ndev.hwedev)
    → net_owner (at_device devices a f (lookup devices a)).0 k ≡ net_owner devices k
at_device_owner devices a k f same = elim (Option-cases (lookup devices a)) [
  | inl e ↦ ap (λ o. net_owner (at_device devices a f o).0 k) e
  | inr (ndev, e) ↦
      ap hwedev_of (lookup-at_device devices a k f ndev e) ∙ elim (Bool-cases (a == k)) [
        | inl s ↦
            let ak : a ≡ k = ground arith in
            ap (λ b. hwedev_of (if b then some (f ndev).0 else lookup devices k)) s
            ∙ ap some (same ndev)
            ∙ sym (ap hwedev_of (ap (lookup devices) (sym ak) ∙ e))
        | inr s ↦ ap (λ b. hwedev_of (if b then some (f ndev).0 else lookup devices k)) s
      ]
]

send_response_hwedev :
    (env : NetRx) (ndev : NetDev) (resp : Bytes)
    → (send_response env ndev resp).0.hwedev ≡ ndev.hwedev
unfolding send_response
send_response_hwedev env ndev resp = ground arith

pub transmitted_hwedev :
    (env : NetRx) (ndev : NetDev) (skb : Bytes) (o : Option (List HwePair))
    → (transmitted env ndev skb o).0.hwedev ≡ ndev.hwedev
transmitted_hwedev env ndev skb none = refl
transmitted_hwedev env ndev skb (some list) = elim (Option-cases (find_pair list skb)) [
  | inl e ↦ ap (λ o. (responded env ndev o).0.hwedev) e
  | inr (p, e) ↦ ap (λ o. (responded env ndev o).0.hwedev) e ∙ send_response_hwedev env ndev p.resp
]

module _ (env : NetRx) (devices : Pool NetDev) where
  pub async_rx_net-IsDistinct :
      (h : ℕ) (p : HwePair) → IsDistinct devices → IsDistinct (hwe_net_async_rx env devices h p).0
  unfolding hwe_net_async_rx
  async_rx_net-IsDistinct h p v = at_device-IsDistinct devices h _ (lookup devices h) v

  pub async_rx_net_owner :
      (h : ℕ) (p : HwePair) (k : ℕ)
      → net_owner (hwe_net_async_rx env devices h p).0 k ≡ net_owner devices k
  unfolding hwe_net_async_rx
  async_rx_net_owner h p k =
      at_device_owner devices h k _ (λ ndev. send_response_hwedev env ndev p.resp)

  pub xmit-IsDistinct :
      (pairs : ℕ → Option (List HwePair)) (a : ℕ) (skb : Bytes)
      → IsDistinct devices
      → IsDistinct (hwenet_xmit env pairs devices a skb).0
  unfolding hwenet_xmit
  xmit-IsDistinct pairs a skb v = at_device-IsDistinct devices a _ (lookup devices a) v

  pub xmit_owner :
      (pairs : ℕ → Option (List HwePair)) (a : ℕ) (skb : Bytes) (k : ℕ)
      → net_owner (hwenet_xmit env pairs devices a skb).0 k ≡ net_owner devices k
  unfolding hwenet_xmit
  xmit_owner pairs a skb k =
      at_device_owner devices a k _
        (λ ndev. transmitted_hwedev env (count_tx ndev skb) skb (pairs ndev.hwedev))
