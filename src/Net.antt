-- ===== src/Net.antt =====
-- kernel/hwe_net.c: the list of network devices, their counters, and the transmission of a packet.
-- What netdev_priv() finds at an address is the private data with the device's own fields; `hwedev`
-- is known by its index among the interface's devices. The counters are 64 bits wide.
pub mod Devices
use linux_hardware_devices_e.Prelude.{
  ℕ, ◌+◌, ◌%◌, ◌^◌, Bool, true, false, List, [], ◌∷◌, ◌++◌, Option, none, some, Bytes, length,
  if◌then◌else◌,
}
use linux_hardware_devices_e.Consts.{Errno, Ret, ok, fault}
use linux_hardware_devices_e.Utils.Pair.{HwePair}
use linux_hardware_devices_e.Utils.Lookup.{find_pair}
use linux_hardware_devices_e.Pool.{Pool, Memory, addresses, lookup, remove, replace}

-- struct hwe_dev_priv and the fields of its net_device that the code changes. `queue` says that the
-- queue is started, and `rx` is what netif_rx() was given.
pub record NetDev : Type 0 where
  pub hwedev : ℕ
  pub index : ℕ
  pub queue : Bool
  pub tx_bytes : ℕ
  pub tx_packets : ℕ
  pub rx_packets : ℕ
  pub rx : List Bytes

-- What the kernel answers to the creation of a device: alloc_netdev(), and the error of
-- register_netdev().
pub record NetEnv : Type 0 where
  pub memory : Memory
  pub register_netdev : Option Errno

-- What the kernel answers to a response: dev_alloc_skb() succeeds, and the result of netif_rx().
pub record NetRx : Type 0 where
  pub alloc_skb : Bool
  pub netif_rx : Bytes → ℕ

-- hwenet_init(), which alloc_netdev() calls: the device, with its fields 0, is linked at the head.
abbrev hwenet_init : ℕ → Pool NetDev → Pool NetDev
hwenet_init addr devices =
    (
      addr,
      record {
        hwedev = 0;
        index = 0;
        queue = false;
        tx_bytes = 0;
        tx_packets = 0;
        rx_packets = 0;
        rx = [];
      },
    )
    ∷ devices

-- The private data, `priv->index` and `priv->hwedev` set.
abbrev set_priv : ℕ → ℕ → ℕ → Pool NetDev → Pool NetDev
set_priv addr hwedev index [] = []
set_priv addr hwedev index (e ∷ list) = (e.0, record e.1 { hwedev = hwedev; index = index }) ∷ list

abbrev registered : ℕ → Pool NetDev → Option Errno → Pool NetDev × Option ℕ
registered addr devices none = (devices, some addr)
registered addr devices (some e) = (remove addr devices, none)

abbrev allocated : NetEnv → Pool NetDev → ℕ → ℕ → Option ℕ → Pool NetDev × Option ℕ
allocated env devices hwedev index none = (devices, none)
allocated env devices hwedev index (some addr) =
    registered addr (set_priv addr hwedev index (hwenet_init addr devices)) env.register_netdev

-- `none` is the result NULL.
unfoldable pub hwe_create_net_device : NetEnv → Pool NetDev → ℕ → ℕ → Pool NetDev × Option ℕ
unfolding remove
hwe_create_net_device env devices hwedev index =
    allocated env devices hwedev index (env.memory.alloc (addresses devices))

unfoldable pub hwe_destroy_net_device : Pool NetDev → ℕ → Pool NetDev
unfolding remove
hwe_destroy_net_device devices device = remove device devices

abbrev pub hwe_init_net : Pool NetDev → Pool NetDev × Ret
hwe_init_net devices = ([], ok 0)

-- The loop over the entries that the list had at first.
destroy_each : Pool NetDev → Pool NetDev → Pool NetDev
unfolding hwe_destroy_net_device
destroy_each [] devices = devices
destroy_each (e ∷ rest) devices = destroy_each rest (hwe_destroy_net_device devices e.0)

unfoldable pub hwe_cleanup_net : Pool NetDev → Pool NetDev
unfolding destroy_each
hwe_cleanup_net devices = destroy_each devices devices

-- A handler's effect on the device at an address; at an address of no device it is a fault.
abbrev pub at_device : Pool NetDev → ℕ → (NetDev → NetDev × Ret) → Option NetDev → Pool NetDev × Ret
at_device devices a f none = (devices, fault)
at_device devices a f (some ndev) = let (ndev', ret) = f ndev in (replace a ndev' devices, ret)

unfoldable pub hwenet_open : Pool NetDev → ℕ → Pool NetDev × Ret
unfolding lookup replace
hwenet_open devices a =
    at_device devices a (λ ndev. (record ndev { queue = true }, ok 0)) (lookup devices a)

unfoldable pub hwenet_stop : Pool NetDev → ℕ → Pool NetDev × Ret
unfolding lookup replace
hwenet_stop devices a =
    at_device devices a (λ ndev. (record ndev { queue = false }, ok 0)) (lookup devices a)

-- The result of dev_alloc_skb() is not tested: with no memory, skb_reserve() gets a null pointer.
unfoldable pub send_response : NetRx → NetDev → Bytes → NetDev × Ret
send_response env dev resp =
    if env.alloc_skb
    then (
      record dev { rx_packets = (dev.rx_packets + 1) % 2 ^ 64; rx = dev.rx ++ resp ∷ [] },
      ok (env.netif_rx resp),
    )
    else (dev, fault)

-- The counters of what is transmitted.
abbrev pub count_tx : NetDev → Bytes → NetDev
count_tx ndev skb = record ndev {
  tx_bytes = (ndev.tx_bytes + length skb) % 2 ^ 64;
  tx_packets = (ndev.tx_packets + 1) % 2 ^ 64;
}

abbrev pub responded : NetRx → NetDev → Option HwePair → NetDev × Ret
responded env ndev none = (ndev, ok 0)
responded env ndev (some pair) = send_response env ndev pair.resp

-- With a list of pairs; `none` is a device that is freed.
abbrev pub transmitted : NetRx → NetDev → Bytes → Option (List HwePair) → NetDev × Ret
transmitted env ndev skb none = (ndev, fault)
transmitted env ndev skb (some pairs) = responded env ndev (find_pair pairs skb)

-- `pairs` has the pairs of each device of the interface; NETDEV_TX_OK is 0.
unfoldable pub hwenet_xmit :
    NetRx → (ℕ → Option (List HwePair)) → Pool NetDev → ℕ → Bytes → Pool NetDev × Ret
unfolding lookup replace send_response
hwenet_xmit env pairs devices a skb =
    at_device devices a (λ ndev. transmitted env (count_tx ndev skb) skb (pairs ndev.hwedev))
      (lookup devices a)

unfoldable pub hwe_net_async_rx : NetRx → Pool NetDev → ℕ → HwePair → Pool NetDev × Ret
unfolding lookup replace send_response
hwe_net_async_rx env devices device pair =
    at_device devices device (λ ndev. send_response env ndev pair.resp) (lookup devices device)
