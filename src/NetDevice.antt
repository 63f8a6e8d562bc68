-- ===== src/NetDevice.antt =====
-- network/mynetwork.c: a PCI network driver. A probe makes a network device and registers it; the
-- remove function takes it down.
pub mod Load
use linux_driver.Kernel.{pci_register_driver, pci_unregister_driver, dev_kfree_skb}
use linux_driver.Base.{ℕ, ℤ, pos, is_set, Option, none, some, ◌∷◌, enomem, if◌then◌else◌}
use linux_driver.Kernel.{
  alloc_etherdev, free_netdev, register_netdev, unregister_netdev, pci_enable_device,
  pci_disable_device, Log, Run,
}

-- What a PCI device holds for its driver: the interrupt line, and the pointer that
-- `pci_set_drvdata` would set, which is NULL until then.
pub record PciDev : Type 0 where
  pub pdev : ℕ
  pub irq : ℕ
  pub drvdata : Option ℕ

-- `struct net_device`, as far as the probe fills it in, with its private `struct my_net_device`.
pub record NetDev : Type 0 where
  pub netdev : ℕ
  pub irq : ℕ
  pub priv_netdev : ℕ

unfoldable pub my_net_open : ℤ
my_net_open = pos 0

unfoldable pub my_net_stop : ℤ
my_net_stop = pos 0

-- NETDEV_TX_OK is 0.
unfoldable pub my_net_start_xmit : (skb : ℕ) → Log → ℤ × Log
my_net_start_xmit skb log = (pos 0, dev_kfree_skb skb ∷ log)

-- IRQ_HANDLED is 1.
unfoldable pub my_net_interrupt : ℤ
my_net_interrupt = pos 1

pub record Answers : Type 0 where
  pub netdev : Option ℕ
  pub registered : ℤ
  pub enabled : ℤ

unfoldable pub enable_pci : Answers → PciDev → NetDev → Log → Run (Option NetDev)
enable_pci k p n log =
    let log' = pci_enable_device p.pdev k.enabled ∷ log in
    if is_set k.enabled
    then record {
      ret = k.enabled;
      dev = none;
      log = free_netdev n.netdev ∷ unregister_netdev n.netdev ∷ log';
    }
    else record { ret = pos 0; dev = some n; log = log' }

unfoldable pub register_net : Answers → PciDev → NetDev → Log → Run (Option NetDev)
unfolding enable_pci
register_net k p n log =
    let log' = register_netdev n.netdev k.registered ∷ log in
    if is_set k.registered
    then record { ret = k.registered; dev = none; log = free_netdev n.netdev ∷ log' }
    else enable_pci k p n log'

unfoldable pub my_net_probe : Answers → PciDev → Log → Run (Option NetDev)
unfolding register_net
my_net_probe k p log =
    let log' = alloc_etherdev k.netdev ∷ log in
    elim k.netdev [
      | none ↦ record { ret = enomem; dev = none; log = log' }
      | some a ↦ register_net k p (record { netdev = a; irq = p.irq; priv_netdev = a }) log'
    ]

-- With no driver data the pointer is NULL, and taking the device down is a fault, `none`.
unfoldable pub my_net_remove : PciDev → Log → Option Log
my_net_remove p log = elim p.drvdata [
  | none ↦ none
  | some a ↦ some (pci_disable_device p.pdev ∷ free_netdev a ∷ unregister_netdev a ∷ log)
]

unfoldable pub my_net_init : (ret : ℤ) → Log → ℤ × Log
my_net_init ret log = (ret, pci_register_driver ret ∷ log)

unfoldable pub my_net_exit : Log → Log
my_net_exit log = pci_unregister_driver ∷ log
