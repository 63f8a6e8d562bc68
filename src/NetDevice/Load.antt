-- ===== src/NetDevice/Load.antt =====
-- network/mynetwork.c: what probing and removing a device leaves held.
use linux_driver.Base.{is_neg, true, ◌⊎◌, ℕ, pos, ◌≡◌, none, some, Option, List, [], ◌∷◌, arith}
use linux_driver.Kernel.{
  Log, AllOrNothing, IsErrno, Resource, held_kind, netdev, registration, pci, account,
}
use linux_driver.NetDevice.{Answers, PciDev, NetDev, my_net_probe, my_net_remove}

-- The three resources of a probed device, the latest first.
abbrev pub probed : (pdev : ℕ) → Option NetDev → List Resource
probed p none = []
probed p (some n) =
    held_kind pci p ∷ held_kind registration n.netdev ∷ held_kind netdev n.netdev ∷ []

-- If the kernel's answers follow its convention, a probe from a state without a fault succeeds
-- with the network device, its registration and the PCI device held above what was held before, or
-- fails with a negative code and has given back everything.
pub my_net_probe-AllOrNothing :
    (k : Answers) (p : PciDev) (log : Log) {rs : List Resource}
    → IsErrno k.registered
    → IsErrno k.enabled
    → account log ≡ some rs
    → AllOrNothing (probed p.pdev) rs (my_net_probe k p log)
unfolding my_net_probe
my_net_probe-AllOrNothing k p log e1 e2 h = ground arith

-- The driver never sets the driver data of the PCI device, so that it is NULL after every probe. If
-- the kernel's answers follow its convention, a probe from a state without a fault fails with a
-- negative code and has given back everything; or it returns 0 with the network device, its
-- registration and the PCI device held above what was held before, and then removing reads through
-- that NULL, which is a fault, so that nothing of them is given back.
pub my_net_remove-my_net_probe :
    (k : Answers) (p : PciDev) (log : Log) {rs : List Resource}
    → IsErrno k.registered
    → IsErrno k.enabled
    → p.drvdata ≡ none
    → account log ≡ some rs
    → let r = my_net_probe k p log in
      AllOrNothing (probed p.pdev) rs r
      × ((is_neg r.ret ≡ true) ⊎ ((r.ret ≡ pos 0) × (my_net_remove p r.log ≡ none)))
unfolding my_net_probe my_net_remove
my_net_remove-my_net_probe k p log e1 e2 d h =
    (my_net_probe-AllOrNothing k p log e1 e2 h, ground arith)
