-- ===== src/DeviceTree/Led/Load.antt =====
-- dtsofled/dtsofled.c: what loading leaves held.
use linux_driver.Base.{ℕ, pos, is_neg, true, false, ◌≡◌, ◌⊎◌, Option, none, some, List, [], arith}
use linux_driver.Kernel.{address, Log, Run, DevT, Resource, account}
use linux_driver.DeviceTree.Led.{Dtsled, Answers, dtsofled_init, dtsofled_exit}

-- Loading gave everything back: it failed with a negative code, or the node was missing and the
-- code is what `cdev_add` had answered. Where it faults, the cells of `reg` had been read.
abbrev pub NeverLoads : List Resource → Answers → Option (Run Dtsled) → Type 0
NeverLoads rs k none = is_neg k.reg ≡ false
NeverLoads rs k (some r) =
    (account r.log ≡ some rs) × ((is_neg r.ret ≡ true) ⊎ ((k.nd ≡ none) × (r.ret ≡ k.added)))

-- Success is reported with nothing held, and unloading then faults.
abbrev pub LoadsNothing : Option (Run Dtsled) → Type 0
LoadsNothing none = ⊥
LoadsNothing (some r) =
    (r.ret ≡ pos 0)
    × (account r.log ≡ some [])
    × (account (dtsofled_exit r.dev.gpio1_dr r.dev r.log).1 ≡ none)

module _ (t : DevT) where
  -- If nothing is held before, and every call succeeds but the node is missing, loading returns 0
  -- with nothing held, and unloading then gives back what is not held.
  pub dtsofled_init-LoadsNothing :
      (k : Answers) (g : Dtsled) (log : Log) {c d : ℕ}
      → account log ≡ some []
      → is_neg k.region ≡ false
      → k.added ≡ pos 0
      → k.class ≡ address c
      → k.device ≡ address d
      → k.nd ≡ none
      → LoadsNothing (dtsofled_init t k g log)
  unfolding dtsofled_init dtsofled_exit
  dtsofled_init-LoadsNothing k g log h e1 e2 e3 e4 e5 = ground arith
