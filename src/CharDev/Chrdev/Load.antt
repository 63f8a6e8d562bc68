-- ===== src/CharDev/Chrdev/Load.antt =====
-- chrdevbase/chrdevbase.c: loading reports success in any case.
use linux_driver.Base.{ℤ, pos, is_neg, true, false, ◌≡◌, ◌↔◌, none, some, [], arith}
use linux_driver.Kernel.{Log, account}
use linux_driver.CharDev.Chrdev.{chrdevbase_init, chrdevbase_exit}

-- Loading returns 0 whatever the registration answers; from a state with nothing held, unloading
-- afterwards restores it exactly when the registration had succeeded, and faults otherwise.
pub chrdevbase_exit-chrdevbase_init :
    (ret : ℤ) (log : Log)
    → account log ≡ some []
    → let r = chrdevbase_init ret log in
      (r.0 ≡ pos 0)
      × ((account (chrdevbase_exit r.1) ≡ some []) ↔ (is_neg ret ≡ false))
      × ((account (chrdevbase_exit r.1) ≡ none) ↔ (is_neg ret ≡ true))
unfolding chrdevbase_init chrdevbase_exit
chrdevbase_exit-chrdevbase_init ret log h = ground arith
