-- ===== src/CharDev/NewChrdev/Load.antt =====
-- newchrdevbase/newchrdevbase.c: what loading and unloading the module leaves held.
use linux_driver.Base.{◌≡◌, some, List, [], ◌∷◌, arith}
use linux_driver.Kernel.{
  address_of, Log, ReturnsAll, DevT, Resource, held_kind, region, cdev, class, device, account,
}
use linux_driver.CharDev.NewChrdev.{Newchrled, Answers, newchardevbase_init, newchardevbase_exit}

-- The four resources of a loaded module, the latest first.
abbrev pub loaded : Newchrled → List Resource
loaded g =
    held_kind device g.devid
    ∷ held_kind class (address_of g.class)
    ∷ held_kind cdev 0
    ∷ held_kind region g.devid
    ∷ []

module _ (t : DevT) where
  -- Whatever the kernel answers, from a state without a fault loading succeeds and then holds, above
  -- what was held before, exactly the device number, the cdev, the class and the node of this
  -- device, and unloading gives back each of them once, so that what was held before is held again;
  -- or loading fails with a negative number and has given back everything that it took.
  pub newchardevbase_exit-ReturnsAll :
      (k : Answers) (g : Newchrled) (log : Log) {rs : List Resource}
      → account log ≡ some rs
      → let r = newchardevbase_init t k g log in
        ReturnsAll loaded rs r (account (newchardevbase_exit r.dev r.log))
  unfolding newchardevbase_init newchardevbase_exit
  newchardevbase_exit-ReturnsAll k g log h = ground arith
