-- ===== src/CharDev/Mutex/Load.antt =====
-- mutex/mutex.c: what loading and unloading the module leaves held.
use linux_driver.Base.{◌≡◌, some, List, [], ◌∷◌, arith}
use linux_driver.Kernel.{Log, ReturnsAll, DevT, Resource, held_kind, region, cdev, memory, account}
use linux_driver.CharDev.Mutex.{Driver, Answers, my_init, my_exit}

-- The three resources of a loaded module, the latest first.
abbrev pub loaded : Driver → List Resource
loaded g = held_kind memory g.shared_resource ∷ held_kind cdev 0 ∷ held_kind region g.dev_id ∷ []

module _ (t : DevT) where
  -- From a state without a fault, if the kernel numbers the first minor device 0, as the load function
  -- asks it to: loading succeeds and holds the device number, the cdev and the memory above what
  -- was held before, and unloading gives back each of them once; or loading fails with a negative
  -- code and has given back everything.
  pub my_exit-ReturnsAll :
      (k : Answers) (g : Driver) (log : Log) {rs : List Resource}
      → t.minor k.dev_id ≡ 0
      → account log ≡ some rs
      → let r = my_init t k g log in ReturnsAll loaded rs r (account (my_exit t r.dev r.log))
  unfolding my_init my_exit
  my_exit-ReturnsAll k g log m h = ground (arith, t.mkdev-parts k.dev_id)
