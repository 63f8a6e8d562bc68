-- ===== src/DeviceTree/Backlight/Memory.antt =====
-- dtsof/dtsof.c: the memory for the brightness levels.
use linux_driver.Base.{ℕ, pos, is_set, true, ◌≡◌, ◌⊎◌, none, some, List, arith}
use linux_driver.Kernel.{Log, Resource, account}
use linux_driver.DeviceTree.Backlight.{Answers, dtsof_init}

-- Whatever the device tree and the allocator answer, from a state without a fault the memory for
-- the levels is given back before the load function returns, and its code is 0 or an error that
-- stopped it before the memory was there: a failure to read the levels is not reported.
pub dtsof_init_memory :
    (size_bits : ℕ) (k : Answers) (log : Log) {rs : List Resource}
    → account log ≡ some rs
    → let r = dtsof_init size_bits k log in
      (account r.log ≡ some rs)
      × ((r.ret ≡ pos 0)
          ⊎ ((is_set r.ret ≡ true)
              × ((k.node ≡ none)
                  ⊎ (k.compatible ≡ none)
                  ⊎ (is_set k.status ≡ true)
                  ⊎ (is_set k.level ≡ true)
                  ⊎ (k.memory ≡ none))))
unfolding dtsof_init
dtsof_init_memory b k log h = ground arith
