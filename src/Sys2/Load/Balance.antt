-- ===== src/Sys2/Load/Balance.antt =====
-- sys2/sys2.c: what loading the module leaves held.
use linux_driver.Base.{ℕ, pos, is_set, is_neg, true, false, ◌≡◌, ◌⊎◌, some, List, ◌∷◌, arith}
use linux_driver.Kernel.{
  Log, IsErrno, Resource, held_kind, kobject, sysfs_file, net_hook, account, Run,
}
use linux_driver.Sys2.Load.{Answers, mymodule_init}

-- Loading reported success and holds the kobject, its file and, if the kernel took it, the hook; or
-- it failed with a negative code and holds none of them.
abbrev pub Settles : Answers → List Resource → Run ℕ → Type 0
Settles k rs r =
    ((r.ret ≡ pos 0)
      × (is_set k.hooked ≡ false)
      × (account r.log
          ≡ some
              (held_kind net_hook 0 ∷ held_kind sysfs_file r.dev ∷ held_kind kobject r.dev ∷ rs)))
    ⊎ ((r.ret ≡ pos 0)
        × (is_set k.hooked ≡ true)
        × (account r.log ≡ some (held_kind sysfs_file r.dev ∷ held_kind kobject r.dev ∷ rs)))
    ⊎ ((is_neg r.ret ≡ true) × (account r.log ≡ some rs))

-- If `sysfs_create_file` answers by the kernel's convention, loading from a state without a fault
-- is all or nothing for the kobject and its file; a hook that the kernel refuses does not stop it.
pub mymodule_init-Settles :
    (k : Answers) (log : Log) {rs : List Resource}
    → IsErrno k.created
    → account log ≡ some rs
    → Settles k rs (mymodule_init k log)
unfolding mymodule_init
mymodule_init-Settles k log e h = ground arith
