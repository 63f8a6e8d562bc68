-- ===== src/Process/Runs.antt =====
-- How a run goes on after a read of the fields of a pid or a memory descriptor that succeeds.
use linux_driver.Base.{ℕ, suc, ℤ, some, List, ◌≡◌}
use linux_driver.Kernel.{Exec, ◌>>=◌, Log, Printk, world, done}
use linux_driver.Process.{
  Api, PidStruct, PidNamespace, MmStruct, pid_at, count_of, level_of, nr_of, ns_of,
}
use linux_driver.Process.Memory.{mm_at, users_of}

module _ (api : Api) {B : Type 0} (p : PidStruct) {log : Log} {m : ℕ}
    (live : api.count p.address log ≡ suc m) where
  pub counts :
      (k : ℕ → Exec B) (pr : List Printk)
      → (count_of api (some p) >>= k) (world log pr) ≡ k (api.count p.address log) (world log pr)
  unfolding count_of pid_at ◌>>=◌
  counts k pr = rw (live, live)

  pub levels :
      (k : ℕ → Exec B) (pr : List Printk)
      → (level_of api (some p) >>= k) (world log pr) ≡ k p.level (world log pr)
  unfolding level_of pid_at ◌>>=◌ done
  levels k pr = rw live

  pub nrs :
      (k : ℤ → Exec B) (pr : List Printk)
      → (nr_of api (some p) >>= k) (world log pr) ≡ k p.nr (world log pr)
  unfolding nr_of pid_at ◌>>=◌ done
  nrs k pr = rw live

  pub nss :
      (k : PidNamespace → Exec B) (pr : List Printk)
      → (ns_of api (some p) >>= k) (world log pr) ≡ k p.ns (world log pr)
  unfolding ns_of pid_at ◌>>=◌ done
  nss k pr = rw live

module _ (api : Api) {B : Type 0} (mm : MmStruct) {log : Log} {m : ℕ}
    (live : api.mm_users mm.address log ≡ suc m) where
  pub mms :
      (k : MmStruct → Exec B) (pr : List Printk)
      → (mm_at api mm >>= k) (world log pr) ≡ k mm (world log pr)
  unfolding mm_at ◌>>=◌
  mms k pr = rw live

  pub users :
      (k : ℕ → Exec B) (pr : List Printk)
      → (users_of api mm >>= k) (world log pr) ≡ k (api.mm_users mm.address log) (world log pr)
  unfolding users_of mm_at ◌>>=◌
  users k pr = rw (live, live)
