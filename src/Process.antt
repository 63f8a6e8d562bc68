-- ===== src/Process.antt =====
-- What the modules that show processes, their pids and their memory have in common: the fields of
-- the kernel's structures that they read, and what they call the kernel for. `Process.Pid` has the
-- modules about a pid, `Process.Memory` those about a memory descriptor, `Process.Listing` those
-- that walk the list of tasks.
pub mod Pid
pub mod Namespace
pub mod Memory
pub mod Listing
pub mod Runs
pub mod Leaks
pub mod Tasks
pub mod Counting
use Prim.Native.String.{String}
use linux_driver.Base.{ℕ, zero, suc, ◌+◌, ◌≡◌, ℤ, Option, none, some, List, [], ◌∷◌}
use linux_driver.Kernel.{
  Log, World, Exec, ◌>>=◌, ◌>>◌, done, call, deref, find_get_pid, get_pid, put_pid, get_task_mm,
  mmput, printk, text,
}

-- `struct task_struct`.
pub record Task : Type 0 where
  pub pid : ℤ
  pub tgid : ℤ
  pub state : ℤ
  pub comm : List ℕ

-- `struct pid_namespace`.
pub record PidNamespace : Type 0 where
  pub level : ℕ
  pub hide_pid : ℤ

-- `struct pid`, with the number and the namespace of `numbers[level]`. Its count changes, and is
-- the kernel's to tell.
pub record PidStruct : Type 0 where
  pub address : ℕ
  pub level : ℕ
  pub nr : ℤ
  pub ns : PidNamespace

-- `struct mm_struct`; its users change like a pid's count.
pub record MmStruct : Type 0 where
  pub address : ℕ
  pub mm_count : ℕ
  pub owner : Option Task

-- The kernel's side. `count` and `mm_users` are what the fields of that name hold after the calls
-- of a log; a pid with the count 0 is freed.
pub record Api : Type 0 where
  pub current : Task
  pub find_vpid : ℤ → Option PidStruct
  pub pid_task : Option PidStruct → Option Task
  pub mm_of : Task → Option MmStruct
  pub pid_nr : Option PidStruct → ℤ
  pub pid_vnr : Option PidStruct → ℤ
  pub ns_of_pid : Option PidStruct → Option PidNamespace
  pub find_pid_ns : ℤ → PidNamespace → Option PidStruct
  pub task_pid_nr_ns : Task → PidNamespace → ℤ
  pub task_tgid_nr_ns : Task → PidNamespace → ℤ
  pub task_active_pid_ns : Task → Option PidNamespace
  pub module_refcount : ℕ
  pub count : (pid : ℕ) → Log → ℕ
  pub mm_users : (mm : ℕ) → Log → ℕ

-- What the kernel documents of the counts: a get adds one and a put takes one away.
pub record IsKernel (api : Api) : Type 0 where
  pub count-find_get_pid :
      (a : ℕ) (log : Log) → api.count a (find_get_pid (some a) ∷ log) ≡ suc (api.count a log)
  pub count-get_pid : (a : ℕ) (log : Log) → api.count a (get_pid a ∷ log) ≡ suc (api.count a log)
  pub count-put_pid :
      (a n : ℕ) (log : Log) → api.count a log ≡ suc n → api.count a (put_pid a ∷ log) ≡ n
  pub count-get_task_mm :
      (a : ℕ) (m : Option ℕ) (log : Log) → api.count a (get_task_mm m ∷ log) ≡ api.count a log
  pub count-mmput : (a m : ℕ) (log : Log) → api.count a (mmput m ∷ log) ≡ api.count a log
  pub mm_users-find_get_pid :
      (m : ℕ) (a : Option ℕ) (log : Log)
      → api.mm_users m (find_get_pid a ∷ log) ≡ api.mm_users m log
  pub mm_users-get_task_mm :
      (m : ℕ) (log : Log) → api.mm_users m (get_task_mm (some m) ∷ log) ≡ suc (api.mm_users m log)
  pub mm_users-mmput :
      (m n : ℕ) (log : Log) → api.mm_users m log ≡ suc n → api.mm_users m (mmput m ∷ log) ≡ n

abbrev pub pid_address : Option PidStruct → Option ℕ
pid_address none = none
pid_address (some p) = some p.address

abbrev pub mm_address : Option MmStruct → Option ℕ
mm_address none = none
mm_address (some m) = some m.address

-- A read of what has a count of its users: once they are gone it is freed, and the read faults.
abbrev pub unfreed : {A : Type 0} → (users : ℕ) → A → Exec A
unfreed zero a w = none
unfreed (suc n) a w = some (a, w)

-- What the unload functions do.
unfoldable pub exit_ok : (function : String) → Exec (Unit {0})
exit_ok f = printk "<0>module[%s] exit ok!\n" (text f ∷ [])

module _ (api : Api) where
  unfoldable pub pid_at : Option PidStruct → Exec PidStruct
  pid_at none w = none
  pid_at (some p) w = unfreed (api.count p.address w.log) p w

  -- `pid->count`, `pid->level`, `pid->numbers[pid->level].nr` and `.ns`
  unfoldable pub count_of : Option PidStruct → Exec ℕ
  count_of kpid = do p ← pid_at kpid; (λ w. some (api.count p.address w.log, w))

  unfoldable pub level_of : Option PidStruct → Exec ℕ
  level_of kpid = do p ← pid_at kpid; done p.level

  unfoldable pub nr_of : Option PidStruct → Exec ℤ
  nr_of kpid = do p ← pid_at kpid; done p.nr

  unfoldable pub ns_of : Option PidStruct → Exec PidNamespace
  ns_of kpid = do p ← pid_at kpid; done p.ns

  -- `find_get_pid(nr)`
  unfoldable pub get_pid_of : ℤ → Exec (Option PidStruct)
  get_pid_of nr = do call (find_get_pid (pid_address (api.find_vpid nr))); done (api.find_vpid nr)
