-- ===== src/TextFile/SysAttr/Load.antt =====
-- sys/sys.c: what loading and unloading the module leaves held, and the number that it prints.
use linux_driver.Base.{ℕ, ◌≡◌, some, List, [], ◌∷◌, ◌++◌, map, arith, ap, refl}
use linux_driver.Kernel.{
  Log, ReturnsAll, IsErrno, Resource, held_kind, kobject, sysfs_file, account,
}
use linux_driver.TextFile.SysAttr.{
  Answers, mymodule_init, mymodule_exit, Task, process, task_count, list_tasks, showtasklist,
}

abbrev pub loaded : ℕ → List Resource
loaded kobj = held_kind sysfs_file kobj ∷ held_kind kobject kobj ∷ []

-- If `sysfs_create_file` answers by the kernel's convention, from a state without a fault loading
-- succeeds with the kobject and its file held above what was held before, and unloading gives back
-- each of them once; or loading fails with a negative code and has given back everything.
pub mymodule_exit-ReturnsAll :
    (k : Answers) (log : Log) {rs : List Resource}
    → IsErrno k.created
    → account log ≡ some rs
    → let r = mymodule_init k log in ReturnsAll loaded rs r (account (mymodule_exit r.dev r.log))
unfolding mymodule_init mymodule_exit
mymodule_exit-ReturnsAll k log e h = ground arith

list_tasks-zero :
    (ts : List Task) → list_tasks 0 ts ≡ map (λ t. process t.comm t.pid) ts ++ (task_count 0 ∷ [])
unfolding list_tasks
list_tasks-zero [] = refl
list_tasks-zero (t ∷ ts) = ap (λ l. process t.comm t.pid ∷ l) (list_tasks-zero ts)

-- Every task is listed, in order, and the count printed after them is 0 however many there are.
pub showtasklist-count_zero :
    (ts : List Task) → showtasklist ts ≡ map (λ t. process t.comm t.pid) ts ++ (task_count 0 ∷ [])
unfolding showtasklist
showtasklist-count_zero ts = list_tasks-zero ts
