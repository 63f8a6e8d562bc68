-- ===== src/TextFile/SysAttr.antt =====
-- sys/sys.c: /sys/kernel/mymodule/my_data takes a command, and lists the tasks for two of them.
pub mod Load
use linux_driver.Base.{
  ℕ, suc, ◌+◌, ℤ, pos, Bool, true, false, is_set, Option, none, some, List, [], ◌∷◌, ◌++◌, ◌==◌,
  if◌then◌else◌, cstr, codes, length, enomem, strncmp_eq,
}
use linux_driver.Kernel.{
  kobject_create_and_add, kobject_put, sysfs_create_file, sysfs_remove_file, Log, Run, snprintf_s,
}

-- The fields of a task that are printed.
pub record Task : Type 0 where
  pub comm : List ℕ
  pub pid : ℤ
  pub tgid : ℤ
  pub prio : ℤ
  pub static_prio : ℤ
  pub normal_prio : ℤ

-- The lines that reach the kernel's log.
pub data Line : Type 0 where
  received : (text : List ℕ) → Line
  process : (comm : List ℕ) (pid : ℤ) → Line
  process_info : (comm : List ℕ) (pid tgid prio static_prio normal_prio : ℤ) → Line
  task_count : ℕ → Line

unfoldable pub my_data_show : (my_data : List ℕ) → List ℕ
my_data_show my_data = cstr my_data ++ codes "\n"

-- The loop of `showtasklist`; the counter is not touched.
unfoldable pub list_tasks : (iTaskCount : ℕ) → List Task → List Line
list_tasks n [] = task_count n ∷ []
list_tasks n (t ∷ ts) = process t.comm t.pid ∷ list_tasks n ts

unfoldable pub showtasklist : List Task → List Line
unfolding list_tasks
showtasklist = list_tasks 0

unfoldable pub list_task_info : (iTaskCount : ℕ) → List Task → List Line
list_task_info n [] = task_count n ∷ []
list_task_info n (t ∷ ts) =
    process_info t.comm t.pid t.tgid t.prio t.static_prio t.normal_prio ∷ list_task_info (n + 1) ts

unfoldable pub print_task_info : List Task → List Line
unfolding list_task_info
print_task_info = list_task_info 0

-- What a store returns, leaves in `my_data` and prints.
pub record Stored : Type 0 where
  pub ret : ℕ
  pub my_data : List ℕ
  pub lines : List Line

unfoldable pub my_data_store : (my_data buf : List ℕ) (count : ℕ) → List Task → Stored
unfolding strncmp_eq showtasklist print_task_info
my_data_store my_data buf count tasks =
    let data' = snprintf_s my_data 256 buf in
    let shown =
      if strncmp_eq data' (codes "showtask") 8
      then showtasklist tasks
      else if strncmp_eq data' (codes "showalltask") 11
      then print_task_info tasks
      else [] in
    record { ret = count; my_data = data'; lines = received (cstr data') ∷ shown }

pub record Answers : Type 0 where
  pub kobj : Option ℕ
  pub created : ℤ

-- `mymodule_kobj` is the module's state.
unfoldable pub create_file : (kobj : ℕ) (created : ℤ) → Log → Run ℕ
create_file kobj created log =
    let log' = sysfs_create_file kobj created ∷ log in
    if is_set created
    then record { ret = created; dev = kobj; log = kobject_put kobj ∷ log' }
    else record { ret = pos 0; dev = kobj; log = log' }

unfoldable pub mymodule_init : Answers → Log → Run ℕ
unfolding create_file
mymodule_init k log =
    let log' = kobject_create_and_add k.kobj ∷ log in
    elim k.kobj [
      | none ↦ record { ret = enomem; dev = 0; log = log' }
      | some kobj ↦ create_file kobj k.created log'
    ]

unfoldable pub mymodule_exit : (kobj : ℕ) → Log → Log
mymodule_exit kobj log = kobject_put kobj ∷ sysfs_remove_file kobj ∷ log
