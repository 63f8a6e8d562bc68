-- ===== src/Process/Memory.antt =====
-- get_task_mm/get_task_mm.c and mmput/mmput.c: modules that look at the memory descriptor of the
-- task that loads them.
use linux_driver.Base.{ℕ, ℤ, pos, Option, some, [], ◌∷◌}
use linux_driver.Kernel.{Exec, ◌>>=◌, ◌>>◌, done, call, deref, printk, int, nat, get_task_mm, mmput}
use linux_driver.Process.{Api, unfreed, exit_ok, Task, MmStruct, mm_address, get_pid_of}
use linux_driver.Process.Pid.{print_refcount}

module _ (api : Api) where
  unfoldable pub mm_at : MmStruct → Exec MmStruct
  mm_at mm w = unfreed (api.mm_users mm.address w.log) mm w

  unfoldable pub users_of : MmStruct → Exec ℕ
  users_of mm = do _ ← mm_at mm; (λ w. some (api.mm_users mm.address w.log, w))

  -- `get_task_mm(task)`
  unfoldable pub mm_of_task : Task → Exec (Option MmStruct)
  mm_of_task task = do call (get_task_mm (mm_address (api.mm_of task))); done (api.mm_of task)

  -- `mm_task->mm_users`, `mm_task->mm_count` and the numbers of `mm_task->owner`
  unfoldable pub print_mm : MmStruct → Exec (Unit {0})
  print_mm mm = do
    printk "the mm_users of the mm_struct is:%d\n" (nat (← users_of mm) ∷ [])
    printk "the mm_count of the mm_struct is:%d\n" (nat (← mm_at mm).mm_count ∷ [])
    owner ← deref (← mm_at mm).owner
    printk "the tgid of the mm_struct is:%d\n" (int owner.tgid ∷ [])
    printk "the pid of the mm_struct is:%d\n" (int owner.pid ∷ [])

  unfoldable pub get_task_mm_init : Exec ℤ
  get_task_mm_init = do
    printk "into get_task_mm_init.\n" []
    kpid ← get_pid_of api api.current.pid
    task ← deref (api.pid_task kpid)
    mm ← deref (← mm_of_task task)
    print_mm mm
    printk "the current PID is:%d\n" (int api.current.pid ∷ [])
    printk "out get_task_mm_init\n" []
    print_refcount api
    done (pos 0)

  unfoldable pub mmput_init : Exec ℤ
  mmput_init = do
    printk "into mmput_init.\n" []
    kpid ← get_pid_of api api.current.pid
    task ← deref (api.pid_task kpid)
    mm ← deref (← mm_of_task task)
    print_mm mm
    call (mmput mm.address)
    printk "the new value of the mm_struct after the function mmput:\n" []
    print_mm mm
    printk "the current PID is:%d\n" (int api.current.pid ∷ [])
    printk "out mmput_init\n" []
    print_refcount api
    done (pos 0)

-- The unload functions.
abbrev pub get_task_mm_exit : Exec (Unit {0})
get_task_mm_exit = exit_ok "get_task_mm_exit"

abbrev pub mmput_exit : Exec (Unit {0})
mmput_exit = exit_ok "mmput_exit"
