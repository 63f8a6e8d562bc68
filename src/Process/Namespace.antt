-- ===== src/Process/Namespace.antt =====
-- ns_of_pid/ns_of_pid.c, find_pid_ns/find_pid_ns.c, __task_pid_nr_ns/__task_pid_nr_ns.c,
-- task_active_pid_ns/task_active_pid_ns.c and task_tgid_nr_ns/task_tgid_nr_ns.c: modules that look at
-- the namespace of a pid.
use linux_driver.Base.{ℤ, pos, [], ◌∷◌}
use linux_driver.Kernel.{Exec, ◌>>=◌, ◌>>◌, done, deref, printk, int, nat}
use linux_driver.Process.{Api, exit_ok, count_of, level_of, nr_of, ns_of, get_pid_of}
use linux_driver.Process.Pid.{print_current, print_refcount}

module _ (api : Api) where
  unfoldable pub ns_of_pid_init : Exec ℤ
  ns_of_pid_init = do
    printk "into ns_of_pid_init.\n" []
    kpid ← get_pid_of api api.current.pid
    printk "the level of the pid is:%d\n" (nat (← level_of api kpid) ∷ [])
    printk "the pid of the pid is:%d\n" (int (← nr_of api kpid) ∷ [])
    pid_ns ← deref (api.ns_of_pid kpid)
    printk "the level of the pid_namespace is:%d\n" (nat pid_ns.level ∷ [])
    printk "the hide_pid of the pid_namespace is:%d\n" (int pid_ns.hide_pid ∷ [])
    printk "the current PID  is:%d\n" (int api.current.pid ∷ [])
    printk "the current tgid is:%d\n" (int api.current.tgid ∷ [])
    printk "out ns_of_pid_init\n" []
    print_refcount api
    done (pos 0)

  -- What `find_pid_ns` finds is not looked at again; the line on the level has the count.
  unfoldable pub find_pid_ns_init : Exec ℤ
  find_pid_ns_init = do
    printk "into find_pid_ns_init.\n" []
    kpid ← get_pid_of api api.current.pid
    nr ← nr_of api kpid
    ns ← ns_of api kpid
    let fpid = api.find_pid_ns nr ns
    printk "the find_pid_ns result's count is:%d\n" (nat (← count_of api kpid) ∷ [])
    printk "the find_pid_ns result's level is:%d\n" (nat (← count_of api kpid) ∷ [])
    printk "the find_pid_ns result's pid   is:%d\n" (int (← nr_of api kpid) ∷ [])
    printk "the pid of current thread      is:%d\n" (int api.current.pid ∷ [])
    printk "out find_pid_ns_init\n" []
    print_refcount api
    done (pos 0)

  unfoldable pub task_pid_nr_ns_init : Exec ℤ
  task_pid_nr_ns_init = do
    printk "into __task_pid_nr_ns_init.\n" []
    kpid ← get_pid_of api api.current.pid
    ns ← ns_of api kpid
    task ← deref (api.pid_task kpid)
    printk "the result of the __task_pid_nr_ns is:%d\n" (int (api.task_pid_nr_ns task ns) ∷ [])
    printk "the pid of current thread is:%d\n" (int api.current.pid ∷ [])
    printk "out __task_pid_nr_ns\n" []
    print_refcount api
    done (pos 0)

  unfoldable pub task_active_pid_ns_init : Exec ℤ
  task_active_pid_ns_init = do
    printk "into task_active_pid_ns_init.\n" []
    kpid ← get_pid_of api api.current.pid
    task ← deref (api.pid_task kpid)
    printk "the count of the pid is:%d\n" (nat (← count_of api kpid) ∷ [])
    printk "the level of the pid is:%d\n" (nat (← level_of api kpid) ∷ [])
    printk "the pid of the pid is:%d\n" (int (← nr_of api kpid) ∷ [])
    ns ← deref (api.task_active_pid_ns task)
    printk "the hide_pid of the task_active_pid_ns result is:%d\n" (int ns.hide_pid ∷ [])
    print_current api
    printk "out task_active_pid_ns_init\n" []
    print_refcount api
    done (pos 0)

  unfoldable pub task_tgid_nr_ns_init : Exec ℤ
  task_tgid_nr_ns_init = do
    printk "into task_tgid_nr_ns_init.\n" []
    kpid ← get_pid_of api api.current.pid
    ns ← ns_of api kpid
    task ← deref (api.pid_task kpid)
    printk "the pid of the find_get_pid is:%d\n" (int (← nr_of api kpid) ∷ [])
    printk "the result of the task_tgid_nr_ns is:%d\n" (int (api.task_tgid_nr_ns task ns) ∷ [])
    printk "the pid of current thread is:%d\n" (int api.current.pid ∷ [])
    printk "the current tgid is:%d\n" (int api.current.tgid ∷ [])
    printk "out task_tgid_nr_ns_init\n" []
    print_refcount api
    done (pos 0)

-- The unload functions.
abbrev pub ns_of_pid_exit : Exec (Unit {0})
ns_of_pid_exit = exit_ok "ns_of_pid_exit"

abbrev pub find_pid_ns_exit : Exec (Unit {0})
find_pid_ns_exit = exit_ok "find_pid_ns_exit"

abbrev pub task_pid_nr_ns_exit : Exec (Unit {0})
task_pid_nr_ns_exit = exit_ok "__task_pid_nr_ns_exit"

abbrev pub task_active_pid_ns_exit : Exec (Unit {0})
task_active_pid_ns_exit = exit_ok "task_active_pid_ns_exit"

abbrev pub task_tgid_nr_ns_exit : Exec (Unit {0})
task_tgid_nr_ns_exit = exit_ok "task_tgid_nr_ns_exit"
