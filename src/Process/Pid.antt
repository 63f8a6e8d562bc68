-- ===== src/Process/Pid.antt =====
-- get_pid/get_pid.c, put_pid/put_pid.c, find_get_pid/find_get_pid.c, find_vpid/find_vpid.c,
-- pid_task/pid_task.c, pid_nr/pid_nr.c and pid_vnr/pid_vnr.c: modules that look at the pid of the
-- task that loads them.
use linux_driver.Base.{ℤ, pos, [], ◌∷◌}
use linux_driver.Kernel.{Exec, ◌>>=◌, ◌>>◌, done, call, deref, printk, int, nat, get_pid, put_pid}
use linux_driver.Process.{Api, exit_ok, count_of, level_of, nr_of, get_pid_of}

module _ (api : Api) where
  -- The lines that several of the modules print alike.
  abbrev pub print_current : Exec (Unit {0})
  print_current = do
    printk "the current pid  is:%d\n" (int api.current.pid ∷ [])
    printk "the current tgid is:%d\n" (int api.current.tgid ∷ [])

  abbrev pub print_refcount : Exec (Unit {0})
  print_refcount = printk "module_refcount(THIS_MODULE):%d\n" (nat api.module_refcount ∷ [])

  unfoldable pub get_pid_init : Exec ℤ
  get_pid_init = do
    printk "into get_pid_init.\n" []
    mypid ← get_pid_of api api.current.pid
    printk "the count of mypid           is:%d\n" (nat (← count_of api mypid) ∷ [])
    printk "the level of mypid           is:%d\n" (nat (← level_of api mypid) ∷ [])
    p ← deref mypid
    call (get_pid p.address)
    printk "the count of mypid1           is:%d\n" (nat (← count_of api mypid) ∷ [])
    printk "the level of mypid1           is:%d\n" (nat (← level_of api mypid) ∷ [])
    call (get_pid p.address)
    printk "the count of mypid2           is:%d\n" (nat (← count_of api mypid) ∷ [])
    printk "the level of mypid2           is:%d\n" (nat (← level_of api mypid) ∷ [])
    printk "out get_pid_init\n" []
    print_refcount
    done (pos 0)

  unfoldable pub put_pid_init : Exec ℤ
  put_pid_init = do
    printk "into put_pid_init.\n" []
    kpid ← get_pid_of api api.current.pid
    printk "the count of the pid is:%d\n" (nat (← count_of api kpid) ∷ [])
    printk "the level of the pid is:%d\n" (nat (← level_of api kpid) ∷ [])
    printk "the pid of the pid is:%d\n" (int (← nr_of api kpid) ∷ [])
    p ← deref kpid
    call (put_pid p.address)
    printk "the new value after the fucntion put_pid\n" []
    printk "the new count of the pid is:%d\n" (nat (← count_of api kpid) ∷ [])
    printk "the new level of the pid is:%d\n" (nat (← level_of api kpid) ∷ [])
    printk "the new pid of the thread is:%d\n" (int (← nr_of api kpid) ∷ [])
    print_current
    printk "out put_pid_init\n" []
    print_refcount
    done (pos 0)

  unfoldable pub find_get_pid_init : Exec ℤ
  find_get_pid_init = do
    printk "into find_get_pid_init.\n" []
    kpid ← get_pid_of api api.current.pid
    printk "the count of the pid is:%d\n" (nat (← count_of api kpid) ∷ [])
    printk "the level of the pid is:%d\n" (nat (← level_of api kpid) ∷ [])
    printk "the pid of the find_get_pid is:%d\n" (int (← nr_of api kpid) ∷ [])
    printk "out find_get_pid_init\n" []
    print_refcount
    done (pos 0)

  -- `find_vpid` takes no reference.
  unfoldable pub find_vpid_init : Exec ℤ
  find_vpid_init = do
    printk "into find_vpid_init.\n" []
    let vpid = api.find_vpid api.current.pid
    printk "the count of the pid           is:%d\n" (nat (← count_of api vpid) ∷ [])
    printk "the level of the pid           is:%d\n" (nat (← level_of api vpid) ∷ [])
    printk "the pid of the find_vpid       is:%d\n" (int (← nr_of api vpid) ∷ [])
    printk "the pid of current thread      is:%d\n" (int api.current.pid ∷ [])
    printk "out find_vpid_init\n" []
    print_refcount
    done (pos 0)

  unfoldable pub pid_task_init : Exec ℤ
  pid_task_init = do
    printk "into pid_task_init.\n" []
    kpid ← get_pid_of api api.current.pid
    task ← deref (api.pid_task kpid)
    printk "the state of the task is:%d\n" (int task.state ∷ [])
    printk "the pid  of the task is:%d\n" (int task.pid ∷ [])
    printk "the tgid of the task is:%d\n" (int task.tgid ∷ [])
    print_current
    printk "out pid_task_init\n" []
    print_refcount
    done (pos 0)

  unfoldable pub pid_nr_init : Exec ℤ
  pid_nr_init = do
    printk "into pid_nr_init.\n" []
    kpid ← get_pid_of api api.current.pid
    printk "the level of the pid is:%d\n" (nat (← level_of api kpid) ∷ [])
    printk "the pid of the pid is:%d\n" (int (← nr_of api kpid) ∷ [])
    printk "the pid_nr result is:%d\n" (int (api.pid_nr kpid) ∷ [])
    print_current
    printk "out pid_nr_init\n" []
    print_refcount
    done (pos 0)

  unfoldable pub pid_vnr_init : Exec ℤ
  pid_vnr_init = do
    printk "into pid_vnr_init.\n" []
    kpid ← get_pid_of api api.current.pid
    printk "the level of the pid is:%d\n" (nat (← level_of api kpid) ∷ [])
    printk "the pid of the pid is:%d\n" (int (← nr_of api kpid) ∷ [])
    printk "the pid_vnr result is:%d\n" (int (api.pid_vnr kpid) ∷ [])
    print_current
    printk "out pid_vnr_init\n" []
    print_refcount
    done (pos 0)

-- The unload functions.
abbrev pub get_pid_exit : Exec (Unit {0})
get_pid_exit = exit_ok "get_pid_exit"

abbrev pub put_pid_exit : Exec (Unit {0})
put_pid_exit = exit_ok "put_pid_exit"

abbrev pub find_get_pid_exit : Exec (Unit {0})
find_get_pid_exit = exit_ok "find_get_pid_exit"

abbrev pub find_vpid_exit : Exec (Unit {0})
find_vpid_exit = exit_ok "find_vpid_exit"

abbrev pub pid_task_exit : Exec (Unit {0})
pid_task_exit = exit_ok "pid_task_exit"

abbrev pub pid_nr_exit : Exec (Unit {0})
pid_nr_exit = exit_ok "pid_nr_exit"

abbrev pub pid_vnr_exit : Exec (Unit {0})
pid_vnr_exit = exit_ok "pid_vnr_exit"
