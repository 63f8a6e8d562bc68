-- ===== src/Process/Listing.antt =====
-- print_pid/print_pid.c and iterateprocess/iterateprocess.c: modules that walk the kernel's list of
-- tasks. The list is a ring: a walk goes from the task after its head to the one before it.
use linux_driver.Base.{ℕ, ℤ, pos, List, [], ◌∷◌, ◌+◌}
use linux_driver.Kernel.{Exec, ◌>>=◌, ◌>>◌, done, printk, int, nat, text, chars}
use linux_driver.Process.{Api, Task, count_of, level_of, nr_of, get_pid_of}

-- The tasks of the ring, from the one that a walk starts at, which it does not visit.
pub record Ring : Type 0 where
  pub head : Task
  pub others : List Task

module _ (api : Api) where
  -- The loop of `print_pid_init`: each task's pid is got, and never put.
  unfoldable pub print_pids : (count : ℕ) → List Task → Exec ℕ
  print_pids count [] = done count
  print_pids count (p ∷ ps) = do
    kpid ← get_pid_of api p.pid
    let vnr = api.pid_vnr kpid
    c ← count_of api kpid
    level ← level_of api kpid
    nr ← nr_of api kpid
    let values = int p.pid ∷ chars p.comm ∷ nat c ∷ nat level ∷ int nr ∷ int vnr ∷ []
    printk "%-6d--->%-30s %-10d %-10d %-10d %-10d\n" values
    print_pids (count + 1) ps

  unfoldable pub print_pid_init : (init_task : Ring) → Exec ℤ
  unfolding print_pids
  print_pid_init init_task = do
    printk "print_pid,\n" []
    printk "Hello World enter begin:\n" []
    let headings =
        text "PID" ∷ text "NAME" ∷ text "COUNT" ∷ text "LEVEL" ∷ text "NR" ∷ text "VNR" ∷ []
    printk "%-6s %-30s %-10s %-10s %-10s %-10s\n" headings
    count ← print_pids 0 init_task.others
    printk "the number of process is:%d\n" (nat count ∷ [])
    done (pos 0)

-- The loop of `traverse_init`.
unfoldable pub traverse : (count : ℕ) → List Task → Exec ℕ
traverse count [] = done count
traverse count (p ∷ ps) = do
  let values = nat (count + 1) ∷ chars p.comm ∷ int p.pid ∷ []
  printk "[process %-5d]: %s's pid is %-5d\n" values
  traverse (count + 1) ps

-- The walk starts at the task that loads the module.
unfoldable pub traverse_init : (current : Ring) → Exec ℤ
unfolding traverse
traverse_init current = do
  printk "Traversal module is working..\n" []
  count ← traverse 0 current.others
  printk "The number of process is:%-5d\n" (nat count ∷ [])
  done (pos 0)

abbrev pub print_pid_exit : Exec (Unit {0})
print_pid_exit = printk "goodbye,kernel\n" []

abbrev pub traverse_exit : Exec (Unit {0})
traverse_exit = printk "traverse  exit\n" []
