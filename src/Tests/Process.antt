-- ===== src/Tests/Process.antt =====
-- The modules about processes at concrete inputs.
use linux_driver.Base.{
  ℕ, suc, ◌-◌, ◌≡◌, refl, pos, some, [], ◌∷◌, ◌==◌, if◌then◌else◌, codes, arith,
}
use linux_driver.Kernel.{
  Event, Log, World, ◌>>=◌, ◌>>◌, done, nat, find_get_pid, get_pid, put_pid, get_task_mm, mmput,
}
use linux_driver.Process.{Api, IsKernel, Task, PidNamespace, PidStruct, MmStruct}
use linux_driver.Process.Leaks.{in_get_task_mm, load_unload, leftover, effects, load_unload-leaks}
use linux_driver.Process.Tasks.{HeldMore, HavePids, print_pid-leaks}
use linux_driver.Process.Counting.{last_values, counts-agree}
use linux_driver.Process.Listing.{Ring, print_pid_init, print_pid_exit, traverse_init}

abbrev shell : Task
shell = record { pid = pos 7; tgid = pos 7; state = pos 0; comm = codes "sh" }

abbrev swapper : Task
swapper = record shell { pid = pos 0; comm = codes "swapper" }

abbrev root_ns : PidNamespace
root_ns = record { level = 0; hide_pid = pos 0 }

abbrev shell_pid : PidStruct
shell_pid = record { address = 4096; level = 0; nr = pos 7; ns = root_ns }

abbrev shell_mm : MmStruct
shell_mm = record { address = 8192; mm_count = 1; owner = some shell }

-- Counts that begin at 1 and follow the calls.
abbrev one_call : (a : ℕ) → Event → ℕ → ℕ
one_call a (find_get_pid (some p)) n = if p == a then suc n else n
one_call a (get_pid p) n = if p == a then suc n else n
one_call a (put_pid p) n = if p == a then n - 1 else n
one_call a _ n = n

count_after : (a : ℕ) → Log → ℕ
count_after a [] = 1
count_after a (e ∷ log) = one_call a e (count_after a log)

abbrev one_mm_call : (a : ℕ) → Event → ℕ → ℕ
one_mm_call a (get_task_mm (some m)) n = if m == a then suc n else n
one_mm_call a (mmput m) n = if m == a then n - 1 else n
one_mm_call a _ n = n

users_after : (a : ℕ) → Log → ℕ
users_after a [] = 1
users_after a (e ∷ log) = one_mm_call a e (users_after a log)

abbrev api : Api
api = record {
  current = shell;
  find_vpid = λ nr. some shell_pid;
  pid_task = λ p. some shell;
  mm_of = λ t. some shell_mm;
  pid_nr = λ p. pos 7;
  pid_vnr = λ p. pos 7;
  ns_of_pid = λ p. some root_ns;
  find_pid_ns = λ nr ns. some shell_pid;
  task_pid_nr_ns = λ t ns. pos 7;
  task_tgid_nr_ns = λ t ns. pos 7;
  task_active_pid_ns = λ t. some root_ns;
  module_refcount = 0;
  count = count_after;
  mm_users = users_after;
}

api-IsKernel : IsKernel api
unfolding count_after users_after
api-IsKernel = record {
  count-find_get_pid = λ a log. ground arith;
  count-get_pid = λ a log. ground arith;
  count-put_pid = λ a n log e. ground arith;
  count-get_task_mm = λ a m log. refl;
  count-mmput = λ a m log. refl;
  mm_users-find_get_pid = λ m a log. refl;
  mm_users-get_task_mm = λ m log. ground arith;
  mm_users-mmput = λ m n log e. ground arith;
}

abbrev quiet : World
quiet = record { log = []; printed = [] }

load_unload-leaks_example :
    effects (load_unload api in_get_task_mm quiet)
    ≡ some (pos 0, some (leftover 4096 8192 in_get_task_mm []))
unfolding count_after users_after
load_unload-leaks_example =
    load_unload-leaks api api-IsKernel shell_pid shell shell root_ns shell_mm 0 0 [] quiet refl refl
      refl refl refl refl refl refl refl in_get_task_mm

-- The ring of the swapper and two more tasks.
abbrev ring : Ring
ring = record { head = swapper; others = shell ∷ shell ∷ [] }

print_pid-leaks_example :
    (w' : World) × ((do ret ← print_pid_init api ring; print_pid_exit; done ret) quiet
      ≡ some (pos 0, w'))
    × HeldMore 2 [] w'.log
unfolding HavePids
print_pid-leaks_example =
    print_pid-leaks api api-IsKernel ring (shell_pid ∷ shell_pid ∷ []) quiet (refl, (refl, tt)) refl

counts-agree_example :
    (last_values (print_pid_init api ring quiet) ≡ nat 2 ∷ [])
    × (last_values (traverse_init (record { head = shell; others = shell ∷ swapper ∷ [] }) quiet)
        ≡ nat 2 ∷ [])
unfolding HavePids
counts-agree_example =
    counts-agree api api-IsKernel swapper shell (shell ∷ shell ∷ []) (swapper ∷ []) (shell ∷ [])
      (shell_pid ∷ shell_pid ∷ []) quiet quiet refl (refl, (refl, tt))
