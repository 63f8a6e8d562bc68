-- ===== src/Process/Leaks.antt =====
-- The references that the modules about pids and memory descriptors still hold when they have been
-- loaded and unloaded again.
use linux_driver.Base.{ℕ, suc, ℤ, pos, Option, none, some, List, ◌∷◌, ◌≡◌, ap, ==_refl, ◌∙◌}
use linux_driver.Kernel.{
  Exec, World, ◌>>=◌, steps, ◌>>◌, printk, done, account, Resource, Held, held_kind, pid_ref,
  mm_ref, find_get_pid, get_pid, put_pid, get_task_mm, mmput,
}
use linux_driver.Process.{
  Api, IsKernel, get_pid_of, exit_ok, PidStruct, PidNamespace, MmStruct, Task,
}
use linux_driver.Process.Runs.{counts, levels, nrs, nss, mms, users}
use linux_driver.Process.Pid.{
  get_pid_init, put_pid_init, find_get_pid_init, find_vpid_init, pid_task_init, pid_nr_init,
  pid_vnr_init, get_pid_exit, put_pid_exit, find_get_pid_exit, find_vpid_exit, pid_task_exit,
  pid_nr_exit, pid_vnr_exit,
}
use linux_driver.Process.Namespace.{
  ns_of_pid_init, find_pid_ns_init, task_pid_nr_ns_init, task_active_pid_ns_init,
  task_tgid_nr_ns_init, ns_of_pid_exit, find_pid_ns_exit, task_pid_nr_ns_exit,
  task_active_pid_ns_exit, task_tgid_nr_ns_exit,
}
use linux_driver.Process.Memory.{
  print_mm, mm_of_task, get_task_mm_init, mmput_init, get_task_mm_exit, mmput_exit,
}

-- The modules, by the directory each stands in.
pub data Demo : Type 0 where
  in_get_pid in_put_pid in_find_get_pid in_find_vpid in_pid_task in_pid_nr in_pid_vnr : Demo
  in_ns_of_pid in_find_pid_ns in_task_pid_nr_ns in_task_active_pid_ns in_task_tgid_nr_ns : Demo
  in_get_task_mm in_mmput : Demo

-- Loads a module and unloads it; the result is the load function's.
unfoldable pub load_unload : (api : Api) → Demo → Exec ℤ
load_unload api in_get_pid = do ret ← get_pid_init api; get_pid_exit; done ret
load_unload api in_put_pid = do ret ← put_pid_init api; put_pid_exit; done ret
load_unload api in_find_get_pid = do ret ← find_get_pid_init api; find_get_pid_exit; done ret
load_unload api in_find_vpid = do ret ← find_vpid_init api; find_vpid_exit; done ret
load_unload api in_pid_task = do ret ← pid_task_init api; pid_task_exit; done ret
load_unload api in_pid_nr = do ret ← pid_nr_init api; pid_nr_exit; done ret
load_unload api in_pid_vnr = do ret ← pid_vnr_init api; pid_vnr_exit; done ret
load_unload api in_ns_of_pid = do ret ← ns_of_pid_init api; ns_of_pid_exit; done ret
load_unload api in_find_pid_ns = do ret ← find_pid_ns_init api; find_pid_ns_exit; done ret
load_unload api in_task_pid_nr_ns = do ret ← task_pid_nr_ns_init api; task_pid_nr_ns_exit; done ret
load_unload api in_task_active_pid_ns = do
  ret ← task_active_pid_ns_init api
  task_active_pid_ns_exit
  done ret
load_unload api in_task_tgid_nr_ns = do
  ret ← task_tgid_nr_ns_init api
  task_tgid_nr_ns_exit
  done ret
load_unload api in_get_task_mm = do ret ← get_task_mm_init api; get_task_mm_exit; done ret
load_unload api in_mmput = do ret ← mmput_init api; mmput_exit; done ret

-- The references that a module leaves, on top of what was held.
pub leftover : (pid mm : ℕ) → Demo → List Resource → List Resource
leftover a m in_get_pid rs = held_kind pid_ref a ∷ held_kind pid_ref a ∷ held_kind pid_ref a ∷ rs
leftover a m in_put_pid rs = rs
leftover a m in_find_vpid rs = rs
leftover a m in_get_task_mm rs = held_kind mm_ref m ∷ held_kind pid_ref a ∷ rs
leftover a m _ rs = held_kind pid_ref a ∷ rs

-- A run's result, and what is held after it.
abbrev pub effects : Option (ℤ × World) → Option (ℤ × Held)
effects none = none
effects (some (r, w)) = some (r, account w.log)

module _ (api : Api) (law : IsKernel api) (p : PidStruct) (t owner : Task) (ns : PidNamespace)
    (mm : MmStruct) (n k : ℕ) (rs : List Resource) (w : World)
    (found : api.find_vpid api.current.pid ≡ some p) (task : api.pid_task (some p) ≡ some t)
    (pid_ns : api.ns_of_pid (some p) ≡ some ns) (active : api.task_active_pid_ns t ≡ some ns)
    (memory : api.mm_of t ≡ some mm) (owned : mm.owner ≡ some owner)
    (counted : api.count p.address w.log ≡ suc n) (used : api.mm_users mm.address w.log ≡ suc k)
    (held : account w.log ≡ some rs) where
  got : api.count p.address (find_get_pid (some p.address) ∷ w.log) ≡ suc (suc n)
  got = law.count-find_get_pid p.address w.log ∙ ap suc counted

  got_twice :
      api.count p.address (get_pid p.address ∷ find_get_pid (some p.address) ∷ w.log)
      ≡ suc (suc (suc n))
  got_twice = law.count-get_pid p.address (find_get_pid (some p.address) ∷ w.log) ∙ ap suc got

  got_thrice :
      api.count p.address
        (get_pid p.address ∷ get_pid p.address ∷ find_get_pid (some p.address) ∷ w.log)
      ≡ suc (suc (suc (suc n)))
  got_thrice =
      law.count-get_pid p.address (get_pid p.address ∷ find_get_pid (some p.address) ∷ w.log)
      ∙ ap suc got_twice

  put : api.count p.address (put_pid p.address ∷ find_get_pid (some p.address) ∷ w.log) ≡ suc n
  put = law.count-put_pid p.address (suc n) (find_get_pid (some p.address) ∷ w.log) got

  used_twice :
      api.mm_users mm.address
        (get_task_mm (some mm.address) ∷ find_get_pid (some p.address) ∷ w.log)
      ≡ suc (suc k)
  used_twice =
      law.mm_users-get_task_mm mm.address (find_get_pid (some p.address) ∷ w.log)
      ∙ ap suc (law.mm_users-find_get_pid mm.address (some p.address) w.log ∙ used)

  used_once :
      api.mm_users mm.address
        (mmput mm.address ∷ get_task_mm (some mm.address) ∷ find_get_pid (some p.address) ∷ w.log)
      ≡ suc k
  used_once = law.mm_users-mmput mm.address (suc k) _ used_twice

  -- The counts follow the kernel's rules, the pid of the current task is found and not freed, its task
  -- has a memory descriptor with users and an owner, the namespaces asked for exist, and what is
  -- held has no fault. Then each of the fourteen modules loads with 0,
  -- and when it is unloaded again it leaves exactly the references in `leftover`: `put_pid` and
  -- `find_vpid` none, `get_pid` three to the pid, `get_task_mm` one to the pid and one to the memory,
  -- the others one to the pid.
  pub load_unload-leaks :
      (d : Demo)
      → effects (load_unload api d w) ≡ some (pos 0, some (leftover p.address mm.address d rs))
  unfolding ◌>>=◌ printk leftover load_unload get_pid_of exit_ok get_pid_init put_pid_init
      find_get_pid_init find_vpid_init pid_task_init pid_nr_init pid_vnr_init ns_of_pid_init
      find_pid_ns_init task_pid_nr_ns_init task_active_pid_ns_init task_tgid_nr_ns_init
      get_task_mm_init mmput_init print_mm mm_of_task
  load_unload-leaks in_get_pid = simp (
    found,
    steps,
    held,
    counts api p got,
    levels api p got,
    counts api p got_twice,
    levels api p got_twice,
    counts api p got_thrice,
    levels api p got_thrice,
  )
  load_unload-leaks in_put_pid = simp (
    found,
    steps,
    held,
    counts api p got,
    levels api p got,
    nrs api p got,
    counts api p put,
    levels api p put,
    nrs api p put,
    ==_refl p.address,
  )
  load_unload-leaks in_find_vpid =
      simp (found, held, steps, counts api p counted, levels api p counted, nrs api p counted)
  load_unload-leaks in_get_task_mm =
      simp (found, task, memory, owned, steps, held, mms api mm used_twice, users api mm used_twice)
  load_unload-leaks in_mmput = simp (
    found,
    task,
    memory,
    owned,
    steps,
    held,
    mms api mm used_twice,
    users api mm used_twice,
    mms api mm used_once,
    users api mm used_once,
    ==_refl mm.address,
  )
  load_unload-leaks d = simp (
    found,
    task,
    pid_ns,
    active,
    steps,
    held,
    counts api p got,
    levels api p got,
    nrs api p got,
    nss api p got,
  )
