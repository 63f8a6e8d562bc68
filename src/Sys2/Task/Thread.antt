-- ===== src/Sys2/Task/Thread.antt =====
-- sys2/showtask.c: setting the priority of one thread.
use linux_driver.Base.{ℕ, ℤ, pos, is_neg, true, ◌≡◌, ◌≢◌, ◌⊎◌, Option, none, some, List, arith}
use linux_driver.Kernel.{Log, Resource, account}
use linux_driver.Sys2.Task.{Task, TaskApi, set_thread_priority_in}

-- From a state without a fault, the reference that `find_get_pid` took is given back on every
-- branch, and the command returns 0 with the thread changed or a negative code with it left alone.
pub set_thread_priority_in-balance :
    (api : TaskApi) (param : List ℕ) (pid : ℤ → Option ℕ) (task : ℤ → Option Task) (log : Log)
    {rs : List Resource}
    → account log ≡ some rs
    → let r = set_thread_priority_in api param pid task log in
      (account r.log ≡ some rs)
      × (((r.ret ≡ pos 0) × (r.thread ≢ none)) ⊎ ((is_neg r.ret ≡ true) × (r.thread ≡ none)))
unfolding set_thread_priority_in
set_thread_priority_in-balance api param pid task log h = ground arith
