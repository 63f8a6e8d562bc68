-- ===== src/Sys2/Task.antt =====
-- sys2/showtask.c: the commands that list tasks and threads and change their nice values.
pub mod Thread
pub mod Nice
use linux_driver.Base.{
  ℕ, ◌+◌, ℤ, pos, negsuc, Bool, true, false, not, ◌&&◌, ◌||◌, Option, none, some, List, [], ◌∷◌,
  ◌++◌, eqb_ℤ, ltb_ℤ, is_set, ◌==◌, if◌then◌else◌, length, cstr, codes, einval, esrch,
}
use linux_driver.Kernel.{find_get_pid, put_pid, Log}
use linux_driver.Sys2.Console.{
  Line, process, process_info, task_count, set_nice_of, set_nice_of_user, invalid_nice,
  invalid_nice_value, invalid_uid, no_process_with_uid, invalid_format, thread_header, thread_ruler,
  thread_info, setting_priority, thread_not_found, invalid_priority, priority_set,
}

-- The fields of `struct task_struct` that the commands read. `comm` is a C string's text.
pub record Task : Type 0 where
  pub comm : List ℕ
  pub pid : ℤ
  pub tgid : ℤ
  pub uid : ℕ
  pub prio : ℤ
  pub static_prio : ℤ
  pub normal_prio : ℤ
  pub nice : ℤ
  pub policy : ℤ

-- What the kernel provides: `sscanf` with `%d` fields only, which gives the integers that it
-- converted; `set_user_nice`; the user of a number in the caller's namespace, and its validity.
pub record TaskApi : Type 0 where
  pub scan : (fields : ℕ) → List ℕ → List ℤ
  pub set_user_nice : Task → ℤ → Task
  pub make_kuid : ℤ → ℕ
  pub uid_valid : ℕ → Bool

-- `for_each_process`, with the counter.
unfoldable pub list_tasks : (iTaskCount : ℕ) → List Task → List Line
list_tasks n [] = task_count n ∷ []
list_tasks n (t ∷ ts) = process t.comm t.pid ∷ list_tasks (n + 1) ts

unfoldable pub showtasklist : List Task → List Line
unfolding list_tasks
showtasklist = list_tasks 0

unfoldable pub list_task_info : (iTaskCount : ℕ) → List Task → List Line
list_task_info n [] = task_count n ∷ []
list_task_info n (t ∷ ts) =
    process_info t.comm t.pid t.tgid t.prio t.static_prio t.normal_prio ∷ list_task_info (n + 1) ts

unfoldable pub print_task_info : List Task → List Line
unfolding list_task_info
print_task_info = list_task_info 0

-- `nice_value >= -20 && nice_value <= 19`
abbrev pub nice_ok : ℤ → Bool
nice_ok n = not (ltb_ℤ n (negsuc 19)) && not (ltb_ℤ (pos 19) n)

-- What a command leaves of the tasks, and what it prints.
pub record Renice : Type 0 where
  pub tasks : List Task
  pub lines : List Line

-- The program names of the policies; any other number is UNKNOWN.
unfoldable pub get_policy_str : (policy : ℤ) → List ℕ
get_policy_str policy =
    if eqb_ℤ policy (pos 0)
    then codes "SCHED_NORMAL"
    else if eqb_ℤ policy (pos 1)
    then codes "SCHED_FIFO"
    else if eqb_ℤ policy (pos 2)
    then codes "SCHED_RR"
    else if eqb_ℤ policy (pos 3)
    then codes "SCHED_BATCH"
    else if eqb_ℤ policy (pos 5)
    then codes "SCHED_IDLE"
    else if eqb_ℤ policy (pos 6)
    then codes "SCHED_DEADLINE"
    else codes "UNKNOWN"

-- A process with its threads.
pub record Process : Type 0 where
  pub leader : Task
  pub threads : List Task

unfoldable pub list_threads : (leader : Task) → List Task → List Line
unfolding get_policy_str
list_threads p [] = []
list_threads p (t ∷ ts) =
    thread_info p.pid t.pid t.comm t.prio t.nice (get_policy_str t.policy) ∷ list_threads p ts

unfoldable pub list_processes : List Process → List Line
unfolding list_threads
list_processes [] = []
list_processes (p ∷ ps) = list_threads p.leader p.threads ++ list_processes ps

unfoldable pub showallthread : List Process → List Line
unfolding list_processes
showallthread ps = thread_header ∷ thread_ruler ∷ list_processes ps

-- The return code, the calls that move a reference, the thread as changed, and what is printed.
pub record Priority : Type 0 where
  pub ret : ℤ
  pub log : Log
  pub thread : Option Task
  pub lines : List Line

module _ (api : TaskApi) where
  -- The loop of `setnice`: tasks with pid 0 are passed over.
  unfoldable pub renice_all : ℤ → List Task → Renice
  renice_all n [] = record { tasks = []; lines = [] }
  renice_all n (t ∷ ts) =
      let r = renice_all n ts in
      if eqb_ℤ t.pid (pos 0) then record { tasks = t ∷ r.tasks; lines = r.lines } else record {
        tasks = api.set_user_nice t n ∷ r.tasks;
        lines = set_nice_of t.comm t.pid n ∷ r.lines;
      }

  unfoldable pub set_all_task_nice : (param : List ℕ) → List Task → Renice
  unfolding renice_all
  set_all_task_nice param ts = elim (api.scan 1 (cstr param)) [
    | [] ↦ record { tasks = ts; lines = invalid_nice ∷ [] }
    | n ∷ _ ↦
        if nice_ok n then renice_all n ts else record { tasks = ts; lines = invalid_nice ∷ [] }
  ]

  abbrev pub is_users : ℕ → Task → Bool
  is_users kuid t = not (eqb_ℤ t.pid (pos 0)) && (t.uid == kuid)

  -- The loop of `setniceuser`, with its flag.
  unfoldable pub renice_user : (kuid : ℕ) (uid nice : ℤ) (flag : Bool) → List Task → Renice × Bool
  renice_user kuid uid n flag [] = (record { tasks = []; lines = [] }, flag)
  renice_user kuid uid n flag (t ∷ ts) =
      let r = renice_user kuid uid n (flag || is_users kuid t) ts in
      if is_users kuid t
      then (
        record {
          tasks = api.set_user_nice t n ∷ r.0.tasks;
          lines = set_nice_of_user t.comm t.pid uid n ∷ r.0.lines;
        },
        r.1,
      )
      else (record { tasks = t ∷ r.0.tasks; lines = r.0.lines }, r.1)

  unfoldable pub renice_user_checked : (uid nice : ℤ) → List Task → Renice
  unfolding renice_user
  renice_user_checked uid n ts =
      let kuid = api.make_kuid uid in
      let r = renice_user kuid uid n false ts in
      if not (api.uid_valid kuid)
      then record { tasks = ts; lines = invalid_uid uid ∷ [] }
      else if not (nice_ok n)
      then record { tasks = ts; lines = invalid_nice_value n ∷ [] }
      else if not r.1
      then record { tasks = r.0.tasks; lines = r.0.lines ++ (no_process_with_uid uid ∷ []) }
      else r.0

  unfoldable pub set_user_nice_by_uid : (param : List ℕ) → List Task → Renice
  unfolding renice_user_checked
  set_user_nice_by_uid param ts = elim (api.scan 2 (cstr param)) [
    | uid ∷ n ∷ _ ↦ renice_user_checked uid n ts
    | _ ↦ record { tasks = ts; lines = invalid_format ∷ [] }
  ]

  -- After the thread has been found the reference is put back, and then the value is checked.
  unfoldable pub set_priority_of : (tid priority : ℤ) → Task → Log → List Line → Priority
  set_priority_of tid n thread log lines =
      if nice_ok n
      then record {
        ret = pos 0;
        log = log;
        thread = some (api.set_user_nice thread n);
        lines = priority_set tid n ∷ lines;
      }
      else record { ret = einval; log = log; thread = none; lines = invalid_priority n ∷ lines }

  -- `pid` and `task` are the answers of `find_get_pid` and `pid_task`.
  unfoldable pub find_thread :
      (tid priority : ℤ) (pid : Option ℕ) (task : Option Task) → Log → List Line → Priority
  unfolding set_priority_of
  find_thread tid n pid task log lines =
      let log1 = find_get_pid pid ∷ log in
      let missing = thread_not_found tid ∷ lines in
      elim pid [
        | none ↦ record { ret = esrch; log = log1; thread = none; lines = missing }
        | some p ↦ elim task [
          | none ↦ record { ret = esrch; log = put_pid p ∷ log1; thread = none; lines = missing }
          | some t ↦ set_priority_of tid n t (put_pid p ∷ log1) lines
        ]
      ]

  -- The lines stand latest first. The parameter is never NULL here.
  unfoldable pub set_thread_priority_in :
      (param : List ℕ) (pid : ℤ → Option ℕ) (task : ℤ → Option Task) → Log → Priority
  unfolding find_thread
  set_thread_priority_in param pid task log =
      let lines = setting_priority (cstr param) ∷ [] in
      let bad = invalid_format ∷ [] in
      if length (cstr param) == 0
      then record { ret = einval; log = log; thread = none; lines = bad }
      else elim (api.scan 2 (cstr param)) [
        | tid ∷ n ∷ _ ↦ find_thread tid n (pid tid) (task tid) log lines
        | _ ↦ record { ret = einval; log = log; thread = none; lines = invalid_format ∷ lines }
      ]
