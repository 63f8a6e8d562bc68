-- ===== src/Sys2/Session/Handlers.antt =====
-- sys2/: what every handler keeps, and where it faults.
use linux_driver.Base.{
  ℕ, ℤ, ◌+◌, ◌≤◌, ◌≡◌, refl, sym, ◌⊎◌, inl, inr, false, Option, none, some, List, [], ◌∷◌, ◌++◌,
  length, cstr,
}
use mathlib.Core.List.{map}
use mathlib.Core.Path.{subst}
use linux_driver.Kernel.{Log, Resource, held_kind, account, memory, rcu_reader}
use linux_driver.Sys2.Task
use linux_driver.Sys2.Task.Thread.{set_thread_priority_in-balance}
use linux_driver.Sys2.Parse.{parse_command}
use linux_driver.Sys2.Parse.Words.{parse_command-words}
use linux_driver.Sys2.Interface
use linux_driver.Sys2.Interface.{setmtu_in, showinterface_in, clearinterface_in}
use linux_driver.Sys2.Interface.Reference.{InRange, Balanced, interface-Balanced, scanned_word}
use linux_driver.Sys2.Descriptor.ReadSide.{setsocketsize_in-account}
use linux_driver.Sys2.Descriptor.Listing.{showprocessfd_in-body}
use linux_driver.Sys2.Command.{
  Handler, showtasklist, print_task_info, parse, set_user_nice_by_uid, set_all_task_nice,
  showkernelsymbol, showallthread, set_thread_priority, showinterface, setmtu, clearinterface,
  showprocessfd, setsocketsize, World, Api, Effect, on_net?, parsed, run_handler, task_of,
  with_thread, latest_process,
}
use linux_driver.Sys2.Session.Values.{
  MtuInRange, with_thread-AreNice, latest_process-AreNiceThreads, set_thread_priority_in-IsNice,
  set_all_task_nice-AreNice, set_user_nice_by_uid-AreNice, showinterface_in-mtu,
  clearinterface_in-mtu, setmtu_in-mtu,
}
use linux_driver.Sys2.Session.{AreNice, AreNiceThreads, SetsNice}

-- What the module may keep for ever: the copies of `parse`, and read-side sections of
-- `setsocketsize`.
abbrev pub IsKept : Resource → Type 0
IsKept r = ((a : ℕ) × (r ≡ held_kind memory a)) ⊎ (r ≡ held_kind rcu_reader 0)

abbrev pub AreKept : List Resource → Type 0
AreKept [] = Unit
AreKept (r ∷ rs) = IsKept r × AreKept rs

-- What is held: what was held at first, and such things.
abbrev pub HoldsMore : (first : List Resource) → Log → Type 0
HoldsMore first log = (kept : List Resource) × AreKept kept × (account log ≡ some (kept ++ first))

pub record IsWorld (first : List Resource) (w : World) : Type 0 where
  pub nice : AreNice w.tasks
  pub nice_threads : AreNiceThreads w.processes
  pub mtu : (b : ℕ) → InRange (w.devs b).mtu
  pub held : HoldsMore first w.log

-- Where a handler faults: a word that does not fit in the buffer of `setmtu`, or figures that do not
-- fit in the field that `clearinterface` clears.
abbrev pub Faults : Api → Handler → (param : List ℕ) → Type 0
Faults api setmtu param = 16 ≤ length (scanned_word (api.net.scan (cstr param)))
Faults api clearinterface param = api.net.stats_fit ≡ false
Faults api _ param = ⊥

abbrev pub Ran : (fault : Type 0) (first : List Resource) → Effect → Type 0
Ran fault first none = fault
Ran fault first (some (w, lines)) = IsWorld first w

with_thread-devs : (w : World) (o : Option Task.Task) → (with_thread w o).devs ≡ w.devs
with_thread-devs w none = refl
with_thread-devs w (some t) = refl

module _ (first : List Resource) (w : World) (good : IsWorld first w) where
  abbrev kept : List Resource
  kept = good.held.0

  -- A handler that leaves the devices and what is held.
  keeps :
      (w' : World)
      → AreNice w'.tasks
      → AreNiceThreads w'.processes
      → w'.devs ≡ w.devs
      → account w'.log ≡ some (kept ++ first)
      → IsWorld first w'
  keeps w' n p d e = record {
    nice = n;
    nice_threads = p;
    mtu = λ b. subst (λ ds. InRange (ds b).mtu) (sym d) (good.mtu b);
    held = (kept, good.held.1, e);
  }

  on_net?-Ran :
      (fault : Type 0) (o : Option Interface.Outcome)
      → Balanced fault (kept ++ first) o
      → MtuInRange o
      → Ran fault first (on_net? w o)
  on_net?-Ran fault none f m = f
  on_net?-Ran fault (some o) e m = record {
    nice = good.nice;
    nice_threads = good.nice_threads;
    mtu = m;
    held = (kept, good.held.1, e);
  }

  -- A handler that keeps one thing more.
  keeps_more :
      (w' : World) (r : Resource)
      → AreNice w'.tasks
      → AreNiceThreads w'.processes
      → w'.devs ≡ w.devs
      → IsKept r
      → account w'.log ≡ some (r ∷ (kept ++ first))
      → IsWorld first w'
  keeps_more w' r n p d k e = record {
    nice = n;
    nice_threads = p;
    mtu = λ b. subst (λ ds. InRange (ds b).mtu) (sym d) (good.mtu b);
    held = (r ∷ kept, (k, good.held.1), e);
  }

  parse-Ran :
      (api : Api) (param : List ℕ) (copy : Option ℕ)
      → Ran ⊥ first (parsed w (parse_command (length (cstr param) + 2) param copy w.log))
  unfolding parse_command
  parse-Ran api param none = keeps _ good.nice good.nice_threads refl good.held.2
  parse-Ran api param (some a) =
      let (runs, _, e) = parse_command-words param a w.log good.held.2 in
      subst (λ o. Ran ⊥ first (parsed w o)) (sym runs)
        (keeps_more _ (held_kind memory a) good.nice good.nice_threads refl (inl (a, refl)) e)

  setsocketsize-Ran :
      (api : Api) (param : List ℕ) → Ran ⊥ first (run_handler api setsocketsize param w)
  unfolding run_handler
  setsocketsize-Ran api param =
      elim (setsocketsize_in-account (api.tasks.scan 4 (cstr param)) w.socks w.open_files w.log
        good.held.2) [
          | inl (_, e) ↦
              keeps_more _ (held_kind rcu_reader 0) good.nice good.nice_threads refl (inr refl) e
          | inr (_, e) ↦ keeps _ good.nice good.nice_threads refl e
        ]

module _ (api : Api) (law : SetsNice api) (first : List Resource) (w : World)
    (good : IsWorld first w) (param : List ℕ) where
  reniced :
      (r : Task.Renice)
      → AreNice r.tasks
      → IsWorld first
          (record w { tasks = r.tasks; processes = map (latest_process r.tasks) w.processes })
  reniced r n =
      keeps first w good _ n (latest_process-AreNiceThreads r.tasks w.processes n good.nice_threads)
        refl good.held.2

  -- Every handler keeps what holds of the world; two of them fault, for the reasons given.
  pub run_handler-Ran : (h : Handler) → Ran (Faults api h param) first (run_handler api h param w)
  unfolding run_handler
  run_handler-Ran showtasklist = good
  run_handler-Ran print_task_info = good
  run_handler-Ran parse = parse-Ran first w good api param api.kstrdup
  run_handler-Ran set_user_nice_by_uid =
      reniced (Task.set_user_nice_by_uid api.tasks param w.tasks)
        (set_user_nice_by_uid-AreNice api law param w.tasks good.nice)
  run_handler-Ran set_all_task_nice =
      reniced (Task.set_all_task_nice api.tasks param w.tasks)
        (set_all_task_nice-AreNice api law param w.tasks good.nice)
  run_handler-Ran showkernelsymbol = good
  run_handler-Ran showallthread = good
  run_handler-Ran set_thread_priority =
      let task : ℤ → Option Task.Task = λ tid. task_of tid w.tasks w.processes in
      let p = Task.set_thread_priority_in api.tasks param api.pid_of task w.log in
      let (n, t) =
        with_thread-AreNice w p.thread
          (set_thread_priority_in-IsNice api law param api.pid_of task w.log) good.nice
          good.nice_threads in
      keeps first w good (record (with_thread w p.thread) { log = p.log }) n t
        (with_thread-devs w p.thread)
        (set_thread_priority_in-balance api.tasks param api.pid_of task w.log good.held.2).0
  run_handler-Ran showinterface = record {
    nice = good.nice;
    nice_threads = good.nice_threads;
    mtu = λ b.
        subst (λ d. InRange d.mtu) (sym (showinterface_in-mtu api.net param w.devs w.log b))
          (good.mtu b);
    held =
        (good.held.0, good.held.1, (interface-Balanced api.net param w.devs w.log good.held.2).0);
  }
  run_handler-Ran setmtu =
      on_net?-Ran first w good _ (setmtu_in api.net param w.devs w.log)
        (interface-Balanced api.net param w.devs w.log good.held.2).1
        (setmtu_in-mtu api.net param w.devs w.log good.mtu)
  run_handler-Ran clearinterface =
      on_net?-Ran first w good _ (clearinterface_in api.net param w.devs w.log)
        (interface-Balanced api.net param w.devs w.log good.held.2).2
        (clearinterface_in-mtu api.net param w.devs w.log good.mtu)
  run_handler-Ran showprocessfd =
      keeps first w good _ good.nice good.nice_threads refl
        (showprocessfd_in-body w.socks w.open_files w.log good.held.2).2
  run_handler-Ran setsocketsize = setsocketsize-Ran first w good api param
