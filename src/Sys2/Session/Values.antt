-- ===== src/Sys2/Session/Values.antt =====
-- sys2/: the nice values and the MTUs that the handlers leave.
use linux_driver.Base.{
  ℕ, ℤ, ◌≡◌, sym, Bool, Bool-cases, List-cases, inl, inr, length, ◌==◌, true, false, eqb_ℤ,
  if◌then◌else◌, Option, none, some, List, [], ◌∷◌, map, cstr, arith,
}
use mathlib.Core.Path.{subst}
use linux_driver.Kernel.{Log}
use linux_driver.Sys2.Console.{Line}
use linux_driver.Sys2.Task
use linux_driver.Sys2.Task.{nice_ok, set_thread_priority_in}
use linux_driver.Sys2.Task.Nice.{
  requested, reniced, has_pid, requested_user, reniced_user, set_all_task_nice-map,
  set_user_nice_by_uid-map,
}
use linux_driver.Sys2.Interface
use linux_driver.Sys2.Interface.{setmtu_in, showinterface_in, clearinterface_in}
use linux_driver.Sys2.Interface.Reference.{InRange, SetsMtu, setmtu_in-SetsMtu}
use linux_driver.Sys2.Command.{Api, World, with_pid, task_of, latest, latest_process, with_thread}
use linux_driver.Sys2.Session.{IsNice, AreNice, AreNiceThreads, SetsNice}

abbrev pub IsNiceTask : Option Task.Task → Type 0
IsNiceTask none = Unit
IsNiceTask (some t) = IsNice t.nice

map-AreNice :
    (g : Task.Task → Task.Task) (ts : List Task.Task)
    → ((t : Task.Task) → IsNice t.nice → IsNice (g t).nice)
    → AreNice ts
    → AreNice (map g ts)
map-AreNice g [] h k = tt
map-AreNice g (t ∷ ts) h (a, k) = (h t a, map-AreNice g ts h k)

module _ (api : Api) (law : SetsNice api) where
  reniced-IsNice :
      (c : Task.Task → Bool) (n : ℤ) (t : Task.Task)
      → IsNice n
      → IsNice t.nice
      → IsNice (reniced api.tasks c (some n) t).nice
  reniced-IsNice c n t k a = ground (arith, law t n)

  pub set_all_task_nice-AreNice :
      (param : List ℕ) (ts : List Task.Task)
      → AreNice ts
      → AreNice (Task.set_all_task_nice api.tasks param ts).tasks
  set_all_task_nice-AreNice param ts h =
      subst AreNice (sym (set_all_task_nice-map api.tasks param ts))
        (map-AreNice _ ts (λ t a. go (api.tasks.scan 1 (cstr param)) t a) h)
    where
      go :
          (zs : List ℤ) (t : Task.Task)
          → IsNice t.nice
          → IsNice (reniced api.tasks (has_pid api.tasks) (requested api.tasks zs) t).nice
      go [] t a = a
      go (n ∷ zs) t a = ground (arith, law t n)

  pub set_user_nice_by_uid-AreNice :
      (param : List ℕ) (ts : List Task.Task)
      → AreNice ts
      → AreNice (Task.set_user_nice_by_uid api.tasks param ts).tasks
  set_user_nice_by_uid-AreNice param ts h =
      subst AreNice (sym (set_user_nice_by_uid-map api.tasks param ts))
        (map-AreNice _ ts (λ t a. go (api.tasks.scan 2 (cstr param)) t a) h)
    where
      go :
          (zs : List ℤ) (t : Task.Task)
          → IsNice t.nice
          → IsNice (reniced_user api.tasks (requested_user api.tasks zs) t).nice
      go [] t a = a
      go (u ∷ []) t a = a
      go (u ∷ n ∷ zs) t a = ground (arith, law t n)

with_pid-IsNice : (n : ℤ) (ts : List Task.Task) → AreNice ts → IsNiceTask (with_pid n ts)
with_pid-IsNice n [] h = tt
with_pid-IsNice n (t ∷ ts) (a, h) =
    elim (eqb_ℤ t.pid n) as (λ b. IsNiceTask (if b then some t else with_pid n ts)) [
      | true ↦ a
      | false ↦ with_pid-IsNice n ts h
    ]

or_else-IsNice :
    (o o' : Option Task.Task)
    → IsNiceTask o
    → IsNiceTask o'
    → IsNiceTask (elim o [ none ↦ o' | some t ↦ some t ])
or_else-IsNice none o' h k = k
or_else-IsNice (some t) o' h k = h

pub task_of-IsNice :
    (n : ℤ) (ts : List Task.Task) (ps : List Task.Process)
    → AreNice ts
    → AreNiceThreads ps
    → IsNiceTask (task_of n ts ps)
task_of-IsNice n ts [] h k = with_pid-IsNice n ts h
task_of-IsNice n ts (p ∷ ps) h (l, a, k) =
    or_else-IsNice (with_pid n p.threads) (task_of n ts ps) (with_pid-IsNice n p.threads a)
      (task_of-IsNice n ts ps h k)

latest-IsNice :
    (ts : List Task.Task) (t : Task.Task) → AreNice ts → IsNice t.nice → IsNice (latest ts t).nice
latest-IsNice ts t h a = or_task (with_pid t.pid ts) (with_pid-IsNice t.pid ts h)
  where
    or_task :
        (o : Option Task.Task)
        → IsNiceTask o
        → (let u : Task.Task = elim o [ none ↦ t | some t' ↦ t' ] in IsNice u.nice)
    or_task none k = a
    or_task (some t') k = k

pub latest_process-AreNiceThreads :
    (ts : List Task.Task) (ps : List Task.Process)
    → AreNice ts
    → AreNiceThreads ps
    → AreNiceThreads (map (latest_process ts) ps)
latest_process-AreNiceThreads ts [] h k = tt
latest_process-AreNiceThreads ts (p ∷ ps) h (l, a, k) = (
  latest-IsNice ts p.leader h l,
  map-AreNice (latest ts) p.threads (λ t b. latest-IsNice ts t h b) a,
  latest_process-AreNiceThreads ts ps h k,
)

-- A command on one thread changes it to a valid value, if at all.
module _ (api : Api) (law : SetsNice api) where
  set_priority_of-IsNice :
      (tid n : ℤ) (t : Task.Task) (log : Log) (lines : List Line)
      → IsNiceTask (Task.set_priority_of api.tasks tid n t log lines).thread
  unfolding Task.set_priority_of
  set_priority_of-IsNice tid n t log lines = elim (Bool-cases (nice_ok n)) [
    | inl e ↦ rw (e, Task.set_priority_of) (ground (arith, law t n))
    | inr e ↦ rw (e, Task.set_priority_of) tt
  ]

  find_thread-IsNice :
      (tid n : ℤ) (pid : Option ℕ) (task : Option Task.Task) (log : Log) (lines : List Line)
      → IsNiceTask (Task.find_thread api.tasks tid n pid task log lines).thread
  unfolding Task.find_thread
  find_thread-IsNice tid n none task log lines = tt
  find_thread-IsNice tid n (some p) none log lines = tt
  find_thread-IsNice tid n (some p) (some t) log lines = set_priority_of-IsNice tid n t _ lines

  pub set_thread_priority_in-IsNice :
      (param : List ℕ) (pid : ℤ → Option ℕ) (task : ℤ → Option Task.Task) (log : Log)
      → IsNiceTask (set_thread_priority_in api.tasks param pid task log).thread
  unfolding set_thread_priority_in
  set_thread_priority_in-IsNice param pid task log = elim (Bool-cases (length (cstr param) == 0)) [
    | inl e ↦ rw (e, set_thread_priority_in) tt
    | inr e ↦ elim (List-cases (api.tasks.scan 2 (cstr param))) [
      | inl f ↦ rw (e, f, set_thread_priority_in) tt
      | inr (tid, rest, f) ↦ elim (List-cases rest) [
        | inl g ↦ rw (e, f, g, set_thread_priority_in) tt
        | inr (n, more, g) ↦
            rw (e, f, g, set_thread_priority_in)
              (find_thread-IsNice tid n (pid tid) (task tid) log _)
      ]
    ]
  ]

-- What a thread that was changed makes of all tasks.
pub with_thread-AreNice :
    (w : World) (o : Option Task.Task)
    → IsNiceTask o
    → AreNice w.tasks
    → AreNiceThreads w.processes
    → AreNice (with_thread w o).tasks × AreNiceThreads (with_thread w o).processes
with_thread-AreNice w none h a k = (a, k)
with_thread-AreNice w (some t) h a k = (
  map-AreNice (latest (t ∷ [])) w.tasks (λ u b. latest-IsNice (t ∷ []) u (h, tt) b) a,
  latest_process-AreNiceThreads (t ∷ []) w.processes (h, tt) k,
)

-- What a command on interfaces leaves of the MTUs.
abbrev pub MtuInRange : Option Interface.Outcome → Type 0
MtuInRange none = Unit
MtuInRange (some o) = (b : ℕ) → InRange (o.devs b).mtu

abbrev MtuAt : ℕ → Option Interface.Outcome → Type 0
MtuAt b none = Unit
MtuAt b (some o) = InRange (o.devs b).mtu

pub showinterface_in-mtu :
    (net : Interface.NetApi) (param : List ℕ) (devs : Interface.Devices) (log : Log) (b : ℕ)
    → (showinterface_in net param devs log).devs b ≡ devs b
unfolding showinterface_in
showinterface_in-mtu net param devs log b = ground arith

all_mtu : (o : Option Interface.Outcome) → ((b : ℕ) → MtuAt b o) → MtuInRange o
all_mtu none k = tt
all_mtu (some o) k = k

clearinterface_in-MtuAt :
    (net : Interface.NetApi) (param : List ℕ) (devs : Interface.Devices) (log : Log) (b : ℕ)
    → InRange (devs b).mtu
    → MtuAt b (clearinterface_in net param devs log)
unfolding clearinterface_in
clearinterface_in-MtuAt net param devs log b h = ground arith

SetsMtu-MtuAt :
    (old : Interface.NetDevice) (b : ℕ) (input : Interface.Scanned) (o : Option Interface.Outcome)
    → SetsMtu old b input o
    → MtuAt b o
SetsMtu-MtuAt old b input none h = tt
SetsMtu-MtuAt old b input (some o) h = h.0

pub clearinterface_in-mtu :
    (net : Interface.NetApi) (param : List ℕ) (devs : Interface.Devices) (log : Log)
    → ((b : ℕ) → InRange (devs b).mtu)
    → MtuInRange (clearinterface_in net param devs log)
unfolding clearinterface_in
clearinterface_in-mtu net param devs log h =
    all_mtu (clearinterface_in net param devs log)
      (λ b. clearinterface_in-MtuAt net param devs log b (h b))

pub setmtu_in-mtu :
    (net : Interface.NetApi) (param : List ℕ) (devs : Interface.Devices) (log : Log)
    → ((b : ℕ) → InRange (devs b).mtu)
    → MtuInRange (setmtu_in net param devs log)
setmtu_in-mtu net param devs log h = all_mtu (setmtu_in net param devs log) (λ b.
    SetsMtu-MtuAt (devs b) b (net.scan (cstr param)) _
      (setmtu_in-SetsMtu net param devs log b (h b)))
