-- ===== src/Sys2/Command.antt =====
-- sys2/sys2.c, lines 56 to 131: the table of commands, and the write that stores and runs one.
pub mod Dispatch
use linux_driver.Base.{
  ℕ, suc, ◌+◌, ◌-◌, ℤ, Bool, true, false, not, ◌&&◌, ltb, eqb_ℤ, Option, none, some, List, [], ◌∷◌,
  ◌++◌, if◌then◌else◌, length, drop, cstr, codes, strncmp_eq,
}
use mathlib.Core.List.{reverse, map}
use linux_driver.Kernel.{Log, snprintf_s}
use linux_driver.Sys2.Console.{Line, received, unknown_command}
use linux_driver.Sys2.Parse.{parse_command, showkernelsymbol as show_kernel_symbol}
use linux_driver.Sys2.Task
use linux_driver.Sys2.Interface
use linux_driver.Sys2.Descriptor

-- The functions in the table; `OPEN_SHOWROUTE` is off, the two other switches are on.
pub data Handler : Type 0 where
  showtasklist print_task_info parse set_user_nice_by_uid set_all_task_nice : Handler
  showkernelsymbol showallthread set_thread_priority showinterface setmtu : Handler
  clearinterface showprocessfd setsocketsize : Handler

-- A row's `cmd`.
unfoldable pub command_name : Handler → List ℕ
command_name showtasklist = codes "showtask"
command_name print_task_info = codes "showalltask"
command_name parse = codes "parse"
command_name set_user_nice_by_uid = codes "setniceuser"
command_name set_all_task_nice = codes "setnice"
command_name showkernelsymbol = codes "showkernelsymbol"
command_name showallthread = codes "showallthread"
command_name set_thread_priority = codes "setthreadpriority"
command_name showinterface = codes "showinterface"
command_name setmtu = codes "setmtu"
command_name clearinterface = codes "clearinterface"
command_name showprocessfd = codes "showprocessfd"
command_name setsocketsize = codes "setsocketsize"

-- The rows in their order.
unfoldable pub command_handlers : List Handler
command_handlers =
    showtasklist ∷ print_task_info ∷ parse ∷ set_user_nice_by_uid ∷ set_all_task_nice
    ∷ showkernelsymbol ∷ showallthread ∷ set_thread_priority ∷ showinterface ∷ setmtu
    ∷ clearinterface ∷ showprocessfd ∷ setsocketsize ∷ []

-- The loop over the table: the first row whose name the data begins with, and the parameter, which
-- points one byte behind the name.
unfoldable pub find_handler : List Handler → (my_data : List ℕ) → Option (Handler × List ℕ)
unfolding command_name strncmp_eq
find_handler [] my_data = none
find_handler (h ∷ hs) my_data =
    let rest = find_handler hs my_data in
    let name = command_name h in
    if strncmp_eq my_data name (length name) then some (h, drop (length name + 1) my_data) else rest

-- What the handlers work on: the tasks of `for_each_process`, and the processes with all their
-- threads. The tasks are the leaders of the processes; a pid names the same task in both lists.
pub record World : Type 0 where
  pub tasks : List Task.Task
  pub processes : List Task.Process
  pub devs : Interface.Devices
  pub open_files : List Descriptor.Task
  pub socks : Descriptor.Socks
  pub log : Log

-- The kernel behind the handlers.
pub record Api : Type 0 where
  pub tasks : Task.TaskApi
  pub net : Interface.NetApi
  pub pid_of : ℤ → Option ℕ
  pub kstrdup : Option ℕ

-- A handler's effect, with its lines in the order of printing: `none` is a fault, or fuel that ran
-- out. Where a handler's own lines stand latest first, they are reversed.
abbrev pub Effect : Type 0
Effect = Option (World × List Line)

-- The task of a pid among some tasks, and among all threads.
abbrev pub with_pid : ℤ → List Task.Task → Option Task.Task
with_pid n [] = none
with_pid n (t ∷ ts) = if eqb_ℤ t.pid n then some t else with_pid n ts

-- `pid_task`
abbrev pub task_of : ℤ → List Task.Task → List Task.Process → Option Task.Task
task_of n ts [] = with_pid n ts
task_of n ts (p ∷ ps) = elim (with_pid n p.threads) [ none ↦ task_of n ts ps | some t ↦ some t ]

-- A task as it is among the changed ones, if it is there.
abbrev pub latest : (changed : List Task.Task) → Task.Task → Task.Task
latest ts t = elim (with_pid t.pid ts) [ none ↦ t | some t' ↦ t' ]

abbrev pub latest_process : (changed : List Task.Task) → Task.Process → Task.Process
latest_process ts p = record { leader = latest ts p.leader; threads = map (latest ts) p.threads }

abbrev pub reniced : World → Task.Renice → Effect
reniced w r =
    some
      (record w { tasks = r.tasks; processes = map (latest_process r.tasks) w.processes }, r.lines)

-- The thread that was changed, in both lists.
abbrev pub with_thread : World → Option Task.Task → World
with_thread w none = w
with_thread w (some t) = record w {
  tasks = map (latest (t ∷ [])) w.tasks;
  processes = map (latest_process (t ∷ [])) w.processes;
}

abbrev pub prioritised : World → Task.Priority → Effect
prioritised w p = some (record (with_thread w p.thread) { log = p.log }, reverse p.lines)

abbrev pub on_net : World → Interface.Outcome → Effect
on_net w o = some (record w { devs = o.devs; log = o.log }, reverse o.lines)

abbrev pub on_net? : World → Option Interface.Outcome → Effect
on_net? w none = none
on_net? w (some o) = on_net w o

abbrev pub parsed : World → Option (Log × List Line) → Effect
parsed w none = none
parsed w (some (log, lines)) = some (record w { log = log }, reverse lines)

-- A line printed first.
abbrev pub logged : Line → Effect → Effect
logged line none = none
logged line (some (w, lines)) = some (w, line ∷ lines)

-- The other handlers do not look at their parameter.
abbrev pub reads_param : Handler → Bool
reads_param parse = true
reads_param set_user_nice_by_uid = true
reads_param set_all_task_nice = true
reads_param set_thread_priority = true
reads_param showinterface = true
reads_param setmtu = true
reads_param clearinterface = true
reads_param setsocketsize = true
reads_param _ = false

abbrev pub ends_inside : List ℕ → Bool
ends_inside s = ltb (length (cstr s)) (length s)

module _ (api : Api) where
  unfoldable pub run_handler : Handler → (param : List ℕ) → World → Effect
  run_handler showtasklist param w = some (w, Task.showtasklist w.tasks)
  run_handler print_task_info param w = some (w, Task.print_task_info w.tasks)
  run_handler parse param w =
      parsed w (parse_command (length (cstr param) + 2) param api.kstrdup w.log)
  run_handler set_user_nice_by_uid param w =
      reniced w (Task.set_user_nice_by_uid api.tasks param w.tasks)
  run_handler set_all_task_nice param w = reniced w (Task.set_all_task_nice api.tasks param w.tasks)
  run_handler showkernelsymbol param w = some (w, show_kernel_symbol param)
  run_handler showallthread param w = some (w, Task.showallthread w.processes)
  run_handler set_thread_priority param w = prioritised w (
      Task.set_thread_priority_in api.tasks param api.pid_of
        (λ tid. task_of tid w.tasks w.processes) w.log)
  run_handler showinterface param w =
      on_net w (Interface.showinterface_in api.net param w.devs w.log)
  run_handler setmtu param w = on_net? w (Interface.setmtu_in api.net param w.devs w.log)
  run_handler clearinterface param w =
      on_net? w (Interface.clearinterface_in api.net param w.devs w.log)
  run_handler showprocessfd param w =
      let r = Descriptor.showprocessfd_in w.socks w.open_files w.log in
      some (record w { log = r.2 }, r.1)
  run_handler setsocketsize param w =
      let r =
        Descriptor.setsocketsize_in (api.tasks.scan 4 (cstr param)) w.socks w.open_files w.log in
      some (record w { socks = r.socks; log = r.log }, reverse r.lines)

  -- A handler that reads its parameter up to the NUL runs past the end of `my_data`, a fault, if none
  -- follows.
  unfoldable pub call_handler : Handler → (param : List ℕ) → World → Effect
  unfolding run_handler
  call_handler h param w =
      if reads_param h && not (ends_inside param) then none else run_handler h param w

  -- What a store returns, leaves in `my_data`, does and prints.
  abbrev pub Stored : Type 0
  Stored = record { ret : ℕ; my_data : List ℕ; effect : Effect }

  unfoldable pub my_data_store : (my_data buf : List ℕ) (count : ℕ) → World → Stored
  unfolding find_handler command_handlers call_handler
  my_data_store my_data buf count w =
      let data' = snprintf_s my_data 256 buf in
      record {
        ret = count;
        my_data = data';
        effect = elim (find_handler command_handlers data') [
          | none ↦ some (w, received (cstr data') ∷ unknown_command (cstr data') ∷ [])
          | some (h, param) ↦ logged (received (cstr data')) (call_handler h param w)
        ];
      }

unfoldable pub my_data_show : (my_data : List ℕ) → List ℕ
my_data_show my_data = cstr my_data ++ codes "\n"
