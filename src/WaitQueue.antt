-- ===== src/WaitQueue.antt =====
-- __wake_up/__wake_up.c, __wake_up_sync/__wake_up_sync.c and __wake_up_sync_key/__wake_up_sync_key.c.
-- The load function makes a thread, puts itself on a wait queue, starts the thread and sleeps; the
-- thread wakes it. The two run side by side, each up to the next statement that the other can see.
-- The three differ in the name of the call that wakes, and in what the thread prints.
pub mod Reach
pub mod Progress
pub mod Queued
use Prim.Native.String.{String}
use linux_driver.Base.{
  ℕ, zero, suc, ℤ, pos, Bool, true, false, not, if◌then◌else◌, Option, none, some, List, [], ◌∷◌,
  ◌≡◌,
}
use linux_driver.Kernel.{ErrPtr, address, err_ptr, Printk, int, nat, text}

pub data Variant : Type 0 where
  wake_up wake_up_sync wake_up_sync_key : Variant

-- `__FUNCTION__` without `_init`.
abbrev pub name_of : Variant → String
name_of wake_up = "__wake_up"
name_of wake_up_sync = "__wake_up_sync"
name_of wake_up_sync_key = "__wake_up_sync_key"

-- What the load function is about to do: to create the thread, fill the queue, store `old_thread`,
-- start the thread, go to sleep; to return from the sleep, with the time that was left; nothing more.
pub data InitAt : Type 0 where
  create enqueue save start sleep asleep finished : InitAt
  woken : (time_out : ℕ) → InitAt

-- What the thread is about to do: nothing before it is started; to print its pid, to look at the state
-- of `old_thread`, to wake, to look again; nothing more.
pub data ThreadAt : Type 0 where
  not_started begin look wake look_again ended : ThreadAt

-- The numbers of a task, and the address of its `struct task_struct`.
pub record Task : Type 0 where
  pub address : ℕ
  pub pid : ℤ
  pub tgid : ℤ

-- `head` is none before `init_waitqueue_head`; an entry is the task that it holds. `entry_lives` tells
-- whether the stack frame that holds the entry `data` is still there.
pub record System : Type 0 where
  pub init : InitAt
  pub thread : ThreadAt
  pub head : Option (List ℕ)
  pub old_thread : Option ℕ
  pub entry_lives : Bool
  pub printed : List Printk

pub data Outcome : Type 0 where
  next : System → Outcome
  blocked fault : Outcome

abbrev pub initial : System
initial = record {
  init = create;
  thread = not_started;
  head = none;
  old_thread = none;
  entry_lives = true;
  printed = [];
}

-- The lines `format` are put before what was printed, so that the latest stands first.
abbrev pub print : String → System → System
print f s = record s { printed = record { format = f; args = [] } ∷ s.printed }

abbrev pub print_text : String → String → System → System
print_text f t s = record s { printed = record { format = f; args = text t ∷ [] } ∷ s.printed }

abbrev pub print_int : String → ℤ → System → System
print_int f n s = record s { printed = record { format = f; args = int n ∷ [] } ∷ s.printed }

-- TASK_RUNNING, or TASK_UNINTERRUPTIBLE in the sleep.
abbrev pub state_of : InitAt → ℤ
state_of asleep = pos 2
state_of _ = pos 0

-- What becomes of a task that is woken. The timer had `left` to go.
abbrev pub wake_init : (left : ℕ) → InitAt → InitAt
wake_init left asleep = woken left
wake_init left i = i

-- `__wake_up` and its like go through the queue, on which nothing but the load function is put. To
-- look at an entry whose stack frame is gone is a fault.
abbrev pub wake_queue : (left : ℕ) → (entry_lives : Bool) → List ℕ → System → Outcome
wake_queue left lives [] s = next s
wake_queue left false (_ ∷ _) s = fault
wake_queue left true (_ ∷ _) s = next (record s { init = wake_init left s.init })

-- `old_thread->state`. Nothing holds the task: once the load function has returned, the task that
-- loaded the module may end and be freed at any time; `lives` tells whether it is still there.
abbrev pub is_freed : (lives : Bool) → InitAt → Bool
is_freed lives finished = not lives
is_freed lives _ = false

abbrev pub print_state : String → (lives : Bool) → System → Outcome
print_state f lives s = elim s.old_thread [
  | none ↦ fault
  | some _ ↦ if is_freed lives s.init then fault else next (print_int f (state_of s.init) s)
]

module _ (variant : Variant) (current thread : Task) (created : ErrPtr) (module_refcount : ℕ) where
  abbrev pub created_lines : System → System
  created_lines s = print_int "the current pid is:%d\n" current.pid (
      print_int "the pid of the new thread is:%d\n" thread.pid
        (print_text "into %s_init.\n" (name_of variant) s))

  -- `result->pid` of an error pointer faults.
  unfoldable pub init_from : InitAt → System → Outcome
  init_from create s = elim created [
    | err_ptr _ ↦ fault
    | address _ ↦ next (created_lines (record s { init = enqueue }))
  ]
  init_from enqueue s = next (record s { head = some (current.address ∷ []); init = save })
  init_from save s = next (record s { old_thread = some current.address; init = start })
  init_from start s = next (record s { thread = begin; init = sleep })
  init_from sleep s = next (record s { init = asleep })
  init_from asleep s = blocked
  init_from (woken time_out) s =
      let shown = print_int "the schedule timeout is:%ld\n" (pos time_out) s in
      let out = print_text "out %s_init.\n" (name_of variant) shown in
      let pid = print_int "the pid of current thread is:%d\n" current.pid out in
      let tgid = print_int "the current tgid is:%d\n" current.tgid pid in
      let again = print_text "out %s_init\n" (name_of variant) tgid in
      let refs = print_int "module_refcount(THIS_MODULE):%d\n" (pos module_refcount) again in
      next (record refs { init = finished; entry_lives = false })
  init_from finished s = blocked

  -- In `__wake_up` the state is not shown again.
  abbrev pub look_once_more : Variant → (lives : Bool) → System → Outcome
  look_once_more wake_up lives s = next s
  look_once_more wake_up_sync lives s =
      print_state "the state of the init function after __wake_up_sync is:%ld\n" lives s
  look_once_more wake_up_sync_key lives s =
      print_state "the state of the init function after __wake_up_sync_key is:%ld\n" lives s

  abbrev pub state_format : Variant → String
  state_format wake_up = "the state of the init function is:%d\n"
  state_format _ = "the state of the init function is:%ld\n"

  unfoldable pub thread_from : (left : ℕ) (lives : Bool) → ThreadAt → System → Outcome
  thread_from left lives not_started s = blocked
  thread_from left lives begin s =
      let into = print "in the kernel thread function!\n" s in
      next (record (print_int "the current pid is:%d\n" thread.pid into) { thread = look })
  thread_from left lives look s =
      print_state (state_format variant) lives (record s { thread = wake })
  thread_from left lives wake s = elim s.head [
    | none ↦ fault
    | some queue ↦ wake_queue left s.entry_lives queue (record s { thread = look_again })
  ]
  thread_from left lives look_again s = elim (look_once_more variant lives s) [
    | next s' ↦ next (record (print "out the kernel thread function\n" s') { thread = ended })
    | blocked ↦ blocked
    | fault ↦ fault
  ]
  thread_from left lives ended s = blocked

  -- The timer of `schedule_timeout_uninterruptible` may run out while the load function sleeps.
  pub data Step : System → System → Type 0 where
    by_init : {s s' : System} → init_from s.init s ≡ next s' → Step s s'
    by_thread :
        {s s' : System} (left : ℕ) (lives : Bool)
        → thread_from left lives s.thread s ≡ next s'
        → Step s s'
    by_timer : {s s' : System} → s.init ≡ asleep → s' ≡ record s { init = woken 0 } → Step s s'

  -- A run of that many steps.
  pub data Reaches : ℕ → System → Type 0 where
    at_first : Reaches 0 initial
    after : {n : ℕ} {s s' : System} → Reaches n s → Step s s' → Reaches (suc n) s'

-- The two functions of __wake_up_sync/ and of __wake_up_sync_key/.
abbrev pub wake_up_sync_init :
    (current thread : Task) (created : ErrPtr) (module_refcount : ℕ) (s : System) → Outcome
wake_up_sync_init current thread created refs s =
    init_from wake_up_sync current thread created refs s.init s

abbrev pub wake_up_sync_function :
    (current thread : Task) (created : ErrPtr) (module_refcount left : ℕ) (lives : Bool)
    (s : System)
    → Outcome
wake_up_sync_function current thread created refs left lives s =
    thread_from wake_up_sync current thread created refs left lives s.thread s

abbrev pub wake_up_sync_key_init :
    (current thread : Task) (created : ErrPtr) (module_refcount : ℕ) (s : System) → Outcome
wake_up_sync_key_init current thread created refs s =
    init_from wake_up_sync_key current thread created refs s.init s

abbrev pub wake_up_sync_key_function :
    (current thread : Task) (created : ErrPtr) (module_refcount left : ℕ) (lives : Bool)
    (s : System)
    → Outcome
wake_up_sync_key_function current thread created refs left lives s =
    thread_from wake_up_sync_key current thread created refs left lives s.thread s
