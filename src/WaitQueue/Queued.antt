-- ===== src/WaitQueue/Queued.antt =====
-- add_wait_queue/add_wait_queue.c and abort_exclusive_wait/abort_exclusive_wait.c: load functions that
-- put threads of theirs on a wait queue of their own. The queue is the list of its entries, the
-- first one first.
pub mod Rules
pub mod Ended
use Prim.Native.String.{String}
use linux_driver.Base.{ℕ, zero, suc, ◌+◌, ℤ, pos, Bool, true, Option, none, some, List, [], ◌∷◌}
use linux_driver.Kernel.{
  ErrPtr, address, err_ptr, World, Exec, ◌>>=◌, ◌>>◌, done, call, deref, printk, int, nat, text,
  kthread_create, wake_up_process,
}

-- What is read of a `struct task_struct`.
pub record Thread : Type 0 where
  pub pid : ℤ
  pub state : ℤ

-- An entry: the thread behind `private`, and whether its links are those of an empty list.
pub record Entry : Type 0 where
  pub private : ErrPtr
  pub unlinked : Bool

-- The queue, and the state of the task that runs the load function.
pub record Waits : Type 0 where
  pub queue : List Entry
  pub state : ℤ

-- What the kernel provides. `created` answers `kthread_create_on_node` for a name; `thread_at` tells
-- what stands at the address of a thread at a moment of the run, nothing once the thread has ended
-- and is freed. `init_entry` leaves the links as they stand on the stack.
pub record Api : Type 0 where
  pub pid : ℤ
  pub tgid : ℤ
  pub state : ℤ
  pub module_refcount : ℕ
  pub created : String → ErrPtr
  pub thread_at : ℕ → World → Option Thread
  pub init_entry : ErrPtr → Entry
  pub add_wait_queue : Entry → List Entry → List Entry
  pub prepare_to_wait : Entry → (state : ℤ) → Waits → Waits
  pub prepare_to_wait_exclusive : Entry → (state : ℤ) → Waits → Waits

-- To wake what is no thread is a fault, as is a read through an error pointer.
unfoldable pub wake : ErrPtr → Exec (Unit {0})
wake (err_ptr _) w = none
wake (address a) w = call (wake_up_process a) w

-- `__wake_up(&head, TASK_ALL, 0, NULL)` wakes the thread of every entry.
unfoldable pub wake_up : List Entry → Exec (Unit {0})
wake_up [] = done tt
wake_up (e ∷ queue) = do wake e.private; wake_up queue

module _ (api : Api) where
  unfoldable pub create : String → Exec ErrPtr
  create name = do call (kthread_create (api.created name)); done (api.created name)

  -- The fields of the thread behind a pointer.
  unfoldable pub read_thread : ErrPtr → Exec Thread
  read_thread (err_ptr _) w = none
  read_thread (address a) w = deref (api.thread_at a w) w

  -- What a thread does, in both modules; `pid` is its own.
  unfoldable pub my_function : (pid : ℤ) → Exec ℤ
  my_function pid = do
    printk "in the kernel thread function!\n" []
    printk "the current pid is:%d\n" (int pid ∷ [])
    printk "out the kernel thread function\n" []
    done (pos 0)

  -- The walk over the queue has an empty body.
  unfoldable pub add_wait_queue_init : Exec ℤ
  add_wait_queue_init = do
    printk "into add_wait_queue_init.\n" []
    result ← create "add_wait_queue.c"
    result1 ← create "add_wait_queue1.c"
    let queue = api.add_wait_queue (api.init_entry result) []
    let queue1 = api.add_wait_queue (api.init_entry result1) queue
    wake_up queue1
    printk "the pid of current thread is:%d\n" (int api.pid ∷ [])
    printk "the current tgid is:%d\n" (int api.tgid ∷ [])
    printk "out add_wait_queue_init\n" []
    printk "module_refcount(THIS_MODULE):%d\n" (nat api.module_refcount ∷ [])
    done (pos 0)

  unfoldable pub add_wait_queue_exit : Exec (Unit {0})
  add_wait_queue_exit = printk "<0>module[%s] exit ok!\n" (text "add_wait_queue_exit" ∷ [])

  -- `init_waitqueue_entry`, and the link to itself that the code sets.
  abbrev pub own_entry : ErrPtr → Entry
  own_entry p = record (api.init_entry p) { unlinked = true }

  -- The three entries, put on the queue with the states 130, 2 and 1.
  abbrev pub enqueue : (result result1 result2 : ErrPtr) → Waits
  enqueue result result1 result2 =
      let first =
        api.prepare_to_wait (own_entry result) (pos 130)
          (record { queue = []; state = api.state }) in
      let second = api.prepare_to_wait_exclusive (own_entry result1) (pos 2) first in
      api.prepare_to_wait_exclusive (own_entry result2) (pos 1) second

  unfoldable pub abort_exclusive_wait_exit : Exec (Unit {0})
  abort_exclusive_wait_exit =
      printk "<0>module[%s] exit ok!\n" (text "abort_exclusive_wait_exit" ∷ [])

  -- Both walks over the queue, which spell a word differently; `wait_queue_num` is counted up.
  unfoldable pub show_queue : (pid_format : String) (wait_queue_num : ℕ) → List Entry → Exec ℕ
  show_queue format n [] = done n
  show_queue format n (curr ∷ queue) = do
    t ← read_thread curr.private
    printk format (int t.pid ∷ [])
    t' ← read_thread curr.private
    printk "the state of the current data of the waitqueue is:%ld\n" (int t'.state ∷ [])
    show_queue format (n + 1) queue

  unfoldable pub print_pid_of : String → ErrPtr → Exec (Unit {0})
  print_pid_of format p = do t ← read_thread p; printk format (int t.pid ∷ [])

  -- The return code, and the state that the task which loads the module is left in. Between the walks
  -- the unload function is called, with arguments that it does not take.
  unfoldable pub abort_exclusive_wait_init : Exec (ℤ × ℤ)
  abort_exclusive_wait_init = do
    printk "into abort_exclusive_wait_init.\n" []
    result ← create "abort_exclusive_wait.c"
    result1 ← create "abort_exclusive_wait1.c"
    result2 ← create "abort_exclusive_wait2.c"
    wake result
    wake result1
    wake result2
    let head = enqueue result result1 result2
    n ← show_queue "the pid value of the current data of the waitqeue is:%d\n" 0 head.queue
    printk "the value of the wait_queue_num is:%d\n" (nat n ∷ [])
    printk "the state of the current thread is:%ld\n" (int head.state ∷ [])
    abort_exclusive_wait_exit
    printk "the state of the current thread is :%ld\n" (int head.state ∷ [])
    m ← show_queue "the pid value of the current data of the waitqueue is:%d\n" 0 head.queue
    printk "the value of the wait_queue_num is:%d\n" (nat m ∷ [])
    print_pid_of "the pid of result is:%d\n" result
    print_pid_of "the pid of result1 is:%d\n" result1
    print_pid_of "the pid of result2 is:%d\n" result2
    printk "the pid of current thread is:%d\n" (int api.pid ∷ [])
    printk "the current tgid is:%d\n" (int api.tgid ∷ [])
    printk "out abort_exclusive_wait_init\n" []
    printk "module_refcount(THIS_MODULE):%d\n" (nat api.module_refcount ∷ [])
    done (pos 0, head.state)
