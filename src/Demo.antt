-- ===== src/Demo.antt =====
-- hello/hello.c, kernel_thread/kernel_thread.c, kthread_run/kthread_run.c and
-- test_module/test_module.c: modules that print lines, start a thread, or export symbols.
pub mod Loaded
use linux_driver.Base.{
  ℕ, zero, suc, ◌+◌, ℤ, pos, Bool, true, false, Option, none, some, List, [], ◌∷◌,
}
use linux_driver.Kernel.{
  ErrPtr, address, err_ptr, Exec, ◌>>=◌, ◌>>◌, done, call, printk, int, nat, text, kthread_create,
  kernel_thread, wake_up_process,
}

-- The loop of hello.c, with `left` turns to go.
unfoldable pub hello_loop : (left iLp : ℕ) → Exec (Unit {0})
hello_loop zero i = done tt
hello_loop (suc left) i = do printk "hello,Seq:%u\n" (nat i ∷ []); hello_loop left (i + 1)

unfoldable pub hello_init : Exec ℤ
hello_init = do hello_loop 10 0; done (pos 0)

unfoldable pub hello_exit : Exec (Unit {0})
hello_exit = printk "goodbye,kernel\n" []

-- kernel_thread.c, while it runs: whether its code is in memory, and what `n` of the thread is, if
-- the thread was started.
pub record Started : Type 0 where
  pub loaded : Bool
  pub n : Option ℕ

-- `kernel_thread` answers with the thread's pid, or an error, and the answer is dropped.
unfoldable pub practice_call : (answer : ℤ) → Exec ℤ
practice_call answer = do
  printk "%s:\n" (text "practiceCall" ∷ [])
  call (kernel_thread answer)
  done (pos 0)

unfoldable pub practice_call_exit : Exec (Unit {0})
practice_call_exit = printk "%s:\n" (text "practiceCallExit" ∷ [])

abbrev pub count_up : ℕ → Started → Exec Started
count_up k s = do
  printk "%s: %d\n" (text "my_kernel_thread" ∷ nat k ∷ [])
  done (record s { n = some (suc k) })

abbrev code_gone : Exec Started
code_gone w = none

-- One turn of the endless loop. A thread whose code is gone faults.
unfoldable pub my_kernel_thread : (loaded : Bool) (n : Option ℕ) → Exec Started
my_kernel_thread l none = done (record { loaded = l; n = none })
my_kernel_thread true (some k) = count_up k (record { loaded = true; n = some k })
my_kernel_thread false (some k) = code_gone

-- The macro of kthread_run.c; its value is not used.
unfoldable pub kthread_run : (created : ErrPtr) → Exec ErrPtr
kthread_run (address a) = do
  call (kthread_create (address a))
  call (wake_up_process a)
  done (address a)
kthread_run (err_ptr e) = do call (kthread_create (err_ptr e)); done (err_ptr e)

unfoldable pub dmatest_init : (created : ErrPtr) → Exec ℤ
dmatest_init created = do k ← kthread_run created; done (pos 0)

unfoldable pub dmatest_exit : Exec (Unit {0})
dmatest_exit = done tt

-- The thread: what it returns, and the state that it has set for itself, TASK_INTERRUPTIBLE.
unfoldable pub dmatest_work : Exec (ℤ × ℤ)
dmatest_work = do printk "New kernel thread run\n" []; done (pos 0, pos 1)

-- What test_module.c exports, and what it keeps.
abbrev pub symbol_a : ℤ
symbol_a = pos 1

abbrev pub symbol_b : ℤ
symbol_b = pos 0

abbrev pub symbol_1 : ℤ
symbol_1 = pos 1

abbrev pub symbol_2 : ℤ
symbol_2 = pos 2

abbrev pub symbol_3 : ℤ
symbol_3 = pos 3

unfoldable pub test_module_init : Exec ℤ
test_module_init = do printk "<0>hello world\n" []; done (pos 0)

unfoldable pub test_module_exit : Exec (Unit {0})
test_module_exit = printk "<0>module[%s] exit ok!\n" (text "test_module_exit" ∷ [])
