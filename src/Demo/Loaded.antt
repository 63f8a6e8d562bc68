-- ===== src/Demo/Loaded.antt =====
-- hello/hello.c, kernel_thread/kernel_thread.c and kthread_run/kthread_run.c: the lines of the loops,
-- and the threads that are left running.
use mathlib.Core.Path.{subst}
use linux_driver.Base.{
  ℕ, zero, suc, ◌+◌, ◌≡◌, refl, pos, true, false, Option, none, some, List, [], ◌∷◌, arith,
}
use linux_driver.Kernel.{
  address, err_ptr, Exec, World, Log, Printk, world, ◌>>=◌, done, call, printk, nat, text,
  kthread_create, wake_up_process, Ends,
}
use linux_driver.Demo.{
  hello_loop, hello_init, Started, my_kernel_thread, kthread_run, dmatest_init, dmatest_exit,
}

-- Lines with the numbers from `i` on, the latest first, put before others.
abbrev numbered : (left i : ℕ) → List Printk → List Printk
numbered zero i pr = pr
numbered (suc left) i pr =
    numbered left (i + 1) (record { format = "hello,Seq:%u\n"; args = nat i ∷ [] } ∷ pr)

hello_loop-numbered :
    (left i : ℕ) (log : Log) (pr : List Printk)
    → hello_loop left i (world log pr) ≡ some (tt, world log (numbered left i pr))
unfolding hello_loop ◌>>=◌ printk done
hello_loop-numbered zero i log pr = refl
hello_loop-numbered (suc left) i log pr = hello_loop-numbered left (i + 1) log _

-- Loading hello.c prints the numbers from 0 to 9 in their order and returns 0.
pub hello_init-numbered :
    (w : World) → hello_init w ≡ some (pos 0, world w.log (numbered 10 0 w.printed))
unfolding hello_init ◌>>=◌ done
hello_init-numbered w = rw (hello_loop-numbered 10 0 w.log w.printed) refl

-- The turns of the thread of kernel_thread.c, one after the other.
pub turns : (number : ℕ) → Started → Exec Started
turns zero s = done s
turns (suc m) s = my_kernel_thread s.loaded s.n >>= turns m

counted_as :
    (o : Option (Started × World)) (log : Log) {m m' : ℕ}
    → m ≡ m'
    → Ends o (record { loaded = true; n = some m }) log
    → Ends o (record { loaded = true; n = some m' }) log
counted_as o log e h = subst (λ m. Ends o (record { loaded = true; n = some m }) log) e h

-- While the module is loaded the thread never ends: after any number of turns it has counted them, and
-- goes on. Once the module is unloaded its next turn faults, since nothing has stopped it.
pub turns-counted :
    (number k : ℕ) (log : Log) (pr : List Printk)
    → Ends
        (turns number (record { loaded = true; n = some k }) (world log pr))
        (record { loaded = true; n = some (k + number) })
        log
      × (my_kernel_thread false (some (k + number)) (world log pr) ≡ none)
unfolding turns my_kernel_thread ◌>>=◌ printk done
turns-counted zero k log pr =
    let s : Started = record { loaded = true; n = some k } in
    (counted_as (turns zero s (world log pr)) log (omega arith) (pr, refl), refl)
turns-counted (suc number) k log pr =
    let line : Printk = record {
      format = "%s: %d\n";
      args = text "my_kernel_thread" ∷ nat k ∷ [];
    } in
    let s : Started = record { loaded = true; n = some (suc k) } in
    let rest = turns-counted number (suc k) log (line ∷ pr) in
    (counted_as (turns number s (world log (line ∷ pr))) log (omega arith) rest.0, refl)

-- Loading kthread_run.c returns 0 whether or not the thread was made, and wakes exactly a thread
-- that was made; unloading changes nothing.
pub dmatest_init-wakes :
    (w : World)
    → ((a : ℕ)
        → dmatest_init (address a) w
          ≡ some (pos 0, world (wake_up_process a ∷ kthread_create (address a) ∷ w.log) w.printed))
      × ((e : ℕ)
          → dmatest_init (err_ptr e) w
            ≡ some (pos 0, world (kthread_create (err_ptr e) ∷ w.log) w.printed))
      × (dmatest_exit w ≡ some (tt, w))
unfolding dmatest_init kthread_run dmatest_exit ◌>>=◌ call done
dmatest_init-wakes w = (λ a. refl, λ e. refl, refl)
