-- ===== src/WaitQueue/Progress.antt =====
-- The load function and its thread get to their ends.

use linux_driver.Base.{ℕ, Bool, ◌≤◌, ◌≡◌, false, ◌⊎◌, inl, inr, refl, ap, arith}
use linux_driver.Kernel.{address}
use linux_driver.WaitQueue.{
  Variant, InitAt, create, enqueue, save, start, sleep, asleep, woken, finished, ThreadAt, wake,
  look, look_again, ended, Task, System, Outcome, next, blocked, fault, init_from, thread_from,
  Step, by_init, by_thread, by_timer, Reaches,
}
use linux_driver.WaitQueue.Reach.{
  stage, thread_stage, IsFine, Reaches-IsOrdered, thread_from-IsFine,
}

stage_bound : (i : InitAt) → stage i ≤ 7
unfolding stage
stage_bound i = grind arith

thread_bound : (t : ThreadAt) → thread_stage t ≤ 5
unfolding thread_stage
thread_bound t = grind arith

module _ (variant : Variant) (current thread : Task) (a module_refcount : ℕ) where
  abbrev pub Goes : System → Type 0
  Goes s = (s' : System) × Step variant current thread (address a) module_refcount s s'

  -- The load function has returned, and the thread has reached its end, or it stands before a wake
  -- that faults; or it looks at the task that loaded the module, and that is gone.
  pub IsOver : (lives : Bool) → System → Type 0
  IsOver lives s =
      (s.init ≡ finished)
      × ((s.thread ≡ ended)
          ⊎ (((s.thread ≡ wake) × (s.entry_lives ≡ false))
              ⊎ ((lives ≡ false) × ((s.thread ≡ look) ⊎ (s.thread ≡ look_again)))))

  init-Goes : (i : InitAt) (s : System) → s.init ≡ i → (i ≡ finished) ⊎ Goes s
  unfolding init_from
  init-Goes asleep s e = inr (_, by_timer e refl)
  init-Goes finished s e = inl refl
  init-Goes create s e =
      inr
        (_, by_init (ap (λ i. init_from variant current thread (address a) module_refcount i s) e))
  init-Goes enqueue s e =
      inr
        (_, by_init (ap (λ i. init_from variant current thread (address a) module_refcount i s) e))
  init-Goes save s e =
      inr
        (_, by_init (ap (λ i. init_from variant current thread (address a) module_refcount i s) e))
  init-Goes start s e =
      inr
        (_, by_init (ap (λ i. init_from variant current thread (address a) module_refcount i s) e))
  init-Goes sleep s e =
      inr
        (_, by_init (ap (λ i. init_from variant current thread (address a) module_refcount i s) e))
  init-Goes (woken time_out) s e =
      inr
        (_, by_init (ap (λ i. init_from variant current thread (address a) module_refcount i s) e))

  thread-Goes :
      (lives : Bool) (o : Outcome) (s : System)
      → thread_from variant current thread (address a) module_refcount 0 lives s.thread s ≡ o
      → IsFine lives s.thread s o
      → s.init ≡ finished
      → 1 ≤ thread_stage s.thread
      → IsOver lives s ⊎ Goes s
  unfolding IsFine IsOver
  thread-Goes lives (next s') s e fine f h = inr (s', by_thread 0 lives e)
  thread-Goes lives blocked s e (inl waiting) f h = ground arith
  thread-Goes lives blocked s e (inr over) f h = inl (f, inl over)
  thread-Goes lives fault s e fine f h = inl (f, inr fine.1)

  -- The thread can be made. Then every run of the load function and its thread, in any order of their
  -- steps and whenever the timer runs out, has at most 12 steps. As long as the load function has not
  -- returned, one of them can go on; and after that the thread can, until it is at its end, unless it
  -- stands before a wake whose entry is gone with the stack frame, or before a look at the task that
  -- loaded the module and that task is gone, `lives` being false.
  pub run-ends :
      {n : ℕ} {s : System} (lives : Bool)
      → Reaches variant current thread (address a) module_refcount n s
      → (n ≤ 12) × (IsOver lives s ⊎ Goes s)
  unfolding stage
  run-ends {s = s} lives r =
      let (o, n) = Reaches-IsOrdered variant current thread (address a) module_refcount r in
      let fine =
        thread_from-IsFine current thread module_refcount variant (address a) 0 lives s.thread s
          refl o in
      (
        omega (arith, stage_bound s.init, thread_bound s.thread),
        elim (init-Goes s.init s refl) [
          | inl f ↦ thread-Goes lives _ s refl fine f (o.runs (rw f (omega arith)))
          | inr goes ↦ inr goes
        ],
      )
