-- ===== src/WaitQueue/Queued/Ended.antt =====
-- add_wait_queue/add_wait_queue.c and abort_exclusive_wait/abort_exclusive_wait.c: what the load
-- functions leave, and what they read of threads that may have ended.
use Prim.Native.String.{String}
use mathlib.Core.Path.{subst}
use linux_driver.Base.{ℕ, ◌≡◌, refl, pos, none, List, [], ◌∷◌, sym, ◌⊎◌, inl, inr}
use linux_driver.Kernel.{
  address, World, Exec, Ends, Log, Printk, world, follows, ◌>>=◌, done, printk, call,
  kthread_create, wake_up_process,
}
use linux_driver.WaitQueue.Queued.{
  Entry, Api, wake, wake_up, own_entry, abort_exclusive_wait_init, add_wait_queue_init,
  abort_exclusive_wait_exit,
}
use linux_driver.WaitQueue.Queued.Rules.{
  IsKernel, Lasts, Every, prints, Read, lasts, show_queue-Ends, creates, wakes, shows, enqueue_lem,
  bind_create, bind_wake, bind_gone,
}

-- What becomes of the threads: all last, or the first one has ended before it is read.
abbrev pub Fate : Api → (a0 a1 a2 : ℕ) → Type 0
Fate api a0 a1 a2 =
    (Lasts api a0 × Lasts api a1 × Lasts api a2) ⊎ ((v : World) → api.thread_at a0 v ≡ none)

abbrev pub Leaves : (a0 a1 a2 : ℕ) (api : Api) (w : World) → Fate api a0 a1 a2 → Type 0
Leaves a0 a1 a2 api w (inl _) =
    Ends (abort_exclusive_wait_init api w) (pos 0, pos 1)
      (wake_up_process a2
        ∷ wake_up_process a1
        ∷ wake_up_process a0
        ∷ kthread_create (address a2)
        ∷ kthread_create (address a1)
        ∷ kthread_create (address a0)
        ∷ w.log)
Leaves a0 a1 a2 api w (inr _) = abort_exclusive_wait_init api w ≡ none

module _ (api : Api) (law : IsKernel api) {a0 a1 a2 : ℕ} (w : World)
    (made : (api.created "abort_exclusive_wait.c" ≡ address a0)
      × (api.created "abort_exclusive_wait1.c" ≡ address a1)
      × (api.created "abort_exclusive_wait2.c" ≡ address a2)) where
  abbrev log' : Log
  log' =
      wake_up_process a2
      ∷ wake_up_process a1
      ∷ wake_up_process a0
      ∷ kthread_create (address a2)
      ∷ kthread_create (address a1)
      ∷ kthread_create (address a0)
      ∷ w.log

  can_read : (a : ℕ) → Lasts api a → Read api log' (own_entry api (address a)).private
  can_read a l = subst (Read api log') (sym (law.init (address a))) (lasts api a log' l)

  abort_exclusive_wait_init-Ends :
      Lasts api a0 × Lasts api a1 × Lasts api a2
      → Ends (abort_exclusive_wait_init api w) (pos 0, pos 1) log'
  unfolding abort_exclusive_wait_init abort_exclusive_wait_exit done
  abort_exclusive_wait_init-Ends (l0, l1, l2) =
      let q = enqueue_lem api law (address a0) (address a1) (address a2) in
      let entries : List Entry =
        own_entry api (address a0) ∷ own_entry api (address a1) ∷ own_entry api (address a2) ∷ [] in
      let every : Every (Read api log') entries =
        (can_read a0 l0, (can_read a1 l1, (can_read a2 l2, tt))) in
      let walk = λ (f : String) (pr : List Printk). show_queue-Ends api f 0 entries log' pr every in
      let r0 = lasts api a0 log' l0 in
      let r1 = lasts api a1 log' l1 in
      let r2 = lasts api a2 log' l2 in
      prints _ _ _ _ (λ _. creates api _ _ _ made.0 (
        creates api _ _ _ made.1 (
          creates api _ _ _ made.2 (
            wakes api a0 _ _ (
              wakes api a1 _ _ (
                wakes api a2 _ _ (
                  rw q (
                    follows _ _ _ (walk _ _) (λ _. prints _ _ _ _ (λ _. prints _ _ _ _ (λ _.
                      prints _ _ _ _ (λ _. prints _ _ _ _ (λ _. follows _ _ _ (walk _ _) (λ _.
                        prints _ _ _ _ (λ _. shows api _ _ _ _ r0 (λ _. shows api _ _ _ _ r1 (λ _.
                          shows api _ _ _ _ r2 (λ _. prints _ _ _ _ (λ _. prints _ _ _ _ (λ _.
                            prints _ _ _ _
                              (λ _. prints _ _ _ _ (λ pr. (pr, refl)))))))))))))))))))))))

  -- The thread of the first entry has ended, and is freed.
  abort_exclusive_wait_init-gone :
      ((v : World) → api.thread_at a0 v ≡ none) → abort_exclusive_wait_init api w ≡ none
  unfolding abort_exclusive_wait_init ◌>>=◌ printk
  abort_exclusive_wait_init-gone gone = simp (
    bind_create api,
    bind_wake,
    made.0,
    made.1,
    made.2,
    enqueue_lem api law (address a0) (address a1) (address a2),
    bind_gone api law a0 0 "the pid value of the current data of the waitqeue is:%d\n" gone,
  )

  -- The kernel's wait queues do as they are documented, and the three threads are made. Either every
  -- read of a thread finds it: then loading abort_exclusive_wait.c starts the three threads, returns
  -- 0 and leaves the task that loads it in state 1. Or the first thread has
  -- ended and is freed: then loading faults.
  pub abort_exclusive_wait_init-Leaves : (fate : Fate api a0 a1 a2) → Leaves a0 a1 a2 api w fate
  abort_exclusive_wait_init-Leaves (inl last) = abort_exclusive_wait_init-Ends last
  abort_exclusive_wait_init-Leaves (inr gone) = abort_exclusive_wait_init-gone gone

wakes_two :
    {B : Type 0} (api : Api) (law : IsKernel api) (a1 a0 : ℕ) (k : Unit {0} → Exec B) {b : B}
    {log log' : Log} (pr : List Printk)
    → Ends (k tt (world (wake_up_process a0 ∷ wake_up_process a1 ∷ log) pr)) b log'
    → Ends
        ((wake_up (api.init_entry (address a1) ∷ api.init_entry (address a0) ∷ []) >>= k)
          (world log pr))
        b
        log'
unfolding wake_up wake ◌>>=◌ call done
wakes_two api law a1 a0 k pr next = rw (law.init (address a1), law.init (address a0)) next

-- The kernel's wait queues do as they are documented, and the two threads are made: loading
-- add_wait_queue.c starts both by waking its queue, the one that came last first, and returns 0.
pub add_wait_queue_init-starts :
    (api : Api) (law : IsKernel api) {a0 a1 : ℕ} (w : World)
    → api.created "add_wait_queue.c" ≡ address a0
    → api.created "add_wait_queue1.c" ≡ address a1
    → Ends (add_wait_queue_init api w) (pos 0) (
        wake_up_process a0
        ∷ wake_up_process a1
        ∷ kthread_create (address a1)
        ∷ kthread_create (address a0)
        ∷ w.log)
unfolding add_wait_queue_init done
add_wait_queue_init-starts api law {a0} {a1} w made0 made1 =
    let first = api.init_entry (address a0) in
    let second = api.init_entry (address a1) in
    prints _ _ _ _ (λ _. creates api _ _ _ made0 (
      creates api _ _ _ made1 (
        rw (law.added first [], law.added second (first ∷ []))
          (wakes_two api law a1 a0 _ _ (
            prints _ _ _ _ (λ _.
              prints _ _ _ _ (λ _. prints _ _ _ _ (λ _. prints _ _ _ _ (λ pr. (pr, refl))))))))))
