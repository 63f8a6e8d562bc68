-- ===== src/Tests/WaitQueue.antt =====
-- A run of __wake_up/ in which the thread wakes the load function.
use linux_driver.Base.{ℕ, ◌≤◌, ◌≡◌, ◌⊎◌, refl, pos, false, true}
use linux_driver.Kernel.{address}
use linux_driver.WaitQueue.{
  wake_up, Task, System, wake, look, look_again, finished, by_init, by_thread, by_timer, Reaches,
  at_first, after, init_from, thread_from,
}
use linux_driver.WaitQueue.Reach.{thread-faults}
use linux_driver.WaitQueue.Progress.{IsOver, Goes, run-ends}

abbrev loader : Task
loader = record { address = 4096; pid = pos 50; tgid = pos 50 }

abbrev helper : Task
helper = record { address = 8192; pid = pos 51; tgid = pos 51 }

abbrev Runs : ℕ → System → Type 0
Runs = Reaches wake_up loader helper (address 8192) 0

-- The load function starts the thread and sleeps.
unfoldable slept : (s : System) × Runs 5 s
unfolding init_from
slept =
    let r1 = after at_first (by_init refl) in
    let r2 = after r1 (by_init refl) in
    let r3 = after r2 (by_init refl) in
    let r4 = after r3 (by_init refl) in (_, after r4 (by_init refl))

-- The timer runs out, the load function returns, and only then the thread comes to its wake.
unfoldable late : (s : System) × Runs 9 s
unfolding slept thread_from init_from
late =
    let r6 = after slept.1 (by_timer refl refl) in
    let r7 = after r6 (by_init refl) in
    let r8 = after r7 (by_thread 0 true refl) in (_, after r8 (by_thread 0 true refl))

thread-faults_example :
    (late.0.init ≡ finished)
    × (((late.0.thread ≡ wake) × (late.0.entry_lives ≡ false))
        ⊎ ((true ≡ false) × ((late.0.thread ≡ look) ⊎ (late.0.thread ≡ look_again))))
unfolding late slept thread_from
thread-faults_example = thread-faults wake_up loader helper (address 8192) 0 0 true late.1 refl

run-ends_example :
    (9 ≤ 12)
    × (IsOver wake_up loader helper 8192 0 false late.0 ⊎ Goes wake_up loader helper 8192 0 late.0)
run-ends_example = run-ends wake_up loader helper 8192 0 false late.1
