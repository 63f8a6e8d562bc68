-- ===== src/Tests/Threads.antt =====
-- mutex/mutex.c, at concrete inputs: one thread writes two bytes, and another reads them back.
use linux_driver.Base.{
  ℕ, zero, suc, ◌-◌, min, ◌≤◌, ◌<◌, ◌≡◌, refl, false, List, [], ◌∷◌, length, replicate, arith, ◌⊎◌,
}
use linux_driver.CharDev.Mutex.{Shared, Reply, finish, mutex_lock}
use linux_driver.CharDev.Mutex.Threads.{
  Request, Kind, amount, System, Step, idle_memory, Reach, copying, returned,
}
use linux_driver.CharDev.Mutex.Holding.{Serial}
use linux_driver.CharDev.Mutex.Serial.{Logged, Reach-Serial, Reach-exclusive_progress}

abbrev write_one : Request
write_one = record { kind = Kind.writing; user = 7 ∷ []; count = 1; left = 0 }

abbrev read_one : Request
read_one = record { kind = Kind.reading; user = 0 ∷ []; count = 1; left = 0 }

-- Thread 0 writes, and all others read.
abbrev calls : ℕ → Request
calls zero = write_one
calls (suc i) = read_one

calls-fit : (i : ℕ) → min (calls i).count 1024 - (calls i).left ≤ length (calls i).user
calls-fit zero = omega arith
calls-fit (suc i) = omega arith

calls-start : (i : ℕ) → 0 < amount (calls i)
calls-start zero = omega arith
calls-start (suc i) = omega arith

abbrev memory : List ℕ
memory = replicate 1024 0

abbrev Reached : Type 0
Reached = (s : System) × Reach calls memory s

-- The writer has returned, and a reader is inside with one byte copied.
abbrev in_between : Reached
unfolding mutex_lock finish
in_between =
    let s1 = Reach.later Reach.start (Step.lock 0 refl refl) in
    let s2 = Reach.later s1 (Step.copy 0 refl (calls-start 0)) in
    let s3 = Reach.later s2 (Step.return 0 refl) in
    let s4 = Reach.later s3 (Step.lock 1 refl refl) in
    (_, Reach.later s4 (Step.copy 1 refl (calls-start 1)))

Reach-Serial_example :
    ((sh : Shared) × Serial calls (idle_memory memory) in_between.0.log sh
      × (in_between.0.shared.locked ≡ false → in_between.0.shared ≡ sh))
    × ((i : ℕ) (r : Reply) → in_between.0.at i ≡ returned r → Logged i r in_between.0.log)
Reach-Serial_example = Reach-Serial refl calls-fit in_between.1

Reach-exclusive_progress_example :
    ((i j k l : ℕ) (u v : List ℕ)
      → in_between.0.at i ≡ copying k u
      → in_between.0.at j ≡ copying l v
      → i ≡ j)
    × ((i : ℕ)
        → ((r : Reply) × (in_between.0.at i ≡ returned r))
          ⊎ ((t : System) × Step calls in_between.0 t))
Reach-exclusive_progress_example = Reach-exclusive_progress refl calls-fit in_between.1
