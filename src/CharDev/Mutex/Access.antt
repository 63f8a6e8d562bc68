-- ===== src/CharDev/Mutex/Access.antt =====
-- mutex/mutex.c: reading and writing the shared memory under the mutex.
use linux_driver.Base.{
  ℕ, ◌≤◌, ℤ, pos, ◌≡◌, false, Option, none, some, List, length, min, arith, efault, ◌==◌,
  if◌then◌else◌,
}
use linux_driver.Kernel.{length-overwrite, padded, length-padded}
use linux_driver.CharDev.Mutex.{Shared, Reply, my_read, my_write}

-- The memory has its size, and no thread is inside.
pub record IsIdle (s : Shared) : Type 0 where
  pub sized : length s.bytes ≡ 1024
  pub unlocked : s.locked ≡ false

-- A file operation that ran: the mutex is free again and the memory has kept its size.
abbrev pub Completes : (done : ℤ) (left : ℕ) → Option Reply → Type 0
Completes done left none = ⊥
Completes done left (some r) = IsIdle r.shared × (r.ret ≡ (if left == 0 then done else efault))

-- With the mutex free and the memory of its size, reading never runs past the memory, unlocks the
-- mutex whether or not the copy succeeded, keeps the memory's size, and returns 1024, or -EFAULT
-- if bytes stayed uncopied.
pub my_read-Completes :
    (s : Shared) (user : List ℕ) (count left : ℕ)
    → IsIdle s
    → Completes (pos 1024) left (my_read s user count left)
unfolding my_read
my_read-Completes s user count left h = ground arith

-- With the mutex free, the memory of its size, and the caller's memory holding the bytes that are
-- copied, writing never runs past the memory, however large the count, and unlocks the mutex
-- whether or not the copy succeeded; it returns the count, or -EFAULT if bytes stayed uncopied.
pub my_write-Completes :
    (s : Shared) (user : List ℕ) (count left : ℕ)
    → IsIdle s
    → min count 1024 ≤ length user
    → Completes (pos count) left (my_write s user count left)
unfolding my_write
my_write-Completes s user count left h k =
    let n = min count 1024 in
    let full : length (padded user n left) ≡ n = length-padded user n left (omega arith) in
    ground (arith, full, length-overwrite s.bytes (padded user n left) n)

-- With the mutex free, the memory of its size, and the caller's memory holding the bytes that are
-- copied, neither a read nor a write runs past the memory, however large the count, and both keep
-- its size and unlock the mutex whether or not the copy succeeded. A read returns 1024 and a write
-- the count, or both -EFAULT if bytes stayed uncopied.
pub access-Completes :
    (s : Shared) (user : List ℕ) (count left : ℕ)
    → IsIdle s
    → min count 1024 ≤ length user
    → Completes (pos 1024) left (my_read s user count left)
      × Completes (pos count) left (my_write s user count left)
access-Completes s user count left h k =
    (my_read-Completes s user count left h, my_write-Completes s user count left h k)
