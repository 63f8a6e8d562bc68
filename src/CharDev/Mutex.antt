-- ===== src/CharDev/Mutex.antt =====
-- mutex/mutex.c: a character device whose one kilobyte of memory is shared under a mutex.
pub mod Threads
pub mod Holding
pub mod Serial
pub mod Access
pub mod Load
use linux_driver.Base.{
  ℕ, ℤ, pos, is_neg, Bool, true, false, Option, none, some, List, ◌∷◌, min, length, cstr, enomem,
  efault, ◌==◌, if◌then◌else◌,
}
use linux_driver.Kernel.{
  alloc_chrdev_region, unregister_chrdev_region, cdev_init, cdev_add, cdev_del, kmalloc, kfree, Log,
  Run, DevT, copy_from_user, copy_to_user,
}

-- The module's variables while a file operation runs: the memory behind `shared_resource`, and
-- whether `resource_mutex` is locked.
pub record Shared : Type 0 where
  pub bytes : List ℕ
  pub locked : Bool

-- A thread that finds the mutex locked sleeps, `none`; it goes on once the mutex is unlocked.
unfoldable pub mutex_lock : Shared → Option Shared
mutex_lock s = if s.locked then none else some (record s { locked = true })

unfoldable pub mutex_unlock : Shared → Shared
mutex_unlock s = record s { locked = false }

unfoldable pub my_open : ℤ
my_open = pos 0

unfoldable pub my_release : ℤ
my_release = pos 0

-- What a file operation prints under the lock: that the copy failed; or `shared_resource` as a C
-- string; or, if no NUL is among its bytes, all of them and whatever lies behind them.
pub data Printed : Type 0 where
  failed : Printed
  string bytes_and_beyond : List ℕ → Printed

unfoldable pub print_string : (bytes : List ℕ) → Printed
print_string bytes =
    if length (cstr bytes) == length bytes then bytes_and_beyond bytes else string (cstr bytes)

-- The outcome of a file operation: its result, the module's variables, the caller's memory, and what
-- it prints.
pub record Reply : Type 0 where
  pub ret : ℤ
  pub shared : Shared
  pub user : List ℕ
  pub printed : Printed

-- What follows the copy: the lines are printed, and the mutex is unlocked on both branches.
unfoldable pub finish : Shared → (user : List ℕ) (left : ℕ) (done : ℤ) → Reply
unfolding mutex_unlock print_string
finish s user left done =
    if left == 0
    then record { ret = done; shared = mutex_unlock s; user = user; printed = print_string s.bytes }
    else record { ret = efault; shared = mutex_unlock s; user = user; printed = failed }

-- Under the lock the first `min(count, 1024)` bytes go out; 1024 is returned, whatever `count` is.
unfoldable pub my_read : Shared → (user : List ℕ) (count left : ℕ) → Option Reply
unfolding mutex_lock finish
my_read s user count left = elim (mutex_lock s) [
  | none ↦ none
  | some s' ↦ elim (copy_to_user user s'.bytes (min count 1024) left) [
    | none ↦ none
    | some user' ↦ some (finish s' user' left (pos 1024))
  ]
]

unfoldable pub my_write : Shared → (user : List ℕ) (count left : ℕ) → Option Reply
unfolding mutex_lock finish
my_write s user count left = elim (mutex_lock s) [
  | none ↦ none
  | some s' ↦ elim (copy_from_user s'.bytes user (min count 1024) left) [
    | none ↦ none
    | some bytes' ↦ some (finish (record s' { bytes = bytes' }) user left (pos count))
  ]
]

-- The variables that loading sets: `major` and the address in `shared_resource`; and the number
-- that was allocated, which the load function keeps in a local variable.
pub record Driver : Type 0 where
  pub major : ℕ
  pub shared_resource : ℕ
  pub dev_id : ℕ

pub record Answers : Type 0 where
  pub region : ℤ
  pub dev_id : ℕ
  pub added : ℤ
  pub memory : Option ℕ

module _ (t : DevT) where
  unfoldable pub allocate : Answers → Driver → Log → Run Driver
  allocate k g log =
      let log' = kmalloc 1024 k.memory ∷ log in
      elim k.memory [
        | none ↦ record {
          ret = enomem;
          dev = record g { shared_resource = 0 };
          log = unregister_chrdev_region g.dev_id ∷ cdev_del ∷ log';
        }
        | some a ↦ record { ret = pos 0; dev = record g { shared_resource = a }; log = log' }
      ]

  unfoldable pub my_init : Answers → Driver → Log → Run Driver
  unfolding allocate
  my_init k g log =
      let log1 = alloc_chrdev_region k.region k.dev_id ∷ log in
      let g' = record g { major = t.major k.dev_id; dev_id = k.dev_id } in
      let log2 = cdev_add k.added ∷ cdev_init ∷ log1 in
      if is_neg k.region
      then record { ret = k.region; dev = g; log = log1 }
      else if is_neg k.added
      then record { ret = k.added; dev = g'; log = unregister_chrdev_region k.dev_id ∷ log2 }
      else allocate k g' log2

  -- The number to give back is put together again from `major`, with minor number 0.
  unfoldable pub my_exit : Driver → Log → Log
  my_exit g log =
      unregister_chrdev_region (t.mkdev g.major 0) ∷ cdev_del ∷ kfree g.shared_resource ∷ log
