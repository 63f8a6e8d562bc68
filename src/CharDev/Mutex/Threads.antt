-- ===== src/CharDev/Mutex/Threads.antt =====
-- mutex/mutex.c: reads and writes by any number of threads at once. A thread that holds the mutex
-- copies byte by byte, and the others may run between any two of its bytes.
use linux_driver.Base.{
  ℕ, suc, ◌-◌, ◌<◌, ◌≡◌, ℤ, pos, false, Option, some, List, [], ◌∷◌, get_or, set, min, ◌==◌,
  if◌then◌else◌,
}
use linux_driver.Kernel.{padded}
use linux_driver.CharDev.Mutex.{Shared, mutex_lock, Reply, finish, my_read, my_write}

pub data Kind : Type 0 where
  reading writing : Kind

-- One call of `my_read` or `my_write`: the caller's memory, the count, and how many bytes the copy
-- leaves uncopied.
pub record Request : Type 0 where
  pub kind : Kind
  pub user : List ℕ
  pub count : ℕ
  pub left : ℕ

-- How many bytes the copy stores. A write that is cut short puts zeros for the bytes that are missing.
abbrev pub moved : Kind → (count left : ℕ) → ℕ
moved reading count left = min count 1024 - left
moved writing count left = min count 1024

abbrev pub amount : Request → ℕ
amount q = moved q.kind q.count q.left

-- What a write stores.
abbrev pub written : Request → List ℕ
written q = padded q.user (min q.count 1024) q.left

-- What the call returns after a whole copy.
abbrev pub done_of : Kind → (count : ℕ) → ℤ
done_of reading count = pos 1024
done_of writing count = pos count

-- Where a thread stands: before `mutex_lock`, in the copy with `k` bytes moved, after its return.
pub data At : Type 0 where
  waiting : At
  copying : (k : ℕ) (user : List ℕ) → At
  returned : Reply → At

-- `log` has the threads that have returned, the latest first, with what they got.
pub record System : Type 0 where
  pub shared : Shared
  pub at : ℕ → At
  pub log : List (ℕ × Reply)

abbrev pub move_to : (ℕ → At) → ℕ → At → ℕ → At
move_to f i a j = if i == j then a else f j

-- One byte of `copy_to_user` or `copy_from_user`, the `k`-th; `source` is what a write stores.
abbrev pub copy_byte : Kind → (source : List ℕ) (i k : ℕ) (user : List ℕ) → System → System
copy_byte reading source i k user s = record s {
  at = move_to s.at i (copying (suc k) (set user k (get_or s.shared.bytes k 0)));
}
copy_byte writing source i k user s = record s {
  shared = record s.shared { bytes = set s.shared.bytes k (get_or source k 0) };
  at = move_to s.at i (copying (suc k) user);
}

-- What follows the copy, up to the return.
abbrev pub leave : Request → (i : ℕ) (user : List ℕ) → System → System
leave q i user s =
    let r = finish s.shared user q.left (done_of q.kind q.count) in
    record { shared = r.shared; at = move_to s.at i (returned r); log = (i, r) ∷ s.log }

-- Thread `i` makes the call `calls i`. A thread that finds the mutex locked has no step.
pub data Step (calls : ℕ → Request) (s : System) : System → Type 0 where
  lock :
      (i : ℕ) {sh : Shared}
      → s.at i ≡ waiting
      → mutex_lock s.shared ≡ some sh
      → Step calls s (record s { shared = sh; at = move_to s.at i (copying 0 (calls i).user) })
  copy :
      (i : ℕ) {k : ℕ} {user : List ℕ}
      → s.at i ≡ copying k user
      → k < amount (calls i)
      → Step calls s (copy_byte (calls i).kind (written (calls i)) i k user s)
  return :
      (i : ℕ) {user : List ℕ}
      → s.at i ≡ copying (amount (calls i)) user
      → Step calls s (leave (calls i) i user s)

abbrev pub idle_memory : (bytes : List ℕ) → Shared
idle_memory bytes = record { bytes = bytes; locked = false }

abbrev pub at_rest : (bytes : List ℕ) → System
at_rest bytes = record { shared = idle_memory bytes; at = λ _. waiting; log = [] }

-- The states that the threads reach from a memory with these bytes, in any order of their steps.
pub data Reach (calls : ℕ → Request) (bytes : List ℕ) : System → Type 0 where
  start : Reach calls bytes (at_rest bytes)
  later : {s t : System} → Reach calls bytes s → Step calls s t → Reach calls bytes t

-- The whole call, with no other thread between its steps.
unfoldable pub run_alone : Kind → Request → Shared → Option Reply
run_alone reading q s = my_read s q.user q.count q.left
run_alone writing q s = my_write s q.user q.count q.left
