-- ===== src/CharDev/Mutex/Holding.antt =====
-- mutex/mutex.c: what holds whenever the threads are interleaved, and that every step keeps it.
use mathlib.Core.Path.{subst}
use native.Mathlib.Decide.{ℕ_discrete}
use linux_driver.Base.{
  ℕ, zero, suc, ◌-◌, min, ◌≤◌, ◌<◌, ◌≡◌, ◌≢◌, refl, true, false, some, List, [], ◌∷◌, length,
  get_or, set, arith, ap, sym, ap₂, ◌∙◌, ℤ,
}
use linux_driver.Kernel.{overwrite, length-overwrite, length-padded}
use linux_driver.CharDev.Mutex.{Shared, mutex_lock, mutex_unlock, Reply, finish, my_read, my_write}
use linux_driver.CharDev.Mutex.Threads.{
  Kind, reading, writing, Request, moved, written, amount, done_of, copying, System, move_to,
  copy_byte, leave, idle_memory, run_alone,
}

-- The calls of a log, each made alone on the memory that the one before it left.
pub data Serial (calls : ℕ → Request) (first : Shared) : List (ℕ × Reply) → Shared → Type 0 where
  none_yet : Serial calls first [] first
  after :
      (i : ℕ) {log : List (ℕ × Reply)} {sh : Shared} {r : Reply}
      → Serial calls first log sh
      → run_alone (calls i).kind (calls i) sh ≡ some r
      → Serial calls first ((i, r) ∷ log) r.shared

-- One more byte of a transfer.
set-overwrite :
    (buffer src : List ℕ) (k : ℕ)
    → k < length buffer
    → k < length src
    → set (overwrite buffer src k) k (get_or src k 0) ≡ overwrite buffer src (suc k)
set-overwrite [] src k h l = absurd (omega arith)
set-overwrite (b ∷ bs) [] k h l = absurd (omega arith)
set-overwrite (b ∷ bs) (x ∷ xs) zero h l = refl
set-overwrite (b ∷ bs) (x ∷ xs) (suc k) h l =
    ap (λ r. x ∷ r) (set-overwrite bs xs k (omega arith) (omega arith))

-- The module's memory and the caller's, `k` bytes into the copy; `source` is what a write stores.
abbrev pub memory_after : Kind → (source bytes : List ℕ) → ℕ → List ℕ
memory_after reading source bytes k = bytes
memory_after writing source bytes k = overwrite bytes source k

abbrev pub user_after : Kind → (user bytes : List ℕ) → ℕ → List ℕ
user_after reading user bytes k = overwrite user bytes k
user_after writing user bytes k = user

memory_after-zero : (kind : Kind) (user bytes : List ℕ) → memory_after kind user bytes 0 ≡ bytes
memory_after-zero reading user bytes = refl
memory_after-zero writing user bytes = refl

user_after-zero : (kind : Kind) (user bytes : List ℕ) → user_after kind user bytes 0 ≡ user
user_after-zero reading user bytes = refl
user_after-zero writing user bytes = refl

idle_eta : (s : Shared) → s.locked ≡ false → s ≡ idle_memory s.bytes
idle_eta s u = ground arith

-- A thread that has begun its copy: the mutex is locked.
abbrev pub inside : Kind → (source bytes : List ℕ) → ℕ → Shared
inside kind source bytes k = record { bytes = memory_after kind source bytes k; locked = true }

-- The place that the copy needs: in the caller's memory, or in what is written.
abbrev pub HasRoom : Kind → (source user : List ℕ) → ℕ → Type 0
HasRoom reading source user n = n ≤ length user
HasRoom writing source user n = n ≤ length source

copy_byte_lem :
    (kind : Kind) (source : List ℕ) (i k : ℕ) (user bytes : List ℕ) (s : System)
    → s.shared ≡ inside kind source bytes k
    → k < length bytes
    → HasRoom kind source user (suc k)
    → copy_byte kind source i k (user_after kind user bytes k) s ≡ record s {
      shared = inside kind source bytes (suc k);
      at = move_to s.at i (copying (suc k) (user_after kind user bytes (suc k)));
    }
copy_byte_lem reading source i k user bytes s e l m =
    rw (e, set-overwrite user bytes k (omega arith) l) refl
copy_byte_lem writing source i k user bytes s e l m =
    rw (e, set-overwrite bytes source k l (omega arith)) refl

-- The steps of a call, put together, are the call.
run_alone-finish :
    (kind : Kind) (q : Request) (bytes : List ℕ)
    → length bytes ≡ 1024
    → let n = moved kind q.count q.left in
      run_alone kind q (idle_memory bytes)
      ≡ some (
          finish
            (inside kind (written q) bytes n)
            (user_after kind q.user bytes n)
            q.left
            (done_of kind q.count))
unfolding run_alone my_read my_write mutex_lock
run_alone-finish reading q bytes n = ground arith
run_alone-finish writing q bytes n = ground arith

length-memory_after :
    (kind : Kind) (source user bytes : List ℕ) (k : ℕ)
    → length bytes ≡ 1024
    → k ≤ 1024
    → HasRoom kind source user k
    → length (memory_after kind source bytes k) ≡ 1024
length-memory_after reading source user bytes k n l m = n
length-memory_after writing source user bytes k n l m =
    omega (arith, length-overwrite bytes source k)

-- A call whose caller's memory has the place of the bytes that are copied has it to the end.
moved-HasRoom :
    (kind : Kind) (q : Request) (k : ℕ)
    → min q.count 1024 - q.left ≤ length q.user
    → k ≤ moved kind q.count q.left
    → HasRoom kind (written q) q.user k
moved-HasRoom reading q k f l = omega arith
moved-HasRoom writing q k f l = omega (arith, length-padded q.user (min q.count 1024) q.left f)

moved-below : (kind : Kind) (count left : ℕ) → moved kind count left ≤ 1024
moved-below reading count left = omega arith
moved-below writing count left = omega arith

finish-shared :
    (s : Shared) (user : List ℕ) (left : ℕ) (done : ℤ)
    → (finish s user left done).shared ≡ idle_memory s.bytes
unfolding finish mutex_unlock
finish-shared s user left done = ground arith

-- Thread `i` is inside, `k` bytes into its copy; `bytes` is what it found.
pub record Holds (q : Request) (s : System) (i k : ℕ) (bytes : List ℕ) : Type 0 where
  pub at_k : s.at i ≡ copying k (user_after q.kind q.user bytes k)
  pub memory : s.shared ≡ inside q.kind (written q) bytes k
  pub sized : length bytes ≡ 1024
  pub below : k ≤ amount q
  pub alone : (j k' : ℕ) (u : List ℕ) → j ≢ i → s.at j ≢ copying k' u

module _ (calls : ℕ → Request) (first : Shared) where
  pub data Inv (s : System) : Type 0 where
    free :
        s.shared.locked ≡ false
        → length s.shared.bytes ≡ 1024
        → ((j k : ℕ) (u : List ℕ) → s.at j ≢ copying k u)
        → Serial calls first s.log s.shared
        → Inv s
    held :
        (i k : ℕ) (bytes : List ℕ)
        → Holds (calls i) s i k bytes
        → Serial calls first s.log (idle_memory bytes)
        → Inv s

  pub lock-Inv :
      {s : System} {sh : Shared} (i : ℕ)
      → mutex_lock s.shared ≡ some sh
      → Inv s
      → Inv (record s { shared = sh; at = move_to s.at i (copying 0 (calls i).user) })
  unfolding mutex_lock
  lock-Inv {s} i l (Inv.free u n out ser) =
      let b = s.shared.bytes in
      Inv.held i 0 b
        (record {
          at_k = ground (arith, user_after-zero (calls i).kind (calls i).user b);
          memory = ground (arith, memory_after-zero (calls i).kind (written (calls i)) b);
          sized = n;
          below = omega arith;
          alone = λ j k v e. ground (arith, out j k v);
        })
        (subst (λ sh. Serial calls first s.log sh) (idle_eta s.shared u) ser)
  lock-Inv i l (Inv.held j k bytes h ser) = absurd (ground (arith, h.memory))

  -- A thread in its copy is the one that holds the mutex.
  pub holder :
      {s : System} {k : ℕ} {user : List ℕ} (i : ℕ)
      → s.at i ≡ copying k user
      → Inv s
      → (b : List ℕ) × Holds (calls i) s i k b
        × (user ≡ user_after (calls i).kind (calls i).user b k)
        × Serial calls first s.log (idle_memory b)
  holder i a (Inv.free u n out ser) = elim (out _ _ _ a) [ ]
  holder {s} {k} {user} i a (Inv.held j k' b h ser) = elim (ℕ_discrete i j) [
    | no other ↦ elim (h.alone _ _ _ other a) [ ]
    | yes here ↦
        let h' = subst (λ j. Holds (calls j) s j k' b) (sym here) h in
        let same : k' ≡ k = ground (arith, a, h'.at_k) in
        let h'' = subst (λ k. Holds (calls i) s i k b) same h' in
        (b, h'', ground (arith, a, h''.at_k), ser)
  ]

  pub copy-Inv :
      {s : System} {k : ℕ} {user : List ℕ} (i : ℕ)
      → min (calls i).count 1024 - (calls i).left ≤ length (calls i).user
      → s.at i ≡ copying k user
      → k < amount (calls i)
      → Inv s
      → Inv (copy_byte (calls i).kind (written (calls i)) i k user s)
  copy-Inv {s} {k} {user} i f a l inv =
      let (b, h, e, ser) = holder i a inv in
      let q = calls i in
      let after =
        copy_byte_lem q.kind (written q) i k q.user b s h.memory
          (omega (arith, h.sized, moved-below q.kind q.count q.left))
          (moved-HasRoom q.kind q (suc k) f l) in
      subst Inv (sym after ∙ ap (λ u. copy_byte q.kind (written q) i k u s) (sym e)) (
        Inv.held i (suc k) b
          (record {
            at_k = ground arith;
            memory = refl;
            sized = h.sized;
            below = l;
            alone = λ j k' v d. ground (arith, h.alone j k' v d);
          })
          ser)

  pub leave-Inv :
      {s : System} {user : List ℕ} (i : ℕ)
      → min (calls i).count 1024 - (calls i).left ≤ length (calls i).user
      → s.at i ≡ copying (amount (calls i)) user
      → Inv s
      → Inv (leave (calls i) i user s)
  leave-Inv {s} {user} i f a inv =
      let (b, h, e, ser) = holder i a inv in
      let q = calls i in
      let r = finish s.shared user q.left (done_of q.kind q.count) in
      let alone : run_alone q.kind q (idle_memory b) ≡ some r =
        run_alone-finish q.kind q b h.sized
        ∙ ap₂ (λ sh u. some (finish sh u q.left (done_of q.kind q.count))) (sym h.memory) (sym e) in
      let idle = finish-shared s.shared user q.left (done_of q.kind q.count) in
      Inv.free (ap (λ sh. sh.locked) idle)
        (ap (λ sh. length sh.bytes) idle
          ∙ ap (λ sh. length sh.bytes) h.memory
          ∙ length-memory_after q.kind (written q) q.user b (amount q) h.sized
              (moved-below q.kind q.count q.left)
              (moved-HasRoom q.kind q (amount q) f (omega arith)))
        (λ j k v c. elim (ℕ_discrete i j) [
          | yes here ↦ ground arith
          | no other ↦ ground (arith, h.alone j k v (λ d. other (sym d)))
        ])
        (Serial.after i ser alone)
