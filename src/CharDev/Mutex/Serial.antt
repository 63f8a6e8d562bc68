-- ===== src/CharDev/Mutex/Serial.antt =====
-- mutex/mutex.c: what the mutex is for. However the threads are interleaved, each call does what it
-- would do alone.
use mathlib.Core.Path.{subst}
use native.Mathlib.Decide.{ℕ_discrete, dec_lt}
use linux_driver.Base.{
  ℕ, ◌≤◌, ◌-◌, min, ◌≡◌, refl, false, true, List, [], ◌∷◌, length, arith, sym, ◌⊎◌, inl, inr,
}
use linux_driver.CharDev.Mutex.{Shared, mutex_lock, Reply}
use linux_driver.CharDev.Mutex.Threads.{
  Kind, reading, writing, Request, amount, At, waiting, copying, returned, System, copy_byte, Step,
  idle_memory, Reach,
}
use linux_driver.CharDev.Mutex.Holding.{Serial, Holds, Inv, holder, lock-Inv, copy-Inv, leave-Inv}

-- A thread's return, and what it got, are in the log.
abbrev pub Logged : (i : ℕ) (r : Reply) → List (ℕ × Reply) → Type 0
Logged i r [] = ⊥
Logged i r (e ∷ log) = (e ≡ (i, r)) ⊎ Logged i r log

copy_byte-Logged :
    (kind : Kind) (source : List ℕ) (j k : ℕ) (user : List ℕ) (s : System) (i : ℕ) (r : Reply)
    → (copy_byte kind source j k user s).at i ≡ returned r
    → (s.at i ≡ returned r → Logged i r s.log)
    → Logged i r (copy_byte kind source j k user s).log
copy_byte-Logged reading source j k user s i r e h = ground (arith, h)
copy_byte-Logged writing source j k user s i r e h = ground (arith, h)

module _ {calls : ℕ → Request} where
  Step-Logged :
      {s t : System}
      → Step calls s t
      → ((i : ℕ) (r : Reply) → s.at i ≡ returned r → Logged i r s.log)
      → (i : ℕ) (r : Reply) → t.at i ≡ returned r
      → Logged i r t.log
  Step-Logged (Step.lock j w l) h i r e = ground (arith, h i r)
  Step-Logged {s} (Step.copy j a l) h i r e = copy_byte-Logged _ _ j _ _ s i r e (h i r)
  Step-Logged (Step.return j a) h i r e = elim (ℕ_discrete j i) [
    | yes here ↦ inl (ground arith)
    | no other ↦ inr (h i r (ground arith))
  ]

  Reach-Logged :
      {bytes : List ℕ} {s : System}
      → Reach calls bytes s
      → (i : ℕ) (r : Reply) → s.at i ≡ returned r
      → Logged i r s.log
  Reach-Logged Reach.start i r e = absurd (ground arith)
  Reach-Logged (Reach.later a step) i r e = Step-Logged step (Reach-Logged a) i r e

abbrev Done : (ℕ → Request) → Shared → System → Type 0
Done calls first s =
    (sh : Shared) × Serial calls first s.log sh × (s.shared.locked ≡ false → s.shared ≡ sh)

Inv-Done :
    {calls : ℕ → Request} {first : Shared} {s : System} → Inv calls first s → Done calls first s
Inv-Done {s} (Inv.free u n out ser) = (s.shared, ser, λ _. refl)
Inv-Done (Inv.held i k b h ser) = (idle_memory b, ser, λ u. absurd (ground (arith, h.memory)))

Inv-alone :
    {calls : ℕ → Request} {first : Shared} {s : System} {k l : ℕ} {u v : List ℕ} (i j : ℕ)
    → Inv calls first s
    → s.at i ≡ copying k u
    → s.at j ≡ copying l v
    → i ≡ j
Inv-alone {calls} {first} i j inv a b =
    let (_, h, _, _) = holder calls first i a inv in
    elim (ℕ_discrete i j) [
      | yes here ↦ here
      | no other ↦ elim (h.alone _ _ _ (λ d. other (sym d)) b) [ ]
    ]

-- The thread that is inside goes on.
holder-Step :
    {calls : ℕ → Request} {s : System} {i k : ℕ} {b : List ℕ}
    → Holds (calls i) s i k b
    → (t : System) × Step calls s t
holder-Step {calls} {s} {i} {k} {b} h = elim (dec_lt k (amount (calls i))) [
  | yes more ↦ (_, Step.copy i h.at_k more)
  | no last ↦
      let all : k ≡ amount (calls i) = omega (arith, h.below) in
      (_, Step.return i (subst (λ k. Holds (calls i) s i k b) all h).at_k)
]

lock-Step :
    {calls : ℕ → Request} {s : System} (i : ℕ)
    → s.at i ≡ waiting
    → s.shared.locked ≡ false
    → (t : System) × Step calls s t
unfolding mutex_lock
lock-Step {s} i w u = (_, Step.lock i {sh = record s.shared { locked = true }} w (ground arith))

At-cases :
    (a : At)
    → (a ≡ waiting)
      ⊎ ((k : ℕ) × (u : List ℕ) × (a ≡ copying k u))
      ⊎ ((r : Reply) × (a ≡ returned r))
At-cases waiting = inl refl
At-cases (copying k u) = inr (inl (k, u, refl))
At-cases (returned r) = inr (inr (r, refl))

Inv-Step :
    {calls : ℕ → Request} {first : Shared} {s : System} (i : ℕ)
    → Inv calls first s
    → ((r : Reply) × (s.at i ≡ returned r)) ⊎ ((t : System) × Step calls s t)
Inv-Step i (Inv.held j k b h ser) = inr (holder-Step h)
Inv-Step {s} i (Inv.free u n out ser) = elim (At-cases (s.at i)) [
  | inl w ↦ inr (lock-Step i w u)
  | inr (inl (k, v, e)) ↦ elim (out i k v e) [ ]
  | inr (inr e) ↦ inl e
]

module _ {calls : ℕ → Request} {bytes : List ℕ} (sized : length bytes ≡ 1024)
    (fits : (i : ℕ) → min (calls i).count 1024 - (calls i).left ≤ length (calls i).user) where
  Reach-Inv : {s : System} → Reach calls bytes s → Inv calls (idle_memory bytes) s
  Reach-Inv Reach.start = Inv.free refl sized (λ j k u. ground arith) Serial.none_yet
  Reach-Inv (Reach.later r (Step.lock i w l)) = lock-Inv _ _ i l (Reach-Inv r)
  Reach-Inv (Reach.later r (Step.copy i a l)) = copy-Inv _ _ i (fits i) a l (Reach-Inv r)
  Reach-Inv (Reach.later r (Step.return i a)) = leave-Inv _ _ i (fits i) a (Reach-Inv r)

  -- Any number of threads read and write the shared kilobyte, byte by byte and interleaved in any
  -- way, and every caller's memory has the place of the bytes that are copied; copies may stop
  -- short. In every state they
  -- reach, the calls that have returned gave and printed what they do when each is made alone,
  -- `my_read` or `my_write` from beginning to end, one after the other in the order of their returns, on the
  -- memory that the one before left; while the mutex is free the shared memory is what the last of
  -- them left; and every thread that has returned is among them, with its reply.
  pub Reach-Serial :
      {s : System}
      → Reach calls bytes s
      → ((sh : Shared) × Serial calls (idle_memory bytes) s.log sh
          × (s.shared.locked ≡ false → s.shared ≡ sh))
        × ((i : ℕ) (r : Reply) → s.at i ≡ returned r → Logged i r s.log)
  Reach-Serial r = (Inv-Done (Reach-Inv r), Reach-Logged r)

  -- When any number of threads read and write the shared kilobyte, interleaved in any way, and every
  -- caller's memory has the place of the bytes that are copied: never are two of them in their
  -- copies at the same time; and as long as some thread has not returned, some thread can make a step.
  pub Reach-exclusive_progress :
      {s : System}
      → Reach calls bytes s
      → ((i j k l : ℕ) (u v : List ℕ) → s.at i ≡ copying k u → s.at j ≡ copying l v → i ≡ j)
        × ((i : ℕ) → ((r : Reply) × (s.at i ≡ returned r)) ⊎ ((t : System) × Step calls s t))
  Reach-exclusive_progress r =
      let inv = Reach-Inv r in (λ i j k l u v a b. Inv-alone i j inv a b, λ i. Inv-Step i inv)
