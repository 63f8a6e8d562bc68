-- ===== src/NpNc/Progress.antt =====
-- np-nc/np-nc.c: where the threads can get stuck.
use native.Mathlib.Decide.{ℕ_discrete}
use linux_driver.Base.{ℕ, ◌+◌, ◌<◌, ◌≡◌, ◌≢◌, List, length, arith, ◌⊎◌, inl, inr}
use linux_driver.NpNc.{Memory, Pc, stop, System, Step, Reach}
use linux_driver.NpNc.Threads.{near, moving, claims, owes, sum-none, each_or}
use linux_driver.NpNc.Order.{Inv, Reach-Inv}
use linux_driver.NpNc.Moves.{
  Rests, Ready, Plain, producer-Moves, consumer-Goes, Reach-Plain, Rests-near, Rests-owes,
  lock-Moves, lock-Goes,
}

module _ (n : ℕ) (s : System) where
  abbrev m : Memory
  m = s.mem

  abbrev pub Runs : Type 0
  Runs = (t : System) × Step n s t

  -- What holds of every thread and the count it waits for.
  abbrev Waits : (ℕ → Pc → Type 0) → Type 0
  Waits P =
      ((i : ℕ) → i < n → P m.s1 (s.producers i).pc) × ((i : ℕ) → i < n → P m.s2 (s.consumers i))

  both :
      (P : ℕ → Pc → Type 0)
      → ((i : ℕ) → i < n → P m.s1 (s.producers i).pc ⊎ Runs)
      → ((i : ℕ) → i < n → P m.s2 (s.consumers i) ⊎ Runs)
      → Waits P ⊎ Runs
  both P f g = elim (each_or {P = λ i. P m.s1 (s.producers i).pc} n f) [
    | inr runs ↦ inr runs
    | inl ps ↦ elim (each_or {P = λ i. P m.s2 (s.consumers i)} n g) [
      | inr runs ↦ inr runs
      | inl cs ↦ inl (ps, cs)
    ]
  ]

  Waits-Runs : ((i : ℕ) → Plain (s.producers i).pc) → Waits Ready ⊎ Runs
  Waits-Runs h =
      both Ready
        (λ i l. elim (producer-Moves m (i + 1) (s.producers i).p_num (s.producers i).pc (h i)) [
          | inl w ↦ inl w
          | inr (_, _, _, mv) ↦ inr (_, Step.produce i l mv)
        ])
        (λ i l. elim (consumer-Goes m (s.consumers i)) [
          | inl w ↦ inl w
          | inr (_, _, mv) ↦ inr (_, Step.consume i l mv)
        ])

  mutex_free : Inv n s → Waits Ready → m.mutex ≡ 1
  mutex_free inv (ps, cs) = omega (
    arith,
    inv.counted.one,
    sum-none n (λ j. near (s.producers j).pc) (λ j l. (Rests-near (ps j l)).0),
    sum-none n (λ j. moving (s.producers j).pc) (λ j l. (Rests-near (ps j l)).1),
    sum-none n (λ j. near (s.consumers j)) (λ j l. (Rests-near (cs j l)).0),
    sum-none n (λ j. moving (s.consumers j)) (λ j l. (Rests-near (cs j l)).1),
  )

  Rests-Runs : Inv n s → Waits Ready → Waits Rests ⊎ Runs
  Rests-Runs inv (ps, cs) =
      let free : 0 < m.mutex = omega (arith, mutex_free inv (ps, cs)) in
      both Rests
        (λ i l. elim (ps i l) [
          | inl r ↦ inl r
          | inr e ↦
              let (_, _, _, mv) = lock-Moves m (i + 1) (s.producers i).p_num _ free e in
              inr (_, Step.produce i l mv)
        ])
        (λ i l. elim (cs i l) [
          | inl r ↦ inl r
          | inr e ↦ let (_, _, mv) = lock-Goes m _ free e in inr (_, Step.consume i l mv)
        ])

  -- Were both counts 0, the ring would be empty and full.
  not_both : Inv n s → Waits Rests → m.s1 ≡ 0 → m.s2 ≡ 0 → ⊥
  not_both inv (ps, cs) a b = omega (
    arith,
    inv.counted.full,
    inv.counted.free,
    sum-none n (λ j. claims (s.producers j).pc) (λ j l. (Rests-owes (ps j l)).0),
    sum-none n (λ j. owes (s.producers j).pc) (λ j l. (Rests-owes (ps j l)).1),
    sum-none n (λ j. claims (s.consumers j)) (λ j l. (Rests-owes (cs j l)).0),
    sum-none n (λ j. owes (s.consumers j)) (λ j l. (Rests-owes (cs j l)).1),
  )

  -- Nobody can go on, and one kind of threads has ended.
  abbrev pub Stuck : Type 0
  Stuck =
      (((i : ℕ) → i < n → (s.producers i).pc ≡ stop)
        × ((i : ℕ) → i < n → Rests m.s2 (s.consumers i)))
      ⊎ (((i : ℕ) → i < n → Rests m.s1 (s.producers i).pc)
          × ((i : ℕ) → i < n → s.consumers i ≡ stop))

  Rests-stop : {c : ℕ} {p : Pc} → Rests c p → c ≢ 0 → p ≡ stop
  Rests-stop (inl e) z = e
  Rests-stop (inr (_, e)) z = elim (z e) [ ]

  Waits-Stuck : Inv n s → Waits Rests → Stuck
  Waits-Stuck inv (ps, cs) = elim (ℕ_discrete m.s1 0) [
    | no more ↦ inl (λ i l. Rests-stop (ps i l) more, cs)
    | yes none ↦ inr (ps, λ i l. Rests-stop (cs i l) (not_both inv (ps, cs) none))
  ]

  -- In every state that any number of producers and consumers reach over a ring of ten places,
  -- however they are interleaved, either some thread can make its next step, or every thread has
  -- ended or waits for its counting semaphore, which is 0, and then all the producers have ended or
  -- all the consumers have: a producer and a consumer never block each other for good, and nobody
  -- is stuck at the mutex.
  pub Reach-no_deadlock : {buf : List ℕ} → length buf ≡ 10 → Reach n buf s → Runs ⊎ Stuck
  Reach-no_deadlock e r =
      let inv = Reach-Inv n e r in
      elim (Waits-Runs (Reach-Plain r)) [
        | inr runs ↦ inl runs
        | inl ready ↦ elim (Rests-Runs inv ready) [
          | inr runs ↦ inl runs
          | inl rest ↦ inr (Waits-Stuck inv rest)
        ]
      ]
