-- ===== src/NpNc/Order.antt =====
-- np-nc/np-nc.c: mutual exclusion, the bounds of the ring and the order of the goods, in every
-- state that the threads can reach.
use linux_driver.Base.{ℕ, ◌+◌, ◌%◌, ◌<◌, ◌≤◌, ◌≡◌, refl, List, length, take, get_or, arith}
use linux_driver.NpNc.{Memory, Pc, Producer, System, np_nc_init, Step, Reach}
use linux_driver.NpNc.Threads.{
  count, count-update, near, moving, claims, inside, sum, sum-zero, sum-member, sum-add,
}
use linux_driver.NpNc.Invariant.{Ring, Counted, Produces-Counted, Consumes-Counted}
use linux_driver.NpNc.Ring.{Produces-Ring, Consumes-Ring}

abbrev pub at : Producer → Pc
at p = p.pc

module _ (n : ℕ) where
  pub record Inv (s : System) : Type 0 where
    pub counted : Counted s.mem (count at n s.producers) (count (λ p. p) n s.consumers)
    pub ring : Ring s.mem

  init-Inv : (buf : List ℕ) → length buf ≡ 10 → Inv (np_nc_init buf)
  unfolding np_nc_init
  init-Inv buf e = record {
    counted = record {
      one = omega (arith, sum-zero n);
      full = omega (arith, sum-zero n);
      free = omega (arith, sum-zero n);
      in_range = omega arith;
      out_range = omega arith;
      in_at = omega (arith, sum-zero n);
      out_at = omega (arith, sum-zero n);
    };
    ring = record { sized = e; kept = λ k a b. absurd (omega arith); in_order = refl };
  }

  Step-Inv : {s t : System} → Step n s t → Inv s → Inv t
  Step-Inv {s} (Step.produce i l mv) inv = record {
    counted = Produces-Counted mv inv.counted (count-update at n s.producers i _ l);
    ring =
        Produces-Ring mv inv.counted (sum-member n (λ j. near (at (s.producers j))) i l)
          (sum-member n (λ j. claims (at (s.producers j))) i l) inv.ring;
  }
  Step-Inv {s} (Step.consume i l mv) inv = record {
    counted = Consumes-Counted mv inv.counted (count-update (λ p. p) n s.consumers i _ l);
    ring =
        Consumes-Ring mv inv.counted (sum-member n (λ j. near (s.consumers j)) i l)
          (sum-member n (λ j. claims (s.consumers j)) i l) inv.ring;
  }

  pub Reach-Inv : {buf : List ℕ} {s : System} → length buf ≡ 10 → Reach n buf s → Inv s
  Reach-Inv e Reach.start = init-Inv _ e
  Reach-Inv e (Reach.later r step) = Step-Inv step (Reach-Inv e r)

module _ {n : ℕ} {buf : List ℕ} {s : System} (sized : length buf ≡ 10) (r : Reach n buf s) where
  abbrev m : Memory
  m = s.mem

  -- In every state that any number of producers and consumers reach over a ring of ten places,
  -- however they are interleaved, at most one of them is between `down(&mutex)` and `up(&mutex)`,
  -- and none is exactly when the mutex is free.
  pub Reach-exclusive :
      m.mutex + sum n (λ j. inside (s.producers j).pc) + sum n (λ j. inside (s.consumers j)) ≡ 1
  Reach-exclusive = omega (
    arith,
    (Reach-Inv n sized r).counted.one,
    sum-add n (λ j. near (s.producers j).pc) (λ j. moving (s.producers j).pc),
    sum-add n (λ j. near (s.consumers j)) (λ j. moving (s.consumers j)),
  )

  -- In every state that any number of producers and consumers reach over a ring of ten places,
  -- however they are interleaved, the ring is a queue: the goods that were consumed are the first
  -- ones that were produced, in the same order, with none lost, repeated or changed; and never more
  -- than ten wait.
  pub Reach-first_in_first_out :
      (take (length m.consumed) m.produced ≡ m.consumed)
      × (length m.consumed ≤ length m.produced)
      × (length m.produced ≤ length m.consumed + 10)
  Reach-first_in_first_out =
      let inv = Reach-Inv n sized r in
      (inv.ring.in_order, omega (arith, inv.counted.full), omega (arith, inv.counted.free))

  -- In every state that they reach over a ring of ten places, neither index leaves the ring, the
  -- counts of the two semaphores add up to at most ten, and each of the goods that wait stands in
  -- the place of its number modulo ten.
  pub Reach-in_bounds :
      (m.in_ < 10)
      × (m.out < 10)
      × (length m.buf ≡ 10)
      × (m.s1 + m.s2 ≤ 10)
      × ((k : ℕ)
          → length m.consumed ≤ k
          → k < length m.produced
          → get_or m.buf (k % 10) 0 ≡ get_or m.produced k 0)
  Reach-in_bounds =
      let inv = Reach-Inv n sized r in
      let c = inv.counted in
      (c.in_range, c.out_range, inv.ring.sized, omega (arith, c.full, c.free), inv.ring.kept)

  -- In every state that any number of producers and consumers reach over a ring of ten places,
  -- however they are interleaved: at most one of them is between `down(&mutex)` and `up(&mutex)`,
  -- and none is exactly when the mutex is free; neither index leaves the ring, the counts of the two
  -- semaphores add up to at most ten, and each of the goods that wait stands in the place of its
  -- number modulo ten.
  pub Reach-exclusive_in_bounds :
      (m.mutex + sum n (λ j. inside (s.producers j).pc) + sum n (λ j. inside (s.consumers j)) ≡ 1)
      × (m.in_ < 10)
      × (m.out < 10)
      × (length m.buf ≡ 10)
      × (m.s1 + m.s2 ≤ 10)
      × ((k : ℕ)
          → length m.consumed ≤ k
          → k < length m.produced
          → get_or m.buf (k % 10) 0 ≡ get_or m.produced k 0)
  Reach-exclusive_in_bounds =
      let (a, b, c, d, e) = Reach-in_bounds in (Reach-exclusive, a, b, c, d, e)
