-- ===== src/Tests/Ring.antt =====
-- The producers and consumers of np-nc/ in one run.
use linux_driver.Base.{
  ℕ, ◌+◌, ◌%◌, ◌<◌, ◌≤◌, ◌*◌, ◌≡◌, ◌⊎◌, refl, List, [], ◌∷◌, length, take, get_or, replicate, arith,
}
use linux_driver.NpNc.{
  Memory, Pc, stop, Produces, Consumes, System, np_nc_init, Step, Reach, update,
}
use linux_driver.NpNc.Threads.{inside, sum}
use linux_driver.NpNc.Progress.{Stuck, Reach-no_deadlock}
use linux_driver.NpNc.Goods.{AreGoods, Reach-AreGoods}
use linux_driver.NpNc.Order.{Reach-exclusive_in_bounds, Reach-first_in_first_out}

abbrev ring : List ℕ
ring = replicate 10 0

-- One producer and one consumer.
produced_by :
    {s : System} {m : Memory} {p : Pc} {k : ℕ}
    → Reach 1 ring s
    → Produces 1 s.mem (s.producers 0).pc (s.producers 0).p_num m p k
    → Reach 1 ring
        (record s { mem = m; producers = update s.producers 0 (record { pc = p; p_num = k }) })
produced_by r mv = Reach.later r (Step.produce 0 (omega arith) mv)

consumed_by :
    {s : System} {m : Memory} {p : Pc}
    → Reach 1 ring s
    → Consumes s.mem (s.consumers 0) m p
    → Reach 1 ring (record s { mem = m; consumers = update s.consumers 0 p })
consumed_by r mv = Reach.later r (Step.consume 0 (omega arith) mv)

-- The producer puts its first goods into the ring, and the consumer takes them; it is still inside.
unfoldable ran : (s : System) × Reach 1 ring s
unfolding np_nc_init
ran =
    let r1 = produced_by Reach.start Produces.again in
    let r2 = produced_by r1 (Produces.down_s1 (omega arith)) in
    let r3 = produced_by r2 (Produces.down_mutex (omega arith)) in
    let r4 = produced_by r3 Produces.store in
    let r5 = produced_by r4 Produces.next_in in
    let r6 = produced_by r5 Produces.up_mutex in
    let r7 = produced_by r6 Produces.up_s2 in
    let r8 = consumed_by r7 (Consumes.again (λ e. omega arith)) in
    let r9 = consumed_by r8 (Consumes.down_s2 (omega arith)) in
    let r10 = consumed_by r9 (Consumes.down_mutex (omega arith)) in
    (_, consumed_by r10 Consumes.fetch)

ran_consumed : ran.0.mem.consumed ≡ 101 ∷ []
unfolding ran
ran_consumed = refl

Reach-first_in_first_out_example :
    let m = ran.0.mem in
    (take (length m.consumed) m.produced ≡ m.consumed)
    × (length m.consumed ≤ length m.produced)
    × (length m.produced ≤ length m.consumed + 10)
Reach-first_in_first_out_example = Reach-first_in_first_out refl ran.1

Reach-exclusive_in_bounds_example :
    let m = ran.0.mem in
    (m.mutex + sum 1 (λ j. inside (ran.0.producers j).pc) + sum 1 (λ j. inside (ran.0.consumers j))
      ≡ 1)
    × (m.in_ < 10)
    × (m.out < 10)
    × (length m.buf ≡ 10)
    × (m.s1 + m.s2 ≤ 10)
    × ((k : ℕ)
        → length m.consumed ≤ k
        → k < length m.produced
        → get_or m.buf (k % 10) 0 ≡ get_or m.produced k 0)
Reach-exclusive_in_bounds_example = Reach-exclusive_in_bounds refl ran.1

Reach-no_deadlock_example : ((t : System) × Step 1 ran.0 t) ⊎ Stuck 1 ran.0
Reach-no_deadlock_example = Reach-no_deadlock 1 ran.0 refl ran.1

Reach-AreGoods_example :
    let m = ran.0.mem in
    (length m.produced ≤ 1 * 5)
    × (((i : ℕ) → i < 1 → (ran.0.producers i).pc ≡ stop) → length m.produced ≡ 1 * 5)
    × AreGoods 1 m.produced
Reach-AreGoods_example = Reach-AreGoods refl ran.1
