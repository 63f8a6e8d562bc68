-- ===== src/Tests/Starved.antt =====
-- np-nc/ with four producers and four consumers, by a schedule.
use linux_driver.Base.{
  ℕ, zero, suc, ◌+◌, ◌<◌, ◌≤◌, ◌≡◌, refl, Option, none, some, List, length, ◌⊎◌, ◌≢◌, inl, inr,
  replicate, arith,
}
use linux_driver.NpNc.{
  Memory, Pc, test, wait, lock, touch, advance, unlock, signal, tally, bump, stop, Produces,
  Consumes, System, np_nc_init, Step, Reach,
}
use linux_driver.NpNc.Counter.{uncounted, needed, Reach-cflag}
use linux_driver.NpNc.Starved.{ConsumersEnded, Later, Later-starved}

abbrev ring : List ℕ
ring = replicate 10 0

abbrev Reached : Type 0
Reached = (s : System) × Reach 4 ring s

abbrev Makes : Memory → (i : ℕ) → Pc → ℕ → Type 0
Makes m i p k = Option ((m' : Memory) × (q : Pc) × (k' : ℕ) × Produces i m p k m' q k')

abbrev take_s1 : (m : Memory) (i k n : ℕ) → n ≡ m.s1 → Makes m i wait k
take_s1 m i k zero e = none
take_s1 m i k (suc n) e = some (_, _, _, Produces.down_s1 (omega arith))

abbrev take_mutex : (m : Memory) (i k n : ℕ) → n ≡ m.mutex → Makes m i lock k
take_mutex m i k zero e = none
take_mutex m i k (suc n) e = some (_, _, _, Produces.down_mutex (omega arith))

-- The next step of a producer, if it has one.
abbrev make : (m : Memory) (i : ℕ) (p : Pc) (k : ℕ) → Makes m i p k
make m i test zero = some (_, _, _, Produces.finished)
make m i test (suc k) = some (_, _, _, Produces.again)
make m i wait k = take_s1 m i k m.s1 refl
make m i lock k = take_mutex m i k m.mutex refl
make m i touch k = some (_, _, _, Produces.store)
make m i advance k = some (_, _, _, Produces.next_in)
make m i unlock k = some (_, _, _, Produces.up_mutex)
make m i signal k = some (_, _, _, Produces.up_s2)
make m i tally k = some (_, _, _, Produces.count_down)
make m i (bump r) k = none
make m i stop k = none

abbrev Takes : Memory → Pc → Type 0
Takes m p = Option ((m' : Memory) × (q : Pc) × Consumes m p m' q)

abbrev take_s2 : (m : Memory) (n : ℕ) → n ≡ m.s2 → Takes m wait
take_s2 m zero e = none
take_s2 m (suc n) e = some (_, _, Consumes.down_s2 (omega arith))

abbrev enter : (m : Memory) (n : ℕ) → n ≡ m.mutex → Takes m lock
enter m zero e = none
enter m (suc n) e = some (_, _, Consumes.down_mutex (omega arith))

abbrev five? : (n : ℕ) → (n ≡ 5) ⊎ (n ≢ 5)
five? zero = inr (λ e. omega arith)
five? (suc zero) = inr (λ e. omega arith)
five? (suc (suc zero)) = inr (λ e. omega arith)
five? (suc (suc (suc zero))) = inr (λ e. omega arith)
five? (suc (suc (suc (suc zero)))) = inr (λ e. omega arith)
five? (suc (suc (suc (suc (suc zero))))) = inl refl
five? (suc (suc (suc (suc (suc (suc n)))))) = inr (λ e. omega arith)

abbrev look : (m : Memory) → (m.cflag ≡ 5) ⊎ (m.cflag ≢ 5) → Takes m test
look m (inl e) = some (_, _, Consumes.finished e)
look m (inr e) = some (_, _, Consumes.again e)

-- The next step of a consumer, if it has one.
abbrev take_one : (m : Memory) (p : Pc) → Takes m p
take_one m test = look m (five? m.cflag)
take_one m wait = take_s2 m m.s2 refl
take_one m lock = enter m m.mutex refl
take_one m touch = some (_, _, Consumes.fetch)
take_one m advance = some (_, _, Consumes.next_out)
take_one m unlock = some (_, _, Consumes.up_mutex)
take_one m signal = some (_, _, Consumes.up_s1)
take_one m tally = some (_, _, Consumes.read_cflag)
take_one m (bump r) = some (_, _, Consumes.write_cflag)
take_one m stop = none

abbrev after_make :
    (i : ℕ)
    → i < 4
    → (r : Reached) → Makes r.0.mem (i + 1) (r.0.producers i).pc (r.0.producers i).p_num
    → Reached
after_make i l r none = r
after_make i l r (some (_, _, _, mv)) = (_, Reach.later r.1 (Step.produce i l mv))

abbrev after_take : (i : ℕ) → i < 4 → (r : Reached) → Takes r.0.mem (r.0.consumers i) → Reached
after_take i l r none = r
after_take i l r (some (_, _, mv)) = (_, Reach.later r.1 (Step.consume i l mv))

-- Some steps of one thread.
abbrev makes : ℕ → (i : ℕ) → i < 4 → Reached → Reached
makes zero i l r = r
makes (suc n) i l r =
    makes n i l
      (after_make i l r (make r.0.mem (i + 1) (r.0.producers i).pc (r.0.producers i).p_num))

abbrev takes : ℕ → (i : ℕ) → i < 4 → Reached → Reached
takes zero i l r = r
takes (suc n) i l r = takes n i l (after_take i l r (take_one r.0.mem (r.0.consumers i)))

-- The first producer makes its five goods, the first consumer takes them all, and then every consumer
-- finds that `cflag` is 5.
unfoldable ran : Reached
unfolding np_nc_init
ran =
    let r1 : Reached = makes 45 0 (omega arith) (np_nc_init ring, Reach.start) in
    let r2 : Reached = takes 51 0 (omega arith) r1 in
    let r3 : Reached = takes 1 1 (omega arith) r2 in
    let r4 : Reached = takes 1 2 (omega arith) r3 in takes 1 3 (omega arith) r4

ran_consumed : length ran.0.mem.consumed ≡ 5
unfolding ran np_nc_init
ran_consumed = refl

ran-ConsumersEnded : ConsumersEnded 4 ran.0
unfolding ran np_nc_init
ran-ConsumersEnded zero l = refl
ran-ConsumersEnded (suc zero) l = refl
ran-ConsumersEnded (suc (suc zero)) l = refl
ran-ConsumersEnded (suc (suc (suc zero))) l = refl
ran-ConsumersEnded (suc (suc (suc (suc n)))) l = absurd (omega arith)

Later-starved_example :
    (ran.0.mem.consumed ≡ ran.0.mem.consumed) × ¬ ((i : ℕ) → i < 4 → (ran.0.producers i).pc ≡ stop)
Later-starved_example =
    Later-starved refl ran.1 ran-ConsumersEnded (omega (arith, ran_consumed)) Later.now

-- The consumer 2 has ended.
Reach-cflag_example :
    (ran.0.mem.cflag + uncounted 4 ran.0 ≤ length ran.0.mem.consumed)
    × (needed (ran.0.consumers 2) ≤ length ran.0.mem.consumed)
Reach-cflag_example = Reach-cflag ran.1 2
