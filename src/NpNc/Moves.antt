-- ===== src/NpNc/Moves.antt =====
-- np-nc/np-nc.c: which threads can make a step.
use linux_driver.Base.{
  ℕ, zero, suc, ◌<◌, ◌≡◌, refl, sym, true, false, ◌==◌, if◌then◌else◌, List, arith, ◌⊎◌, inl, inr,
}
use mathlib.Core.Path.{subst}
use native.Mathlib.Decide.{dec_lt, ℕ_discrete}
use linux_driver.NpNc.{
  Memory, Pc, test, wait, lock, touch, advance, unlock, signal, tally, bump, stop, Produces,
  Consumes, Producer, System, np_nc_init, Step, Reach, update,
}
use linux_driver.NpNc.Threads.{near, moving, claims, owes}

-- A thread has ended, or it waits for a counting semaphore that is 0.
abbrev pub Rests : (semaphore : ℕ) → Pc → Type 0
Rests c p = (p ≡ stop) ⊎ ((p ≡ wait) × (c ≡ 0))

-- It rests, or it waits for the mutex.
abbrev pub Ready : (semaphore : ℕ) → Pc → Type 0
Ready c p = Rests c p ⊎ (p ≡ lock)

-- Producers do not count in `cflag`.
abbrev pub Plain : Pc → Type 0
Plain (bump _) = ⊥
Plain _ = Unit

abbrev pub Moves : Memory → (i : ℕ) → Pc → ℕ → Type 0
Moves m i p k = (m' : Memory) × (q : Pc) × (k' : ℕ) × Produces i m p k m' q k'

wait-Moves : (m : Memory) (i k : ℕ) → Rests m.s1 wait ⊎ Moves m i wait k
wait-Moves m i k = elim (dec_lt 0 m.s1) [
  | yes more ↦ inr (_, _, _, Produces.down_s1 more)
  | no none ↦ inl (inr (refl, omega arith))
]

-- A producer that neither rests nor waits for the mutex can go on.
pub producer-Moves : (m : Memory) (i k : ℕ) (p : Pc) → Plain p → Ready m.s1 p ⊎ Moves m i p k
producer-Moves m i zero test a = inr (_, _, _, Produces.finished)
producer-Moves m i (suc k) test a = inr (_, _, _, Produces.again)
producer-Moves m i k wait a = elim (wait-Moves m i k) [ inl r ↦ inl (inl r) | inr mv ↦ inr mv ]
producer-Moves m i k lock a = inl (inr refl)
producer-Moves m i k touch a = inr (_, _, _, Produces.store)
producer-Moves m i k advance a = inr (_, _, _, Produces.next_in)
producer-Moves m i k unlock a = inr (_, _, _, Produces.up_mutex)
producer-Moves m i k signal a = inr (_, _, _, Produces.up_s2)
producer-Moves m i k tally a = inr (_, _, _, Produces.count_down)
producer-Moves m i k (bump r) a = elim a [ ]
producer-Moves m i k stop a = inl (inl (inl refl))

abbrev pub Goes : Memory → Pc → Type 0
Goes m p = (m' : Memory) × (q : Pc) × Consumes m p m' q

test-Goes : (m : Memory) → Goes m test
test-Goes m = elim (ℕ_discrete m.cflag 5) [
  | yes all ↦ (_, _, Consumes.finished all)
  | no more ↦ (_, _, Consumes.again more)
]

wait-Goes : (m : Memory) → Rests m.s2 wait ⊎ Goes m wait
wait-Goes m = elim (dec_lt 0 m.s2) [
  | yes more ↦ inr (_, _, Consumes.down_s2 more)
  | no none ↦ inl (inr (refl, omega arith))
]

pub consumer-Goes : (m : Memory) (p : Pc) → Ready m.s2 p ⊎ Goes m p
consumer-Goes m test = inr (test-Goes m)
consumer-Goes m wait = elim (wait-Goes m) [ inl r ↦ inl (inl r) | inr mv ↦ inr mv ]
consumer-Goes m lock = inl (inr refl)
consumer-Goes m touch = inr (_, _, Consumes.fetch)
consumer-Goes m advance = inr (_, _, Consumes.next_out)
consumer-Goes m unlock = inr (_, _, Consumes.up_mutex)
consumer-Goes m signal = inr (_, _, Consumes.up_s1)
consumer-Goes m tally = inr (_, _, Consumes.read_cflag)
consumer-Goes m (bump r) = inr (_, _, Consumes.write_cflag)
consumer-Goes m stop = inl (inl (inl refl))

Produces-Plain : {i k k' : ℕ} {m m' : Memory} {p q : Pc} → Produces i m p k m' q k' → Plain q
Produces-Plain Produces.again = tt
Produces-Plain Produces.finished = tt
Produces-Plain (Produces.down_s1 _) = tt
Produces-Plain (Produces.down_mutex _) = tt
Produces-Plain Produces.store = tt
Produces-Plain Produces.next_in = tt
Produces-Plain Produces.up_mutex = tt
Produces-Plain Produces.up_s2 = tt
Produces-Plain Produces.count_down = tt

update-Plain :
    (f : ℕ → Producer) (i : ℕ) (a : Producer)
    → ((j : ℕ) → Plain (f j).pc)
    → Plain a.pc
    → (j : ℕ) → Plain (update f i a j).pc
update-Plain f i a h p j = elim (i == j) as (λ b. Plain (if b then a else f j).pc) [
  | true ↦ p
  | false ↦ h j
]

pub Reach-Plain :
    {n : ℕ} {buf : List ℕ} {s : System} → Reach n buf s → (i : ℕ) → Plain (s.producers i).pc
unfolding np_nc_init
Reach-Plain Reach.start i = tt
Reach-Plain (Reach.later {s} r (Step.produce j l mv)) i =
    update-Plain s.producers j _ (Reach-Plain r) (Produces-Plain mv) i
Reach-Plain (Reach.later r (Step.consume j l mv)) i = Reach-Plain r i

pub Rests-near : {c : ℕ} {p : Pc} → Ready c p → (near p ≡ 0) × (moving p ≡ 0)
Rests-near h = ground arith

pub Rests-owes : {c : ℕ} {p : Pc} → Rests c p → (claims p ≡ 0) × (owes p ≡ 0)
Rests-owes h = ground arith

-- With the mutex free, a thread that waits for it can take it.
pub lock-Moves : (m : Memory) (i k : ℕ) (p : Pc) → 0 < m.mutex → p ≡ lock → Moves m i p k
lock-Moves m i k p free e = subst (λ p. Moves m i p k) (sym e) (_, _, _, Produces.down_mutex free)

pub lock-Goes : (m : Memory) (p : Pc) → 0 < m.mutex → p ≡ lock → Goes m p
lock-Goes m p free e = subst (Goes m) (sym e) (_, _, Consumes.down_mutex free)
