-- ===== src/NpNc/Goods.antt =====
-- np-nc/np-nc.c: how many goods there are, and which.
use mathlib.Core.Path.{subst}
use native.Mathlib.Decide.{dec_lt}
use linux_driver.Base.{
  ℕ, ◌+◌, ◌-◌, ◌*◌, ◌<◌, ◌≤◌, ◌≡◌, refl, List, [], ◌∷◌, ◌++◌, length, length-append, get_or,
  get_or-append, get_or-set, set, arith, sym, ◌==◌, if◌then◌else◌, true, false, ap, ◌∙◌, ◌⊎◌, inl,
  inr,
}
use linux_driver.NpNc.{
  Memory, Pc, test, advance, unlock, signal, tally, stop, Produces, Consumes, Producer, System,
  np_nc_init, pnum, Step, Reach, update,
}
use linux_driver.NpNc.Threads.{sum, sum-update, sum-zero, sum_le, sum_all}
use linux_driver.NpNc.Order.{Reach-Inv}

-- Behind the access to `buf` and before the count.
abbrev past : Pc → ℕ
past advance = 1
past unlock = 1
past signal = 1
past tally = 1
past _ = 0

-- How many goods a producer has stored, going by where it stands and by its `p_num`.
abbrev made : Producer → ℕ
made a = pnum - a.p_num + past a.pc

-- The values that `p_num` can have there.
abbrev Turn : Pc → (p_num : ℕ) → Type 0
Turn test k = k ≤ 5
Turn stop k = k ≡ 0
Turn _ k = (0 < k) × (k ≤ 5)

Produces-Turn :
    {i k k' : ℕ} {m m' : Memory} {p q : Pc} → Produces i m p k m' q k' → Turn p k → Turn q k'
Produces-Turn Produces.again t = (omega arith, t)
Produces-Turn Produces.finished t = refl
Produces-Turn (Produces.down_s1 _) t = t
Produces-Turn (Produces.down_mutex _) t = t
Produces-Turn Produces.store t = t
Produces-Turn Produces.next_in t = t
Produces-Turn Produces.up_mutex t = t
Produces-Turn Produces.up_s2 t = t
Produces-Turn Produces.count_down t = omega arith

-- One of the goods of producer `i + 1`, where `p_num` is `k`.
abbrev good : (i k : ℕ) → ℕ
good i k = (i + 1) * 100 + (pnum - k + 1)

stands : (b : List ℕ) (i v : ℕ) → i < length b → get_or (set b i v) i 0 ≡ v
stands b i v l = ground (arith, get_or-set b i i v 0)

-- A producer's step adds at most one to the goods, and counts it.
record Adds (i k : ℕ) (m m' : Memory) (before after : ℕ) : Type 0 where
  count : after + length m.produced ≡ before + length m'.produced
  goods : (m'.produced ≡ m.produced) ⊎ ((m'.produced ≡ m.produced ++ (good i k ∷ [])) × (0 < k))

Produces-Adds :
    {i k k' : ℕ} {m m' : Memory} {p q : Pc}
    → Produces (i + 1) m p k m' q k'
    → m.in_ < length m.buf
    → Turn p k
    → Adds i k m m' (made (record { pc = p; p_num = k })) (made (record { pc = q; p_num = k' }))
Produces-Adds {i} {k} {m} Produces.store l t = record {
  count =
      omega (arith, length-append m.produced (get_or (set m.buf m.in_ (good i k)) m.in_ 0 ∷ []));
  goods = inr (ap (λ g. m.produced ++ (g ∷ [])) (stands m.buf m.in_ (good i k) l), omega arith);
}
Produces-Adds Produces.again l t = record { count = omega arith; goods = inl refl }
Produces-Adds Produces.finished l t = record { count = omega arith; goods = inl refl }
Produces-Adds (Produces.down_s1 _) l t = record { count = omega arith; goods = inl refl }
Produces-Adds (Produces.down_mutex _) l t = record { count = omega arith; goods = inl refl }
Produces-Adds Produces.next_in l t = record { count = omega arith; goods = inl refl }
Produces-Adds Produces.up_mutex l t = record { count = omega arith; goods = inl refl }
Produces-Adds Produces.up_s2 l t = record { count = omega arith; goods = inl refl }
Produces-Adds Produces.count_down l t = record { count = omega arith; goods = inl refl }

Consumes-keeps : {m m' : Memory} {p q : Pc} → Consumes m p m' q → m'.produced ≡ m.produced
Consumes-keeps (Consumes.again _) = refl
Consumes-keeps (Consumes.finished _) = refl
Consumes-keeps (Consumes.down_s2 _) = refl
Consumes-keeps (Consumes.down_mutex _) = refl
Consumes-keeps Consumes.fetch = refl
Consumes-keeps Consumes.next_out = refl
Consumes-keeps Consumes.up_mutex = refl
Consumes-keeps Consumes.up_s1 = refl
Consumes-keeps Consumes.read_cflag = refl
Consumes-keeps Consumes.write_cflag = refl

-- A hundred times the number of a producer, from 1 to `n`, and a number from 1 to 5.
abbrev pub IsGood : (n g : ℕ) → Type 0
IsGood n g = (i : ℕ) × (j : ℕ) × (i < n) × (j < 5) × (g ≡ (i + 1) * 100 + (j + 1))

abbrev pub AreGoods : (n : ℕ) → List ℕ → Type 0
AreGoods n l = (k : ℕ) → k < length l → IsGood n (get_or l k 0)

get_or-snoc : (l : List ℕ) (g : ℕ) → get_or (l ++ (g ∷ [])) (length l) 0 ≡ g
get_or-snoc [] g = refl
get_or-snoc (x ∷ l) g = get_or-snoc l g

AreGoods-snoc : (n g : ℕ) (l : List ℕ) → AreGoods n l → IsGood n g → AreGoods n (l ++ (g ∷ []))
AreGoods-snoc n g l h e k b = elim (dec_lt k (length l)) [
  | yes below ↦ subst (IsGood n) (ground (arith, get_or-append l (g ∷ []) k 0)) (h k below)
  | no last ↦
      let at : k ≡ length l = omega (arith, length-append l (g ∷ [])) in
      subst (IsGood n) (sym (ap (λ k. get_or (l ++ (g ∷ [])) k 0) at ∙ get_or-snoc l g)) e
]

Turn-made : (p : Pc) (k : ℕ) → Turn p k → made (record { pc = p; p_num = k }) ≤ 5
Turn-made p k t = grind arith

stop-made : (p : Pc) (k : ℕ) → p ≡ stop → Turn p k → made (record { pc = p; p_num = k }) ≡ 5
stop-made p k e t = grind arith

record Goods (n : ℕ) (s : System) : Type 0 where
  turns : (i : ℕ) → Turn (s.producers i).pc (s.producers i).p_num
  total : length s.mem.produced ≡ sum n (λ j. made (s.producers j))
  each : AreGoods n s.mem.produced

update-Turn :
    (f : ℕ → Producer) (i : ℕ) (a : Producer)
    → ((j : ℕ) → Turn (f j).pc (f j).p_num)
    → Turn a.pc a.p_num
    → (j : ℕ) → Turn (update f i a j).pc (update f i a j).p_num
update-Turn f i a h t j =
    elim (i == j) as (λ b. let p = if b then a else f j in Turn p.pc p.p_num) [
      | true ↦ t
      | false ↦ h j
    ]

Adds-AreGoods :
    {n i k : ℕ} {m m' : Memory} {b a : ℕ}
    → i < n
    → Adds i k m m' b a
    → AreGoods n m.produced
    → AreGoods n m'.produced
Adds-AreGoods {n} {i} {k} {m} l h e = elim h.goods [
  | inl same ↦ subst (AreGoods n) (sym same) e
  | inr (more, some_left) ↦
      subst (AreGoods n) (sym more)
        (AreGoods-snoc n (good i k) m.produced e (i, pnum - k, l, omega arith, refl))
]

Step-Goods :
    {n : ℕ} {s t : System} → s.mem.in_ < length s.mem.buf → Step n s t → Goods n s → Goods n t
Step-Goods {n} {s} b (Step.produce i {p} {k} l mv) h =
    let t = h.turns i in
    let adds = Produces-Adds mv b t in
    record {
      turns = update-Turn s.producers i _ h.turns (Produces-Turn mv t);
      total = omega (
        arith,
        h.total,
        adds.count,
        sum-update made n s.producers i (record { pc = p; p_num = k }) l,
      );
      each = Adds-AreGoods l adds h.each;
    }
Step-Goods {n} b (Step.consume i l mv) h = record {
  turns = h.turns;
  total = omega (arith, h.total, ap length (Consumes-keeps mv));
  each = subst (AreGoods n) (sym (Consumes-keeps mv)) h.each;
}

Reach-Goods : {n : ℕ} {buf : List ℕ} {s : System} → length buf ≡ 10 → Reach n buf s → Goods n s
unfolding np_nc_init
Reach-Goods {n} e Reach.start = record {
  turns = λ i. omega arith;
  total = omega (arith, sum-zero n);
  each = λ k l. absurd (omega arith);
}
Reach-Goods {n} e (Reach.later r step) =
    let inv = Reach-Inv n e r in
    Step-Goods (omega (arith, inv.counted.in_range, inv.ring.sized)) step (Reach-Goods e r)

module _ {n : ℕ} {buf : List ℕ} {s : System} (sized : length buf ≡ 10) (r : Reach n buf s) where
  -- In every state that `n` producers and `n` consumers reach over a ring of ten places, however
  -- they are interleaved, at most five times `n` goods were produced, and exactly so many once every
  -- producer has ended; each was put together from the number of a producer, from 1 to `n`, as the
  -- hundreds and a number from 1 to 5.
  pub Reach-AreGoods :
      (length s.mem.produced ≤ n * 5)
      × (((i : ℕ) → i < n → (s.producers i).pc ≡ stop) → length s.mem.produced ≡ n * 5)
      × AreGoods n s.mem.produced
  Reach-AreGoods =
      let h = Reach-Goods sized r in
      (
        omega (
          arith,
          h.total,
          sum_le n 5 (λ j. made (s.producers j)) (λ j. Turn-made _ _ (h.turns j)),
        ),
        λ all. omega (
          arith,
          h.total,
          sum_all n 5 (λ j. made (s.producers j)) (λ j l. stop-made _ _ (all j l) (h.turns j)),
        ),
        h.each,
      )
