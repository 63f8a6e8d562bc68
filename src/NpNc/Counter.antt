-- ===== src/NpNc/Counter.antt =====
-- np-nc/np-nc.c: `cflag`, which the consumers count up with nothing to protect it.
use mathlib.Core.Path.{subst}
use linux_driver.Base.{
  ℕ, ◌+◌, ◌≤◌, ◌≡◌, refl, sym, ap, List, [], ◌∷◌, length, length-append, arith, get_or, true, false,
  ◌==◌, if◌then◌else◌,
}
use linux_driver.NpNc.{
  Memory, Pc, test, wait, lock, touch, advance, unlock, signal, tally, bump, stop, Produces,
  Consumes, System, np_nc_init, Step, Reach, update,
}
use linux_driver.NpNc.Threads.{sum, sum-update, sum-zero, sum-member}
use linux_driver.NpNc.Starved.{Produces-consumed}

-- A consumer that has taken goods and has not counted them.
abbrev pub pending : Pc → ℕ
pending advance = 1
pending unlock = 1
pending signal = 1
pending tally = 1
pending (bump _) = 1
pending _ = 0

-- What a consumer knows: the value that it read is not too large, and five goods had been taken when
-- it ended.
abbrev Knows : (taken uncounted : ℕ) → Pc → Type 0
Knows n u (bump read) = read + u ≤ n
Knows n u stop = 5 ≤ n
Knows n u _ = Unit

-- A consumer's step: what it adds to the goods taken and not counted, and what it knows after it.
Consumes-Knows :
    {m m' : Memory} {p q : Pc} (u u' : ℕ)
    → Consumes m p m' q
    → u' + pending p ≡ u + pending q
    → pending p ≤ u
    → m.cflag + u ≤ length m.consumed
    → Knows (length m.consumed) u p
    → (m'.cflag + u' ≤ length m'.consumed) × Knows (length m'.consumed) u' q
Consumes-Knows u u' (Consumes.again _) e l h k = (omega arith, tt)
Consumes-Knows u u' (Consumes.finished c) e l h k = (omega arith, omega (arith, c))
Consumes-Knows u u' (Consumes.down_s2 _) e l h k = (omega arith, tt)
Consumes-Knows u u' (Consumes.down_mutex _) e l h k = (omega arith, tt)
Consumes-Knows {m} u u' Consumes.fetch e l h k =
    (omega (arith, length-append m.consumed (get_or m.buf m.out 0 ∷ [])), tt)
Consumes-Knows u u' Consumes.next_out e l h k = (omega arith, tt)
Consumes-Knows u u' Consumes.up_mutex e l h k = (omega arith, tt)
Consumes-Knows u u' Consumes.up_s1 e l h k = (omega arith, tt)
Consumes-Knows u u' Consumes.read_cflag e l h k = (omega arith, omega arith)
Consumes-Knows u u' Consumes.write_cflag e l h k = (omega arith, tt)

-- What a consumer takes and has not counted is taken.
Consumes-taken :
    {m m' : Memory} {p q : Pc} (u u' : ℕ)
    → Consumes m p m' q
    → u' + pending p ≡ u + pending q
    → (length m.consumed + u' ≤ length m'.consumed + u) × (length m.consumed ≤ length m'.consumed)
Consumes-taken u u' (Consumes.again _) e = omega arith
Consumes-taken u u' (Consumes.finished _) e = omega arith
Consumes-taken u u' (Consumes.down_s2 _) e = omega arith
Consumes-taken u u' (Consumes.down_mutex _) e = omega arith
Consumes-taken {m} u u' Consumes.fetch e =
    omega (arith, length-append m.consumed (get_or m.buf m.out 0 ∷ []))
Consumes-taken u u' Consumes.next_out e = omega arith
Consumes-taken u u' Consumes.up_mutex e = omega arith
Consumes-taken u u' Consumes.up_s1 e = omega arith
Consumes-taken u u' Consumes.read_cflag e = omega arith
Consumes-taken u u' Consumes.write_cflag e = omega arith

-- What the others know stays true.
Knows-later : (n n' u u' : ℕ) (r : Pc) → n + u' ≤ n' + u → n ≤ n' → Knows n u r → Knows n' u' r
Knows-later n n' u u' (bump read) more up k = omega arith
Knows-later n n' u u' stop more up k = omega arith
Knows-later n n' u u' test more up k = tt
Knows-later n n' u u' wait more up k = tt
Knows-later n n' u u' lock more up k = tt
Knows-later n n' u u' touch more up k = tt
Knows-later n n' u u' advance more up k = tt
Knows-later n n' u u' unlock more up k = tt
Knows-later n n' u u' signal more up k = tt
Knows-later n n' u u' tally more up k = tt

Produces-cflag :
    {i k k' : ℕ} {m m' : Memory} {p q : Pc} → Produces i m p k m' q k' → m'.cflag ≡ m.cflag
Produces-cflag Produces.again = refl
Produces-cflag Produces.finished = refl
Produces-cflag (Produces.down_s1 _) = refl
Produces-cflag (Produces.down_mutex _) = refl
Produces-cflag Produces.store = refl
Produces-cflag Produces.next_in = refl
Produces-cflag Produces.up_mutex = refl
Produces-cflag Produces.up_s2 = refl
Produces-cflag Produces.count_down = refl

module _ (n : ℕ) where
  -- How many consumers have taken goods that they have not counted.
  abbrev pub uncounted : System → ℕ
  uncounted s = sum n (λ j. pending (s.consumers j))

  record Counts (s : System) : Type 0 where
    counted : s.mem.cflag + uncounted s ≤ length s.mem.consumed
    knows : (i : ℕ) → Knows (length s.mem.consumed) (uncounted s) (s.consumers i)

  update-Knows :
      (f : ℕ → Pc) (i : ℕ) (q : Pc) (t u : ℕ)
      → Knows t u q
      → ((j : ℕ) → Knows t u (f j))
      → (j : ℕ) → Knows t u (update f i q j)
  update-Knows f i q t u k h j = elim (i == j) as (λ b. Knows t u (if b then q else f j)) [
    | true ↦ k
    | false ↦ h j
  ]

  Step-Counts : {s t : System} → Step n s t → Counts s → Counts t
  Step-Counts {s} (Step.produce i l mv) h = record {
    counted = omega (arith, h.counted, Produces-cflag mv, ap length (Produces-consumed mv));
    knows = λ j.
        subst (λ c. Knows (length c) (uncounted s) (s.consumers j)) (sym (Produces-consumed mv))
          (h.knows j);
  }
  Step-Counts {s} {t} (Step.consume i {m} {p} l mv) h =
      let moved = sum-update pending n s.consumers i p l in
      let within = sum-member n (λ j. pending (s.consumers j)) i l in
      let (counted, own) =
        Consumes-Knows (uncounted s) (uncounted t) mv moved within h.counted (h.knows i) in
      let (more, up) = Consumes-taken (uncounted s) (uncounted t) mv moved in
      record {
        counted = counted;
        knows =
            update-Knows s.consumers i p (length m.consumed) (uncounted t) own
              (λ j. Knows-later _ _ _ _ (s.consumers j) more up (h.knows j));
      }

  Reach-Counts : {buf : List ℕ} {s : System} → Reach n buf s → Counts s
  unfolding np_nc_init
  Reach-Counts Reach.start = record { counted = omega (arith, sum-zero n); knows = λ j. tt }
  Reach-Counts (Reach.later r st) = Step-Counts st (Reach-Counts r)

-- How many goods must have been taken before a consumer is there.
abbrev pub needed : Pc → ℕ
needed stop = 5
needed _ = 0

needed-Knows : (t u : ℕ) (q : Pc) → Knows t u q → needed q ≤ t
needed-Knows t u stop k = k
needed-Knows t u (bump read) k = omega arith
needed-Knows t u test k = omega arith
needed-Knows t u wait k = omega arith
needed-Knows t u lock k = omega arith
needed-Knows t u touch k = omega arith
needed-Knows t u advance k = omega arith
needed-Knows t u unlock k = omega arith
needed-Knows t u signal k = omega arith
needed-Knows t u tally k = omega arith

module _ {n : ℕ} {buf : List ℕ} {s : System} (r : Reach n buf s) where
  -- In every state that any number of producers and consumers reach, however they are interleaved:
  -- `cflag` plus the number of consumers that have taken goods and not yet counted them is at most
  -- the number of goods that were taken, although increments of `cflag` may be lost; and if the
  -- consumer `i` has ended, at least five goods were taken.
  pub Reach-cflag :
      (i : ℕ)
      → (s.mem.cflag + uncounted n s ≤ length s.mem.consumed)
        × (needed (s.consumers i) ≤ length s.mem.consumed)
  Reach-cflag i =
      let h = Reach-Counts n r in
      (h.counted, needed-Knows (length s.mem.consumed) (uncounted n s) (s.consumers i) (h.knows i))
