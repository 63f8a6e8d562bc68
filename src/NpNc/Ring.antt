-- ===== src/NpNc/Ring.antt =====
-- np-nc/np-nc.c: what the ten places hold.
use linux_driver.Base.{
  ℕ, suc, ◌+◌, ◌-◌, ◌*◌, ◌%◌, ◌<◌, ◌≤◌, ◌≡◌, sym, ap, ap₂, ◌∙◌, [], ◌∷◌, ◌++◌, length, take, get_or,
  set, length-set, get_or-set, length-append, get_or-append, take-snoc, take-append_le, arith,
}
use linux_driver.NpNc.{Memory, Pc, Produces, Consumes, stored, fetched}
use linux_driver.NpNc.Threads.{Count, near, claims}
use linux_driver.NpNc.Invariant.{Ring, Counted}

stored-Ring :
    (i k : ℕ) (m : Memory)
    → Ring m
    → m.in_ < 10
    → m.in_ ≡ length m.produced % 10
    → length m.consumed ≤ length m.produced
    → length m.produced < length m.consumed + 10
    → Ring (stored i k m)
stored-Ring i k m r range at le lt = record {
  sized = omega (arith, length-set m.buf m.in_ v, r.sized);
  kept = λ j a b. ground (
    arith,
    more,
    r.kept j,
    r.sized,
    get_or-set m.buf m.in_ (j % 10) v 0,
    get_or-append m.produced (x ∷ []) j 0,
  );
  in_order = take-append_le (length m.consumed) m.produced (x ∷ []) le ∙ r.in_order;
}
  where
    v : ℕ
    v = i * 100 + (5 - k + 1)

    x : ℕ
    x = get_or (set m.buf m.in_ v) m.in_ 0

    more : length (m.produced ++ (x ∷ [])) ≡ length m.produced + 1
    more = omega (arith, length-append m.produced (x ∷ []))

fetched-Ring :
    (m : Memory)
    → Ring m
    → m.out ≡ length m.consumed % 10
    → length m.consumed < length m.produced
    → Ring (fetched m)
fetched-Ring m r at lt = record {
  sized = r.sized;
  kept = λ j a b. r.kept j (omega (arith, more)) b;
  in_order =
      ap (λ n. take n m.produced) more
      ∙ take-snoc (length m.consumed) m.produced 0 lt
      ∙ ap₂ ◌++◌ r.in_order (ap (λ y. y ∷ []) there);
}
  where
    x : ℕ
    x = get_or m.buf m.out 0

    there : get_or m.produced (length m.consumed) 0 ≡ x
    there = sym (r.kept (length m.consumed) (omega arith) lt) ∙ ap (λ j. get_or m.buf j 0) (sym at)

    more : length (m.consumed ++ (x ∷ [])) ≡ suc (length m.consumed)
    more = omega (arith, length-append m.consumed (x ∷ []))

pub Produces-Ring :
    {i k k' : ℕ} {m m' : Memory} {p q : Pc} {ps cs : Count}
    → Produces i m p k m' q k'
    → Counted m ps cs
    → near p ≤ ps.near
    → claims p ≤ ps.claims
    → Ring m
    → Ring m'
Produces-Ring {i} {k} {m} Produces.store c near_le claims_le r =
    stored-Ring i k m r c.in_range (omega (arith, c.in_at, c.one, c.in_range, near_le))
      (omega (arith, c.full)) (omega (arith, c.free, claims_le))
Produces-Ring mv c n l r = record { sized = r.sized; kept = r.kept; in_order = r.in_order }

pub Consumes-Ring :
    {m m' : Memory} {p q : Pc} {ps cs : Count}
    → Consumes m p m' q
    → Counted m ps cs
    → near p ≤ cs.near
    → claims p ≤ cs.claims
    → Ring m
    → Ring m'
Consumes-Ring {m} Consumes.fetch c near_le claims_le r =
    fetched-Ring m r (omega (arith, c.out_at, c.one, c.out_range, near_le))
      (omega (arith, c.full, claims_le))
Consumes-Ring mv c n l r = record { sized = r.sized; kept = r.kept; in_order = r.in_order }
