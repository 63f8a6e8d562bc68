-- ===== src/NpNc/Invariant.antt =====
-- np-nc/np-nc.c: what holds whenever the threads are interleaved, and that every step keeps it.
use linux_driver.Base.{
  ℕ, ◌+◌, ◌%◌, ◌<◌, ◌≤◌, ◌≡◌, [], ◌∷◌, length, take, get_or, length-append, arith,
}
use linux_driver.NpNc.{Memory, Pc, Produces, Consumes, stored}
use linux_driver.NpNc.Threads.{Count, Moved}

-- The ring holds the goods that were produced and not yet consumed, each in the place of its number
-- modulo ten; what was consumed is what was produced first.
pub record Ring (m : Memory) : Type 0 where
  pub sized : length m.buf ≡ 10
  pub kept :
      (k : ℕ)
      → length m.consumed ≤ k
      → k < length m.produced
      → get_or m.buf (k % 10) 0 ≡ get_or m.produced k 0
  pub in_order : take (length m.consumed) m.produced ≡ m.consumed

-- The semaphores' counts and the indices, with the numbers of producers and consumers in each part.
pub record Counted (m : Memory) (p c : Count) : Type 0 where
  pub one : m.mutex + (p.near + p.moving) + (c.near + c.moving) ≡ 1
  pub full : m.s2 + c.claims + p.owes + length m.consumed ≡ length m.produced
  pub free : m.s1 + p.claims + c.owes + length m.produced ≡ length m.consumed + 10
  pub in_range : m.in_ < 10
  pub out_range : m.out < 10
  pub in_at : (m.in_ + p.moving) % 10 ≡ length m.produced % 10
  pub out_at : (m.out + c.moving) % 10 ≡ length m.consumed % 10

abbrev ProducesGuard : {i k k' : ℕ} {m m' : Memory} {p q : Pc} → Produces i m p k m' q k' → Type 0
ProducesGuard {m} (Produces.down_s1 _) = 0 < m.s1
ProducesGuard {m} (Produces.down_mutex _) = 0 < m.mutex
ProducesGuard _ = Unit

produces_guard :
    {i k k' : ℕ} {m m' : Memory} {p q : Pc} (mv : Produces i m p k m' q k') → ProducesGuard mv
produces_guard (Produces.down_s1 g) = g
produces_guard (Produces.down_mutex g) = g
produces_guard _ = tt

pub Produces-Counted :
    {i k k' : ℕ} {m m' : Memory} {p q : Pc} {ps ps' cs : Count}
    → Produces i m p k m' q k'
    → Counted m ps cs
    → Moved p q ps ps'
    → Counted m' ps' cs
Produces-Counted {i} {k} {m} Produces.store inv f =
    let more = length-append m.produced (get_or (stored i k m).buf m.in_ 0 ∷ []) in
    record {
      one = ground (arith, f, inv);
      full = ground (arith, f, inv, more);
      free = ground (arith, f, inv, more);
      in_range = inv.in_range;
      out_range = inv.out_range;
      in_at = ground (arith, f, inv, more);
      out_at = inv.out_at;
    }
Produces-Counted mv inv f = record {
  one = ground (arith, produces_guard mv, f, inv);
  full = ground (arith, produces_guard mv, f, inv);
  free = ground (arith, produces_guard mv, f, inv);
  in_range = ground (arith, inv);
  out_range = ground (arith, inv);
  in_at = ground (arith, f, inv);
  out_at = ground (arith, f, inv);
}

abbrev ConsumesGuard : {m m' : Memory} {p q : Pc} → Consumes m p m' q → Type 0
ConsumesGuard {m} (Consumes.down_s2 _) = 0 < m.s2
ConsumesGuard {m} (Consumes.down_mutex _) = 0 < m.mutex
ConsumesGuard _ = Unit

consumes_guard : {m m' : Memory} {p q : Pc} (mv : Consumes m p m' q) → ConsumesGuard mv
consumes_guard (Consumes.down_s2 g) = g
consumes_guard (Consumes.down_mutex g) = g
consumes_guard _ = tt

pub Consumes-Counted :
    {m m' : Memory} {p q : Pc} {ps cs cs' : Count}
    → Consumes m p m' q
    → Counted m ps cs
    → Moved p q cs cs'
    → Counted m' ps cs'
Consumes-Counted {m} Consumes.fetch inv f =
    let more = length-append m.consumed (get_or m.buf m.out 0 ∷ []) in
    record {
      one = ground (arith, f, inv);
      full = ground (arith, f, inv, more);
      free = ground (arith, f, inv, more);
      in_range = inv.in_range;
      out_range = inv.out_range;
      in_at = inv.in_at;
      out_at = ground (arith, f, inv, more);
    }
Consumes-Counted mv inv f = record {
  one = ground (arith, consumes_guard mv, f, inv);
  full = ground (arith, consumes_guard mv, f, inv);
  free = ground (arith, consumes_guard mv, f, inv);
  in_range = ground (arith, inv);
  out_range = ground (arith, inv);
  in_at = ground (arith, f, inv);
  out_at = ground (arith, f, inv);
}
