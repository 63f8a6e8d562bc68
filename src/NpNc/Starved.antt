-- ===== src/NpNc/Starved.antt =====
-- np-nc/np-nc.c: the consumers end when `cflag` is 5, however many goods there are to come.
use mathlib.Core.Path.{subst}
use linux_driver.Base.{ℕ, ◌+◌, ◌*◌, ◌<◌, ◌≡◌, refl, ap, ◌∙◌, List, length, arith}
use linux_driver.NpNc.{Memory, Pc, stop, Produces, Consumes, System, Step, Reach}
use linux_driver.NpNc.Order.{Reach-first_in_first_out}
use linux_driver.NpNc.Goods.{Reach-AreGoods}

-- The states that the threads reach from a state.
pub data Later (n : ℕ) (s : System) : System → Type 0 where
  now : Later n s s
  step : {t u : System} → Later n s t → Step n t u → Later n s u

abbrev pub ConsumersEnded : ℕ → System → Type 0
ConsumersEnded n s = (i : ℕ) → i < n → s.consumers i ≡ stop

pub Produces-consumed :
    {i k k' : ℕ} {m m' : Memory} {p q : Pc} → Produces i m p k m' q k' → m'.consumed ≡ m.consumed
Produces-consumed Produces.again = refl
Produces-consumed Produces.finished = refl
Produces-consumed (Produces.down_s1 _) = refl
Produces-consumed (Produces.down_mutex _) = refl
Produces-consumed Produces.store = refl
Produces-consumed Produces.next_in = refl
Produces-consumed Produces.up_mutex = refl
Produces-consumed Produces.up_s2 = refl
Produces-consumed Produces.count_down = refl

-- A consumer that can make a step has not ended.
abbrev Runs : Pc → Type 0
Runs stop = ⊥
Runs _ = Unit

Consumes-Runs : {m m' : Memory} {p q : Pc} → Consumes m p m' q → Runs p
Consumes-Runs (Consumes.again _) = tt
Consumes-Runs (Consumes.finished _) = tt
Consumes-Runs (Consumes.down_s2 _) = tt
Consumes-Runs (Consumes.down_mutex _) = tt
Consumes-Runs Consumes.fetch = tt
Consumes-Runs Consumes.next_out = tt
Consumes-Runs Consumes.up_mutex = tt
Consumes-Runs Consumes.up_s1 = tt
Consumes-Runs Consumes.read_cflag = tt
Consumes-Runs Consumes.write_cflag = tt

-- Once they have ended, nothing is consumed any more.
Step-ended :
    {n : ℕ} {s t : System}
    → Step n s t
    → ConsumersEnded n s
    → ConsumersEnded n t × (t.mem.consumed ≡ s.mem.consumed)
Step-ended (Step.produce i l mv) h = (h, Produces-consumed mv)
Step-ended (Step.consume i l mv) h = elim (subst Runs (h i l) (Consumes-Runs mv)) [ ]

Later-ended :
    {n : ℕ} {s t : System}
    → Later n s t
    → ConsumersEnded n s
    → ConsumersEnded n t × (t.mem.consumed ≡ s.mem.consumed)
Later-ended Later.now h = (h, refl)
Later-ended (Later.step l st) h =
    let (h', e) = Later-ended l h in let (h'', e') = Step-ended st h' in (h'', e' ∙ e)

Later-Reach : {n : ℕ} {buf : List ℕ} {s t : System} → Reach n buf s → Later n s t → Reach n buf t
Later-Reach r Later.now = r
Later-Reach r (Later.step l st) = Reach.later (Later-Reach r l) st

-- The consumers have ended over a ring of ten places, and what they took and those ten places are
-- together less than the five goods of each of the `n` producers. Then, however the threads go on,
-- nothing more is taken, and the producers never all end.
pub Later-starved :
    {n : ℕ} {buf : List ℕ} {s t : System}
    → length buf ≡ 10
    → Reach n buf s
    → ConsumersEnded n s
    → length s.mem.consumed + 10 < n * 5
    → Later n s t
    → (t.mem.consumed ≡ s.mem.consumed) × ¬ ((i : ℕ) → i < n → (t.producers i).pc ≡ stop)
Later-starved {n} {t} e r h few l =
    let r' = Later-Reach r l in
    let (_, same) = Later-ended l h in
    let (_, _, room) = Reach-first_in_first_out e r' in
    let (_, all, _) = Reach-AreGoods e r' in
    (same, λ ended. omega (arith, all ended, room, ap length same, few))
