-- ===== src/NpNc.antt =====
-- np-nc/np-nc.c: producers and consumers over a ring of ten places, kept apart by two counting
-- semaphores and a mutex. The file uses `s1`, `s2`, `mutex`, `buf`, `in`, `out`, `cflag`, `index`
-- and the number of threads `N` without declaring them; they are taken as its loads and stores say.
pub mod Threads
pub mod Invariant
pub mod Ring
pub mod Order
pub mod Moves
pub mod Progress
pub mod Goods
pub mod Starved
pub mod Counter
use linux_driver.Base.{
  ℕ, zero, suc, ◌+◌, ◌-◌, ◌*◌, ◌%◌, ◌<◌, ◌≡◌, ◌≢◌, ℤ, pos, List, [], ◌∷◌, ◌++◌, get_or, set,
  replicate, ◌==◌, if◌then◌else◌,
}

abbrev pub pnum : ℕ
pnum = 5

abbrev pub cnum : ℕ
cnum = 5

abbrev pub buf_num : ℕ
buf_num = 10

-- The variables that the threads share, the three semaphores by their counts. `produced` and
-- `consumed` are the goods of the lines that the threads print, in the order of printing.
pub record Memory : Type 0 where
  pub s1 : ℕ
  pub s2 : ℕ
  pub mutex : ℕ
  pub buf : List ℕ
  pub in_ : ℕ
  pub out : ℕ
  pub cflag : ℕ
  pub produced : List ℕ
  pub consumed : List ℕ

-- Where a thread stands: at the head of its loop, before `down` of its counting semaphore, before
-- `down(&mutex)`, before the access to `buf`, before its index moves on, before `up(&mutex)`,
-- before `up` of the other counting semaphore, before it counts; `bump` holds what `cflag++` read.
pub data Pc : Type 0 where
  test wait lock touch advance unlock signal tally : Pc
  bump : (read : ℕ) → Pc
  stop : Pc

-- The goods go into the place, and what stands there is printed.
abbrev pub stored : (i p_num : ℕ) → Memory → Memory
stored i k m =
    let buf' = set m.buf m.in_ (i * 100 + (pnum - k + 1)) in
    record m { buf = buf'; produced = m.produced ++ (get_or buf' m.in_ 0 ∷ []) }

-- What stands in the place is taken and printed.
abbrev pub fetched : Memory → Memory
fetched m = record m { consumed = m.consumed ++ (get_or m.buf m.out 0 ∷ []) }

-- A step of the producer with number `i`, from a place and `p_num`. `down` is possible only if the
-- count is not 0; a thread that has to wait has no step.
pub data Produces (i : ℕ) (m : Memory) : Pc → ℕ → Memory → Pc → ℕ → Type 0 where
  again : {k : ℕ} → Produces i m test (suc k) m wait (suc k)
  finished : Produces i m test 0 m stop 0
  down_s1 : {k : ℕ} → 0 < m.s1 → Produces i m wait k (record m { s1 = m.s1 - 1 }) lock k
  down_mutex :
      {k : ℕ} → 0 < m.mutex → Produces i m lock k (record m { mutex = m.mutex - 1 }) touch k
  store : {k : ℕ} → Produces i m touch k (stored i k m) advance k
  next_in : {k : ℕ} → Produces i m advance k (record m { in_ = (m.in_ + 1) % buf_num }) unlock k
  up_mutex : {k : ℕ} → Produces i m unlock k (record m { mutex = m.mutex + 1 }) signal k
  up_s2 : {k : ℕ} → Produces i m signal k (record m { s2 = m.s2 + 1 }) tally k
  count_down : {k : ℕ} → Produces i m tally k m test (k - 1)

-- A step of a consumer. `cflag++` is a read and a write, and nothing protects them.
pub data Consumes (m : Memory) : Pc → Memory → Pc → Type 0 where
  again : m.cflag ≢ cnum → Consumes m test m wait
  finished : m.cflag ≡ cnum → Consumes m test m stop
  down_s2 : 0 < m.s2 → Consumes m wait (record m { s2 = m.s2 - 1 }) lock
  down_mutex : 0 < m.mutex → Consumes m lock (record m { mutex = m.mutex - 1 }) touch
  fetch : Consumes m touch (fetched m) advance
  next_out : Consumes m advance (record m { out = (m.out + 1) % buf_num }) unlock
  up_mutex : Consumes m unlock (record m { mutex = m.mutex + 1 }) signal
  up_s1 : Consumes m signal (record m { s1 = m.s1 + 1 }) tally
  read_cflag : Consumes m tally m (bump m.cflag)
  write_cflag : {read : ℕ} → Consumes m (bump read) (record m { cflag = read + 1 }) test

pub record Producer : Type 0 where
  pub pc : Pc
  pub p_num : ℕ

-- The threads by their index in the loop of `np_nc_init`; those from `n` on were never started.
pub record System : Type 0 where
  pub mem : Memory
  pub producers : ℕ → Producer
  pub consumers : ℕ → Pc

abbrev pub update {ℓ} : {A : Type ℓ} → (ℕ → A) → ℕ → A → ℕ → A
update f i a j = if i == j then a else f j

-- One thread makes one step; thread `i` has the number `index[i]`, which is `i + 1`.
pub data Step (n : ℕ) (s : System) : System → Type 0 where
  produce :
      (i : ℕ) {m : Memory} {p : Pc} {k : ℕ}
      → i < n
      → Produces (i + 1) s.mem (s.producers i).pc (s.producers i).p_num m p k
      → Step n s
          (record s { mem = m; producers = update s.producers i (record { pc = p; p_num = k }) })
  consume :
      (i : ℕ) {m : Memory} {p : Pc}
      → i < n
      → Consumes s.mem (s.consumers i) m p
      → Step n s (record s { mem = m; consumers = update s.consumers i p })

-- What `np_nc_init` sets before it starts the threads. `buf` holds anything.
unfoldable pub np_nc_init : (buf : List ℕ) → System
np_nc_init buf = record {
  mem = record {
    s1 = buf_num;
    s2 = 0;
    mutex = 1;
    buf = buf;
    in_ = 0;
    out = 0;
    cflag = 0;
    produced = [];
    consumed = [];
  };
  producers = λ _. record { pc = test; p_num = pnum };
  consumers = λ _. test;
}

-- The states that `n` producers and `n` consumers reach, in any order of their steps.
pub data Reach (n : ℕ) (buf : List ℕ) : System → Type 0 where
  start : Reach n buf (np_nc_init buf)
  later : {s t : System} → Reach n buf s → Step n s t → Reach n buf t
