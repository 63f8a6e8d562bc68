-- ===== src/WaitQueue/Queued/Rules.antt =====
-- add_wait_queue/add_wait_queue.c and abort_exclusive_wait/abort_exclusive_wait.c: how their runs go
-- on from statement to statement.
use Prim.Native.String.{String}
use mathlib.Core.Path.{subst}
use linux_driver.Base.{
  ℕ, suc, ◌+◌, ◌≡◌, refl, ℤ, pos, true, none, some, List, [], ◌∷◌, ◌++◌, length, ap, ◌∙◌, arith,
}
use linux_driver.Kernel.{
  Arg, int, bind_printk, ErrPtr, address, World, Exec, Ends, Log, Printk, world, follows, ◌>>=◌,
  done, printk, call, deref, kthread_create, wake_up_process,
}
use linux_driver.WaitQueue.Queued.{
  Thread, Entry, Waits, Api, wake, create, read_thread, show_queue, print_pid_of, own_entry,
  enqueue,
}

-- What the kernel documents of wait queues. An entry whose links are those of an empty list is put
-- on the queue, an exclusive one at the end, and the running task gets the state.
pub record IsKernel (api : Api) : Type 0 where
  pub init : (p : ErrPtr) → (api.init_entry p).private ≡ p
  pub added : (e : Entry) (q : List Entry) → api.add_wait_queue e q ≡ e ∷ q
  pub prepared :
      (e : Entry) (s : ℤ) (w : Waits)
      → e.unlinked ≡ true
      → api.prepare_to_wait e s w ≡ record { queue = e ∷ w.queue; state = s }
  pub prepared_exclusive :
      (e : Entry) (s : ℤ) (w : Waits)
      → e.unlinked ≡ true
      → api.prepare_to_wait_exclusive e s w ≡ record { queue = w.queue ++ (e ∷ []); state = s }

-- The thread at an address is there to be read at every moment.
abbrev pub Lasts : Api → ℕ → Type 0
Lasts api a = (w : World) → (t : Thread) × (api.thread_at a w ≡ some t)

-- The pointers of all entries have the property.
abbrev pub Every : (ErrPtr → Type 0) → List Entry → Type 0
Every P [] = Unit
Every P (e ∷ q) = P e.private × Every P q

-- A run goes on behind a line, and behind a call.
pub prints :
    {B : Type 0} (f : String) (vs : List Arg) (k : Unit {0} → Exec B) {b : B} {log log' : Log}
    (pr : List Printk)
    → ((pr' : List Printk) → Ends (k tt (world log pr')) b log')
    → Ends ((printk f vs >>= k) (world log pr)) b log'
prints f vs k {log} pr next = let (pr', e) = next _ in (pr', bind_printk f vs k log pr ∙ e)

module _ (api : Api) where
  abbrev pub Read : Log → ErrPtr → Type 0
  Read log p = (pr : List Printk) → (t : Thread) × Ends (read_thread api p (world log pr)) t log

  pub lasts : (a : ℕ) (log : Log) → Lasts api a → Read log (address a)
  unfolding read_thread deref
  lasts a log l pr = let (t, e) = l (world log pr) in (t, (pr, rw e refl))

  -- A run goes on behind a read.
  reads :
      {B : Type 0} (p : ErrPtr) (k : Thread → Exec B) {b : B} {log log' : Log} (pr : List Printk)
      → Read log p
      → ((t : Thread) (pr' : List Printk) → Ends (k t (world log pr')) b log')
      → Ends ((read_thread api p >>= k) (world log pr)) b log'
  reads p k pr r next = let (t, e) = r pr in follows (read_thread api p) k _ e (next t)

  pub show_queue-Ends :
      (f : String) (n : ℕ) (q : List Entry) (log : Log) (pr : List Printk)
      → Every (Read log) q
      → Ends (show_queue api f n q (world log pr)) (n + length q) log
  unfolding show_queue done
  show_queue-Ends f n [] log pr h = (pr, ap (λ k. some (k, world log pr)) (omega arith))
  show_queue-Ends f n (e ∷ q) log pr (r, h) =
      let more : n + 1 + length q ≡ n + suc (length q) = omega arith in
      reads e.private _ _ r (λ t pr1. prints _ _ _ _ (λ pr2. reads e.private _ _ r (λ t' pr3.
        prints _ _ _ _ (λ pr4.
          subst (λ k. Ends (show_queue api f (n + 1) q (world log pr4)) k log) more
            (show_queue-Ends f (n + 1) q log pr4 h)))))

  pub creates :
      {B : Type 0} (name : String) (k : ErrPtr → Exec B) {a : ℕ} {b : B} {log log' : Log}
      (pr : List Printk)
      → api.created name ≡ address a
      → Ends (k (address a) (world (kthread_create (address a) ∷ log) pr)) b log'
      → Ends ((create api name >>= k) (world log pr)) b log'
  unfolding create ◌>>=◌ call done
  creates name k pr e (pr', f) = (pr', rw e f)

  pub wakes :
      {B : Type 0} (a : ℕ) (k : Unit {0} → Exec B) {b : B} {log log' : Log} (pr : List Printk)
      → Ends (k tt (world (wake_up_process a ∷ log) pr)) b log'
      → Ends ((wake (address a) >>= k) (world log pr)) b log'
  unfolding wake ◌>>=◌ call
  wakes a k pr next = next

  pub shows :
      {B : Type 0} (f : String) (p : ErrPtr) (k : Unit {0} → Exec B) {b : B} {log log' : Log}
      (pr : List Printk)
      → Read log p
      → ((pr' : List Printk) → Ends (k tt (world log pr')) b log')
      → Ends ((print_pid_of api f p >>= k) (world log pr)) b log'
  unfolding print_pid_of ◌>>=◌ printk
  shows f p k pr r next =
      let (t, (pr', e)) = r pr in
      let (out, g) = next (record { format = f; args = int t.pid ∷ [] } ∷ pr') in
      (out, rw (e, print_pid_of) g)

  pub enqueue_lem :
      IsKernel api
      → (r0 r1 r2 : ErrPtr)
      → enqueue api r0 r1 r2 ≡ record {
        queue = own_entry api r0 ∷ own_entry api r1 ∷ own_entry api r2 ∷ [];
        state = pos 1;
      }
  enqueue_lem law r0 r1 r2 =
      let first = own_entry api r0 in
      let second = own_entry api r1 in
      let third = own_entry api r2 in
      let last = api.prepare_to_wait_exclusive third (pos 1) in
      let none_yet : Waits = record { queue = []; state = api.state } in
      ap (λ w. last (api.prepare_to_wait_exclusive second (pos 2) w))
        (law.prepared first (pos 130) none_yet refl)
      ∙ ap last (law.prepared_exclusive second (pos 2) _ refl)
      ∙ law.prepared_exclusive third (pos 1) _ refl

pub bind_create :
    {B : Type 0} (api : Api) (name : String) (k : ErrPtr → Exec B) (log : Log) (pr : List Printk)
    → (create api name >>= k) (world log pr)
      ≡ k (api.created name) (world (kthread_create (api.created name) ∷ log) pr)
unfolding create ◌>>=◌ call done
bind_create api name k log pr = refl

pub bind_wake :
    {B : Type 0} (a : ℕ) (k : Unit {0} → Exec B) (log : Log) (pr : List Printk)
    → (wake (address a) >>= k) (world log pr) ≡ k tt (world (wake_up_process a ∷ log) pr)
unfolding wake ◌>>=◌ call
bind_wake a k log pr = refl

pub bind_gone :
    {B : Type 0} (api : Api) (law : IsKernel api) (a n : ℕ) (f : String)
    → ((v : World) → api.thread_at a v ≡ none)
    → (q : List Entry) (k : ℕ → Exec B) (w : World)
    → (show_queue api f n (own_entry api (address a) ∷ q) >>= k) w ≡ none
unfolding show_queue read_thread ◌>>=◌ deref
bind_gone api law a n f gone q k w = rw (law.init (address a), gone w) refl
