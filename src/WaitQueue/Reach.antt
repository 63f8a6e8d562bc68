-- ===== src/WaitQueue/Reach.antt =====
-- What holds in every state that the load function and its thread reach.
use linux_driver.Base.{
  ℕ, suc, Bool, true, ◌+◌, ◌≤◌, ◌≡◌, false, some, [], ◌∷◌, ◌⊎◌, inl, inr, refl, sym, ap, arith,
  Bool-cases, Bool-cases,
}
use mathlib.Core.Path.{subst}
use linux_driver.Kernel.{ErrPtr, address, err_ptr}
use linux_driver.WaitQueue.{
  Variant, wake_up, wake_up_sync, wake_up_sync_key, InitAt, create, enqueue, save, start, sleep,
  asleep, woken, finished, ThreadAt, not_started, begin, look, wake, look_again, ended, Task,
  System, Outcome, next, blocked, fault, initial, init_from, thread_from, wake_init, print_state,
  is_freed, Step, by_init, by_thread, by_timer, Reaches, at_first, after,
}

-- How far the load function has come, and the thread.
unfoldable pub stage : InitAt → ℕ
stage create = 0
stage enqueue = 1
stage save = 2
stage start = 3
stage sleep = 4
stage asleep = 5
stage (woken _) = 6
stage finished = 7

unfoldable pub thread_stage : ThreadAt → ℕ
thread_stage not_started = 0
thread_stage begin = 1
thread_stage look = 2
thread_stage wake = 3
thread_stage look_again = 4
thread_stage ended = 5

module _ (current : Task) where
  -- The queue is filled before `old_thread` is stored, that before the thread is started, and the entry
  -- lives until the load function is finished.
  pub record IsOrdered (s : System) : Type 0 where
    pub queued : 2 ≤ stage s.init → s.head ≡ some (current.address ∷ [])
    pub saved : 3 ≤ stage s.init → s.old_thread ≡ some current.address
    pub started : 1 ≤ thread_stage s.thread → 4 ≤ stage s.init
    pub runs : 4 ≤ stage s.init → 1 ≤ thread_stage s.thread
    pub alive : s.entry_lives ≡ false → 7 ≤ stage s.init

  initial-IsOrdered : IsOrdered initial
  unfolding stage thread_stage
  initial-IsOrdered = ground arith

  -- An outcome after which the load function and the thread are in order, and further than before.
  Forward : ℕ → Outcome → Type 0
  Forward n (next s) = IsOrdered s × (suc n ≤ stage s.init + thread_stage s.thread)
  Forward n _ = Unit

module _ (variant : Variant) (current thread : Task) (module_refcount : ℕ) where
  init_from-Forward :
      (created : ErrPtr) (i : InitAt) (s : System)
      → stage s.init ≡ stage i
      → IsOrdered current s
      → Forward current
          (stage i + thread_stage s.thread)
          (init_from variant current thread created module_refcount i s)
  unfolding init_from Forward stage thread_stage
  init_from-Forward (err_ptr _) create s e o = tt
  init_from-Forward (address _) create s e o = (ground arith, ground arith)
  init_from-Forward c enqueue s e o = (ground arith, ground arith)
  init_from-Forward c save s e o = (ground arith, ground arith)
  init_from-Forward c start s e o = (ground arith, ground arith)
  init_from-Forward c sleep s e o = (ground arith, ground arith)
  init_from-Forward c asleep s e o = tt
  init_from-Forward c (woken t) s e o = (ground arith, ground arith)
  init_from-Forward c finished s e o = tt

wake_init-stage : (left : ℕ) (i : InitAt) → stage i ≤ stage (wake_init left i)
unfolding stage
wake_init-stage left asleep = omega arith
wake_init-stage left i = omega arith

module _ (current thread : Task) (module_refcount : ℕ) where
  thread_from-Forward :
      (variant : Variant) (created : ErrPtr) (left : ℕ) (lives : Bool) (t : ThreadAt) (s : System)
      → thread_stage s.thread ≡ thread_stage t
      → IsOrdered current s
      → Forward current
          (stage s.init + thread_stage t)
          (thread_from variant current thread created module_refcount left lives t s)
  unfolding thread_from Forward stage thread_stage
  thread_from-Forward v c left lives not_started s e o = tt
  thread_from-Forward v c left lives begin s e o = (ground arith, ground arith)
  thread_from-Forward v c left lives look s e o =
      let saved = o.saved (ground arith) in
      rw (saved, print_state)
        (elim (Bool-cases (is_freed lives s.init)) [
          | inl gone ↦ rw gone tt
          | inr there ↦ rw there (ground arith, ground arith)
        ])
  thread_from-Forward v c left lives wake s e o =
      let queued = o.queued (ground arith) in
      elim (Bool-cases s.entry_lives) [
        | inl lives ↦
            rw (queued, lives)
              (
                grind (arith, wake_init-stage left s.init),
                omega (arith, wake_init-stage left s.init),
              )
        | inr gone ↦ rw (queued, gone) tt
      ]
  thread_from-Forward wake_up c left lives look_again s e o = (ground arith, ground arith)
  thread_from-Forward wake_up_sync c left lives look_again s e o =
      let saved = o.saved (ground arith) in
      elim (Bool-cases (is_freed lives s.init)) [
        | inl gone ↦ rw (saved, gone, thread_from, print_state) tt
        | inr there ↦ rw (saved, there, thread_from, print_state) (ground arith, ground arith)
      ]
  thread_from-Forward wake_up_sync_key c left lives look_again s e o =
      let saved = o.saved (ground arith) in
      elim (Bool-cases (is_freed lives s.init)) [
        | inl gone ↦ rw (saved, gone, thread_from, print_state) tt
        | inr there ↦ rw (saved, there, thread_from, print_state) (ground arith, ground arith)
      ]
  thread_from-Forward v c left lives ended s e o = tt

timer :
    {current : Task} (s : System)
    → stage s.init ≡ stage asleep
    → IsOrdered current s
    → IsOrdered current (record s { init = woken 0 })
      × (suc (stage s.init + thread_stage s.thread) ≤ stage (woken 0) + thread_stage s.thread)
unfolding stage
timer s e o = (ground arith, ground arith)

at_last : (i : InitAt) → 7 ≤ stage i → i ≡ finished
unfolding stage
at_last finished h = refl
at_last i h = ground arith

module _ (variant : Variant) (current thread : Task) (created : ErrPtr) (module_refcount : ℕ) where
  pub Step-Forward :
      {s s' : System}
      → Step variant current thread created module_refcount s s'
      → IsOrdered current s
      → IsOrdered current s'
        × (suc (stage s.init + thread_stage s.thread) ≤ stage s'.init + thread_stage s'.thread)
  unfolding Forward stage
  Step-Forward {s = s} (by_init e) o =
      subst (Forward current (stage s.init + thread_stage s.thread)) e
        (init_from-Forward variant current thread module_refcount created s.init s refl o)
  Step-Forward {s = s} (by_thread left lives e) o =
      subst (Forward current (stage s.init + thread_stage s.thread)) e (
        thread_from-Forward current thread module_refcount variant created left lives s.thread s
          refl o)
  Step-Forward {s = s} {s' = s'} (by_timer e e') o =
      subst
        (λ t.
          IsOrdered current t
          × (suc (stage s.init + thread_stage s.thread) ≤ stage t.init + thread_stage t.thread))
        (sym e') (timer s (ap stage e) o)

  pub Reaches-IsOrdered :
      {n : ℕ} {s : System}
      → Reaches variant current thread created module_refcount n s
      → IsOrdered current s × (n ≤ stage s.init + thread_stage s.thread)
  Reaches-IsOrdered at_first = (initial-IsOrdered current, omega arith)
  Reaches-IsOrdered (after r step) =
      let (o, n) = Reaches-IsOrdered r in let (o', n') = Step-Forward step o in (o', omega arith)

-- The thread waits only to be started or when it is done, and faults only where it reads what may be
-- gone after the load function has returned: the entry of the queue, or the task that loaded.
unfoldable pub IsFine : (lives : Bool) → ThreadAt → System → Outcome → Type 0
IsFine lives t s (next _) = Unit
IsFine lives t s blocked = (thread_stage t ≡ 0) ⊎ (t ≡ ended)
IsFine lives t s fault =
    (s.init ≡ finished)
    × (((t ≡ wake) × (s.entry_lives ≡ false)) ⊎ ((lives ≡ false) × ((t ≡ look) ⊎ (t ≡ look_again))))

freed : (lives : Bool) (i : InitAt) → is_freed lives i ≡ true → (i ≡ finished) × (lives ≡ false)
freed lives finished h = (refl, ground arith)
freed lives create h = absurd (ground arith)
freed lives enqueue h = absurd (ground arith)
freed lives save h = absurd (ground arith)
freed lives start h = absurd (ground arith)
freed lives sleep h = absurd (ground arith)
freed lives asleep h = absurd (ground arith)
freed lives (woken t) h = absurd (ground arith)

module _ (current thread : Task) (module_refcount : ℕ) where
  pub thread_from-IsFine :
      (variant : Variant) (created : ErrPtr) (left : ℕ) (lives : Bool) (t : ThreadAt) (s : System)
      → thread_stage s.thread ≡ thread_stage t
      → IsOrdered current s
      → IsFine lives t s (thread_from variant current thread created module_refcount left lives t s)
  unfolding thread_from IsFine thread_stage
  thread_from-IsFine v c left lives not_started s e o = inl refl
  thread_from-IsFine v c left lives begin s e o = tt
  thread_from-IsFine v c left lives look s e o =
      let saved = o.saved (ground arith) in
      rw (saved, print_state)
        (elim (Bool-cases (is_freed lives s.init)) [
          | inl gone ↦ (let (f, l) = freed lives s.init gone in rw gone (f, inr (l, inl refl)))
          | inr there ↦ rw there tt
        ])
  thread_from-IsFine v c left lives wake s e o =
      let queued = o.queued (ground arith) in
      elim (Bool-cases s.entry_lives) [
        | inl lives ↦ rw (queued, lives) tt
        | inr gone ↦ rw (queued, gone) (at_last s.init (o.alive gone), inl (refl, refl))
      ]
  thread_from-IsFine wake_up c left lives look_again s e o = tt
  thread_from-IsFine wake_up_sync c left lives look_again s e o =
      let saved = o.saved (ground arith) in
      elim (Bool-cases (is_freed lives s.init)) [
        | inl gone ↦
            let (f, l) = freed lives s.init gone in
            rw (saved, gone, thread_from, print_state) (f, inr (l, inr refl))
        | inr there ↦ rw (saved, there, thread_from, print_state) tt
      ]
  thread_from-IsFine wake_up_sync_key c left lives look_again s e o =
      let saved = o.saved (ground arith) in
      elim (Bool-cases (is_freed lives s.init)) [
        | inl gone ↦
            let (f, l) = freed lives s.init gone in
            rw (saved, gone, thread_from, print_state) (f, inr (l, inr refl))
        | inr there ↦ rw (saved, there, thread_from, print_state) tt
      ]
  thread_from-IsFine v c left lives ended s e o = inr refl

module _ (variant : Variant) (current thread : Task) (created : ErrPtr) (module_refcount : ℕ) where
  -- After any run the thread faults, if at all, when the load function has returned already: at its
  -- wake, since the entry on the queue is gone with the stack frame, or where it reads the state of
  -- the task that loaded the module, which may be freed by then. Before that it never faults: the
  -- queue and `old_thread` are set before the thread is started.
  pub thread-faults :
      {n : ℕ} {s : System} (left : ℕ) (lives : Bool)
      → Reaches variant current thread created module_refcount n s
      → thread_from variant current thread created module_refcount left lives s.thread s ≡ fault
      → (s.init ≡ finished)
        × (((s.thread ≡ wake) × (s.entry_lives ≡ false))
            ⊎ ((lives ≡ false) × ((s.thread ≡ look) ⊎ (s.thread ≡ look_again))))
  unfolding IsFine
  thread-faults {s = s} left lives r f =
      let (o, _) = Reaches-IsOrdered variant current thread created module_refcount r in
      subst (IsFine lives s.thread s) f (
        thread_from-IsFine current thread module_refcount variant created left lives s.thread s refl
          o)
