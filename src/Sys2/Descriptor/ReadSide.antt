-- ===== src/Sys2/Descriptor/ReadSide.antt =====
-- sys2/process.c: which socket `setsocketsize` changes, and its read-side section.
use linux_driver.Base.{Option-cases, inl, inr, ◌∙◌}
use Prim.Native.Nat.{bit_or}
use mathlib.Core.Path.{subst}
use linux_driver.Sys2.Console.{size_changed}
use linux_driver.Base.{ap, sym, Bool-cases, eqb_ℤ, ==_refl}
use linux_driver.Base.{
  ℕ, ℤ, pos, is_neg, true, false, ◌≡◌, ◌⊎◌, refl, none, some, List, [], ◌∷◌, arith,
}
use linux_driver.Kernel.{
  Log, Resource, held_kind, rcu_reader, account, rcu_read_lock, rcu_read_unlock,
}
use linux_driver.Sys2.Console.{Line}
use linux_driver.Sys2.Descriptor.{
  find_sock, resize, update, Task, Socks, FdTable, resize_in, setsocketsize_in, Resized,
}
use linux_driver.Sys2.Descriptor.Lookup.{
  HasHere, HasSock, find_sock-sock_number, not_this_pid, no_files, no_sock_here,
}

-- The sizes of one socket are set and locked, and the other sockets stay as they were.
abbrev pub Sets : (rcv snd : ℤ) (a : ℕ) (before after : Socks) → Type 0
Sets rcv snd a ss ss' =
    ((ss' a).sk_rcvbuf ≡ rcv)
    × ((ss' a).sk_sndbuf ≡ snd)
    × ((ss' a).sk_userlocks ≡ bit_or (ss a).sk_userlocks 3)
    × ((b : ℕ) → (a ≡ b) ⊎ (ss' b ≡ ss b))

-- What `setsocketsize` leaves: it set the sizes of the socket asked for and returned from inside the
-- read-side section, or it failed, and then it changed nothing and left the section.
abbrev pub Leaves : List Resource → (pid fd rcv snd : ℤ) → Socks → List Task → Resized → Type 0
Leaves rs pid fd rcv snd ss ts r =
    ((r.ret ≡ pos 0)
      × (account r.log ≡ some (held_kind rcu_reader 0 ∷ rs))
      × ((a : ℕ) × HasSock pid fd a ts × Sets rcv snd a ss r.socks))
    ⊎ ((is_neg r.ret ≡ true)
        × (account r.log ≡ some rs)
        × (r.socks ≡ ss)
        × ((a : ℕ) → ¬ HasSock pid fd a ts))

update-Sets :
    (rcv snd : ℤ) (a : ℕ) (ss : Socks) → Sets rcv snd a ss (update ss a (resize rcv snd (ss a)))
unfolding resize
update-Sets rcv snd a ss = (
  ground (arith, ==_refl a),
  ground (arith, ==_refl a),
  ground (arith, ==_refl a),
  λ b. ground arith,
)

module _ (pid fd rcv snd : ℤ) (ss : Socks) {rs : List Resource} where
  Leaves-later :
      (t : Task) (ts : List Task) (r : Resized)
      → ((a : ℕ) → ¬ HasHere pid fd a t)
      → Leaves rs pid fd rcv snd ss ts r
      → Leaves rs pid fd rcv snd ss (t ∷ ts) r
  Leaves-later t ts r lacks (inl (e, h, (a, has, sets))) = inl (e, h, (a, inr has, sets))
  Leaves-later t ts r lacks (inr (e, h, same, nobody)) =
      inr (e, h, same, λ a has. elim has [ inl here ↦ lacks a here | inr there ↦ nobody a there ])

  -- The socket is found.
  changed :
      (t : Task) (ts : List Task) (log : Log) (lines : List Line)
      → account log ≡ some rs
      → (fdt : FdTable) (a : ℕ) → eqb_ℤ t.pid pid ≡ true
      → t.files ≡ some fdt
      → find_sock fd 0 fdt ≡ some a
      → Leaves rs pid fd rcv snd ss (t ∷ ts) (record {
        ret = pos 0;
        socks = update ss a (resize rcv snd (ss a));
        log = rcu_read_lock ∷ log;
        lines = size_changed pid fd rcv snd ∷ lines;
      })
  changed t ts log lines h fdt a e f g =
      let (k, n, s) = find_sock-sock_number fd 0 fdt a g in
      let number : fd ≡ pos k = n ∙ ap pos (omega arith) in
      inl (
        refl,
        ground arith,
        (a, inl (ground arith, (fdt, f, (k, number, s))), update-Sets rcv snd a ss),
      )

  resize_in-Leaves :
      (ts : List Task) (log : Log) (lines : List Line)
      → account log ≡ some rs
      → Leaves rs pid fd rcv snd ss ts (resize_in pid fd rcv snd ss ts log lines)
  unfolding resize_in
  resize_in-Leaves [] log lines h = inr (refl, h, refl, λ a none_here. none_here)
  resize_in-Leaves (t ∷ ts) log lines h =
      let goes : Resized → Type 0 = Leaves rs pid fd rcv snd ss (t ∷ ts) in
      let past = rcu_read_unlock ∷ rcu_read_lock ∷ log in
      let skipped = λ (lacks : (a : ℕ) → ¬ HasHere pid fd a t).
        Leaves-later t ts (resize_in pid fd rcv snd ss ts log lines) lacks
          (resize_in-Leaves ts log lines h) in
      let passed = λ (lacks : (a : ℕ) → ¬ HasHere pid fd a t).
        Leaves-later t ts (resize_in pid fd rcv snd ss ts past lines) lacks
          (resize_in-Leaves ts past lines (ground arith)) in
      elim (Bool-cases (eqb_ℤ t.pid pid)) [
        | inr e ↦ subst goes (sym (skip (inl e))) (skipped (not_this_pid pid fd t e))
        | inl e ↦ elim (Option-cases t.files) [
          | inl f ↦ subst goes (sym (skip (inr (e, f)))) (skipped (no_files pid fd t f))
          | inr (fdt, f) ↦ elim (Option-cases (find_sock fd 0 fdt)) [
            | inl g ↦ subst goes (sym (pass fdt e f g)) (passed (no_sock_here pid fd t fdt f g))
            | inr (a, g) ↦
                subst goes (sym (change fdt a e f g)) (changed t ts log lines h fdt a e f g)
          ]
        ]
      ]
    where
      here : Resized
      here = resize_in pid fd rcv snd ss (t ∷ ts) log lines

      skip :
          (eqb_ℤ t.pid pid ≡ false) ⊎ ((eqb_ℤ t.pid pid ≡ true) × (t.files ≡ none))
          → here ≡ resize_in pid fd rcv snd ss ts log lines
      skip (inl e) = rw (e, resize_in) refl
      skip (inr (e, f)) = rw (e, f, resize_in) refl

      pass :
          (fdt : FdTable)
          → eqb_ℤ t.pid pid ≡ true
          → t.files ≡ some fdt
          → find_sock fd 0 fdt ≡ none
          → here ≡ resize_in pid fd rcv snd ss ts (rcu_read_unlock ∷ rcu_read_lock ∷ log) lines
      pass fdt e f g = rw (e, f, g, resize_in) refl

      change :
          (fdt : FdTable) (a : ℕ)
          → eqb_ℤ t.pid pid ≡ true
          → t.files ≡ some fdt
          → find_sock fd 0 fdt ≡ some a
          → here ≡ record {
            ret = pos 0;
            socks = update ss a (resize rcv snd (ss a));
            log = rcu_read_lock ∷ log;
            lines = size_changed pid fd rcv snd ∷ lines;
          }
      change fdt a e f g = rw (e, f, g, resize_in) refl

-- The fields of the command, if `sscanf` converted all four.
abbrev pub LeavesAll : List ℤ → List Resource → Socks → List Task → Resized → Type 0
LeavesAll (pid ∷ fd ∷ rcv ∷ snd ∷ _) rs ss ts r = Leaves rs pid fd rcv snd ss ts r
LeavesAll _ rs ss ts r = (is_neg r.ret ≡ true) × (account r.log ≡ some rs) × (r.socks ≡ ss)

-- From a state without a fault: if `sscanf` did not convert four numbers, `setsocketsize` fails with a
-- negative code and everything as it was. If it did, the command either fails in that way too, and
-- then no task with the pid asked for has a socket at the number asked for; or such a task has one, the
-- two sizes of that socket are set and its locks, the other sockets stay as they were, 0 is returned,
-- and the read-side section that was entered has not been left.
pub setsocketsize_in-Leaves :
    (scanned : List ℤ) (ss : Socks) (ts : List Task) (log : Log) {rs : List Resource}
    → account log ≡ some rs
    → LeavesAll scanned rs ss ts (setsocketsize_in scanned ss ts log)
unfolding setsocketsize_in
setsocketsize_in-Leaves (p ∷ f ∷ r ∷ s ∷ more) ss ts log h = resize_in-Leaves p f r s ss ts log _ h
setsocketsize_in-Leaves (p ∷ f ∷ r ∷ []) ss ts log h = ground arith
setsocketsize_in-Leaves (p ∷ f ∷ []) ss ts log h = ground arith
setsocketsize_in-Leaves (p ∷ []) ss ts log h = ground arith
setsocketsize_in-Leaves [] ss ts log h = ground arith

-- What it leaves held.
pub setsocketsize_in-account :
    (scanned : List ℤ) (ss : Socks) (ts : List Task) (log : Log) {rs : List Resource}
    → account log ≡ some rs
    → let r = setsocketsize_in scanned ss ts log in
      ((r.ret ≡ pos 0) × (account r.log ≡ some (held_kind rcu_reader 0 ∷ rs)))
      ⊎ ((is_neg r.ret ≡ true) × (account r.log ≡ some rs))
setsocketsize_in-account (p ∷ f ∷ r ∷ s ∷ more) ss ts log h =
    elim (setsocketsize_in-Leaves (p ∷ f ∷ r ∷ s ∷ more) ss ts log h) [
      | inl (e, l, _) ↦ inl (e, l)
      | inr (e, l, _, _) ↦ inr (e, l)
    ]
setsocketsize_in-account (p ∷ f ∷ r ∷ []) ss ts log h =
    let (e, l, _) = setsocketsize_in-Leaves (p ∷ f ∷ r ∷ []) ss ts log h in inr (e, l)
setsocketsize_in-account (p ∷ f ∷ []) ss ts log h =
    let (e, l, _) = setsocketsize_in-Leaves (p ∷ f ∷ []) ss ts log h in inr (e, l)
setsocketsize_in-account (p ∷ []) ss ts log h =
    let (e, l, _) = setsocketsize_in-Leaves (p ∷ []) ss ts log h in inr (e, l)
setsocketsize_in-account [] ss ts log h =
    let (e, l, _) = setsocketsize_in-Leaves [] ss ts log h in inr (e, l)
