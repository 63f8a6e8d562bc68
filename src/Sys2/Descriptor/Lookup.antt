-- ===== src/Sys2/Descriptor/Lookup.antt =====
-- sys2/process.c: which socket stands at a number of a task.
use linux_driver.Base.{inl, inr, ◌∙◌}
use mathlib.Core.Path.{subst}
use linux_driver.Base.{suc, zero, ap, sym, Option, eqb_ℤ, ==_refl}
use linux_driver.Base.{ℕ, ◌+◌, ℤ, pos, true, false, ◌≡◌, ◌≢◌, ◌⊎◌, none, some, List, [], ◌∷◌, arith}
use linux_driver.Sys2.Descriptor.{File, sock_at, sock, find_sock, Task, FdTable}

-- The socket behind a file, and behind the file with number `k` of a table.
abbrev pub socket_of : File → Option ℕ
socket_of f = elim f.mode [
  | sock ↦ elim f.private_data [ sock_at a ↦ some a | _ ↦ none ]
  | _ ↦ none
]

abbrev pub sock_number : FdTable → (k : ℕ) → Option ℕ
sock_number [] k = none
sock_number (none ∷ fs) zero = none
sock_number (some f ∷ fs) zero = socket_of f
sock_number (_ ∷ fs) (suc k) = sock_number fs k

-- The task has this pid and the socket `a` at the number `fd` of its table.
abbrev pub HasHere : (pid fd : ℤ) (a : ℕ) → Task → Type 0
HasHere pid fd a t =
    (t.pid ≡ pid)
    × ((fdt : FdTable) × (t.files ≡ some fdt)
        × ((k : ℕ) × (fd ≡ pos k) × (sock_number fdt k ≡ some a)))

-- Some task does.
abbrev pub HasSock : (pid fd : ℤ) (a : ℕ) → List Task → Type 0
HasSock pid fd a [] = ⊥
HasSock pid fd a (t ∷ ts) = HasHere pid fd a t ⊎ HasSock pid fd a ts

first_or_rest :
    (fd : ℤ) (lfd : ℕ) (f : File) (fs : FdTable) (a : ℕ)
    → find_sock fd lfd (some f ∷ fs) ≡ some a
    → ((fd ≡ pos lfd) × (socket_of f ≡ some a)) ⊎ (find_sock fd (lfd + 1) fs ≡ some a)
unfolding find_sock
first_or_rest fd lfd f fs a e = ground arith

pub find_sock-sock_number :
    (fd : ℤ) (lfd : ℕ) (fdt : FdTable) (a : ℕ)
    → find_sock fd lfd fdt ≡ some a
    → (k : ℕ) × (fd ≡ pos (lfd + k)) × (sock_number fdt k ≡ some a)
unfolding find_sock
find_sock-sock_number fd lfd [] a e = absurd (ground arith)
find_sock-sock_number fd lfd (none ∷ fs) a e =
    let (k, n, g) = find_sock-sock_number fd (lfd + 1) fs a e in
    (suc k, n ∙ ap pos (omega arith), g)
find_sock-sock_number fd lfd (some f ∷ fs) a e = elim (first_or_rest fd lfd f fs a e) [
  | inl (n, g) ↦ (0, n ∙ ap pos (omega arith), g)
  | inr later ↦
      let (k, n, g) = find_sock-sock_number fd (lfd + 1) fs a later in
      (suc k, n ∙ ap pos (omega arith), g)
]

later_none :
    (fd : ℤ) (lfd : ℕ) (f : File) (fs : FdTable)
    → find_sock fd lfd (some f ∷ fs) ≡ none
    → find_sock fd (lfd + 1) fs ≡ none
unfolding find_sock
later_none fd lfd f fs e = ground arith

here_none :
    (lfd : ℕ) (f : File) (fs : FdTable) (a : ℕ)
    → find_sock (pos lfd) lfd (some f ∷ fs) ≡ none
    → socket_of f ≢ some a
unfolding find_sock
here_none lfd f fs a e g = ground (arith, ==_refl lfd)

-- Where none is found, there is none.
pub find_sock-none :
    (fd : ℤ) (lfd k : ℕ) (fdt : FdTable) (a : ℕ)
    → find_sock fd lfd fdt ≡ none
    → fd ≡ pos (lfd + k)
    → sock_number fdt k ≢ some a
unfolding find_sock
find_sock-none fd lfd k [] a e n g = ground arith
find_sock-none fd lfd zero (none ∷ fs) a e n g = ground arith
find_sock-none fd lfd (suc k) (none ∷ fs) a e n g =
    find_sock-none fd (lfd + 1) k fs a e (n ∙ ap pos (omega arith)) g
find_sock-none fd lfd zero (some f ∷ fs) a e n g =
    let same : fd ≡ pos lfd = n ∙ ap pos (omega arith) in
    here_none lfd f fs a (subst (λ z. find_sock z lfd (some f ∷ fs) ≡ none) same e) g
find_sock-none fd lfd (suc k) (some f ∷ fs) a e n g =
    find_sock-none fd (lfd + 1) k fs a (later_none fd lfd f fs e) (n ∙ ap pos (omega arith)) g

module _ (pid fd : ℤ) (t : Task) where
  eqb_ℤ_here : t.pid ≡ pid → eqb_ℤ t.pid pid ≡ true
  eqb_ℤ_here e = ground arith

  pub not_this_pid : eqb_ℤ t.pid pid ≡ false → (a : ℕ) → ¬ HasHere pid fd a t
  not_this_pid e a (p, _) = ground (arith, eqb_ℤ_here p)

  pub no_files : t.files ≡ none → (a : ℕ) → ¬ HasHere pid fd a t
  no_files e a (_, (fdt, f, _)) = ground arith

  pub no_sock_here :
      (fdt : FdTable)
      → t.files ≡ some fdt
      → find_sock fd 0 fdt ≡ none
      → (a : ℕ) → ¬ HasHere pid fd a t
  no_sock_here fdt f g a (_, (fdt', f', (k, n, s))) =
      let same : fdt' ≡ fdt = ground arith in
      find_sock-none fd 0 k fdt a g (n ∙ ap pos (omega arith))
        (ap (λ table. sock_number table k) (sym same) ∙ s)
