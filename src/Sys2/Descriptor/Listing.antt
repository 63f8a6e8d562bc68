-- ===== src/Sys2/Descriptor/Listing.antt =====
-- sys2/process.c: what `showprocessfd` prints, and its read-side sections.
use linux_driver.Base.{append_assoc, Option-cases, inl, inr, ◌∙◌}
use linux_driver.Sys2.Console.{fd_info, fd_count, fd_total, fd_title, fd_header}
use linux_driver.Base.{suc, ap, ◌++◌, codes}
use linux_driver.Base.{ℕ, ◌+◌, ℤ, pos, ◌≡◌, refl, none, some, List, [], ◌∷◌, arith}
use linux_driver.Kernel.{Log, Resource, account, rcu_read_lock, rcu_read_unlock}
use linux_driver.Sys2.Console.{Line}
use linux_driver.Sys2.Descriptor.{
  Mode, Private, no_socket, no_sock, sock_at, sock, reg, dir, chr, blk, fifo, lnk, other,
  file_lines, Task, Socks, FdTable, show_files, show_tasks, showprocessfd_in,
}

-- The files that are open in a table.
abbrev pub open_count : FdTable → ℕ
open_count [] = 0
open_count (none ∷ fs) = open_count fs
open_count (some _ ∷ fs) = suc (open_count fs)

-- The line of a file: its kind, and the sizes of its buffers, for a socket with both pointers set, or
-- twice its own size. A socket with a pointer missing has none.
abbrev pub line_of : Socks → (pid : ℤ) (fd : ℕ) → (mode : Mode) (size : ℕ) → Private → List Line
line_of ss pid fd sock n (sock_at a) =
    fd_info pid fd (codes "SOCKET") (ss a).sk_rcvbuf (ss a).sk_sndbuf ∷ []
line_of ss pid fd sock n _ = []
line_of ss pid fd reg n p = fd_info pid fd (codes "REGULAR") (pos n) (pos n) ∷ []
line_of ss pid fd dir n p = fd_info pid fd (codes "DIRECTORY") (pos n) (pos n) ∷ []
line_of ss pid fd chr n p = fd_info pid fd (codes "CHARACTER") (pos n) (pos n) ∷ []
line_of ss pid fd blk n p = fd_info pid fd (codes "BLOCK") (pos n) (pos n) ∷ []
line_of ss pid fd fifo n p = fd_info pid fd (codes "FIFO") (pos n) (pos n) ∷ []
line_of ss pid fd lnk n p = fd_info pid fd (codes "SYMLINK") (pos n) (pos n) ∷ []
line_of ss pid fd other n p = fd_info pid fd (codes "UNKNOWN") (pos n) (pos n) ∷ []

-- The lines of the files in a table whose first entry has the number `fd`.
abbrev pub listing : Socks → (pid : ℤ) (fd : ℕ) → FdTable → List Line
listing ss pid fd [] = []
listing ss pid fd (none ∷ fs) = listing ss pid (suc fd) fs
listing ss pid fd (some f ∷ fs) =
    line_of ss pid fd f.mode f.i_size f.private_data ++ listing ss pid (suc fd) fs

file_lines-line_of :
    (ss : Socks) (pid : ℤ) (fd : ℕ) (m : Mode) (n : ℕ) (p : Private)
    → file_lines ss pid fd (record { mode = m; i_size = n; private_data = p })
      ≡ line_of ss pid fd m n p
unfolding file_lines
file_lines-line_of ss pid fd sock n no_socket = refl
file_lines-line_of ss pid fd sock n no_sock = refl
file_lines-line_of ss pid fd sock n (sock_at a) = refl
file_lines-line_of ss pid fd reg n p = refl
file_lines-line_of ss pid fd dir n p = refl
file_lines-line_of ss pid fd chr n p = refl
file_lines-line_of ss pid fd blk n p = refl
file_lines-line_of ss pid fd fifo n p = refl
file_lines-line_of ss pid fd lnk n p = refl
file_lines-line_of ss pid fd other n p = refl

show_files_lem :
    (ss : Socks) (pid : ℤ) (fd : ℕ) (fs : FdTable)
    → show_files ss pid fd fs ≡ (open_count fs, listing ss pid fd fs)
unfolding show_files
show_files_lem ss pid fd [] = refl
show_files_lem ss pid fd (none ∷ fs) =
    let next : fd + 1 ≡ suc fd = omega arith in
    rw (next, show_files) (show_files_lem ss pid (suc fd) fs)
show_files_lem ss pid fd (some f ∷ fs) =
    let next : fd + 1 ≡ suc fd = omega arith in
    rw
      (
        next,
        show_files_lem ss pid (suc fd) fs,
        file_lines-line_of ss pid fd f.mode f.i_size f.private_data,
        show_files,
      )
      refl

-- The files that are open in all tasks; a task may have no table.
abbrev pub total_open : List Task → ℕ
total_open [] = 0
total_open (t ∷ ts) = (elim t.files [ none ↦ 0 | some fdt ↦ open_count fdt ]) + total_open ts

-- The lines of the tasks: for each with a table its files, and how many they are.
abbrev pub body : Socks → List Task → List Line
body ss [] = []
body ss (t ∷ ts) =
    (elim t.files [
      | none ↦ []
      | some fdt ↦ listing ss t.pid 0 fdt ++ (fd_count t.pid (open_count fdt) ∷ [])
    ])
    ++ body ss ts

show_tasks-body :
    (ss : Socks) (total : ℕ) (ts : List Task) (log : Log) (rs : List Resource)
    → account log ≡ some rs
    → ((show_tasks ss total ts log).0 ≡ body ss ts ++ (fd_total (total + total_open ts) ∷ []))
      × (account (show_tasks ss total ts log).1 ≡ some rs)
unfolding show_tasks
show_tasks-body ss total [] log rs h = (ap (λ n. fd_total n ∷ []) (omega arith), h)
show_tasks-body ss total (t ∷ ts) log rs h = elim (Option-cases t.files) [
  | inl e ↦ ground (arith, show_tasks-body ss total ts log rs h)
  | inr (fdt, e) ↦
      let shown = show_files ss t.pid 0 fdt in
      ground (
        arith,
        show_files_lem ss t.pid 0 fdt,
        show_tasks-body ss (total + shown.0) ts (rcu_read_unlock ∷ rcu_read_lock ∷ log) rs,
        append_assoc shown.1 (fd_count t.pid (open_count fdt) ∷ [])
            (body ss ts ++ (fd_total (total + (open_count fdt + total_open ts)) ∷ [])),
        append_assoc shown.1 (fd_count t.pid (open_count fdt) ∷ []) (body ss ts),
        append_assoc (shown.1 ++ (fd_count t.pid (open_count fdt) ∷ [])) (body ss ts)
            (fd_total (total + (open_count fdt + total_open ts)) ∷ []),
      )
]

-- From a state without a fault, `showprocessfd` prints for every task with a table a line for each of
-- its open files, with the number, the kind and the sizes, but none for a socket with a pointer
-- missing; then how many files it has open; and at the end the number of open files of all tasks. It
-- leaves every read-side section that it enters.
pub showprocessfd_in-body :
    (ss : Socks) (ts : List Task) (log : Log) {rs : List Resource}
    → account log ≡ some rs
    → let r = showprocessfd_in ss ts log in
      (r.0 ≡ pos 0)
      × (r.1 ≡ fd_title ∷ fd_header ∷ (body ss ts ++ (fd_total (total_open ts) ∷ [])))
      × (account r.2 ≡ some rs)
unfolding showprocessfd_in
showprocessfd_in-body ss ts log {rs} h =
    let both = show_tasks-body ss 0 ts log rs h in
    (
      refl,
      ap (λ l. fd_title ∷ fd_header ∷ l)
          (both.0 ∙ ap (λ n. body ss ts ++ (fd_total n ∷ [])) (omega arith)),
      both.1,
    )
