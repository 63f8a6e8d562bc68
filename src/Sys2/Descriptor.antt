-- ===== src/Sys2/Descriptor.antt =====
-- sys2/process.c: the commands on the open files of processes.
pub mod Lookup
pub mod ReadSide
pub mod Listing
use Prim.Native.Nat.{bit_or}
use linux_driver.Base.{
  ℕ, zero, suc, ◌+◌, ℤ, pos, Bool, Option, none, some, List, [], ◌∷◌, ◌++◌, eqb_ℤ, ◌==◌,
  if◌then◌else◌, codes, einval, enodev, length,
}
use linux_driver.Kernel.{rcu_read_lock, rcu_read_unlock, Log}
use linux_driver.Sys2.Console.{
  Line, fd_title, fd_header, fd_info, fd_count, fd_total, invalid_format, changing_size,
  size_changed, socket_not_found,
}

-- What the mode of an inode says, in the order of the tests.
pub data Mode : Type 0 where
  sock reg dir chr blk fifo lnk other : Mode

-- `private_data` of a socket's file may be NULL, and so may the `sk` of the socket: `no_socket` and
-- `no_sock`. A `struct sock` is named by its address.
pub data Private : Type 0 where
  no_socket no_sock : Private
  sock_at : ℕ → Private

pub record File : Type 0 where
  pub mode : Mode
  pub i_size : ℕ
  pub private_data : Private

-- An fdtable: `max_fds` is the length of the list, and NULL is `none`.
abbrev pub FdTable : Type 0
FdTable = List (Option File)

pub record Task : Type 0 where
  pub pid : ℤ
  pub files : Option FdTable

pub record Sock : Type 0 where
  pub sk_userlocks : ℕ
  pub sk_rcvbuf : ℤ
  pub sk_sndbuf : ℤ

abbrev pub Socks : Type 0
Socks = ℕ → Sock

abbrev pub update : Socks → ℕ → Sock → Socks
update ss a s b = if a == b then s else ss b

-- The text that is copied into `char type[10]`.
unfoldable pub type_name : Mode → List ℕ
type_name sock = codes "SOCKET"
type_name reg = codes "REGULAR"
type_name dir = codes "DIRECTORY"
type_name chr = codes "CHARACTER"
type_name blk = codes "BLOCK"
type_name fifo = codes "FIFO"
type_name lnk = codes "SYMLINK"
type_name other = codes "UNKNOWN"

-- The line for a file; a socket with a pointer missing has none.
unfoldable pub file_lines : Socks → (pid : ℤ) (fd : ℕ) → File → List Line
unfolding type_name
file_lines ss pid fd f = elim f.mode [
  | sock ↦ elim f.private_data [
    | sock_at a ↦ fd_info pid fd (type_name f.mode) (ss a).sk_rcvbuf (ss a).sk_sndbuf ∷ []
    | _ ↦ []
  ]
  | _ ↦ fd_info pid fd (type_name f.mode) (pos f.i_size) (pos f.i_size) ∷ []
]

-- The inner loop, from `fd` on: the files seen, and the lines in the order of printing.
unfoldable pub show_files : Socks → (pid : ℤ) (fd : ℕ) → FdTable → ℕ × List Line
unfolding file_lines
show_files ss pid fd [] = (0, [])
show_files ss pid fd (none ∷ fs) = show_files ss pid (fd + 1) fs
show_files ss pid fd (some f ∷ fs) =
    let r = show_files ss pid (fd + 1) fs in (suc r.0, file_lines ss pid fd f ++ r.1)

-- The loop over the processes, with the total so far, and the calls on the way.
unfoldable pub show_tasks : Socks → (total : ℕ) → List Task → Log → List Line × Log
unfolding show_files
show_tasks ss total [] log = (fd_total total ∷ [], log)
show_tasks ss total (t ∷ ts) log = elim t.files [
  | none ↦ show_tasks ss total ts log
  | some fdt ↦
      let r = show_files ss t.pid 0 fdt in
      let rest = show_tasks ss (total + r.0) ts (rcu_read_unlock ∷ rcu_read_lock ∷ log) in
      (r.1 ++ (fd_count t.pid r.0 ∷ rest.0), rest.1)
]

unfoldable pub showprocessfd_in : Socks → List Task → Log → ℤ × List Line × Log
unfolding show_tasks
showprocessfd_in ss ts log =
    let r = show_tasks ss 0 ts log in (pos 0, fd_title ∷ fd_header ∷ r.0, r.1)

-- `sk_userlocks |= SOCK_RCVBUF_LOCK | SOCK_SNDBUF_LOCK`, which are 2 and 1, and the two sizes.
unfoldable pub resize : (rcv snd : ℤ) → Sock → Sock
resize rcv snd s = record {
  sk_userlocks = bit_or s.sk_userlocks 3;
  sk_rcvbuf = rcv;
  sk_sndbuf = snd;
}

-- The address of the socket that the inner loop changes: the file of number `fd`, a socket with
-- both pointers set.
unfoldable pub find_sock : (fd : ℤ) (lfd : ℕ) → FdTable → Option ℕ
find_sock fd lfd [] = none
find_sock fd lfd (none ∷ fs) = find_sock fd (lfd + 1) fs
find_sock fd lfd (some f ∷ fs) =
    let rest = find_sock fd (lfd + 1) fs in
    if eqb_ℤ (pos lfd) fd
    then (elim f.mode [ sock ↦ elim f.private_data [ sock_at a ↦ some a | _ ↦ rest ] | _ ↦ rest ])
    else rest

pub record Resized : Type 0 where
  pub ret : ℤ
  pub socks : Socks
  pub log : Log
  pub lines : List Line

-- The loop over the processes. From the socket's branch the function returns at once, inside the
-- read-side section.
unfoldable pub resize_in : (pid fd rcv snd : ℤ) → Socks → List Task → Log → List Line → Resized
unfolding resize find_sock
resize_in pid fd rcv snd ss [] log lines = record {
  ret = enodev;
  socks = ss;
  log = log;
  lines = socket_not_found pid fd ∷ lines;
}
resize_in pid fd rcv snd ss (t ∷ ts) log lines =
    let skipped = resize_in pid fd rcv snd ss ts log lines in
    let passed = resize_in pid fd rcv snd ss ts (rcu_read_unlock ∷ rcu_read_lock ∷ log) lines in
    if eqb_ℤ t.pid pid
    then (elim t.files [
      | none ↦ skipped
      | some fdt ↦ elim (find_sock fd 0 fdt) [
        | none ↦ passed
        | some a ↦ record {
          ret = pos 0;
          socks = update ss a (resize rcv snd (ss a));
          log = rcu_read_lock ∷ log;
          lines = size_changed pid fd rcv snd ∷ lines;
        }
      ]
    ])
    else skipped

-- `scanned` is what `sscanf` converts of four `%d` fields. The lines stand latest first.
unfoldable pub setsocketsize_in : (scanned : List ℤ) → Socks → List Task → Log → Resized
unfolding resize_in
setsocketsize_in (pid ∷ fd ∷ rcv ∷ snd ∷ more) ss ts log =
    resize_in pid fd rcv snd ss ts log (changing_size pid fd rcv snd ∷ [])
setsocketsize_in other_input ss ts log = record {
  ret = einval;
  socks = ss;
  log = log;
  lines = invalid_format ∷ [];
}
