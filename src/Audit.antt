-- ===== src/Audit.antt =====
-- auditexample/: an audit of system calls. module/audit.c records every call in a buffer of 100
-- records; forKenerl/audit.c is the part in the kernel, which calls the module through two
-- pointers; daemon/auditd.c fetches the records and prints them.
pub mod Buffer
pub mod Upload
use linux_driver.Base.{
  ℕ, ◌+◌, ◌*◌, ◌/◌, ◌%◌, ◌^◌, ℤ, pos, negsuc, Bool, true, false, ◌||◌, Option, none, some, List, [],
  ◌∷◌, ◌++◌, ltb, leb, ◌&&◌, ◌==◌, if◌then◌else◌, length, take, drop, set, replicate, get_or,
}

abbrev pub comm_size : ℕ
comm_size = 16

-- `struct syscall_buf`, 52 bytes.
pub record SyscallBuf : Type 0 where
  pub serial : ℕ
  pub ts_sec : ℕ
  pub ts_micro : ℕ
  pub syscall : ℕ
  pub status : ℤ
  pub pid : ℤ
  pub uid : ℕ
  pub euid : ℕ
  pub device : ℤ
  pub comm : List ℕ

abbrev pub sizeof_syscall_buf : ℕ
sizeof_syscall_buf = 52

-- A record of zero bytes.
abbrev pub zero_record : SyscallBuf
zero_record = record {
  serial = 0;
  ts_sec = 0;
  ts_micro = 0;
  syscall = 0;
  status = pos 0;
  pid = pos 0;
  uid = 0;
  euid = 0;
  device = pos 0;
  comm = replicate comm_size 0;
}

abbrev pub audit_buf_size : ℕ
audit_buf_size = 100

-- `AUDIT_BUF_SIZE*8/10`
abbrev pub near_full : ℕ
near_full = audit_buf_size * 8 / 10

-- The module's variables.
pub record Audit : Type 0 where
  pub audit_buf : List SyscallBuf
  pub current_pos : ℕ
  pub serial : ℕ

-- One system call: its number and result, the clock, and what is read of `current`. `tty` is NULL
-- for a process without a terminal; `comm` has 16 bytes.
pub record Call : Type 0 where
  pub syscall : ℕ
  pub return_status : ℤ
  pub tv_sec : ℕ
  pub tv_usec : ℕ
  pub pid : ℤ
  pub uid : ℕ
  pub euid : ℕ
  pub tty : Option ℤ
  pub comm : List ℕ

-- The record that is filled in.
unfoldable pub filled : (serial : ℕ) → Call → SyscallBuf
filled n c = record {
  serial = n;
  ts_sec = c.tv_sec;
  ts_micro = c.tv_usec;
  syscall = c.syscall;
  status = c.return_status;
  pid = c.pid;
  uid = c.uid;
  euid = c.euid;
  device = elim c.tty [ none ↦ negsuc 0 | some device ↦ device ];
  comm = take comm_size c.comm;
}

-- The new variables, and whether `wake_up_interruptible` was called. The hook runs to its end before
-- another call is audited.
unfoldable pub mod_syscall_audit : Audit → Call → Audit × Bool
mod_syscall_audit a c =
    if ltb a.current_pos audit_buf_size
    then (
      record {
        audit_buf = set a.audit_buf a.current_pos (filled a.serial c);
        current_pos = a.current_pos + 1;
        serial = (a.serial + 1) % 2 ^ 32;
      },
      a.current_pos + 1 == near_full,
    )
    else (a, false)

-- Several calls, one after the other, and how often they wake the readers.
unfoldable pub audited : List Call → Audit → Audit × ℕ
unfolding mod_syscall_audit
audited [] a = (a, 0)
audited (c ∷ cs) a =
    let r = mod_syscall_audit a c in
    let rest = audited cs r.0 in (rest.0, (if r.1 then 1 else 0) + rest.1)

-- What a read returns, what it leaves in the caller's memory, in records, and the variables.
pub record Reply : Type 0 where
  pub ret : ℕ
  pub us_buf : List SyscallBuf
  pub audit : Audit

-- `__clear_user` for the whole records that fit in `us_buf_size` bytes.
abbrev pub cleared : (us_buf_size : ℕ) → List SyscallBuf → List SyscallBuf
cleared size us = let n = size / sizeof_syscall_buf in replicate n zero_record ++ drop n us

-- `__copy_to_user(us_buf, audit_buf, current_pos * sizeof(struct syscall_buf))`
abbrev pub uploaded : Audit → List SyscallBuf → List SyscallBuf
uploaded a us = take a.current_pos a.audit_buf ++ drop a.current_pos us

-- A read is long, and system calls are audited meanwhile: `waiting` until it goes on from the wait,
-- `copying` until it reads `current_pos` for its result, `resetting` until it sets that to 0. It does
-- not wait if the buffer is near full already; otherwise it sleeps until it is woken by one of the
-- calls and finds the buffer near full; a signal ends the wait too, and the code goes on. `none`: it
-- still waits.
unfoldable pub mod_sys_audit :
    (type us_buf_size : ℕ) (signal : Bool) (waiting copying resetting : List Call)
    → List SyscallBuf
    → Audit
    → Option Reply
unfolding audited
mod_sys_audit type size signal waiting copying resetting us a =
    let a1 = (audited waiting a).0 in
    let a2 = (audited copying a1).0 in
    let a3 = (audited resetting a2).0 in
    let woken = leb near_full a1.current_pos && ltb 0 (audited waiting a).1 in
    if type == 0
    then (if leb near_full a.current_pos || (woken || signal)
        then some (record {
          ret = a2.current_pos;
          us_buf = uploaded a1 (cleared size us);
          audit = record a3 { current_pos = 0 };
        })
        else none)
    else some (record { ret = 0; us_buf = us; audit = a })

-- What loading sets: the pointers, which are NULL in the kernel before, point to the module.
pub record Hooks : Type 0 where
  pub my_audit : Bool
  pub my_sysaudit : Bool

unfoldable pub audit_init : Hooks → Hooks
audit_init h = record { my_audit = true; my_sysaudit = true }

unfoldable pub audit_exit : Hooks → Hooks
audit_exit h = record { my_audit = false; my_sysaudit = false }

-- The system call `audit` without a `return` statement: its result is what the register of the
-- result holds by then, `eax`. Without a module nothing is done.
unfoldable pub sys_audit :
    Hooks
    → (eax : ℤ) (call : Option Reply) (us : List SyscallBuf) → Audit
    → Option (ℤ × List SyscallBuf × Audit)
sys_audit h eax call us a =
    if h.my_sysaudit
    then elim call [ none ↦ none | some r ↦ some (eax, r.us_buf, r.audit) ]
    else some (eax, us, a)

-- The hook at the end of every system call.
unfoldable pub syscall_audit : Hooks → Call → Audit → Audit
unfolding mod_syscall_audit
syscall_audit h c a = if h.my_audit then (mod_syscall_audit a c).0 else a

-- `for (i = 0; i < num; i++)` over the buffer of the daemon: the records that are printed, `none` if
-- it runs past the end.
unfoldable pub print_records : (num : ℤ) (col_buf : List SyscallBuf) → Option (List SyscallBuf)
print_records (pos n) col = if leb n (length col) then some (take n col) else none
print_records (negsuc n) col = some []

-- `AUDIT_BUF_SIZE` of the daemon, in bytes.
abbrev pub col_buf_size : ℕ
col_buf_size = 100 * sizeof_syscall_buf

-- One round of the daemon's loop.
unfoldable pub daemon_round :
    Hooks
    → (eax : ℤ) (signal : Bool) (waiting copying resetting : List Call)
    → (col_buf : List SyscallBuf) → Audit
    → Option (Option (List SyscallBuf) × List SyscallBuf × Audit)
unfolding sys_audit print_records
daemon_round h eax signal waiting copying resetting col a =
    elim (sys_audit h eax (mod_sys_audit 0 col_buf_size signal waiting copying resetting col a) col
      a) [ none ↦ none | some (num, col', a') ↦ some (print_records num col', col', a') ]
