-- ===== src/Audit/Upload.antt =====
-- auditexample/: what the daemon gets and prints, with system calls audited meanwhile.
use linux_driver.Base.{ℕ, ◌+◌, ◌≤◌, ◌↔◌, ◌≢◌, ℤ, Bool, false, none, List, length, arith}
use linux_driver.Audit.{SyscallBuf, Audit, Call, Hooks, audited, mod_sys_audit}
use linux_driver.Audit.Buffer.{IsAudit, audited-current_pos, audited-wakes}

-- Without a signal a read returns exactly when the calls that come in while it waits make the buffer
-- near full: no wake-up is lost, although the calls wake the reader only once, at the very record
-- that makes the buffer near full.
pub mod_sys_audit-returns :
    (waiting copying resetting : List Call) (us : List SyscallBuf) (a : Audit) (size : ℕ)
    → IsAudit a
    → (mod_sys_audit 0 size false waiting copying resetting us a ≢ none)
      ↔ (80 ≤ a.current_pos + length waiting)
unfolding mod_sys_audit
mod_sys_audit-returns waiting copying resetting us a size h =
    ground (arith, audited-current_pos waiting a h, audited-wakes waiting a h)

module _ (hooks : Hooks) (eax : ℤ) (signal : Bool) (waiting copying resetting : List Call)
    (col : List SyscallBuf) (a : Audit) where
  abbrev pub a1 : Audit
  a1 = (audited waiting a).0

  abbrev pub a2 : Audit
  a2 = (audited copying a1).0

  abbrev pub a3 : Audit
  a3 = (audited resetting a2).0
