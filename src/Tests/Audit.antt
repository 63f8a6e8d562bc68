-- ===== src/Tests/Audit.antt =====
-- The audit of system calls at concrete inputs.
use linux_driver.Base.{
  ◌+◌, ◌-◌, ◌^◌, ◌≤◌, ◌≢◌, ◌↔◌, refl, pos, true, false, none, List, [], ◌∷◌, length, replicate,
  codes, arith,
}
use linux_driver.Audit.{Audit, Call, Hooks, zero_record, mod_sys_audit}
use linux_driver.Audit.Buffer.{IsAudit}
use linux_driver.Audit.Upload.{mod_sys_audit-returns}

abbrev call : Call
call = record {
  syscall = 5;
  return_status = pos 3;
  tv_sec = 100;
  tv_usec = 7;
  pid = pos 42;
  uid = 0;
  euid = 0;
  tty = none;
  comm = codes "cat";
}

-- A buffer with one place left.
abbrev almost_full : Audit
almost_full = record {
  audit_buf = replicate 100 zero_record;
  current_pos = 99;
  serial = 2 ^ 32 - 1;
}

abbrev two : List Call
two = call ∷ call ∷ []

-- An empty buffer, which eighty calls make near full.
abbrev fresh : Audit
fresh = record { audit_buf = replicate 100 zero_record; current_pos = 0; serial = 0 }

fresh-IsAudit : IsAudit fresh
fresh-IsAudit = record { sized = refl; within = omega arith; counted = omega arith }

abbrev eighty : List Call
eighty = replicate 80 call

mod_sys_audit-returns_example :
    (mod_sys_audit 0 5200 false eighty two [] [] fresh ≢ none)
    ↔ (80 ≤ fresh.current_pos + length eighty)
mod_sys_audit-returns_example = mod_sys_audit-returns eighty two [] [] fresh 5200 fresh-IsAudit

abbrev hooks : Hooks
hooks = record { my_audit = true; my_sysaudit = true }
