-- ===== src/Audit/Buffer.antt =====
-- auditexample/module/audit.c: which calls the buffer holds, and when the readers are woken.
use linux_driver.Base.{
  ℕ, zero, suc, ◌+◌, ◌-◌, ◌%◌, ◌^◌, ◌<◌, ◌≤◌, ◌≡◌, refl, sym, ap, ◌∙◌, inl, inr, Bool-cases, List,
  [], ◌∷◌, ◌++◌, length, take, set, min, length-set, append_assoc, append-nil, ltb, leb, ◌&&◌,
  if◌then◌else◌, arith,
}
use linux_driver.Audit.{SyscallBuf, Audit, Call, filled, mod_syscall_audit, audited}

-- The buffer has its size, and the position does not leave it; the serial number is a u32.
pub record IsAudit (a : Audit) : Type 0 where
  pub sized : length a.audit_buf ≡ 100
  pub within : a.current_pos ≤ 100
  pub counted : a.serial < 2 ^ 32

-- The records that wait to be fetched.
abbrev pub pending : Audit → List SyscallBuf
pending a = take a.current_pos a.audit_buf

-- The records of several calls, with their serial numbers in sequence.
abbrev pub stamped : (serial : ℕ) → List Call → List SyscallBuf
stamped n [] = []
stamped n (c ∷ cs) = filled n c ∷ stamped ((n + 1) % 2 ^ 32) cs

take-set :
    (b : List SyscallBuf) (p : ℕ) (x : SyscallBuf)
    → p < length b
    → take (suc p) (set b p x) ≡ take p b ++ (x ∷ [])
take-set [] p x h = absurd (omega arith)
take-set (y ∷ b) zero x h = refl
take-set (y ∷ b) (suc p) x h = ap (λ l. y ∷ l) (take-set b p x (omega arith))

mod_syscall_audit-IsAudit : (a : Audit) (c : Call) → IsAudit a → IsAudit (mod_syscall_audit a c).0
unfolding mod_syscall_audit
mod_syscall_audit-IsAudit a c h =
    ground (arith, length-set a.audit_buf a.current_pos (filled a.serial c))

pub audited-IsAudit : (cs : List Call) (a : Audit) → IsAudit a → IsAudit (audited cs a).0
unfolding audited
audited-IsAudit [] a h = h
audited-IsAudit (c ∷ cs) a h = audited-IsAudit cs _ (mod_syscall_audit-IsAudit a c h)

pub audited-current_pos :
    (cs : List Call) (a : Audit)
    → IsAudit a
    → (audited cs a).0.current_pos ≡ min 100 (a.current_pos + length cs)
unfolding audited
audited-current_pos [] a h = omega (arith, h.within)
audited-current_pos (c ∷ cs) a h =
    ground
      (arith, audited-current_pos cs (mod_syscall_audit a c).0 (mod_syscall_audit-IsAudit a c h))

take-nil : (n : ℕ) → take {A = SyscallBuf} n [] ≡ []
take-nil zero = refl
take-nil (suc n) = refl

-- One call: where there is room its record is the next one, and otherwise nothing changes.
mod_syscall_audit-pending :
    (a : Audit) (c : Call) (cs : List Call)
    → IsAudit a
    → let a' = (mod_syscall_audit a c).0 in
      pending a' ++ take (100 - a'.current_pos) (stamped a'.serial cs)
      ≡ pending a ++ take (100 - a.current_pos) (stamped a.serial (c ∷ cs))
unfolding mod_syscall_audit
mod_syscall_audit-pending a c cs h = elim (Bool-cases (ltb a.current_pos 100)) [
  | inl room ↦
      let more : a.current_pos + 1 ≡ suc a.current_pos = omega arith in
      let less : 100 - a.current_pos ≡ suc (100 - (a.current_pos + 1)) = ground arith in
      let lt : a.current_pos < length a.audit_buf = ground arith in
      let f = filled a.serial c in
      rw (room, mod_syscall_audit, less, more, take-set a.audit_buf a.current_pos f lt)
        (append_assoc (pending a) (f ∷ []) _)
  | inr full ↦
      let none_left : 100 - a.current_pos ≡ 0 = ground arith in
      rw (full, mod_syscall_audit, none_left) refl
]

pub audited-pending :
    (cs : List Call) (a : Audit)
    → IsAudit a
    → pending (audited cs a).0 ≡ pending a ++ take (100 - a.current_pos) (stamped a.serial cs)
unfolding audited
audited-pending [] a h = rw (take-nil (100 - a.current_pos)) (sym (append-nil (pending a)))
audited-pending (c ∷ cs) a h =
    audited-pending cs (mod_syscall_audit a c).0 (mod_syscall_audit-IsAudit a c h)
    ∙ mod_syscall_audit-pending a c cs h

pub audited-wakes :
    (cs : List Call) (a : Audit)
    → IsAudit a
    → (audited cs a).1
      ≡ (if ltb a.current_pos 80 && leb 80 (a.current_pos + length cs) then 1 else 0)
unfolding audited
audited-wakes [] a h = ground arith
audited-wakes (c ∷ cs) a h =
    ground (arith, audited-wakes cs (mod_syscall_audit a c).0 (mod_syscall_audit-IsAudit a c h))
