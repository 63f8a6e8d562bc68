-- ===== src/Kernel/Loading.antt =====
-- The outcome of a load function: its return code, the module's variables and the log of calls,
-- and the contract that loading is all or nothing.
use linux_driver.Base.{is_set}
use linux_driver.Base.{ℤ, pos, is_neg, true, some, List, ◌++◌, ◌≡◌, ◌⊎◌}
use linux_driver.Kernel.Events.{Log}
use linux_driver.Kernel.Account.{Resource, Held, account}

pub record Run (S : Type 0) : Type 0 where
  pub ret : ℤ
  pub dev : S
  pub log : Log

-- Loading succeeds with all of the module's resources held, or fails with a negative code and holds
-- none of them; `rs` is what was held before.
abbrev pub AllOrNothing : {S : Type 0} → (S → List Resource) → List Resource → Run S → Type 0
AllOrNothing full rs r =
    ((r.ret ≡ pos 0) × (account r.log ≡ some (full r.dev ++ rs)))
    ⊎ ((is_neg r.ret ≡ true) × (account r.log ≡ some rs))

-- The same, and after a load that succeeded unloading leaves what was held before, `unloaded`.
abbrev pub ReturnsAll : {S : Type 0} → (S → List Resource) → List Resource → Run S → Held → Type 0
ReturnsAll full rs r unloaded =
    ((r.ret ≡ pos 0) × (account r.log ≡ some (full r.dev ++ rs)) × (unloaded ≡ some rs))
    ⊎ ((is_neg r.ret ≡ true) × (account r.log ≡ some rs))

-- The kernel's convention for an `int` answer: 0, or a negative error number.
abbrev pub IsErrno : ℤ → Type 0
IsErrno ret = is_set ret ≡ is_neg ret
