-- ===== src/Kernel/Numbers.antt =====
-- The macros MKDEV, MAJOR and MINOR of the kernel's headers: a device number is taken apart and put
-- together again. The headers are not part of the repository, so this is an interface.
use linux_driver.Base.{ℕ, ◌≡◌}

pub record DevT : Type 0 where
  pub mkdev : ℕ → ℕ → ℕ
  pub major : ℕ → ℕ
  pub minor : ℕ → ℕ
  pub mkdev-parts : (d : ℕ) → mkdev (major d) (minor d) ≡ d
