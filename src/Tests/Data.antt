-- ===== src/Tests/Data.antt =====
-- Data that several tests share: device numbers as the kernel packs them, and answers of a kernel
-- where every call succeeds.
use linux_driver.Base.{ℕ, ◌+◌, ◌*◌, ◌/◌, ◌%◌, ◌^◌, ◌≡◌, arith}
use linux_driver.Kernel.{DevT}

pub mkdev-parts_20 : (d : ℕ) → d / 2 ^ 20 * 2 ^ 20 + d % 2 ^ 20 ≡ d
mkdev-parts_20 d = omega arith

-- Twenty bits of minor number.
abbrev pub dev_t : DevT
dev_t = record {
  mkdev = λ ma mi. ma * 2 ^ 20 + mi;
  major = λ d. d / 2 ^ 20;
  minor = λ d. d % 2 ^ 20;
  mkdev-parts = mkdev-parts_20;
}

-- Major number 240, minor number 0.
abbrev pub a_devid : ℕ
a_devid = 251658240
