-- ===== src/CharDev/Chrdev.antt =====
-- chrdevbase/chrdevbase.c: a character device with a fixed major number and one 100-byte buffer.
pub mod Buffer
pub mod Load
use linux_driver.Base.{ℕ, ℤ, pos, Option, none, some, List, ◌∷◌}
use linux_driver.Kernel.{register_chrdev, unregister_chrdev, Log, copy_from_user, copy_to_user}

abbrev pub chardevbase_major : ℕ
chardevbase_major = 200

unfoldable pub chrdevbase_open : ℤ
chrdevbase_open = pos 0

unfoldable pub chrdevbase_release : ℤ
chrdevbase_release = pos 0

-- `sizeof(samebuf)` bytes go to the caller's memory, whatever `count` is.
unfoldable pub chrdevbase_read : (samebuf user : List ℕ) (count left : ℕ) → Option (ℤ × List ℕ)
chrdevbase_read samebuf user count left = elim (copy_to_user user samebuf 100 left) [
  | none ↦ none
  | some user' ↦ some (pos 0, user')
]

-- `count` is the caller's, and nothing bounds it by the size of the buffer.
unfoldable pub chrdevbase_write : (samebuf user : List ℕ) (count left : ℕ) → Option (ℤ × List ℕ)
chrdevbase_write samebuf user count left = elim (copy_from_user samebuf user count left) [
  | none ↦ none
  | some samebuf' ↦ some (pos 0, samebuf')
]

-- The kernel's answer `ret` is printed, and the load function returns 0 in any case.
unfoldable pub chrdevbase_init : (ret : ℤ) → Log → ℤ × Log
chrdevbase_init ret log = (pos 0, register_chrdev ret chardevbase_major ∷ log)

unfoldable pub chrdevbase_exit : Log → Log
chrdevbase_exit log = unregister_chrdev chardevbase_major ∷ log
