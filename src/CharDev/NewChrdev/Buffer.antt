-- ===== src/CharDev/NewChrdev/Buffer.antt =====
-- newchrdevbase/newchrdevbase.c: the buffer of 100 bytes behind read and write.
use linux_driver.Base.{
  ℕ, ◌<◌, ◌≤◌, pos, ◌≡◌, ◌↔◌, none, some, List, ◌++◌, length, drop, arith, length-append,
  length-drop, refl,
}
use linux_driver.Kernel.{copy_from_user_all, copy_to_user_all}
use linux_driver.CharDev.NewChrdev.{newchardevbase_read, newchardevbase_write}

module _ (samebuf : List ℕ) where
  -- A write runs past the end of the 100-byte buffer exactly when it is given more than 100 bytes.
  pub newchardevbase_write_faults :
      (user : List ℕ) (count left : ℕ)
      → length samebuf ≡ 100
      → (newchardevbase_write samebuf user count left ≡ none) ↔ (100 < count)
  unfolding newchardevbase_write
  newchardevbase_write_faults user count left e = ground arith

  -- Over a buffer of 100 bytes, what is written, at most 100 bytes and copied in full, stands at
  -- the front of what a read delivers that is copied in full, followed by the older bytes of the
  -- buffer; the caller's memory behind the first 100 bytes stays. Both calls return 0.
  pub newchardevbase_read-newchardevbase_write :
      (bytes user : List ℕ) (count : ℕ)
      → length samebuf ≡ 100
      → length bytes ≤ 100
      → let samebuf' = bytes ++ drop (length bytes) samebuf in
        (newchardevbase_write samebuf bytes (length bytes) 0 ≡ some (pos 0, samebuf'))
        × (newchardevbase_read samebuf' user count 0 ≡ some (pos 0, samebuf' ++ drop 100 user))
  unfolding newchardevbase_write newchardevbase_read
  newchardevbase_read-newchardevbase_write bytes user count e h = (
    ground (arith, copy_from_user_all samebuf bytes (length bytes) (omega arith) refl),
    ground (arith, copy_to_user_all user (bytes ++ drop (length bytes) samebuf) 100 full),
  )
    where
      full : 100 ≡ length (bytes ++ drop (length bytes) samebuf)
      full = omega (
        arith,
        length-append bytes (drop (length bytes) samebuf),
        length-drop (length bytes) samebuf,
      )
