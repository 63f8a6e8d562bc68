-- ===== src/App/ReadWrite.antt =====
-- chrdevbase/chrdevbaseApp.c and newchrdevbase/newchrdevbaseApp.c, the same program twice: it reads
-- from the device, or writes a text to it.
pub mod Session
use linux_driver.Base.{
  ℕ, ◌+◌, ℤ, pos, negsuc, is_neg, eqb_ℤ, Bool, true, false, ◌||◌, Option, none, some, List, [], ◌∷◌,
  ◌==◌, if◌then◌else◌, length, cstr,
}
use linux_driver.CharDev.Chrdev.{chrdevbase_read, chrdevbase_write}
use linux_driver.CharDev.NewChrdev.{newchardevbase_read, newchardevbase_write}

-- The operations of the driver behind the device file: its buffer, the caller's memory, the count,
-- and the bytes that a copy leaves uncopied. `none` is a fault in the driver.
pub record Operations : Type 0 where
  pub read : (samebuf user : List ℕ) (count left : ℕ) → Option (ℤ × List ℕ)
  pub write : (samebuf user : List ℕ) (count left : ℕ) → Option (ℤ × List ℕ)

abbrev pub chrdevbase_ops : Operations
chrdevbase_ops = record { read = chrdevbase_read; write = chrdevbase_write }

abbrev pub newchrdevbase_ops : Operations
newchrdevbase_ops = record { read = newchardevbase_read; write = newchardevbase_write }

pub data Line : Type 0 where
  invalid_parameter cannot_open read_failed write_failed write_success close_failed : Line
  read_success : (data' : List ℕ) → Line

-- Of the arguments: how many they are, `atoi(argv[2])` and the text of `argv[3]`, which are looked
-- at only if there are four.
pub record Args : Type 0 where
  pub argc : ℕ
  pub mode : ℤ
  pub text : List ℕ

-- What the system answers: the file descriptor, the bytes that a copy leaves, the result of `close`.
pub record Answers : Type 0 where
  pub fd : ℤ
  pub left : ℕ
  pub closed : ℤ

-- The exit code, the lines and the driver's buffer.
pub record Outcome : Type 0 where
  pub ret : ℤ
  pub lines : List Line
  pub samebuf : List ℕ

-- Whether printing a buffer as a string ends inside it.
unfoldable pub has_nul : List ℕ → Bool
has_nul [] = false
has_nul (c ∷ cs) = (c == 0) || has_nul cs

-- The end of `main`.
unfoldable pub close_file : Answers → List Line → (samebuf : List ℕ) → Outcome
close_file k lines samebuf =
    if is_neg k.closed
    then record { ret = pos 0; lines = close_failed ∷ lines; samebuf = samebuf }
    else record { ret = pos 0; lines = lines; samebuf = samebuf }

module _ (ops : Operations) where
  -- `readbuf` has 100 bytes. It is printed as a string: a fault if it holds no NUL.
  unfoldable pub read_file : Answers → (readbuf samebuf : List ℕ) → Option Outcome
  unfolding has_nul close_file
  read_file k readbuf samebuf = elim (ops.read samebuf readbuf 100 k.left) [
    | none ↦ none
    | some (ret, readbuf') ↦
        if is_neg ret
        then some (record { ret = negsuc 0; lines = read_failed ∷ []; samebuf = samebuf })
        else if has_nul readbuf'
        then some (close_file k (read_success (cstr readbuf') ∷ []) samebuf)
        else none
  ]

  -- `strlen` bytes are written, the NUL is not.
  unfoldable pub write_file : Answers → (text samebuf : List ℕ) → Option Outcome
  unfolding close_file
  write_file k text samebuf = elim (ops.write samebuf text (length text) k.left) [
    | none ↦ none
    | some (ret, samebuf') ↦
        if is_neg ret
        then some (record { ret = negsuc 0; lines = write_failed ∷ []; samebuf = samebuf' })
        else some (close_file k (write_success ∷ []) samebuf')
  ]

  unfoldable pub main : Args → Answers → (readbuf samebuf : List ℕ) → Option Outcome
  unfolding read_file write_file
  main a k readbuf samebuf =
      let fail : Line → Outcome =
        λ line. record { ret = negsuc 0; lines = line ∷ []; samebuf = samebuf } in
      if a.argc == 4
      then (if is_neg k.fd
          then some (fail cannot_open)
          else if eqb_ℤ a.mode (pos 1)
          then read_file k readbuf samebuf
          else if eqb_ℤ a.mode (pos 2)
          then write_file k a.text samebuf
          else some (close_file k (invalid_parameter ∷ []) samebuf))
      else some (fail invalid_parameter)

unfoldable pub chrdevbase_app : Args → Answers → (readbuf samebuf : List ℕ) → Option Outcome
unfolding main chrdevbase_read chrdevbase_write
chrdevbase_app = main chrdevbase_ops

unfoldable pub newchrdevbase_app : Args → Answers → (readbuf samebuf : List ℕ) → Option Outcome
unfolding main newchardevbase_read newchardevbase_write
newchrdevbase_app = main newchrdevbase_ops
