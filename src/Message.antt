-- ===== src/Message.antt =====
-- common/dbgmsg.c: prints the bytes of a message in hexadecimal.
pub mod Rows
pub mod Total
use linux_driver.Base.{
  ℕ, zero, suc, ◌+◌, ◌-◌, ◌/◌, ◌%◌, Bool, true, false, Option, none, some, List, [], ◌∷◌, ◌++◌,
  length, leb, ltb, ◌==◌, if◌then◌else◌,
}

-- The character of a digit: `0` to `9`, then `a` to `f`.
unfoldable pub digit : ℕ → ℕ
digit d = if ltb d 10 then 48 + d else 87 + d

-- `snprintf(…, 3, "%02x", byte)` writes two digits and a NUL.
unfoldable pub hex : (byte : ℕ) → List ℕ
unfolding digit
hex b = digit (b / 16 % 16) ∷ digit (b % 16) ∷ []

-- Two digits more in `ucBuf`, a fault if they and the NUL do not fit in its 64 bytes.
unfoldable pub append_hex : (ucBuf : List ℕ) (byte : ℕ) → Option (List ℕ)
unfolding hex
append_hex buf b = if leb (length buf + 3) 64 then some (buf ++ hex b) else none

abbrev pub print_before : List ℕ → Option (List (List ℕ)) → Option (List (List ℕ))
print_before line none = none
print_before line (some lines) = some (line ∷ lines)

-- The loop from `dwLp` on, with the text in `ucBuf`: the lines that it prints.
unfoldable pub dump : (dwLp : ℕ) (ucBuf : List ℕ) → (msg : List ℕ) → Option (List (List ℕ))
unfolding append_hex
dump i buf [] = some []
dump i buf (b ∷ bs) = elim (i % 16 == 0) [
  | true ↦ print_before buf (dump (i + 1) [] bs)
  | false ↦ elim (append_hex buf b) [ none ↦ none | some buf' ↦ dump (i + 1) buf' bs ]
]

-- The lines between the two rulers; the function returns 0.
unfoldable pub dbg_print_msg : (msg : List ℕ) → ℕ × Option (List (List ℕ))
unfolding dump
dbg_print_msg msg = (0, dump 0 [] msg)
