-- ===== src/Message/Total.antt =====
-- common/dbgmsg.c: a message of any length is printed without a fault.
use linux_driver.Base.{
  ℕ, ◌+◌, ◌*◌, ◌%◌, ◌≤◌, ◌<◌, ◌≡◌, true, false, Option, some, List, [], ◌∷◌, ◌++◌, length,
  length-append, ◌==◌, refl, arith, Bool-cases, inl, inr,
}
use linux_driver.Message.{hex, append_hex, dump, dbg_print_msg}

-- The digits of the bytes since the first of the row.
Fits : (dwLp : ℕ) (ucBuf : List ℕ) → Type 0
Fits i buf = 0 < i % 16 → length buf + 2 ≤ 2 * (i % 16)

unfoldable pub Prints : Option (List (List ℕ)) → Type 0
Prints o = (lines : List (List ℕ)) × (o ≡ some lines)

append_hex-fits : (buf : List ℕ) (b : ℕ) → length buf ≤ 28 → append_hex buf b ≡ some (buf ++ hex b)
unfolding append_hex
append_hex-fits buf b h = ground arith

module _ (i : ℕ) where
  starts : (i % 16 == 0) ≡ true → Fits (i + 1) []
  unfolding Fits
  starts first h = ground arith

  has_room : (buf : List ℕ) → (i % 16 == 0) ≡ false → Fits i buf → length buf ≤ 28
  unfolding Fits
  has_room buf inside h = ground arith

  goes_on :
      (buf : List ℕ) (b : ℕ) → (i % 16 == 0) ≡ false → Fits i buf → Fits (i + 1) (buf ++ hex b)
  unfolding Fits hex
  goes_on buf b inside h next = grind (arith, length-append)

dump-Prints : (msg : List ℕ) (i : ℕ) (buf : List ℕ) → Fits i buf → Prints (dump i buf msg)
unfolding dump Prints
dump-Prints [] i buf h = ([], refl)
dump-Prints (b ∷ bs) i buf h = elim (Bool-cases (i % 16 == 0)) [
  | inl first ↦
      let (lines, e) = dump-Prints bs (i + 1) [] (starts i first) in
      (buf ∷ lines, rw (first, dump, e))
  | inr inside ↦
      let fits = append_hex-fits buf b (has_room i buf inside h) in
      let (lines, e) = dump-Prints bs (i + 1) (buf ++ hex b) (goes_on i buf b inside h) in
      (lines, rw (inside, dump, fits) e)
]

pub dbg_print_msg-Prints : (msg : List ℕ) → Prints (dbg_print_msg msg).1
unfolding dbg_print_msg Fits
dbg_print_msg-Prints msg = dump-Prints msg 0 [] (λ h. omega arith)
