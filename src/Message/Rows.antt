-- ===== src/Message/Rows.antt =====
-- common/dbgmsg.c: which bytes of a message are printed.
use linux_driver.Base.{
  ℕ, ◌+◌, ◌*◌, ◌%◌, ◌<◌, ◌≤◌, true, false, ◌≡◌, refl, ap, ap₂, sym, ◌∙◌, some, List, [], ◌∷◌, ◌++◌,
  length, map, append_assoc, append-nil, length-append, arith, ◌==◌,
}
use linux_driver.Message.{hex, append_hex, print_before, dump, dbg_print_msg}

-- The digits of several bytes.
abbrev pub hexes : List ℕ → List ℕ
hexes [] = []
hexes (b ∷ bs) = hex b ++ hexes bs

-- A row of a message: its first byte and the others.
abbrev pub Row : Type 0
Row = ℕ × List ℕ

abbrev pub AllFull : List Row → Type 0
AllFull [] = Unit
AllFull (r ∷ rs) = (length r.1 ≡ 15) × AllFull rs

abbrev pub bytes : List Row → List ℕ
bytes [] = []
bytes (r ∷ rs) = (r.0 ∷ r.1) ++ bytes rs

-- One byte that does not begin a row.
dump-byte :
    (x : ℕ) (rest : List ℕ) (i : ℕ) (buf : List ℕ)
    → 0 < i % 16
    → length buf ≤ 61
    → dump i buf (x ∷ rest) ≡ dump (i + 1) (buf ++ hex x) rest
unfolding dump
dump-byte x rest i buf a c = rw (inside, fits, dump) refl
  where
    inside : (i % 16 == 0) ≡ false
    inside = ground arith

    fits : append_hex buf x ≡ some (buf ++ hex x)
    fits = ground arith

length-hex : (b : ℕ) → length (hex b) ≡ 2
unfolding hex
length-hex b = refl

-- Inside a row the bytes are put behind what stands in the buffer.
dump-row :
    (row rest : List ℕ) (q r : ℕ) (buf : List ℕ)
    → 0 < r
    → r + length row ≤ 16
    → length buf + 2 * length row ≤ 61
    → dump (q * 16 + r) buf (row ++ rest) ≡ dump (q * 16 + (r + length row)) (buf ++ hexes row) rest
unfolding dump
dump-row [] rest q r buf a b c = ap₂ (λ j t. dump j t rest) (omega arith) (sym (append-nil buf))
dump-row (x ∷ row) rest q r buf a b c =
    dump-byte x (row ++ rest) (q * 16 + r) buf (omega arith) (omega arith)
    ∙ ap (λ j. dump j (buf ++ hex x) (row ++ rest)) (omega arith)
    ∙ dump-row row rest q (r + 1) (buf ++ hex x) (omega arith) (omega arith)
        (omega (arith, length-append buf (hex x), length-hex x))
    ∙ ap₂ (λ j t. dump j t rest) (omega arith) (append_assoc buf (hex x) (hexes row))

-- The byte that begins a row is not printed; what stands in the buffer is.
dump-first :
    (x : ℕ) (rest : List ℕ) (q : ℕ) (buf : List ℕ)
    → dump (q * 16) buf (x ∷ rest) ≡ print_before buf (dump (q * 16 + 1) [] rest)
unfolding dump
dump-first x rest q buf = rw (first, dump) refl
  where
    first : (q * 16 % 16 == 0) ≡ true
    first = ground arith

dump-last :
    (tail : List ℕ) (q r : ℕ) (buf : List ℕ)
    → 0 < r
    → r + length tail ≤ 16
    → length buf + 2 * length tail ≤ 61
    → dump (q * 16 + r) buf tail ≡ some []
unfolding dump
dump-last tail q r buf a b c =
    ap (λ t. dump (q * 16 + r) buf t) (sym (append-nil tail)) ∙ dump-row tail [] q r buf a b c

dump-rows :
    (rows : List Row) (x : ℕ) (tail : List ℕ) (q : ℕ) (buf : List ℕ)
    → AllFull rows
    → length tail ≤ 15
    → dump (q * 16) buf (bytes rows ++ (x ∷ tail)) ≡ some (buf ∷ map (λ r. hexes r.1) rows)
unfolding dump
dump-rows [] x tail q buf h k =
    dump-first x tail q buf
    ∙ ap (print_before buf) (dump-last tail q 1 [] (omega arith) (omega arith) (omega arith))
dump-rows ((y, row) ∷ rows) x tail q buf h k =
    dump-first y _ q buf
    ∙ ap (print_before buf) (
        ap (dump (q * 16 + 1) []) (append_assoc row (bytes rows) (x ∷ tail))
        ∙ dump-row row _ q 1 [] (omega arith) (omega (arith, h.0)) (omega (arith, h.0))
        ∙ ap (λ j. dump j (hexes row) (bytes rows ++ (x ∷ tail))) (omega (arith, h.0))
        ∙ dump-rows rows x tail (q + 1) (hexes row) h.1 k)

-- A message of rows of 16 bytes, the last one possibly shorter, never runs past the buffer of 64
-- bytes. What is printed is an empty line, and for every row but the last the digits of its bytes
-- without the first: the first byte of each row and the whole last row are left out.
pub dbg_print_msg-rows :
    (rows : List Row) (x : ℕ) (tail : List ℕ)
    → AllFull rows
    → length tail ≤ 15
    → dbg_print_msg (bytes rows ++ (x ∷ tail)) ≡ (0, some ([] ∷ map (λ r. hexes r.1) rows))
unfolding dbg_print_msg
dbg_print_msg-rows rows x tail h k = ap (λ lines. (0, lines)) (dump-rows rows x tail 0 [] h k)
