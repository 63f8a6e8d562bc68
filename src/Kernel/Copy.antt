-- ===== src/Kernel/Copy.antt =====
-- Transfers between user memory and a module's buffer. How many bytes the kernel leaves uncopied is
-- its answer and a parameter. A transfer that would run past the end of the buffer is a fault,
-- `none`: the C code has no further behaviour there.
use linux_driver.Base.{take-length, ap, ◌↔◌}
use linux_driver.Base.{◌+◌, ◌<◌, ◌∷◌, cstr, cstr-append, take-IsText, cstr-IsText}
use linux_driver.Base.{
  ℕ, ◌-◌, ◌≤◌, ◌≡◌, Option, none, some, List, ◌++◌, length, take, drop, leb, if◌then◌else◌, arith,
  length-append, length-take, length-drop, length-replicate, replicate, min, append-nil, ◌∙◌,
}

-- Write `n` bytes from `src` at the front of `buffer`.
abbrev pub overwrite : List ℕ → List ℕ → ℕ → List ℕ
overwrite buffer src n = take n src ++ drop n buffer

-- What `copy_from_user` stores for the `n` bytes of `src` that it is asked for: the last `left` of
-- them are not copied, and the kernel puts zeros in their places.
abbrev pub padded : List ℕ → (n left : ℕ) → List ℕ
padded src n left = take (n - left) src ++ replicate (min n left) 0

abbrev pub copy_from_user : List ℕ → List ℕ → (n left : ℕ) → Option (List ℕ)
copy_from_user buffer src n left =
    if leb n (length buffer) then some (overwrite buffer (padded src n left) n) else none

pub length-padded :
    (src : List ℕ) (n left : ℕ) → n - left ≤ length src → length (padded src n left) ≡ n
length-padded src n left h = omega (
  arith,
  length-append (take (n - left) src) (replicate (min n left) 0),
  length-take (n - left) src,
  length-replicate {A = ℕ} (min n left) 0,
)

pub padded_all : (src : List ℕ) (n : ℕ) → n ≡ length src → padded src n 0 ≡ src
padded_all src n e =
    let zero_left : n - 0 ≡ n = omega arith in
    let no_zeros : min n 0 ≡ 0 = omega arith in
    rw (zero_left, no_zeros) (append-nil (take n src) ∙ take-length src n e)

-- `copy_to_user(dst, buffer, n)`: reads `n` bytes of the buffer; the result is user memory.
abbrev pub copy_to_user : List ℕ → List ℕ → (n left : ℕ) → Option (List ℕ)
copy_to_user dst buffer n left =
    if leb n (length buffer) then some (overwrite dst buffer (n - left)) else none

-- A transfer keeps the size of the buffer, as the source holds the bytes that are copied.
pub length-overwrite :
    (buffer src : List ℕ) (n : ℕ)
    → n ≤ length buffer
    → n ≤ length src
    → length (overwrite buffer src n) ≡ length buffer
length-overwrite buffer src n h k =
    omega
      (arith, length-append (take n src) (drop n buffer), length-take n src, length-drop n buffer)

-- `snprintf(buffer, size, "%s", src)` for the `size` of the buffer: as many bytes of the string as
-- fit, and a NUL. What stands in the buffer behind the NUL stays.
abbrev pub snprintf_s : List ℕ → ℕ → List ℕ → List ℕ
snprintf_s buffer size src =
    let text = take (size - 1) (cstr src) in text ++ (0 ∷ drop (length text + 1) buffer)

pub length-snprintf_s :
    (buffer src : List ℕ) (size : ℕ)
    → 0 < size
    → length buffer ≡ size
    → length (snprintf_s buffer size src) ≡ size
length-snprintf_s buffer src size h e =
    let text = take (size - 1) (cstr src) in
    omega (
      arith,
      length-append text (0 ∷ drop (length text + 1) buffer),
      length-take (size - 1) (cstr src),
      length-drop (length text + 1) buffer,
    )

-- Reading the string back gives what fitted.
pub cstr-snprintf_s :
    (buffer src : List ℕ) (size : ℕ)
    → cstr (snprintf_s buffer size src) ≡ take (size - 1) (cstr src)
cstr-snprintf_s buffer src size =
    cstr-append (take (size - 1) (cstr src)) _ (take-IsText (size - 1) _ (cstr-IsText src))

-- What a buffer of `size` bytes holds after `count` bytes were written, and what a reader of the
-- whole buffer then gets.
pub copy_from_user_iff :
    (buffer src : List ℕ) (n left : ℕ)
    → (copy_from_user buffer src n left ≡ none) ↔ (length buffer < n)
copy_from_user_iff buffer src n left = ground arith

pub copy_from_user_all :
    (buffer src : List ℕ) (n : ℕ)
    → n ≤ length buffer
    → n ≡ length src
    → copy_from_user buffer src n 0 ≡ some (src ++ drop n buffer)
copy_from_user_all buffer src n h e =
    let whole : overwrite buffer (padded src n 0) n ≡ src ++ drop n buffer =
      ap (λ l. take n l ++ drop n buffer) (padded_all src n e)
      ∙ ap (λ l. l ++ drop n buffer) (take-length src n e) in
    ground (arith, whole)

-- A whole buffer is read out unchanged.
pub copy_to_user_all :
    (user buffer : List ℕ) (n : ℕ)
    → n ≡ length buffer
    → copy_to_user user buffer n 0 ≡ some (buffer ++ drop n user)
copy_to_user_all user buffer n e =
    let whole : overwrite user buffer n ≡ buffer ++ drop n user =
      ap (λ l. l ++ drop n user) (take-length buffer n e) in
    let zero_left : n - 0 ≡ n = omega arith in
    ground (arith, whole, zero_left, ap (overwrite user buffer) zero_left)
