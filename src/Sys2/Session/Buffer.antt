-- ===== src/Sys2/Session/Buffer.antt =====
-- sys2/sys2.c: the last byte of `my_data` is NUL, so that every parameter ends inside it.
use linux_driver.Base.{
  ℕ, zero, suc, ◌+◌, ◌-◌, ◌<◌, ◌≤◌, ◌≡◌, refl, true, inl, inr, Bool-cases, some, List, [], ◌∷◌,
  ◌++◌, length, drop, take, cstr, arith, strncmp_eq,
}
use linux_driver.Kernel.{snprintf_s}
use linux_driver.Sys2.Command.{Handler, showtasklist, command_name, find_handler, ends_inside}

-- There is a last byte, and it is NUL.
abbrev pub EndsInNul : List ℕ → Type 0
EndsInNul [] = ⊥
EndsInNul (c ∷ []) = c ≡ 0
EndsInNul (c ∷ d ∷ s) = EndsInNul (d ∷ s)

EndsInNul-append : (s t : List ℕ) → EndsInNul t → EndsInNul (s ++ t)
EndsInNul-append [] t h = h
EndsInNul-append (c ∷ []) [] h = elim h [ ]
EndsInNul-append (c ∷ []) (d ∷ t) h = h
EndsInNul-append (c ∷ d ∷ s) t h = EndsInNul-append (d ∷ s) t h

EndsInNul-drop : (n : ℕ) (s : List ℕ) → EndsInNul s → n < length s → EndsInNul (drop n s)
EndsInNul-drop zero s h l = h
EndsInNul-drop (suc n) [] h l = absurd (omega arith)
EndsInNul-drop (suc n) (c ∷ []) h l = absurd (omega arith)
EndsInNul-drop (suc n) (c ∷ d ∷ s) h l = EndsInNul-drop n (d ∷ s) h (omega arith)

-- What follows the NUL that ends the text: the old end, or nothing.
EndsInNul-behind : (n : ℕ) (s : List ℕ) → EndsInNul s → EndsInNul (0 ∷ drop n s)
EndsInNul-behind zero [] h = refl
EndsInNul-behind zero (c ∷ s) h = h
EndsInNul-behind (suc n) [] h = refl
EndsInNul-behind (suc n) (c ∷ []) h = EndsInNul-behind_nothing n
  where
    EndsInNul-behind_nothing : (n : ℕ) → EndsInNul (0 ∷ drop n [])
    EndsInNul-behind_nothing zero = refl
    EndsInNul-behind_nothing (suc n) = refl
EndsInNul-behind (suc n) (c ∷ d ∷ s) h = EndsInNul-behind n (d ∷ s) h

pub snprintf_s-EndsInNul :
    (my_data buf : List ℕ) (size : ℕ) → EndsInNul my_data → EndsInNul (snprintf_s my_data size buf)
snprintf_s-EndsInNul my_data buf size h =
    let text = take (size - 1) (cstr buf) in
    EndsInNul-append text (0 ∷ drop (length text + 1) my_data)
      (EndsInNul-behind (length text + 1) my_data h)

cstr-lt : (s : List ℕ) → EndsInNul s → length (cstr s) < length s
cstr-lt [] h = elim h [ ]
cstr-lt (zero ∷ s) h = omega arith
cstr-lt (suc c ∷ []) h = absurd (omega arith)
cstr-lt (suc c ∷ d ∷ s) h = omega (arith, cstr-lt (d ∷ s) h)

pub EndsInNul-ends_inside : (s : List ℕ) → EndsInNul s → ends_inside s ≡ true
EndsInNul-ends_inside s h = ground (arith, cstr-lt s h)

-- The parameter of a row that is found begins one byte behind its name.
find_handler-param :
    (hs : List Handler) (d : List ℕ) (h : Handler) (param : List ℕ)
    → find_handler hs d ≡ some (h, param)
    → param ≡ drop (length (command_name h) + 1) d
unfolding find_handler
find_handler-param [] d h param e = absurd (ground arith)
find_handler-param (g ∷ hs) d h param e =
    elim (Bool-cases (strncmp_eq d (command_name g) (length (command_name g)))) [
      | inl f ↦ ground arith
      | inr f ↦ find_handler-param hs d h param (ground arith)
    ]

command_name-short : (h : Handler) → length (command_name h) ≤ 20
unfolding command_name
command_name-short showtasklist = omega arith
command_name-short h = omega arith

-- So a parameter in a buffer of 256 bytes, the last of them NUL, has a NUL in it.
pub param-ends_inside :
    (hs : List Handler) (d : List ℕ) (h : Handler) (param : List ℕ)
    → length d ≡ 256
    → EndsInNul d
    → find_handler hs d ≡ some (h, param)
    → ends_inside param ≡ true
param-ends_inside hs d h param n ends e = rw (find_handler-param hs d h param e) (
    EndsInNul-ends_inside _ (
      EndsInNul-drop (length (command_name h) + 1) d ends (omega (arith, n, command_name-short h))))
