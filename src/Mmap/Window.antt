-- ===== src/Mmap/Window.antt =====
-- mmap/main.c: which bytes of the file are printed.
use native.Mathlib.Nat.{div-add-mod'}
use linux_driver.Base.{
  ℕ, ◌+◌, ◌-◌, ◌*◌, ◌/◌, ◌%◌, ◌^◌, ◌<◌, ◌≤◌, ◌≡◌, refl, ap, ◌∙◌, pos, eqb_ℤ, true, some, List, leb,
  ◌==◌, if◌then◌else◌, length, take, drop, min, arith,
}
use linux_driver.Mmap.{
  Args, Answers, success, failure, past_end, main, print_window, window_length, to_word, page_start,
  ge_signed,
}

-- How much is printed.
abbrev pub shown : Args → (asked size offset : ℕ) → ℕ
shown a asked size offset = if a.argc == 4 then min asked (size - offset) else size - offset

window_length_lem :
    (a : Args) (asked size offset : ℕ)
    → a.length ≡ pos asked
    → asked < 2 ^ 31
    → offset < size
    → size < 2 ^ 62
    → window_length a size offset ≡ shown a asked size offset
unfolding window_length
window_length_lem a asked size offset e h lt s = ground arith

to_word_small : (n : ℕ) → n < 2 ^ 31 → to_word (pos n) ≡ n
unfolding to_word
to_word_small n h = omega arith

print_window_lem :
    (page : ℕ) (k : Answers) (file : List ℕ) (o n : ℕ)
    → k.mapped ≡ true
    → k.written ≡ pos n
    → n + o < 2 ^ 63
    → print_window k file o (page_start page o) n
      ≡ success (record {
        pa_offset = o / page * page;
        map_length = n + o % page;
        bytes = take n (drop o file);
      })
unfolding print_window
print_window_lem page k file o n m w h =
    let parts : o / page * page + o % page ≡ o = div-add-mod' o page in
    let full : (n + o) % 2 ^ 64 ≡ n + o = omega arith in
    let map : (((n + o) % 2 ^ 64) + 2 ^ 64 - o / page * page) % 2 ^ 64 ≡ n + o % page =
      omega (arith, parts) in
    let at : (o / page * page + (o + 2 ^ 64 - o / page * page) % 2 ^ 64) % 2 ^ 64 ≡ o =
      omega (arith, parts) in
    let same : eqb_ℤ (pos n) (pos n) ≡ true = ground arith in
    rw (m, w, same, map, at, print_window) refl

-- For an offset and a length that `atoi` reads as non-negative, and a file of less than 2 ^ 62 bytes:
-- if opening, mapping and writing succeed, the program fails exactly where the offset is not inside
-- the file, and otherwise prints the bytes from the offset on, as many as are asked for but none
-- past the end of the file. The mapping begins at a multiple of the page size and ends where the
-- printed bytes do.
pub main-window :
    (page : ℕ) (a : Args) (k : Answers) (file : List ℕ) (o asked : ℕ)
    → 3 ≤ a.argc
    → a.argc ≤ 4
    → a.offset ≡ pos o
    → a.length ≡ pos asked
    → o < 2 ^ 31
    → asked < 2 ^ 31
    → length file < 2 ^ 62
    → k.file ≡ some file
    → k.fstat ≡ true
    → k.mapped ≡ true
    → k.written ≡ pos (shown a asked (length file) o)
    → main page a k ≡ (
        if leb (length file) o
        then failure past_end
        else success (record {
          pa_offset = o / page * page;
          map_length = shown a asked (length file) o + o % page;
          bytes = take (shown a asked (length file) o) (drop o file);
        }))
unfolding main
main-window page a k file o asked lo hi eo ea ho ha hs ef es em ew =
    let off : to_word a.offset ≡ o = ap to_word eo ∙ to_word_small o ho in
    let n = shown a asked (length file) o in
    ground (
      arith,
      off,
      sgn,
      window_length_lem a asked (length file) o ea ha,
      print_window_lem page k file o n em ew,
    )
  where
    sgn : ge_signed o (length file) ≡ leb (length file) o
    sgn = ground arith
