-- ===== src/Mmap.antt =====
-- mmap/main.c: a program that prints a part of a file through a mapping.
pub mod Window
use linux_driver.Base.{
  ℕ, ◌+◌, ◌-◌, ◌*◌, ◌/◌, ◌%◌, ◌^◌, ℤ, pos, negsuc, eqb_ℤ, Bool, true, false, ◌||◌, Option, none,
  some, List, ltb, leb, ◌==◌, not, if◌then◌else◌, length, take, drop,
}

-- An integer as 64 bits, as `off_t`, `size_t` and addresses have them.
unfoldable pub to_word : ℤ → ℕ
to_word (pos n) = n % 2 ^ 64
to_word (negsuc n) = 2 ^ 64 - 1 - n % 2 ^ 64

-- The order of two `off_t`.
abbrev pub ge_signed : ℕ → ℕ → Bool
ge_signed a b = leb ((b + 2 ^ 63) % 2 ^ 64) ((a + 2 ^ 63) % 2 ^ 64)

-- Sums and differences of 64 bits.
abbrev pub add_word : ℕ → ℕ → ℕ
add_word a b = (a + b) % 2 ^ 64

abbrev pub sub_word : ℕ → ℕ → ℕ
sub_word a b = (a + 2 ^ 64 - b) % 2 ^ 64

-- `offset & ~(page_size - 1)`, for a power of two: the digits below are cleared.
abbrev pub page_start : (page_size offset : ℕ) → ℕ
page_start page offset = offset / page * page

pub data Failure : Type 0 where
  usage open_failed fstat_failed past_end mmap_failed write_failed partial_write : Failure

-- The arguments: how many they are, and two of them read by `atoi`.
pub record Args : Type 0 where
  pub argc : ℕ
  pub offset : ℤ
  pub length : ℤ

-- What the system answers: the file, if it can be opened; whether `fstat` works; whether the mapping
-- is made; and the result of `write`.
pub record Answers : Type 0 where
  pub file : Option (List ℕ)
  pub fstat : Bool
  pub mapped : Bool
  pub written : ℤ

-- With success: what was mapped, from where in the file and how much, and the bytes that were given
-- to `write`.
pub record Printed : Type 0 where
  pub pa_offset : ℕ
  pub map_length : ℕ
  pub bytes : List ℕ

pub data Outcome : Type 0 where
  failure : Failure → Outcome
  success : Printed → Outcome

-- The mapping and the output. The bytes at `addr + offset - pa_offset` are those of the file at
-- `pa_offset + (offset - pa_offset)`.
unfoldable pub print_window : Answers → (file : List ℕ) (offset pa_offset length : ℕ) → Outcome
print_window k file offset pa len =
    if not k.mapped
    then failure mmap_failed
    else if eqb_ℤ k.written (pos len)
    then success (record {
      pa_offset = pa;
      map_length = sub_word (add_word len offset) pa;
      bytes = take len (drop (add_word pa (sub_word offset pa)) file);
    })
    else if eqb_ℤ k.written (negsuc 0)
    then failure write_failed
    else failure partial_write

-- The length to print: to the end of the file, or what is asked for where that ends before.
unfoldable pub window_length : Args → (st_size offset : ℕ) → ℕ
unfolding to_word
window_length a size offset =
    let len = to_word a.length in
    if a.argc == 4
    then (if ltb size (add_word offset len) then sub_word size offset else len)
    else sub_word size offset

module _ (page_size : ℕ) where
  unfoldable pub main : Args → Answers → Outcome
  main a k =
      let offset = to_word a.offset in
      if ltb a.argc 3 || ltb 4 a.argc then failure usage else elim k.file [
        | none ↦ failure open_failed
        | some file ↦
            if not k.fstat
            then failure fstat_failed
            else if ge_signed offset (length file)
            then failure past_end
            else print_window k file offset (page_start page_size offset)
                (window_length a (length file) offset)
      ]
