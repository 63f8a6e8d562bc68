-- ===== src/Sys2/Parse.antt =====
-- sys2/parse.c: the command `parse`, which prints the words of its parameter.
pub mod Words
use linux_driver.Base.{
  ℕ, zero, suc, ◌+◌, Option, none, some, List, [], ◌∷◌, ◌==◌, if◌then◌else◌, length, cstr,
}
use linux_driver.Kernel.{kmalloc, kfree, Log}
use linux_driver.Sys2.Console.{Line, no_memory, parameter}

-- The bytes up to the first space, and what follows that space.
unfoldable pub split_word : List ℕ → List ℕ × Option (List ℕ)
split_word [] = ([], none)
split_word (c ∷ cs) =
    let (word, rest) = split_word cs in if c == 32 then ([], some cs) else (c ∷ word, rest)

-- `strsep(&cmd_copy, " ")`: the token, and what `cmd_copy` points to afterwards; `none` is NULL.
unfoldable pub strsep : Option (List ℕ) → Option (List ℕ) × Option (List ℕ)
unfolding split_word
strsep none = (none, none)
strsep (some s) = (some (split_word s).0, (split_word s).1)

-- The `while` loop, on fuel: `none` if that runs out. The lines stand latest first.
unfoldable pub parse_loop :
    (fuel : ℕ) (token cmd_copy : Option (List ℕ)) (param_count : ℕ)
    → List Line
    → Option (Option (List ℕ) × List Line)
unfolding strsep
parse_loop zero token cmd_copy n lines = none
parse_loop (suc fuel) none cmd_copy n lines = some (cmd_copy, lines)
parse_loop (suc fuel) (some token) cmd_copy n lines =
    parse_loop fuel (strsep cmd_copy).0 (strsep cmd_copy).1 (n + 1)
      (parameter (n + 1) token ∷ lines)

-- `kfree(cmd_copy)`: what `cmd_copy` points to by then; kfree of NULL does nothing.
abbrev pub free_copy : ℕ → Option (List ℕ) → Log → Log
free_copy a none log = log
free_copy a (some _) log = kfree a ∷ log

-- `copy` is the address that `kstrdup` answers with.
unfoldable pub parse_command :
    (fuel : ℕ) (cmd : List ℕ) (copy : Option ℕ) → Log → Option (Log × List Line)
unfolding parse_loop strsep
parse_command fuel cmd none log = some (kmalloc (length (cstr cmd) + 1) none ∷ log, no_memory ∷ [])
parse_command fuel cmd (some a) log =
    let first = strsep (some (cstr cmd)) in
    elim (parse_loop fuel first.0 first.1 0 []) [
      | none ↦ none
      | some (cmd_copy, lines) ↦
          some (free_copy a cmd_copy (kmalloc (length (cstr cmd) + 1) (some a) ∷ log), lines)
    ]

-- The loop over the symbol table stands in a comment: nothing is done.
unfoldable pub showkernelsymbol : (param : List ℕ) → List Line
showkernelsymbol param = []
