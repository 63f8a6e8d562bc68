-- ===== src/Sys2/Parse/Words.antt =====
-- sys2/parse.c: the words that `parse` prints, and the memory for its copy of the parameter.
use linux_driver.Base.{
  ℕ, zero, suc, ◌+◌, ◌<◌, ◌≤◌, ◌≡◌, refl, ap, sym, Option, none, some, List, [], ◌∷◌, ◌++◌, ◌==◌,
  ==_iff, if◌then◌else◌, length, cstr, arith, Bool-cases, inl, inr,
}
use linux_driver.Kernel.{kmalloc, Log, Resource, held_kind, memory, account}
use linux_driver.Sys2.Console.{Line, parameter}
use linux_driver.Sys2.Parse.{split_word, parse_loop, parse_command}

-- The words of a text: what stands between its spaces, empty words included.
abbrev push : ℕ → List (List ℕ) → List (List ℕ)
push c [] = (c ∷ []) ∷ []
push c (w ∷ ws) = (c ∷ w) ∷ ws

abbrev pub words : List ℕ → List (List ℕ)
words [] = [] ∷ []
words (c ∷ cs) = if c == 32 then [] ∷ words cs else push c (words cs)

-- The words with a space between each two.
abbrev pub join : List (List ℕ) → List ℕ
join [] = []
join (w ∷ []) = w
join (w ∷ (v ∷ ws)) = w ++ (32 ∷ join (v ∷ ws))

-- The lines for words numbered from `n + 1` on, the latest first, before the lines of `out`.
abbrev pub numbered : ℕ → List (List ℕ) → List Line → List Line
numbered n [] out = out
numbered n (w ∷ ws) out = numbered (n + 1) ws (parameter (n + 1) w ∷ out)

abbrev rest_words : Option (List ℕ) → List (List ℕ)
rest_words none = []
rest_words (some s) = words s

words-split_word : (s : List ℕ) → words s ≡ (split_word s).0 ∷ rest_words (split_word s).1
unfolding split_word
words-split_word [] = refl
words-split_word (c ∷ cs) = elim (Bool-cases (c == 32)) [
  | inl e ↦ rw e refl
  | inr e ↦ rw (e, words-split_word cs) refl
]

length-push : (c : ℕ) (ws : List (List ℕ)) → 0 < length ws → length (push c ws) ≡ length ws
length-push c [] h = absurd (omega arith)
length-push c (w ∷ ws) h = refl

length-words : (s : List ℕ) → (0 < length (words s)) × (length (words s) ≤ length s + 1)
length-words [] = omega arith
length-words (c ∷ cs) = ground (arith, length-words cs, length-push c (words cs))

join-push : (c : ℕ) (ws : List (List ℕ)) → join (push c ws) ≡ c ∷ join ws
join-push c [] = refl
join-push c (w ∷ []) = refl
join-push c (w ∷ (v ∷ ws)) = refl

join-cons : (ws : List (List ℕ)) → 0 < length ws → join ([] ∷ ws) ≡ 32 ∷ join ws
join-cons [] h = absurd (omega arith)
join-cons (w ∷ ws) h = refl

pub join-words : (s : List ℕ) → join (words s) ≡ s
join-words [] = refl
join-words (c ∷ cs) = elim (Bool-cases (c == 32)) [
  | inl e ↦
      rw (e, join-cons (words cs) (length-words cs).0, join-words cs)
        (ap (λ k. k ∷ cs) (sym ((==_iff c 32).0 e)))
  | inr e ↦ rw (e, join-push c (words cs), join-words cs) refl
]

-- With fuel for the words that are left the loop ends, at the NULL that `strsep` leaves.
parse_loop-numbered :
    (fuel : ℕ) (token : List ℕ) (copy : Option (List ℕ)) (n : ℕ) (lines : List Line)
    → length (rest_words copy) + 1 < fuel
    → parse_loop fuel (some token) copy n lines
      ≡ some (none, numbered n (token ∷ rest_words copy) lines)
unfolding parse_loop
parse_loop-numbered zero token copy n lines h = absurd (omega arith)
parse_loop-numbered (suc zero) token copy n lines h = absurd (omega arith)
parse_loop-numbered (suc (suc fuel)) token none n lines h = refl
parse_loop-numbered (suc (suc fuel)) token (some s) n lines h =
    let e = words-split_word s in
    rw e (
      parse_loop-numbered (suc fuel) (split_word s).0 (split_word s).1 (n + 1)
        (parameter (n + 1) token ∷ lines) (omega (arith, ap length e)))

-- From a state without a fault, if `kstrdup` gives memory, `parse` ends with two more units of
-- fuel than the parameter has bytes, and prints the words of its parameter, numbered from 1; put
-- together with spaces they are the parameter again. The memory of its copy stays held, since the
-- pointer that it frees is NULL by then.
pub parse_command-words :
    (cmd : List ℕ) (a : ℕ) (log : Log) {rs : List Resource}
    → account log ≡ some rs
    → let text = cstr cmd in
      let log' = kmalloc (length text + 1) (some a) ∷ log in
      (parse_command (length text + 2) cmd (some a) log ≡ some (log', numbered 0 (words text) []))
      × (join (words text) ≡ text)
      × (account log' ≡ some (held_kind memory a ∷ rs))
unfolding parse_command
parse_command-words cmd a log h = (whole, join-words (cstr cmd), ground arith)
  where
    s : List ℕ
    s = cstr cmd

    loop :
        parse_loop (length s + 2) (some (split_word s).0) (split_word s).1 0 []
        ≡ some (none, numbered 0 (words s) [])
    loop = rw (words-split_word s) (
        parse_loop-numbered (length s + 2) (split_word s).0 (split_word s).1 0 []
          (omega (arith, ap length (words-split_word s), length-words s)))

    whole :
        parse_command (length s + 2) cmd (some a) log
        ≡ some (kmalloc (length s + 1) (some a) ∷ log, numbered 0 (words s) [])
    whole = rw (loop, parse_command) refl
