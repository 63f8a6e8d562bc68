-- ===== src/App/ReadWrite/Session.antt =====
-- chrdevbase/ and newchrdevbase/: the program and the drivers together.
use linux_driver.Base.{
  ℕ, zero, suc, ◌≤◌, ◌≡◌, refl, sym, ap, ◌∙◌, pos, is_neg, true, false, Option, some, List, [], ◌∷◌,
  ◌++◌, length, drop, length-append, length-drop, cstr, IsText, arith,
}
use linux_driver.Kernel.{copy_from_user_all, copy_to_user_all}
use linux_driver.CharDev.Chrdev.{chrdevbase_read, chrdevbase_write}
use linux_driver.CharDev.NewChrdev.{newchardevbase_read, newchardevbase_write}
use linux_driver.App.ReadWrite.{
  chrdevbase_ops, newchrdevbase_ops, Operations, Args, Answers, Outcome, read_success,
  write_success, has_nul, write_file, read_file, close_file, main, chrdevbase_app,
  newchrdevbase_app,
}

has_nul-append : (xs ys : List ℕ) → has_nul ys ≡ true → has_nul (xs ++ ys) ≡ true
unfolding has_nul
has_nul-append [] ys h = h
has_nul-append (x ∷ xs) ys h = ground (arith, has_nul-append xs ys h)

has_nul-front : (xs ys : List ℕ) → has_nul xs ≡ true → has_nul (xs ++ ys) ≡ true
unfolding has_nul
has_nul-front [] ys h = cc
has_nul-front (x ∷ xs) ys h = ground (arith, has_nul-front xs ys)

-- Text in front of a string.
cstr-text : (t rest : List ℕ) → IsText t → cstr (t ++ rest) ≡ t ++ cstr rest
cstr-text [] rest h = refl
cstr-text (zero ∷ t) rest h = absurd (omega arith)
cstr-text (suc c ∷ t) rest h = ap (λ l. suc c ∷ l) (cstr-text t rest h.1)

-- A string that ends inside a buffer does not see what follows.
cstr-front : (xs ys : List ℕ) → has_nul xs ≡ true → cstr (xs ++ ys) ≡ cstr xs
unfolding has_nul
cstr-front [] ys h = cc
cstr-front (zero ∷ xs) ys h = refl
cstr-front (suc x ∷ xs) ys h = ap (λ l. suc x ∷ l) (cstr-front xs ys (ground arith))

-- What both drivers do with a transfer that is copied in full.
record IsBuffered (ops : Operations) : Type 0 where
  writes :
      (samebuf text : List ℕ)
      → length samebuf ≡ 100
      → length text ≤ 100
      → ops.write samebuf text (length text) 0 ≡ some (pos 0, text ++ drop (length text) samebuf)
  reads :
      (samebuf user : List ℕ)
      → length samebuf ≡ 100
      → ops.read samebuf user 100 0 ≡ some (pos 0, samebuf ++ drop 100 user)

chrdevbase_ops-IsBuffered : IsBuffered chrdevbase_ops
unfolding chrdevbase_read chrdevbase_write
chrdevbase_ops-IsBuffered = record {
  writes = λ b t e h. ground (arith, copy_from_user_all b t (length t) (omega arith) refl);
  reads = λ b u e. ground (arith, copy_to_user_all u b 100 (sym e));
}

newchrdevbase_ops-IsBuffered : IsBuffered newchrdevbase_ops
unfolding newchardevbase_read newchardevbase_write
newchrdevbase_ops-IsBuffered = record {
  writes = λ b t e h. ground (arith, copy_from_user_all b t (length t) (omega arith) refl);
  reads = λ b u e. ground (arith, copy_to_user_all u b 100 (sym e));
}

abbrev pub args : (mode : ℕ) (text : List ℕ) → Args
args mode text = record { argc = 4; mode = pos mode; text = text }

abbrev pub App : Type 0
App = Args → Answers → (readbuf samebuf : List ℕ) → Option Outcome

-- Writing reports success and puts the text in front of the buffer; reading then prints the text and
-- what stood behind it.
abbrev pub WritesReads : App → Answers → (text readbuf samebuf : List ℕ) → Type 0
WritesReads app k text readbuf samebuf =
    let behind = drop (length text) samebuf in
    (app (args 2 text) k readbuf samebuf
      ≡ some (record { ret = pos 0; lines = write_success ∷ []; samebuf = text ++ behind }))
    × (app (args 1 []) k readbuf (text ++ behind)
        ≡ some (record {
          ret = pos 0;
          lines = read_success (text ++ cstr behind) ∷ [];
          samebuf = text ++ behind;
        }))

module _ (k : Answers) (text readbuf samebuf : List ℕ) (sized : length samebuf ≡ 100)
    (is_text : IsText text) (fits : length text ≤ 100)
    (ended : has_nul (drop (length text) samebuf) ≡ true) (opened : is_neg k.fd ≡ false)
    (copied : k.left ≡ 0) (closed : is_neg k.closed ≡ false) where
  main-WritesReads :
      (ops : Operations) → IsBuffered ops → WritesReads (main ops) k text readbuf samebuf
  unfolding main
  main-WritesReads ops b = (
    rw (opened, main, write_file, wrote, close_file, closed) refl,
    rw (opened, main, read_file, got, has, shown, close_file, closed) refl,
  )
    where
      behind : List ℕ
      behind = drop (length text) samebuf

      whole : length (text ++ behind) ≡ 100
      whole = omega (arith, length-append text behind, length-drop (length text) samebuf)

      wrote : ops.write samebuf text (length text) k.left ≡ some (pos 0, text ++ behind)
      wrote = rw copied (b.writes samebuf text sized fits)

      got :
          ops.read (text ++ behind) readbuf 100 k.left
          ≡ some (pos 0, (text ++ behind) ++ drop 100 readbuf)
      got = rw copied (b.reads (text ++ behind) readbuf whole)

      has : has_nul ((text ++ behind) ++ drop 100 readbuf) ≡ true
      has = has_nul-front (text ++ behind) (drop 100 readbuf) (has_nul-append text behind ended)

      shown : cstr ((text ++ behind) ++ drop 100 readbuf) ≡ text ++ cstr behind
      shown =
          cstr-front (text ++ behind) (drop 100 readbuf) (has_nul-append text behind ended)
          ∙ cstr-text text behind is_text

  -- Over a driver's buffer of 100 bytes, a text of at most 100 bytes, with a NUL in the buffer
  -- behind its length: if opening, copying and closing succeed, either program reports that it wrote
  -- the text, and when it is run to read prints the text followed by what an earlier text left
  -- behind it.
  pub app-WritesReads :
      WritesReads chrdevbase_app k text readbuf samebuf
      × WritesReads newchrdevbase_app k text readbuf samebuf
  unfolding chrdevbase_app newchrdevbase_app
  app-WritesReads = (
    main-WritesReads chrdevbase_ops chrdevbase_ops-IsBuffered,
    main-WritesReads newchrdevbase_ops newchrdevbase_ops-IsBuffered,
  )
