-- ===== src/TextFile/ProcSys/Texts.antt =====
-- procsys/procsys.c: the file as a cell that holds a text.
use linux_driver.Base.{
  ℕ, ℤ, pos, zero, suc, ◌<◌, ◌-◌, ◌==◌, min, replicate, take-length, append_assoc, ◌≤◌, ◌≡◌, refl,
  ap, ◌∙◌, sym, List, [], ◌∷◌, ◌++◌, length, drop, take, set, length-drop, length-take, codes,
  arith, cstr, leb, if◌then◌else◌, efault,
}
use linux_driver.Kernel.{overwrite, padded, length-padded}
use linux_driver.TextFile.ProcSys.{my_proc_show, my_proc_write, user_data_size}
use linux_driver.TextFile.ProcSys.Buffer.{IsBuffer, set_terminator, my_proc_write-IsBuffer}

-- A call of `write`: the caller's memory, the count, and how many bytes the kernel does not copy.
pub record Write : Type 0 where
  pub buf : List ℕ
  pub count : ℕ
  pub left : ℕ

-- The caller's memory holds the bytes, and no more stay uncopied than are asked for.
abbrev pub IsCall : Write → Type 0
IsCall w = (w.count ≤ length w.buf) × (w.left ≤ w.count)

abbrev pub AreCalls : List Write → Type 0
AreCalls [] = Unit
AreCalls (w ∷ ws) = IsCall w × AreCalls ws

-- The calls one after the other: their answers and the buffer.
pub writes : List Write → (user_data : List ℕ) → List ℤ × List ℕ
writes [] u = ([], u)
writes (w ∷ ws) u =
    let (ret, u') = my_proc_write u w.buf w.count w.left in
    let (rets, u2) = writes ws u' in (ret ∷ rets, u2)

-- What a cell for a text does: it refuses a text that is too long, and keeps of any other one what
-- was copied, up to its first NUL; the answer is the count if that was all.
abbrev pub store : Write → (text : List ℕ) → ℤ × List ℕ
store w text =
    if leb user_data_size w.count
    then (efault, text)
    else (if w.left == 0 then pos w.count else efault, cstr (take (w.count - w.left) w.buf))

pub stores : List Write → (text : List ℕ) → List ℤ × List ℕ
stores [] text = ([], text)
stores (w ∷ ws) text =
    let (ret, text') = store w text in let (rets, text2) = stores ws text' in (ret ∷ rets, text2)

cstr-ended : (s rest : List ℕ) → cstr (s ++ (0 ∷ rest)) ≡ cstr s
cstr-ended [] rest = refl
cstr-ended (zero ∷ s) rest = refl
cstr-ended (suc c ∷ s) rest = ap (λ l. suc c ∷ l) (cstr-ended s rest)

cstr-stored :
    (u b : List ℕ) (n : ℕ)
    → n ≤ length b
    → n < length u
    → cstr (set (overwrite u b n) n 0) ≡ cstr (take n b)
cstr-stored u b n h l =
    let size : length (take n b) ≡ n = omega (arith, length-take n b) in
    let room : 0 < length (drop n u) = omega (arith, length-drop n u) in
    ap cstr
      (ap (λ i. set (overwrite u b n) i 0) (sym size) ∙ set_terminator (take n b) (drop n u) room)
    ∙ cstr-ended (take n b) (drop 1 (drop n u))

cstr-short :
    (u b : List ℕ) (n left : ℕ)
    → n ≤ length b
    → 0 < left
    → left ≤ n
    → cstr (overwrite u (padded b n left) n) ≡ cstr (take (n - left) b)
cstr-short u b n zero h z l = absurd (omega arith)
cstr-short u b n (suc left) h z l =
    let full =
      take-length (padded b n (suc left)) n (sym (length-padded b n (suc left) (omega arith))) in
    let zeros : min n (suc left) ≡ suc left = omega arith in
    rw (full, zeros, append_assoc (take (n - suc left) b) (0 ∷ replicate left 0) (drop n u))
      (cstr-ended (take (n - suc left) b) (replicate left 0 ++ drop n u))

my_proc_write-store :
    (w : Write) (u : List ℕ)
    → IsBuffer u
    → IsCall w
    → let r = my_proc_write u w.buf w.count w.left in
      (r.0 ≡ (store w (cstr u)).0) × (cstr r.1 ≡ (store w (cstr u)).1)
unfolding my_proc_write
my_proc_write-store w u b (h, l) =
    let all : w.count - 0 ≡ w.count = omega arith in
    ground (
      arith,
      b.sized,
      h,
      l,
      cstr-stored u w.buf w.count h,
      cstr-short u w.buf w.count w.left h,
      ap (λ n. cstr (take n w.buf)) all,
    )

-- Any number of writes, of any counts, where the caller's memory holds the bytes, also where the
-- kernel copies only the first of them, over a buffer of 256 bytes that ends in a NUL: their answers
-- are those of a cell for a text, which refuses a text of 256 bytes or more, keeps of any other one
-- the bytes that were copied up to the first NUL, and reports a short copy as -EFAULT; and what the
-- file shows afterwards is the text in the cell, behind its heading and before a line end. The buffer
-- still has its 256 bytes and ends in a NUL.
pub writes-stores :
    (ws : List Write) (user_data : List ℕ)
    → IsBuffer user_data
    → AreCalls ws
    → let r = writes ws user_data in
      let s = stores ws (cstr user_data) in
      (r.0 ≡ s.0) × (my_proc_show r.1 ≡ codes "User data: " ++ (s.1 ++ codes "\n")) × IsBuffer r.1
unfolding writes stores my_proc_show
writes-stores [] u b h = (refl, refl, b)
writes-stores (w ∷ ws) u b ((h, l), hs) =
    let r = my_proc_write u w.buf w.count w.left in
    let (ret, text) = my_proc_write-store w u b (h, l) in
    let (rets, shown, kept) =
      writes-stores ws r.1 (my_proc_write-IsBuffer u w.buf w.count w.left b h) hs in
    rw (ret, sym text) (ap (λ l. (store w (cstr u)).0 ∷ l) rets, shown, kept)
