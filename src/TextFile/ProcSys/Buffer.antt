-- ===== src/TextFile/ProcSys/Buffer.antt =====
-- procsys/procsys.c: the 256 bytes behind the file.
use linux_driver.Base.{
  ℕ, zero, suc, ◌<◌, ◌≤◌, ◌≡◌, refl, ap, ◌∙◌, sym, List, [], ◌∷◌, ◌++◌, length, drop, take, get_or,
  set, length-set, get_or-set, arith,
}
use linux_driver.Kernel.{overwrite, length-overwrite, padded, length-padded}
use linux_driver.TextFile.ProcSys.{my_proc_write}

-- The buffer has its size and ends in a NUL, so that the text in it ends inside it.
pub record IsBuffer (b : List ℕ) : Type 0 where
  pub sized : length b ≡ 256
  pub ended : get_or b 255 1 ≡ 0

drop-nil : (n : ℕ) → drop n (let e : List ℕ = [] in e) ≡ []
drop-nil zero = refl
drop-nil (suc n) = refl

get_or-overwrite :
    (n : ℕ) (b src : List ℕ) (j d : ℕ)
    → n ≤ length src
    → n ≤ j
    → get_or (overwrite b src n) j d ≡ get_or b j d
get_or-overwrite zero b src j d h k = refl
get_or-overwrite (suc n) b [] j d h k = absurd (omega arith)
get_or-overwrite (suc n) b (x ∷ src) zero d h k = absurd (omega arith)
get_or-overwrite (suc n) [] (x ∷ src) (suc j) d h k =
    ap (λ l. get_or (take n src ++ l) j d) (sym (drop-nil n))
    ∙ get_or-overwrite n [] src j d (omega arith) (omega arith)
get_or-overwrite (suc n) (y ∷ b) (x ∷ src) (suc j) d h k =
    get_or-overwrite n b src j d (omega arith) (omega arith)

overwrite-IsBuffer :
    (u b : List ℕ) (m : ℕ) → IsBuffer u → m ≤ length b → m ≤ 255 → IsBuffer (overwrite u b m)
overwrite-IsBuffer u b m h k l = record {
  sized = omega (arith, length-overwrite u b m);
  ended = get_or-overwrite m u b 255 1 k l ∙ h.ended;
}

set-IsBuffer : (u : List ℕ) (n : ℕ) → IsBuffer u → n ≤ 255 → IsBuffer (set u n 0)
set-IsBuffer u n h l = record {
  sized = omega (arith, length-set u n 0);
  ended = ground (arith, h.ended, get_or-set u n 255 0 1);
}

-- A write of any size keeps a buffer of 256 bytes that ends in a NUL so, on every branch.
pub my_proc_write-IsBuffer :
    (user_data buf : List ℕ) (count left : ℕ)
    → IsBuffer user_data
    → count ≤ length buf
    → IsBuffer (my_proc_write user_data buf count left).1
unfolding my_proc_write
my_proc_write-IsBuffer u b n l h k =
    let full = length-padded b n l (omega arith) in
    grind (
      arith,
      overwrite-IsBuffer u b n h k,
      overwrite-IsBuffer u (padded b n l) n h (omega (arith, full)),
      set-IsBuffer (overwrite u b n) n,
    )

pub set_terminator :
    (s rest : List ℕ) → 0 < length rest → set (s ++ rest) (length s) 0 ≡ s ++ (0 ∷ drop 1 rest)
set_terminator [] [] h = absurd (omega arith)
set_terminator [] (x ∷ rest) h = refl
set_terminator (c ∷ s) rest h = ap (λ l. c ∷ l) (set_terminator s rest h)
