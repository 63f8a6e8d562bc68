-- ===== src/NpNc/Threads.antt =====
-- np-nc/np-nc.c: how many threads stand in which part of their loop.
use linux_driver.Base.{ℕ, zero, suc, ◌+◌, ◌*◌, ◌<◌, ◌≤◌, ◌≡◌, ◌≢◌, refl, arith, ap, ◌⊎◌, inl, inr}
use mathlib.Core.Path.{subst}
use native.Mathlib.Decide.{dec_lt}
use linux_driver.NpNc.{Pc, lock, touch, advance, unlock, signal, update}

-- A sum over the threads.
pub sum : ℕ → (ℕ → ℕ) → ℕ
sum zero g = 0
sum (suc n) g = g n + sum n g

pub sum-agree : (n : ℕ) (g h : ℕ → ℕ) → ((j : ℕ) → j < n → g j ≡ h j) → sum n g ≡ sum n h
unfolding sum
sum-agree zero g h e = refl
sum-agree (suc n) g h e =
    omega (arith, e n (omega arith), sum-agree n g h (λ j l. e j (omega arith)))

-- Two families that differ at one thread only.
sum-differ :
    (n : ℕ) (g h : ℕ → ℕ) (i : ℕ)
    → i < n
    → ((j : ℕ) → j ≢ i → g j ≡ h j)
    → sum n h + g i ≡ sum n g + h i
unfolding sum
sum-differ zero g h i l e = absurd (omega arith)
sum-differ (suc n) g h i l e = elim (dec_lt i n) [
  | yes below ↦ omega (arith, sum-differ n g h i below e, e n (omega arith))
  | no last ↦
      let here : i ≡ n = omega arith in
      omega (arith, sum-agree n g h (λ j k. e j (omega arith)), ap g here, ap h here)
]

module _ {ℓ} {A : Type ℓ} (w : A → ℕ) where
  -- One thread moves from its place to another.
  pub sum-update :
      (n : ℕ) (f : ℕ → A) (i : ℕ) (a : A)
      → i < n
      → sum n (λ j. w (update f i a j)) + w (f i) ≡ sum n (λ j. w (f j)) + w a
  sum-update n f i a l = omega (
    arith,
    sum-differ n (λ j. w (f j)) (λ j. w (update f i a j)) i l (λ j e. elsewhere j e),
    here,
  )
    where
      elsewhere : (j : ℕ) → j ≢ i → w (f j) ≡ w (update f i a j)
      elsewhere j e = ground arith

      here : w (update f i a i) ≡ w a
      here = ground arith

-- Inside the critical section, on either side of the move of the index.
abbrev pub near : Pc → ℕ
near touch = 1
near unlock = 1
near _ = 0

abbrev pub moving : Pc → ℕ
moving advance = 1
moving _ = 0

-- Past the first `down` and before the access to `buf`.
abbrev pub claims : Pc → ℕ
claims lock = 1
claims touch = 1
claims _ = 0

-- Past the access and before the last `up`.
abbrev pub owes : Pc → ℕ
owes advance = 1
owes unlock = 1
owes signal = 1
owes _ = 0

-- How many threads of one kind there are in each part.
pub record Count : Type 0 where
  pub near : ℕ
  pub moving : ℕ
  pub claims : ℕ
  pub owes : ℕ

abbrev pub count {ℓ} : {A : Type ℓ} → (A → Pc) → ℕ → (ℕ → A) → Count
count at n f = record {
  near = sum n (λ j. near (at (f j)));
  moving = sum n (λ j. moving (at (f j)));
  claims = sum n (λ j. claims (at (f j)));
  owes = sum n (λ j. owes (at (f j)));
}

-- One thread of the kind goes from `p` to `q`.
pub record Moved (p q : Pc) (before after : Count) : Type 0 where
  pub by_near : after.near + near p ≡ before.near + near q
  pub by_moving : after.moving + moving p ≡ before.moving + moving q
  pub by_claims : after.claims + claims p ≡ before.claims + claims q
  pub by_owes : after.owes + owes p ≡ before.owes + owes q

pub count-update {ℓ} :
    {A : Type ℓ} (at : A → Pc) (n : ℕ) (f : ℕ → A) (i : ℕ) (a : A)
    → i < n
    → Moved (at (f i)) (at a) (count at n f) (count at n (update f i a))
count-update at n f i a l = record {
  by_near = sum-update (λ x. near (at x)) n f i a l;
  by_moving = sum-update (λ x. moving (at x)) n f i a l;
  by_claims = sum-update (λ x. claims (at x)) n f i a l;
  by_owes = sum-update (λ x. owes (at x)) n f i a l;
}

-- Before any thread has moved.
pub sum-zero : (n : ℕ) → sum n (λ j. 0) ≡ 0
unfolding sum
sum-zero zero = refl
sum-zero (suc n) = omega (arith, sum-zero n)

-- No thread counts for more than `c`.
pub sum_le : (n c : ℕ) (g : ℕ → ℕ) → ((j : ℕ) → g j ≤ c) → sum n g ≤ n * c
unfolding sum
sum_le zero c g h = omega arith
sum_le (suc n) c g h = ground (arith, h n, sum_le n c g h)

-- All count for `c`.
pub sum_all : (n c : ℕ) (g : ℕ → ℕ) → ((j : ℕ) → j < n → g j ≡ c) → sum n g ≡ n * c
unfolding sum
sum_all zero c g h = omega arith
sum_all (suc n) c g h = ground (arith, h n (omega arith), sum_all n c g (λ j l. h j (omega arith)))

-- None of the threads counts.
pub sum-none : (n : ℕ) (g : ℕ → ℕ) → ((j : ℕ) → j < n → g j ≡ 0) → sum n g ≡ 0
sum-none n g e = omega (arith, sum-agree n g (λ j. 0) e, sum-zero n)

-- All of them have the property, or one of them shows that `Q`.
pub each_or {ℓ ℓ'} :
    {P : ℕ → Type ℓ} {Q : Type ℓ'} (n : ℕ)
    → ((i : ℕ) → i < n → P i ⊎ Q)
    → ((i : ℕ) → i < n → P i) ⊎ Q
each_or zero f = inl (λ i l. absurd (omega arith))
each_or {P} (suc n) f = elim (each_or n (λ i l. f i (omega arith))) [
  | inr q ↦ inr q
  | inl all ↦ elim (f n (omega arith)) [
    | inr q ↦ inr q
    | inl last ↦
        inl (λ i l. elim (dec_lt i n) [
          | yes below ↦ all i below
          | no at ↦ subst P (omega arith) last
        ])
  ]
]

pub sum-member : (n : ℕ) (g : ℕ → ℕ) (i : ℕ) → i < n → g i ≤ sum n g
unfolding sum
sum-member zero g i l = absurd (omega arith)
sum-member (suc n) g i l = elim (dec_lt i n) [
  | yes below ↦ omega (arith, sum-member n g i below)
  | no last ↦ let here : i ≡ n = omega arith in omega (arith, ap g here)
]

pub sum-add : (n : ℕ) (g h : ℕ → ℕ) → sum n (λ j. g j + h j) ≡ sum n g + sum n h
unfolding sum
sum-add zero g h = refl
sum-add (suc n) g h = omega (arith, sum-add n g h)

-- Between `down(&mutex)` and `up(&mutex)`.
abbrev pub inside : Pc → ℕ
inside p = near p + moving p
