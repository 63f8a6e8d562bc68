-- ===== src/Sys2/Interface/Trim.antt =====
-- sys2/mypacket.c, lines 138 to 148: the interface name that a command goes by.
use linux_driver.Base.{
  ℕ, zero, suc, ◌-◌, ◌<◌, ◌≤◌, ◌≡◌, refl, sym, ap, ◌∙◌, Bool, true, false, List, [], ◌∷◌, ◌++◌,
  length, take, get_or, set, cstr, if◌then◌else◌, arith, take-snoc, take_all, length-take,
  length-append, length-set, length-replicate, replicate, cstr-append, cstr-IsText, take-IsText,
  IsText,
}
use linux_driver.Sys2.Interface.{NetApi, copy_name, trim_loop, trim_trailing_whitespace}

-- A text without the white space at its end.
abbrev pub strip : (ℕ → Bool) → List ℕ → List ℕ
strip f [] = []
strip f (x ∷ xs) = elim (strip f xs) [ [] ↦ if f x then [] else x ∷ [] | y ∷ r ↦ x ∷ y ∷ r ]

-- What `trim_trailing_whitespace` is to do: the first byte stays, white space or not.
abbrev pub trimmed : (ℕ → Bool) → List ℕ → List ℕ
trimmed f [] = []
trimmed f (x ∷ xs) = x ∷ strip f xs

module _ (f : ℕ → Bool) where
  strip-space : (w : List ℕ) (x : ℕ) → f x ≡ true → strip f (w ++ (x ∷ [])) ≡ strip f w
  strip-space [] x e = ground arith
  strip-space (y ∷ w) x e = ground (arith, strip-space w x e)

  strip-word : (w : List ℕ) (x : ℕ) → f x ≡ false → strip f (w ++ (x ∷ [])) ≡ w ++ (x ∷ [])
  strip-word [] x e = ground arith
  strip-word (y ∷ []) x e = ground arith
  strip-word (y ∷ z ∷ w) x e = ground (arith, strip-word (z ∷ w) x e)

  trimmed-space :
      (w : List ℕ) (x : ℕ) → 0 < length w → f x ≡ true → trimmed f (w ++ (x ∷ [])) ≡ trimmed f w
  trimmed-space [] x l e = absurd (omega arith)
  trimmed-space (y ∷ w) x l e = ap (λ r. y ∷ r) (strip-space w x e)

  trimmed-word :
      (w : List ℕ) (x : ℕ) → 0 < length w → f x ≡ false → trimmed f (w ++ (x ∷ [])) ≡ w ++ (x ∷ [])
  trimmed-word [] x l e = absurd (omega arith)
  trimmed-word (y ∷ w) x l e = ap (λ r. y ∷ r) (strip-word w x e)

  trimmed_short : (w : List ℕ) → length w ≤ 1 → trimmed f w ≡ w
  trimmed_short [] l = refl
  trimmed_short (x ∷ []) l = refl
  trimmed_short (x ∷ y ∷ w) l = absurd (omega arith)

-- A NUL in place of one of its bytes cuts a string short there.
cstr-set : (b : List ℕ) (i : ℕ) → i < length (cstr b) → cstr (set b i 0) ≡ take i (cstr b)
cstr-set [] i l = absurd (omega arith)
cstr-set (zero ∷ b) i l = absurd (omega arith)
cstr-set (suc c ∷ b) zero l = refl
cstr-set (suc c ∷ b) (suc i) l = ap (λ r. suc c ∷ r) (cstr-set b i (omega arith))

get_or-cstr : (b : List ℕ) (i : ℕ) → i < length (cstr b) → get_or b i 0 ≡ get_or (cstr b) i 0
get_or-cstr [] i l = absurd (omega arith)
get_or-cstr (zero ∷ b) i l = absurd (omega arith)
get_or-cstr (suc c ∷ b) zero l = refl
get_or-cstr (suc c ∷ b) (suc i) l = get_or-cstr b i (omega arith)

last-snoc :
    (b : List ℕ) (e : ℕ)
    → length (cstr b) ≡ suc (suc e)
    → cstr b ≡ take (suc e) (cstr b) ++ (get_or b (suc e) 0 ∷ [])
last-snoc b e h =
    sym (take_all (suc (suc e)) (cstr b) (omega (arith, h)))
    ∙ take-snoc (suc e) (cstr b) 0 (omega (arith, h))
    ∙ ap (λ x. take (suc e) (cstr b) ++ (x ∷ [])) (sym (get_or-cstr b (suc e) (omega (arith, h))))

length-strip : (f : ℕ → Bool) (w : List ℕ) → length (strip f w) ≤ length w
length-strip f [] = omega arith
length-strip f (x ∷ w) = ground (arith, length-strip f w)

length-trimmed : (f : ℕ → Bool) (w : List ℕ) → length (trimmed f w) ≤ length w
length-trimmed f [] = omega arith
length-trimmed f (x ∷ w) = omega (arith, length-strip f w)

cstr-zeros : (w : List ℕ) (n : ℕ) → IsText w → 0 < n → cstr (w ++ replicate n 0) ≡ w
cstr-zeros w zero h l = absurd (omega arith)
cstr-zeros w (suc n) h l = cstr-append w (replicate n 0) h

cstr-copy_name : (param : List ℕ) → cstr (copy_name param) ≡ take 15 (cstr param)
unfolding copy_name
cstr-copy_name param =
    cstr-zeros (take 15 (cstr param)) _ (take-IsText 15 (cstr param) (cstr-IsText param))
      (omega (arith, length-take 15 (cstr param)))

length-copy_name : (param : List ℕ) → length (copy_name param) ≡ 16
unfolding copy_name
length-copy_name param =
    let text = take 15 (cstr param) in
    omega (
      arith,
      length-append text (replicate (16 - length text) 0),
      length-replicate {A = ℕ} (16 - length text) 0,
      length-take 15 (cstr param),
    )

module _ (api : NetApi) where
  length-trim_loop : (e : ℕ) (b : List ℕ) → length (trim_loop api e b) ≡ length b
  unfolding trim_loop
  length-trim_loop zero b = refl
  length-trim_loop (suc e) b =
      ground (arith, length-trim_loop e (set b (suc e) 0), length-set b (suc e) 0)

  -- The last byte of the string stands at `e`.
  cstr-trim_loop :
      (e : ℕ) (b : List ℕ)
      → length (cstr b) ≡ suc e
      → cstr (trim_loop api e b) ≡ trimmed api.isspace (cstr b)
  unfolding trim_loop
  cstr-trim_loop zero b h = sym (trimmed_short api.isspace (cstr b) (omega arith))
  cstr-trim_loop (suc e) b h =
      let w = cstr b in
      let x = get_or b (suc e) 0 in
      let last = last-snoc b e h in
      let cut = cstr-set b (suc e) (omega arith) in
      let before : length (take (suc e) w) ≡ suc e = omega (arith, length-take (suc e) w) in
      let rest = cstr-trim_loop e (set b (suc e) 0) (ap length cut ∙ before) in
      let space = λ (s : api.isspace x ≡ true).
        ap (trimmed api.isspace) last
        ∙ trimmed-space api.isspace (take (suc e) w) x (omega (arith, before)) s in
      let word = λ (s : api.isspace x ≡ false).
        ap (trimmed api.isspace) last
        ∙ trimmed-word api.isspace (take (suc e) w) x (omega (arith, before)) s
        ∙ sym last in
      ground (arith, rest ∙ ap (trimmed api.isspace) cut, space, word)

  trim_cases :
      (b : List ℕ) (n : ℕ)
      → length (cstr b) ≡ n
      → cstr (trim_loop api (n - 1) b) ≡ trimmed api.isspace (cstr b)
  unfolding trim_loop
  trim_cases b zero h = sym (trimmed_short api.isspace (cstr b) (omega arith))
  trim_cases b (suc e) h =
      let back : suc e - 1 ≡ e = omega arith in
      ap (λ k. cstr (trim_loop api k b)) back ∙ cstr-trim_loop e b h

  cstr-trim_trailing_whitespace :
      (b : List ℕ)
      → (cstr (trim_trailing_whitespace api b) ≡ trimmed api.isspace (cstr b))
        × (length (trim_trailing_whitespace api b) ≡ length b)
  unfolding trim_trailing_whitespace
  cstr-trim_trailing_whitespace b =
      (trim_cases b (length (cstr b)) refl, length-trim_loop (length (cstr b) - 1) b)

  -- Whatever counts as white space: trimming a buffer leaves in it the string that it held without
  -- the white space at its end, except that the first byte stays even if it is white space, and the
  -- buffer keeps its size. So the name that `showinterface` and `clearinterface` go by, the parameter
  -- copied and trimmed, is made in this way of the first fifteen bytes of the parameter, and the
  -- buffer has sixteen bytes, with a NUL among them.
  pub trim-copy_name :
      (b param : List ℕ)
      → let name = trim_trailing_whitespace api (copy_name param) in
        (cstr (trim_trailing_whitespace api b) ≡ trimmed api.isspace (cstr b))
        × (length (trim_trailing_whitespace api b) ≡ length b)
        × (cstr name ≡ trimmed api.isspace (take 15 (cstr param)))
        × (length name ≡ 16)
        × (length (cstr name) < 16)
  trim-copy_name b param =
      let (same, sized) = cstr-trim_trailing_whitespace b in
      let (name, room) = cstr-trim_trailing_whitespace (copy_name param) in
      let copied = cstr-copy_name param in
      let short = length-trimmed api.isspace (take 15 (cstr param)) in
      let named = name ∙ ap (trimmed api.isspace) copied in
      (
        same,
        sized,
        named,
        room ∙ length-copy_name param,
        omega (arith, ap length named, short, length-take 15 (cstr param)),
      )
