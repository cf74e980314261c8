-- ===== src/Prelude/Lookup.antt =====
-- Positions of lists after `++`, `take`, `drop` and a block write; lists with equal positions are
-- equal.
use audio_router.Prelude.{
  ℕ, zero, suc, ◌+◌, ◌-◌, ◌≤◌, ◌≡◌, refl, ap, ◌∙◌, arith, ◌&&◌, List, [], ◌∷◌, ◌++◌, none, ltb, leb,
  if◌then◌else◌, length, get_elem?, take, drop,
}

module _ {A : Type 0} where
  -- `std::memcpy(&buf[off], xs, n)` for the `n` items of `xs`; a write past the end is cut off.
  unfoldable pub overlay : List A → ℕ → List A → List A
  overlay [] off xs = []
  overlay (b ∷ bs) zero [] = b ∷ bs
  overlay (b ∷ bs) zero (x ∷ xs) = x ∷ overlay bs zero xs
  overlay (b ∷ bs) (suc off) xs = b ∷ overlay bs off xs

  pub length-overlay :
      (buf : List A) (off : ℕ) (xs : List A) → length (overlay buf off xs) ≡ length buf
  unfolding overlay
  length-overlay [] off xs = refl
  length-overlay (b ∷ bs) zero [] = refl
  length-overlay (b ∷ bs) zero (x ∷ xs) = ap suc (length-overlay bs zero xs)
  length-overlay (b ∷ bs) (suc off) xs = ap suc (length-overlay bs off xs)

  pub get_elem?-overlay :
      (buf : List A) (off : ℕ) (xs : List A) (i : ℕ)
      → off + length xs ≤ length buf
      → get_elem? (overlay buf off xs) i
        ≡ (if leb off i && ltb i (off + length xs) then get_elem? xs (i - off) else get_elem? buf i)
  unfolding overlay
  get_elem?-overlay [] off [] i h = ground arith
  get_elem?-overlay [] off (x ∷ xs) i h = absurd (omega arith)
  get_elem?-overlay (b ∷ bs) zero [] i h = ground arith
  get_elem?-overlay (b ∷ bs) zero (x ∷ xs) zero h = ground arith
  get_elem?-overlay (b ∷ bs) zero (x ∷ xs) (suc i) h =
      let e : suc i - 0 ≡ suc (i - 0) = omega arith in
      ground
        (arith, get_elem?-overlay bs zero xs i (omega arith), ap (get_elem? {A = A} (x ∷ xs)) e)
  get_elem?-overlay (b ∷ bs) (suc off) xs zero h = ground arith
  get_elem?-overlay (b ∷ bs) (suc off) xs (suc i) h =
      let e : suc i - suc off ≡ i - off = omega arith in
      ground (arith, get_elem?-overlay bs off xs i (omega arith), ap (get_elem? xs) e)

  pub overlay-nil : (buf : List A) (off : ℕ) → overlay buf off [] ≡ buf
  unfolding overlay
  overlay-nil [] off = refl
  overlay-nil (b ∷ bs) zero = refl
  overlay-nil (b ∷ bs) (suc off) = ap (◌∷◌ b) (overlay-nil bs off)

  pub get_elem?-none : (xs : List A) (i : ℕ) → length xs ≤ i → get_elem? xs i ≡ none
  get_elem?-none [] i h = refl
  get_elem?-none (x ∷ xs) zero h = absurd (omega arith)
  get_elem?-none (x ∷ xs) (suc i) h = get_elem?-none xs i (omega arith)

  pub get_elem?-append :
      (xs ys : List A) (i : ℕ)
      → get_elem? (xs ++ ys) i
        ≡ (if ltb i (length xs) then get_elem? xs i else get_elem? ys (i - length xs))
  get_elem?-append [] ys i = let e : i - 0 ≡ i = omega arith in ground (arith, ap (get_elem? ys) e)
  get_elem?-append (x ∷ xs) ys zero = ground arith
  get_elem?-append (x ∷ xs) ys (suc i) =
      let e : suc i - suc (length xs) ≡ i - length xs = omega arith in
      ground (arith, get_elem?-append xs ys i, ap (get_elem? ys) e)

  pub get_elem?-take :
      (n : ℕ) (xs : List A) (i : ℕ)
      → get_elem? (take n xs) i ≡ (if ltb i n then get_elem? xs i else none)
  get_elem?-take zero xs i = ground arith
  get_elem?-take (suc n) [] i = ground arith
  get_elem?-take (suc n) (x ∷ xs) zero = ground arith
  get_elem?-take (suc n) (x ∷ xs) (suc i) = ground (arith, get_elem?-take n xs i)

  pub get_elem?-drop :
      (n : ℕ) (xs : List A) (i : ℕ) → get_elem? (drop n xs) i ≡ get_elem? xs (n + i)
  get_elem?-drop zero xs i = ap (get_elem? xs) (omega arith)
  get_elem?-drop (suc n) [] i = refl
  get_elem?-drop (suc n) (x ∷ xs) i =
      get_elem?-drop n xs i ∙ ap (get_elem? (x ∷ xs)) {x = suc (n + i)} (omega arith)

  pub list_ext : (xs ys : List A) → ((i : ℕ) → get_elem? xs i ≡ get_elem? ys i) → xs ≡ ys
  list_ext [] [] h = refl
  list_ext [] (y ∷ ys) h = cc (h 0)
  list_ext (x ∷ xs) [] h = cc (h 0)
  list_ext (x ∷ xs) (y ∷ ys) h = cc (h 0, list_ext xs ys (λ i. h (suc i)))
