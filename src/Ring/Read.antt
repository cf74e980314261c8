-- ===== src/Ring/Read.antt =====
-- Reading: `read`, `peek` and `skip` of ring_buffer.hpp.
use audio_router.Prelude.{
  ℕ, zero, suc, ◌+◌, ◌-◌, ◌<◌, ◌≤◌, ◌≡◌, ◌∙◌, ap, sym, refl, arith, [], ltb, ◌==◌, if◌then◌else◌,
  length, take, drop, min, get_elem?, length-take, length-drop, take-min, drop-min, Bool-cases, inl,
  inr,
}
use audio_router.Prelude.Word.{add64, sub64}
use audio_router.Prelude.Lookup.{get_elem?-append, get_elem?-take, get_elem?-drop, list_ext}
use audio_router.Ring.Inv.{IsValid, mod_once}
use audio_router.Ring.Contents.{contents, index, get_elem?-contents, length-contents}
use audio_router.Ring.{RingBuffer, get_items, copy_from_buffer, read, peek, skip}

module _ {A : Type 0} where
  -- The buffer after its first `d` items are dropped.
  abbrev pub advance : RingBuffer A → ℕ → RingBuffer A
  advance r d = record r { tail = index r d; count = r.count - d }

  pub advance-IsValid :
      (r : RingBuffer A) (d : ℕ) → IsValid r → 0 < r.capacity → d ≤ r.count → IsValid (advance r d)
  advance-IsValid r d v p h = ground arith

  pub contents-advance :
      (r : RingBuffer A) (d : ℕ)
      → IsValid r
      → 0 < r.capacity
      → d ≤ r.count
      → contents (advance r d) ≡ drop d (contents r)
  contents-advance r d v p h = list_ext (contents (advance r d)) (drop d (contents r)) λ i. ground (
    arith,
    get_elem?-contents (advance r d) i (advance-IsValid r d v p h),
    get_elem?-drop d (contents r) i,
    get_elem?-contents r (d + i) v,
    ap (get_elem? r.buffer) {x = index (advance r d) i} {y = index r (d + i)},
  )

  copy_from_buffer_lem :
      (r : RingBuffer A) (off n : ℕ) → copy_from_buffer r off n ≡ take n (drop off r.buffer)
  unfolding copy_from_buffer
  copy_from_buffer_lem r off zero = refl
  copy_from_buffer_lem r off (suc n) = ground arith

  pub get_items_lem :
      (r : RingBuffer A) (n : ℕ) → IsValid r → n ≤ r.count → get_items r n ≡ take n (contents r)
  unfolding get_items
  get_items_lem r n v h =
      let f = min n (r.capacity - r.tail) in
      let e1 : sub64 r.capacity r.tail ≡ r.capacity - r.tail = omega arith in
      let e2 : sub64 n f ≡ n - f = omega arith in
      rw (e1, e2, copy_from_buffer_lem r r.tail f, copy_from_buffer_lem r 0 (n - f))
        (list_ext _ (take n (contents r)) λ i. ground (
          arith,
          get_elem?-append (take f (drop r.tail r.buffer))
              (if ltb 0 (n - f) then take (n - f) r.buffer else []) i,
          get_elem?-take f (drop r.tail r.buffer) i,
          get_elem?-drop r.tail r.buffer i,
          length-take f (drop r.tail r.buffer),
          length-drop r.tail r.buffer,
          get_elem?-take (n - f) r.buffer (i - f),
          get_elem?-take n (contents r) i,
          get_elem?-contents r i v,
          ap (get_elem? r.buffer) {x = i - f} {y = r.tail + i - r.capacity},
        ))

  -- `read` with its early returns merged and its new tail resolved.
  read_cases :
      (r : RingBuffer A) (n m : ℕ)
      → IsValid r
      → m ≡ min n r.count
      → read r n ≡ (if m == 0 then ([], r) else (get_items r m, advance r m))
  unfolding read
  read_cases r n m v e =
      let f = min m (r.capacity - r.tail) in
      let e1 : sub64 r.capacity r.tail ≡ r.capacity - r.tail = omega arith in
      let e2 : sub64 m f ≡ m - f = omega arith in
      let e3 : sub64 r.count m ≡ r.count - m = omega arith in
      let e4 : add64 r.tail f ≡ r.tail + f = omega arith in
      rw (← e, e1, e2, e3, e4) (ground (arith, mod_once (r.tail + f) r.capacity))

  take-contents :
      (r : RingBuffer A) (n : ℕ)
      → IsValid r
      → take (min n r.count) (contents r) ≡ take n (contents r)
  take-contents r n v =
      ap (λ k. take (min n k) (contents r)) (sym (length-contents r v)) ∙ take-min n (contents r)

  drop-contents :
      (r : RingBuffer A) (n : ℕ)
      → IsValid r
      → drop (min n r.count) (contents r) ≡ drop n (contents r)
  drop-contents r n v =
      ap (λ k. drop (min n k) (contents r)) (sym (length-contents r v)) ∙ drop-min n (contents r)

  -- `read` copies out the first `n` items of the queue, or all when there are fewer, removes exactly
  -- those and keeps the invariant.
  pub read_lem :
      (r : RingBuffer A) (n : ℕ)
      → IsValid r
      → let (items, r') = read r n in
        (items ≡ take n (contents r)) × (contents r' ≡ drop n (contents r)) × IsValid r'
  read_lem r n v =
      let m : ℕ = min n r.count in
      let e = read_cases r n m v refl in
      let t = take-contents r n v in
      let d = drop-contents r n v in
      elim (Bool-cases (m == 0)) [
        | inl z ↦
            let z' : m ≡ 0 = ground arith in
            rw (e, z)
              (
                ap (λ k. take k (contents r)) (sym z') ∙ t,
                ap (λ k. drop k (contents r)) (sym z') ∙ d,
                v,
              )
        | inr z ↦
            rw (e, z)
              (
                get_items_lem r m v (omega arith) ∙ t,
                contents-advance r m v (ground arith) (omega arith) ∙ d,
                advance-IsValid r m v (ground arith) (omega arith),
              )
      ]

  peek_lem : (r : RingBuffer A) (n : ℕ) → IsValid r → peek r n ≡ take n (contents r)
  unfolding peek
  peek_lem r n v =
      let m : ℕ = min n r.count in
      let t = take-contents r n v in
      elim (Bool-cases (m == 0)) [
        | inl z ↦ let z' : m ≡ 0 = ground arith in ground (arith, ap (λ k. take k (contents r)) z')
        | inr z ↦ ground (arith, get_items_lem r m v)
      ]

  -- `skip` with its new tail resolved.
  skip_lem :
      (r : RingBuffer A) (n : ℕ)
      → IsValid r
      → 0 < r.capacity
      → skip r n ≡ (min n r.count, advance r (min n r.count))
  unfolding skip
  skip_lem r n v p =
      let m : ℕ = min n r.count in
      let e3 : sub64 r.count m ≡ r.count - m = omega arith in
      let e4 : add64 r.tail m ≡ r.tail + m = omega arith in
      rw (e3, e4) (ground (arith, mod_once (r.tail + m) r.capacity))

  -- On a valid buffer of positive capacity `peek` copies out what `read` would, and `skip` leaves
  -- the queue that `read` would leave, returns the number of items that `read` would copy, and keeps
  -- the invariant.
  pub peek-skip-read :
      (r : RingBuffer A) (n : ℕ)
      → IsValid r
      → 0 < r.capacity
      → (peek r n ≡ (read r n).0)
        × (contents (skip r n).1 ≡ contents (read r n).1)
        × ((skip r n).0 ≡ length (read r n).0)
        × IsValid (skip r n).1
  peek-skip-read r n v p =
      let (items, rest, _) = read_lem r n v in
      let m : ℕ = min n r.count in
      let e = skip_lem r n v p in
      let c = contents-advance r m v p (omega arith) in
      (
        peek_lem r n v ∙ sym items,
        ap (λ s. contents s.1) e ∙ c ∙ drop-contents r n v ∙ sym rest,
        ap (λ s. s.0) e
            ∙ omega (arith, ap length items, length-take n (contents r), length-contents r v),
        rw e (advance-IsValid r m v p (omega arith)),
      )
