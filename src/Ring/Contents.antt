-- ===== src/Ring/Contents.antt =====
-- The queue that a `RingBuffer` stands for, oldest item first, and what the chunk copies do to it.
use audio_router.Prelude.{
  ℕ, ◌+◌, ◌-◌, ◌<◌, ◌≤◌, ◌≡◌, ap, arith, List, ◌++◌, none, ltb, leb, ◌&&◌, if◌then◌else◌, length,
  take, drop, min, get_elem?, length-take, length-drop, length-append,
}
use audio_router.Prelude.Lookup.{
  overlay, length-overlay, get_elem?-overlay, get_elem?-append, get_elem?-take, get_elem?-drop,
  list_ext,
}
use audio_router.Ring.{RingBuffer, put_items}
use audio_router.Ring.Inv.{IsValid, put_items_lem, put_items-IsValid}

module _ {A : Type 0} where
  -- The storage read from `tail` on, going round, as far as `count`.
  unfoldable pub contents : RingBuffer A → List A
  contents r = take r.count (drop r.tail r.buffer ++ take r.tail r.buffer)

  -- The storage index of the item at position `i`.
  abbrev pub index : RingBuffer A → ℕ → ℕ
  index r i = if ltb (r.tail + i) r.capacity then r.tail + i else r.tail + i - r.capacity

  pub get_elem?-contents :
      (r : RingBuffer A) (i : ℕ)
      → IsValid r
      → get_elem? (contents r) i ≡ (if ltb i r.count then get_elem? r.buffer (index r i) else none)
  unfolding contents
  get_elem?-contents r i v =
      let d = drop r.tail r.buffer in
      let t = take r.tail r.buffer in
      let k = length-drop r.tail r.buffer in
      ground (
        arith,
        get_elem?-take r.count (d ++ t) i,
        get_elem?-append d t i,
        get_elem?-drop r.tail r.buffer i,
        get_elem?-take r.tail r.buffer (i - length d),
        ap (get_elem? r.buffer) {x = i - length d} {y = r.tail + i - r.capacity},
      )

  pub length-contents : (r : RingBuffer A) → IsValid r → length (contents r) ≡ r.count
  unfolding contents
  length-contents r v =
      let d = drop r.tail r.buffer in
      let t = take r.tail r.buffer in
      omega (
        arith,
        length-take r.count (d ++ t),
        length-append d t,
        length-drop r.tail r.buffer,
        length-take r.tail r.buffer,
      )

  -- Positions of the two chunks.
  get_elem?-first :
      (src : List A) (f h j : ℕ)
      → h ≤ j
      → j < h + f
      → get_elem? (take f src) (j - h) ≡ get_elem? src (j - h)
  get_elem?-first src f h j a b = ground (arith, get_elem?-take f src (j - h))

  get_elem?-second :
      (src : List A) (f s j : ℕ)
      → j < s
      → get_elem? (take s (drop f src)) (j - 0) ≡ get_elem? src (j + f)
  get_elem?-second src f s j a = ground (
    arith,
    get_elem?-take s (drop f src) (j - 0),
    get_elem?-drop f src (j - 0),
    ap (get_elem? src) {x = f + (j - 0)} {y = j + f},
  )

  length-chunk : (src : List A) (f s : ℕ) → f + s ≤ length src → length (take s (drop f src)) ≡ s
  length-chunk src f s h = omega (arith, length-take s (drop f src), length-drop f src)

  -- Position `j` of the storage after `put_items`, with `f` items in the first chunk.
  get_elem?-two_chunks :
      (buf src : List A) (h f s j : ℕ)
      → h + f ≤ length buf
      → s ≤ h
      → f + s ≤ length src
      → get_elem? (overlay (overlay buf h (take f src)) 0 (take s (drop f src))) j ≡ (
          if ltb j s
          then get_elem? src (j + f)
          else if leb h j && ltb j (h + f)
          then get_elem? src (j - h)
          else get_elem? buf j)
  get_elem?-two_chunks buf src h f s j p q e =
      let first = take f src in
      let l1 : length first ≡ f = omega (arith, length-take f src) in
      let l2 = length-chunk src f s e in
      let l3 = length-overlay buf h first in
      ground (
        arith,
        get_elem?-overlay (overlay buf h first) 0 (take s (drop f src)) j,
        get_elem?-overlay buf h first j,
        get_elem?-first src f h j,
        get_elem?-second src f s j,
      )

  -- `put_items` appends the first `n` items of the source to the queue.
  pub contents-put_items :
      (r : RingBuffer A) (src : List A) (n : ℕ)
      → IsValid r
      → 0 < n
      → n ≤ r.capacity - r.count
      → n ≤ length src
      → contents (put_items r src n) ≡ contents r ++ take n src
  contents-put_items r src n v p h hs =
      let r' = put_items r src n in
      let v' = put_items-IsValid r src n v p h in
      list_ext (contents r') (contents r ++ take n src) λ i.
        let f = min n (r.capacity - r.head) in
        ground (
          arith,
          put_items_lem r src n v p h,
          get_elem?-contents r' i v',
          get_elem?-append (contents r) (take n src) i,
          length-contents r v,
          get_elem?-contents r i v,
          get_elem?-take n src (i - r.count),
          get_elem?-two_chunks r.buffer src r.head f (n - f) (index r i),
          ap (get_elem? src) {x = index r i - r.head} {y = i - r.count},
          ap (get_elem? src) {x = index r i + f} {y = i - r.count},
        )
