-- ===== src/Ring/Overwrite.antt =====
-- Overwriting writes: `write_overwrite` of ring_buffer.hpp keeps the newest items.
use audio_router.Prelude.{
  ℕ, ◌+◌, ◌-◌, ◌^◌, ◌<◌, ◌≤◌, ◌≡◌, ◌∙◌, ap, sym, arith, List, [], ◌∷◌, ◌++◌, some, ltb, length,
  take, drop, min, get_elem?, length-drop, length-append, append-nil, take-length, drop-append,
  drop-append_ge, Bool-cases, inl, inr,
}
use audio_router.Prelude.Word.{add64, sub64}
use audio_router.Prelude.Lookup.{
  overlay, length-overlay, get_elem?-overlay, get_elem?-none, list_ext,
}
use audio_router.Ring.Inv.{IsValid, put_items-IsValid, mod_once}
use audio_router.Ring.Contents.{
  contents, index, get_elem?-contents, length-contents, contents-put_items,
}
use audio_router.Ring.Inv.{copy_to_buffer_lem}
use audio_router.Ring.Read.{advance, advance-IsValid, contents-advance}
use audio_router.Ring.Write.{free_slots_lem}
use audio_router.Ring.{RingBuffer, copy_to_buffer, make_room, write_overwrite, put_items}

module _ {A : Type 0} where
  -- The last `k` items of a list.
  abbrev pub take_last : ℕ → List A → List A
  take_last k xs = drop (length xs - k) xs

  make_room_lem :
      (r : RingBuffer A) (n : ℕ)
      → IsValid r
      → n < r.capacity
      → make_room r n ≡ advance r (n - (r.capacity - r.count))
  unfolding make_room
  make_room_lem r n v h =
      let d : ℕ = n - (r.capacity - r.count) in
      rw (free_slots_lem r v) (elim (Bool-cases (ltb (r.capacity - r.count) n)) [
        | inl e ↦
            let e1 : sub64 n (r.capacity - r.count) ≡ d = ground arith in
            let e2 : sub64 r.count d ≡ r.count - d = omega arith in
            let e3 : add64 r.tail d ≡ r.tail + d = omega arith in
            rw (e, e1, e2, e3) (ground (arith, mod_once (r.tail + d) r.capacity))
        | inr e ↦ rw e (ground arith)
      ])

  whole :
      (r : RingBuffer A) (src : List A)
      → IsValid r
      → length src ≡ r.capacity
      → 0 < r.capacity
      → let r' : RingBuffer A = record r {
        buffer = overlay r.buffer 0 src;
        head = 0;
        tail = 0;
        count = r.capacity;
      } in
        (contents r' ≡ src) × IsValid r'
  whole r src v e p =
      let r' : RingBuffer A = record r {
        buffer = overlay r.buffer 0 src;
        head = 0;
        tail = 0;
        count = r.capacity;
      } in
      let v' : IsValid r' = ground (arith, length-overlay r.buffer 0 src) in
      (
        list_ext (contents r') src (λ i. ground (
          arith,
          get_elem?-contents r' i v',
          get_elem?-overlay r.buffer 0 src (index r' i),
          get_elem?-none src i,
          ap (get_elem? src) {x = index r' i - 0} {y = i},
        )),
        v',
      )

  -- Fewer items than the capacity holds.
  overwrite_part :
      (r : RingBuffer A) (src : List A)
      → IsValid r
      → 0 < length src
      → length src < r.capacity
      → let r' = put_items (make_room r (length src)) src (length src) in
        (contents r' ≡ take_last r.capacity (contents r ++ src)) × IsValid r'
  overwrite_part r src v p h =
      let n : ℕ = length src in
      let d : ℕ = n - (r.capacity - r.count) in
      let q = advance r d in
      let w = advance-IsValid r d v (omega arith) (omega arith) in
      let size : length (contents r ++ src) - r.capacity ≡ d =
        omega (arith, length-append (contents r) src, length-contents r v) in
      let gone = contents-advance r d v (omega arith) (omega arith) in
      let kept = contents-put_items q src n w p (omega arith) (omega arith) in
      rw (make_room_lem r n v h, size)
        (
          kept
              ∙ ap (λ c. c ++ take n src) gone
              ∙ ap (λ t. drop d (contents r) ++ t) (take-length src)
              ∙ sym (drop-append d (contents r) src (omega (arith, length-contents r v))),
          put_items-IsValid q src n w p (omega arith),
        )

  -- At least as many: the storage is filled with the newest.
  overwrite_whole :
      (r : RingBuffer A) (src : List A)
      → IsValid r
      → 0 < r.capacity
      → r.capacity ≤ length src
      → length src < 2 ^ 64
      → let s = copy_to_buffer r 0 (drop (sub64 (length src) r.capacity) src) r.capacity in
        let r' : RingBuffer A = record s { head = 0; tail = 0; count = r.capacity } in
        (contents r' ≡ take_last r.capacity (contents r ++ src)) × IsValid r'
  overwrite_whole r src v p h b =
      let k : ℕ = length src - r.capacity in
      let e : sub64 (length src) r.capacity ≡ k = omega arith in
      let last = drop k src in
      let len : length last ≡ r.capacity = omega (arith, length-drop k src) in
      let all : take r.capacity last ≡ last = ap (λ j. take j last) (sym len) ∙ take-length last in
      let size : length (contents r ++ src) - r.capacity ≡ length (contents r) + k =
        omega (arith, length-append (contents r) src) in
      let rest : length (contents r) + k - length (contents r) ≡ k = omega arith in
      let (c, w) = whole r last v len p in
      rw (e, copy_to_buffer_lem r 0 last r.capacity (omega arith), all, size)
        (
          c
              ∙ sym (
                  drop-append_ge (length (contents r) + k) (contents r) src (omega arith)
                  ∙ ap (λ j. drop j src) rest),
          w,
        )

  -- On a valid buffer of positive capacity `write_overwrite` leaves the newest items of the queue
  -- followed by the source, as many as the capacity holds; it returns the number of source items
  -- that are kept, and keeps the invariant.
  pub write_overwrite_lem :
      (r : RingBuffer A) (src : List A)
      → IsValid r
      → 0 < r.capacity
      → length src < 2 ^ 64
      → let (kept, r') = write_overwrite r (some src) (length src) in
        (kept ≡ min (length src) r.capacity)
        × (contents r' ≡ take_last r.capacity (contents r ++ src))
        × IsValid r'
  unfolding write_overwrite
  write_overwrite_lem r [] v p h =
      let e : length (contents r ++ []) - r.capacity ≡ 0 =
        omega (arith, length-append (contents r) [], length-contents r v) in
      rw e (ground (arith, append-nil (contents r)))
  write_overwrite_lem r (x ∷ xs) v p h =
      ground (arith, overwrite_part r (x ∷ xs) v, overwrite_whole r (x ∷ xs) v p)
