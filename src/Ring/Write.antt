-- ===== src/Ring/Write.antt =====
-- Writing without overwriting: `write`, `write(span)` and `try_write` of ring_buffer.hpp.
use audio_router.Prelude.{
  ℕ, ◌-◌, ◌<◌, ◌≤◌, ◌≡◌, sym, refl, arith, List, [], ◌∷◌, ◌++◌, none, some, ◌==◌, if◌then◌else◌,
  length, take, min, append-nil, take-length, Bool-cases, inl, inr,
}
use audio_router.Ring.Inv.{IsValid, put_items-IsValid}
use audio_router.Ring.Contents.{contents, contents-put_items}
use audio_router.Ring.{RingBuffer, free_slots, write, try_write, put_items}

module _ {A : Type 0} where
  pub free_slots_lem : (r : RingBuffer A) → IsValid r → free_slots r ≡ r.capacity - r.count
  free_slots_lem r v = ground arith

  -- `write` with its early returns merged.
  write_cases :
      (r : RingBuffer A) (src : List A) (n m : ℕ)
      → IsValid r
      → m ≡ min n (r.capacity - r.count)
      → write r (some src) n ≡ (if m == 0 then (0, r) else (m, put_items r src m))
  unfolding write
  write_cases r src n m v e = rw (free_slots_lem r v, ← e) (ground arith)

  -- On a valid buffer, `write` takes as many of the `n` items as there are free slots, appends
  -- exactly those to the queue, returns their number, and keeps the invariant.
  pub write_lem :
      (r : RingBuffer A) (src : List A) (n : ℕ)
      → IsValid r
      → n ≤ length src
      → let (written, r') = write r (some src) n in
        (written ≡ min n (r.capacity - r.count))
        × (contents r' ≡ contents r ++ take written src)
        × IsValid r'
  write_lem r src n v h =
      let m : ℕ = min n (r.capacity - r.count) in
      let e = write_cases r src n m v refl in
      elim (Bool-cases (m == 0)) [
        | inl z ↦
            let z' : m ≡ 0 = ground arith in
            rw (e, z) (rw z' (omega arith, sym (append-nil (contents r)), v))
        | inr z ↦
            rw (e, z)
              (
                refl,
                contents-put_items r src m v (ground arith) (omega arith) (omega arith),
                put_items-IsValid r src m v (ground arith) (omega arith),
              )
      ]

  -- `try_write` is all or nothing: it fails, without a change, exactly when the items do not fit,
  -- and else appends all of them.
  pub try_write_lem :
      (r : RingBuffer A) (src : List A)
      → IsValid r
      → let (result, r') = try_write r src in
        (r.capacity - r.count < length src → (result ≡ none) × (r' ≡ r))
        × (length src ≤ r.capacity - r.count
            → (result ≡ some (length src)) × (contents r' ≡ contents r ++ src) × IsValid r')
  unfolding try_write
  try_write_lem r [] v = rw (append-nil (contents r)) (ground arith)
  try_write_lem r (x ∷ xs) v =
      let src = x ∷ xs in
      rw (free_slots_lem r v) (
        ground (
          arith,
          contents-put_items r src (length src) v,
          put_items-IsValid r src (length src) v,
          take-length src,
        ))
