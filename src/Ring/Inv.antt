-- ===== src/Ring/Inv.antt =====
-- The representation invariant of `RingBuffer`: the indices stay inside the storage.
use audio_router.Prelude.{
  ℕ, zero, suc, ◌∙◌, ◌+◌, ◌-◌, ◌%◌, ◌^◌, ◌<◌, ◌≤◌, ◌≡◌, ◌⊎◌, inl, inr, arith, List, ltb,
  if◌then◌else◌, length, take, drop, min, max, Bool-cases, ltb→lt,
}
use native.Mathlib.Nat.{mod-eq_of_lt, mod-eq-sub-mod}
use audio_router.Prelude.Word.{add64, sub64}
use audio_router.Prelude.Lookup.{overlay, length-overlay, overlay-nil}
use audio_router.Ring.{RingBuffer, copy_to_buffer, put_items}

-- A moved-from buffer has capacity 0. Below 2 ^ 63 items no sum of two indices wraps.
pub record IsValid {A : Type 0} (r : RingBuffer A) : Type 0 where
  pub storage : length r.buffer ≡ r.capacity
  pub small : r.capacity ≤ 2 ^ 62
  pub count_in : r.count ≤ r.capacity
  pub head_in : r.head < max r.capacity 1
  pub tail_in : r.tail < max r.capacity 1
  pub linked : (r.head ≡ r.tail + r.count) ⊎ (r.head + r.capacity ≡ r.tail + r.count)

-- A remainder by a positive number, of a number below twice that.
pub mod_once : (a c : ℕ) → 0 < c → a < c + c → a % c ≡ (if ltb a c then a else a - c)
mod_once a c p h = elim (Bool-cases (ltb a c)) [
  | inl e ↦ ground (arith, mod-eq_of_lt {n = a} {m = c} (omega (arith, ltb→lt a c e)))
  | inr e ↦ ground (
    arith,
    mod-eq-sub-mod {n = a} {m = c} (ground arith),
    mod-eq_of_lt {n = a - c} {m = c} (omega arith),
  )
]

module _ {A : Type 0} where
  pub copy_to_buffer_lem :
      (r : RingBuffer A) (off : ℕ) (src : List A) (n : ℕ)
      → n ≤ r.capacity
      → copy_to_buffer r off src n ≡ record r { buffer = overlay r.buffer off (take n src) }
  unfolding copy_to_buffer
  copy_to_buffer_lem r off src zero h = ground (arith, overlay-nil r.buffer off)
  copy_to_buffer_lem r off src (suc n) h = ground arith

  -- The storage after a write of `n` items from `head` on, going round at the capacity.
  abbrev pub storage_put : RingBuffer A → List A → ℕ → List A
  storage_put r src n =
      let f = min n (r.capacity - r.head) in
      overlay (overlay r.buffer r.head (take f src)) 0 (take (n - f) (drop f src))

  -- What `put_items` does to a valid buffer with room for `n` items, wrap-around resolved.
  pub put_items_lem :
      (r : RingBuffer A) (src : List A) (n : ℕ)
      → IsValid r
      → 0 < n
      → n ≤ r.capacity - r.count
      → put_items r src n ≡ record r {
        buffer = storage_put r src n;
        head = if ltb (r.head + n) r.capacity then r.head + n else r.head + n - r.capacity;
        count = r.count + n;
      }
  unfolding put_items
  put_items_lem r src n v p h =
      let f = min n (r.capacity - r.head) in
      let e1 : sub64 r.capacity r.head ≡ r.capacity - r.head = omega arith in
      let e2 : sub64 n f ≡ n - f = omega arith in
      let e3 : add64 r.count n ≡ r.count + n = omega arith in
      let e4 : add64 r.head f ≡ r.head + f = omega arith in
      let c1 = copy_to_buffer_lem r r.head src f (omega arith) in
      let r1 : RingBuffer A = record r { buffer = overlay r.buffer r.head (take f src) } in
      let c2 = copy_to_buffer_lem r1 0 (drop f src) (n - f) (omega arith) in
      rw (e1, e2, e3, e4, c1, c2)
        (ground (
          arith,
          mod_once (r.head + f) r.capacity,
          overlay-nil (overlay r.buffer r.head (take f src)) 0,
        ))

  pub length-storage_put :
      (r : RingBuffer A) (src : List A) (n : ℕ) → length (storage_put r src n) ≡ length r.buffer
  length-storage_put r src n =
      let f = min n (r.capacity - r.head) in
      length-overlay (overlay r.buffer r.head (take f src)) 0 (take (n - f) (drop f src))
      ∙ length-overlay r.buffer r.head (take f src)

  -- Writing `n` items that fit keeps the invariant.
  pub put_items-IsValid :
      (r : RingBuffer A) (src : List A) (n : ℕ)
      → IsValid r
      → 0 < n
      → n ≤ r.capacity - r.count
      → IsValid (put_items r src n)
  put_items-IsValid r src n v p h =
      rw (put_items_lem r src n v p h) (ground (arith, length-storage_put r src n))
