-- ===== src/Ring/Resize.antt =====
-- Construction, `clear`, the move constructor and `resize` of ring_buffer.hpp.
use audio_router.Prelude.{ℕ, ◌^◌, ◌<◌, ◌≤◌, ◌≡◌, arith, [], some, length, length-replicate}
use audio_router.Ring.Inv.{IsValid}
use audio_router.Ring.Contents.{contents}
use audio_router.Ring.{RingBuffer, construct, clear, move, resize, returned, threw, length_error}

module _ {A : Type 0} where
  -- A constructed buffer is valid and empty, and its capacity is the one asked for.
  pub construct-IsValid :
      (fill : A) (n : ℕ) {r : RingBuffer A}
      → construct fill n ≡ some r
      → IsValid r × (contents r ≡ []) × (r.capacity ≡ n)
  unfolding construct contents
  construct-IsValid fill n e = ground (arith, length-replicate n fill)

  -- `clear` keeps the invariant, empties the queue and leaves the capacity.
  pub clear-IsValid :
      (r : RingBuffer A)
      → IsValid r
      → IsValid (clear r) × (contents (clear r) ≡ []) × ((clear r).capacity ≡ r.capacity)
  unfolding clear contents
  clear-IsValid r v = ground arith

  -- A move hands the queue over: the new buffer holds it, and the old one is valid and empty.
  pub move-IsValid :
      (r : RingBuffer A)
      → IsValid r
      → (contents (move r).0 ≡ contents r)
        × IsValid (move r).0
        × (contents (move r).1 ≡ [])
        × IsValid (move r).1
  unfolding move contents
  move-IsValid r v = ground arith

  -- A `resize` that returns leaves a valid, empty buffer of the new capacity.
  pub resize-IsValid :
      (fill : A) (max_size : ℕ) (r : RingBuffer A) (n : ℕ) {r' : RingBuffer A}
      → max_size ≤ 2 ^ 62
      → resize fill max_size r n ≡ returned r'
      → IsValid r' × (contents r' ≡ []) × (r'.capacity ≡ n)
  unfolding resize contents
  resize-IsValid fill max_size r n m e = ground (arith, length-replicate n fill)

  -- A `resize` whose allocation throws has already set the capacity: the buffer keeps a storage
  -- smaller than that, so it is not valid any more.
  pub resize_throws-not-IsValid :
      (fill : A) (max_size : ℕ) (r : RingBuffer A) (n : ℕ)
      → IsValid r
      → r.capacity ≤ max_size
      → max_size < n
      → (r' : RingBuffer A) × (resize fill max_size r n ≡ threw length_error r')
        × (length r'.buffer < r'.capacity)
        × ¬ IsValid r'
  unfolding resize
  resize_throws-not-IsValid fill max_size r n v a b =
      (record r { capacity = n }, ground arith, omega arith, λ w. absurd (omega (arith, w.storage)))
