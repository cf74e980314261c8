-- ===== src/Ring/Pad.antt =====
-- `read_pad_silence` of src/common/ring_buffer.hpp.
use audio_router.Prelude.{
  ℕ, zero, suc, ◌-◌, ◌≡◌, refl, ap, arith, ◌++◌, ◌==◌, length, take, drop, replicate, length-append,
  length-replicate, length-take, if_elim, List,
}
use audio_router.Ring.Inv.{IsValid}
use audio_router.Ring.Contents.{contents}
use audio_router.Ring.Read.{read_lem}
use audio_router.Ring.{RingBuffer, read, read_pad_silence}

module _ {A : Type 0} where
  -- The count, the destination and the buffer that a padded read leaves.
  abbrev pub Padded : RingBuffer A → ℕ → A → ℕ × List A × RingBuffer A → Type 0
  Padded r n silence (got, dest, r') =
      (length dest ≡ n)
      × (got ≡ length (take n (contents r)))
      × (dest ≡ take n (contents r) ++ replicate (n - got) silence)
      × (contents r' ≡ drop n (contents r))
      × IsValid r'

  -- On a valid buffer `read_pad_silence` fills the whole destination: with the first items of the
  -- queue, as many as there are, and then with silence. It returns the number of items, removes
  -- exactly those from the queue and keeps the invariant.
  pub read_pad_silence_lem :
      (r : RingBuffer A) (n : ℕ) (silence : A)
      → IsValid r
      → Padded r n silence (read_pad_silence r n silence)
  unfolding read_pad_silence
  read_pad_silence_lem r zero silence v = (refl, refl, refl, refl, v)
  read_pad_silence_lem r (suc n) silence v =
      let (items, rest, w) = read_lem r (suc n) v in
      let t = length-take (suc n) (contents r) in
      let pad = replicate (suc n - length (read r (suc n)).0) silence in
      let joined = length-append (read r (suc n)).0 pad in
      let padding = length-replicate (suc n - length (read r (suc n)).0) silence in
      let count = ap length items in
      if_elim (Padded r (suc n) silence) (suc n == 0) _ _ (λ z. absurd (ground arith))
        λ z. (omega arith, count, ap (λ xs. xs ++ pad) items, rest, w)
