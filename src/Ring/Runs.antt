-- ===== src/Ring/Runs.antt =====
-- Tests of src/common/ring_buffer.hpp on a buffer of three bytes.
use audio_router.Prelude.{ℕ, ◌≡◌, refl, inr, arith, [], ◌∷◌, ◌++◌, some, min}
use audio_router.Ring.{RingBuffer, write_overwrite}
use audio_router.Ring.Inv.{IsValid}
use audio_router.Ring.Contents.{contents}
use audio_router.Ring.Overwrite.{write_overwrite_lem, take_last}

-- 8, then 9, round the end of the storage.
abbrev wrapped : RingBuffer ℕ
wrapped = record { capacity = 3; buffer = 9 ∷ 7 ∷ 8 ∷ []; head = 1; tail = 2; count = 2 }

wrapped-IsValid : IsValid wrapped
wrapped-IsValid = record {
  storage = refl;
  small = omega arith;
  count_in = omega arith;
  head_in = omega arith;
  tail_in = omega arith;
  linked = inr refl;
}

contents-wrapped : contents wrapped ≡ 8 ∷ 9 ∷ []
unfolding contents
contents-wrapped = refl

write_overwrite_lem_example :
    let (kept, r') = write_overwrite wrapped (some (1 ∷ 2 ∷ [])) 2 in
    (kept ≡ min 2 3) × (contents r' ≡ take_last 3 (contents wrapped ++ (1 ∷ 2 ∷ []))) × IsValid r'
write_overwrite_lem_example =
    write_overwrite_lem wrapped (1 ∷ 2 ∷ []) wrapped-IsValid (omega arith) (omega arith)
