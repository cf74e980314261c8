-- ===== src/Jitter/PushInv.antt =====
-- The steps of `push_packet` and the invariant (src/client/jitter_buffer.cpp).
use audio_router.Prelude.{
  ℕ, ◌*◌, ◌%◌, ◌^◌, ◌<◌, ◌≡◌, ◌⊎◌, inl, inr, refl, sym, arith, true, false, List, ◌==◌, ==_iff,
  length, Bool-cases, if_elim,
}
use audio_router.Prelude.Word.{sub32}
use audio_router.Prelude.Int.{signed32, ltb_ℤ, leb_ℤ, pos}
use audio_router.Jitter.{PacketSlot, JitterBuffer, set_slot}
use audio_router.Jitter.Inv.{InWindow, IsValid}
use audio_router.Jitter.Push.{first_packet, distance, flush, resync, store, is_duplicate}

-- A packet behind by 256 or more, or ahead by as many, is outside the window of 256.
near_window :
    (u : ℕ)
    → u < 2 ^ 32
    → ltb_ℤ (signed32 u) (pos 0) ≡ false
    → leb_ℤ (pos 256) (signed32 u) ≡ false
    → u < 256
near_window u h a b = ground arith

-- The slot of an accepted packet.
abbrev pub stored : ℕ → ℕ → List ℕ → ℕ → PacketSlot
stored seq ts samples frames = record {
  seq_num = seq;
  timestamp_us = ts;
  pcm_data = samples;
  num_frames = frames;
  is_valid = true;
}

module _ {D : Type 0} where
  flush-IsValid :
      (jb : JitterBuffer D) (seq : ℕ) → seq < 2 ^ 32 → IsValid jb → IsValid (flush jb seq)
  unfolding flush
  flush-IsValid jb seq h v = record {
    slot_ok = λ i b t. cc;
    next_word = h;
    channels_word = v.channels_word;
    partial = inl refl;
    nothing_yet = λ t i. refl;
  }

  pub first_packet-IsValid :
      (jb : JitterBuffer D) (seq : ℕ) → seq < 2 ^ 32 → IsValid jb → IsValid (first_packet jb seq)
  unfolding first_packet
  first_packet-IsValid jb seq h v =
      if_elim IsValid jb.has_first_packet jb _ (λ _. v)
        λ e. record {
          slot_ok = λ i b t. cc (v.nothing_yet e i);
          next_word = h;
          channels_word = v.channels_word;
          partial = ground (arith, v.partial, v.nothing_yet e (jb.next_play_seq % 256));
          nothing_yet = λ t. v.nothing_yet e;
        }

  pub first_packet-has_first :
      (jb : JitterBuffer D) (seq : ℕ)
      → ((first_packet jb seq).has_first_packet ≡ true) × ((first_packet jb seq).config ≡ jb.config)
  unfolding first_packet
  first_packet-has_first jb seq = ground arith

  -- What a resynchronisation leaves.
  abbrev pub Resynced : JitterBuffer D → ℕ → JitterBuffer D → Type 0
  Resynced jb seq jb' =
      IsValid jb'
      × (sub32 seq jb'.next_play_seq < 256)
      × (jb'.config ≡ jb.config)
      × (jb'.has_first_packet ≡ jb.has_first_packet)

  pub resync-IsValid :
      (jb : JitterBuffer D) (seq : ℕ)
      → seq < 2 ^ 32
      → IsValid jb
      → Resynced jb seq (resync jb (distance jb seq) seq)
  unfolding resync
  resync-IsValid jb seq h v =
      let diff = distance jb seq in
      let back = flush jb seq in
      if_elim (Resynced jb seq) (ltb_ℤ diff (pos 0)) back _
        (λ _. (flush-IsValid jb seq h v, unfold flush in omega arith, refl, refl))
        λ a.
          if_elim (Resynced jb seq) (leb_ℤ (pos 256) diff) _ jb
            (λ _. (flush-IsValid jb seq h v, unfold flush in omega arith, refl, refl))
            λ b. (v, near_window (sub32 seq jb.next_play_seq) (omega arith) a b, refl, refl)

  -- In a valid buffer the slot of a packet in the window is free, or holds that very packet.
  pub slot_of_window :
      (jb : JitterBuffer D) (seq : ℕ)
      → IsValid jb
      → seq < 2 ^ 32
      → sub32 seq jb.next_play_seq < 256
      → is_duplicate jb seq ≡ false
      → (jb.slots (seq % 256)).is_valid ≡ false
  slot_of_window jb seq v h w d = elim (Bool-cases (jb.slots (seq % 256)).is_valid) [
    | inr e ↦ e
    | inl e ↦
        let k = v.slot_ok (seq % 256) (omega arith) e in
        let same : (jb.slots (seq % 256)).seq_num ≡ seq =
          omega (arith, k.at_index, k.seq_word, k.in_window, v.next_word) in
        ground (arith, (==_iff (jb.slots (seq % 256)).seq_num seq).1 same)
  ]

  pub store-IsValid :
      (jb : JitterBuffer D) (seq ts : ℕ) (samples : List ℕ) (frames : ℕ)
      → IsValid jb
      → jb.has_first_packet ≡ true
      → seq < 2 ^ 32
      → sub32 seq jb.next_play_seq < 256
      → is_duplicate jb seq ≡ false
      → 0 < frames
      → frames < 2 ^ 32
      → length samples ≡ frames * jb.config.channels
      → IsValid (store jb seq ts samples frames)
  unfolding store
  store-IsValid jb seq ts samples frames v first h w d p f l =
      let free = slot_of_window jb seq v h w d in
      record {
        slot_ok = λ i b t. in_slot i b (Bool-cases (i == seq % 256)) t;
        next_word = v.next_word;
        channels_word = v.channels_word;
        partial = ground (arith, v.partial, free, ==_iff (jb.next_play_seq % 256) (seq % 256));
        nothing_yet = λ t. cc;
      }
    where
      new : PacketSlot
      new = record {
        seq_num = seq;
        timestamp_us = ts;
        pcm_data = samples;
        num_frames = frames;
        is_valid = true;
      }

      in_slot :
          (i : ℕ)
          → i < 256
          → ((i == seq % 256) ≡ true) ⊎ ((i == seq % 256) ≡ false)
          → (set_slot jb.slots (seq % 256) new i).is_valid ≡ true
          → InWindow jb.next_play_seq jb.config.channels (set_slot jb.slots (seq % 256) new i) i
      in_slot i b (inl e) t = rw e (record {
        at_index = sym ((==_iff i (seq % 256)).0 e);
        seq_word = h;
        in_window = w;
        frames_pos = p;
        frames_word = f;
        all_samples = l;
      })
      in_slot i b (inr e) t = rw e (v.slot_ok i b (rw e at t))
