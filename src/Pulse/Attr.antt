-- ===== src/Pulse/Attr.antt =====
-- `compute_buffer_attr` of src/client/pulse_player.cpp: the buffer sizes that are asked of the daemon.
use audio_router.Prelude.{
  ℕ, ◌-◌, ◌*◌, ◌/◌, ◌%◌, ◌^◌, ◌<◌, ◌≤◌, ◌≡◌, refl, arith, ◌||◌, ltb, ◌==◌, ◌⊎◌, inl, inr,
  if◌then◌else◌, if_elim,
}
use native.Mathlib.Nat.{mod-le, div-add-mod', mul-mod_left, le-div_iff_mul-le}
use audio_router.Prelude.Word.{add64, sub64, mul64, u32}

pub record BufferAttr : Type 0 where
  pub maxlength : ℕ  -- uint32_t
  pub tlength : ℕ
  pub prebuf : ℕ
  pub minreq : ℕ

-- The member initialisers.
abbrev pub no_attr : BufferAttr
no_attr = record { maxlength = 0; tlength = 0; prebuf = 0; minreq = 0 }

abbrev pub min_latency_ms : ℕ
min_latency_ms = 10

abbrev pub max_latency_ms : ℕ
max_latency_ms = 500

-- `std::clamp(latency_ms, kMinLatencyMs, kMaxLatencyMs)`
abbrev pub clamp_latency : ℕ → ℕ
clamp_latency ms =
    if ltb ms min_latency_ms
    then min_latency_ms
    else if ltb max_latency_ms ms
    then max_latency_ms
    else ms

-- Four packets of headroom where the caller names no latency.
unfoldable pub effective_latency : (packet_bytes byte_rate latency_ms : ℕ) → ℕ
effective_latency packet_bytes byte_rate latency_ms =
    let derived = sub64 (add64 (mul64 (mul64 packet_bytes 4) 1000) byte_rate) 1 / byte_rate in
    clamp_latency (if latency_ms == 0 then u32 derived else latency_ms)

abbrev max_of : ℕ → ℕ → ℕ
max_of a b = if ltb a b then b else a

abbrev min_of : ℕ → ℕ → ℕ
min_of a b = if ltb b a then b else a

-- The target fill level: the latency, at least one packet, in whole frames.
unfoldable pub target_length : (bytes_per_frame packet_bytes byte_rate latency_ms : ℕ) → ℕ
target_length bytes_per_frame packet_bytes byte_rate latency_ms =
    let t = max_of (mul64 byte_rate latency_ms / 1000) packet_bytes in sub64 t (t % bytes_per_frame)

unfoldable pub compute_buffer_attr :
    (sample_rate bytes_per_frame frames_per_packet latency_ms : ℕ) → BufferAttr
compute_buffer_attr sample_rate bytes_per_frame frames_per_packet latency_ms =
    let frames = if frames_per_packet == 0 then 240 else frames_per_packet in
    let packet_bytes = mul64 frames bytes_per_frame in
    let byte_rate = mul64 sample_rate bytes_per_frame in
    let tlength =
      target_length bytes_per_frame packet_bytes byte_rate
        (effective_latency packet_bytes byte_rate latency_ms) in
    if sample_rate == 0 || bytes_per_frame == 0 then no_attr else record {
      tlength = u32 tlength;
      minreq = u32 packet_bytes;
      prebuf = u32 packet_bytes;
      maxlength = u32 (min_of (mul64 tlength 2) 0xffffffff);
    }

effective_latency-range :
    (p b l : ℕ) → (10 ≤ effective_latency p b l) × (effective_latency p b l ≤ 500)
unfolding effective_latency
effective_latency-range p b l = (ground arith, ground arith)

times_le : (f q b : ℕ) → f ≤ q → f * b ≤ q * b
times_le f q b l = grind arith

-- A length cut to whole frames loses no whole packet.
cut_lem : (t b f : ℕ) → 0 < b → f * b ≤ t → f * b ≤ t - t % b
cut_lem t b f z l =
    let q = (le-div_iff_mul-le {k = b} {x = f} {y = t} z).1 l in
    omega (arith, times_le f (t / b) b q, div-add-mod' t b)

cut-whole : (t b : ℕ) → (t - t % b) % b ≡ 0
cut-whole t b =
    let e : t - t % b ≡ t / b * b = omega (arith, div-add-mod' t b) in rw e (mul-mod_left (t / b) b)

product_le : (a b m n : ℕ) → a ≤ m → b ≤ n → a * b ≤ m * n
product_le a b m n l k = grind arith

cut_word : (t b : ℕ) → t < 2 ^ 64 → sub64 t (t % b) ≡ t - t % b
cut_word t b l = omega (arith, mod-le t b)

-- The longer of the latency and the packet, cut.
longest_lem : (x p : ℕ) → (p ≤ max_of x p) × ((max_of x p ≤ x) ⊎ (max_of x p ≡ p))
longest_lem x p = ground arith

-- What the target length is, where nothing wraps.
target_length_lem :
    (b f rate latency_ms : ℕ)
    → 0 < b
    → f * b < 2 ^ 32
    → rate * latency_ms < 2 ^ 40
    → let t = target_length b (f * b) rate latency_ms in
      (t % b ≡ 0) × (f * b ≤ t) × ((t ≤ rate * latency_ms / 1000) ⊎ (t ≡ f * b))
unfolding target_length
target_length_lem b f rate latency_ms z l k =
    let m = max_of (mul64 rate latency_ms / 1000) (f * b) in
    let e : mul64 rate latency_ms ≡ rate * latency_ms = omega arith in
    let (low, which) = longest_lem (mul64 rate latency_ms / 1000) (f * b) in
    let small : m < 2 ^ 64 = elim which [ inl a ↦ omega arith | inr a ↦ omega arith ] in
    let c = cut_lem m b f z low in
    rw (cut_word m b small) (
      cut-whole m b,
      c,
      elim which [
        | inl a ↦ inl (omega (arith, mod-le m b))
        | inr a ↦ inr (omega (arith, mod-le m b))
      ],
    )

-- The sizes that are asked of the daemon for a packet of `f` frames of `b` bytes.
pub record IsGoodAttr (a : BufferAttr) (rate b f : ℕ) : Type 0 where
  pub whole_frames : a.tlength % b ≡ 0
  pub holds_packet : f * b ≤ a.tlength
  pub prebuf : a.prebuf ≡ f * b
  pub minreq : a.minreq ≡ f * b
  pub maxlength : a.maxlength ≡ 2 * a.tlength
  pub half_second : (2 * a.tlength ≤ rate * b) ⊎ (a.tlength ≡ f * b)

filled_lem :
    (t p rate b f : ℕ)
    → p ≡ f * b
    → t % b ≡ 0
    → f * b ≤ t
    → t < 2 ^ 31
    → (2 * t ≤ rate * b) ⊎ (t ≡ f * b)
    → IsGoodAttr
        record {
          tlength = u32 t;
          minreq = u32 p;
          prebuf = u32 p;
          maxlength = u32 (min_of (mul64 t 2) 0xffffffff);
        }
        rate
        b
        f
filled_lem t p rate b f e w l k h =
    let s : u32 t ≡ t = omega arith in
    record {
      whole_frames = rw s w;
      holds_packet = rw s l;
      prebuf = omega arith;
      minreq = omega arith;
      maxlength = ground arith;
      half_second = rw s h;
    }

abbrev frames_of : ℕ → ℕ
frames_of n = if n == 0 then 240 else n

-- For a rate of at most 192 kHz, frames of at most 128 bytes, packets of at most 8192 frames and any
-- latency, the target length is whole frames, holds a packet, and is at most half a second or just that
-- packet; a packet is asked for at a time and suffices to start, and the hard bound is twice the target.
pub compute_buffer_attr-IsGoodAttr :
    (rate b frames latency_ms : ℕ)
    → (0 < rate) × (rate ≤ 192000)
    → (0 < b) × (b ≤ 128)
    → frames ≤ 8192
    → IsGoodAttr (compute_buffer_attr rate b frames latency_ms) rate b (frames_of frames)
unfolding compute_buffer_attr
compute_buffer_attr-IsGoodAttr rate b frames latency_ms (r0, r1) (b0, b1) k =
    let f = frames_of frames in
    let f_max : f ≤ 8192 = ground arith in
    let p_max : f * b ≤ 8192 * 128 = product_le f b 8192 128 f_max b1 in
    let r_max : rate * b ≤ 192000 * 128 = product_le rate b 192000 128 r1 b1 in
    let p_eq : mul64 f b ≡ f * b = omega arith in
    let r_eq : mul64 rate b ≡ rate * b = omega arith in
    let latency = effective_latency (f * b) (rate * b) latency_ms in
    let (_, l_max) = effective_latency-range (f * b) (rate * b) latency_ms in
    let rl_max : rate * b * latency ≤ 192000 * 128 * 500 =
      product_le (rate * b) latency (192000 * 128) 500 r_max l_max in
    let rl_half : rate * b * latency ≤ rate * b * 500 =
      product_le (rate * b) latency (rate * b) 500 (omega arith) l_max in
    let (w, l, h) = target_length_lem b f (rate * b) latency b0 (omega arith) (omega arith) in
    if_elim (λ a. IsGoodAttr a rate b f) (rate == 0 || b == 0) _ _ (λ a. absurd (ground arith))
      λ _.
        rw (p_eq, r_eq)
          (filled_lem (target_length b (f * b) (rate * b) latency) (f * b) rate b f refl w l
            (elim h [ inl a ↦ omega arith | inr a ↦ omega arith ])
            (elim h [ inl a ↦ inl (omega arith) | inr a ↦ inr a ]))
