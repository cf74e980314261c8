-- ===== src/Ring.antt =====
-- src/common/ring_buffer.hpp: `RingBuffer<T>`. Each method holds the mutex for its whole body, so a
-- method is one step on the state; one that changes the buffer returns the new one. A span or a
-- pointer with its count is a list, a null pointer is `none`. `size_t` keeps its wrap-around.
mod Runs
pub mod Inv
pub mod Contents
pub mod Write
pub mod Read
pub mod Overwrite
pub mod Resize
pub mod Pad
use audio_router.Prelude.{
  ℕ, ◌-◌, ◌%◌, ◌^◌, Bool, true, false, List, [], ◌++◌, Option, none, some, ltb, ◌==◌, if◌then◌else◌,
  length, take, drop, replicate, min,
}
use audio_router.Prelude.Word.{add64, sub64}
use audio_router.Prelude.Lookup.{overlay}

-- The items past `count`, from `tail` on, are stale.
pub record RingBuffer (A : Type 0) : Type 0 where
  pub capacity : ℕ
  pub buffer : List A
  pub head : ℕ
  pub tail : ℕ
  pub count : ℕ

-- What a call throws.
pub data Thrown : Type 0 where
  capacity_must_be_positive capacity_unreasonably_large length_error : Thrown

pub data Outcome (A : Type 0) : Type 0 where
  returned : A → Outcome A
  threw : Thrown → A → Outcome A

module _ {A : Type 0} where
  -- The constructor; `fill` is `T{}`. A throwing constructor makes no object.
  unfoldable pub construct : A → ℕ → Option (RingBuffer A)
  construct fill n =
      if n == 0
      then none
      else if ltb (2 ^ 28) n
      then none
      else some (record { capacity = n; buffer = replicate n fill; head = 0; tail = 0; count = 0 })

  -- `memcpy(&buffer_[offset], src, n)` behind its two guards.
  unfoldable pub copy_to_buffer : RingBuffer A → ℕ → List A → ℕ → RingBuffer A
  copy_to_buffer r offset src n =
      if n == 0
      then r
      else if ltb r.capacity n
      then r
      else record r { buffer = overlay r.buffer offset (take n src) }

  unfoldable pub copy_from_buffer : RingBuffer A → ℕ → ℕ → List A
  copy_from_buffer r offset n = if n == 0 then [] else take n (drop offset r.buffer)

  -- The two chunks that `write`, `write_overwrite` and `try_write` all copy: up to the end of the
  -- storage, then from its start.
  unfoldable pub put_items : RingBuffer A → List A → ℕ → RingBuffer A
  put_items r src n =
      let first_chunk = min n (sub64 r.capacity r.head) in
      let r1 = copy_to_buffer r r.head src first_chunk in
      let second_chunk = sub64 n first_chunk in
      let r2 = copy_to_buffer r1 0 (drop first_chunk src) second_chunk in
      if ltb 0 second_chunk
      then record r2 { head = second_chunk; count = add64 r.count n }
      else record r1 { head = add64 r.head first_chunk % r.capacity; count = add64 r.count n }

  abbrev pub free_slots : RingBuffer A → ℕ
  free_slots r = if ltb r.count r.capacity then sub64 r.capacity r.count else 0

  -- `write(const T* data, size_t count)`: the number of items written, and the buffer.
  unfoldable pub write : RingBuffer A → Option (List A) → ℕ → ℕ × RingBuffer A
  write r none n = (0, r)
  write r (some src) n =
      let to_write = min n (free_slots r) in
      if n == 0
      then (0, r)
      else if r.capacity == 0
      then (0, r)
      else if to_write == 0
      then (0, r)
      else (to_write, put_items r src to_write)

  -- `write(std::span<const T> src)`
  unfoldable pub write_span : RingBuffer A → List A → ℕ × RingBuffer A
  write_span r src = if length src == 0 then (0, r) else write r (some src) (length src)

  -- The tail moves past the items that the incoming ones displace.
  unfoldable pub make_room : RingBuffer A → ℕ → RingBuffer A
  make_room r n =
      let dropped = sub64 n (free_slots r) in
      if ltb (free_slots r) n
      then record r { tail = add64 r.tail dropped % r.capacity; count = sub64 r.count dropped }
      else r

  unfoldable pub write_overwrite : RingBuffer A → Option (List A) → ℕ → ℕ × RingBuffer A
  write_overwrite r none n = (0, r)
  write_overwrite r (some src) n =
      let whole = copy_to_buffer r 0 (drop (sub64 n r.capacity) src) r.capacity in
      if n == 0
      then (0, r)
      else if r.capacity == 0
      then (0, r)
      else if ltb n r.capacity
      then (n, put_items (make_room r n) src n)
      else (r.capacity, record whole { head = 0; tail = 0; count = r.capacity })

  -- The items that `read` and `peek` copy out, in two chunks.
  unfoldable pub get_items : RingBuffer A → ℕ → List A
  get_items r n =
      let first_chunk = min n (sub64 r.capacity r.tail) in
      let second_chunk = sub64 n first_chunk in
      copy_from_buffer r r.tail first_chunk
      ++ (if ltb 0 second_chunk then copy_from_buffer r 0 second_chunk else [])

  -- `read(T* dest, size_t count)` for a destination that is not null: what it copies there (whose
  -- length is the result), and the buffer.
  unfoldable pub read : RingBuffer A → ℕ → List A × RingBuffer A
  read r n =
      let to_read = min n r.count in
      let first_chunk = min to_read (sub64 r.capacity r.tail) in
      let second_chunk = sub64 to_read first_chunk in
      if n == 0 then ([], r) else if r.count == 0 then ([], r) else (
        get_items r to_read,
        record r {
          tail = if ltb 0 second_chunk then second_chunk else add64 r.tail first_chunk % r.capacity;
          count = sub64 r.count to_read;
        },
      )

  -- `read_pad_silence`: the destination is filled up to `count` items; the result is the number read.
  unfoldable pub read_pad_silence : RingBuffer A → ℕ → A → ℕ × List A × RingBuffer A
  read_pad_silence r n silence_val =
      let (items, r') = read r n in
      if n == 0
      then (0, [], r)
      else (length items, items ++ replicate (n - length items) silence_val, r')

  unfoldable pub peek : RingBuffer A → ℕ → List A
  peek r n = if n == 0 then [] else if r.count == 0 then [] else get_items r (min n r.count)

  unfoldable pub skip : RingBuffer A → ℕ → ℕ × RingBuffer A
  skip r n =
      let to_skip = min n r.count in
      (
        to_skip,
        record r {
          tail = add64 r.tail to_skip % (if ltb 0 r.capacity then r.capacity else 1);
          count = sub64 r.count to_skip;
        },
      )

  -- `none` is the error "RingBuffer full".
  unfoldable pub try_write : RingBuffer A → List A → Option ℕ × RingBuffer A
  try_write r src =
      if length src == 0
      then (some 0, r)
      else if ltb (free_slots r) (length src)
      then (none, r)
      else (some (length src), put_items r src (length src))

  -- `resize`: `capacity_` is set before `buffer_.assign` runs, which throws where the library's
  -- vector cannot hold that many items (`max_size`).
  unfoldable pub resize : A → ℕ → RingBuffer A → ℕ → Outcome (RingBuffer A)
  resize fill max_size r n =
      if n == 0
      then threw capacity_must_be_positive r
      else if ltb max_size n
      then threw length_error (record r { capacity = n })
      else returned
          (record { capacity = n; buffer = replicate n fill; head = 0; tail = 0; count = 0 })

  unfoldable pub clear : RingBuffer A → RingBuffer A
  clear r = record r { head = 0; tail = 0; count = 0 }

  -- The move constructor: the new buffer, and what it leaves of the other.
  unfoldable pub move : RingBuffer A → RingBuffer A × RingBuffer A
  move other = (other, record { capacity = 0; buffer = []; head = 0; tail = 0; count = 0 })

  unfoldable pub size : RingBuffer A → ℕ
  size r = r.count

  unfoldable pub free_space : RingBuffer A → ℕ
  free_space r = sub64 r.capacity r.count

  unfoldable pub is_full : RingBuffer A → Bool
  is_full r = r.count == r.capacity
