-- ===== src/Ring.antt =====
-- src/core/ringbuf.c and include/vmc/core/ringbuf.h: the byte ring. Offsets run freely and are
-- masked on use; `sz_t` has 64 bits. The ring itself and the data pointers of a call are not NULL,
-- but for those that the code tests. A source or an output does not overlap the storage.
pub mod Valid
pub mod Contents
pub mod Write
pub mod Read
mod Tests
use remote_avapps.Base.{
  ℕ, ◌+◌, ◌-◌, ◌==◌, ltb, if◌then◌else◌, bit_and, u64, sub64, Bool, true, false, not, ◌&&◌, ◌||◌,
  List, ◌++◌, take, drop, Option, none, some,
}
use remote_avapps.Base.Blocks.{store}
use remote_avapps.Status.{Status, ok, invalid_arg}

-- `vmc_ringbuf`
pub record RingBuf : Type 0 where
  pub bytes : List ℕ
  pub mask : ℕ
  pub head : ℕ
  pub tail : ℕ
  pub count : ℕ

-- `rb_mask`
unfoldable pub rb_mask : RingBuf → ℕ → ℕ
rb_mask rb idx = bit_and idx rb.mask

-- `is_pow2_or_zero`
unfoldable pub is_pow2_or_zero : ℕ → Bool
is_pow2_or_zero n = not (n == 0) && bit_and n (sub64 n 1) == 0

-- `vmc_ringbuf_init`; on an error the ring is left as it is.
unfoldable pub init : RingBuf → Option (List ℕ) → ℕ → Status × RingBuf
init rb none capacity = (invalid_arg, rb)
init rb (some storage) capacity =
    if not (is_pow2_or_zero capacity)
    then (invalid_arg, rb)
    else (ok, record { bytes = storage; mask = sub64 capacity 1; head = 0; tail = 0; count = 0 })

-- `vmc_ringbuf_reset`
unfoldable pub reset : RingBuf → RingBuf
reset rb = record rb { head = 0; tail = 0; count = 0 }

-- `vmc_ringbuf_capacity`
unfoldable pub capacity : RingBuf → ℕ
capacity rb = u64 (rb.mask + 1)

-- `vmc_ringbuf_used`
unfoldable pub used : RingBuf → ℕ
used rb = rb.count

-- `vmc_ringbuf_free`
unfoldable pub free : RingBuf → ℕ
free rb = sub64 (capacity rb) rb.count

-- `vmc_ringbuf_empty`
unfoldable pub empty : RingBuf → Bool
empty rb = rb.count == 0

-- `vmc_ringbuf_full`
unfoldable pub full : RingBuf → Bool
full rb = rb.count == capacity rb

-- The bytes from an offset up to the end of the storage, `first` in the code.
unfoldable pub room_from : RingBuf → ℕ → ℕ
room_from rb idx = sub64 (capacity rb) (rb_mask rb idx)

-- The part of a transfer that lies before the end of the storage, `n1` in the code.
unfoldable pub first_part : RingBuf → ℕ → ℕ → ℕ
first_part rb idx len = if ltb len (room_from rb idx) then len else room_from rb idx

-- `vmc_ringbuf_write`: the count and the ring.
unfoldable pub write : RingBuf → List ℕ → ℕ → ℕ × RingBuf
write rb src len0 =
    if len0 == 0
    then (0, rb)
    else let len = if ltb (free rb) len0 then free rb else len0 in
      let n1 = first_part rb rb.head len in
      let data1 = store rb.bytes (rb_mask rb rb.head) (take n1 src) in
      let data2 = if ltb n1 len then store data1 0 (take (len - n1) (drop n1 src)) else data1 in
      (len, record rb { bytes = data2; head = u64 (rb.head + len); count = u64 (rb.count + len) })

-- The length that a reader gets.
unfoldable pub readable : RingBuf → ℕ → ℕ
readable rb len = if ltb rb.count len then rb.count else len

-- The two copies of `vmc_ringbuf_read` and `vmc_ringbuf_peek`, into an output of `len` bytes.
unfoldable pub copy_out : RingBuf → ℕ → List ℕ
copy_out rb len =
    let n1 = first_part rb rb.tail len in
    let part1 = take n1 (drop (rb_mask rb rb.tail) rb.bytes) in
    if ltb n1 len then part1 ++ take (len - n1) rb.bytes else part1

-- `vmc_ringbuf_read`: the count, what the first bytes of the output are set to if it is not NULL,
-- and the ring.
unfoldable pub read : RingBuf → Bool → ℕ → ℕ × Option (List ℕ) × RingBuf
read rb has_out len0 =
    let len = readable rb len0 in
    if len == 0 then (0, none, rb) else (
      len,
      if has_out then some (copy_out rb len) else none,
      record rb { tail = u64 (rb.tail + len); count = sub64 rb.count len },
    )

-- `vmc_ringbuf_peek`
unfoldable pub peek : RingBuf → ℕ → ℕ × Option (List ℕ)
peek rb len0 =
    let len = readable rb len0 in if len == 0 then (0, none) else (len, some (copy_out rb len))

-- `vmc_ringbuf_discard`
unfoldable pub discard : RingBuf → ℕ → ℕ × RingBuf
discard rb len0 =
    let len = readable rb len0 in
    (len, record rb { tail = u64 (rb.tail + len); count = sub64 rb.count len })
