-- ===== src/Protocol.antt =====
-- src/transport/protocol.c and include/vmc/transport/protocol.h: the framing of a datagram.
-- A pointer that the code tests for NULL is an option. The buffer of `encode` and its payload do
-- not overlap. `encode` returns a byte count or a status in one `int`: here a type with two cases,
-- the first with the buffer as it is left; on an error the buffer is left alone.
pub mod Crc
pub mod Encoding
pub mod Decoding
pub mod RoundTrip
pub mod Tamper
pub mod Canonical
mod Tests
use remote_avapps.Base.{
  ℕ, zero, suc, ◌+◌, ◌<<◌, ◌==◌, ltb, leb, if◌then◌else◌, bit_and, bit_xor, u8, u32, Bool, true,
  false, not, ◌&&◌, ◌||◌, List, [], ◌∷◌, take, drop, set, Option, none, some,
}
use remote_avapps.Base.Blocks.{store}
use remote_avapps.Status.{Status, ok, invalid_arg, no_mem, proto, corrupt}
use remote_avapps.Wire.{byte_at, rd16, rd32, wr16, wr32}

abbrev pub magic_value : ℕ
magic_value = 0x5643

abbrev pub version_value : ℕ
version_value = 1

abbrev pub header_size : ℕ
header_size = 17

-- `vmc_proto_header`
pub record Header : Type 0 where
  pub magic : ℕ
  pub version : ℕ
  pub flags : ℕ
  pub stream : ℕ
  pub reserved : ℕ
  pub payload_len : ℕ
  pub seq : ℕ
  pub ts_us : ℕ
  pub crc : ℕ

-- One turn of the inner loop of `crc8_update`.
unfoldable pub crc8_bit : ℕ → ℕ
crc8_bit crc =
    if bit_and crc 0x80 == 0 then u8 (u32 (crc << 1)) else u8 (bit_xor (u32 (crc << 1)) 0x07)

-- The inner loop: `turns` bits are left.
unfoldable pub crc8_bits : ℕ → ℕ → ℕ
crc8_bits zero crc = crc
crc8_bits (suc turns) crc = crc8_bits turns (crc8_bit crc)

-- `crc8_update` over the first `len` bytes.
unfoldable pub crc8_update : ℕ → List ℕ → ℕ → ℕ
crc8_update crc bytes zero = crc
crc8_update crc [] (suc len) = crc
crc8_update crc (x ∷ xs) (suc len) = crc8_update (crc8_bits 8 (bit_xor crc x)) xs len

-- `vmc_proto_crc8`
unfoldable pub crc8 : List ℕ → ℕ → ℕ
crc8 bytes len = crc8_update 0 bytes len

unfoldable pub frame_crc : List ℕ → ℕ → Option (List ℕ) → ℕ → ℕ
frame_crc prefix prefix_len none payload_len = crc8_update 0 prefix prefix_len
frame_crc prefix prefix_len (some payload) payload_len =
    let crc = crc8_update 0 prefix prefix_len in
    if ltb 0 payload_len then crc8_update crc payload payload_len else crc

-- `vmc_proto_header_valid`
unfoldable pub header_valid : Option Header → Bool
header_valid none = false
header_valid (some h) =
    if not (h.magic == magic_value)
    then false
    else if not (h.version == version_value)
    then false
    else if not (h.reserved == 0)
    then false
    else true

pub data Encoded : Type 0 where
  written : ℕ → List ℕ → Encoded
  failed : Status → Encoded

-- The stores of `vmc_proto_encode` before the payload.
unfoldable pub put_header : List ℕ → Header → List ℕ
put_header buf h =
    let b0 = wr16 buf 0 h.magic in
    let b1 = set b0 2 h.version in
    let b2 = set b1 3 h.flags in
    let b3 = set b2 4 h.stream in
    let b4 = set b3 5 h.reserved in
    let b5 = wr16 b4 6 h.payload_len in
    let b6 = wr32 b5 8 h.seq in let b7 = wr32 b6 12 h.ts_us in set b7 16 0

-- The `memmove` of the payload.
unfoldable pub put_payload : List ℕ → ℕ → Option (List ℕ) → List ℕ
put_payload buf payload_len none = buf
put_payload buf payload_len (some payload) =
    if ltb 0 payload_len then store buf header_size (take payload_len payload) else buf

-- `vmc_proto_encode`
unfoldable pub encode : Option (List ℕ) → ℕ → Option Header → Option (List ℕ) → Encoded
unfolding put_header put_payload
encode none buf_cap h payload = failed invalid_arg
encode (some buf) buf_cap none payload = failed invalid_arg
encode (some buf) buf_cap (some h) payload =
    if not (header_valid (some h))
    then failed invalid_arg
    else let total = header_size + h.payload_len in
      if ltb buf_cap total
      then failed no_mem
      else let framed = put_payload (put_header buf h) h.payload_len payload in
        written total (set framed 16 (frame_crc framed 16 payload h.payload_len))

-- What `vmc_proto_decode_header` reads.
unfoldable pub read_header : List ℕ → Header
read_header buf = record {
  magic = rd16 buf 0;
  version = byte_at buf 2;
  flags = byte_at buf 3;
  stream = byte_at buf 4;
  reserved = byte_at buf 5;
  payload_len = rd16 buf 6;
  seq = rd32 buf 8;
  ts_us = rd32 buf 12;
  crc = byte_at buf 16;
}

pub data Decoded : Type 0 where
  accepted : Header → List ℕ → Decoded
  refused : Status → Decoded

pub data DecodedHeader : Type 0 where
  header : Header → DecodedHeader
  no_header : Status → DecodedHeader

-- `vmc_proto_decode_header`, for a caller that passes a place for the header.
unfoldable pub decode_header : Option (List ℕ) → ℕ → DecodedHeader
decode_header none len = no_header invalid_arg
decode_header (some buf) len =
    if ltb len header_size
    then no_header invalid_arg
    else if not (header_valid (some (read_header buf)))
    then no_header proto
    else header (read_header buf)

-- The checks of `vmc_proto_decode` that follow. The payload pointer is the buffer from the end of
-- the header on; a caller that passes NULL for an output ignores it.
unfoldable pub check_frame : List ℕ → ℕ → Header → Decoded
check_frame buf len h =
    if ltb len (header_size + h.payload_len)
    then refused proto
    else if not (h.crc == frame_crc buf 16 (some (drop header_size buf)) h.payload_len)
    then refused corrupt
    else accepted h (drop header_size buf)

-- `vmc_proto_decode`
unfoldable pub decode : Option (List ℕ) → ℕ → Decoded
decode buf len = elim (decode_header buf len) [
  | no_header st ↦ refused st
  | header h ↦ check_frame (elim buf [ none ↦ [] | some b ↦ b ]) len h
]
