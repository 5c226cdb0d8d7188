-- ===== src/Wire.antt =====
-- The little-endian accessors of src/transport/protocol.c (`rd16`, `rd32`, `wr16`, `wr32`); the
-- copies of them in src/input/batch.c are the same functions. A pointer `buf + off` is an array
-- and an offset. A read past the end of the array gives 0 here: callers are shown to stay inside.
pub mod Laws
use remote_avapps.Base.{ℕ, ◌+◌, ◌<<◌, ◌>>◌, bit_and, bit_or, u8, u16, u32, List, set, get_or}

abbrev pub byte_at : List ℕ → ℕ → ℕ
byte_at buf i = get_or buf i 0

unfoldable pub rd16 : List ℕ → ℕ → ℕ
rd16 buf p = u16 (bit_or (byte_at buf p) (byte_at buf (p + 1) << 8))

unfoldable pub rd32 : List ℕ → ℕ → ℕ
rd32 buf p =
    bit_or
      (bit_or (bit_or (byte_at buf p) (u32 (byte_at buf (p + 1) << 8)))
        (u32 (byte_at buf (p + 2) << 16)))
      (u32 (byte_at buf (p + 3) << 24))

unfoldable pub wr16 : List ℕ → ℕ → ℕ → List ℕ
wr16 buf p v = set (set buf p (u8 (bit_and v 0xff))) (p + 1) (u8 (bit_and (v >> 8) 0xff))

unfoldable pub wr32 : List ℕ → ℕ → ℕ → List ℕ
wr32 buf p v =
    let buf1 = set buf p (u8 (bit_and v 0xff)) in
    let buf2 = set buf1 (p + 1) (u8 (bit_and (v >> 8) 0xff)) in
    let buf3 = set buf2 (p + 2) (u8 (bit_and (v >> 16) 0xff)) in
    set buf3 (p + 3) (u8 (bit_and (v >> 24) 0xff))
