-- ===== src/Fragment.antt =====
-- src/video/fragment.c and include/vmc/video/fragment.h: the fragments of a video access unit and
-- their assembler. A pointer that the code tests for NULL is an option; the assembler itself and
-- the outputs are not NULL.
pub mod Header
pub mod Spec
pub mod Refine
pub mod Assembly
mod Tests
use remote_avapps.Base.{
  ℕ, ◌+◌, ◌<<◌, ◌>>◌, ◌==◌, ltb, if◌then◌else◌, bit_and, bit_or, u8, u16, u64, sub64, Bool, true,
  false, not, ◌&&◌, ◌||◌, List, [], take, set, Option, none, some,
}
use remote_avapps.Base.Blocks.{store}
use remote_avapps.Status.{Status, ok, invalid_arg, overrun, out_of_sync}
use remote_avapps.Wire.{byte_at}

abbrev pub last_flag : ℕ
last_flag = 0x8000

abbrev pub index_mask : ℕ
index_mask = 0x7fff

-- `VMC_VIDEO_AU_MAX`
abbrev pub au_max : ℕ
au_max = 524288

-- `vmc_video_frag_hdr_pack`
unfoldable pub hdr_pack : List ℕ → ℕ → ℕ → List ℕ
hdr_pack out frame_id frag_index =
    let o0 = set out 0 (u8 (bit_and frame_id 0xff)) in
    let o1 = set o0 1 (u8 (bit_and (frame_id >> 8) 0xff)) in
    let o2 = set o1 2 (u8 (bit_and frag_index 0xff)) in
    set o2 3 (u8 (bit_and (frag_index >> 8) 0xff))

-- `vmc_video_frag_hdr_unpack`: the frame, the index without its flag, and the flag.
unfoldable pub hdr_unpack : List ℕ → ℕ × ℕ × Bool
hdr_unpack inp =
    let idx = u16 (bit_or (byte_at inp 2) (byte_at inp 3 << 8)) in
    (
      u16 (bit_or (byte_at inp 0) (byte_at inp 1 << 8)),
      bit_and idx index_mask,
      not (bit_and idx last_flag == 0),
    )

-- `vmc_frag_assembler`
pub record Assembler : Type 0 where
  pub buf : List ℕ
  pub cap : ℕ
  pub frame_id : ℕ
  pub next_index : ℕ
  pub filled : ℕ
  pub started : Bool

-- `vmc_frag_reset`
unfoldable pub reset : Assembler → Assembler
reset a = record a { frame_id = 0; next_index = 0; filled = 0; started = false }

-- `vmc_frag_init`
unfoldable pub init : Assembler → Option (List ℕ) → ℕ → Status × Assembler
unfolding reset
init a none cap = (invalid_arg, a)
init a (some buf) cap =
    if cap == 0 || ltb au_max cap
    then (invalid_arg, a)
    else (ok, reset (record a { buf = buf; cap = cap }))

-- The first chunk of a frame starts a new assembly.
unfoldable pub begin_frame : Assembler → ℕ → Assembler
begin_frame a frame_id =
    if not a.started || not (frame_id == a.frame_id)
    then record a { frame_id = frame_id; next_index = 0; filled = 0; started = true }
    else a

-- The bytes behind a chunk pointer.
abbrev pub chunk_bytes : Option (List ℕ) → List ℕ
chunk_bytes none = []
chunk_bytes (some c) = c

-- The rest of `vmc_frag_feed`, on an assembly that has begun.
unfoldable pub add_chunk : Assembler → ℕ → Bool → Option (List ℕ) → ℕ → Status × Assembler × ℕ
add_chunk a frag_index last chunk len =
    if not (frag_index == a.next_index)
    then (out_of_sync, record a { started = false }, 0)
    else if ltb (sub64 a.cap a.filled) len
    then (overrun, record a { started = false }, 0)
    else let a' = record a {
      buf = store a.buf a.filled (take len (chunk_bytes chunk));
      filled = u64 (a.filled + len);
      next_index = u16 (a.next_index + 1);
    } in
      if last then (ok, record a' { started = false }, a'.filled) else (ok, a', 0)

abbrev pub is_null : Option (List ℕ) → Bool
is_null none = true
is_null (some c) = false

-- `vmc_frag_feed`: the status, the assembler, and what `*out_au_len` is set to.
unfoldable pub feed : Assembler → ℕ → ℕ → Bool → Option (List ℕ) → ℕ → Status × Assembler × ℕ
feed a frame_id frag_index last chunk len =
    if ltb 0 len && is_null chunk
    then (invalid_arg, a, 0)
    else add_chunk (begin_frame a frame_id) frag_index last chunk len
