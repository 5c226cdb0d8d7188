-- ===== src/Fragment/Header.antt =====
-- src/video/fragment.c: the four bytes of the fragment header.
use remote_avapps.Base.{
  ℕ, ◌+◌, ◌*◌, ◌/◌, ◌%◌, ◌<◌, ◌≤◌, ◌≡◌, ◌==◌, arith, Bool, true, false, not, List, ◌∷◌, length,
  bit_and, bit_or, if◌then◌else◌, u16, ◌∙◌,
}
use remote_avapps.Base.Bits.{bit_and_mask, bit_or_fields, bit_and_high}
use remote_avapps.Wire.Laws.{low_byte}
use remote_avapps.Fragment.{hdr_pack, hdr_unpack, last_flag, index_mask}

-- The index as it is sent: bit 15 marks the last chunk.
abbrev pub wire_index : ℕ → Bool → ℕ
wire_index index last = if last then index + last_flag else index

joined : (v : ℕ) → v < 65536 → u16 (bit_or (v % 256) (v / 256 % 256 * 256)) ≡ v
joined v h = omega (arith, bit_or_fields 8 (v / 256 % 256) (v % 256) (omega arith))

unpack_fields :
    (out : List ℕ) (f w : ℕ)
    → f < 65536
    → w < 65536
    → 4 ≤ length out
    → hdr_unpack (hdr_pack out f w) ≡ (f, bit_and w index_mask, not (bit_and w last_flag == 0))
unfolding hdr_unpack hdr_pack
unpack_fields (a ∷ b ∷ c ∷ d ∷ r) f w hf hw fits =
    rw (low_byte f, low_byte (f / 256), low_byte w, low_byte (w / 256), joined f hf, joined w hw)
unpack_fields _ f w hf hw fits = absurd (omega arith)

-- A header of a 16-bit frame number and a 15-bit index, with or without the flag for the last chunk,
-- reads back as these three; the bytes behind it are not looked at.
pub hdr_unpack-hdr_pack :
    (out : List ℕ) (frame_id index : ℕ) (last : Bool)
    → 4 ≤ length out
    → frame_id < 65536
    → index < 32768
    → hdr_unpack (hdr_pack out frame_id (wire_index index last)) ≡ (frame_id, index, last)
hdr_unpack-hdr_pack out f index true fits hf hi =
    unpack_fields out f (index + last_flag) hf (omega arith) fits
    ∙ rw (bit_and_mask 15 (index + last_flag), bit_and_high 15 (index + last_flag)) (ground arith)
hdr_unpack-hdr_pack out f index false fits hf hi =
    unpack_fields out f index hf (omega arith) fits
    ∙ rw (bit_and_mask 15 index, bit_and_high 15 index) (ground arith)
