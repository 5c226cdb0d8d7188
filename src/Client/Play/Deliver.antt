-- ===== src/Client/Play/Deliver.antt =====
-- apps/thinclient/main.c: what the playout hands to the assembler.
use remote_avapps.Base.{
  ℕ, ◌+◌, ◌-◌, ◌<◌, ◌≡◌, refl, arith, ap, ◌∙◌, Bool, List, ◌++◌, length, drop, replicate, some,
  take-append, take_all,
}
use remote_avapps.Fragment.{Assembler, feed, add_chunk, hdr_pack, hdr_unpack}
use remote_avapps.Fragment.Header.{wire_index, hdr_unpack-hdr_pack}
use remote_avapps.Client.Play.{feed_payload}

-- The assembler reads no more of a chunk than its length says.
feed-prefix :
    (a : Assembler) (f i : ℕ) (last : Bool) (c rest : List ℕ)
    → feed a f i last (some (c ++ rest)) (length c) ≡ feed a f i last (some c) (length c)
unfolding feed add_chunk
feed-prefix a f i last c rest = rw (take-append c rest, take_all c) refl

pack_front :
    (f w : ℕ) (rest : List ℕ)
    → hdr_pack (replicate 4 0) f w ++ rest ≡ hdr_pack (replicate 4 0 ++ rest) f w
unfolding hdr_pack
pack_front f w rest = refl

drop_front : (f w : ℕ) (rest : List ℕ) → drop 4 (hdr_pack (replicate 4 0) f w ++ rest) ≡ rest
unfolding hdr_pack
drop_front f w rest = refl

-- A payload that starts with a fragment's header and its chunk feeds this chunk.
pub feed_payload-fragment :
    (a : Assembler) (f i : ℕ) (last : Bool) (c rest : List ℕ)
    → f < 65536
    → i < 32768
    → feed_payload a (hdr_pack (replicate 4 0) f (wire_index i last) ++ (c ++ rest)) (4 + length c)
      ≡ feed a f i last (some c) (length c)
unfolding feed_payload
feed_payload-fragment a f i last c rest hf hi =
    let payload = hdr_pack (replicate 4 0) f (wire_index i last) ++ (c ++ rest) in
    let head : hdr_unpack payload ≡ (f, i, last) =
      ap hdr_unpack (pack_front f (wire_index i last) (c ++ rest))
      ∙ hdr_unpack-hdr_pack (replicate 4 0 ++ (c ++ rest)) f i last (omega arith) hf hi in
    let size : 4 + length c - 4 ≡ length c = omega arith in
    ap (λ (t : ℕ × ℕ × Bool). feed a t.0 t.1 t.2 (some (drop 4 payload)) (4 + length c - 4)) head
    ∙ ap (λ b. feed a f i last (some b) (4 + length c - 4))
        (drop_front f (wire_index i last) (c ++ rest))
    ∙ ap (feed a f i last (some (c ++ rest))) size
    ∙ feed-prefix a f i last c rest
