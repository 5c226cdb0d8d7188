-- ===== src/Protocol/Decoding.antt =====
-- src/transport/protocol.c: the checks of `vmc_proto_decode_header` and `vmc_proto_decode`, one
-- lemma for each outcome.
use remote_avapps.Base.{
  ℕ, ◌+◌, ◌≤◌, ◌≡◌, ◌≢◌, refl, arith, ltb-false, ==-true, ==-false, true, false, List, drop, some,
  sym, ◌∙◌, ◌⊎◌, inl, inr,
}
use remote_avapps.Status.{Status, proto, corrupt}
use remote_avapps.Protocol.{
  Header, header_size, header_valid, decode, accepted, refused, decode_header, DecodedHeader,
  header, no_header, read_header, check_frame, frame_crc, crc8_update,
}
use remote_avapps.Protocol.Encoding.{frame_crc-some}

pub decode_header_ok :
    (buf : List ℕ) (len : ℕ)
    → header_size ≤ len
    → header_valid (some (read_header buf)) ≡ true
    → decode_header (some buf) len ≡ header (read_header buf)
unfolding decode_header
decode_header_ok buf len fits valid = rw (ltb-false len header_size fits, valid)

pub decode_header_proto :
    (buf : List ℕ) (len : ℕ)
    → header_size ≤ len
    → header_valid (some (read_header buf)) ≡ false
    → decode_header (some buf) len ≡ no_header proto
unfolding decode_header
decode_header_proto buf len fits valid = rw (ltb-false len header_size fits, valid)

pub check_frame_ok :
    (buf : List ℕ) (len : ℕ) (h : Header)
    → header_size + h.payload_len ≤ len
    → h.crc ≡ crc8_update (crc8_update 0 buf 16) (drop header_size buf) h.payload_len
    → check_frame buf len h ≡ accepted h (drop header_size buf)
unfolding check_frame
check_frame_ok buf len h fits same = rw (
  ltb-false len (header_size + h.payload_len) fits,
  frame_crc-some buf (drop header_size buf) h.payload_len,
  ==-true h.crc _ same,
)

pub check_frame_corrupt :
    (buf : List ℕ) (len : ℕ) (h : Header)
    → header_size + h.payload_len ≤ len
    → h.crc ≢ crc8_update (crc8_update 0 buf 16) (drop header_size buf) h.payload_len
    → check_frame buf len h ≡ refused corrupt
unfolding check_frame
check_frame_corrupt buf len h fits differs = rw (
  ltb-false len (header_size + h.payload_len) fits,
  frame_crc-some buf (drop header_size buf) h.payload_len,
  ==-false h.crc _ differs,
)

pub decode_of_header :
    (buf : List ℕ) (len : ℕ) (h : Header)
    → decode_header (some buf) len ≡ header h
    → decode (some buf) len ≡ check_frame buf len h
unfolding decode
decode_of_header buf len h e = rw (e, decode)

pub decode_of_no_header :
    (buf : List ℕ) (len : ℕ) (st : Status)
    → decode_header (some buf) len ≡ no_header st
    → decode (some buf) len ≡ refused st
unfolding decode
decode_of_no_header buf len st e = rw (e, decode)

-- The facts behind an accepted datagram.
pub record IsAccepted (buf : List ℕ) (len : ℕ) (h : Header) (payload : List ℕ) : Type 0 where
  pub long_enough : header_size + h.payload_len ≤ len
  pub is_read : h ≡ read_header buf
  pub is_valid : header_valid (some h) ≡ true
  pub same_crc : h.crc ≡ crc8_update (crc8_update 0 buf 16) (drop header_size buf) h.payload_len
  pub is_payload : payload ≡ drop header_size buf

decode_header_inv :
    (buf : List ℕ) (len : ℕ) (h : Header)
    → decode_header (some buf) len ≡ header h
    → (h ≡ read_header buf) × (header_valid (some (read_header buf)) ≡ true) × (header_size ≤ len)
unfolding decode_header
decode_header_inv buf len h e = ground arith

check_frame_inv :
    (buf : List ℕ) (len : ℕ) (g h : Header) (payload : List ℕ)
    → check_frame buf len g ≡ accepted h payload
    → (h ≡ g)
      × (header_size + g.payload_len ≤ len)
      × (g.crc ≡ frame_crc buf 16 (some (drop header_size buf)) g.payload_len)
      × (payload ≡ drop header_size buf)
unfolding check_frame
check_frame_inv buf len g h payload e = ground arith

DecodedHeader-cases :
    (d : DecodedHeader) → ((h : Header) × (d ≡ header h)) ⊎ ((st : Status) × (d ≡ no_header st))
DecodedHeader-cases (header h) = inl (h, refl)
DecodedHeader-cases (no_header st) = inr (st, refl)

-- What `vmc_proto_decode` accepts has passed every check, and the header is the one in the buffer.
pub decode-IsAccepted :
    (buf : List ℕ) (len : ℕ) (h : Header) (payload : List ℕ)
    → decode (some buf) len ≡ accepted h payload
    → IsAccepted buf len h payload
decode-IsAccepted buf len h payload e = elim (DecodedHeader-cases (decode_header (some buf) len)) [
  | inr (st, q) ↦ absurd (refused_ne (sym (decode_of_no_header buf len st q) ∙ e))
  | inl (g, q) ↦
      let (read, valid, long) = decode_header_inv buf len g q in
      let (same, fits, crc, rest) =
        check_frame_inv buf len g h payload (sym (decode_of_header buf len g q) ∙ e) in
      record {
        long_enough = rw same fits;
        is_read = same ∙ read;
        is_valid = rw (same, read) valid;
        same_crc = rw same (crc ∙ frame_crc-some buf (drop header_size buf) g.payload_len);
        is_payload = rest;
      }
]
  where
    refused_ne : {st : Status} → refused st ≡ accepted h payload → ⊥
    refused_ne q = cc
