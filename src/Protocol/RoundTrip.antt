-- ===== src/Protocol/RoundTrip.antt =====
-- src/transport/protocol.c: decoding a datagram that starts with an encoded frame.
use remote_avapps.Base.{
  ℕ, ◌+◌, ◌≤◌, ◌≡◌, arith, true, List, ◌∷◌, ◌++◌, length, ap, ◌∙◌, sym, drop, Option, some,
}
use remote_avapps.Wire.{rd16, rd32}
use remote_avapps.Wire.Laws.{rd16_sum, rd32_sum}
use remote_avapps.Protocol.{
  Header, header_size, header_valid, encode, written, decode, accepted, read_header, header,
  crc8_update,
}
use remote_avapps.Protocol.Decoding.{decode_of_header, decode_header_ok, check_frame_ok}
use remote_avapps.Protocol.Encoding.{
  FitsWidths, prefix_bytes, Carries, expected_crc, frame, encode_lem, crc8_update-prefix,
  crc_of_payload,
}

-- The header as it comes back: the CRC field is filled in.
abbrev pub stamped : Header → List ℕ → Header
stamped h p = record h { crc = expected_crc h p }

module _ (h : Header) (p rest : List ℕ) (w : FitsWidths h) where
  read_header-frame : read_header (frame h p ++ rest) ≡ stamped h p
  unfolding read_header
  read_header-frame = λ i. record {
    magic = magic_back i;
    version = h.version;
    flags = h.flags;
    stream = h.stream;
    reserved = h.reserved;
    payload_len = len_back i;
    seq = seq_back i;
    ts_us = ts_back i;
    crc = expected_crc h p;
  }
    where
      magic_back : rd16 (frame h p ++ rest) 0 ≡ h.magic
      magic_back = omega (arith, rd16_sum (frame h p ++ rest) 0 (omega arith) (omega arith))

      len_back : rd16 (frame h p ++ rest) 6 ≡ h.payload_len
      len_back = omega (arith, rd16_sum (frame h p ++ rest) 6 (omega arith) (omega arith))

      seq_back : rd32 (frame h p ++ rest) 8 ≡ h.seq
      seq_back = omega (
        arith,
        rd32_sum (frame h p ++ rest) 8 (omega arith) (omega arith) (omega arith) (omega arith),
      )

      ts_back : rd32 (frame h p ++ rest) 12 ≡ h.ts_us
      ts_back = omega (
        arith,
        rd32_sum (frame h p ++ rest) 12 (omega arith) (omega arith) (omega arith) (omega arith),
      )

-- A datagram that starts with the frame of a valid header and a payload decodes to that header,
-- with the CRC filled in, and to a pointer at the payload.
pub decode-frame :
    (h : Header) (p rest : List ℕ) (len : ℕ)
    → FitsWidths h
    → header_valid (some h) ≡ true
    → length p ≡ h.payload_len
    → header_size + h.payload_len ≤ len
    → decode (some (frame h p ++ rest)) len ≡ accepted (stamped h p) (p ++ rest)
decode-frame h p rest len w valid e fits =
    decode_of_header (frame h p ++ rest) len (stamped h p)
      (decode_header_ok (frame h p ++ rest) len (omega arith) read_valid ∙ ap header same)
    ∙ check_frame_ok (frame h p ++ rest) len (stamped h p) fits crc_back
  where
    same : read_header (frame h p ++ rest) ≡ stamped h p
    same = read_header-frame h p rest w

    read_valid : header_valid (some (read_header (frame h p ++ rest))) ≡ true
    read_valid = rw same (unfold header_valid in valid)

    crc_back :
        expected_crc h p
        ≡ crc8_update (crc8_update 0 (frame h p ++ rest) 16) (p ++ rest) h.payload_len
    crc_back = sym (
        crc_of_payload (crc8_update 0 (frame h p ++ rest) 16) p rest h.payload_len e
        ∙ ap (λ t. crc8_update t p (length p))
            (crc8_update-prefix 0 (prefix_bytes h) (expected_crc h p ∷ (p ++ rest))))

-- Encoding writes the frame, and decoding it gives back the header, with the CRC filled in, and the
-- payload, followed by what the buffer held behind it. The header is valid and within its widths, a
-- payload is given that is as long as the header says, or none for a length of 0, and the buffer has
-- room.
pub decode-encode :
    (buf : List ℕ) (cap : ℕ) (h : Header) (payload : Option (List ℕ)) (p : List ℕ)
    → FitsWidths h
    → header_valid (some h) ≡ true
    → Carries payload p
    → length p ≡ h.payload_len
    → header_size + h.payload_len ≤ cap
    → cap ≤ length buf
    → (out : List ℕ) × (encode (some buf) cap (some h) payload
        ≡ written (header_size + h.payload_len) out)
      × (decode (some out) (header_size + h.payload_len)
          ≡ accepted (stamped h p) (p ++ drop (header_size + h.payload_len) buf))
decode-encode buf cap h payload p w valid c e room fits = (
  frame h p ++ drop (header_size + h.payload_len) buf,
  encode_lem buf cap h payload p valid c e room fits,
  decode-frame h p (drop (header_size + h.payload_len) buf) (header_size + h.payload_len) w valid e
      (omega arith),
)
