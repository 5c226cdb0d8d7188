-- ===== src/Protocol/Canonical.antt =====
-- src/transport/protocol.c: `vmc_proto_decode` accepts encodings only.
use remote_avapps.Base.{
  ℕ, ◌+◌, ◌*◌, ◌/◌, ◌%◌, ◌≤◌, ◌≡◌, arith, List, ◌∷◌, ◌++◌, length, take, drop, some, sym, ap, ap₂,
  ◌∙◌, IsBytes, length-take, length-drop, take-append-drop,
}
use remote_avapps.Wire.{rd16, rd32}
use remote_avapps.Wire.Laws.{rd16_sum, rd32_sum}
use remote_avapps.Protocol.{Header, header_size, decode, accepted, read_header, crc8_update}
use remote_avapps.Protocol.Encoding.{prefix_bytes, frame, expected_crc, crc8_update-prefix}
use remote_avapps.Protocol.Decoding.{IsAccepted, decode-IsAccepted}

-- Reading the fields and laying them out again gives the same bytes.
prefix_bytes-read_header :
    (buf : List ℕ)
    → IsBytes buf
    → header_size ≤ length buf
    → prefix_bytes (read_header buf) ++ ((read_header buf).crc ∷ drop header_size buf) ≡ buf
unfolding read_header
prefix_bytes-read_header
      (b0 ∷ b1 ∷ b2 ∷ b3 ∷ b4 ∷ b5 ∷ b6 ∷ b7 ∷ b8 ∷ b9 ∷ b10 ∷ b11 ∷ b12 ∷ b13 ∷ b14 ∷ b15 ∷ b16
        ∷ r)
      b fits =
    let buf : List ℕ =
      b0 ∷ b1 ∷ b2 ∷ b3 ∷ b4 ∷ b5 ∷ b6 ∷ b7 ∷ b8 ∷ b9 ∷ b10 ∷ b11 ∷ b12 ∷ b13 ∷ b14 ∷ b15 ∷ b16
      ∷ r in
    let m : rd16 buf 0 ≡ b0 + 256 * b1 = rd16_sum buf 0 (omega arith) (omega arith) in
    let n : rd16 buf 6 ≡ b6 + 256 * b7 = rd16_sum buf 6 (omega arith) (omega arith) in
    let s : rd32 buf 8 ≡ b8 + 256 * b9 + 65536 * b10 + 16777216 * b11 =
      rd32_sum buf 8 (omega arith) (omega arith) (omega arith) (omega arith) in
    let t : rd32 buf 12 ≡ b12 + 256 * b13 + 65536 * b14 + 16777216 * b15 =
      rd32_sum buf 12 (omega arith) (omega arith) (omega arith) (omega arith) in
    let m0 : rd16 buf 0 % 256 ≡ b0 = omega arith in
    let m1 : rd16 buf 0 / 256 % 256 ≡ b1 = omega arith in
    let n0 : rd16 buf 6 % 256 ≡ b6 = omega arith in
    let n1 : rd16 buf 6 / 256 % 256 ≡ b7 = omega arith in
    let s0 : rd32 buf 8 % 256 ≡ b8 = omega arith in
    let s1 : rd32 buf 8 / 256 % 256 ≡ b9 = omega arith in
    let s2 : rd32 buf 8 / 65536 % 256 ≡ b10 = omega arith in
    let s3 : rd32 buf 8 / 16777216 % 256 ≡ b11 = omega arith in
    let t0 : rd32 buf 12 % 256 ≡ b12 = omega arith in
    let t1 : rd32 buf 12 / 256 % 256 ≡ b13 = omega arith in
    let t2 : rd32 buf 12 / 65536 % 256 ≡ b14 = omega arith in
    let t3 : rd32 buf 12 / 16777216 % 256 ≡ b15 = omega arith in
    λ i.
      m0 i
      ∷ m1 i
      ∷ b2
      ∷ b3
      ∷ b4
      ∷ b5
      ∷ n0 i
      ∷ n1 i
      ∷ s0 i
      ∷ s1 i
      ∷ s2 i
      ∷ s3 i
      ∷ t0 i
      ∷ t1 i
      ∷ t2 i
      ∷ t3 i
      ∷ b16
      ∷ r
prefix_bytes-read_header _ b fits = absurd (omega arith)

-- An accepted datagram of bytes is the frame of the header and of as much of the payload as the
-- header says, followed by the rest of the buffer.
pub decode-frame_only :
    (buf : List ℕ) (len : ℕ) (h : Header) (payload : List ℕ)
    → IsBytes buf
    → len ≤ length buf
    → decode (some buf) len ≡ accepted h payload
    → buf ≡ frame h (take h.payload_len payload) ++ drop h.payload_len payload
decode-frame_only buf len h payload bytes long e =
    sym whole
    ∙ ap₂ (λ c rest. prefix_bytes h ++ (c ∷ rest)) crc_back
        (sym ok.is_payload ∙ sym (take-append-drop h.payload_len payload))
  where
    ok : IsAccepted buf len h payload
    ok = decode-IsAccepted buf len h payload e

    p : List ℕ
    p = take h.payload_len payload

    whole : prefix_bytes h ++ (h.crc ∷ drop header_size buf) ≡ buf
    whole =
        ap (λ g. prefix_bytes g ++ (g.crc ∷ drop header_size buf)) ok.is_read
        ∙ prefix_bytes-read_header buf bytes (omega (arith, ok.long_enough))

    length_p : length p ≡ h.payload_len
    length_p = omega (
      arith,
      length-take h.payload_len payload,
      length-drop header_size buf,
      ap (length {A = ℕ}) ok.is_payload,
      ok.long_enough,
    )

    prefix_crc : crc8_update 0 buf 16 ≡ crc8_update 0 (prefix_bytes h) 16
    prefix_crc =
        ap (λ b. crc8_update 0 b 16) (sym whole)
        ∙ crc8_update-prefix 0 (prefix_bytes h) (h.crc ∷ drop header_size buf)

    split : drop header_size buf ≡ p ++ drop h.payload_len payload
    split = sym ok.is_payload ∙ sym (take-append-drop h.payload_len payload)

    crc_back : h.crc ≡ expected_crc h p
    crc_back =
        ok.same_crc
        ∙ ap₂ (λ c xs. crc8_update c xs h.payload_len) prefix_crc split
        ∙ ap (crc8_update (crc8_update 0 (prefix_bytes h) 16) (p ++ drop h.payload_len payload))
            (sym length_p)
        ∙ crc8_update-prefix (crc8_update 0 (prefix_bytes h) 16) p (drop h.payload_len payload)
