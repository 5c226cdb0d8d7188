-- ===== src/Telemetry/Datagram.antt =====
-- src/core/telemetry.c: the datagram of a telemetry line is a datagram of the wire protocol.
use remote_avapps.Base.{
  ℕ, zero, suc, ◌+◌, ◌-◌, ◌/◌, ◌%◌, ◌<◌, ◌≤◌, ◌≡◌, refl, arith, sym, ap, ap₂, ◌∙◌, u8, u16, u32,
  if◌then◌else◌, bit_and, bit_xor, ◌>>◌, ltb, lt→ltb, ltb-false, List, [], ◌∷◌, ◌++◌, length, take,
  drop, some, append_assoc, take-append, length-drop, append-nil,
}
use remote_avapps.Base.Blocks.{store, store-append}
use remote_avapps.Wire.{byte_at}
use remote_avapps.Wire.Laws.{low_byte}
use remote_avapps.Protocol.{
  Header, header_size, header_valid, magic_value, version_value, crc8_bits, crc8_update, decode,
  accepted,
}
use remote_avapps.Protocol.Encoding.{
  frame, prefix_bytes, expected_crc, crc8_update-prefix, FitsWidths, length-frame,
}
use remote_avapps.Protocol.RoundTrip.{stamped, decode-frame}
use remote_avapps.Telemetry.{put_envelope, sink_crc, sink_datagram}

-- VMC_PROTO_STREAM_TELEMETRY
abbrev pub stream_telemetry : ℕ
stream_telemetry = 4

-- The header of a line of `len` bytes at the time `now`.
abbrev pub line_header : ℕ → ℕ → Header
line_header len now = record {
  magic = magic_value;
  version = version_value;
  flags = 0;
  stream = stream_telemetry;
  reserved = 0;
  payload_len = len;
  seq = 0;
  ts_us = u32 now;
  crc = 0;
}

drop_next : (xs : List ℕ) (j : ℕ) → j < length xs → drop j xs ≡ byte_at xs j ∷ drop (suc j) xs
drop_next [] j h = absurd (omega arith)
drop_next (x ∷ xs) zero h = refl
drop_next (x ∷ xs) (suc j) h = drop_next xs j (omega arith)

-- The loop over the rest of the line.
sink_crc-line :
    (n k crc : ℕ) (p line : List ℕ)
    → k + n ≤ length line
    → sink_crc n (16 + k) p line crc ≡ crc8_update crc (drop k line) n
unfolding sink_crc crc8_update
sink_crc-line zero k crc p line h = refl
sink_crc-line (suc n) k crc p line h =
    let later : 16 + k + 1 ≡ 16 + (k + 1) = omega arith in
    let at : 16 + k - 16 ≡ k = omega arith in
    let next : k + 1 ≡ suc k = omega arith in
    rw (ltb-false (16 + k) 16 (omega arith), at, later, drop_next line k (omega (arith, h)))
      (sink_crc-line n (k + 1) (crc8_bits 8 (bit_xor crc (byte_at line k))) p line
          (omega (arith, h))
        ∙ ap (λ j. crc8_update (crc8_bits 8 (bit_xor crc (byte_at line k))) (drop j line) n) next)

-- The loop over the rest of the header.
sink_crc-header :
    (m j n crc : ℕ) (p line : List ℕ)
    → j + m ≡ 16
    → 16 ≤ length p
    → sink_crc (m + n) j p line crc ≡ sink_crc n 16 p line (crc8_update crc (drop j p) m)
unfolding sink_crc crc8_update
sink_crc-header zero j n crc p line e h =
    let turns : 0 + n ≡ n = omega arith in
    let at : j ≡ 16 = omega (arith, e) in ap₂ (λ a b. sink_crc a b p line crc) turns at
sink_crc-header (suc m) j n crc p line e h =
    let turns : suc m + n ≡ suc (m + n) = omega arith in
    let next : j + 1 ≡ suc j = omega arith in
    let crc' = crc8_bits 8 (bit_xor crc (byte_at p j)) in
    let byte : (if ltb j 16 then byte_at p j else byte_at line (j - 16)) ≡ byte_at p j =
      rw (lt→ltb j 16 (omega (arith, e))) refl in
    ap (λ k. sink_crc k j p line crc) turns
    ∙ ap (λ b. sink_crc (m + n) (j + 1) p line (crc8_bits 8 (bit_xor crc b))) byte
    ∙ sink_crc-header m (j + 1) n crc' p line (omega (arith, e)) h
    ∙ ap (λ k. sink_crc n 16 p line (crc8_update crc' (drop k p) m)) next
    ∙ ap (λ l. sink_crc n 16 p line (crc8_update crc l (suc m)))
        (sym (drop_next p j (omega (arith, e, h))))

-- The bytes that are stored are those of the header.
envelope_bytes :
    (len now : ℕ) (r : List ℕ)
    → len < 65536
    → ◌≡◌ {A = List ℕ}
        (67
          ∷ 86
          ∷ 1
          ∷ 0
          ∷ 4
          ∷ 0
          ∷ u8 (bit_and (u16 len) 255)
          ∷ u8 (u16 len >> 8)
          ∷ 0
          ∷ 0
          ∷ 0
          ∷ 0
          ∷ u8 (bit_and now 255)
          ∷ u8 (bit_and (now >> 8) 255)
          ∷ u8 (bit_and (now >> 16) 255)
          ∷ u8 (bit_and (now >> 24) 255)
          ∷ r)
        (prefix_bytes (line_header len now) ++ r)
envelope_bytes len now r small = λ i.
    67
    ∷ 86
    ∷ 1
    ∷ 0
    ∷ 4
    ∷ 0
    ∷ len_low i
    ∷ len_high i
    ∷ 0
    ∷ 0
    ∷ 0
    ∷ 0
    ∷ time_0 i
    ∷ time_1 i
    ∷ time_2 i
    ∷ time_3 i
    ∷ r
  where
    len_low : u8 (bit_and (u16 len) 255) ≡ len % 256
    len_low = low_byte (u16 len) ∙ omega (arith, small)

    len_high : u8 (u16 len >> 8) ≡ len / 256 % 256
    len_high = omega (arith, small)

    time_0 : u8 (bit_and now 255) ≡ u32 now % 256
    time_0 = low_byte now ∙ omega arith

    time_1 : u8 (bit_and (now >> 8) 255) ≡ u32 now / 256 % 256
    time_1 = low_byte (now >> 8) ∙ omega arith

    time_2 : u8 (bit_and (now >> 16) 255) ≡ u32 now / 65536 % 256
    time_2 = low_byte (now >> 16) ∙ omega arith

    time_3 : u8 (bit_and (now >> 24) 255) ≡ u32 now / 16777216 % 256
    time_3 = low_byte (now >> 24) ∙ omega arith

put_envelope_lem :
    (buf : List ℕ) (len now : ℕ)
    → header_size ≤ length buf
    → len < 65536
    → put_envelope buf len now
      ≡ prefix_bytes (line_header len now) ++ (byte_at buf 16 ∷ drop header_size buf)
unfolding put_envelope
put_envelope_lem
      (b0 ∷ b1 ∷ b2 ∷ b3 ∷ b4 ∷ b5 ∷ b6 ∷ b7 ∷ b8 ∷ b9 ∷ b10 ∷ b11 ∷ b12 ∷ b13 ∷ b14 ∷ b15 ∷ b16
        ∷ r)
      len now fits small =
    envelope_bytes len now (b16 ∷ r) small
put_envelope_lem _ len now fits small = absurd (omega arith)

-- The CRC of the sink is that of the protocol.
sink_crc_lem :
    (len now b : ℕ) (r line : List ℕ)
    → length line ≡ len
    → sink_crc (16 + len) 0 (prefix_bytes (line_header len now) ++ (b ∷ r)) line 0
      ≡ expected_crc (line_header len now) line
sink_crc_lem len now b r line e =
    let h = line_header len now in
    let p = prefix_bytes h ++ (b ∷ r) in
    sink_crc-header 16 0 len 0 p line refl (omega arith)
    ∙ sink_crc-line len 0 (crc8_update 0 p 16) p line (omega (arith, e))
    ∙ ap₂ (λ c n. crc8_update c line n) (crc8_update-prefix 0 (prefix_bytes h) (b ∷ r)) (sym e)

-- The datagram of a line is the frame of a telemetry header and the line.
pub sink_datagram_lem :
    (buf line : List ℕ) (now : ℕ)
    → length buf ≡ 65552
    → 0 < length line
    → length line < 65535
    → sink_datagram buf line now ≡ some (frame (line_header (length line) now) line)
unfolding sink_datagram
sink_datagram_lem buf line now size some_bytes small =
    let len = length line in
    let h = line_header len now in
    let rest = drop header_size buf in
    rw
      (
        lt→ltb 0 len some_bytes,
        lt→ltb (len + 17) 65552 (omega (arith, small)),
        put_envelope_lem buf len now (omega (arith, size)) (omega (arith, small)),
        sink_crc_lem len now (byte_at buf 16) rest line refl,
      )
      (ap some framed)
  where
    front : List ℕ
    front =
        prefix_bytes (line_header (length line) now)
        ++ (expected_crc (line_header (length line) now) line ∷ [])

    framed :
        take (17 + length line) (store (front ++ drop header_size buf) 17 line)
        ≡ frame (line_header (length line) now) line
    framed =
        let total : 17 + length line ≡ length (front ++ line) = omega arith in
        let behind = drop (length line) (drop header_size buf) in
        ap₂ take total (
          store-append front (drop header_size buf) line
            (omega (arith, length-drop header_size buf, size, small))
          ∙ sym (append_assoc front line behind))
        ∙ take-append (front ++ line) behind

-- A line that is not empty and short enough goes out as a datagram that the wire protocol decodes:
-- to the telemetry stream, with the number 0, the time cut to 32 bits, and the line as the payload.
-- The buffer has its size.
pub decode-sink_datagram :
    (buf line : List ℕ) (now : ℕ)
    → length buf ≡ 65552
    → 0 < length line
    → length line < 65535
    → (d : List ℕ) × (sink_datagram buf line now ≡ some d)
      × (length d ≡ header_size + length line)
      × (decode (some d) (length d) ≡ accepted (stamped (line_header (length line) now) line) line)
unfolding header_valid
decode-sink_datagram buf line now size some_bytes small =
    let h = line_header (length line) now in
    let fits : FitsWidths h = omega (arith, small) in
    (
      frame h line,
      sink_datagram_lem buf line now size some_bytes small,
      length-frame h line,
      ap (λ b. decode (some b) (length (frame h line))) (sym (append-nil (frame h line)))
          ∙ decode-frame h line [] (length (frame h line)) fits refl refl
              (omega (arith, length-frame h line))
          ∙ ap (accepted (stamped h line)) (append-nil line),
    )
