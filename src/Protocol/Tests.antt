-- ===== src/Protocol/Tests.antt =====
-- Runs of src/transport/protocol.c, and its theorems at concrete inputs.
use remote_avapps.Base.{
  ℕ, ◌≡◌, refl, arith, List, [], ◌∷◌, ◌++◌, replicate, set, take, drop, some, inr, IsBytes,
}
use remote_avapps.Status.{corrupt, invalid_arg, no_mem}
use remote_avapps.Protocol.{
  Header, encode, written, failed, decode, accepted, refused, header_valid, crc8, crc8_update,
  crc8_bits, crc8_bit,
}
use remote_avapps.Protocol.Encoding.{frame}
use remote_avapps.Protocol.RoundTrip.{stamped, decode-encode, decode-frame}
use remote_avapps.Protocol.Tamper.{decode-set_corrupt}
use remote_avapps.Protocol.Canonical.{decode-frame_only}

abbrev hdr : Header
hdr = record {
  magic = 0x5643;
  version = 1;
  flags = 2;
  stream = 1;
  reserved = 0;
  payload_len = 2;
  seq = 70000;
  ts_us = 12345678;
  crc = 0;
}

abbrev room : List ℕ
room = replicate 24 0

abbrev load : List ℕ
load = 7 ∷ 8 ∷ []

-- The check value of CRC-8 with the polynomial 0x07.
crc8_check : crc8 (0x31 ∷ 0x32 ∷ 0x33 ∷ 0x34 ∷ 0x35 ∷ 0x36 ∷ 0x37 ∷ 0x38 ∷ 0x39 ∷ []) 9 ≡ 0xf4
unfolding crc8 crc8_update crc8_bits crc8_bit
crc8_check = refl

encode_no_room : encode (some room) 18 (some hdr) (some load) ≡ failed no_mem
unfolding encode header_valid
encode_no_room = refl

encode_bad_magic :
    encode (some room) 24 (some (record hdr { magic = 7 })) (some load) ≡ failed invalid_arg
unfolding encode header_valid
encode_bad_magic = refl

decode-encode_example :
    (out : List ℕ) × (encode (some room) 24 (some hdr) (some load) ≡ written 19 out)
    × (decode (some out) 19 ≡ accepted (stamped hdr load) (load ++ drop 19 room))
unfolding header_valid
decode-encode_example =
    decode-encode room 24 hdr (some load) load (omega arith) refl refl refl (omega arith)
      (omega arith)

-- An accepted datagram with two bytes of payload and one behind them.
abbrev sent : List ℕ
sent = frame hdr load ++ (99 ∷ [])

sent_accepted : decode (some sent) 20 ≡ accepted (stamped hdr load) (load ++ (99 ∷ []))
unfolding header_valid
sent_accepted = decode-frame hdr load (99 ∷ []) 20 (omega arith) refl refl (omega arith)

sent-IsBytes : IsBytes sent
unfolding crc8_update crc8_bits crc8_bit
sent-IsBytes = omega arith

decode-set_corrupt_example : decode (some (set sent 18 9)) 20 ≡ refused corrupt
decode-set_corrupt_example =
    decode-set_corrupt sent 20 18 9 (stamped hdr load) (load ++ (99 ∷ [])) sent-IsBytes
      (omega arith) sent_accepted (omega arith) (inr (inr (inr (omega arith)))) (omega arith)

decode-frame_only_example :
    sent ≡ frame (stamped hdr load) (take 2 (load ++ (99 ∷ []))) ++ (99 ∷ [])
decode-frame_only_example =
    decode-frame_only sent 20 (stamped hdr load) (load ++ (99 ∷ [])) sent-IsBytes (omega arith)
      sent_accepted
