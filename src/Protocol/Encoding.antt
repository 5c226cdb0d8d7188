-- ===== src/Protocol/Encoding.antt =====
-- What `vmc_proto_encode` of src/transport/protocol.c leaves in the buffer, as a list of bytes.
use remote_avapps.Base.{
  ℕ, zero, suc, ◌+◌, ◌/◌, ◌%◌, ◌<◌, ◌≤◌, ◌≡◌, refl, arith, lt→ltb, ltb-false, true, List, [], ◌∷◌,
  ◌++◌, length, set, ap, ◌∙◌, sym, drop, Option, none, some, take_all, length-drop, drop-drop,
  bit_xor, if◌then◌else◌, not, ltb, take, take-append,
}
use remote_avapps.Base.Blocks.{store, store-append}
use remote_avapps.Status.{invalid_arg, no_mem}
use remote_avapps.Wire.{wr16, wr32}
use remote_avapps.Wire.Laws.{low_byte}
use remote_avapps.Protocol.{
  Header, header_size, header_valid, put_header, put_payload, encode, Encoded, written, failed,
  frame_crc, crc8_update, crc8_bits,
}

-- The fields are of the widths that the header declares.
pub record FitsWidths (h : Header) : Type 0 where
  pub magic_16 : h.magic < 65536
  pub version_8 : h.version < 256
  pub flags_8 : h.flags < 256
  pub stream_8 : h.stream < 256
  pub reserved_8 : h.reserved < 256
  pub payload_len_16 : h.payload_len < 65536
  pub seq_32 : h.seq < 4294967296
  pub ts_us_32 : h.ts_us < 4294967296

-- The layout of the header comment of protocol.h, offsets 0 to 15.
abbrev pub prefix_bytes : Header → List ℕ
prefix_bytes h =
    h.magic % 256
    ∷ h.magic / 256 % 256
    ∷ h.version
    ∷ h.flags
    ∷ h.stream
    ∷ h.reserved
    ∷ h.payload_len % 256
    ∷ h.payload_len / 256 % 256
    ∷ h.seq % 256
    ∷ h.seq / 256 % 256
    ∷ h.seq / 65536 % 256
    ∷ h.seq / 16777216 % 256
    ∷ h.ts_us % 256
    ∷ h.ts_us / 256 % 256
    ∷ h.ts_us / 65536 % 256
    ∷ h.ts_us / 16777216 % 256
    ∷ []

-- The bytes that a payload argument supplies: none at a NULL pointer.
abbrev pub Carries : Option (List ℕ) → List ℕ → Type 0
Carries none p = p ≡ []
Carries (some q) p = q ≡ p

-- The CRC that belongs to a header and a payload.
abbrev pub expected_crc : Header → List ℕ → ℕ
expected_crc h p = crc8_update (crc8_update 0 (prefix_bytes h) 16) p (length p)

-- The datagram that stands for a header and a payload.
abbrev pub frame : Header → List ℕ → List ℕ
frame h p = prefix_bytes h ++ (expected_crc h p ∷ p)

pub length-frame : (h : Header) (p : List ℕ) → length (frame h p) ≡ header_size + length p
length-frame h p = omega arith

pub crc8_update-prefix :
    (c : ℕ) (xs ys : List ℕ) → crc8_update c (xs ++ ys) (length xs) ≡ crc8_update c xs (length xs)
unfolding crc8_update
crc8_update-prefix c [] ys = refl
crc8_update-prefix c (x ∷ xs) ys = crc8_update-prefix (crc8_bits 8 (bit_xor c x)) xs ys

pub frame_crc-some :
    (buf p : List ℕ) (n : ℕ) → frame_crc buf 16 (some p) n ≡ crc8_update (crc8_update 0 buf 16) p n
unfolding frame_crc crc8_update
frame_crc-some buf p zero = refl
frame_crc-some buf p (suc n) = rw (lt→ltb 0 (suc n) (omega arith))

put_header_lem :
    (buf : List ℕ) (h : Header)
    → header_size ≤ length buf
    → put_header buf h ≡ prefix_bytes h ++ (0 ∷ drop header_size buf)
unfolding put_header wr16 wr32
put_header_lem
      (b0 ∷ b1 ∷ b2 ∷ b3 ∷ b4 ∷ b5 ∷ b6 ∷ b7 ∷ b8 ∷ b9 ∷ b10 ∷ b11 ∷ b12 ∷ b13 ∷ b14 ∷ b15 ∷ b16
        ∷ r)
      h fits =
    simp low_byte
put_header_lem _ h fits = absurd (omega arith)

-- Storing the payload behind the header.
put_payload_lem :
    (pre : List ℕ) (payload : Option (List ℕ)) (p rest : List ℕ) (n : ℕ)
    → length pre ≡ header_size
    → Carries payload p
    → length p ≡ n
    → n ≤ length rest
    → put_payload (pre ++ rest) n payload ≡ pre ++ (p ++ drop n rest)
unfolding put_payload
put_payload_lem pre none [] rest n l c e fits = rw (← e)
put_payload_lem pre none (x ∷ p) rest n l c e fits = cc
put_payload_lem pre (some q) [] rest n l c e fits = rw (← e)
put_payload_lem pre (some q) (x ∷ xs) rest n l c e fits =
    rw (← e, c, lt→ltb 0 (suc (length xs)) (omega arith), take_all xs, ← l)
      (store-append pre rest (x ∷ xs) (omega arith))

frame_crc_lem :
    (pre : List ℕ) (payload : Option (List ℕ)) (p rest : List ℕ) (n : ℕ)
    → length pre ≡ 16
    → Carries payload p
    → length p ≡ n
    → frame_crc (pre ++ rest) 16 payload n ≡ crc8_update (crc8_update 0 pre 16) p n
frame_crc_lem pre none [] rest n l c e =
    rw (← e) (unfold frame_crc crc8_update in rw (← l) (crc8_update-prefix 0 pre rest))
frame_crc_lem pre none (x ∷ p) rest n l c e = cc
frame_crc_lem pre (some q) p rest n l c e =
    rw (c, frame_crc-some (pre ++ rest) p n, ← l, crc8_update-prefix 0 pre rest)

-- With a valid header, a payload as long as the header says and room for both, `vmc_proto_encode`
-- returns the total length; the buffer starts with the datagram, and the rest of it is unchanged.
pub encode_lem :
    (buf : List ℕ) (cap : ℕ) (h : Header) (payload : Option (List ℕ)) (p : List ℕ)
    → header_valid (some h) ≡ true
    → Carries payload p
    → length p ≡ h.payload_len
    → header_size + h.payload_len ≤ cap
    → cap ≤ length buf
    → encode (some buf) cap (some h) payload
      ≡ written (header_size + h.payload_len) (frame h p ++ drop (header_size + h.payload_len) buf)
unfolding encode
encode_lem buf cap h payload p valid c e room fits =
    rw (valid, ltb-false cap (header_size + h.payload_len) room, framed)
      (ap (λ t. written (header_size + h.payload_len) t) crc_in)
  where
    after : List ℕ
    after = p ++ drop (header_size + h.payload_len) buf

    crc_in :
        set
          (prefix_bytes h ++ (0 ∷ after))
          16
          (frame_crc (prefix_bytes h ++ (0 ∷ after)) 16 payload h.payload_len)
        ≡ frame h p ++ drop (header_size + h.payload_len) buf
    crc_in =
        ap (λ t. prefix_bytes h ++ (t ∷ after))
          (frame_crc_lem (prefix_bytes h) payload p (0 ∷ after) h.payload_len refl c e
            ∙ ap (crc8_update (crc8_update 0 (prefix_bytes h) 16) p) (sym e))

    framed : put_payload (put_header buf h) h.payload_len payload ≡ prefix_bytes h ++ (0 ∷ after)
    framed =
        ap (λ b. put_payload b h.payload_len payload) (put_header_lem buf h (omega arith))
        ∙ put_payload_lem (prefix_bytes h ++ (0 ∷ [])) payload p (drop header_size buf)
            h.payload_len refl c e (omega (arith, length-drop header_size buf))
        ∙ ap (λ t. prefix_bytes h ++ (0 ∷ (p ++ t))) (drop-drop header_size h.payload_len buf)

-- `crc8_update` reads no more of a list than its length says.
pub crc_of_payload :
    (c : ℕ) (p rest : List ℕ) (n : ℕ)
    → length p ≡ n
    → crc8_update c (p ++ rest) n ≡ crc8_update c p (length p)
crc_of_payload c p rest n e = rw (← e) (crc8_update-prefix c p rest)

-- Nor does `vmc_proto_encode` read more of the payload than the header says.
pub encode-prefix :
    (buf : List ℕ) (cap : ℕ) (h : Header) (p rest : List ℕ)
    → length p ≡ h.payload_len
    → encode (some buf) cap (some h) (some (p ++ rest)) ≡ encode (some buf) cap (some h) (some p)
unfolding encode put_payload
encode-prefix buf cap h p rest e =
    ap (λ f. result f (frame_crc f 16 (some (p ++ rest)) n)) same_store
    ∙ ap (result (put_payload (put_header buf h) n (some p))) (same_crc _)
  where
    n : ℕ
    n = h.payload_len

    result : List ℕ → ℕ → Encoded
    result framed crc =
        if not (header_valid (some h))
        then failed invalid_arg
        else if ltb cap (header_size + n)
        then failed no_mem
        else written (header_size + n) (set framed 16 crc)

    same_take : take n (p ++ rest) ≡ take n p
    same_take = rw (← e) (take-append p rest ∙ sym (take_all p))

    same_store :
        put_payload (put_header buf h) n (some (p ++ rest))
        ≡ put_payload (put_header buf h) n (some p)
    same_store =
        ap (λ t. if ltb 0 n then store (put_header buf h) header_size t else put_header buf h)
          same_take

    same_crc : (f : List ℕ) → frame_crc f 16 (some (p ++ rest)) n ≡ frame_crc f 16 (some p) n
    same_crc f =
        frame_crc-some f (p ++ rest) n
        ∙ crc_of_payload (crc8_update 0 f 16) p rest n e
        ∙ ap (crc8_update (crc8_update 0 f 16) p) e
        ∙ sym (frame_crc-some f p n)
