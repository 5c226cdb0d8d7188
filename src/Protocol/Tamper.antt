-- ===== src/Protocol/Tamper.antt =====
-- src/transport/protocol.c: what the CRC detects, and that only encodings are accepted.
use remote_avapps.Base.{
  ℕ, zero, suc, ◌+◌, ◌-◌, ◌<◌, ◌≤◌, ◌≡◌, ◌≢◌, refl, arith, List, [], ◌∷◌, length, set, drop, some,
  sym, ap, ap₂, ◌∙◌, IsBytes, length-drop, ◌⊎◌, inl, inr, get_or-set_ne, get_or-drop, bit_xor,
}
use remote_avapps.Status.{corrupt}
use remote_avapps.Wire.{byte_at, rd16}
use remote_avapps.Protocol.{
  Header, header_size, header_valid, decode, accepted, refused, read_header, crc8_update, crc8_bits,
}
use remote_avapps.Protocol.Crc.{crc8_update-set, crc8_update_injective, crc8_update-lt}
use remote_avapps.Protocol.Decoding.{
  IsAccepted, decode-IsAccepted, decode_of_header, decode_header_ok, check_frame_corrupt,
}

IsBytes-drop : (n : ℕ) (xs : List ℕ) → IsBytes xs → IsBytes (drop n xs)
IsBytes-drop zero xs b = b
IsBytes-drop (suc n) [] b = b
IsBytes-drop (suc n) (x ∷ xs) b = IsBytes-drop n xs b.1

IsBytes-set : (xs : List ℕ) (i v : ℕ) → IsBytes xs → v < 256 → IsBytes (set xs i v)
IsBytes-set [] i v b h = b
IsBytes-set (x ∷ xs) zero v b h = (h, b.1)
IsBytes-set (x ∷ xs) (suc i) v b h = (b.0, IsBytes-set xs i v b.1 h)

-- An index that the checks before the CRC do not look at: `flags`, `stream`, `seq`, `ts_us` and the
-- payload.
abbrev pub IsCovered : ℕ → ℕ → Type 0
IsCovered n i = (i ≡ 3) ⊎ (i ≡ 4) ⊎ ((8 ≤ i) × (i < 16)) ⊎ ((17 ≤ i) × (i < 17 + n))

set-drop : (n j : ℕ) (xs : List ℕ) (v : ℕ) → drop n (set xs (n + j) v) ≡ set (drop n xs) j v
set-drop zero j xs v = let e : 0 + j ≡ j = omega arith in ap (λ k. set xs k v) e
set-drop (suc n) j [] v = refl
set-drop (suc n) j (x ∷ xs) v =
    let e : suc n + j ≡ suc (n + j) = omega arith in
    ap (λ k. drop (suc n) (set (x ∷ xs) k v)) e ∙ set-drop n j xs v

drop-set_before : (n i : ℕ) (xs : List ℕ) (v : ℕ) → i < n → drop n (set xs i v) ≡ drop n xs
drop-set_before zero i xs v h = absurd (omega arith)
drop-set_before (suc n) i [] v h = refl
drop-set_before (suc n) zero (x ∷ xs) v h = refl
drop-set_before (suc n) (suc i) (x ∷ xs) v h = drop-set_before n i xs v (omega arith)

crc-set_after :
    (n i c : ℕ) (xs : List ℕ) (v : ℕ) → n ≤ i → crc8_update c (set xs i v) n ≡ crc8_update c xs n
unfolding crc8_update
crc-set_after zero i c xs v h = refl
crc-set_after (suc n) i c [] v h = refl
crc-set_after (suc n) zero c (x ∷ xs) v h = absurd (omega arith)
crc-set_after (suc n) (suc i) c (x ∷ xs) v h =
    crc-set_after n i (crc8_bits 8 (bit_xor c x)) xs v (omega arith)

module _ (buf : List ℕ) (len i v : ℕ) (h : Header) (payload : List ℕ) (bytes : IsBytes buf)
    (long : len ≤ length buf) (ok : IsAccepted buf len h payload) (is_byte : v < 256)
    (covered : IsCovered h.payload_len i) (differs : v ≢ byte_at buf i) where
  after : List ℕ
  after = set buf i v

  same_byte : (j : ℕ) → i ≢ j → byte_at after j ≡ byte_at buf j
  unfolding after
  same_byte j ne = get_or-set_ne buf i j v 0 ne

  magic_same : rd16 after 0 ≡ rd16 buf 0
  unfolding rd16
  magic_same = rw (same_byte 0 (omega arith), same_byte 1 (omega arith))

  len_same : rd16 after 6 ≡ rd16 buf 6
  unfolding rd16
  len_same = rw (same_byte 6 (omega arith), same_byte 7 (omega arith))

  valid_same : header_valid (some (read_header after)) ≡ header_valid (some (read_header buf))
  unfolding read_header header_valid
  valid_same = rw (magic_same, same_byte 2 (omega arith), same_byte 5 (omega arith))

  fields_same :
      ((read_header after).payload_len ≡ (read_header buf).payload_len)
      × ((read_header after).crc ≡ (read_header buf).crc)
  unfolding read_header
  fields_same = (len_same, same_byte 16 (omega arith))

  prefix_small : (xs : List ℕ) → IsBytes xs → crc8_update 0 xs 16 < 256
  prefix_small xs b = crc8_update-lt 0 xs 16 (omega arith) b

  -- A change in the payload.
  payload_crc :
      17 ≤ i
      → i < 17 + h.payload_len
      → crc8_update (crc8_update 0 after 16) (drop header_size after) h.payload_len
        ≡ crc8_update (crc8_update 0 buf 16) (drop header_size buf) h.payload_len
      → ⊥
  unfolding after
  payload_crc low high e =
      let at : 17 + (i - 17) ≡ i = omega arith in
      let moved : drop 17 (set buf i v) ≡ set (drop 17 buf) (i - 17) v =
        ap (λ k. drop 17 (set buf k v)) (sym at) ∙ set-drop 17 (i - 17) buf v in
      let same : crc8_update 0 (set buf i v) 16 ≡ crc8_update 0 buf 16 =
        crc-set_after 16 i 0 buf v (omega arith) in
      let e' : crc8_update (crc8_update 0 buf 16) (set (drop 17 buf) (i - 17) v) h.payload_len
          ≡ crc8_update (crc8_update 0 buf 16) (drop 17 buf) h.payload_len =
        sym (ap₂ (λ c xs. crc8_update c xs h.payload_len) same moved) ∙ e in
      differs (
        crc8_update-set (drop 17 buf) h.payload_len (i - 17) (crc8_update 0 buf 16) v
          (IsBytes-drop 17 buf bytes) (prefix_small buf bytes) is_byte (omega arith)
          (omega (arith, length-drop 17 buf, ok.long_enough)) e'
        ∙ get_or-drop 17 (i - 17) buf 0
        ∙ ap (byte_at buf) at)

  -- A change in the header.
  header_crc :
      i < 16
      → crc8_update (crc8_update 0 after 16) (drop header_size after) h.payload_len
        ≡ crc8_update (crc8_update 0 buf 16) (drop header_size buf) h.payload_len
      → ⊥
  unfolding after
  header_crc low e =
      let rest : drop 17 (set buf i v) ≡ drop 17 buf = drop-set_before 17 i buf v (omega arith) in
      let starts : crc8_update 0 (set buf i v) 16 ≡ crc8_update 0 buf 16 =
        crc8_update_injective (drop 17 buf) h.payload_len (crc8_update 0 (set buf i v) 16)
          (crc8_update 0 buf 16) (IsBytes-drop 17 buf bytes)
          (prefix_small (set buf i v) (IsBytes-set buf i v bytes is_byte)) (prefix_small buf bytes)
          (sym (ap (λ xs. crc8_update (crc8_update 0 (set buf i v) 16) xs h.payload_len) rest)
            ∙ e) in
      differs (
        crc8_update-set buf 16 i 0 v bytes (omega arith) is_byte low (omega (arith, ok.long_enough))
          starts)

  crc_differs :
      crc8_update (crc8_update 0 after 16) (drop header_size after) h.payload_len
        ≡ crc8_update (crc8_update 0 buf 16) (drop header_size buf) h.payload_len
      → ⊥
  crc_differs e = elim covered [
    | inl p ↦ header_crc (omega arith) e
    | inr (inl p) ↦ header_crc (omega arith) e
    | inr (inr (inl p)) ↦ header_crc p.1 e
    | inr (inr (inr p)) ↦ payload_crc p.0 p.1 e
  ]

  decode-after : decode (some after) len ≡ refused corrupt
  decode-after =
      let read : (read_header after).payload_len ≡ h.payload_len =
        fields_same.0 ∙ ap (λ g. g.payload_len) (sym ok.is_read) in
      decode_of_header after len (read_header after) (
        decode_header_ok after len (omega (arith, ok.long_enough))
          (valid_same ∙ rw (← ok.is_read) ok.is_valid))
      ∙ check_frame_corrupt after len (read_header after) (omega (arith, ok.long_enough, read))
          (λ e. crc_differs (
            rw (← read) (
              sym e
              ∙ fields_same.1
              ∙ ap (λ g. g.crc) (sym ok.is_read)
              ∙ ok.same_crc
              ∙ ap (crc8_update (crc8_update 0 buf 16) (drop header_size buf)) (sym read))))

-- In an accepted datagram of bytes, replace one byte of the flags, the stream, the sequence number,
-- the timestamp or the payload by another byte: the result is refused as corrupt.
pub decode-set_corrupt :
    (buf : List ℕ) (len i v : ℕ) (h : Header) (payload : List ℕ)
    → IsBytes buf
    → len ≤ length buf
    → decode (some buf) len ≡ accepted h payload
    → v < 256
    → IsCovered h.payload_len i
    → v ≢ byte_at buf i
    → decode (some (set buf i v)) len ≡ refused corrupt
unfolding after
decode-set_corrupt buf len i v h payload bytes long ok is_byte covered differs =
    decode-after buf len i v h payload bytes long (decode-IsAccepted buf len h payload ok) is_byte
      covered differs
