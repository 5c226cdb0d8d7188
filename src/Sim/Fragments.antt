-- ===== src/Sim/Fragments.antt =====
-- tools/vmc_sim/main.c: the datagrams that carry the fragments of an access unit.
use remote_avapps.Base.{
  ℕ, zero, suc, ◌+◌, ◌-◌, ◌<◌, ◌≤◌, ◌≡◌, refl, arith, sym, ap, ap₂, lt→ltb, ◌∙◌, leb, min, u16, u32,
  Bool, true, false, List, [], ◌∷◌, ◌++◌, length, take, drop, replicate, some, length-append,
  length-take, length-drop, take-append,
}
use remote_avapps.Base.Bits.{bit_or_fields}
use remote_avapps.Base.Blocks.{store, length-store, store-store, drop-store}
use remote_avapps.Protocol.{Header, header_size, encode, written, header_valid}
use remote_avapps.Protocol.Encoding.{frame, length-frame, encode-prefix, encode_lem}
use remote_avapps.Fragment.{hdr_pack}
use remote_avapps.Fragment.Header.{wire_index}
use remote_avapps.Sim.Send.{
  chunk_size, packet_cap, key_flag, video_header, emit, fh_idx, put_fragment, send_fragment,
  send_fragments,
}

-- The payload of a fragment.
abbrev pub fragment : ℕ → ℕ → Bool → List ℕ → List ℕ
fragment f i last c = hdr_pack (replicate 4 0) f (wire_index i last) ++ c

-- The header of its datagram.
abbrev pub fragment_header : Bool → ℕ → ℕ → List ℕ → Header
fragment_header key ts seq c = video_header (4 + key_flag key) (4 + length c) seq ts

-- The chunks of an access unit.
abbrev pub chunks : ℕ → List ℕ → List (List ℕ)
chunks zero au = []
chunks (suc fuel) [] = []
chunks (suc fuel) (x ∷ xs) =
    let cl = min (length (x ∷ xs)) chunk_size in take cl (x ∷ xs) ∷ chunks fuel (drop cl (x ∷ xs))

-- The datagrams of the chunks from index `i` on.
abbrev pub datagrams : Bool → ℕ → ℕ → ℕ → ℕ → List (List ℕ) → List (List ℕ)
datagrams key ts f seq i [] = []
datagrams key ts f seq i (c ∷ []) = frame (fragment_header key ts seq c) (fragment f i true c) ∷ []
datagrams key ts f seq i (c ∷ d ∷ cs) =
    frame (fragment_header key ts seq c) (fragment f i false c)
    ∷ datagrams key ts f (u32 (seq + 1)) (i + 1) (d ∷ cs)

length-hdr_pack : (f w : ℕ) → length (hdr_pack (replicate 4 0) f w) ≡ 4
unfolding hdr_pack
length-hdr_pack f w = refl

pub length-fragment :
    (f i : ℕ) (last : Bool) (c : List ℕ) → length (fragment f i last c) ≡ 4 + length c
length-fragment f i last c = omega (
  arith,
  length-append (hdr_pack (replicate 4 0) f (wire_index i last)) c,
  length-hdr_pack f (wire_index i last),
)

fh_idx_lem : (i : ℕ) (last : Bool) → i < 32768 → fh_idx i last ≡ wire_index i last
unfolding fh_idx
fh_idx_lem i true h = omega (arith, bit_or_fields 15 1 i h)
fh_idx_lem i false h = omega arith

-- The packet buffer from the payload on.
put_fragment_lem :
    (pkt : List ℕ) (f i : ℕ) (last : Bool) (c : List ℕ)
    → length pkt ≡ packet_cap
    → length c ≤ chunk_size
    → i < 32768
    → (rest : List ℕ) × (drop header_size (put_fragment pkt f i last c)
        ≡ fragment f i last c ++ rest)
      × (length (put_fragment pkt f i last c) ≡ packet_cap)
unfolding put_fragment
put_fragment_lem pkt f i last c size small low =
    let hdr = hdr_pack (replicate 4 0) f (fh_idx i last) in
    let both : store (store pkt header_size hdr) (header_size + 4) c
        ≡ store pkt header_size (hdr ++ c) =
      ap (λ k. store (store pkt header_size hdr) (header_size + k) c)
        (sym (length-hdr_pack f (fh_idx i last)))
      ∙ store-store pkt header_size hdr c in
    let whole : hdr ++ c ≡ fragment f i last c =
      ap (λ w. hdr_pack (replicate 4 0) f w ++ c) (fh_idx_lem i last low) in
    (
      drop (header_size + length (fragment f i last c)) pkt,
      ap (drop header_size) (both ∙ ap (store pkt header_size) whole)
          ∙ drop-store pkt header_size (fragment f i last c)
              (omega (arith, length-fragment f i last c)),
      length-store (store pkt header_size hdr) (header_size + 4) c
          ∙ length-store pkt header_size hdr
          ∙ size,
    )

emit_lem :
    (fr rest pkt : List ℕ) (n : ℕ)
    → length fr ≡ n
    → 0 < n
    → emit (written n (fr ++ rest)) false pkt ≡ (fr ∷ [], fr ++ rest)
unfolding emit
emit_lem fr rest pkt n e h =
    rw (lt→ltb 0 n h, ← e) (ap (λ t. (t ∷ [], fr ++ rest)) (take-append fr rest))

pub send_fragment_lem :
    (pkt : List ℕ) (key : Bool) (ts seq f i : ℕ) (last : Bool) (c : List ℕ)
    → length pkt ≡ packet_cap
    → length c ≤ chunk_size
    → i < 32768
    → (out : List ℕ) × (length out ≡ packet_cap)
      × (send_fragment pkt key ts seq f i last c false
          ≡ (frame (fragment_header key ts seq c) (fragment f i last c) ∷ [], out))
unfolding send_fragment header_valid
send_fragment_lem pkt key ts seq f i last c size small low =
    let (rest, payload, size') = put_fragment_lem pkt f i last c size small low in
    let pkt' = put_fragment pkt f i last c in
    let h = fragment_header key ts seq c in
    let p = fragment f i last c in
    let long : u16 (4 + length c) ≡ 4 + length c = omega arith in
    let more = drop (header_size + (4 + length c)) pkt' in
    let sized : length (frame h p) ≡ header_size + (4 + length c) =
      omega (arith, length-frame h p, length-fragment f i last c) in
    let encoded : encode (some pkt') packet_cap (some h) (some (drop header_size pkt'))
        ≡ written (header_size + (4 + length c)) (frame h p ++ more) =
      ap (λ q. encode (some pkt') packet_cap (some h) (some q)) payload
      ∙ encode-prefix pkt' packet_cap h p rest (length-fragment f i last c)
      ∙ encode_lem pkt' packet_cap h (some p) p refl refl (length-fragment f i last c) (omega arith)
          (omega arith) in
    (
      frame h p ++ more,
      omega (
        arith,
        length-append (frame h p) more,
        sized,
        length-drop (header_size + (4 + length c)) pkt',
        size',
      ),
      rw long (
          ap (λ e. emit e false pkt') encoded
          ∙ emit_lem (frame h p) more pkt' (header_size + (4 + length c)) sized (omega arith)),
    )

abbrev is_nil : List (List ℕ) → Bool
is_nil [] = true
is_nil (c ∷ cs) = false

chunks-is_nil :
    (fuel : ℕ) (au : List ℕ) → length au ≤ fuel → is_nil (chunks fuel au) ≡ leb (length au) 0
chunks-is_nil zero [] h = refl
chunks-is_nil zero (x ∷ xs) h = absurd (omega arith)
chunks-is_nil (suc fuel) [] h = refl
chunks-is_nil (suc fuel) (x ∷ xs) h = ground arith

-- The first datagram, before those of the chunks that follow.
datagrams_next :
    (key : Bool) (ts f seq i k : ℕ) (last : Bool) (c : List ℕ) (cs : List (List ℕ))
    → last ≡ is_nil cs
    → k ≡ i + 1
    → frame (fragment_header key ts seq c) (fragment f i last c)
        ∷ datagrams key ts f (u32 (seq + 1)) k cs
      ≡ datagrams key ts f seq i (c ∷ cs)
datagrams_next key ts f seq i k last c [] e n =
    ap (λ l. frame (fragment_header key ts seq c) (fragment f i l c) ∷ []) e
datagrams_next key ts f seq i k last c (d ∷ ds) e n =
    ap₂
      (λ l j.
        frame (fragment_header key ts seq c) (fragment f i l c)
        ∷ datagrams key ts f (u32 (seq + 1)) j (d ∷ ds))
      e n

-- Without a drop the loop over the fragments sends the datagrams of the chunks.
pub send_fragments_lem :
    (fuel : ℕ) (pkt : List ℕ) (key : Bool) (ts seq f i : ℕ) (au : List ℕ) (n : ℕ)
    → length pkt ≡ packet_cap
    → length au ≤ fuel
    → i + length (chunks fuel au) ≤ 32768
    → (send_fragments fuel pkt key ts seq f i au (λ k. false) n).0
      ≡ datagrams key ts f seq i (chunks fuel au)
unfolding send_fragments
send_fragments_lem zero pkt key ts seq f i [] n size h few = refl
send_fragments_lem zero pkt key ts seq f i (x ∷ xs) n size h few = absurd (omega arith)
send_fragments_lem (suc fuel) pkt key ts seq f i [] n size h few = refl
send_fragments_lem (suc fuel) pkt key ts seq f i (x ∷ xs) n size h few =
    let au = x ∷ xs in
    let cl = min (length au) chunk_size in
    let last = leb (length au) cl in
    let left : length (drop cl au) ≡ length au - cl = length-drop cl au in
    let (out, size', one) =
      send_fragment_lem pkt key ts seq f i last (take cl au) size (omega (arith, length-take cl au))
        (omega arith) in
    let next : u16 (i + 1) ≡ i + 1 = omega arith in
    let more =
      send_fragments_lem fuel out key ts (u32 (seq + 1)) f (u16 (i + 1)) (drop cl au) (n + 1) size'
        (omega arith) (omega arith) in
    let ends : last ≡ is_nil (chunks fuel (drop cl au)) =
      ground (arith, left) ∙ sym (chunks-is_nil fuel (drop cl au) (omega arith)) in
    ap
      (λ (r : List (List ℕ) × List ℕ).
        r.0
        ++ (send_fragments fuel r.1 key ts (u32 (seq + 1)) f (u16 (i + 1)) (drop cl au) (λ k. false)
            (n + 1)).0)
      one
    ∙ ap (λ m. frame (fragment_header key ts seq (take cl au)) (fragment f i last (take cl au)) ∷ m)
        more
    ∙ datagrams_next key ts f seq i (u16 (i + 1)) last (take cl au) (chunks fuel (drop cl au)) ends
        next
