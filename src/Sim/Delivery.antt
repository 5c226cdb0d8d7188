-- ===== src/Sim/Delivery.antt =====
-- tools/vmc_sim/main.c to apps/thinclient/main.c: an access unit that the simulator sends is what
-- the client puts together.
use remote_avapps.Base.{
  ℕ, zero, suc, ◌+◌, ◌*◌, ◌%◌, ◌<◌, ◌≤◌, ◌≡◌, ◌≢◌, ◌⊎◌, refl, arith, sym, ap, ap₂, ◌∙◌, leb, lt→ltb,
  min, u16, u32, Bool, true, false, List, [], ◌∷◌, ◌++◌, length, take, drop, replicate, some,
  append-nil, append_assoc, length-take, length-drop, take_all, take-append-drop, bit_and,
}
use mathlib.Core.Path.{subst}
use remote_avapps.Base.Bits.{bit_and_mask}
use remote_avapps.Base.Blocks.{store-append}
use remote_avapps.Status.{Status, ok}
use remote_avapps.Protocol.{Header, Decoded, accepted, refused, decode, header_valid}
use remote_avapps.Protocol.Encoding.{frame, length-frame, FitsWidths}
use remote_avapps.Protocol.RoundTrip.{stamped, decode-frame}
use remote_avapps.Jitter.{payload_cap, zero_slot, fill, fill_payload, Slot}
use remote_avapps.Fragment.{Assembler, feed, hdr_pack}
use remote_avapps.Fragment.Header.{wire_index}
use remote_avapps.Fragment.Refine.{IsValid}
use remote_avapps.Fragment.Assembly.{deliver, joined, deliver-joined}
use remote_avapps.Client.Receive.{packet}
use remote_avapps.Client.Play.{feed_payload}
use remote_avapps.Client.Play.Deliver.{feed_payload-fragment}
use remote_avapps.Sim.Send.{SimCtx, chunk_size, packet_cap, send_au}
use remote_avapps.Sim.Fragments.{
  fragment, fragment_header, chunks, datagrams, length-fragment, send_fragments_lem,
}

-- Every chunk fits a datagram.
abbrev AtMost : List (List ℕ) → Type 0
AtMost [] = Unit {0}
AtMost (c ∷ cs) = (length c ≤ chunk_size) × AtMost cs

-- A slot of the jitter buffer with what came in a datagram.
abbrev pub arrived : Header → List ℕ → Slot
arrived h payload = fill (packet h payload 0) zero_slot

-- The way of a datagram: it is decoded, stored in a slot of the jitter buffer, and the payload of
-- the slot is fed to the assembler.
abbrev pub receive : Assembler → List ℕ → Status × Assembler × ℕ
receive a d = elim (decode (some d) (length d)) [
  | refused st ↦ (st, a, 0)
  | accepted h payload ↦ feed_payload a (arrived h payload).storage (arrived h payload).len
]

-- Datagrams in order; the answer is that of the last one.
abbrev pub receive_all : Assembler → List (List ℕ) → Status × Assembler × ℕ
receive_all a [] = (ok, a, 0)
receive_all a (d ∷ []) = receive a d
receive_all a (d ∷ e ∷ ds) = let (st, a', n) = receive a d in receive_all a' (e ∷ ds)

-- The slot holds a payload that fits it, and behind it what it held before.
fill_lem :
    (h : Header) (p : List ℕ) (s : Slot)
    → length p ≡ h.payload_len
    → 0 < length p
    → length p < payload_cap
    → length p ≤ length s.storage
    → ((fill (packet h p 0) s).storage ≡ p ++ drop (length p) s.storage)
      × ((fill (packet h p 0) s).len ≡ length p)
unfolding fill fill_payload
fill_lem h p s e some_bytes fits room =
    rw (← e, lt→ltb 0 (length p) some_bytes, lt→ltb (length p) payload_cap fits, take_all p)
      (store-append [] s.storage p room, omega arith)

header_fits :
    (key : Bool) (ts seq : ℕ) (c : List ℕ)
    → ts < 4294967296
    → seq < 4294967296
    → length c ≤ chunk_size
    → FitsWidths (fragment_header key ts seq c)
header_fits true ts seq c ht hs small = omega arith
header_fits false ts seq c ht hs small = omega arith

-- The datagram of a fragment feeds its chunk.
receive-fragment :
    (a : Assembler) (key : Bool) (ts seq f i : ℕ) (last : Bool) (c : List ℕ)
    → ts < 4294967296
    → seq < 4294967296
    → f < 65536
    → i < 32768
    → length c ≤ chunk_size
    → receive a (frame (fragment_header key ts seq c) (fragment f i last c))
      ≡ feed a f i last (some c) (length c)
unfolding header_valid
receive-fragment a key ts seq f i last c ht hs hf hi small =
    let h = fragment_header key ts seq c in
    let p = fragment f i last c in
    let size = length-fragment f i last c in
    let read : decode (some (frame h p)) (length (frame h p)) ≡ accepted (stamped h p) p =
      ap (λ b. decode (some b) (length (frame h p))) (sym (append-nil (frame h p)))
      ∙ decode-frame h p [] (length (frame h p)) (header_fits key ts seq c ht hs small) refl size
          (omega (arith, length-frame h p, size))
      ∙ ap (accepted (stamped h p)) (append-nil p) in
    let (bytes, len) =
      fill_lem (stamped h p) p zero_slot size (omega (arith, size)) (omega (arith, size))
        (omega (arith, size)) in
    let behind = drop (length p) zero_slot.storage in
    ap
      (λ (r : Decoded). elim r as (λ r. Status × Assembler × ℕ) [
        | refused st ↦ (st, a, 0)
        | accepted g q ↦ feed_payload a (arrived g q).storage (arrived g q).len
      ])
      read
    ∙ ap₂ (feed_payload a)
        (bytes ∙ append_assoc (hdr_pack (replicate 4 0) f (wire_index i last)) c behind)
        (len ∙ size)
    ∙ feed_payload-fragment a f i last c behind hf hi

datagrams_cons :
    (key : Bool) (ts f seq i : ℕ) (d : List ℕ) (cs : List (List ℕ))
    → (y : List ℕ) × (ys : List (List ℕ)) × (datagrams key ts f seq i (d ∷ cs) ≡ y ∷ ys)
datagrams_cons key ts f seq i d [] = (_, _, refl)
datagrams_cons key ts f seq i d (e ∷ cs) = (_, _, refl)

receive_all_next :
    (a : Assembler) (x : List ℕ) (l : List (List ℕ)) (y : List ℕ) (ys : List (List ℕ))
    → l ≡ y ∷ ys
    → receive_all a (x ∷ l) ≡ receive_all (receive a x).1 l
receive_all_next a x l y ys e = rw e refl

-- The datagrams of the chunks feed the chunks.
receive_all_lem :
    (a : Assembler) (key : Bool) (ts seq f i : ℕ) (cs : List (List ℕ))
    → ts < 4294967296
    → seq < 4294967296
    → f < 65536
    → i + length cs ≤ 32768
    → AtMost cs
    → receive_all a (datagrams key ts f seq i cs) ≡ deliver a f i cs
receive_all_lem a key ts seq f i [] ht hs hf few small = refl
receive_all_lem a key ts seq f i (c ∷ []) ht hs hf few (fits, _) =
    receive-fragment a key ts seq f i true c ht hs hf (omega arith) fits
receive_all_lem a key ts seq f i (c ∷ d ∷ cs) ht hs hf few (fits, more) =
    let (y, ys, e) = datagrams_cons key ts f (u32 (seq + 1)) (i + 1) d cs in
    let rest = datagrams key ts f (u32 (seq + 1)) (i + 1) (d ∷ cs) in
    receive_all_next a (frame (fragment_header key ts seq c) (fragment f i false c)) rest y ys e
    ∙ ap (λ (r : Status × Assembler × ℕ). receive_all r.1 rest)
        (receive-fragment a key ts seq f i false c ht hs hf (omega arith) fits)
    ∙ receive_all_lem (feed a f i false (some c) (length c)).1 key ts (u32 (seq + 1)) f (i + 1)
        (d ∷ cs) ht (omega arith) hf (omega arith) more

-- The chunks are the access unit, each of them fits a datagram, and there are as many as its length
-- needs.
chunks_lem :
    (fuel : ℕ) (au : List ℕ)
    → length au ≤ fuel
    → (joined (chunks fuel au) ≡ au)
      × AtMost (chunks fuel au)
      × (length (chunks fuel au) * chunk_size < length au + chunk_size)
chunks_lem zero [] h = (refl, tt, omega arith)
chunks_lem zero (x ∷ xs) h = absurd (omega arith)
chunks_lem (suc fuel) [] h = (refl, tt, omega arith)
chunks_lem (suc fuel) (x ∷ xs) h =
    let cl = min (length (x ∷ xs)) chunk_size in
    let left = length-drop cl (x ∷ xs) in
    let (all, fit, few) = chunks_lem fuel (drop cl (x ∷ xs)) (omega (arith, left)) in
    (
      ap (λ l. take cl (x ∷ xs) ++ l) all ∙ take-append-drop cl (x ∷ xs),
      (omega (arith, length-take cl (x ∷ xs)), fit),
      omega (arith, few, left),
    )

leb_above : (a b : ℕ) → b < a → leb a b ≡ false
leb_above a b h = ground arith

-- Without a drop a long access unit goes out as the datagrams of its chunks.
sent_lem :
    (c : SimCtx) (pkt au : List ℕ) (key : Bool) (ts : ℕ)
    → c.have_client ≡ true
    → length pkt ≡ packet_cap
    → chunk_size < length au
    → length (chunks (length au) au) ≤ 32768
    → (send_au c pkt au key ts (λ k. false)).0
      ≡ datagrams key ts (c.video_seq % 65536) c.video_seq 0 (chunks (length au) au)
unfolding send_au
sent_lem c pkt au key ts client size long few =
    let frame_id : u16 (bit_and c.video_seq 0xffff) ≡ c.video_seq % 65536 =
      ground (arith, bit_and_mask 16 c.video_seq) in
    rw (client, leb_above (length au) chunk_size long)
      (send_fragments_lem (length au) pkt key ts c.video_seq (u16 (bit_and c.video_seq 0xffff)) 0 au
          0 size (omega arith) (omega (arith, few))
        ∙ ap (λ f. datagrams key ts f c.video_seq 0 (chunks (length au) au)) frame_id)

-- A list of datagrams completes an access unit.
abbrev Completes : List ℕ → Status × Assembler × ℕ → Type 0
Completes au (st, a', n) =
    (st ≡ ok) × (n ≡ length au) × (take n a'.buf ≡ au) × (a'.started ≡ false) × IsValid a'

delivered :
    (a : Assembler) (f : ℕ) (au : List ℕ)
    → 0 < length au
    → length au ≤ a.cap
    → length (chunks (length au) au) ≤ 32768
    → IsValid a
    → (a.started ≡ false) ⊎ (a.frame_id ≢ f)
    → Completes au (deliver a f 0 (chunks (length au) au))
delivered a f [] some_bytes room few v ready = absurd (omega arith)
delivered a f (x ∷ xs) some_bytes room few v ready =
    let au = x ∷ xs in
    let cl = min (length au) chunk_size in
    let (all, fit, count) = chunks_lem (length au) au (omega arith) in
    let (st, n, bytes, stopped, v') =
      deliver-joined a f (take cl au) (chunks (length xs) (drop cl au)) v ready (omega (arith, few))
        (rw all room) in
    (st, n ∙ ap length all, bytes ∙ all, stopped, v')

-- The simulator has a client, a whole packet buffer, and an access unit that is longer than a
-- datagram; the client's assembler is valid, has the room, and is not in the middle of a frame of
-- this number. No datagram is dropped, and the number and the time are 32-bit. Then the datagrams
-- that `send_au` sends, received in order, complete the access unit: the last one returns its length,
-- the buffer starts with its bytes, and the assembler is ready for another frame.
pub send_au-delivered :
    (c : SimCtx) (pkt au : List ℕ) (key : Bool) (ts : ℕ) (a : Assembler)
    → c.have_client ≡ true
    → length pkt ≡ packet_cap
    → chunk_size < length au
    → length au ≤ a.cap
    → c.video_seq < 4294967296
    → ts < 4294967296
    → IsValid a
    → (a.started ≡ false) ⊎ (a.frame_id ≢ c.video_seq % 65536)
    → let (st, a', n) = receive_all a (send_au c pkt au key ts (λ k. false)).0 in
      (st ≡ ok) × (n ≡ length au) × (take n a'.buf ≡ au) × (a'.started ≡ false) × IsValid a'
send_au-delivered c pkt au key ts a client size long room hs ht v ready =
    let f = c.video_seq % 65536 in
    let (all, fit, count) = chunks_lem (length au) au (omega arith) in
    let few : length (chunks (length au) au) ≤ 32768 = omega (arith, v.cap_small) in
    let whole : receive_all a (send_au c pkt au key ts (λ k. false)).0
        ≡ deliver a f 0 (chunks (length au) au) =
      ap (receive_all a) (sent_lem c pkt au key ts client size long few)
      ∙ receive_all_lem a key ts c.video_seq f 0 (chunks (length au) au) ht hs (omega arith)
          (omega (arith, few)) fit in
    subst (Completes au) (sym whole) (delivered a f au (omega arith) room few v ready)
