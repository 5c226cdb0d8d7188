-- ===== src/Client/Uplink/Sent.antt =====
-- apps/thinclient/main.c: the datagram of a batch of input events, as the server reads it.
use remote_avapps.Base.{
  Option, ℕ, ◌+◌, ◌*◌, ◌<◌, ◌≤◌, ◌≡◌, ◌∙◌, inl, inr, refl, sym, ap, arith, ltb, u32, sub64, true,
  List, [], ◌++◌, length, take, drop, take-append, take-append-drop, append-nil, length-take,
  length-drop, some,
}
use mathlib.Core.Path.{subst}
use remote_avapps.Status.{ok}
use remote_avapps.Protocol.{Header, header_size, header_valid, decode, accepted}
use remote_avapps.Protocol.Encoding.{FitsWidths, frame, length-frame, encode_lem, encode-prefix}
use remote_avapps.Protocol.RoundTrip.{stamped, decode-frame}
use remote_avapps.Batch.{InputEvent, Batch, event_size, max_events, serialize, deserialize}
use remote_avapps.Batch
use remote_avapps.Batch.Push.{IsValid, live}
use remote_avapps.Batch.RoundTrip.{deserialize-serialize}
use remote_avapps.Batch.Prefix.{length-serialize, deserialize-take}
use remote_avapps.Client.Uplink.{
  Uplink, batch_pkt_cap, batch_header, framed, collect, flush_input, input_flush_ms, stream_input,
}
use remote_avapps.Client.Uplink.Flush.{AllFit, flush_input_lem}

-- What is sent decodes to a header of the input stream with this number, and its payload
-- deserializes to these events, in front of what the batch held behind them.
abbrev pub Carried : Option (List ℕ) → ℕ → List InputEvent → Batch → Type 0
Carried sent seq evs into =
    (d : List ℕ) × (h : Header) × (p : List ℕ) × (sent ≡ some d)
    × (decode (some d) (length d) ≡ accepted h p)
    × (h.stream ≡ stream_input)
    × (h.seq ≡ seq)
    × (deserialize (some p) h.payload_len into
        ≡ (ok, record { events = evs ++ drop (length evs) into.events; count = length evs }))

batch_header_valid :
    (count seq now_ms : ℕ) → header_valid (some (batch_header count seq now_ms)) ≡ true
unfolding header_valid
batch_header_valid count seq now_ms = refl

batch_header_fits :
    (count seq now_ms : ℕ) → seq < 4294967296 → FitsWidths (batch_header count seq now_ms)
batch_header_fits count seq now_ms h = record {
  magic_16 = omega arith;
  version_8 = omega arith;
  flags_8 = omega arith;
  stream_8 = omega arith;
  reserved_8 = omega arith;
  payload_len_16 = omega arith;
  seq_32 = h;
  ts_us_32 = omega arith;
}

framed_payload :
    (batch_pkt : List ℕ) (h : Header) (p rest : List ℕ)
    → header_valid (some h) ≡ true
    → length p ≡ h.payload_len
    → header_size + h.payload_len ≤ batch_pkt_cap
    → batch_pkt_cap ≤ length batch_pkt
    → 0 < length p
    → framed (Batch.written (length p) (p ++ rest)) batch_pkt h ≡ some (frame h p)
framed_payload batch_pkt h p rest valid e room fits some_bytes =
    let first : ltb 0 (length p) ≡ true = ground arith in
    let second : ltb 0 (header_size + h.payload_len) ≡ true = ground arith in
    let size : header_size + h.payload_len ≡ length (frame h p) =
      omega (arith, length-frame h p, e) in
    rw
      (
        first,
        encode-prefix batch_pkt batch_pkt_cap h p rest e,
        encode_lem batch_pkt batch_pkt_cap h (some p) p valid refl e room fits,
        second,
      )
      (ap some (
        ap (λ n. take n (frame h p ++ drop (header_size + h.payload_len) batch_pkt)) size
        ∙ take-append (frame h p) _))

-- The datagram of a valid batch carries its events.
framed-Carried :
    (b : Batch) (out batch_pkt : List ℕ) (seq now_ms : ℕ) (into : Batch)
    → IsValid b
    → 0 < b.count
    → 65535 ≤ length out
    → batch_pkt_cap ≤ length batch_pkt
    → length into.events ≡ max_events
    → Carried
        (framed (serialize b (some out) 65535) batch_pkt (batch_header b.count (u32 seq) now_ms))
        (u32 seq)
        (live b)
        into
framed-Carried b out batch_pkt seq now_ms into v some_events fits room array =
    let n = 2 + b.count * event_size in
    let h = batch_header b.count (u32 seq) now_ms in
    let (bytes, wrote, read) =
      deserialize-serialize b out 65535 into v (omega (arith, v.count_in)) fits array in
    let p = take n bytes in
    let whole : length bytes ≡ length out = length-serialize b out 65535 n bytes wrote in
    let size : length p ≡ n = omega (arith, length-take n bytes, whole, fits, v.count_in) in
    let told : h.payload_len ≡ n = omega (arith, v.count_in) in
    let held : length (live b) ≡ b.count =
      omega (arith, length-take b.count b.events, v.count_in, v.array) in
    let sent : framed (Batch.written n bytes) batch_pkt h ≡ some (frame h p) =
      ap (λ m. framed (Batch.written m bytes) batch_pkt h) (sym size)
      ∙ ap (λ t. framed (Batch.written (length p) t) batch_pkt h) (sym (take-append-drop n bytes))
      ∙ framed_payload batch_pkt h p (drop n bytes) (batch_header_valid b.count (u32 seq) now_ms)
          (size ∙ sym told) (omega (arith, told, v.count_in)) room (omega (arith, size)) in
    (
      frame h p,
      stamped h p,
      p,
      ap (λ s. framed s batch_pkt h) wrote ∙ sent,
      ap (λ t. decode (some t) (length (frame h p))) (sym (append-nil (frame h p)))
          ∙ decode-frame h p [] (length (frame h p))
              (batch_header_fits b.count (u32 seq) now_ms (omega arith))
              (batch_header_valid b.count (u32 seq) now_ms) (size ∙ sym told)
              (omega (arith, length-frame h p, size, told))
          ∙ ap (accepted (stamped h p)) (append-nil p),
      refl,
      refl,
      ap (λ m. deserialize (some p) m into) told
          ∙ deserialize-take bytes n into
          ∙ read
          ∙ ap (λ m. (ok, record { events = live b ++ drop m into.events; count = m })) (sym held),
    )

-- The time to flush has come, and there are events, which fit their widths. Then the turn sends a
-- datagram which the protocol decodes to a header of the input stream with the low 32 bits of the
-- counter as its number; its payload deserializes to the first 32 of the events, in their order. The
-- buffers have their sizes.
pub flush_input-deserialize :
    (u : Uplink) (pkt batch_pkt : List ℕ) (scratch into : Batch) (evs : List InputEvent)
    (now_ms : ℕ)
    → length scratch.events ≡ max_events
    → length into.events ≡ max_events
    → 65552 ≤ length pkt
    → batch_pkt_cap ≤ length batch_pkt
    → AllFit evs
    → 0 < length evs
    → input_flush_ms ≤ sub64 now_ms u.last_input_flush_ms
    → Carried (flush_input u pkt batch_pkt scratch evs now_ms).0 (u32 u.tx_seq) (take 32 evs) into
flush_input-deserialize u pkt batch_pkt scratch into evs now_ms slots array big room fit some_events
      due =
    let b = (collect evs (Batch.reset scratch)).0 in
    let (gone, v, held, outcome) = flush_input_lem u pkt batch_pkt scratch evs now_ms slots fit in
    let count : b.count ≡ length (take 32 evs) =
      omega (arith, ap length held, length-take b.count b.events, v.count_in, v.array) in
    let held_some : 0 < b.count = omega (arith, count, length-take 32 evs, some_events) in
    let out_size : 65535 ≤ length (drop header_size pkt) =
      omega (arith, length-drop header_size pkt, big) in
    let carried : Carried
        (framed (serialize b (some (drop header_size pkt)) 65535) batch_pkt
          (batch_header b.count (u32 u.tx_seq) now_ms))
        (u32 u.tx_seq) (take 32 evs) into =
      subst
        (λ l.
          Carried
            (framed (serialize b (some (drop header_size pkt)) 65535) batch_pkt
              (batch_header b.count (u32 u.tx_seq) now_ms))
            (u32 u.tx_seq) l into)
        held
        (framed-Carried b (drop header_size pkt) batch_pkt u.tx_seq now_ms into v held_some out_size
          room array) in
    elim outcome [
      | inl (early, nothing, kept) ↦ absurd (omega (arith, early, due))
      | inr (late, o) ↦ elim o [
        | inl (none_held, nothing, kept) ↦ absurd (omega (arith, none_held, held_some))
        | inr (more, last, e) ↦
            subst (λ s. Carried s (u32 u.tx_seq) (take 32 evs) into) (sym e) carried
      ]
    ]
