-- ===== src/Telemetry/Tests.antt =====
-- Runs of the telemetry ring, and its theorems at concrete inputs.
use remote_avapps.Base.{
  length-replicate, ℕ, zero, suc, ◌+◌, ◌%◌, ◌<◌, ◌≡◌, refl, arith, ap, ◌∙◌, u32, u64, true, List,
  [], ◌∷◌, ◌++◌, length, get_or, replicate, some,
}
use remote_avapps.Protocol.{decode, accepted}
use remote_avapps.Protocol.RoundTrip.{stamped}
use remote_avapps.Telemetry.{
  Telemetry, TlmSlot, empty, filled, ring_slots, slot_cap, no_line, slot_at, put_line, drain,
  drain_all, sink_datagram,
}
use remote_avapps.Telemetry.Lines.{Waiting, contents, put_line-contents, drain-contents}
use remote_avapps.Telemetry.Stall.{put_all, drain-overflow}
use remote_avapps.Telemetry.Datagram.{line_header, decode-sink_datagram}

get_or-replicate : (n i : ℕ) (s d : TlmSlot) → i < n → get_or (replicate n s) i d ≡ s
get_or-replicate zero i s d h = absurd (omega arith)
get_or-replicate (suc n) zero s d h = refl
get_or-replicate (suc n) (suc i) s d h = get_or-replicate n i s d (omega arith)

-- A ring whose slots are all alike.
module _ (count : ℕ) (size : count ≡ ring_slots) (s : TlmSlot) (t : Telemetry)
    (slots : t.slots ≡ replicate count s) (tail : t.tail ≡ 0) (held : length s.buf ≡ slot_cap) where
  same_slot : (j : ℕ) → j < ring_slots → get_or t.slots j no_line ≡ s
  same_slot j h =
      ap (λ l. get_or l j no_line) slots
      ∙ get_or-replicate count j s no_line (omega (arith, h, size))

  uniform : (k : ℕ) → (slot_at t.slots (u32 (t.tail + k))).state ≡ s.state
  uniform k =
      ap (λ (x : TlmSlot). x.state) (same_slot (u32 (t.tail + k) % ring_slots) (omega arith))

  none-Waiting : t.head ≡ 0 → s.state ≡ empty → Waiting 0 t
  none-Waiting head e = record {
    size = ap length slots ∙ length-replicate count s ∙ size;
    tail_32 = omega (arith, tail);
    head_at = omega (arith, head, tail);
    few = omega arith;
    full = λ k p. absurd (omega (arith, p));
    rest = λ k p q. uniform k ∙ e;
    bufs = λ i p. ap (λ (x : TlmSlot). length x.buf) (same_slot i p) ∙ held;
  }

  all-Waiting : (n : ℕ) → n ≡ ring_slots → t.head ≡ n → s.state ≡ filled → Waiting n t
  all-Waiting n all head e = record {
    size = ap length slots ∙ length-replicate count s ∙ size;
    tail_32 = omega (arith, tail);
    head_at = omega (arith, head, tail, all);
    few = omega (arith, all);
    full = λ k p. uniform k ∙ e;
    rest = λ k p q. absurd (omega (arith, p, q, all));
    bufs = λ i p. ap (λ (x : TlmSlot). length x.buf) (same_slot i p) ∙ held;
  }

abbrev blank : TlmSlot
blank = record { buf = replicate 384 0; len = 0; state = empty }

abbrev one_byte : TlmSlot
one_byte = record { buf = replicate 384 65; len = 1; state = filled }

-- A ring of any number of slots that are alike, with `head` cursors used.
abbrev ring_of : ℕ → TlmSlot → ℕ → Telemetry
ring_of count s head = record {
  slots = replicate count s;
  head = head;
  tail = 0;
  seq = 0;
  dropped = 0;
  enabled = true;
}

-- The size of the ring, as a number that is not computed with.
unfoldable slots_count : ℕ
slots_count = ring_slots

slots_count_lem : slots_count ≡ ring_slots
unfolding slots_count
slots_count_lem = refl

fresh-Waiting : Waiting 0 (ring_of slots_count blank 0)
fresh-Waiting =
    none-Waiting slots_count slots_count_lem blank (ring_of slots_count blank 0) refl refl refl refl
      refl

full-Waiting : Waiting slots_count (ring_of slots_count one_byte slots_count)
full-Waiting =
    all-Waiting slots_count slots_count_lem one_byte (ring_of slots_count one_byte slots_count) refl
      refl refl slots_count slots_count_lem refl refl

line_waits :
    let t = ring_of slots_count blank 0 in
    Waiting 1 (put_line t (65 ∷ []))
    × (contents 1 (put_line t (65 ∷ [])) ≡ contents 0 t ++ ((65 ∷ []) ∷ []))
    × ((put_line t (65 ∷ [])).dropped ≡ t.dropped)
line_waits =
    put_line-contents 0 (ring_of slots_count blank 0) (65 ∷ []) fresh-Waiting (omega arith)
      (omega arith)

-- One line waits.
abbrev with_line : Telemetry
with_line = put_line (ring_of slots_count blank 0) (65 ∷ [])

drain-contents_example :
    ((drain 1 with_line).0 ≡ contents 1 with_line)
    × Waiting 0 (drain 1 with_line).1
    × ((drain 1 with_line).1.head ≡ with_line.head)
drain-contents_example = drain-contents 1 with_line line_waits.0

drain-overflow_example :
    let t = ring_of slots_count one_byte slots_count in
    let (lines, t1) = drain_all (put_line t (66 ∷ [])) in
    (lines ≡ contents slots_count t)
    × (t1.dropped ≡ u64 ((drain slots_count t).1.dropped + 1))
    × ((drain_all (put_all t1 ((67 ∷ []) ∷ (68 ∷ []) ∷ []))).0 ≡ [])
drain-overflow_example =
    drain-overflow slots_count (ring_of slots_count one_byte slots_count) (66 ∷ [])
      ((67 ∷ []) ∷ (68 ∷ []) ∷ []) slots_count_lem full-Waiting (omega arith)

decode-sink_datagram_example :
    (d : List ℕ) × (sink_datagram (replicate 65552 0) (65 ∷ 10 ∷ []) 5000000000 ≡ some d)
    × (length d ≡ 19)
    × (decode (some d) (length d)
        ≡ accepted (stamped (line_header 2 5000000000) (65 ∷ 10 ∷ [])) (65 ∷ 10 ∷ []))
decode-sink_datagram_example =
    decode-sink_datagram (replicate 65552 0) (65 ∷ 10 ∷ []) 5000000000 refl (omega arith)
      (omega arith)
