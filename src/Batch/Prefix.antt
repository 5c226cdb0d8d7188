-- ===== src/Batch/Prefix.antt =====
-- src/input/batch.c: how many bytes a batch takes, and how many are read of it.
use remote_avapps.Base.{
  ℕ, zero, suc, ◌+◌, ◌*◌, ◌<◌, ◌≡◌, refl, sym, ap, ◌∙◌, arith, ltb, Bool-cases, inl, inr, List,
  length, take, set, get_or-take, some,
}
use remote_avapps.Wire.{byte_at, rd16}
use remote_avapps.Wire.Laws.{rd16_same, length-wr16}
use remote_avapps.Batch.{
  InputEvent, Batch, event_size, serialize, written, get_event, get_events, deserialize,
}
use remote_avapps.Batch.RoundTrip.{length-put_events, get_event_same}

-- The buffer keeps its length.
pub length-serialize :
    (b : Batch) (out : List ℕ) (cap n : ℕ) (bytes : List ℕ)
    → serialize b (some out) cap ≡ written n bytes
    → length bytes ≡ length out
unfolding serialize
length-serialize b out cap n bytes e = elim (Bool-cases (ltb cap (2 + b.count * event_size))) [
  | inl short ↦ absurd (cc (rw short at e))
  | inr room ↦
      ap length (sym (bytes_of (rw room at e)))
      ∙ length-put_events b.count b.events 0 _ 2
      ∙ length-wr16 out 0 b.count
]
  where
    bytes_of : {m k : ℕ} {xs ys : List ℕ} → written m xs ≡ written k ys → xs ≡ ys
    bytes_of h = cc h

get_events_same :
    (left : ℕ) (a b : List ℕ) (p i : ℕ) (events : List InputEvent)
    → ((j : ℕ) → j < p + left * event_size → byte_at a j ≡ byte_at b j)
    → get_events left a p i events ≡ get_events left b p i events
unfolding get_events
get_events_same zero a b p i events same = refl
get_events_same (suc left) a b p i events same =
    let here : get_event a p ≡ get_event b p =
      get_event_same a b p (λ j l h. same j (omega (arith, h))) in
    ap (λ e. get_events left a (p + event_size) (i + 1) (set events i e)) here
    ∙ get_events_same left a b (p + event_size) (i + 1) (set events i (get_event b p))
        (λ j h. same j (omega (arith, h)))

-- No more is read of a buffer than the length that is given.
pub deserialize-take :
    (buf : List ℕ) (n : ℕ) (into : Batch)
    → deserialize (some (take n buf)) n into ≡ deserialize (some buf) n into
unfolding deserialize
deserialize-take buf n into = elim (Bool-cases (ltb n 2)) [
  | inl short ↦ rw short refl
  | inr enough ↦
      let count : rd16 (take n buf) 0 ≡ rd16 buf 0 =
        rd16_same (take n buf) buf 0 (λ j l h. get_or-take n j buf 0 (ground arith)) in
      elim (Bool-cases (ltb n (2 + rd16 buf 0 * event_size))) [
        | inl cut ↦ rw (enough, count, cut) refl
        | inr whole ↦
            let read : get_events (rd16 buf 0) (take n buf) 2 0 into.events
                ≡ get_events (rd16 buf 0) buf 2 0 into.events =
              get_events_same (rd16 buf 0) (take n buf) buf 2 0 into.events
                (λ j h. get_or-take n j buf 0 (ground (arith, h, whole))) in
            rw (enough, count, whole, read) refl
      ]
]
