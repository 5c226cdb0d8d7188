-- ===== src/Ring/Read.antt =====
-- src/core/ringbuf.c: `vmc_ringbuf_read`, `vmc_ringbuf_peek` and `vmc_ringbuf_discard` take the
-- oldest bytes.
use remote_avapps.Base.{
  ℕ, ◌+◌, ◌-◌, ◌%◌, ◌<◌, ◌≤◌, ◌≡◌, refl, sym, arith, ltb, ◌==◌, if◌then◌else◌, List, [], length,
  take, drop, ap, ◌∙◌, u64, sub64, min, length-take, length-drop, get_or-take, get_or-drop, ◌++◌,
  length-append, get_or_ext, get_or-append_left, get_or-append_right, Bool-cases, true, false,
  Option, none, some, inl, inr,
}
use native.Mathlib.Decide.{dec_lt}
use native.Mathlib.Nat.{mod-add-mod}
use remote_avapps.Base.Blocks.{
  tabulate, length-tabulate, get_or-tabulate, tabulate_ext, take-tabulate, drop-tabulate,
}
use remote_avapps.Wire.{byte_at}
use remote_avapps.Ring.{RingBuf, rb_mask, first_part, readable, copy_out, read, peek, discard}
use remote_avapps.Ring.Valid.{IsValid, cap_small, u64-mod}
use remote_avapps.Ring.Contents.{
  place, contents, start, start-lt, place_lem, tail_place, room_from_lem,
}

module _ (rb : RingBuf) (v : IsValid rb) (n : ℕ) (held : n ≤ rb.count) where
  n1 : ℕ
  n1 = first_part rb rb.tail n

  n1_lem : n1 ≡ min n (rb.mask + 1 - start rb v)
  unfolding n1 first_part
  n1_lem =
      let t : rb_mask rb rb.tail ≡ start rb v = tail_place rb v in
      ground (arith, room_from_lem rb v rb.tail (omega (arith, t, start-lt rb v)), t, start-lt rb v)

  part1 : List ℕ
  part1 = take n1 (drop (start rb v) rb.bytes)

  length-part1 : length part1 ≡ n1
  unfolding part1
  length-part1 = omega (
    arith,
    length-take n1 (drop (start rb v) rb.bytes),
    length-drop (start rb v) rb.bytes,
    n1_lem,
    start-lt rb v,
    v.storage,
  )

  out : List ℕ
  out = if ltb n1 n then part1 ++ take (n - n1) rb.bytes else part1

  copy_out-out : copy_out rb n ≡ out
  unfolding copy_out out part1 n1
  copy_out-out = rw (tail_place rb v) refl

  length-out : length out ≡ n
  unfolding out
  length-out = elim (Bool-cases (ltb n1 n)) [
    | inl more ↦ rw more (
        omega (
          arith,
          length-append part1 (take (n - n1) rb.bytes),
          length-part1,
          length-take (n - n1) rb.bytes,
          n1_lem,
          v.storage,
          v.count_in,
        ))
    | inr all ↦ rw all (ground (arith, length-part1, n1_lem))
  ]

  in_part1 : (i : ℕ) → i < n1 → byte_at part1 i ≡ byte_at rb.bytes (place rb i)
  unfolding part1
  in_part1 i h =
      let e : start rb v + i ≡ place rb i =
        ground
          (arith, place_lem rb v i (omega (arith, n1_lem, start-lt rb v)), n1_lem, start-lt rb v) in
      get_or-take n1 i (drop (start rb v) rb.bytes) 0 h
      ∙ get_or-drop (start rb v) i rb.bytes 0
      ∙ ap (byte_at rb.bytes) e

  byte-out : (i : ℕ) → i < n → byte_at out i ≡ byte_at rb.bytes (place rb i)
  unfolding out
  byte-out i h = elim (Bool-cases (ltb n1 n)) [
    | inr all ↦ rw all (in_part1 i (ground arith))
    | inl more ↦ rw more (elim (dec_lt i n1) [
      | yes p ↦
          get_or-append_left part1 (take (n - n1) rb.bytes) i 0 (omega (arith, length-part1))
          ∙ in_part1 i p
      | no p ↦
          let at : length part1 + (i - n1) ≡ i = omega (arith, length-part1) in
          let e : i - n1 ≡ place rb i = ground (
            arith,
            place_lem rb v i (omega (arith, v.count_in)),
            n1_lem,
            start-lt rb v,
            v.count_in,
          ) in
          ap (byte_at (part1 ++ take (n - n1) rb.bytes)) (sym at)
          ∙ get_or-append_right part1 (take (n - n1) rb.bytes) (i - n1) 0
          ∙ get_or-take (n - n1) (i - n1) rb.bytes 0 (omega arith)
          ∙ ap (byte_at rb.bytes) e
    ])
  ]

  -- The output is the oldest part of the contents.
  copy_out_lem : copy_out rb n ≡ take n (contents rb)
  copy_out_lem =
      copy_out-out
      ∙ get_or_ext 0 out (tabulate n (λ i. byte_at rb.bytes (place rb i)))
          (length-out ∙ sym (length-tabulate n (λ i. byte_at rb.bytes (place rb i))))
          (λ i h.
            let small : i < n = omega (arith, length-out) in
            byte-out i small
            ∙ sym (get_or-tabulate n (λ k. byte_at rb.bytes (place rb k)) i 0 small))
      ∙ sym (take-tabulate n rb.count (λ i. byte_at rb.bytes (place rb i)) held)

  -- The ring without its `n` oldest bytes.
  rest : RingBuf
  rest = record rb { tail = u64 (rb.tail + n); count = sub64 rb.count n }

  count-rest : sub64 rb.count n ≡ rb.count - n
  count-rest = omega (arith, cap_small rb v, v.count_in)

  place-rest : (i : ℕ) → (u64 (rb.tail + n) + i) % (rb.mask + 1) ≡ place rb (n + i)
  place-rest i =
      let e : rb.tail + n + i ≡ rb.tail + (n + i) = omega arith in
      sym (mod-add-mod (u64 (rb.tail + n)) (rb.mask + 1) i)
      ∙ ap (λ t. (t + i) % (rb.mask + 1)) (u64-mod rb v (rb.tail + n))
      ∙ mod-add-mod (rb.tail + n) (rb.mask + 1) i
      ∙ ap (λ t. t % (rb.mask + 1)) e

  contents-rest : contents rest ≡ drop n (contents rb)
  unfolding rest
  contents-rest =
      ap (λ k. tabulate k (λ i. byte_at rb.bytes ((u64 (rb.tail + n) + i) % (rb.mask + 1))))
        count-rest
      ∙ tabulate_ext (rb.count - n)
          (λ i. byte_at rb.bytes ((u64 (rb.tail + n) + i) % (rb.mask + 1)))
          (λ i. byte_at rb.bytes (place rb (n + i))) (λ i h. ap (byte_at rb.bytes) (place-rest i))
      ∙ sym (drop-tabulate n rb.count (λ i. byte_at rb.bytes (place rb i)) held)

  rest-IsValid : IsValid rest
  unfolding rest
  rest-IsValid = record {
    bits = v.bits;
    bits_small = v.bits_small;
    power = v.power;
    storage = v.storage;
    count_in = omega (arith, count-rest, v.count_in);
    head_ahead = omega (arith, count-rest, v.head_ahead, cap_small rb v, v.count_in);
  }

-- What was put into the output.
abbrev pub out_bytes : Option (List ℕ) → List ℕ
out_bytes none = []
out_bytes (some xs) = xs

readable_lem : (rb : RingBuf) (n0 : ℕ) → readable rb n0 ≡ min n0 rb.count
unfolding readable
readable_lem rb n0 = ground arith

module _ (rb : RingBuf) (v : IsValid rb) (n0 : ℕ) where
  n : ℕ
  n = readable rb n0

  n-le : n ≤ rb.count
  unfolding n
  n-le = omega (arith, readable_lem rb n0)

  -- A read hands out the oldest bytes, as many as asked for and held, in order, removes exactly
  -- these, and keeps a valid ring valid.
  pub read_lem :
      let (k, got, rb') = read rb true n0 in
      (k ≡ min n0 rb.count)
      × (out_bytes got ≡ take k (contents rb))
      × (contents rb' ≡ drop k (contents rb))
      × IsValid rb'
  unfolding read n rest
  read_lem = elim (Bool-cases (n == 0)) [
    | inl nothing ↦
        let e : n ≡ 0 = ground arith in
        rw nothing (omega (arith, e, readable_lem rb n0), refl, refl, v)
    | inr bytes ↦ rw bytes (
      readable_lem rb n0,
      copy_out_lem rb v n n-le,
      contents-rest rb v n n-le,
      rest-IsValid rb v n n-le,
    )
  ]

  -- A peek hands out the same bytes as a read and leaves the ring alone; a discard, or a read with
  -- no output, leaves the same ring contents as a read.
  pub peek_discard_lem :
      let (k, got) = peek rb n0 in
      (k ≡ (read rb true n0).0)
      × (out_bytes got ≡ out_bytes (read rb true n0).1)
      × ((discard rb n0).0 ≡ k)
      × (contents (discard rb n0).1 ≡ contents (read rb true n0).2)
      × ((read rb false n0).2 ≡ (read rb true n0).2)
      × IsValid (discard rb n0).1
  unfolding read peek discard n rest
  peek_discard_lem = elim (Bool-cases (n == 0)) [
    | inl nothing ↦
        let e : n ≡ 0 = ground arith in
        let same : contents (discard rb n0).1 ≡ contents rb =
          contents-rest rb v n n-le ∙ ap (λ k. drop k (contents rb)) e in
        rw nothing (refl, refl, e, same, refl, rest-IsValid rb v n n-le)
    | inr bytes ↦ rw bytes (refl, refl, refl, refl, refl, rest-IsValid rb v n n-le)
  ]
