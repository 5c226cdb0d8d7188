-- ===== src/Ring/Write.antt =====
-- src/core/ringbuf.c: `vmc_ringbuf_write` appends as much as fits.
use remote_avapps.Base.{
  ℕ, zero, suc, ◌+◌, ◌-◌, ◌<◌, ◌≤◌, ◌≡◌, ◌≢◌, sym, arith, ltb, leb, ==-false, append-nil,
  if◌then◌else◌, List, length, take, drop, ap, ◌∙◌, u64, min, length-take, length-drop, get_or-take,
  get_or-drop, ◌&&◌, ◌++◌, length-append, get_or_ext, get_or-append_left, get_or-append_right, inl,
  inr, Bool-cases,
}
use native.Mathlib.Decide.{dec_lt}
use remote_avapps.Base.Blocks.{
  store, get_or-store-take, length-store, tabulate, length-tabulate, get_or-tabulate,
}
use remote_avapps.Wire.{byte_at}
use remote_avapps.Ring.{RingBuf, rb_mask, first_part, free, write}
use remote_avapps.Ring.Valid.{IsValid, cap_small, free_lem}
use remote_avapps.Ring.Contents.{
  place, contents, start, start-lt, place_lem, head_place, room_from_lem,
}

-- The two copies of a write of `n` bytes.
copied : RingBuf → List ℕ → ℕ → List ℕ
copied rb src n =
    let n1 = first_part rb rb.head n in
    let data1 = store rb.bytes (rb_mask rb rb.head) (take n1 src) in
    if ltb n1 n then store data1 0 (take (n - n1) (drop n1 src)) else data1

module _ (rb : RingBuf) (v : IsValid rb) (src : List ℕ) (n : ℕ) (enough : n ≤ length src)
    (fits : rb.count + n ≤ rb.mask + 1) where
  cap : ℕ
  cap = rb.mask + 1

  spot : ℕ
  spot = rb_mask rb rb.head

  n1 : ℕ
  n1 = first_part rb rb.head n

  spot_lem : spot ≡ (
      if ltb (start rb v + rb.count) cap
      then start rb v + rb.count
      else start rb v + rb.count - cap)
  unfolding spot cap
  spot_lem = head_place rb v ∙ place_lem rb v rb.count (omega arith)

  spot-lt : spot < cap
  unfolding cap
  spot-lt = ground (arith, spot_lem, start-lt rb v)

  n1_lem : n1 ≡ (if ltb n (cap - spot) then n else cap - spot)
  unfolding n1 first_part cap spot
  n1_lem = ground (arith, room_from_lem rb v rb.head spot-lt)

  bytes1 : List ℕ
  bytes1 = store rb.bytes spot (take n1 src)

  n1_in : (n1 ≤ n) × (spot + n1 ≤ cap) × (n1 < n → spot + n1 ≡ cap)
  n1_in = ground (arith, n1_lem, spot-lt)

  -- The byte at an index after the first copy, and after both.
  first_copy :
      (j : ℕ)
      → byte_at bytes1 j
        ≡ (if leb spot j && ltb j (spot + n1) then byte_at src (j - spot) else byte_at rb.bytes j)
  unfolding bytes1 cap
  first_copy j =
      get_or-store-take rb.bytes spot n1 src j 0 (omega (arith, n1_in)) (omega (arith, n1_in, v))

  second_copy :
      (j : ℕ)
      → byte_at (store bytes1 0 (take (n - n1) (drop n1 src))) j
        ≡ (if ltb j (n - n1) then byte_at src (n1 + j) else byte_at bytes1 j)
  unfolding bytes1 cap
  second_copy j =
      get_or-store-take bytes1 0 (n - n1) (drop n1 src) j 0
        (omega (arith, n1_in, length-drop n1 src))
        (ground
          (arith, n1_in, v, length-store rb.bytes spot (take n1 src), start-lt rb v, spot_lem))
      ∙ ground (arith, get_or-drop n1 (j - 0) src 0)

  copied_lem :
      (j : ℕ)
      → byte_at (copied rb src n) j ≡ (
          if ltb j (n - n1)
          then byte_at src (n1 + j)
          else if leb spot j && ltb j (spot + n1)
          then byte_at src (j - spot)
          else byte_at rb.bytes j)
  copied_lem j =
      unfold copied spot n1 bytes1 in
      elim (Bool-cases (ltb n1 n)) [
        | inl more ↦ rw more (second_copy j ∙ ground (arith, first_copy j))
        | inr all ↦ rw all (first_copy j ∙ ground (arith, n1_in))
      ]

  -- A byte that was held is still there, and those of the source follow.
  kept :
      (i : ℕ)
      → i < rb.count
      → byte_at (copied rb src n) (place rb i) ≡ byte_at rb.bytes (place rb i)
  unfolding cap
  kept i h =
      ground (arith, copied_lem (place rb i), place_lem rb v i, spot_lem, n1_lem, start-lt rb v)

  added : (i : ℕ) → i < n → byte_at (copied rb src n) (place rb (rb.count + i)) ≡ byte_at src i
  unfolding cap
  added i h = ground (
    arith,
    copied_lem (place rb (rb.count + i)),
    place_lem rb v (rb.count + i),
    spot_lem,
    n1_lem,
    start-lt rb v,
  )

  -- The ring after the write.
  written : RingBuf
  written = record rb {
    bytes = copied rb src n;
    head = u64 (rb.head + n);
    count = u64 (rb.count + n);
  }

  count-written : u64 (rb.count + n) ≡ rb.count + n
  count-written = omega (arith, cap_small rb v)

  contents-written : contents written ≡ contents rb ++ take n src
  unfolding written
  contents-written =
      ap (λ k. tabulate k (λ i. byte_at (copied rb src n) (place rb i))) count-written
      ∙ get_or_ext 0 _ _ same_length pointwise
    where
      after : List ℕ
      after = tabulate (rb.count + n) (λ i. byte_at (copied rb src n) (place rb i))

      same_length : length after ≡ length (contents rb ++ take n src)
      same_length = omega (
        arith,
        length-tabulate (rb.count + n) (λ i. byte_at (copied rb src n) (place rb i)),
        length-append (contents rb) (take n src),
        length-tabulate rb.count (λ i. byte_at rb.bytes (place rb i)),
        length-take n src,
      )

      held : length (contents rb) ≡ rb.count
      held = length-tabulate rb.count (λ i. byte_at rb.bytes (place rb i))

      old : (i : ℕ) → i < rb.count → byte_at after i ≡ byte_at (contents rb ++ take n src) i
      old i h =
          get_or-tabulate (rb.count + n) (λ k. byte_at (copied rb src n) (place rb k)) i 0
            (omega arith)
          ∙ kept i h
          ∙ sym (get_or-tabulate rb.count (λ k. byte_at rb.bytes (place rb k)) i 0 h)
          ∙ sym (get_or-append_left (contents rb) (take n src) i 0 (omega (arith, held)))

      new :
          (i : ℕ)
          → i < n
          → byte_at after (rb.count + i) ≡ byte_at (contents rb ++ take n src) (rb.count + i)
      new i h =
          get_or-tabulate (rb.count + n) (λ k. byte_at (copied rb src n) (place rb k))
            (rb.count + i) 0 (omega arith)
          ∙ added i h
          ∙ sym (get_or-take n i src 0 h)
          ∙ sym (get_or-append_right (contents rb) (take n src) i 0)
          ∙ ap (λ k. byte_at (contents rb ++ take n src) (k + i)) held

      pointwise :
          (i : ℕ) → i < length after → byte_at after i ≡ byte_at (contents rb ++ take n src) i
      pointwise i h = elim (dec_lt i rb.count) [
        | yes p ↦ old i p
        | no p ↦
            let e : rb.count + (i - rb.count) ≡ i = omega arith in
            let below : i - rb.count < n = omega (
              arith,
              length-tabulate (rb.count + n) (λ k. byte_at (copied rb src n) (place rb k)),
            ) in
            ap (byte_at after) (sym e)
            ∙ new (i - rb.count) below
            ∙ ap (byte_at (contents rb ++ take n src)) e
      ]

  length-copied : length (copied rb src n) ≡ length rb.bytes
  length-copied =
      unfold copied n1 bytes1 spot in
      elim (Bool-cases (ltb n1 n)) [
        | inl more ↦ rw more (
            length-store bytes1 0 (take (n - n1) (drop n1 src))
            ∙ length-store rb.bytes spot (take n1 src))
        | inr all ↦ rw all (length-store rb.bytes spot (take n1 src))
      ]

  written-IsValid : IsValid written
  unfolding written
  written-IsValid = record {
    bits = v.bits;
    bits_small = v.bits_small;
    power = v.power;
    storage = rw length-copied v.storage;
    count_in = omega (arith, count-written);
    head_ahead = omega (arith, count-written, v.head_ahead);
  }

-- The length that is written, `len` in the code after its cap.
capped : RingBuf → ℕ → ℕ
capped rb n0 = if ltb (free rb) n0 then free rb else n0

write_some :
    (rb : RingBuf) (v : IsValid rb) (src : List ℕ) (n0 : ℕ) (enough : capped rb n0 ≤ length src)
    (fits : rb.count + capped rb n0 ≤ rb.mask + 1)
    → n0 ≢ 0
    → write rb src n0 ≡ (capped rb n0, written rb v src (capped rb n0) enough fits)
unfolding write written copied capped
write_some rb v src n0 enough fits h = rw (==-false n0 0 h)

capped_lem : (rb : RingBuf) → IsValid rb → (n0 : ℕ) → capped rb n0 ≡ min n0 (rb.mask + 1 - rb.count)
unfolding capped
capped_lem rb v n0 = ground (arith, free_lem rb v)

-- On a valid ring, with a source that holds the bytes asked for, a write takes as many as there is
-- room for, appends exactly these to the contents, and keeps the ring valid.
pub write_lem :
    (rb : RingBuf) (src : List ℕ) (n0 : ℕ)
    → IsValid rb
    → n0 ≤ length src
    → let (n, rb') = write rb src n0 in
      (n ≡ min n0 (rb.mask + 1 - rb.count))
      × (contents rb' ≡ contents rb ++ take n src)
      × IsValid rb'
write_lem rb src zero v enough = unfold write in (omega arith, sym (append-nil (contents rb)), v)
write_lem rb src (suc k) v enough =
    let n : ℕ = capped rb (suc k) in
    let small : n ≡ min (suc k) (rb.mask + 1 - rb.count) = capped_lem rb v (suc k) in
    let inside : n ≤ length src = omega arith in
    let fits : rb.count + n ≤ rb.mask + 1 = omega (arith, v.count_in) in
    rw (write_some rb v src (suc k) inside fits (omega arith))
      (small, contents-written rb v src n inside fits, written-IsValid rb v src n inside fits)
