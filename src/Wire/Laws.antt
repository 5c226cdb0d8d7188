-- ===== src/Wire/Laws.antt =====
-- What the little-endian accessors compute, as sums, and that they are inverse to each other.
use remote_avapps.Base.{
  ℕ, ◌+◌, ◌*◌, ◌/◌, ◌%◌, ◌<◌, ◌≤◌, ◌≡◌, ◌>>◌, arith, bit_and, u8, List, set, get_or-set_self,
  get_or-set_ne, length, length-set, ◌⊎◌, inl, ◌∙◌,
}
use remote_avapps.Base.Bits.{bit_or_fields, bit_and_mask}
use remote_avapps.Wire.{byte_at, rd16, rd32, wr16, wr32}

-- `(u8)(v & 0xff)` is the lowest byte.
pub low_byte : (v : ℕ) → u8 (bit_and v 0xff) ≡ v % 256
low_byte v = omega (arith, bit_and_mask 8 v)

-- Two bytes joined.
pub rd16_sum :
    (buf : List ℕ) (p : ℕ)
    → byte_at buf p < 256
    → byte_at buf (p + 1) < 256
    → rd16 buf p ≡ byte_at buf p + 256 * byte_at buf (p + 1)
unfolding rd16
rd16_sum buf p a b = ground (arith, bit_or_fields 8 (byte_at buf (p + 1)) (byte_at buf p))

-- Four bytes joined.
pub rd32_sum :
    (buf : List ℕ) (p : ℕ)
    → byte_at buf p < 256
    → byte_at buf (p + 1) < 256
    → byte_at buf (p + 2) < 256
    → byte_at buf (p + 3) < 256
    → rd32 buf p
      ≡ byte_at buf p
        + 256 * byte_at buf (p + 1)
        + 65536 * byte_at buf (p + 2)
        + 16777216 * byte_at buf (p + 3)
unfolding rd32
rd32_sum buf p a b c d = ground (
  arith,
  bit_or_fields 8 (byte_at buf (p + 1)) (byte_at buf p),
  bit_or_fields 16 (byte_at buf (p + 2)) (byte_at buf p + 256 * byte_at buf (p + 1)),
  bit_or_fields 24 (byte_at buf (p + 3))
      (byte_at buf p + 256 * byte_at buf (p + 1) + 65536 * byte_at buf (p + 2)),
)

module _ (buf : List ℕ) (p v : ℕ) where
  pub length-wr16 : length (wr16 buf p v) ≡ length buf
  unfolding wr16
  length-wr16 = simp length-set

  pub length-wr32 : length (wr32 buf p v) ≡ length buf
  unfolding wr32
  length-wr32 = simp length-set

  pub wr16_bytes :
      p + 1 < length buf
      → (byte_at (wr16 buf p v) p ≡ v % 256) × (byte_at (wr16 buf p v) (p + 1) ≡ v / 256 % 256)
  unfolding wr16
  wr16_bytes h =
      let low : List ℕ = set buf p (u8 (bit_and v 0xff)) in
      let high : ℕ = u8 (bit_and (v >> 8) 0xff) in
      (
        get_or-set_ne low (p + 1) p high 0 (omega arith)
            ∙ get_or-set_self buf p (u8 (bit_and v 0xff)) 0 (omega arith)
            ∙ low_byte v,
        get_or-set_self low (p + 1) high 0 (omega (arith, length-set buf p (u8 (bit_and v 0xff))))
            ∙ low_byte (v / 256),
      )

  pub wr16_outside : (j : ℕ) → (j < p) ⊎ (p + 2 ≤ j) → byte_at (wr16 buf p v) j ≡ byte_at buf j
  unfolding wr16
  wr16_outside j h =
      get_or-set_ne (set buf p (u8 (bit_and v 0xff))) (p + 1) j (u8 (bit_and (v >> 8) 0xff)) 0
        (omega arith)
      ∙ get_or-set_ne buf p j (u8 (bit_and v 0xff)) 0 (omega arith)

  -- `wr32` is two `wr16`s.
  pub wr32_halves : wr32 buf p v ≡ wr16 (wr16 buf p v) (p + 2) (v / 65536)
  unfolding wr32 wr16
  wr32_halves =
      let e1 : p + 2 + 1 ≡ p + 3 = omega arith in
      let e2 : v / 65536 / 256 ≡ v / 16777216 = omega arith in rw (e1, e2)

module _ (buf : List ℕ) (p v : ℕ) where
  -- What was written is read back.
  pub rd16-wr16 : p + 1 < length buf → v < 65536 → rd16 (wr16 buf p v) p ≡ v
  rd16-wr16 h small = omega (
    arith,
    wr16_bytes buf p v h,
    rd16_sum (wr16 buf p v) p (omega (arith, wr16_bytes buf p v h))
        (omega (arith, wr16_bytes buf p v h)),
  )

  last :
      p + 3 < length buf
      → byte_at (wr16 (wr16 buf p v) (p + 2) (v / 65536)) (p + 3) ≡ v / 16777216 % 256
  last h =
      let e : p + 3 ≡ p + 2 + 1 = omega arith in
      let d : v / 65536 / 256 % 256 ≡ v / 16777216 % 256 = omega arith in
      rw e
        ((wr16_bytes (wr16 buf p v) (p + 2) (v / 65536) (omega (arith, length-wr16 buf p v))).1 ∙ d)

  pub wr32_bytes :
      p + 3 < length buf
      → (byte_at (wr32 buf p v) p ≡ v % 256)
        × (byte_at (wr32 buf p v) (p + 1) ≡ v / 256 % 256)
        × (byte_at (wr32 buf p v) (p + 2) ≡ v / 65536 % 256)
        × (byte_at (wr32 buf p v) (p + 3) ≡ v / 16777216 % 256)
  wr32_bytes h = rw wr32_halves (
    wr16_outside (wr16 buf p v) (p + 2) (v / 65536) p (inl (omega arith))
        ∙ (wr16_bytes buf p v (omega arith)).0,
    wr16_outside (wr16 buf p v) (p + 2) (v / 65536) (p + 1) (inl (omega arith))
        ∙ (wr16_bytes buf p v (omega arith)).1,
    (wr16_bytes (wr16 buf p v) (p + 2) (v / 65536) (omega (arith, length-wr16 buf p v))).0,
    last h,
  )

  pub wr32_outside : (j : ℕ) → (j < p) ⊎ (p + 4 ≤ j) → byte_at (wr32 buf p v) j ≡ byte_at buf j
  wr32_outside j h = rw wr32_halves (
      wr16_outside (wr16 buf p v) (p + 2) (v / 65536) j (omega arith)
      ∙ wr16_outside buf p v j (omega arith))

  pub rd32-wr32 : p + 3 < length buf → v < 4294967296 → rd32 (wr32 buf p v) p ≡ v
  rd32-wr32 h small = omega (
    arith,
    wr32_bytes h,
    rd32_sum (wr32 buf p v) p (omega (arith, wr32_bytes h)) (omega (arith, wr32_bytes h))
        (omega (arith, wr32_bytes h)) (omega (arith, wr32_bytes h)),
  )

-- A read depends on the bytes that it covers only.
pub rd16_same :
    (a b : List ℕ) (q : ℕ)
    → ((j : ℕ) → q ≤ j → j < q + 2 → byte_at a j ≡ byte_at b j)
    → rd16 a q ≡ rd16 b q
unfolding rd16
rd16_same a b q same =
    rw (same q (omega arith) (omega arith), same (q + 1) (omega arith) (omega arith))

pub rd32_same :
    (a b : List ℕ) (q : ℕ)
    → ((j : ℕ) → q ≤ j → j < q + 4 → byte_at a j ≡ byte_at b j)
    → rd32 a q ≡ rd32 b q
unfolding rd32
rd32_same a b q same = rw (
  same q (omega arith) (omega arith),
  same (q + 1) (omega arith) (omega arith),
  same (q + 2) (omega arith) (omega arith),
  same (q + 3) (omega arith) (omega arith),
)

-- A write at a higher offset leaves a read alone.
pub rd16-wr16_above : (buf : List ℕ) (p v q : ℕ) → q + 2 ≤ p → rd16 (wr16 buf p v) q ≡ rd16 buf q
rd16-wr16_above buf p v q h =
    rd16_same _ buf q (λ j low high. wr16_outside buf p v j (inl (omega arith)))

pub rd16-wr32_above : (buf : List ℕ) (p v q : ℕ) → q + 2 ≤ p → rd16 (wr32 buf p v) q ≡ rd16 buf q
rd16-wr32_above buf p v q h =
    rd16_same _ buf q (λ j low high. wr32_outside buf p v j (inl (omega arith)))
