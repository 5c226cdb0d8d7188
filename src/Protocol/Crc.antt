-- ===== src/Protocol/Crc.antt =====
-- The CRC-8 of src/transport/protocol.c: it continues over concatenations, stays within a byte,
-- and tells apart messages that differ in one byte.
use remote_avapps.Base.{
  ℕ, zero, suc, ◌+◌, ◌/◌, ◌%◌, ◌<◌, ◌≡◌, ◌==◌, refl, arith, if◌then◌else◌, Bool, true, false, List,
  [], ◌∷◌, ◌++◌, length, set, get_or, sym, ap, ◌∙◌, bit_xor, IsBytes, ==_iff,
}
use remote_avapps.Base.Bits.{bit_xor_cancel, bit_xor_comm, bit_xor-lt}
use remote_avapps.Protocol.{crc8_bit, crc8_bits, crc8_update}

-- A test that is run on the bytes from 0 up to a bound.
holds_upto : (ℕ → Bool) → ℕ → Bool
holds_upto test zero = true
holds_upto test (suc bound) = if test bound then holds_upto test bound else false

holds_upto_at :
    (test : ℕ → Bool) (bound : ℕ)
    → (byte : ℕ) → byte < bound
    → holds_upto test bound ≡ true
    → test byte ≡ true
unfolding holds_upto
holds_upto_at test zero byte below all = absurd (omega arith)
holds_upto_at test (suc bound) byte below all = ground (arith, holds_upto_at test bound byte)

-- A bit step shifts to the left and adds the polynomial, whose lowest bit is set; so the lowest
-- bit of the result tells whether it was added, and the step can be taken back.
unbit : ℕ → ℕ
unbit y = if y % 2 == 0 then y / 2 else bit_xor y 0x07 / 2 + 128

unbits : ℕ → ℕ → ℕ
unbits zero y = y
unbits (suc turns) y = unbits turns (unbit y)

unbits_table : holds_upto (λ x. unbits 8 (crc8_bits 8 x) == x) 256 ≡ true
unfolding holds_upto unbits unbit crc8_bits crc8_bit
unbits_table = refl

unbits-crc8_bits : (x : ℕ) → x < 256 → unbits 8 (crc8_bits 8 x) ≡ x
unbits-crc8_bits x h = (==_iff _ x).0 (holds_upto_at _ 256 x h unbits_table)

crc8_bits_injective : (x y : ℕ) → x < 256 → y < 256 → crc8_bits 8 x ≡ crc8_bits 8 y → x ≡ y
crc8_bits_injective x y hx hy e =
    sym (unbits-crc8_bits x hx) ∙ ap (unbits 8) e ∙ unbits-crc8_bits y hy

crc8_bit-lt : (x : ℕ) → crc8_bit x < 256
unfolding crc8_bit
crc8_bit-lt x = ground arith

crc8_bits-lt : (n x : ℕ) → x < 256 → crc8_bits n x < 256
unfolding crc8_bits
crc8_bits-lt zero x h = h
crc8_bits-lt (suc n) x h = crc8_bits-lt n (crc8_bit x) (crc8_bit-lt x)

-- A CRC is a byte.
pub crc8_update-lt : (c : ℕ) (xs : List ℕ) (n : ℕ) → c < 256 → IsBytes xs → crc8_update c xs n < 256
unfolding crc8_update
crc8_update-lt c xs zero h b = h
crc8_update-lt c [] (suc n) h b = h
crc8_update-lt c (x ∷ xs) (suc n) h b =
    crc8_update-lt (crc8_bits 8 (bit_xor c x)) xs n
      (crc8_bits-lt 8 (bit_xor c x) (bit_xor-lt 8 c x h b.0)) b.1

-- Continuing a CRC is the CRC of the concatenation.
pub crc8_update-append :
    (c : ℕ) (xs ys : List ℕ) (n : ℕ)
    → crc8_update c (xs ++ ys) (length xs + n) ≡ crc8_update (crc8_update c xs (length xs)) ys n
unfolding crc8_update
crc8_update-append c [] ys n = let e : 0 + n ≡ n = omega arith in ap (crc8_update c ys) e
crc8_update-append c (x ∷ xs) ys n =
    let e : suc (length xs) + n ≡ suc (length xs + n) = omega arith in
    ap (crc8_update c (x ∷ xs ++ ys)) e ∙ crc8_update-append (crc8_bits 8 (bit_xor c x)) xs ys n

-- With one message two different starting values give different CRCs.
pub crc8_update_injective :
    (xs : List ℕ) (n c d : ℕ)
    → IsBytes xs
    → c < 256
    → d < 256
    → crc8_update c xs n ≡ crc8_update d xs n
    → c ≡ d
unfolding crc8_update
crc8_update_injective xs zero c d b hc hd e = e
crc8_update_injective [] (suc n) c d b hc hd e = e
crc8_update_injective (x ∷ xs) (suc n) c d b hc hd e =
    let hc' : bit_xor c x < 256 = bit_xor-lt 8 c x hc b.0 in
    let hd' : bit_xor d x < 256 = bit_xor-lt 8 d x hd b.0 in
    let next =
      crc8_update_injective xs n (crc8_bits 8 (bit_xor c x)) (crc8_bits 8 (bit_xor d x)) b.1
        (crc8_bits-lt 8 (bit_xor c x) hc') (crc8_bits-lt 8 (bit_xor d x) hd') e in
    sym (bit_xor_cancel c x)
    ∙ ap (λ t. bit_xor t x) (crc8_bits_injective (bit_xor c x) (bit_xor d x) hc' hd' next)
    ∙ bit_xor_cancel d x

bit_xor_left_injective : (c x y : ℕ) → bit_xor c x ≡ bit_xor c y → x ≡ y
bit_xor_left_injective c x y e =
    sym (bit_xor_cancel x c)
    ∙ ap (λ t. bit_xor t c) (bit_xor_comm x c ∙ e ∙ bit_xor_comm c y)
    ∙ bit_xor_cancel y c

-- A message of bytes in which the byte at one index within its length is replaced by another byte
-- has another CRC.
pub crc8_update-set :
    (xs : List ℕ) (n i c v : ℕ)
    → IsBytes xs
    → c < 256
    → v < 256
    → i < n
    → i < length xs
    → crc8_update c (set xs i v) n ≡ crc8_update c xs n
    → v ≡ get_or xs i 0
unfolding crc8_update
crc8_update-set xs zero i c v b hc hv hi hl e = absurd (omega arith)
crc8_update-set [] (suc n) i c v b hc hv hi hl e = absurd (omega arith)
crc8_update-set (x ∷ xs) (suc n) zero c v b hc hv hi hl e =
    let hx' : bit_xor c x < 256 = bit_xor-lt 8 c x hc b.0 in
    let hv' : bit_xor c v < 256 = bit_xor-lt 8 c v hc hv in
    let starts =
      crc8_update_injective xs n (crc8_bits 8 (bit_xor c v)) (crc8_bits 8 (bit_xor c x)) b.1
        (crc8_bits-lt 8 (bit_xor c v) hv') (crc8_bits-lt 8 (bit_xor c x) hx') e in
    bit_xor_left_injective c v x (crc8_bits_injective (bit_xor c v) (bit_xor c x) hv' hx' starts)
crc8_update-set (x ∷ xs) (suc n) (suc i) c v b hc hv hi hl e =
    crc8_update-set xs n i (crc8_bits 8 (bit_xor c x)) v b.1
      (crc8_bits-lt 8 (bit_xor c x) (bit_xor-lt 8 c x hc b.0)) hv (omega arith) (omega arith) e
