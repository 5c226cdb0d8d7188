-- ===== src/Client/Http/Endless.antt =====
-- apps/thinclient/main.c: a size of a chunk for which `http_get` does not come back.
use native.Mathlib.Nat.{pow-suc, mul_assoc, mul_comm, one-le-pow}
use remote_avapps.Base.{
  ℕ, suc, ◌+◌, ◌*◌, ◌^◌, ◌≤◌, ◌<◌, ◌≡◌, ◌∙◌, refl, sym, ap, ltb, lt→ltb, ==-false, ◌==◌, u64, arith,
  Bool, true, false, List, ◌++◌, length, none,
}
use remote_avapps.Base.Text.{crlf, strtol16, long_max}
use remote_avapps.Client.Http.Chunked.{
  endless, grow, first_try, resized, reserve, Chunks, stop, take_chunk, sized, chunk_turn,
}
use remote_avapps.Client.Http.Ends.{grow_never}
use remote_avapps.Client.Http.Sizes.{AllHex, size_turn}

first_try_lem :
    (k cap : ℕ)
    → cap * 2 ^ suc k ≡ 9223372036854775808
    → first_try cap * 2 ^ k ≡ 9223372036854775808
first_try_lem k cap e =
    let p : cap * 2 ^ suc k ≡ cap * 2 * 2 ^ k =
      ap (λ (t : ℕ). cap * t) (pow-suc 2 k ∙ mul_comm (2 ^ k) 2) ∙ sym (mul_assoc cap 2 (2 ^ k)) in
    let some : (cap == 0) ≡ false =
      ==-false cap 0 (λ z. absurd (omega (arith, e, ap (λ (t : ℕ). t * 2 ^ suc k) z))) in
    let b : cap * 2 ≤ 9223372036854775808 = grind (arith, p, e, one-le-pow k 2) in
    let w : u64 (cap * 2) ≡ cap * 2 = omega (arith, b) in rw (some, w) (sym p ∙ e)

cap_le : (cap k : ℕ) → cap * 2 ^ suc k ≡ 9223372036854775808 → cap ≤ 9223372036854775808
cap_le cap k e = grind (arith, e, one-le-pow (suc k) 2)

strtol16-le : (hex : List ℕ) → strtol16 hex ≤ long_max
unfolding strtol16
strtol16-le hex = omega arith

-- The client has decoded less than 2 ^ 63 bytes, in a capacity that is a power of two below 2 ^ 63,
-- and reads a size, of at most 31 digits, with which they are more than 2 ^ 63 bytes: it does not
-- come back from the loop that doubles the capacity, with any number of turns.
pub chunk_turn-endless :
    (gives : ℕ → Bool) (st : Chunks) (k : ℕ) (hex s : List ℕ)
    → st.cap * 2 ^ suc k ≡ 9223372036854775808
    → st.rest ≡ hex ++ (crlf ++ s)
    → AllHex hex
    → 0 < length hex
    → length hex ≤ 31
    → length st.buf ≤ long_max
    → 9223372036854775808 < length st.buf + strtol16 hex
    → let need = length st.buf + strtol16 hex in
      (chunk_turn gives st ≡ stop endless) × ((fuel : ℕ) → grow fuel (first_try st.cap) need ≡ none)
unfolding sized take_chunk reserve resized
chunk_turn-endless gives st k hex s e r a l m b h =
    let need = length st.buf + strtol16 hex in
    let none_fits =
      λ (fuel : ℕ). grow_never fuel k (first_try st.cap) need (first_try_lem k st.cap e) h in
    let w : u64 need ≡ need = omega (arith, b, strtol16-le hex) in
    let c : ltb st.cap need ≡ true = lt→ltb st.cap need (omega (arith, h, cap_le st.cap k e)) in
    let n : (strtol16 hex == 0) ≡ false =
      ==-false (strtol16 hex) 0 (λ z. absurd (omega (arith, z, h, b))) in
    let read : chunk_turn gives (record { buf = st.buf; cap = st.cap; rest = st.rest })
        ≡ sized gives st s (strtol16 hex) =
      rw r (size_turn gives st.buf st.cap hex s a l m) in
    (read ∙ rw (n, w, c, none_fits 64) refl, none_fits)
