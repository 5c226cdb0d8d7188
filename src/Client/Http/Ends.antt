-- ===== src/Client/Http/Ends.antt =====
-- apps/thinclient/main.c: the loops of the chunk decoder end, or do not.
use native.Mathlib.Nat.{pow-suc, mul_assoc, mul_comm, one-le-pow, le_trans}
use remote_avapps.Base.{
  ltb→lt, ℕ, zero, suc, ◌+◌, ◌*◌, ◌^◌, ◌≤◌, ◌<◌, ◌≡◌, ◌≢◌, ◌∙◌, refl, sym, ap, ltb, lt→ltb, ◌==◌,
  ltb-false, u64, arith, Bool, true, false, Bool-cases, inl, inr, List, [], ◌∷◌, length, drop,
  length-drop, none, some,
}
use remote_avapps.Client.Http.Chunked.{
  Fetched, unfinished, take_hex, skip_crlf, skip_line, skip_end, skip_byte, grow, first_try,
  resized, reserve, Reserved, room, no_memory, never, Chunks, Turn, stop, go_on, take_chunk, sized,
  size_line, chunk_turn, turn_then, decode_chunks,
}

skip_crlf-le : (s : List ℕ) → length (skip_crlf s) ≤ length s
unfolding skip_crlf
skip_crlf-le [] = omega arith
skip_crlf-le (c ∷ s) = ground (arith, skip_crlf-le s)

take_hex-length :
    (n : ℕ) (s : List ℕ) → length (take_hex n s).0 + length (take_hex n s).1 ≡ length s
unfolding take_hex
take_hex-length zero s = omega arith
take_hex-length (suc n) [] = omega arith
take_hex-length (suc n) (c ∷ s) = ground (arith, take_hex-length n s)

skip_line-le : (s : List ℕ) → length (skip_line s) ≤ length s
unfolding skip_line
skip_line-le [] = omega arith
skip_line-le (c ∷ s) = ground (arith, skip_line-le s)

skip_byte-le : (b : ℕ) (s : List ℕ) → length (skip_byte b s) ≤ length s
unfolding skip_byte
skip_byte-le b [] = omega arith
skip_byte-le b (c ∷ s) = ground arith

skip_end-le : (s : List ℕ) → length (skip_end s) ≤ length s
unfolding skip_end
skip_end-le s = omega (arith, skip_byte-le 10 (skip_byte 13 s), skip_byte-le 13 s)

-- What the next turn starts with is shorter, and a turn that is the last has a result.
abbrev Shorter : ℕ → Turn → Type 0
Shorter n (stop r) = r ≢ unfinished
Shorter n (go_on st) = length st.rest < n

take_chunk-Shorter :
    (n : ℕ) (buf s : List ℕ) (sz : ℕ) (r : Reserved)
    → length s ≤ n
    → 0 < sz
    → Shorter n (take_chunk buf s sz r)
unfolding take_chunk
take_chunk-Shorter n buf s sz never h k = λ e. cc e
take_chunk-Shorter n buf s sz no_memory h k = λ e. cc e
take_chunk-Shorter n buf s sz (room cap) h k = elim (Bool-cases (ltb (length s) sz)) [
  | inl cut ↦ rw cut (λ e. cc e)
  | inr whole ↦ rw whole (omega (arith, skip_end-le (drop sz s), length-drop sz s, ltb-le whole))
]
  where
    ltb-le : ltb (length s) sz ≡ false → sz ≤ length s
    ltb-le e = ground arith

sized-Shorter :
    (n : ℕ) (gives : ℕ → Bool) (st : Chunks) (s : List ℕ) (sz : ℕ)
    → length s ≤ n
    → Shorter n (sized gives st s sz)
unfolding sized
sized-Shorter n gives st s sz h = elim (Bool-cases (sz == 0)) [
  | inl last ↦ rw last (λ e. cc e)
  | inr more ↦ rw more (take_chunk-Shorter n st.buf s sz _ h (ground arith))
]

size_line-le : (n : ℕ) (s : List ℕ) → length (skip_line (take_hex n s).1) ≤ length s
size_line-le n s = omega (arith, skip_line-le (take_hex n s).1, take_hex-length n s)

size_line-Shorter :
    (n : ℕ) (gives : ℕ → Bool) (st : Chunks) (s : List ℕ)
    → length s ≤ n
    → Shorter n (size_line gives st s)
unfolding size_line
size_line-Shorter n gives st [] h = λ e. cc e
size_line-Shorter n gives st (c ∷ s) h =
    sized-Shorter n gives st (skip_line (take_hex 31 (c ∷ s)).1) _
      (le_trans (size_line-le 31 (c ∷ s)) h)

chunk_turn-Shorter :
    (gives : ℕ → Bool) (st : Chunks) → Shorter (length st.rest) (chunk_turn gives st)
unfolding chunk_turn
chunk_turn-Shorter gives st =
    size_line-Shorter _ gives st (skip_crlf st.rest) (skip_crlf-le st.rest)

turn_then_ext :
    (go go' : Chunks → Fetched) (n : ℕ) (t : Turn)
    → Shorter n t
    → ((st : Chunks) → length st.rest < n → go st ≡ go' st)
    → turn_then t go ≡ turn_then t go'
unfolding turn_then
turn_then_ext go go' n (stop r) s same = refl
turn_then_ext go go' n (go_on st) s same = same st s

turn_then_finished :
    (go : Chunks → Fetched) (n : ℕ) (t : Turn)
    → Shorter n t
    → ((st : Chunks) → length st.rest < n → go st ≢ unfinished)
    → turn_then t go ≢ unfinished
unfolding turn_then
turn_then_finished go n (stop r) s ends = s
turn_then_finished go n (go_on st) s ends = ends st s

-- With more turns than bytes are left, the loop is not cut off.
decode_chunks-finished :
    (fuel : ℕ) (gives : ℕ → Bool) (st : Chunks)
    → length st.rest < fuel
    → decode_chunks fuel gives st ≢ unfinished
unfolding decode_chunks
decode_chunks-finished zero gives st h = absurd (omega arith)
decode_chunks-finished (suc fuel) gives st h =
    turn_then_finished (decode_chunks fuel gives) (length st.rest) (chunk_turn gives st)
      (chunk_turn-Shorter gives st)
      (λ st' s. decode_chunks-finished fuel gives st' (omega (arith, s, h)))

decode_chunks-same :
    (fuel more : ℕ) (gives : ℕ → Bool) (st : Chunks)
    → length st.rest < fuel
    → length st.rest < more
    → decode_chunks fuel gives st ≡ decode_chunks more gives st
unfolding decode_chunks
decode_chunks-same zero more gives st h k = absurd (omega arith)
decode_chunks-same (suc fuel) zero gives st h k = absurd (omega arith)
decode_chunks-same (suc fuel) (suc more) gives st h k =
    turn_then_ext (decode_chunks fuel gives) (decode_chunks more gives) (length st.rest)
      (chunk_turn gives st) (chunk_turn-Shorter gives st)
      (λ st' s. decode_chunks-same fuel more gives st' (omega (arith, s, h)) (omega (arith, s, k)))

-- Whatever the server sends, the loop over the chunks has at most one turn more than bytes are left,
-- of which the last returns, or does not come back from the doubling of the capacity: with that
-- fuel, and with any more, the loop is not cut off for want of fuel, and the result is the same.
pub decode_chunks-enough :
    (fuel more : ℕ) (gives : ℕ → Bool) (st : Chunks)
    → length st.rest < fuel
    → fuel ≤ more
    → (decode_chunks fuel gives st ≢ unfinished)
      × (decode_chunks more gives st ≡ decode_chunks fuel gives st)
decode_chunks-enough fuel more gives st h k = (
  decode_chunks-finished fuel gives st h,
  decode_chunks-same more fuel gives st (omega (arith, h, k)) h,
)

-- The doubling ends when `need` is at most 2 ^ 63.
grow_ends :
    (f cap need : ℕ)
    → need ≤ cap * 2 ^ f
    → need ≤ 9223372036854775808
    → (d : ℕ) × (grow (suc f) cap need ≡ some d)
unfolding grow
grow_ends zero cap need h k =
    let e : ltb cap need ≡ false = ltb-false cap need (omega arith) in (cap, rw e refl)
grow_ends (suc f) cap need h k = elim (Bool-cases (ltb cap need)) [
  | inl small ↦
      let p : cap * 2 ^ suc f ≡ cap * 2 * 2 ^ f =
        ap (λ (t : ℕ). cap * t) (pow-suc 2 f ∙ mul_comm (2 ^ f) 2)
        ∙ sym (mul_assoc cap 2 (2 ^ f)) in
      let w : u64 (cap * 2) ≡ cap * 2 = omega (arith, ltb→lt cap need small) in
      let (d, e) = grow_ends f (u64 (cap * 2)) need (rw w (omega (arith, p))) k in (d, rw small e)
  | inr big ↦ (cap, rw big refl)
]

-- With memory for every request, room for up to 2 ^ 63 bytes is found.
pub reserve_lem :
    (gives : ℕ → Bool) (cap need : ℕ)
    → ((n : ℕ) → gives n ≡ true)
    → need ≤ 9223372036854775808
    → (d : ℕ) × (reserve gives cap need ≡ room d)
unfolding reserve resized
reserve_lem gives cap need all h = elim (Bool-cases (ltb cap need)) [
  | inl small ↦
      let (d, e) = grow_ends 63 (first_try cap) need (ground arith) h in
      (d, rw (small, e, all d) refl)
  | inr big ↦ (cap, rw big refl)
]

grow_zero : (f need : ℕ) → 0 < need → grow f 0 need ≡ none
unfolding grow
grow_zero zero need h = refl
grow_zero (suc f) need h = rw (lt→ltb 0 need h, grow_zero f need h) refl

-- A capacity that is a power of two at most 2 ^ 63 never reaches a need above that: it falls to 0.
pub grow_never :
    (fuel k cap need : ℕ)
    → cap * 2 ^ k ≡ 9223372036854775808
    → 9223372036854775808 < need
    → grow fuel cap need ≡ none
unfolding grow
grow_never zero k cap need e h = refl
grow_never (suc f) zero cap need e h =
    let c : cap ≡ 9223372036854775808 = omega (arith, e) in
    let w : u64 (cap * 2) ≡ 0 = omega (arith, c) in
    rw (lt→ltb cap need (omega (arith, c, h)), w, grow_zero f need (omega (arith, h))) refl
grow_never (suc f) (suc k) cap need e h =
    let p : cap * 2 ^ suc k ≡ cap * 2 * 2 ^ k =
      ap (λ (t : ℕ). cap * t) (pow-suc 2 k ∙ mul_comm (2 ^ k) 2) ∙ sym (mul_assoc cap 2 (2 ^ k)) in
    let b : cap * 2 ≤ 9223372036854775808 = grind (arith, p, e, one-le-pow k 2) in
    let w : u64 (cap * 2) ≡ cap * 2 = omega (arith, b) in
    rw (lt→ltb cap need (omega (arith, b, h)), w, grow_never f k (cap * 2) need (sym p ∙ e) h) refl
