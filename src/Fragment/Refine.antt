-- ===== src/Fragment/Refine.antt =====
-- src/video/fragment.c: the assembler keeps its invariant, and implements its specification.
use remote_avapps.Base.{
  ℕ, ◌+◌, ◌-◌, ◌<◌, ◌≤◌, ◌≡◌, refl, arith, ltb, if◌then◌else◌, sub64, Bool, true, false, ◌&&◌, List,
  ◌++◌, length, take, Option, none, some, take_all, length-take, length-append, ap, ◌∙◌,
}
use remote_avapps.Base.Blocks.{store, take-store, length-store}
use remote_avapps.Status.{Status, ok}
use remote_avapps.Fragment.{
  Assembler, au_max, init, reset, begin_frame, add_chunk, feed, chunk_bytes, is_null,
}
use remote_avapps.Fragment.Spec.{Progress, current, collect_into, collect}

-- The filled part lies within the capacity, and that within the buffer.
pub record IsValid (a : Assembler) : Type 0 where
  pub filled_in : a.filled ≤ a.cap
  pub cap_in : a.cap ≤ length a.buf
  pub cap_small : a.cap ≤ au_max

-- An assembler that `vmc_frag_init` accepts is valid, has a capacity, and collects nothing yet.
pub init-IsValid :
    (a : Assembler) (buf : List ℕ) (cap : ℕ)
    → cap ≤ length buf
    → (init a (some buf) cap).0 ≡ ok
    → IsValid (init a (some buf) cap).1
      × (0 < (init a (some buf) cap).1.cap)
      × ((init a (some buf) cap).1.started ≡ false)
unfolding init reset
init-IsValid a buf cap h e = ground arith

-- Every call of `vmc_frag_feed` keeps the invariant, whatever it is given and whatever it returns.
pub feed-IsValid :
    (a : Assembler) (frame_id frag_index : ℕ) (last : Bool) (chunk : Option (List ℕ)) (len : ℕ)
    → IsValid a
    → IsValid (feed a frame_id frag_index last chunk len).1
unfolding feed begin_frame add_chunk
feed-IsValid a f i last chunk len v = ground (
  arith,
  length-store a.buf a.filled (take len (chunk_bytes chunk)),
  length-store a.buf 0 (take len (chunk_bytes chunk)),
)

-- The frame that an assembler is collecting.
abbrev pub view : Assembler → Option Progress
view a =
    if a.started
    then some
        (record { frame_id = a.frame_id; next_index = a.next_index; bytes = take a.filled a.buf })
    else none

-- What an assembler in progress holds.
abbrev holding : Assembler → Progress
holding a = record { frame_id = a.frame_id; next_index = a.next_index; bytes = take a.filled a.buf }

-- A completed unit as the caller sees it: its length, and its bytes at the start of the buffer.
abbrev pub Delivers : Option (List ℕ) → ℕ → List ℕ → Type 0
Delivers none n buf = n ≡ 0
Delivers (some unit) n buf = (n ≡ length unit) × (take n buf ≡ unit)

begin_frame_lem :
    (a : Assembler) (f : ℕ)
    → IsValid a
    → IsValid (begin_frame a f)
      × (holding (begin_frame a f) ≡ current (view a) f)
      × ((begin_frame a f).started ≡ true)
      × ((begin_frame a f).cap ≡ a.cap)
unfolding begin_frame
begin_frame_lem a f v = ground arith

-- The answers of code and specification agree.
record Agrees (got : Status × Assembler × ℕ) (want : Status × Option Progress × Option (List ℕ))
    : Type 0 where
  pub status : got.0 ≡ want.0
  pub progress : view got.1 ≡ want.1
  pub delivered : Delivers want.2 got.2 got.1.buf

module _ (a : Assembler) (v : IsValid a) (i : ℕ) (last : Bool) (chunk : Option (List ℕ)) where
  c : List ℕ
  c = chunk_bytes chunk

  room : sub64 a.cap a.filled ≡ a.cap - a.filled
  room = omega (arith, v)

  collected : length (take a.filled a.buf ++ c) ≡ a.filled + length c
  collected = omega (arith, length-append (take a.filled a.buf) c, length-take a.filled a.buf, v)

  stored :
      a.filled + length c ≤ a.cap
      → take (a.filled + length c) (store a.buf a.filled (take (length c) c))
        ≡ take a.filled a.buf ++ c
  stored h =
      ap (λ xs. take (a.filled + length c) (store a.buf a.filled xs)) (take_all c)
      ∙ take-store a.buf a.filled c (omega (arith, v))

  add_chunk_lem :
      a.started ≡ true
      → Agrees (add_chunk a i last chunk (length c)) (collect_into a.cap (holding a) i last c)
  unfolding add_chunk collect_into c
  add_chunk_lem s = ground (arith, room, collected, stored)

  Agrees-at :
      (cap : ℕ) (p : Progress)
      → a.cap ≡ cap
      → holding a ≡ p
      → a.started ≡ true
      → Agrees (add_chunk a i last chunk (length c)) (collect_into cap p i last c)
  Agrees-at cap p same_cap same s = rw (← same_cap, ← same) (add_chunk_lem s)

-- Each fragment gets the specification's answer: the same status, the same frame in progress
-- afterwards, and, when the specification completes an access unit, its length and its bytes at the
-- start of the buffer; otherwise the length that is set is 0.
pub feed_refines :
    (a : Assembler) (frame_id frag_index : ℕ) (last : Bool) (chunk : Option (List ℕ))
    → IsValid a
    → let (st, a', n) = feed a frame_id frag_index last chunk (length (chunk_bytes chunk)) in
      let (st', progress, unit) =
        collect a.cap (view a) frame_id frag_index last (chunk_bytes chunk) in
      (st ≡ st') × (view a' ≡ progress) × Delivers unit n a'.buf
unfolding feed collect c
feed_refines a f i last chunk v =
    let (v', same, on, cap) = begin_frame_lem a f v in
    let r = Agrees-at (begin_frame a f) v' i last chunk a.cap (current (view a) f) cap same on in
    rw (no_null chunk) (r.status, r.progress, r.delivered)
  where
    no_null : (k : Option (List ℕ)) → (ltb 0 (length (chunk_bytes k)) && is_null k) ≡ false
    no_null none = refl
    no_null (some xs) = ground arith

pub cap-feed :
    (a : Assembler) (frame_id frag_index : ℕ) (last : Bool) (chunk : Option (List ℕ)) (len : ℕ)
    → (feed a frame_id frag_index last chunk len).1.cap ≡ a.cap
unfolding feed begin_frame add_chunk
cap-feed a f i last chunk len = ground arith
