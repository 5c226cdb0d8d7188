-- ===== src/Fragment/Assembly.antt =====
-- src/video/fragment.c: a frame whose chunks arrive in order is put together, and a frame with a
-- chunk missing never is.
use remote_avapps.Base.{
  ℕ, ◌+◌, ◌≤◌, ◌≡◌, ◌≢◌, refl, arith, ltb-false, if◌then◌else◌, ==-true, u16, Bool, true, false,
  List, [], ◌∷◌, ◌++◌, length, take, Option, none, some, length-append, append-nil, append_assoc,
  sym, ap, ◌∙◌, ◌⊎◌,
}
use remote_avapps.Status.{Status, ok, out_of_sync}
use remote_avapps.Fragment.{Assembler, feed, begin_frame, add_chunk}
use remote_avapps.Fragment.Spec.{Progress, current, collect, collect_into}
use remote_avapps.Fragment.Refine.{IsValid, view, feed_refines, feed-IsValid, cap-feed}

-- The chunks of a frame from index `i` on, fed one after the other, the last one flagged; the answer
-- is that of the last call.
abbrev pub deliver : Assembler → ℕ → ℕ → List (List ℕ) → Status × Assembler × ℕ
deliver a f i [] = (ok, a, 0)
deliver a f i (c ∷ []) = feed a f i true (some c) (length c)
deliver a f i (c ∷ d ∷ cs) =
    let (st, a', n) = feed a f i false (some c) (length c) in deliver a' f (i + 1) (d ∷ cs)

abbrev pub joined : List (List ℕ) → List ℕ
joined [] = []
joined (c ∷ cs) = c ++ joined cs

abbrev at : ℕ → ℕ → List ℕ → Progress
at f i b = record { frame_id = f; next_index = i; bytes = b }

-- The next chunk of a frame in progress, if it fits.
collect_next :
    (cap : ℕ) (v : Option Progress) (f i : ℕ) (b c : List ℕ) (last : Bool)
    → current v f ≡ at f i b
    → length (b ++ c) ≤ cap
    → collect cap v f i last c
      ≡ (if last then (ok, none, some (b ++ c)) else (ok, some (at f (u16 (i + 1)) (b ++ c)), none))
unfolding collect collect_into
collect_next cap v f i b c last e h = rw (e, ==-true i i refl, ltb-false cap (length (b ++ c)) h)

module _ (f : ℕ) where
  current-at :
      (i : ℕ) (b : List ℕ) (v : Option Progress) → v ≡ some (at f i b) → current v f ≡ at f i b
  current-at i b v e = rw (e, ==-true f f refl)

  module _ (a : Assembler) (i : ℕ) (b c : List ℕ) (v : IsValid a)
      (e : current (view a) f ≡ at f i b) (fits : length (b ++ c) ≤ a.cap) where
    feed_last :
        let (st, a', n) = feed a f i true (some c) (length c) in
        (st ≡ ok) × (view a' ≡ none) × (n ≡ length (b ++ c)) × (take n a'.buf ≡ b ++ c)
    feed_last =
        let r =
          rw (collect_next a.cap (view a) f i b c true e fits) at
            (feed_refines a f i true (some c) v) in
        (r.0, r.1, r.2.0, r.2.1)

    feed_more :
        let (st, a', n) = feed a f i false (some c) (length c) in
        view a' ≡ some (at f (u16 (i + 1)) (b ++ c))
    feed_more =
        let r =
          rw (collect_next a.cap (view a) f i b c false e fits) at
            (feed_refines a f i false (some c) v) in
        r.1

  deliver_lem :
      (cs : List (List ℕ)) (a : Assembler) (i : ℕ) (c b : List ℕ)
      → IsValid a
      → current (view a) f ≡ at f i b
      → i + length (c ∷ cs) ≤ 65536
      → length b + length (joined (c ∷ cs)) ≤ a.cap
      → let (st, a', n) = deliver a f i (c ∷ cs) in
        (st ≡ ok)
        × (n ≡ length (b ++ joined (c ∷ cs)))
        × (take n a'.buf ≡ b ++ joined (c ∷ cs))
        × (view a' ≡ none)
        × IsValid a'
  deliver_lem [] a i c b v e small fits =
      let room : length (b ++ c) ≤ a.cap = omega (arith, length-append b c, length-append c []) in
      let (st, gone, n, bytes) = feed_last a i b c v e room in
      let tail : b ++ (c ++ []) ≡ b ++ c = ap (λ l. b ++ l) (append-nil c) in
      (st, n ∙ ap length (sym tail), bytes ∙ sym tail, gone, feed-IsValid a f i true (some c) _ v)
  deliver_lem (d ∷ cs) a i c b v e small fits =
      let room : length (b ++ c) ≤ a.cap =
        omega (arith, length-append b c, length-append c (joined (d ∷ cs))) in
      let a' : Assembler = (feed a f i false (some c) (length c)).1 in
      let next : u16 (i + 1) ≡ i + 1 = omega arith in
      let held : view a' ≡ some (at f (i + 1) (b ++ c)) =
        feed_more a i b c v e room ∙ ap (λ k. some (at f k (b ++ c))) next in
      let total : length (b ++ c) + length (joined (d ∷ cs)) ≤ a'.cap = omega (
        arith,
        length-append b c,
        length-append c (joined (d ∷ cs)),
        cap-feed a f i false (some c) (length c),
      ) in
      let regroup : b ++ c ++ joined (d ∷ cs) ≡ b ++ (c ++ joined (d ∷ cs)) =
        append_assoc b c (joined (d ∷ cs)) in
      let (st, n, bytes, gone, v') =
        deliver_lem cs a' (i + 1) d (b ++ c) (feed-IsValid a f i false (some c) (length c) v)
          (current-at (i + 1) (b ++ c) (view a') held) (omega arith) total in
      (st, n ∙ ap length regroup, bytes ∙ regroup, gone, v')

-- Start with a valid assembler that is not in the middle of this very frame, and feed the chunks of
-- a frame in order, at most 65536 of them and together no longer than the capacity: the last call
-- returns success and the total length, the buffer starts with the joined chunks, and the assembler
-- is ready for another frame.
pub deliver-joined :
    (a : Assembler) (f : ℕ) (c : List ℕ) (cs : List (List ℕ))
    → IsValid a
    → (a.started ≡ false) ⊎ (a.frame_id ≢ f)
    → length (c ∷ cs) ≤ 65536
    → length (joined (c ∷ cs)) ≤ a.cap
    → let (st, a', n) = deliver a f 0 (c ∷ cs) in
      (st ≡ ok)
      × (n ≡ length (joined (c ∷ cs)))
      × (take n a'.buf ≡ joined (c ∷ cs))
      × (a'.started ≡ false)
      × IsValid a'
deliver-joined a f c cs v ready small fits =
    let (st, n, bytes, gone, v') =
      deliver_lem f cs a 0 c [] v (begins a.started refl) (omega arith) (omega arith) in
    (st, n, bytes, stopped (deliver a f 0 (c ∷ cs)).1 gone, v')
  where
    begins : (s : Bool) → a.started ≡ s → current (view a) f ≡ at f 0 []
    begins s e = ground arith

    stopped : (a' : Assembler) → view a' ≡ none → a'.started ≡ false
    stopped a' g = ground arith

-- A fragment that is not the first of its frame, and for which its frame is not in progress or is at
-- another index, is refused as out of sync, completes nothing, and drops the frame in progress. Its
-- data pointer is not NULL unless its length is 0.
pub feed_gap :
    (a : Assembler) (f i : ℕ) (last : Bool) (chunk : Option (List ℕ)) (len : ℕ)
    → (len ≡ 0) ⊎ ((c : List ℕ) × (chunk ≡ some c))
    → i ≢ 0
    → (a.started ≡ false) ⊎ (a.frame_id ≢ f) ⊎ (a.next_index ≢ i)
    → let (st, a', n) = feed a f i last chunk len in
      (st ≡ out_of_sync) × (a'.started ≡ false) × (n ≡ 0)
unfolding feed begin_frame add_chunk
feed_gap a f i last chunk len given later gap = ground arith
