-- ===== src/DashSim/Turns.antt =====
-- tools/vmc-dash-sim/main.c: what the loop over a segment that grows sends.
use mathlib.Core.Path.{subst}
use remote_avapps.Base.{
  ℕ, ◌+◌, ◌-◌, ◌<◌, ◌≡◌, ◌∙◌, refl, sym, ap, ◌==◌, min, not, arith, true, false, ◌||◌, Bool-cases,
  inl, inr, List, [], ◌∷◌, ◌++◌, map, length, take, drop, take-append-drop-length, drop-drop,
  append_assoc,
}
use remote_avapps.Fragment.Assembly.{joined}
use remote_avapps.DashSim.Chunks.{AllSome}
use remote_avapps.DashSim.{chunk, TmpTurn, pread, after_read, next_turn, tmp_loop}

pub pread-append :
    (file : List ℕ) (size off want got : ℕ)
    → let piece = pread file size off want got in
      piece ++ drop (off + length piece) file ≡ drop off file
unfolding pread
pread-append file size off want got =
    let n = min got (min want (size - off)) in
    let piece = take n (drop off file) in
    ap (λ l. piece ++ l) (sym (drop-drop off (length piece) file))
    ∙ take-append-drop-length n (drop off file)

-- The bytes sent are the chunks of pieces which, with the file from the offset reached on, are the
-- file from an offset on.
abbrev pub Sent : List ℕ → ℕ → List ℕ × ℕ → Type 0
Sent file off (out, reached) =
    (pieces : List (List ℕ)) × AllSome pieces
    × (out ≡ joined (map chunk pieces))
    × (joined pieces ++ drop reached file ≡ drop off file)

pub Sent-chunk :
    (file piece : List ℕ) (off : ℕ) (rest : List ℕ × ℕ)
    → 0 < length piece
    → piece ++ drop (off + length piece) file ≡ drop off file
    → Sent file (off + length piece) rest
    → Sent file off (chunk piece ++ rest.0, rest.1)
Sent-chunk file piece off rest some_bytes e (pieces, all, out, join) = (
  piece ∷ pieces,
  (some_bytes, all),
  ap (λ l. chunk piece ++ l) out,
  append_assoc piece (joined pieces) _ ∙ ap (λ l. piece ++ l) join ∙ e,
)

Sent-refl : (file : List ℕ) (off : ℕ) → Sent file off ([], off)
Sent-refl file off = ([], tt, refl, refl)

next_turn-Sent :
    (file : List ℕ) (t : TmpTurn) (go : ℕ → List ℕ × ℕ) (off : ℕ)
    → Sent file off (go off)
    → Sent file off (next_turn t go off)
next_turn-Sent file t go off s = elim (Bool-cases (not t.exists || not t.run)) [
  | inl e ↦ rw e (Sent-refl file off)
  | inr e ↦ rw e s
]

after_read-Sent :
    (file piece : List ℕ) (t : TmpTurn) (off : ℕ) (go : ℕ → List ℕ × ℕ)
    → piece ++ drop (off + length piece) file ≡ drop off file
    → t.written ≡ length piece
    → ((k : ℕ) → k ≡ off + length piece → Sent file k (go k))
    → Sent file off (after_read piece t off go)
unfolding after_read
after_read-Sent file [] t off go e w s = s off (omega arith)
after_read-Sent file (b ∷ piece) t off go e w s =
    let f : (t.written == length (b ∷ piece)) ≡ true = ground (arith, w) in
    let n : (length (b ∷ piece) == 0) ≡ false = ground arith in
    rw (n, f)
      (Sent-chunk file (b ∷ piece) off (go (off + length (b ∷ piece))) (omega arith) e
        (s (off + length (b ∷ piece)) refl))

-- Every write of the loop goes through, from an offset on.
abbrev pub AllWritten : List ℕ → List TmpTurn → ℕ → Type 0
AllWritten file [] off = Unit {0}
AllWritten file (t ∷ turns) off =
    let piece = pread file t.size off 65536 t.got in
    (t.written ≡ length piece) × AllWritten file turns (off + length piece)

pub tmp_loop-Sent :
    (file : List ℕ) (turns : List TmpTurn) (off : ℕ)
    → AllWritten file turns off
    → Sent file off (tmp_loop file turns off)
unfolding tmp_loop
tmp_loop-Sent file [] off h = Sent-refl file off
tmp_loop-Sent file (t ∷ turns) off (w, h) =
    after_read-Sent file (pread file t.size off 65536 t.got) t off
      (next_turn t (tmp_loop file turns)) (pread-append file t.size off 65536 t.got) w
      (λ k e.
        next_turn-Sent file t (tmp_loop file turns) k
          (tmp_loop-Sent file turns k (subst (λ i. AllWritten file turns i) (sym e) h)))
