-- ===== src/DashSim/Progress.antt =====
-- tools/vmc-dash-sim/main.c: a segment that is served while it grows is sent whole, in chunks.
use mathlib.Core.List.{map-append}
use remote_avapps.Base.{
  ℕ, ◌+◌, ◌-◌, ◌≤◌, ◌<◌, ◌≡◌, ◌∙◌, refl, sym, ap, ◌==◌, if◌then◌else◌, min, not, arith, true, false,
  List, [], ◌∷◌, ◌++◌, map, length, take, drop, take_long, drop_long, length-drop, length-take,
  append-nil, append_assoc, none, some,
}
use remote_avapps.Base.Text.{crlf, format_hex}
use remote_avapps.Fragment.Assembly.{joined}
use remote_avapps.DashSim.Chunks.{AllSome}
use remote_avapps.DashSim.{
  chunk, cut_chunk, TmpTurn, pread, tmp_loop, FinalFile, tail_chunk, final_loop, Found, growing,
  finished, sent_chunks,
}
use remote_avapps.DashSim.Turns.{pread-append, Sent, Sent-chunk, AllWritten, tmp_loop-Sent}

-- The file under its final name is whole, and its rest is read and written.
abbrev pub IsWhole : List ℕ → FinalFile → Type 0
IsWhole file final =
    (final.size ≡ length file)
    × (final.memory ≡ true)
    × (final.opens ≡ true)
    × (length file ≤ final.got)
    × (length file ≤ final.written)

-- The pieces whose chunks are sent make up the file.
abbrev pub SentWhole : List ℕ → List ℕ → Type 0
SentWhole file out =
    (pieces : List (List ℕ)) × AllSome pieces
    × (out ≡ joined (map chunk pieces))
    × (joined pieces ≡ file)

cut_chunk_whole :
    (piece : List ℕ) (written : ℕ)
    → length piece ≤ written
    → cut_chunk piece written ++ crlf ≡ chunk piece
unfolding chunk cut_chunk
cut_chunk_whole piece written h =
    let line = format_hex (length piece) in
    rw (take_long written piece h)
      (append_assoc line (crlf ++ piece) crlf ∙ ap (λ l. line ++ l) (append_assoc crlf piece crlf))

joined-snoc : (pieces : List (List ℕ)) (p : List ℕ) → joined (pieces ++ p ∷ []) ≡ joined pieces ++ p
joined-snoc [] p = append-nil p
joined-snoc (q ∷ pieces) p = ap (λ l. q ++ l) (joined-snoc pieces p) ∙ sym (append_assoc q _ p)

AllSome-snoc :
    (pieces : List (List ℕ)) (p : List ℕ)
    → AllSome pieces
    → 0 < length p
    → AllSome (pieces ++ p ∷ [])
AllSome-snoc [] p a h = (h, tt)
AllSome-snoc (q ∷ pieces) p (b, a) h = (b, AllSome-snoc pieces p a h)

-- The chunk of the rest makes the pieces whole.
tail_whole :
    (file tail : List ℕ) (written : ℕ) (pieces : List (List ℕ))
    → AllSome pieces
    → joined pieces ++ tail ≡ file
    → length tail ≤ written
    → SentWhole file (
        joined (map chunk pieces)
        ++ (if not (length tail == 0) then cut_chunk tail written ++ crlf else []))
tail_whole file [] written pieces a e h =
    (pieces, a, append-nil _, sym (append-nil (joined pieces)) ∙ e)
tail_whole file (b ∷ tail) written pieces a e h =
    let n : (length (b ∷ tail) == 0) ≡ false = ground arith in
    rw n (
      pieces ++ (b ∷ tail) ∷ [],
      AllSome-snoc pieces (b ∷ tail) a (omega arith),
      ap (λ l. joined (map chunk pieces) ++ l) (cut_chunk_whole (b ∷ tail) written h)
          ∙ sym (joined-snoc (map chunk pieces) (chunk (b ∷ tail)))
          ∙ ap joined (sym (map-append chunk pieces ((b ∷ tail) ∷ []))),
      joined-snoc pieces (b ∷ tail) ∙ e,
    )

growing-SentWhole :
    (file : List ℕ) (turns : List TmpTurn) (final : FinalFile)
    → AllWritten file turns 0
    → IsWhole file final
    → SentWhole file (sent_chunks file (growing turns final))
unfolding sent_chunks tail_chunk pread
growing-SentWhole file turns final h (size, memory, opens, got, written) =
    let (pieces, a, out, e) = tmp_loop-Sent file turns 0 h in
    let off = (tmp_loop file turns 0).1 in
    let all : take (min final.got (min (final.size - off) (final.size - off))) (drop off file)
        ≡ drop off file =
      take_long _ (drop off file) (omega (arith, length-drop off file, size, got)) in
    rw (all, memory, opens, out)
      (tail_whole file (drop off file) final.written pieces a e
        (omega (arith, length-drop off file, written)))

-- The reads of a finished file go on to its end, and every write goes through.
abbrev pub AllRead : List ℕ → List (ℕ × ℕ) → ℕ → Type 0
AllRead file [] off = length file ≤ off
AllRead file ((got, written) ∷ reads) off =
    let piece = pread file (length file) off 65536 got in
    (0 < got) × (written ≡ length piece) × AllRead file reads (off + length piece)

-- A read of at least a byte gives none only at the end of the file.
pread_stops :
    (file : List ℕ) (off got : ℕ)
    → 0 < got
    → length (pread file (length file) off 65536 got) ≡ 0
    → length file ≤ off
unfolding pread
pread_stops file off got h e = omega (
  arith,
  length-take (min got (min 65536 (length file - off))) (drop off file),
  length-drop off file,
  e,
)

final_loop-Sent :
    (file : List ℕ) (reads : List (ℕ × ℕ)) (off : ℕ)
    → AllRead file reads off
    → Sent file off (final_loop file (length file) reads off, length file)
unfolding final_loop
final_loop-Sent file [] off h =
    ([], tt, refl, drop_long (length file) file (omega arith) ∙ sym (drop_long off file h))
final_loop-Sent file ((got, written) ∷ reads) off (some_bytes, w, h) =
    let piece = pread file (length file) off 65536 got in
    turn piece (pread-append file (length file) off 65536 got) w
      (pread_stops file off got some_bytes) (final_loop-Sent file reads (off + length piece) h)
  where
    turn :
        (piece : List ℕ)
        → piece ++ drop (off + length piece) file ≡ drop off file
        → written ≡ length piece
        → (length piece ≡ 0 → length file ≤ off)
        → Sent file
            (off + length piece)
            (final_loop file (length file) reads (off + length piece), length file)
        → Sent file off (
          (if length piece == 0
              then []
              else if written == length piece
              then chunk piece ++ final_loop file (length file) reads (off + length piece)
              else cut_chunk piece written),
          length file,
        )
    turn [] e v end s = (
      [],
      tt,
      refl,
      drop_long (length file) file (omega arith) ∙ sym (drop_long off file (end refl)),
    )
    turn (b ∷ piece) e v end s =
        let n : (length (b ∷ piece) == 0) ≡ false = ground arith in
        let f : (written == length (b ∷ piece)) ≡ true = ground (arith, v) in
        rw (n, f) (Sent-chunk file (b ∷ piece) off _ (omega arith) e s)

finished-SentWhole :
    (file : List ℕ) (size : ℕ) (reads : List (ℕ × ℕ))
    → size ≡ length file
    → Sent file 0 (final_loop file (length file) reads 0, length file)
    → SentWhole file (sent_chunks file (finished (some size) reads))
unfolding sent_chunks
finished-SentWhole file size reads e (pieces, a, out, join) = (
  pieces,
  a,
  ap (λ n. final_loop file n reads 0) e ∙ out,
  sym (append-nil (joined pieces))
      ∙ ap (λ l. joined pieces ++ l) (sym (drop_long (length file) file (omega arith)))
      ∙ join,
)

-- A segment that is served whole: its final file, and every write.
abbrev pub ServedWhole : List ℕ → Found → Type 0
ServedWhole file (growing turns final) = AllWritten file turns 0 × IsWhole file final
ServedWhole file (finished none reads) = ⊥
ServedWhole file (finished (some size) reads) = (size ≡ length file) × AllRead file reads 0

pub sent_chunks-SentWhole :
    (file : List ℕ) (found : Found)
    → ServedWhole file found
    → SentWhole file (sent_chunks file found)
sent_chunks-SentWhole file (growing turns final) (h, w) = growing-SentWhole file turns final h w
sent_chunks-SentWhole file (finished none reads) h = absurd h
sent_chunks-SentWhole file (finished (some size) reads) (e, h) =
    finished-SentWhole file size reads e (final_loop-Sent file reads 0 h)
