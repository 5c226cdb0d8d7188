-- ===== src/DashSim/Chunks.antt =====
-- tools/vmc-dash-sim/main.c and apps/thinclient/main.c: the chunks that the server sends, as the
-- client decodes them.
use remote_avapps.Base.{
  map, append-nil, ℕ, zero, suc, ◌+◌, ◌≤◌, ◌<◌, ◌≡◌, ◌∙◌, refl, sym, ap, ltb, ltb-false, arith,
  Bool, true, false, List, [], ◌∷◌, ◌++◌, length, append_assoc, u64, ◌==◌, length-append,
  take-append, drop-append,
}
use remote_avapps.Base.Text.{crlf, format_hex, strtol16, long_max}
use remote_avapps.Client.Http.Chunked.{
  fetched, skip_end, reserve, room, Chunks, stop, go_on, take_chunk, sized, chunk_turn, turn_then,
  decode_chunks,
}
use remote_avapps.Client.Http.Ends.{reserve_lem}
use remote_avapps.Client.Http.Sizes.{size_turn, format_hex_digits, strtol16-format_hex}
use remote_avapps.Fragment.Assembly.{joined}
use remote_avapps.DashSim.{chunk, last_chunk}

sized_lem :
    (gives : ℕ → Bool) (st : Chunks) (piece s : List ℕ)
    → 0 < length piece
    → (d : ℕ) → reserve gives st.cap (u64 (length st.buf + length piece)) ≡ room d
    → sized gives st (piece ++ (crlf ++ s)) (length piece)
      ≡ go_on (record { buf = st.buf ++ piece; cap = d; rest = s })
unfolding sized take_chunk skip_end
sized_lem gives st piece s h d r =
    let e : (length piece == 0) ≡ false = ground arith in
    let f : ltb (length (piece ++ (crlf ++ s))) (length piece) ≡ false =
      ltb-false _ _ (omega (arith, length-append piece (crlf ++ s))) in
    rw (e, r, f, take-append piece (crlf ++ s), drop-append piece (crlf ++ s)) refl

-- No piece is empty.
abbrev pub AllSome : List (List ℕ) → Type 0
AllSome [] = Unit {0}
AllSome (p ∷ pieces) = (0 < length p) × AllSome pieces

last_turn :
    (gives : ℕ → Bool) (st : Chunks) (s : List ℕ)
    → sized gives st s (strtol16 (48 ∷ [])) ≡ stop (fetched st.buf)
unfolding sized strtol16
last_turn gives st s = refl

module _ (gives : ℕ → Bool) (all : (n : ℕ) → gives n ≡ true) where
  -- A turn on a chunk takes its bytes.
  chunk_turn-chunk :
      (buf : List ℕ) (cap : ℕ) (piece s : List ℕ)
      → 0 < length piece
      → length buf + length piece ≤ long_max
      → (d : ℕ) × (chunk_turn gives (record { buf = buf; cap = cap; rest = chunk piece ++ s })
          ≡ go_on (record { buf = buf ++ piece; cap = d; rest = s }))
  unfolding chunk
  chunk_turn-chunk buf cap piece s some_bytes fits =
      let n = length piece in
      let (h, l, m) = format_hex_digits n in
      let behind = piece ++ (crlf ++ s) in
      let e : (format_hex n ++ (crlf ++ (piece ++ crlf))) ++ s ≡ format_hex n ++ (crlf ++ behind) =
        append_assoc (format_hex n) (crlf ++ (piece ++ crlf)) s
        ∙ ap (λ t. format_hex n ++ (crlf ++ t)) (append_assoc piece crlf s) in
      let (d, r) = reserve_lem gives cap (u64 (length buf + n)) all (omega arith) in
      let taken : sized gives
            (record { buf = buf; cap = cap; rest = format_hex n ++ (crlf ++ behind) }) behind n
          ≡ go_on (record { buf = buf ++ piece; cap = d; rest = s }) =
        sized_lem gives (record { buf = buf; cap = cap; rest = format_hex n ++ (crlf ++ behind) })
          piece s some_bytes d r in
      (
        d,
        rw
            (
              e,
              size_turn gives buf cap (format_hex n) behind h l m,
              strtol16-format_hex n (omega arith),
            )
            taken,
      )

  -- The chunks of pieces, and the last one, give the pieces joined.
  pub decode_chunks-pieces :
      (pieces : List (List ℕ)) (fuel : ℕ) (buf : List ℕ) (cap : ℕ)
      → AllSome pieces
      → length pieces < fuel
      → length buf + length (joined pieces) ≤ long_max
      → decode_chunks fuel gives
          (record { buf = buf; cap = cap; rest = joined (map chunk pieces) ++ last_chunk })
        ≡ fetched (buf ++ joined pieces)
  unfolding decode_chunks turn_then
  decode_chunks-pieces pieces zero buf cap a l f = absurd (omega arith)
  decode_chunks-pieces [] (suc fuel) buf cap a l f =
      ap (λ t. turn_then t (decode_chunks fuel gives))
        (size_turn gives buf cap (48 ∷ []) crlf (refl, tt) (omega arith) (omega arith)
          ∙ last_turn gives (record { buf = buf; cap = cap; rest = last_chunk }) crlf)
      ∙ ap fetched (sym (append-nil buf))
  decode_chunks-pieces (p ∷ pieces) (suc fuel) buf cap (a, b) l f =
      let n = length-append p (joined pieces) in
      let (d, e) =
        chunk_turn-chunk buf cap p (joined (map chunk pieces) ++ last_chunk) a
          (omega (arith, n, f)) in
      rw (append_assoc (chunk p) (joined (map chunk pieces)) last_chunk, e)
        (decode_chunks-pieces pieces fuel (buf ++ p) d b (omega (arith, l))
            (omega (arith, n, f, length-append buf p))
          ∙ ap fetched (append_assoc buf p (joined pieces)))
