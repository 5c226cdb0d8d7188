-- ===== src/DashSim/Delivery.antt =====
-- tools/vmc-dash-sim/main.c and apps/thinclient/main.c: what the client fetches of what the server
-- sends.
use remote_avapps.Base.{
  ℕ, suc, ◌+◌, ◌-◌, ◌≤◌, ◌<◌, ◌≡◌, ◌∙◌, refl, sym, ap, ltb, ltb-false, arith, Bool, true, false,
  List, [], ◌∷◌, ◌++◌, map, length, length-append, drop-append, u64, ◌*◌, some,
}
use remote_avapps.Base.Int.{pos, negsuc}
use remote_avapps.Base.Text.{long_max, crlf, format_hex, format_decimal}
use remote_avapps.Fragment.Assembly.{joined}
use remote_avapps.Client.Http.Chunked.{fetched, decode_body}
use remote_avapps.Client.Http.Response.{
  BodyForm, status_of, header_end, scan_headers, body_of, behind_header, parse_response,
}
use remote_avapps.Client.Http.Receive.{RecvTurn, fetched_from, http_get}
use remote_avapps.Client.Http.Timely.{Timely, arrived, receive-Timely}
use remote_avapps.DashSim.Chunks.{AllSome, decode_chunks-pieces}
use remote_avapps.DashSim.Progress.{ServedWhole, sent_chunks-SentWhole}
use remote_avapps.DashSim.{
  in_chunks, length_line, http_headers, content_type, chunk, last_chunk, Found, sent_chunks,
  serve_progressive,
}

abbrev chunked_form : BodyForm
chunked_form = record { chunked = true; content_length = negsuc 0 }

abbrev pub untold_form : BodyForm
untold_form = record { chunked = false; content_length = negsuc 0 }

-- The client reads the header of a chunked response.
status-chunked :
    (mpd : Bool) (s : List ℕ)
    → status_of (http_headers 200 (content_type mpd) in_chunks ++ s) ≡ pos 200
unfolding status_of http_headers content_type length_line format_decimal
status-chunked true s = refl
status-chunked false s = refl

header_end-chunked :
    (mpd : Bool) (s : List ℕ)
    → header_end 0 (http_headers 200 (content_type mpd) in_chunks ++ s)
      ≡ some (length (http_headers 200 (content_type mpd) in_chunks))
unfolding header_end http_headers content_type length_line format_decimal
header_end-chunked true s = refl
header_end-chunked false s = refl

scan_headers-chunked :
    (mpd : Bool) (s : List ℕ)
    → scan_headers
        (length (http_headers 200 (content_type mpd) in_chunks) - 18)
        (http_headers 200 (content_type mpd) in_chunks ++ s)
        untold_form
      ≡ chunked_form
unfolding scan_headers http_headers content_type length_line format_decimal
scan_headers-chunked true s = refl
scan_headers-chunked false s = refl

header_long : (mpd : Bool) → 12 ≤ length (http_headers 200 (content_type mpd) in_chunks)
unfolding http_headers content_type length_line format_decimal
header_long true = omega arith
header_long false = omega arith

-- A chunk is longer than its piece.
length-chunk : (piece : List ℕ) → length piece < length (chunk piece)
unfolding chunk
length-chunk piece = omega (
  arith,
  length-append (format_hex (length piece)) (crlf ++ (piece ++ crlf)),
  length-append piece crlf,
)

length-chunks :
    (pieces : List (List ℕ))
    → length pieces + length (joined pieces) ≤ length (joined (map chunk pieces))
length-chunks [] = omega arith
length-chunks (p ∷ pieces) = omega (
  arith,
  length-chunk p,
  length-chunks pieces,
  length-append p (joined pieces),
  length-append (chunk p) (joined (map chunk pieces)),
)

-- The body of a chunked response goes to the decoder of chunks.
parse_response-chunked :
    (gives : ℕ → Bool) (mpd : Bool) (body : List ℕ)
    → parse_response gives (http_headers 200 (content_type mpd) in_chunks ++ body)
      ≡ decode_body gives body
unfolding parse_response behind_header body_of
parse_response-chunked gives mpd body =
    let header = http_headers 200 (content_type mpd) in_chunks in
    let long : ltb (length (header ++ body)) 12 ≡ false =
      ltb-false _ 12 (omega (arith, length-append header body, header_long mpd)) in
    rw
      (
        long,
        status-chunked mpd body,
        header_end-chunked mpd body,
        scan_headers-chunked mpd body,
        drop-append header body,
      )
      refl

module _ (gives : ℕ → Bool) (all : (n : ℕ) → gives n ≡ true) where
  decode_body-pieces :
      (pieces : List (List ℕ))
      → AllSome pieces
      → length (joined (map chunk pieces)) ≤ long_max
      → decode_body gives (joined (map chunk pieces) ++ last_chunk) ≡ fetched (joined pieces)
  unfolding decode_body
  decode_body-pieces pieces a l =
      let n = length-append (joined (map chunk pieces)) last_chunk in
      decode_chunks-pieces gives all pieces (suc (length (joined (map chunk pieces) ++ last_chunk)))
        [] 0 a (omega (arith, n, length-chunks pieces)) (omega (arith, l, length-chunks pieces))

  -- The client decodes a whole response of the server to the file.
  parse_response-serve_progressive :
      (mpd : Bool) (file : List ℕ) (found : Found)
      → ServedWhole file found
      → length (serve_progressive (content_type mpd) file found) ≤ long_max
      → parse_response gives (serve_progressive (content_type mpd) file found) ≡ fetched file
  unfolding serve_progressive
  parse_response-serve_progressive mpd file found w l =
      let (pieces, a, out, join) = sent_chunks-SentWhole file found w in
      let body = sent_chunks file found ++ last_chunk in
      let total = length-append (http_headers 200 (content_type mpd) in_chunks) body in
      let short : length (joined (map chunk pieces)) ≤ long_max =
        omega (
          arith,
          ap length (sym out),
          length-append (sent_chunks file found) last_chunk,
          total,
          l,
        ) in
      parse_response-chunked gives mpd body
      ∙ ap (λ t. decode_body gives (t ++ last_chunk)) out
      ∙ decode_body-pieces pieces a short
      ∙ ap fetched join

  -- A segment that the server serves while it grows, or as it is finished, is fetched by the client
  -- as exactly its bytes. Every turn of the client starts before the deadline that the bytes before
  -- it set, nothing fails until the server closes, the server's writes go through, what the loop
  -- leaves is read whole, the response has less than 2 ^ 63 bytes, and there is memory.
  pub http_get-serve_progressive :
      (timeout start : ℕ) (turns : List RecvTurn) (mpd : Bool) (file : List ℕ) (found : Found)
      → Timely timeout (u64 (start + timeout * 1000)) turns
      → arrived turns ≡ serve_progressive (content_type mpd) file found
      → ServedWhole file found
      → length (arrived turns) ≤ long_max
      → http_get gives timeout start turns ≡ some (fetched file)
  unfolding http_get fetched_from
  http_get-serve_progressive timeout start turns mpd file found t e w l =
      rw
        (
          receive-Timely gives all timeout turns (u64 (start + timeout * 1000)) 0 [] t
              (omega (arith, l)),
          e,
        )
        (ap some (parse_response-serve_progressive mpd file found w (rw (← e) l)))
