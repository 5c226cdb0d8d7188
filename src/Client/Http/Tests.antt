-- ===== src/Client/Http/Tests.antt =====
-- Responses that the client reads, and the theorems at concrete inputs.
use remote_avapps.Base.{ℕ, ◌+◌, ◌≡◌, ◌≢◌, refl, arith, true, [], ◌∷◌, ◌++◌, none}
use remote_avapps.Base.Int.{ℤ}
use remote_avapps.Base.Text.{codes, crlf, strtol16, long_max}
use remote_avapps.Client.Http.Chunked.{
  Chunks, fetched, failed, endless, unfinished, grow, first_try, stop, chunk_turn, decode_chunks,
  decode_body,
}
use remote_avapps.Client.Http.Response.{atoi, parse_response}
use remote_avapps.Client.Http.Sizes.{AllHex}
use remote_avapps.Client.Http.Ends.{decode_chunks-enough}
use remote_avapps.Client.Http.Endless.{chunk_turn-endless}

-- A chunk with an extension, then the last one.
decoded : decode_body (λ n. true) (codes "\r\n3;x=1\r\nabc\r\n0\r\n\r\n") ≡ fetched (codes "abc")
unfolding decode_body
decoded = refl

-- A chunk that is cut off fails, and a size without a digit ends the body.
cut_off : decode_body (λ n. true) (codes "5\r\nabc") ≡ failed
unfolding decode_body
cut_off = refl

no_digit : decode_body (λ n. true) (codes "1\r\na\r\n<html>\r\n") ≡ fetched (codes "a")
unfolding decode_body
no_digit = refl

-- A body may be shorter than the length that was told.
short_body :
    parse_response (λ n. true) (codes "HTTP/1.1 200 OK\r\nContent-Length: 9\r\n\r\nabc")
    ≡ fetched (codes "abc")
unfolding parse_response
short_body = refl

negative_number : atoi (codes " -12x") ≡ ℤ.negsuc 11
unfolding atoi
negative_number = refl

abbrev two_chunks : Chunks
two_chunks = record { buf = []; cap = 0; rest = codes "2\r\nab\r\n1\r\nc\r\n0\r\n\r\n" }

decode_chunks-enough_example :
    (decode_chunks 20 (λ n. true) two_chunks ≢ unfinished)
    × (decode_chunks 30 (λ n. true) two_chunks ≡ decode_chunks 20 (λ n. true) two_chunks)
decode_chunks-enough_example =
    decode_chunks-enough 20 30 (λ n. true) two_chunks (omega arith) (omega arith)

-- Two bytes are decoded, and the next size is the largest `long`.
abbrev hostile : Chunks
hostile = record { buf = 1 ∷ 2 ∷ []; cap = 262144; rest = codes "7fffffffffffffff" ++ (crlf ++ []) }

largest : strtol16 (codes "7fffffffffffffff") ≡ long_max
unfolding strtol16
largest = refl

digits : AllHex (codes "7fffffffffffffff")
digits = search tt

chunk_turn-endless_example :
    let need = 2 + strtol16 (codes "7fffffffffffffff") in
    (chunk_turn (λ n. true) hostile ≡ stop endless)
    × ((fuel : ℕ) → grow fuel (first_try 262144) need ≡ none)
chunk_turn-endless_example =
    chunk_turn-endless (λ n. true) hostile 44 (codes "7fffffffffffffff") [] refl refl digits
      (omega arith) (omega arith) (omega arith) (omega (arith, largest))
