-- ===== src/DashSim/Tests.antt =====
-- Runs of the server and the client, and the theorems at concrete inputs.
use remote_avapps.Base.{
  ℕ, zero, suc, ◌<◌, ◌||◌, ◌≤◌, ◌≡◌, ◌≢◌, ◌⊎◌, refl, ap, arith, true, false, List, [], ◌∷◌, ◌++◌,
  append-nil, length, take, none, some,
}
use remote_avapps.Base.Int.{pos}
use remote_avapps.Base.Text.{
  codes, c_str, starts_with, contains, find, before_byte, format_hex, hex_char, format_decimal,
  decimal_from, long_max,
}
use remote_avapps.Client.Http.Chunked.{fetched}
use remote_avapps.Client.Http.Receive.{RecvTurn, came, closed, nothing, http_get}
use remote_avapps.Client.Http.Response.{atoi}
use remote_avapps.Client.Manifest.{
  DashManifest, static_attribute, loaded, divided_by_zero, base_of, load_manifest,
}
use remote_avapps.DashSim.{
  Found, growing, content_type, http_headers, length_line, chunk, cut_chunk, pread, after_read,
  tmp_loop, tail_chunk, sent_chunks, serve_progressive, full_loop, serve_full,
}
use remote_avapps.DashSim.Progress.{ServedWhole}
use remote_avapps.DashSim.Delivery.{http_get-serve_progressive}
use remote_avapps.DashSim.Whole.{http_get-serve_full}
use remote_avapps.DashSim.Patch.{Files, dynamic_attribute, patch_mpd_static, replaced}
use remote_avapps.DashSim.Static.{load_manifest-patch_mpd_static}
use remote_avapps.DashSim.Requests.{
  FileState, temporary, absent, progressive, newest_seg, too_far, conn_handler, conn_handler_served,
}

abbrev segment : List ℕ
segment = 1 ∷ 2 ∷ 13 ∷ 10 ∷ 5 ∷ []

-- Two bytes are read, then one, then the file has its final name.
abbrev grown : Found
grown =
    growing
      (record { size = 2; got = 9; written = 2; exists = true; run = true }
        ∷ record { size = 4; got = 1; written = 1; exists = false; run = true }
        ∷ [])
      (record { size = 5; memory = true; opens = true; got = 9; written = 9 })

chunks_sent :
    sent_chunks segment grown
    ≡ codes "2\r\n"
      ++ (1 ∷ 2 ∷ (codes "\r\n1\r\n" ++ (13 ∷ (codes "\r\n2\r\n" ++ (10 ∷ 5 ∷ codes "\r\n")))))
unfolding sent_chunks chunk cut_chunk pread after_read tmp_loop tail_chunk format_hex hex_char
chunks_sent = refl

-- The response comes after 10 us, and the server closes.
abbrev at_once : List ℕ → List RecvTurn
at_once response =
    record { run = true; now = 5; found = nothing }
    ∷ record { run = true; now = 10; found = came response 20 }
    ∷ record { run = true; now = 30; found = closed }
    ∷ []

progressive_response : List ℕ
progressive_response = serve_progressive (content_type false) segment grown

progressive_short : length progressive_response ≤ long_max
unfolding progressive_response serve_progressive http_headers content_type length_line sent_chunks
    chunk cut_chunk pread after_read tmp_loop tail_chunk format_hex hex_char format_decimal
progressive_short = omega arith

segment-ServedWhole : ServedWhole segment grown
unfolding pread
segment-ServedWhole = ((refl, (refl, tt)), (refl, refl, refl, omega arith, omega arith))

http_get-serve_progressive_example :
    http_get (λ n. true) 1000 0 (at_once progressive_response) ≡ some (fetched segment)
unfolding progressive_response
http_get-serve_progressive_example =
    http_get-serve_progressive (λ n. true) (λ n. refl) 1000 0 (at_once progressive_response) false
      segment grown (refl, omega arith, (refl, omega arith, (refl, omega arith, tt)))
      (append-nil progressive_response) segment-ServedWhole
      (omega (arith, progressive_short, ap length (append-nil progressive_response)))

-- The second write takes one byte of the two: the client fetches three of the five bytes.
abbrev cut_reads : List (ℕ × ℕ)
cut_reads = (2, 2) ∷ (2, 1) ∷ []

cut_loop : full_loop segment cut_reads ≡ 1 ∷ 2 ∷ 13 ∷ []
unfolding full_loop
cut_loop = refl

full_response : List ℕ
full_response = serve_full (content_type false) (some segment) cut_reads

full_short : length full_response ≤ long_max
unfolding full_response serve_full http_headers content_type length_line full_loop format_decimal
full_short = omega arith

http_get-serve_full_example :
    http_get (λ n. true) 1000 0 (at_once full_response)
    ≡ some (fetched (take (length (full_loop segment cut_reads)) segment))
unfolding full_response
http_get-serve_full_example =
    http_get-serve_full (λ n. true) 1000 0 (at_once full_response) false segment cut_reads
      (λ n. refl) (refl, omega arith, (refl, omega arith, (refl, omega arith, tt)))
      (append-nil full_response) (omega arith)
      (omega (arith, full_short, ap length (append-nil full_response)))

abbrev manifest : List ℕ
manifest = codes "<MPD type=\"dynamic\" startNumber=\"7\"/>"

manifest_rewritten : replaced 0 manifest ≡ codes "<MPD type=\"static\" startNumber=\"7\"/>"
unfolding replaced
manifest_rewritten = refl

abbrev address : List ℕ
address = codes "http://box:8080/live.mpd"

base_found : base_of address ≡ some (codes "http://box:8080")
unfolding base_of find before_byte starts_with
base_found = refl

base_given : base_of address ≢ none
base_given e = cc (e, base_found)

says_dynamic :
    (contains dynamic_attribute (c_str manifest) || contains static_attribute (c_str manifest))
    ≡ true
unfolding contains c_str starts_with
says_dynamic = refl

abbrev all_goes_well : Files
all_goes_well = record { reads = true; got = 65535; memory = true; writes = true; written = 65535 }

zero_found : before_byte 0 (7 ∷ 0 ∷ 9 ∷ []) ≡ some (7 ∷ [])
unfolding before_byte
zero_found = refl

new_text_short : length (replaced 0 (c_str manifest)) ≤ 65535
unfolding replaced c_str starts_with
new_text_short = omega arith

load_manifest-patch_mpd_static_example :
    let body = patch_mpd_static all_goes_well manifest in
    let r = load_manifest (λ t. pos 0) (λ t. pos 0) address (7 ∷ 0 ∷ 9 ∷ []) (fetched body) in
    (r ≡ divided_by_zero) ⊎ ((m : DashManifest) × (r ≡ loaded m) × (m.static_mpd ≡ true))
load_manifest-patch_mpd_static_example =
    load_manifest-patch_mpd_static (λ t. pos 0) (λ t. pos 0) address manifest (7 ∷ 0 ∷ 9 ∷ [])
      (7 ∷ []) all_goes_well refl refl refl (omega arith) (omega arith) new_text_short says_dynamic
      base_given zero_found

newest_found :
    newest_seg (codes "chunk-stream0-") (
      some
        (codes "live.mpd" ∷ codes "chunk-stream0-00012.m4s" ∷ codes "chunk-stream0-00009.m4s" ∷ []))
    ≡ pos 12
unfolding newest_seg atoi decimal_from
newest_found = refl

-- The segment appears under its temporary name after two pauses.
abbrev appears : ℕ → FileState
appears zero = absent
appears (suc zero) = absent
appears (suc (suc n)) = temporary

absent_before : (i : ℕ) → i < 2 → appears i ≡ absent
absent_before zero h = refl
absent_before (suc zero) h = refl
absent_before (suc (suc i)) h = absurd (omega arith)

conn_handler_served_example :
    conn_handler
      (codes "/chunk-stream0-00013.m4s")
      (some (pos 13))
      (pos 12)
      appears
      (λ i. true)
      temporary
      true
    ≡ progressive ∷ []
unfolding starts_with too_far
conn_handler_served_example =
    conn_handler_served (codes "/chunk-stream0-00013.m4s") (some (pos 13)) (pos 12) appears
      temporary (λ i. true) (λ i. refl) refl refl refl 2 (omega arith) absent_before (λ e. cc e)
      (λ e. cc e)
