-- ===== src/DashSim/Whole.antt =====
-- tools/vmc-dash-sim/main.c and apps/thinclient/main.c: a finished file, as the client fetches it.
use remote_avapps.Base.{
  ℕ, ◌+◌, ◌*◌, ◌^◌, ◌≤◌, ◌<◌, ◌≡◌, ◌∙◌, refl, sym, ap, ◌==◌, min, arith, Bool, true, Bool-cases,
  inl, inr, List, [], ◌∷◌, ◌++◌, length, length-append, append_assoc, drop, take, take-append,
  take-append-drop, take-append-drop-length, u64, take_long, some,
}
use remote_avapps.Base.Text.{long_max}
use remote_avapps.Client.Http.Chunked.{fetched}
use remote_avapps.Client.Http.Receive.{RecvTurn, fetched_from, http_get}
use remote_avapps.Client.Http.Timely.{Timely, arrived, receive-Timely}
use remote_avapps.DashSim.{content_type, full_loop, serve_full}
use remote_avapps.DashSim.Told.{parse_response-told}

-- What `serve_full` sends of a file is its front.
full_loop_rest :
    (file : List ℕ) (reads : List (ℕ × ℕ)) → (rest : List ℕ) × (full_loop file reads ++ rest ≡ file)
unfolding full_loop
full_loop_rest file [] = (file, refl)
full_loop_rest file ((got, written) ∷ reads) =
    let piece = take (min got 65536) file in
    let (rest, e) = full_loop_rest (drop (length piece) file) reads in
    let whole = take-append-drop-length (min got 65536) file in
    elim (Bool-cases (length piece == 0)) [
      | inl none_read ↦ rw none_read (file, refl)
      | inr read ↦ elim (Bool-cases (written == length piece)) [
        | inl sent ↦
            rw (read, sent)
              (
                rest,
                append_assoc piece (full_loop (drop (length piece) file) reads) rest
                    ∙ ap (λ l. piece ++ l) e
                    ∙ whole,
              )
        | inr cut ↦
            rw (read, cut)
              (
                drop written piece ++ drop (length piece) file,
                sym (append_assoc (take written piece) (drop written piece) _)
                    ∙ ap (λ l. l ++ drop (length piece) file) (take-append-drop written piece)
                    ∙ whole,
              )
      ]
    ]

-- The client fetches a finished file as far as the server wrote it, whatever the server read and
-- wrote: a response that breaks off before the length that it told is a success all the same, with
-- the front of the file that was sent. Every turn of the client starts before the deadline that the
-- bytes before it set, nothing fails on its side until the server closes, and there is memory; the
-- file is below 10 ^ 13 bytes and the response below 2 ^ 63.
pub http_get-serve_full :
    (gives : ℕ → Bool) (timeout start : ℕ) (turns : List RecvTurn) (mpd : Bool) (file : List ℕ)
    (reads : List (ℕ × ℕ))
    → ((k : ℕ) → gives k ≡ true)
    → Timely timeout (u64 (start + timeout * 1000)) turns
    → arrived turns ≡ serve_full (content_type mpd) (some file) reads
    → length file < 10 ^ 13
    → length (arrived turns) ≤ long_max
    → http_get gives timeout start turns
      ≡ some (fetched (take (length (full_loop file reads)) file))
unfolding http_get fetched_from serve_full
http_get-serve_full gives timeout start turns mpd file reads all t e small l =
    let out = full_loop file reads in
    let (rest, whole) = full_loop_rest file reads in
    let front : take (length out) file ≡ out =
      ap (take (length out)) (sym whole) ∙ take-append out rest in
    let fits : take (length file) out ≡ out =
      take_long (length file) out (omega (arith, ap length whole, length-append out rest)) in
    rw
      (
        receive-Timely gives all timeout turns (u64 (start + timeout * 1000)) 0 [] t
            (omega (arith, l)),
        e,
      )
      (ap some
        (parse_response-told mpd (length file) small out gives all ∙ ap fetched (fits ∙ sym front)))
