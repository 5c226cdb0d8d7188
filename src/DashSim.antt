-- ===== src/DashSim.antt =====
-- tools/vmc-dash-sim/main.c: the server of a live stream, which serves the files of an encoder: a
-- finished file whole (`serve_full`), and a segment that is still being written in chunks
-- (`serve_progressive`). What the file system and the socket answer is an argument; the writes whose
-- result the code ignores are taken to go through.
pub mod Chunks
pub mod Turns
pub mod Progress
pub mod Delivery
pub mod Patch
pub mod Static
pub mod Requests
pub mod Decimal
pub mod Told
pub mod Whole
mod Tests
use remote_avapps.Base.{
  ℕ, zero, suc, ◌+◌, ◌-◌, ltb, ◌==◌, if◌then◌else◌, min, not, Bool, true, false, ◌&&◌, ◌||◌, List,
  [], ◌∷◌, ◌++◌, length, take, drop, Option, none, some,
}
use remote_avapps.Base.Text.{codes, crlf, format_hex, format_decimal}

-- The line of `http_headers` that tells the length of the body, cut to its buffer.
pub data Length : Type 0 where
  in_chunks : Length
  told : ℕ → Length
  untold : Length

unfoldable pub length_line : Length → List ℕ
length_line in_chunks = codes "Transfer-Encoding: chunked\r\n"
length_line (told n) = take 31 (codes "Content-Length: " ++ (format_decimal n ++ crlf))
length_line untold = []

-- `http_headers`, with a type of content short enough for its buffer.
unfoldable pub http_headers : ℕ → List ℕ → Length → List ℕ
http_headers status kind len =
    codes "HTTP/1.1 "
    ++ (format_decimal status
        ++ (codes " OK\r\nContent-Type: "
            ++ (kind
                ++ (crlf
                    ++ (length_line len
                        ++ codes
                            "Cache-Control: no-cache\r\nConnection: close\r\nAccess-Control-Allow-Origin: *\r\n\r\n")))))

-- The type of content that `conn_handler` names, for a path with ".mpd" in it and for another.
unfoldable pub content_type : Bool → List ℕ
content_type true = codes "application/dash+xml"
content_type false = codes "video/iso.segment"

-- A chunk of the chunked transfer coding: the size, and the bytes.
unfoldable pub chunk : List ℕ → List ℕ
chunk piece = format_hex (length piece) ++ (crlf ++ (piece ++ crlf))

-- A chunk of which only so many bytes could be written.
unfoldable pub cut_chunk : List ℕ → ℕ → List ℕ
cut_chunk piece written = format_hex (length piece) ++ (crlf ++ take written piece)

-- What ends the chunks.
abbrev pub last_chunk : List ℕ
last_chunk = 48 ∷ (crlf ++ crlf)

-- A turn of the loop over a segment that grows: its size, which is 0 when `fstat` fails, what a read
-- and a write take, and whether the file has its name and the server runs afterwards.
pub record TmpTurn : Type 0 where
  pub size : ℕ
  pub got : ℕ
  pub written : ℕ
  pub exists : Bool
  pub run : Bool

-- The bytes that `pread` gives of a file with so many bytes, of at most `want` asked for.
unfoldable pub pread : List ℕ → ℕ → ℕ → ℕ → ℕ → List ℕ
pread file size off want got = take (min got (min want (size - off))) (drop off file)

-- The bytes sent from an offset on, and the offset reached, for a turn that read these bytes.
unfoldable pub after_read : List ℕ → TmpTurn → ℕ → (ℕ → List ℕ × ℕ) → List ℕ × ℕ
unfolding chunk cut_chunk
after_read piece t off go =
    if length piece == 0
    then go off
    else if t.written == length piece
    then (let (out, reached) = go (off + length piece) in (chunk piece ++ out, reached))
    else (cut_chunk piece t.written, off)

-- The end of a turn: the file lost its name, the server stops, or there is another turn.
abbrev pub next_turn : TmpTurn → (ℕ → List ℕ × ℕ) → ℕ → List ℕ × ℕ
next_turn t go off = let rest = go off in if not t.exists || not t.run then ([], off) else rest

-- The loop of `serve_progressive` over the turns, from an offset on.
unfoldable pub tmp_loop : List ℕ → List TmpTurn → ℕ → List ℕ × ℕ
unfolding pread after_read
tmp_loop file [] off = ([], off)
tmp_loop file (t ∷ turns) off =
    after_read (pread file t.size off 65536 t.got) t off (next_turn t (tmp_loop file turns))

-- The file under its final name: its size, whether there is memory for the rest of it and it opens,
-- and what a read and a write take.
pub record FinalFile : Type 0 where
  pub size : ℕ
  pub memory : Bool
  pub opens : Bool
  pub got : ℕ
  pub written : ℕ

-- The chunk with what the loop did not send; the line end is written whatever went before.
unfoldable pub tail_chunk : List ℕ → FinalFile → ℕ → List ℕ
unfolding pread cut_chunk
tail_chunk file final off =
    let piece = pread file final.size off (final.size - off) final.got in
    if final.memory && final.opens && not (length piece == 0)
    then cut_chunk piece final.written ++ crlf
    else []

-- What is sent of a file that already has its final name, for the reads and the writes.
unfoldable pub final_loop : List ℕ → ℕ → List (ℕ × ℕ) → ℕ → List ℕ
unfolding pread chunk cut_chunk
final_loop file size [] off = []
final_loop file size ((got, written) ∷ reads) off =
    let piece = pread file size off 65536 got in
    let rest = final_loop file size reads (off + length piece) in
    if length piece == 0
    then []
    else if written == length piece
    then chunk piece ++ rest
    else cut_chunk piece written

-- How a segment is found: under its name while it grows, with the turns of the loop and the final
-- file, or already under its final name, with the size, when it opens, and the reads.
pub data Found : Type 0 where
  growing : List TmpTurn → FinalFile → Found
  finished : Option ℕ → List (ℕ × ℕ) → Found

unfoldable pub sent_chunks : List ℕ → Found → List ℕ
unfolding tmp_loop tail_chunk final_loop
sent_chunks file (growing turns final) =
    let (out, off) = tmp_loop file turns 0 in out ++ tail_chunk file final off
sent_chunks file (finished none reads) = []
sent_chunks file (finished (some size) reads) = final_loop file size reads 0

-- `serve_progressive`: what it writes to the socket.
unfoldable pub serve_progressive : List ℕ → List ℕ → Found → List ℕ
unfolding http_headers sent_chunks
serve_progressive kind file found =
    http_headers 200 kind in_chunks ++ (sent_chunks file found ++ last_chunk)

-- The loop of `serve_full` over the reads and the writes, with what is left of the file.
unfoldable pub full_loop : List ℕ → List (ℕ × ℕ) → List ℕ
full_loop file [] = []
full_loop file ((got, written) ∷ reads) =
    let piece = take (min got 65536) file in
    let rest = full_loop (drop (length piece) file) reads in
    if length piece == 0
    then []
    else if written == length piece
    then piece ++ rest
    else take written piece

-- `serve_full`: what it writes to the socket, for a file that may be missing.
unfoldable pub serve_full : List ℕ → Option (List ℕ) → List (ℕ × ℕ) → List ℕ
unfolding http_headers full_loop
serve_full kind none reads = http_headers 404 (codes "text/plain") untold ++ codes "Not Found\n"
serve_full kind (some file) reads =
    http_headers 200 kind (told (length file)) ++ full_loop file reads
