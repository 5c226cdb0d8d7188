-- ===== src/Client/Http/Chunked.antt =====
-- apps/thinclient/main.c: the decoding of a chunked body in `http_get`. The bytes of the response
-- from the position `pos` on are a list.
use remote_avapps.Base.{
  ℕ, zero, suc, ◌+◌, ◌*◌, ltb, ◌==◌, if◌then◌else◌, u64, Bool, ◌||◌, List, [], ◌∷◌, ◌++◌, length,
  take, drop, Option, none, some,
}
use remote_avapps.Base.Text.{is_hex, strtol16}

-- What a fetch ends with: the body, a failure, or it does not end. `unfinished` is a decoding that is
-- cut off for want of fuel, and nothing of the program.
pub data Fetched : Type 0 where
  fetched : List ℕ → Fetched
  failed : Fetched
  endless : Fetched
  unfinished : Fetched

-- The line ends between two chunks.
unfoldable pub skip_crlf : List ℕ → List ℕ
skip_crlf [] = []
skip_crlf (c ∷ s) = let rest = skip_crlf s in if c == 13 || c == 10 then rest else c ∷ s

-- The digits of a size, as many as fit the buffer, and what follows.
unfoldable pub take_hex : ℕ → List ℕ → List ℕ × List ℕ
take_hex zero s = ([], s)
take_hex (suc room) [] = ([], [])
take_hex (suc room) (c ∷ s) =
    let rest = take_hex room s in if is_hex c then (c ∷ rest.0, rest.1) else ([], c ∷ s)

-- What follows the line of the size.
unfoldable pub skip_line : List ℕ → List ℕ
skip_line [] = []
skip_line (c ∷ s) = if c == 10 then s else skip_line s

unfoldable pub skip_byte : ℕ → List ℕ → List ℕ
skip_byte b [] = []
skip_byte b (c ∷ s) = if c == b then s else c ∷ s

-- The line end behind a chunk, either byte of which may be missing.
unfoldable pub skip_end : List ℕ → List ℕ
unfolding skip_byte
skip_end s = skip_byte 10 (skip_byte 13 s)

-- The loop that doubles the capacity until it is at least `need`. A double is a `size_t`, so 2 ^ 63
-- is followed by 0. It starts at 2 ^ 18 or above, so it ends within 64 turns or not at all.
unfoldable pub grow : ℕ → ℕ → ℕ → Option ℕ
grow zero cap need = none
grow (suc fuel) cap need =
    let rest = grow fuel (u64 (cap * 2)) need in if ltb cap need then rest else some cap

-- The capacity that the loop starts with.
abbrev pub first_try : ℕ → ℕ
first_try cap = if cap == 0 then 262144 else u64 (cap * 2)

-- What a request for room ends with: the new capacity, no memory, or it does not end.
pub data Reserved : Type 0 where
  room : ℕ → Reserved
  no_memory : Reserved
  never : Reserved

-- The call of `realloc`, which `gives` answers for a size.
unfoldable pub resized : (ℕ → Bool) → Option ℕ → Reserved
resized gives none = never
resized gives (some cap) = if gives cap then room cap else no_memory

unfoldable pub reserve : (ℕ → Bool) → ℕ → ℕ → Reserved
unfolding grow resized
reserve gives cap need =
    if ltb cap need then resized gives (grow 64 (first_try cap) need) else room cap

-- The bytes decoded so far with their capacity, and what is left of the response.
pub record Chunks : Type 0 where
  pub buf : List ℕ
  pub cap : ℕ
  pub rest : List ℕ

-- The end of a turn, or what the next turn starts with.
pub data Turn : Type 0 where
  stop : Fetched → Turn
  go_on : Chunks → Turn

-- The bytes of a chunk, once there is room for them: all of them must have come.
unfoldable pub take_chunk : List ℕ → List ℕ → ℕ → Reserved → Turn
unfolding skip_end
take_chunk buf s sz never = stop endless
take_chunk buf s sz no_memory = stop failed
take_chunk buf s sz (room cap) =
    if ltb (length s) sz
    then stop failed
    else go_on (record { buf = buf ++ take sz s; cap = cap; rest = skip_end (drop sz s) })

-- A turn from the size on.
unfoldable pub sized : (ℕ → Bool) → Chunks → List ℕ → ℕ → Turn
unfolding take_chunk reserve
sized gives st s sz =
    if sz == 0
    then stop (fetched st.buf)
    else take_chunk st.buf s sz (reserve gives st.cap (u64 (length st.buf + sz)))

-- A turn from the size line on, which must not be the end of the response.
unfoldable pub size_line : (ℕ → Bool) → Chunks → List ℕ → Turn
unfolding take_hex skip_line strtol16 sized
size_line gives st [] = stop failed
size_line gives st (c ∷ s) =
    let (hex, behind) = take_hex 31 (c ∷ s) in sized gives st (skip_line behind) (strtol16 hex)

unfoldable pub chunk_turn : (ℕ → Bool) → Chunks → Turn
unfolding skip_crlf size_line
chunk_turn gives st = size_line gives st (skip_crlf st.rest)

unfoldable pub turn_then : Turn → (Chunks → Fetched) → Fetched
turn_then (stop r) go = r
turn_then (go_on st) go = go st

-- The loop over the chunks. Each turn that goes on takes a byte, so the bytes of the response are
-- enough turns.
unfoldable pub decode_chunks : ℕ → (ℕ → Bool) → Chunks → Fetched
unfolding turn_then chunk_turn
decode_chunks zero gives st = unfinished
decode_chunks (suc fuel) gives st = turn_then (chunk_turn gives st) (decode_chunks fuel gives)

unfoldable pub decode_body : (ℕ → Bool) → List ℕ → Fetched
unfolding decode_chunks
decode_body gives s = decode_chunks (suc (length s)) gives (record { buf = []; cap = 0; rest = s })
