-- ===== src/Client/Http/Receive.antt =====
-- apps/thinclient/main.c: the loop of `http_get` that receives the response, on a socket that is
-- connected and has taken the request.
use remote_avapps.Base.{
  ℕ, ◌+◌, ◌*◌, leb, u64, if◌then◌else◌, Bool, not, List, [], ◌∷◌, ◌++◌, length, Option, none, some,
}
use remote_avapps.Client.Http.Chunked.{
  Fetched, failed, Reserved, room, no_memory, never, endless, reserve,
}
use remote_avapps.Client.Http.Response.{parse_response}

-- What a turn finds: the wait is interrupted, fails, or ends without data; or the socket is closed,
-- has nothing, fails, or hands out bytes, after which the clock is read.
pub data Arrival : Type 0 where
  interrupted nothing would_block : Arrival
  poll_fails recv_fails closed : Arrival
  came : List ℕ → ℕ → Arrival

-- A turn: whether the client runs, the clock at its start, and what it finds.
pub record RecvTurn : Type 0 where
  pub run : Bool
  pub now : ℕ
  pub found : Arrival

-- The loop returns, leaves with the bytes that came, does not end in a call, or still waits.
pub data Received : Type 0 where
  aborted : Received
  ended : List ℕ → Received
  stuck : Received
  waiting : Received

-- Bytes that came go behind the others, if there is room, and move the deadline.
unfoldable pub keep : Reserved → List ℕ → (ℕ → List ℕ → Received) → Received
keep never raw go = stuck
keep no_memory raw go = aborted
keep (room cap) raw go = go cap raw

unfoldable pub after_arrival :
    (ℕ → Bool) → ℕ → Arrival → ℕ → ℕ → List ℕ → (ℕ → ℕ → List ℕ → Received) → Received
unfolding keep reserve
after_arrival gives timeout interrupted deadline cap raw go = go deadline cap raw
after_arrival gives timeout nothing deadline cap raw go = go deadline cap raw
after_arrival gives timeout would_block deadline cap raw go = go deadline cap raw
after_arrival gives timeout poll_fails deadline cap raw go = ended raw
after_arrival gives timeout recv_fails deadline cap raw go = ended raw
after_arrival gives timeout closed deadline cap raw go = ended raw
after_arrival gives timeout (came bytes later) deadline cap raw go =
    keep (reserve gives cap (u64 (length raw + length bytes))) (raw ++ bytes)
      (go (u64 (later + timeout * 1000)))

-- The loop over its turns, with the deadline, the capacity and the bytes that came.
unfoldable pub receive : (ℕ → Bool) → ℕ → List RecvTurn → ℕ → ℕ → List ℕ → Received
unfolding after_arrival
receive gives timeout [] deadline cap raw = waiting
receive gives timeout (t ∷ turns) deadline cap raw =
    let rest = after_arrival gives timeout t.found deadline cap raw (receive gives timeout turns) in
    if not t.run then aborted else if leb deadline t.now then ended raw else rest

unfoldable pub fetched_from : (ℕ → Bool) → Received → Option Fetched
unfolding parse_response
fetched_from gives aborted = some failed
fetched_from gives (ended raw) = some (parse_response gives raw)
fetched_from gives stuck = some endless
fetched_from gives waiting = none

-- `http_get` from the time at which it starts to receive; `none` while it waits.
unfoldable pub http_get : (ℕ → Bool) → ℕ → ℕ → List RecvTurn → Option Fetched
unfolding fetched_from receive
http_get gives timeout start turns =
    fetched_from gives (receive gives timeout turns (u64 (start + timeout * 1000)) 0 [])
