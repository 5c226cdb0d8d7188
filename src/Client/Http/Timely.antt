-- ===== src/Client/Http/Timely.antt =====
-- apps/thinclient/main.c: a response that keeps coming is received whole.
use remote_avapps.Base.{
  ℕ, ◌+◌, ◌*◌, ◌<◌, ◌≤◌, ◌≡◌, ◌∙◌, ap, arith, leb, u64, Bool, true, false, List, [], ◌∷◌, ◌++◌,
  length, length-append, append-nil, append_assoc, sym,
}
use remote_avapps.Base.Text.{long_max}
use remote_avapps.Client.Http.Ends.{reserve_lem}
use remote_avapps.Client.Http.Receive.{
  Arrival, interrupted, nothing, would_block, poll_fails, recv_fails, closed, came, RecvTurn, ended,
  keep, after_arrival, receive,
}

-- What an arrival asks of the turns behind it, which have the deadline that it leaves.
abbrev OnTime : ℕ → Arrival → ℕ → (ℕ → Type 0) → Type 0
OnTime timeout interrupted deadline after = after deadline
OnTime timeout nothing deadline after = after deadline
OnTime timeout would_block deadline after = after deadline
OnTime timeout poll_fails deadline after = ⊥
OnTime timeout recv_fails deadline after = ⊥
OnTime timeout closed deadline after = Unit {0}
OnTime timeout (came bytes later) deadline after = after (u64 (later + timeout * 1000))

-- Every turn starts before the deadline that the last bytes set, nothing fails, and the server
-- closes in the end.
abbrev pub Timely : ℕ → ℕ → List RecvTurn → Type 0
Timely timeout deadline [] = ⊥
Timely timeout deadline (t ∷ turns) =
    (t.run ≡ true)
    × (t.now < deadline)
    × OnTime timeout t.found deadline (λ later. Timely timeout later turns)

abbrev before_close : Arrival → List ℕ → List ℕ
before_close (came bytes later) rest = bytes ++ rest
before_close closed rest = []
before_close _ rest = rest

-- The bytes that come before the server closes.
abbrev pub arrived : List RecvTurn → List ℕ
arrived [] = []
arrived (t ∷ turns) = before_close t.found (arrived turns)

module _ (gives : ℕ → Bool) (all : (n : ℕ) → gives n ≡ true) (timeout : ℕ) where
  after_arrival_lem :
      (found : Arrival) (turns : List RecvTurn) (deadline cap : ℕ) (raw : List ℕ)
      → OnTime timeout found deadline (λ later. Timely timeout later turns)
      → length raw + length (before_close found (arrived turns)) ≤ long_max
      → ((deadline' cap' : ℕ) (raw' : List ℕ)
          → Timely timeout deadline' turns
          → length raw' + length (arrived turns) ≤ long_max
          → receive gives timeout turns deadline' cap' raw' ≡ ended (raw' ++ arrived turns))
      → after_arrival gives timeout found deadline cap raw (receive gives timeout turns)
        ≡ ended (raw ++ before_close found (arrived turns))
  unfolding after_arrival keep
  after_arrival_lem interrupted turns deadline cap raw h l rest = rest deadline cap raw h l
  after_arrival_lem nothing turns deadline cap raw h l rest = rest deadline cap raw h l
  after_arrival_lem would_block turns deadline cap raw h l rest = rest deadline cap raw h l
  after_arrival_lem poll_fails turns deadline cap raw h l rest = absurd h
  after_arrival_lem recv_fails turns deadline cap raw h l rest = absurd h
  after_arrival_lem closed turns deadline cap raw h l rest = ap ended (sym (append-nil raw))
  after_arrival_lem (came bytes later) turns deadline cap raw h l rest =
      let n = length-append bytes (arrived turns) in
      let (d, e) =
        reserve_lem gives cap (u64 (length raw + length bytes)) all (omega (arith, n, l)) in
      rw e (
        rest (u64 (later + timeout * 1000)) d (raw ++ bytes) h
          (omega (arith, n, l, length-append raw bytes))
        ∙ ap ended (append_assoc raw bytes (arrived turns)))

  -- A response that keeps coming, each time within the timeout after the bytes before it, is
  -- received whole, however long it takes in all. There is memory for it.
  pub receive-Timely :
      (turns : List RecvTurn) (deadline cap : ℕ) (raw : List ℕ)
      → Timely timeout deadline turns
      → length raw + length (arrived turns) ≤ long_max
      → receive gives timeout turns deadline cap raw ≡ ended (raw ++ arrived turns)
  unfolding receive
  receive-Timely [] deadline cap raw h l = absurd h
  receive-Timely (t ∷ turns) deadline cap raw (r, b, h) l =
      let e : leb deadline t.now ≡ false = ground (arith, b) in
      rw (r, e)
        (after_arrival_lem t.found turns deadline cap raw h l
          (λ d c w k m. receive-Timely turns d c w k m))
