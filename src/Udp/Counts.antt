-- ===== src/Udp/Counts.antt =====
-- src/transport/udp_transport.c: the counters over a run of sends and receives.
use remote_avapps.Base.{
  ℕ, ◌+◌, ◌≡◌, ◌==◌, refl, arith, if◌then◌else◌, u64, Bool, true, false, Bool-cases, inl, inr, List,
  [], ◌∷◌, Option, none, some, ap, ◌∙◌,
}
use remote_avapps.Status.{Status, ok, again}
use remote_avapps.Udp.{
  Stats, Udp, Io, count, would_block, fails, note_tx, note_rx, udp_send, udp_recv,
}

-- A call of `udp_send` or of `udp_recv`, with what the socket returned.
pub data Call : Type 0 where
  send recv : Io → Call

abbrev pub perform : Udp → Call → Udp
perform u (send r) = (udp_send u r).1
perform u (recv r) = (udp_recv u r).1

abbrev pub run : Udp → List Call → Udp
run u [] = u
run u (c ∷ cs) = run (perform u c) cs

-- The datagrams and the bytes that the calls sent and received.
abbrev pub sent_bytes : List Call → ℕ
sent_bytes [] = 0
sent_bytes (send (count n) ∷ cs) = n + sent_bytes cs
sent_bytes (_ ∷ cs) = sent_bytes cs

abbrev pub sent_packets : List Call → ℕ
sent_packets [] = 0
sent_packets (send (count n) ∷ cs) = 1 + sent_packets cs
sent_packets (_ ∷ cs) = sent_packets cs

abbrev pub received_bytes : List Call → ℕ
received_bytes [] = 0
received_bytes (recv (count n) ∷ cs) = n + received_bytes cs
received_bytes (_ ∷ cs) = received_bytes cs

abbrev pub received_packets : List Call → ℕ
received_packets [] = 0
received_packets (recv (count n) ∷ cs) = (if n == 0 then 0 else 1) + received_packets cs
received_packets (_ ∷ cs) = received_packets cs

-- Equal as 64-bit numbers.
abbrev Same : ℕ → ℕ → Type 0
Same a b = u64 a ≡ u64 b

-- The counters after the calls, modulo 2 ^ 64.
abbrev pub Counted : Stats → Stats → List Call → Type 0
Counted s s' cs =
    Same s'.tx_bytes (s.tx_bytes + sent_bytes cs)
    × Same s'.tx_packets (s.tx_packets + sent_packets cs)
    × Same s'.rx_bytes (s.rx_bytes + received_bytes cs)
    × Same s'.rx_packets (s.rx_packets + received_packets cs)

-- A transport that is open.
abbrev pub opened : Stats → ℕ → Option (List ℕ) → ℕ → Udp
opened s fd buf cap = record { stats = s; fd = some fd; recv_buf = buf; recv_cap = cap }

-- What a call does to the counters.
abbrev noted : Stats → Call → Stats
noted s (send (count n)) = note_tx s n
noted s (recv (count n)) = if n == 0 then s else note_rx s n
noted s _ = s

perform-opened :
    (s : Stats) (fd : ℕ) (buf : Option (List ℕ)) (cap : ℕ) (c : Call)
    → perform (opened s fd buf cap) c ≡ opened (noted s c) fd buf cap
unfolding udp_send udp_recv
perform-opened s fd buf cap (send (count n)) = refl
perform-opened s fd buf cap (send would_block) = refl
perform-opened s fd buf cap (send fails) = refl
perform-opened s fd buf cap (recv (count n)) = by_test (n == 0)
  where
    by_test :
        (b : Bool)
        → (if◌then◌else◌ {A = Status × Udp × Option ℕ} b
            (again, opened s fd buf cap, none)
            (ok, opened (note_rx s n) fd buf cap, some n)).1
          ≡ opened (if b then s else note_rx s n) fd buf cap
    by_test true = refl
    by_test false = refl
perform-opened s fd buf cap (recv would_block) = refl
perform-opened s fd buf cap (recv fails) = refl

Counted-next :
    (s s' : Stats) (c : Call) (cs : List Call) → Counted (noted s c) s' cs → Counted s s' (c ∷ cs)
unfolding note_tx note_rx
Counted-next s s' (send (count n)) cs (a, b, c, d) = (omega (arith, a), omega (arith, b), c, d)
Counted-next s s' (send would_block) cs p = p
Counted-next s s' (send fails) cs p = p
Counted-next s s' (recv (count n)) cs p = elim (Bool-cases (n == 0)) [
  | inl h ↦
      let empty : n ≡ 0 = ground arith in
      let (a, b, c, d) = rw h at p in rw h (a, b, omega (arith, c, empty), omega (arith, d))
  | inr h ↦ let (a, b, c, d) = rw h at p in rw h (a, b, omega (arith, c), omega (arith, d))
]
Counted-next s s' (recv would_block) cs p = p
Counted-next s s' (recv fails) cs p = p

-- Over any run of sends and receives of an open transport, it stays open, and its counters grow by
-- the datagrams and the bytes that went through, modulo 2 ^ 64: a call that would block or fails
-- counts nothing, nor does an empty datagram that is received.
pub run-opened :
    (cs : List Call) (s : Stats) (fd : ℕ) (buf : Option (List ℕ)) (cap : ℕ)
    → (s' : Stats) × (run (opened s fd buf cap) cs ≡ opened s' fd buf cap) × Counted s s' cs
run-opened [] s fd buf cap = (s, refl, (omega arith, omega arith, omega arith, omega arith))
run-opened (c ∷ cs) s fd buf cap =
    let (s', e, p) = run-opened cs (noted s c) fd buf cap in
    (s', ap (λ u. run u cs) (perform-opened s fd buf cap c) ∙ e, Counted-next s s' c cs p)
