-- ===== src/Udp.antt =====
-- src/transport/udp_transport.c and transport.c: the UDP transport. What the socket calls return is
-- an argument: a descriptor or a count, or an error. A closed transport has no descriptor.
pub mod Counts
use remote_avapps.Base.{
  ℕ, ◌+◌, ◌==◌, ltb, if◌then◌else◌, u64, Bool, true, false, not, ◌&&◌, ◌||◌, List, [], ◌∷◌, Option,
  none, some,
}
use remote_avapps.Status.{Status, ok, invalid_arg, io, again, not_connected}

-- The counters of `vmc_transport`.
pub record Stats : Type 0 where
  pub tx_bytes : ℕ
  pub rx_bytes : ℕ
  pub tx_packets : ℕ
  pub rx_packets : ℕ

-- `vmc_udp_transport`; the receive buffer is the caller's, or none for the built-in one.
pub record Udp : Type 0 where
  pub stats : Stats
  pub fd : Option ℕ
  pub recv_buf : Option (List ℕ)
  pub recv_cap : ℕ

-- What a socket call returns: a count, that it would block, or another error.
pub data Io : Type 0 where
  count : ℕ → Io
  would_block : Io
  fails : Io

-- `vmc_transport_note_tx`
unfoldable pub note_tx : Stats → ℕ → Stats
note_tx s n = record s { tx_bytes = u64 (s.tx_bytes + n); tx_packets = u64 (s.tx_packets + 1) }

-- `vmc_transport_note_rx`
unfoldable pub note_rx : Stats → ℕ → Stats
note_rx s n = record s { rx_bytes = u64 (s.rx_bytes + n); rx_packets = u64 (s.rx_packets + 1) }

-- `udp_open`, with what `socket` returns.
unfoldable pub udp_open : Udp → Option ℕ → Status × Udp
udp_open u socket = elim u.fd [
  | some fd ↦ (ok, u)
  | none ↦ elim socket [ none ↦ (io, u) | some fd ↦ (ok, record u { fd = some fd }) ]
]

-- `udp_close`
unfoldable pub udp_close : Udp → Udp
udp_close u = record u { fd = none }

abbrev pub sent : Udp → Io → Status × Udp
sent u (count n) = (ok, record u { stats = note_tx u.stats n })
sent u would_block = (again, u)
sent u fails = (io, u)

-- `udp_send`, with what `send` returns.
unfoldable pub udp_send : Udp → Io → Status × Udp
unfolding note_tx
udp_send u r = elim u.fd [ none ↦ (not_connected, u) | some fd ↦ sent u r ]

-- `*out_len` is written only with a datagram.
abbrev pub got : Udp → Io → Status × Udp × Option ℕ
got u (count n) =
    if n == 0 then (again, u, none) else (ok, record u { stats = note_rx u.stats n }, some n)
got u would_block = (again, u, none)
got u fails = (io, u, none)

-- `udp_recv`, with what `recv` returns, for a caller that passes a place for the length.
unfoldable pub udp_recv : Udp → Io → Status × Udp × Option ℕ
unfolding note_rx
udp_recv u r = elim u.fd [ none ↦ (not_connected, u, none) | some fd ↦ got u r ]

-- `vmc_udp_init`
unfoldable pub udp_init : Option (List ℕ) → ℕ → Status × Udp
udp_init recv_buf recv_cap =
    let zero_stats : Stats = record {
      tx_bytes = 0;
      rx_bytes = 0;
      tx_packets = 0;
      rx_packets = 0;
    } in
    elim recv_buf [
      | none ↦ (ok, record { stats = zero_stats; fd = none; recv_buf = none; recv_cap = 2048 })
      | some buf ↦
          if ltb 0 recv_cap
          then (
            ok,
            record { stats = zero_stats; fd = none; recv_buf = some buf; recv_cap = recv_cap },
          )
          else (ok, record { stats = zero_stats; fd = none; recv_buf = none; recv_cap = 2048 })
    ]

-- The rest of `vmc_udp_connect` once the socket is open: the results of `getaddrinfo` and `connect`.
abbrev pub connected : Status × Udp → Bool → Bool → Status × Udp
connected (ok, u) resolves connects = if resolves && connects then (ok, u) else (io, u)
connected (st, u) resolves connects = (st, u)

-- `vmc_udp_connect`, for a host that is not NULL.
unfoldable pub udp_connect : Udp → ℕ → Option ℕ → Bool → Bool → Status × Udp
unfolding udp_open
udp_connect u port socket resolves connects =
    if port == 0 then (invalid_arg, u) else connected (udp_open u socket) resolves connects
