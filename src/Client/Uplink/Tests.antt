-- ===== src/Client/Uplink/Tests.antt =====
-- A run of the input part, and its theorem at a concrete input.
use remote_avapps.Base.{
  ℕ, length-replicate, ◌-◌, ◌<◌, ◌≤◌, ◌≡◌, ◌⊎◌, refl, arith, sub64, u32, [], ◌∷◌, take, drop,
  replicate, none, some,
}
use remote_avapps.Protocol.{header_size}
use remote_avapps.Batch.{InputEvent, Batch, no_event, serialize}
use remote_avapps.Batch
use remote_avapps.Batch.Push.{IsValid, live}
use remote_avapps.Client.Uplink.{Uplink, collect, framed, flush_input, input_flush_ms, batch_header}
use remote_avapps.Client.Uplink.Sent.{Carried, flush_input-deserialize}
use remote_avapps.Client.Uplink.Flush.{AllFit, flush_input_lem}

abbrev pressed : InputEvent
pressed = record no_event { kind = 1; slot = 2; x = 100; y = 200; ts_us = 5 }

abbrev scratch : Batch
scratch = record { events = replicate 32 no_event; count = 9 }

-- The last flush was at 1000 ms.
abbrev idle : Uplink
idle = record { tx_seq = 3; last_input_flush_ms = 1000 }

pressed-AllFit : AllFit (pressed ∷ pressed ∷ [])
pressed-AllFit = (omega arith, (omega arith, tt))

flush_input_lem_example :
    let evs = pressed ∷ pressed ∷ [] in
    let (sent, rest, u') = flush_input idle [] (replicate 531 0) scratch evs 1002 in
    let b = (collect evs (Batch.reset scratch)).0 in
    (rest ≡ drop 33 evs)
    × IsValid b
    × (live b ≡ take 32 evs)
    × (((sub64 1002 1000 < input_flush_ms) × (sent ≡ none) × (u' ≡ idle))
        ⊎ ((input_flush_ms ≤ sub64 1002 1000)
            × (((b.count ≡ 0) × (sent ≡ none) × (u' ≡ idle))
                ⊎ ((0 < b.count)
                    × (u'.last_input_flush_ms ≡ 1002)
                    × (sent
                        ≡ framed
                            (serialize b (some (drop header_size [])) (65552 - header_size))
                            (replicate 531 0)
                            (batch_header b.count (u32 3) 1002))))))
flush_input_lem_example =
    flush_input_lem idle [] (replicate 531 0) scratch (pressed ∷ pressed ∷ []) 1002 refl
      pressed-AllFit

-- The size of `pkt`, shut, so that the buffer is not written out.
unfoldable pkt_size : ℕ
pkt_size = 65552

pkt_size_lem : pkt_size ≡ 65552
unfolding pkt_size
pkt_size_lem = refl

flush_input-deserialize_example :
    Carried
      (flush_input idle
        (replicate pkt_size 0)
        (replicate 531 0)
        scratch
        (pressed ∷ pressed ∷ [])
        1010).0
      (u32 3)
      (take 32 (pressed ∷ pressed ∷ []))
      scratch
flush_input-deserialize_example =
    flush_input-deserialize idle (replicate pkt_size 0) (replicate 531 0) scratch scratch
      (pressed ∷ pressed ∷ []) 1010 refl refl
      (omega (arith, length-replicate {A = ℕ} pkt_size 0, pkt_size_lem)) (omega arith)
      pressed-AllFit (omega arith) (omega arith)
