-- ===== src/Client/Uplink/Flush.antt =====
-- apps/thinclient/main.c: which input events a turn of the main loop sends.
use remote_avapps.Base.{
  ℕ, zero, suc, ◌+◌, ◌-◌, ◌<◌, ◌≤◌, ◌≡◌, ◌⊎◌, inl, inr, refl, arith, sym, ap, ◌∙◌, ltb, leb, sub64,
  u32, Bool-cases, true, false, List, [], ◌∷◌, ◌++◌, length, take, drop, none, some, append-nil,
  append_assoc,
}
use remote_avapps.Status.{ok, overrun}
use remote_avapps.Protocol.{header_size}
use remote_avapps.Batch.{InputEvent, Batch, max_events, serialize}
use remote_avapps.Batch
use remote_avapps.Batch.Push.{FitsEvent, IsValid, live}
use remote_avapps.Batch.Push
use remote_avapps.Client.Uplink.{
  Uplink, is_overrun, collect, framed, flush_input, input_flush_ms, batch_header,
}

-- Events that fit their widths.
abbrev pub AllFit : List InputEvent → Type 0
AllFit [] = Unit {0}
AllFit (ev ∷ evs) = FitsEvent ev × AllFit evs

push_room :
    (b : Batch) (ev : InputEvent)
    → b.count < max_events
    → (is_overrun (Batch.push b (some ev)).0 ≡ false)
      × ((Batch.push b (some ev)).1.count ≡ b.count + 1)
unfolding Batch.push Batch.full
push_room b ev h =
    let room : leb max_events b.count ≡ false = ground arith in rw room (refl, omega arith)

push_full :
    (b : Batch) (ev : InputEvent) → b.count ≡ max_events → Batch.push b (some ev) ≡ (overrun, b)
unfolding Batch.push Batch.full
push_full b ev h = let full : leb max_events b.count ≡ true = ground arith in rw full refl

take_nil : (n : ℕ) → ◌≡◌ {A = List InputEvent} (take n []) []
take_nil zero = refl
take_nil (suc n) = refl

added :
    (b : Batch) (ev : InputEvent)
    → b.count < max_events
    → (((Batch.push b (some ev)).0 ≡ ok)
        × (b.count < max_events)
        × (live (Batch.push b (some ev)).1 ≡ live b ++ (ev ∷ [])))
      ⊎ ((Batch.push b (some ev) ≡ (overrun, b)) × (b.count ≡ max_events))
    → live (Batch.push b (some ev)).1 ≡ live b ++ (ev ∷ [])
added b ev h (inl (st, room, e)) = e
added b ev h (inr (st, full)) = absurd (omega (arith, h, full))

-- The loop over the events takes as many as the batch has room for, in order, and one more is gone.
collect_lem :
    (evs : List InputEvent) (b : Batch) (room : ℕ)
    → IsValid b
    → AllFit evs
    → b.count + room ≡ max_events
    → IsValid (collect evs b).0
      × (live (collect evs b).0 ≡ live b ++ take room evs)
      × ((collect evs b).1 ≡ drop (suc room) evs)
unfolding collect
collect_lem [] b room v fit e =
    (v, sym (ap (λ l. live b ++ l) (take_nil room) ∙ append-nil (live b)), refl)
collect_lem (ev ∷ evs) b zero v fit e =
    rw (push_full b ev (omega (arith, e))) (v, sym (append-nil (live b)), refl)
collect_lem (ev ∷ evs) b (suc room) v (fits, fit) e =
    let (fine, count) = push_room b ev (omega (arith, e)) in
    let (v', pushed) = Batch.Push.push_lem b ev v fits in
    let b' = (Batch.push b (some ev)).1 in
    let grown : live b' ≡ live b ++ (ev ∷ []) = added b ev (omega (arith, e)) pushed in
    let (w, kept, left) = collect_lem evs b' room v' fit (omega (arith, e, count)) in
    rw fine (
      w,
      kept ∙ ap (λ l. l ++ take room evs) grown ∙ append_assoc (live b) (ev ∷ []) (take room evs),
      left,
    )

-- An input turn polls events that fit their widths into an empty batch. When the time to flush has
-- not come, nothing is sent, and the first 33 of the events are gone. When it has come and there is
-- an event, the first 32 are in the batch that is serialized and sent, and the next one is gone.
pub flush_input_lem :
    (u : Uplink) (pkt batch_pkt : List ℕ) (scratch : Batch) (evs : List InputEvent) (now_ms : ℕ)
    → length scratch.events ≡ max_events
    → AllFit evs
    → let (sent, rest, u') = flush_input u pkt batch_pkt scratch evs now_ms in
      let b = (collect evs (Batch.reset scratch)).0 in
      (rest ≡ drop 33 evs)
      × IsValid b
      × (live b ≡ take 32 evs)
      × (((sub64 now_ms u.last_input_flush_ms < input_flush_ms) × (sent ≡ none) × (u' ≡ u))
          ⊎ ((input_flush_ms ≤ sub64 now_ms u.last_input_flush_ms)
              × (((b.count ≡ 0) × (sent ≡ none) × (u' ≡ u))
                  ⊎ ((0 < b.count)
                      × (u'.last_input_flush_ms ≡ now_ms)
                      × (sent
                          ≡ framed
                              (serialize b (some (drop header_size pkt)) (65552 - header_size))
                              batch_pkt
                              (batch_header b.count (u32 u.tx_seq) now_ms))))))
unfolding flush_input Batch.reset
flush_input_lem u pkt batch_pkt scratch evs now_ms array fit =
    let empty : Batch = Batch.reset scratch in
    let valid : IsValid empty = record {
      array = array;
      count_in = omega arith;
      fit = λ i h. absurd (omega (arith, h));
    } in
    let (v, held, left) = collect_lem evs empty 32 valid fit (omega arith) in
    let b = (collect evs empty).0 in
    elim (Bool-cases (leb input_flush_ms (sub64 now_ms u.last_input_flush_ms))) [
      | inr early ↦
          let soon : sub64 now_ms u.last_input_flush_ms < input_flush_ms = ground arith in
          rw early (left, v, held, inl (soon, refl, refl))
      | inl due ↦
          let late : input_flush_ms ≤ sub64 now_ms u.last_input_flush_ms = ground arith in
          elim (Bool-cases (ltb 0 b.count)) [
            | inr none_held ↦
                let zero_held : b.count ≡ 0 = ground arith in
                rw (due, none_held) (left, v, held, inr (late, inl (zero_held, refl, refl)))
            | inl some_held ↦
                let held_more : 0 < b.count = ground arith in
                rw (due, some_held) (left, v, held, inr (late, inr (held_more, refl, refl)))
          ]
    ]
