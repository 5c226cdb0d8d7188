-- ===== src/Batch/Event.antt =====
-- src/input/batch.c: the sixteen bytes of one event.
use remote_avapps.Base.{ℕ, ◌+◌, ◌<◌, ◌≤◌, ◌≡◌, refl, arith, List, length, ◌∙◌, ◌⊎◌}
use remote_avapps.Wire.{byte_at, rd16, rd32, wr16, wr32}
use remote_avapps.Wire.Laws.{
  rd16-wr16, rd32-wr32, rd16-wr16_above, rd16-wr32_above, length-wr16, length-wr32, wr16_outside,
  wr32_outside,
}
use remote_avapps.Batch.{InputEvent, event_size, put_event, get_event}
use remote_avapps.Batch.Push.{FitsEvent}

module _ (buf : List ℕ) (p : ℕ) (e : InputEvent) where
  after_kind : List ℕ
  after_kind = wr16 buf p e.kind

  after_slot : List ℕ
  after_slot = wr16 after_kind (p + 2) e.slot

  after_x : List ℕ
  after_x = wr16 after_slot (p + 4) e.x

  after_y : List ℕ
  after_y = wr16 after_x (p + 6) e.y

  after_pressure : List ℕ
  after_pressure = wr16 after_y (p + 8) e.pressure

  after_buttons : List ℕ
  after_buttons = wr16 after_pressure (p + 10) e.buttons

  put_event_lem : put_event buf p e ≡ wr32 after_buttons (p + 12) e.ts_us
  unfolding put_event after_buttons after_pressure after_y after_x after_slot after_kind
  put_event_lem = refl

  lengths :
      (length after_kind ≡ length buf)
      × (length after_slot ≡ length buf)
      × (length after_x ≡ length buf)
      × (length after_y ≡ length buf)
      × (length after_pressure ≡ length buf)
      × (length after_buttons ≡ length buf)
  unfolding after_buttons after_pressure after_y after_x after_slot after_kind
  lengths = simp length-wr16 (refl, refl, refl, refl, refl, refl)

  pub length-put_event : length (put_event buf p e) ≡ length buf
  length-put_event = rw put_event_lem (length-wr32 after_buttons (p + 12) e.ts_us ∙ lengths.5)

  pub put_event_outside :
      (j : ℕ) → (j < p) ⊎ (p + event_size ≤ j) → byte_at (put_event buf p e) j ≡ byte_at buf j
  unfolding after_buttons after_pressure after_y after_x after_slot after_kind
  put_event_outside j h = rw put_event_lem (
      wr32_outside after_buttons (p + 12) e.ts_us j (omega arith)
      ∙ wr16_outside after_pressure (p + 10) e.buttons j (omega arith)
      ∙ wr16_outside after_y (p + 8) e.pressure j (omega arith)
      ∙ wr16_outside after_x (p + 6) e.y j (omega arith)
      ∙ wr16_outside after_slot (p + 4) e.x j (omega arith)
      ∙ wr16_outside after_kind (p + 2) e.slot j (omega arith)
      ∙ wr16_outside buf p e.kind j (omega arith))

  -- Reads at a lower offset see through the later writes.
  see_buttons : (q : ℕ) → q + 2 ≤ p + 12 → rd16 (put_event buf p e) q ≡ rd16 after_buttons q
  see_buttons q h = rw put_event_lem (rd16-wr32_above after_buttons (p + 12) e.ts_us q h)

  see_pressure : (q : ℕ) → q + 2 ≤ p + 10 → rd16 (put_event buf p e) q ≡ rd16 after_pressure q
  see_pressure q h =
      see_buttons q (omega arith)
      ∙ (unfold after_buttons in rd16-wr16_above after_pressure (p + 10) e.buttons q h)

  see_y : (q : ℕ) → q + 2 ≤ p + 8 → rd16 (put_event buf p e) q ≡ rd16 after_y q
  see_y q h =
      see_pressure q (omega arith)
      ∙ (unfold after_pressure in rd16-wr16_above after_y (p + 8) e.pressure q h)

  see_x : (q : ℕ) → q + 2 ≤ p + 6 → rd16 (put_event buf p e) q ≡ rd16 after_x q
  see_x q h = see_y q (omega arith) ∙ (unfold after_y in rd16-wr16_above after_x (p + 6) e.y q h)

  see_slot : (q : ℕ) → q + 2 ≤ p + 4 → rd16 (put_event buf p e) q ≡ rd16 after_slot q
  see_slot q h =
      see_x q (omega arith) ∙ (unfold after_x in rd16-wr16_above after_slot (p + 4) e.x q h)

  see_kind : (q : ℕ) → q + 2 ≤ p + 2 → rd16 (put_event buf p e) q ≡ rd16 after_kind q
  see_kind q h =
      see_slot q (omega arith)
      ∙ (unfold after_slot in rd16-wr16_above after_kind (p + 2) e.slot q h)

  -- An event that was written reads back.
  pub get_event-put_event :
      FitsEvent e → p + event_size ≤ length buf → get_event (put_event buf p e) p ≡ e
  unfolding get_event
  get_event-put_event w fits = λ i. record {
    kind = kind_back i;
    slot = slot_back i;
    x = x_back i;
    y = y_back i;
    pressure = pressure_back i;
    buttons = buttons_back i;
    ts_us = ts_back i;
  }
    where
      kind_back : rd16 (put_event buf p e) p ≡ e.kind
      kind_back =
          see_kind p (omega arith)
          ∙ (unfold after_kind in rd16-wr16 buf p e.kind (omega arith) w.kind_16)

      slot_back : rd16 (put_event buf p e) (p + 2) ≡ e.slot
      slot_back =
          see_slot (p + 2) (omega arith)
          ∙ (unfold after_slot in
              rd16-wr16 after_kind (p + 2) e.slot (omega (arith, lengths)) w.slot_16)

      x_back : rd16 (put_event buf p e) (p + 4) ≡ e.x
      x_back =
          see_x (p + 4) (omega arith)
          ∙ (unfold after_x in rd16-wr16 after_slot (p + 4) e.x (omega (arith, lengths)) w.x_16)

      y_back : rd16 (put_event buf p e) (p + 6) ≡ e.y
      y_back =
          see_y (p + 6) (omega arith)
          ∙ (unfold after_y in rd16-wr16 after_x (p + 6) e.y (omega (arith, lengths)) w.y_16)

      pressure_back : rd16 (put_event buf p e) (p + 8) ≡ e.pressure
      pressure_back =
          see_pressure (p + 8) (omega arith)
          ∙ (unfold after_pressure in
              rd16-wr16 after_y (p + 8) e.pressure (omega (arith, lengths)) w.pressure_16)

      buttons_back : rd16 (put_event buf p e) (p + 10) ≡ e.buttons
      buttons_back =
          see_buttons (p + 10) (omega arith)
          ∙ (unfold after_buttons in
              rd16-wr16 after_pressure (p + 10) e.buttons (omega (arith, lengths)) w.buttons_16)

      ts_back : rd32 (put_event buf p e) (p + 12) ≡ e.ts_us
      ts_back =
          rw put_event_lem
            (rd32-wr32 after_buttons (p + 12) e.ts_us (omega (arith, lengths)) w.ts_us_32)
