-- ===== src/Batch/Tests.antt =====
-- Runs of src/input/batch.c, and its theorems at concrete inputs.
use remote_avapps.Base.{ℕ, zero, suc, ◌<◌, ◌≡◌, refl, arith, List, ◌∷◌, replicate, some, get_or}
use remote_avapps.Status.{ok, proto}
use remote_avapps.Wire.{rd16}
use remote_avapps.Batch.{InputEvent, Batch, no_event, serialize, written, deserialize}
use remote_avapps.Batch.Push.{FitsEvent, IsValid}
use remote_avapps.Batch.RoundTrip.{deserialize-serialize}

abbrev touch : InputEvent
touch = record {
  kind = 1;
  slot = 0;
  x = 300;
  y = 65535;
  pressure = 512;
  buttons = 0;
  ts_us = 4000000000;
}

abbrev none_yet : Batch
none_yet = record { events = replicate 32 no_event; count = 0 }

abbrev two : Batch
two = record { events = touch ∷ touch ∷ replicate 30 no_event; count = 2 }

touch-FitsEvent : FitsEvent touch
touch-FitsEvent = omega arith

two_fit : (i : ℕ) → i < 2 → FitsEvent (get_or two.events i no_event)
two_fit zero h = touch-FitsEvent
two_fit (suc zero) h = touch-FitsEvent
two_fit (suc (suc i)) h = absurd (omega arith)

two-IsValid : IsValid two
two-IsValid = record { array = refl; count_in = omega arith; fit = two_fit }

-- A count above 32 is refused, although the datagram is long enough.
too_many : (deserialize (some (33 ∷ replicate 600 0)) 601 none_yet).0 ≡ proto
unfolding deserialize rd16
too_many = refl

deserialize-serialize_example :
    (bytes : List ℕ) × (serialize two (some (replicate 40 0)) 36 ≡ written 34 bytes)
    × (deserialize (some bytes) 34 none_yet
        ≡ (ok, record { events = touch ∷ touch ∷ replicate 30 no_event; count = 2 }))
deserialize-serialize_example =
    deserialize-serialize two (replicate 40 0) 36 none_yet two-IsValid (omega arith) (omega arith)
      refl
