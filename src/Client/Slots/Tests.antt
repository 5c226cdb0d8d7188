-- ===== src/Client/Slots/Tests.antt =====
-- Runs of the frame slots, and their theorems at concrete inputs.
use remote_avapps.Base.{ℕ, ◌<◌, ◌≤◌, ◌≡◌, ◌≢◌, ◌⊎◌, refl, List, [], ◌∷◌, none, some}
use remote_avapps.Base.Int.{pos}
use remote_avapps.Client.Slots.{
  FrameSlot, Frame, SlotState, free, ready, decoding, writing, find_free, take_write, publish,
  publish_taken, pick, best_ready, start_decoding,
}
use remote_avapps.Client.Slots.Pick.{ReadyAt, best_ready-IsFirst}
use remote_avapps.Client.Slots.Held.{Held}
use remote_avapps.Client.Slots.Pool.{
  Pool, waits, found, decodes, work_state, Move, takes, copies, publishes, finds, marks, Reach,
  here, next, Reach-apart,
}

abbrev slot : SlotState → ℕ → ℕ → FrameSlot
slot st pub_us deadline_us = record {
  buf = 0 ∷ 0 ∷ [];
  len = 0;
  send_ts = 0;
  pub_us = pub_us;
  deadline_us = deadline_us;
  fidx = 0;
  pts_us = pos 0;
  seg = pos 0;
  state = st;
}

-- Two access units without a deadline: the second was published first.
abbrev two_ready : List FrameSlot
two_ready = slot ready 20 0 ∷ slot ready 10 0 ∷ []

later_one_first : best_ready two_ready ≡ some 0
unfolding best_ready pick
later_one_first = refl

best_ready-IsFirst_example :
    (s : FrameSlot) × ReadyAt two_ready 0 s
    × ((s.deadline_us < 0) ⊎ ((s.deadline_us ≡ 0) × (0 ≤ 1)))
unfolding best_ready pick
best_ready-IsFirst_example = best_ready-IsFirst two_ready 0 1 (slot ready 10 0) refl (refl, refl)

abbrev frame : Frame
frame = record {
  len = 2;
  send_ts = 0;
  deadline_us = 900;
  fidx = 7;
  pts_us = pos 0;
  seg = pos 1;
  now_us = 30;
}

abbrev idle : Pool
idle = record { slots = slot free 0 0 ∷ slot free 0 0 ∷ []; reader = none; worker = waits }

-- One unit is published and found, and the mutex is free.
abbrev one_found : Pool
one_found = record {
  slots = publish_taken (slot writing 0 0 ∷ slot free 0 0 ∷ []) 0 (8 ∷ 9 ∷ []) 2 frame;
  reader = none;
  worker = found 0;
}

reached : Reach idle one_found
unfolding take_write find_free publish_taken publish best_ready pick
reached =
    next (next (next (next here (takes 0 refl)) (copies 0 (8 ∷ 9 ∷ []))) (publishes 0 frame))
      (finds 0 refl)

-- The reader takes the other slot before the worker marks its own.
abbrev between : Pool
between = record {
  slots = slot ready 30 900 ∷ slot writing 0 0 ∷ [];
  reader = some 1;
  worker = found 0;
}

abbrev both : Pool
both = record {
  slots = slot decoding 30 900 ∷ slot writing 0 0 ∷ [];
  reader = some 1;
  worker = decodes 0;
}

abbrev ready_first : Pool
ready_first = record {
  slots = slot ready 30 900 ∷ slot free 0 0 ∷ [];
  reader = none;
  worker = waits;
}

to_between : Reach ready_first between
unfolding take_write find_free best_ready pick
to_between = next (next here (finds 0 refl)) (takes 1 refl)

to_both : Reach ready_first both
unfolding start_decoding
to_both = next to_between (marks 0)

Reach-apart_example :
    (◌≢◌ {A = ℕ} 1 0)
    × Held between.slots writing (some 1)
    × Held between.slots (work_state (found 0)) (some 0)
Reach-apart_example = Reach-apart 1 0 to_between refl refl refl refl

take_second :
    Move ready_first (record {
      slots = slot ready 30 900 ∷ slot writing 0 0 ∷ [];
      reader = some 1;
      worker = waits;
    })
unfolding take_write find_free
take_second = takes 1 refl
