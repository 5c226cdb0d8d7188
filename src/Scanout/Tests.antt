-- ===== src/Scanout/Tests.antt =====
-- Runs of the display, and its theorem at a concrete input.
use remote_avapps.Base.{◌≡◌, refl, arith, true, [], ◌∷◌, replicate, none, some}
use remote_avapps.Status.{io}
use remote_avapps.Scanout.{
  Scanout, no_buffer, no_rec, started, hold_found, next_idx, is_usable, find_usable, submit,
  try_flip, present, fails, handle_events, flip_handler, flip_oldest, flip_stray, free_shown,
  accepted,
}
use remote_avapps.Scanout.Handed.{Handed, next_idx-Handed}

abbrev shown : Scanout
shown = started 3 (replicate 8 no_buffer) (replicate 16 no_rec)

-- Buffer 1 was handed out.
abbrev held : Scanout
held = record shown {
  next = 2;
  last_presented = 1;
  bufs = no_buffer ∷ record no_buffer { busy = true } ∷ replicate 6 no_buffer;
}

held_lem : next_idx shown ≡ some (1, held)
unfolding next_idx find_usable hold_found is_usable started
held_lem = refl

-- A flip that fails leaves its buffer busy, with no flip that would free it.
flip_fails : present held none (fails ∷ []) ≡ (io, held)
unfolding present try_flip started
flip_fails = refl

-- A flip that completes puts its buffer on the screen.
flip_completes : (handle_events (present held none (accepted 5 ∷ [])).1 (9 ∷ [])).on_screen ≡ some 1
unfolding present try_flip started handle_events flip_handler flip_oldest flip_stray free_shown
    submit
flip_completes = refl

next_idx-Handed_example : Handed shown (next_idx shown)
unfolding started
next_idx-Handed_example = next_idx-Handed shown (omega arith) (omega arith)
