-- ===== src/Evdev.antt =====
-- src/input/evdev_input.c: the capture of touch events. What the reads of the device return, up to
-- the first that finds nothing, is an argument, and so is the clock.
pub mod Poll
mod Tests
use remote_avapps.Base.{
  ℕ, ◌-◌, ◌%◌, ◌==◌, if◌then◌else◌, u16, u32, Bool, true, false, ◌&&◌, ◌||◌, List, [], ◌∷◌, Option,
  none, some,
}
use remote_avapps.Base.Int.{ℤ, pos, negsuc, ltb_ℤ, pos_part, neg_part}
use remote_avapps.Status.{Status, ok, io, again}
use remote_avapps.Batch.{InputEvent, no_event}

-- The event types and codes of `linux/input.h` that the code names. `btn_touch` is the touch
-- key or the key of a finger on it, which the code treats alike.
pub data Kind : Type 0 where
  mt_slot mt_position_x mt_position_y mt_pressure mt_tracking_id btn_touch syn_report ignored : Kind

-- What a `read` returns: an event, a part of one, or an error other than that there is none.
pub data Read : Type 0 where
  event : Kind → ℤ → Read
  short : Read
  broken : Read

-- `(u32)value`
abbrev pub word : ℤ → ℕ
word (pos n) = u32 n
word (negsuc n) = 4294967295 - n % 4294967296

abbrev pub is_zero : ℤ → Bool
is_zero (pos n) = n == 0
is_zero (negsuc n) = false

-- The locals of `evdev_poll`.
pub record Touch : Type 0 where
  pub slot : ℕ
  pub tx : ℕ
  pub ty : ℕ
  pub pressure : ℕ
  pub have_tx : Bool
  pub have_ty : Bool

abbrev pub no_touch : Touch
no_touch = record { slot = 0; tx = 0; ty = 0; pressure = 0; have_tx = false; have_ty = false }

-- VMC_INPUT_TOUCH_MOVE and VMC_INPUT_TOUCH_UP
abbrev pub touch_move : ℕ
touch_move = 1

abbrev pub touch_up : ℕ
touch_up = 2

-- The event that reports that a touch was lifted.
abbrev pub lifted : Touch → ℕ → InputEvent
lifted t now_us = record no_event { kind = touch_up; slot = u16 t.slot; ts_us = u32 now_us }

-- The event that reports a move.
abbrev pub moved : Touch → ℕ → InputEvent
moved t now_us = record no_event {
  kind = touch_move;
  slot = u16 t.slot;
  x = u16 t.tx;
  y = u16 t.ty;
  pressure = u16 t.pressure;
  ts_us = u32 now_us;
}

-- The assignments of the `switch` to the locals.
unfoldable pub track : Touch → Kind → ℤ → Touch
track t mt_slot v = record t { slot = word v }
track t mt_position_x v = record t { tx = word v; have_tx = true }
track t mt_position_y v = record t { ty = word v; have_ty = true }
track t mt_pressure v = record t { pressure = word v }
track t _ v = t

-- The event with which the `switch` returns, if it does.
unfoldable pub report : Touch → Kind → ℤ → ℕ → Option InputEvent
report t mt_tracking_id v now_us = if ltb_ℤ v (pos 0) then some (lifted t now_us) else none
report t btn_touch v now_us = if is_zero v then some (lifted t now_us) else none
report t syn_report v now_us = if t.have_tx || t.have_ty then some (moved t now_us) else none
report t _ v now_us = none

-- The loop of `evdev_poll`: the status, the event, and the reads that are left.
unfoldable pub poll_loop : Touch → ℕ → List Read → Status × Option InputEvent × List Read
poll_loop t now_us [] = (again, none, [])
poll_loop t now_us (broken ∷ reads) = (io, none, reads)
poll_loop t now_us (short ∷ reads) = poll_loop t now_us reads
poll_loop t now_us (event kind v ∷ reads) =
    let rest = poll_loop (track t kind v) now_us reads in
    elim (report t kind v now_us) [ none ↦ rest | some ev ↦ (ok, some ev, reads) ]

-- `evdev_poll` on a device that is open, or not.
unfoldable pub poll : Bool → ℕ → List Read → Status × Option InputEvent × List Read
unfolding poll_loop
poll false now_us reads = (io, none, reads)
poll true now_us reads = poll_loop no_touch now_us reads
