-- ===== src/Evdev/Tests.antt =====
-- Runs of a poll.
use remote_avapps.Base.{◌≡◌, refl, true, List, [], ◌∷◌, some}
use remote_avapps.Base.Int.{pos}
use remote_avapps.Status.{ok}
use remote_avapps.Evdev.{
  Read, event, mt_slot, mt_position_x, mt_position_y, syn_report, no_touch, poll, poll_loop, track,
  report,
}
use remote_avapps.Evdev.Poll.{Polled, poll-Polled}

-- A second finger moves along one axis: the device names the slot once, and then the axis only.
abbrev second_finger : List Read
second_finger =
    event mt_slot (pos 1)
    ∷ event mt_position_x (pos 500)
    ∷ event mt_position_y (pos 300)
    ∷ event syn_report (pos 0)
    ∷ event mt_position_x (pos 510)
    ∷ event syn_report (pos 0)
    ∷ []

abbrev second_poll : List Read
second_poll = event mt_position_x (pos 510) ∷ event syn_report (pos 0) ∷ []

-- The first poll reports slot 1; the next one reports slot 0, at the position 0 of the other axis.
slot_lost :
    (poll true 9 second_poll ≡ (
      ok,
      some (record { kind = 1; slot = 0; x = 510; y = 0; pressure = 0; buttons = 0; ts_us = 9 }),
      [],
    ))
    × (poll true 9 second_finger ≡ (
      ok,
      some (record { kind = 1; slot = 1; x = 500; y = 300; pressure = 0; buttons = 0; ts_us = 9 }),
      second_poll,
    ))
unfolding poll poll_loop track report
slot_lost = (refl, refl)

poll-Polled_example : Polled no_touch 9 second_finger (poll true 9 second_finger)
poll-Polled_example = poll-Polled 9 second_finger
