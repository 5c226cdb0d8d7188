-- ===== src/Client/Timeline/Resync.antt =====
-- apps/thinclient/main.c: what a resynchronisation does to the queued frames.
use remote_avapps.Base.{ℕ, ◌+◌, ◌*◌, ◌<◌, ◌≤◌, arith}
use remote_avapps.Base.Int.{ℤ, ◌-ℤ◌, signed64}
use remote_avapps.Client.Timeline.{
  Timeline, clamp, segment_offset, frame_period_us, shifted, new_anchor,
}

-- A shift keeps the order of two deadlines that fit a signed word.
pub shifted_mono :
    (delta : ℤ) (a b : ℕ) → a ≤ b → b < 9223372036854775808 → shifted delta a ≤ shifted delta b
unfolding shifted clamp
shifted_mono delta a b h small = ground arith

-- The time at which a frame is due for an anchor, before audio starts.
abbrev pub due : Timeline → ℕ → ℤ → ℕ → ℕ
due t anchor seg k = anchor + t.playout_latency_us + segment_offset t seg + k * frame_period_us t

-- What `dash_resync` shifts by.
abbrev shift : Timeline → ℕ → ℤ
shift t wall_now = signed64 (new_anchor t wall_now) -ℤ signed64 t.anchor_wall_us
