-- ===== src/Client/Timeline.antt =====
-- apps/thinclient/main.c: the clock of the presentation, the deadlines of the frames and their
-- resynchronisation, and the targets of the live buffers. The clocks are arguments, one for each
-- call of a clock. An `i64` is an integer; its sums are taken to be in range.
pub mod Clock
pub mod Resync
pub mod Buffers
mod Tests
use remote_avapps.Base.{
  ℕ, ◌+◌, ◌-◌, ◌*◌, ◌/◌, ◌==◌, ltb, leb, if◌then◌else◌, u32, u64, sub64, Bool, true, false, not,
  ◌&&◌, ◌||◌, List, map, Option, none, some,
}
use remote_avapps.Base.Int.{ℤ, pos, negsuc, pos_part, ltb_ℤ, ◌+ℤ◌, ◌-ℤ◌, ◌*ℤ◌, signed64}
use remote_avapps.Client.Slots.{FrameSlot, is_free}
use remote_avapps.Client.Present.{Entry}

-- `VMC_AUDIO_PREFILL_US`
abbrev pub audio_prefill_us : ℕ
audio_prefill_us = 1000000

-- `VMC_VIDEO_PREFETCH_US` and `VMC_AUDIO_PREFETCH_US`, which are the same.
abbrev pub prefetch_us : ℕ
prefetch_us = 1000000

-- `VMC_VIDEO_TARGET_US` and `VMC_AUDIO_TARGET_US`
abbrev pub target_us : ℕ
target_us = 2000000

-- `VMC_VIDEO_MAX_US` and `VMC_AUDIO_MAX_US`
abbrev pub max_us : ℕ
max_us = 3000000

-- The globals of the timeline.
pub record Timeline : Type 0 where
  pub stream_fps : ℤ
  pub seg_duration_us : ℕ
  pub anchor_wall_us : ℕ
  pub anchor_seg : ℤ
  pub timeline_adj_us : ℤ
  pub cadence_shift_us : ℤ
  pub playout_latency_us : ℕ
  pub seg_interval_ewma : ℤ
  pub last_seg_arrival_wall : ℕ
  pub audio_pos_us : ℕ
  pub audio_active : Bool
  pub audio_start_wall_us : ℕ
  pub audio_delay_us : ℕ
  pub audio_last_advance_wall : ℕ
  pub clock_fallback_emit_s : ℕ

-- `c < 0 ? 0 : c`
unfoldable pub clamp : ℤ → ℕ
clamp c = if ltb_ℤ c (pos 0) then 0 else pos_part c

-- `tlm_audio_content_at_wall`
unfoldable pub audio_content_at_wall : Timeline → ℕ → ℤ
audio_content_at_wall t wall_us =
    if t.anchor_wall_us == 0
    then negsuc 0
    else if t.audio_start_wall_us == 0 || t.audio_delay_us == 0
    then pos (
        clamp (
          signed64 wall_us
          -ℤ signed64 t.anchor_wall_us
          -ℤ signed64 t.playout_latency_us
          -ℤ t.timeline_adj_us))
    else pos (
        clamp (
          signed64 wall_us
          -ℤ signed64 t.audio_start_wall_us
          -ℤ signed64 t.audio_delay_us
          -ℤ t.timeline_adj_us))

-- The end of `dash_pres_clock`, without the audio clock: the wall time `wall`, and the event when
-- telemetry is on and none was reported in this second, with the time `event_us` that it carries.
unfoldable pub fall_back : Timeline → Bool → ℕ → ℕ → ℕ → ℕ × Timeline × Option ℕ
fall_back t enabled now_us event_us wall =
    if enabled && not (now_us / 1000000 == t.clock_fallback_emit_s)
    then (wall, record t { clock_fallback_emit_s = u32 (now_us / 1000000) }, some event_us)
    else (wall, t, none)

-- `dash_pres_clock`; `wall_1` to `wall_3` are the wall times that it reads, in this order.
unfoldable pub pres_clock : Timeline → Bool → ℕ → ℕ → ℕ → ℕ → ℕ → ℕ × Timeline × Option ℕ
pres_clock t enabled wall_1 wall_2 now_us event_us wall_3 =
    if t.audio_active
      && not (t.audio_pos_us == 0)
      && leb (sub64 wall_1 t.audio_last_advance_wall) 1000000
      && leb t.audio_pos_us (u64 (wall_2 + 200000))
    then (t.audio_pos_us, t, none)
    else fall_back t enabled now_us event_us wall_3

-- The period of a frame, of 24 in a second if the stream does not tell.
unfoldable pub frame_period_us : Timeline → ℕ
frame_period_us t = if ltb_ℤ (pos 0) t.stream_fps then 1000000 / pos_part t.stream_fps else 41666

-- The time of the first frame of the anchor segment, in `dash_au_deadline`.
unfoldable pub base_us : Timeline → ℤ
base_us t =
    if t.audio_start_wall_us == 0
    then signed64 t.anchor_wall_us +ℤ signed64 t.playout_latency_us
    else signed64 t.audio_start_wall_us
      +ℤ signed64 t.audio_delay_us
      -ℤ signed64 t.playout_latency_us

-- `seg_off`
unfoldable pub segment_offset : Timeline → ℤ → ℕ
unfolding clamp
segment_offset t seg_num = clamp ((seg_num -ℤ t.anchor_seg) *ℤ signed64 t.seg_duration_us)

-- `dash_au_deadline`
unfoldable pub au_deadline : Timeline → ℤ → ℤ → ℕ
au_deadline t seg_num k = clamp (
    base_us t
    +ℤ (pos (segment_offset t seg_num) +ℤ k *ℤ pos (frame_period_us t) +ℤ t.timeline_adj_us))

-- The anchor that `dash_resync` computes at a wall time.
unfoldable pub new_anchor : Timeline → ℕ → ℕ
new_anchor t wall_now =
    if not (t.audio_start_wall_us == 0)
    then sub64
        (u64 (
          t.audio_start_wall_us
          + (if t.audio_delay_us == 0 then audio_prefill_us else t.audio_delay_us)))
        t.playout_latency_us
    else sub64 (u64 (wall_now + audio_prefill_us)) t.playout_latency_us

-- A deadline that is shifted.
unfoldable pub shifted : ℤ → ℕ → ℕ
shifted delta deadline_us = clamp (signed64 deadline_us +ℤ delta)

abbrev pub shift_slot : ℤ → FrameSlot → FrameSlot
shift_slot delta s =
    if is_free s.state then s else record s { deadline_us = shifted delta s.deadline_us }

abbrev pub shift_entry : ℤ → Entry → Entry
shift_entry delta e =
    if e.deadline_us == 0 then e else record e { deadline_us = shifted delta e.deadline_us }

abbrev pub is_zero : ℤ → Bool
is_zero (pos n) = n == 0
is_zero (negsuc n) = false

abbrev pub same_seg : ℤ → ℤ → Bool
same_seg a b = not (ltb_ℤ a b) && not (ltb_ℤ b a)

-- The stores of `dash_resync` under the mutex of the anchor.
unfoldable pub re_anchor : Timeline → ℤ → ℕ → Timeline
re_anchor t next_seg wall_now = record t {
  anchor_wall_us = new_anchor t wall_now;
  anchor_seg = next_seg;
  timeline_adj_us = pos 0;
  seg_interval_ewma = pos 0;
  last_seg_arrival_wall = 0;
}

-- `dash_resync`: the timeline, the slots and the entries of the present queue. Its log line and
-- its event are left out.
unfoldable pub resync :
    Timeline → List FrameSlot → List Entry → ℤ → ℕ → Timeline × List FrameSlot × List Entry
resync t slots entries next_seg wall_now =
    let t' = re_anchor t next_seg wall_now in
    let delta = signed64 t'.anchor_wall_us -ℤ signed64 t.anchor_wall_us in
    if not (t.anchor_wall_us == 0) && same_seg t.anchor_seg next_seg && not (is_zero delta)
    then (
      record t' { cadence_shift_us = pos 1 },
      map (shift_slot delta) slots,
      map (shift_entry delta) entries,
    )
    else (t', slots, entries)

-- The average of the fetch times, and the two targets.
pub record LiveBuffers : Type 0 where
  pub fetch_ewma_us : ℕ
  pub video_us : ℕ
  pub audio_us : ℕ

-- `dash_buffer_grow` for a segment duration that is not negative.
unfoldable pub buffer_grow : ℕ → ℕ → ℕ → ℕ → ℕ → ℕ
buffer_grow base max prefetch fetch_ewma seg_duration_us =
    let d1 = if ltb (seg_duration_us / 2) fetch_ewma then u64 (base + 1000000) else base in
    let d2 = if ltb seg_duration_us fetch_ewma then u64 (d1 + 2000000) else d1 in
    let d3 = if ltb (u64 (seg_duration_us * 2)) fetch_ewma then u64 (d2 + 3000000) else d2 in
    let d4 = if ltb (u64 (seg_duration_us * 4)) fetch_ewma then u64 (d3 + 5000000) else d3 in
    let d5 = if ltb max d4 then max else d4 in if ltb d5 prefetch then prefetch else d5

-- The average of `dash_update_live_buffer`.
unfoldable pub averaged : ℕ → ℕ → ℕ
averaged ewma fetch_us = if ewma == 0 then fetch_us else u64 (15 * ewma + fetch_us) / 16

-- The desired size of the video buffer: it shrinks by one second at most while fetches are fast.
unfoldable pub video_desired : ℕ → ℕ → ℕ → ℕ
video_desired video_us ewma seg_duration_us =
    if ltb ewma (seg_duration_us / 4) && ltb target_us video_us
    then (if ltb (target_us + 1000000) video_us then video_us - 1000000 else target_us)
    else buffer_grow target_us max_us prefetch_us ewma seg_duration_us

-- `dash_update_live_buffer`
unfoldable pub update_live_buffer : LiveBuffers → ℕ → ℕ → LiveBuffers
update_live_buffer b fetch_us seg_duration_us =
    let ewma = averaged b.fetch_ewma_us fetch_us in
    record {
      fetch_ewma_us = ewma;
      video_us = video_desired b.video_us ewma seg_duration_us;
      audio_us = buffer_grow target_us max_us prefetch_us ewma seg_duration_us;
    }
