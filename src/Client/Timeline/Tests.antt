-- ===== src/Client/Timeline/Tests.antt =====
-- Runs of the timeline, and its theorems at concrete inputs.
use remote_avapps.Base.{[], true}
use remote_avapps.Base.Int.{pos}
use remote_avapps.Client.Slots.{FrameSlot, ready}
use remote_avapps.Client.Present.{Entry}
use remote_avapps.Client.Timeline.{Timeline}

abbrev playing : Timeline
playing = record {
  stream_fps = pos 25;
  seg_duration_us = 2000000;
  anchor_wall_us = 5000000;
  anchor_seg = pos 7;
  timeline_adj_us = pos 0;
  cadence_shift_us = pos 0;
  playout_latency_us = 500000;
  seg_interval_ewma = pos 0;
  last_seg_arrival_wall = 0;
  audio_pos_us = 6100000;
  audio_active = true;
  audio_start_wall_us = 0;
  audio_delay_us = 0;
  audio_last_advance_wall = 5990000;
  clock_fallback_emit_s = 0;
}

-- Frame 3 of the segment after the anchor waits in a slot, and frame 0 of it to be shown.
abbrev waiting : FrameSlot
waiting = record {
  buf = [];
  len = 0;
  send_ts = 0;
  pub_us = 0;
  deadline_us = 7620000;
  fidx = 53;
  pts_us = pos 0;
  seg = pos 8;
  state = ready;
}

abbrev shown_next : Entry
shown_next = record { buf_idx = pos 2; deadline_us = 7500000; pts_us = pos 0 }
