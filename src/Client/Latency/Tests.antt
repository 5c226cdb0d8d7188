-- ===== src/Client/Latency/Tests.antt =====
-- Runs of the latency statistics, and their theorems at concrete inputs.
use remote_avapps.Base.{◌≡◌, refl, true, set, replicate}
use remote_avapps.Client.Latency.{Latency, update_rtt, percentile}

-- Nineteen frames of 5 ms and one of 40 ms.
abbrev measured : Latency
measured = record {
  rtt_us = 2000;
  offset_us = 4294967295;
  one_way_us = 1000;
  have_offset = true;
  lat_min = 5000;
  lat_max = 40000;
  lat_sum = 135000;
  lat_cnt = 20;
  lat_hist = set (set (replicate 128 0) 5 19) 40 1;
  decode_sum = 40000;
  decode_cnt = 20;
  jitter_sum = 0;
  handoff_sum = 100;
  nframe_cnt = 20;
  onscreen_sum = 0;
  onscreen_cnt = 0;
}

-- The round trip of a keepalive over the wrap of the 32-bit clock.
rtt_wraps : (update_rtt measured 4294967290 4294967310 4).offset_us ≡ 0
unfolding update_rtt
rtt_wraps = refl

-- With a single frame the percentile reads 0, whatever the frame took.
single_frame : percentile (set (replicate 128 0) 40 1) 0 0 0 ≡ 0
unfolding percentile
single_frame = refl
