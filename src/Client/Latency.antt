-- ===== src/Client/Latency.antt =====
-- apps/thinclient/main.c: the round trip of a keepalive, and the statistics of the frames. The
-- clock is an argument; a report is returned in place of its line in the log.
pub mod Percentile
mod Tests
use remote_avapps.Base.{
  ℕ, suc, ◌+◌, ◌*◌, ◌/◌, ◌==◌, ltb, leb, if◌then◌else◌, u32, u64, sub32, sub64, Bool, true, false,
  not, List, [], ◌∷◌, set, get_or, Option, none, some,
}

-- The globals `g_rtt_us` to `g_nframe_cnt`, and those of the on-screen time.
pub record Latency : Type 0 where
  pub rtt_us : ℕ
  pub offset_us : ℕ
  pub one_way_us : ℕ
  pub have_offset : Bool
  pub lat_min : ℕ
  pub lat_max : ℕ
  pub lat_sum : ℕ
  pub lat_cnt : ℕ
  pub lat_hist : List ℕ
  pub decode_sum : ℕ
  pub decode_cnt : ℕ
  pub jitter_sum : ℕ
  pub handoff_sum : ℕ
  pub nframe_cnt : ℕ
  pub onscreen_sum : ℕ
  pub onscreen_cnt : ℕ

-- The size of `g_lat_hist`.
abbrev pub buckets : ℕ
buckets = 128

-- `latency_update_rtt`: the time `last_ka_send_us` of the session, the clock, and the echo.
unfoldable pub update_rtt : Latency → ℕ → ℕ → ℕ → Latency
update_rtt l c1 c2 sim_echo_ts =
    let rtt = sub64 c2 c1 in
    if c1 == 0 then l else if leb 1000000 rtt then l else record l {
      rtt_us = u32 rtt;
      one_way_us = u32 (rtt / 2);
      offset_us = sub32 (u32 (u32 c1 + u32 (rtt / 2))) sim_echo_ts;
      have_offset = true;
    }

-- The bucket of a time: one for each millisecond, the last one for all above.
unfoldable pub bucket_of : ℕ → ℕ
bucket_of e2e_us = if leb buckets (u32 (e2e_us / 1000)) then 127 else u32 (e2e_us / 1000)

-- `latency_record` with an offset.
unfoldable pub recorded : Latency → ℕ → ℕ → ℕ → ℕ → Latency
recorded l e2e_us decode_us jitter_us handoff_us = record l {
  decode_sum = u64 (l.decode_sum + decode_us);
  decode_cnt = u64 (l.decode_cnt + 1);
  jitter_sum = u64 (l.jitter_sum + jitter_us);
  handoff_sum = u64 (l.handoff_sum + handoff_us);
  nframe_cnt = u64 (l.nframe_cnt + 1);
  lat_min = if ltb e2e_us l.lat_min then e2e_us else l.lat_min;
  lat_max = if ltb l.lat_max e2e_us then e2e_us else l.lat_max;
  lat_sum = u64 (l.lat_sum + e2e_us);
  lat_cnt = u64 (l.lat_cnt + 1);
  lat_hist = set l.lat_hist (bucket_of e2e_us) (u64 (get_or l.lat_hist (bucket_of e2e_us) 0 + 1));
}

-- `latency_record`
unfoldable pub record_frame : Latency → ℕ → ℕ → ℕ → ℕ → Latency
unfolding recorded
record_frame l e2e_us decode_us jitter_us handoff_us =
    if not l.have_offset then l else recorded l e2e_us decode_us jitter_us handoff_us

-- The loop of `latency_report`, from bucket `i` on.
unfoldable pub percentile : List ℕ → ℕ → ℕ → ℕ → ℕ
percentile [] i acc target = 0
percentile (h ∷ hs) i acc target =
    if leb target (u64 (acc + h)) then i * 1000 else percentile hs (i + 1) (u64 (acc + h)) target

-- The numbers of the log line of `latency_report`.
pub record Report : Type 0 where
  pub n : ℕ
  pub e2e_min : ℕ
  pub e2e_avg : ℕ
  pub e2e_p95 : ℕ
  pub e2e_max : ℕ
  pub queue_avg : ℕ
  pub decode_avg : ℕ
  pub handoff_avg : ℕ
  pub onscreen_avg : ℕ

abbrev average : ℕ → ℕ → ℕ
average sum cnt = if cnt == 0 then 0 else sum / cnt

-- What `latency_report` computes of frames that were measured.
unfoldable pub numbers : Latency → Report
numbers l = record {
  n = l.lat_cnt;
  e2e_min = l.lat_min;
  e2e_avg = l.lat_sum / l.lat_cnt;
  e2e_p95 = percentile l.lat_hist 0 0 (u64 (l.lat_cnt * 95) / 100);
  e2e_max = l.lat_max;
  queue_avg = average l.jitter_sum l.nframe_cnt;
  decode_avg = average l.decode_sum l.decode_cnt;
  handoff_avg = average l.handoff_sum l.nframe_cnt;
  onscreen_avg = average l.onscreen_sum l.onscreen_cnt;
}

-- `latency_report`; none before the first frame.
unfoldable pub report : Latency → Option Report
unfolding numbers
report l = if l.lat_cnt == 0 then none else some (numbers l)
