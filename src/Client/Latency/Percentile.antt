-- ===== src/Client/Latency/Percentile.antt =====
-- apps/thinclient/main.c: the histogram of the latencies, and the percentile read from it.
use remote_avapps.Base.{
  ℕ, zero, suc, ◌+◌, ◌*◌, ◌/◌, ◌<◌, ◌≤◌, ◌≡◌, ◌==◌, inl, inr, refl, arith, leb, if◌then◌else◌, u64,
  Bool, true, false, not, List, [], ◌∷◌, length, set, get_or, take, length-set, Bool-cases, ap, ◌∙◌,
  some,
}
use remote_avapps.Client.Latency.{
  Latency, Report, buckets, bucket_of, recorded, record_frame, percentile, numbers, report,
}

-- The frames counted in a part of the histogram.
abbrev pub total : List ℕ → ℕ
total [] = 0
total (h ∷ hs) = h + total hs

-- Every frame that was counted is in one bucket, and fewer than 2 ^ 57 were.
pub record IsValid (l : Latency) : Type 0 where
  pub size : length l.lat_hist ≡ buckets
  pub counted : total l.lat_hist ≡ l.lat_cnt
  pub few : l.lat_cnt < 144115188075855872

total-set :
    (hs : List ℕ) (i : ℕ)
    → i < length hs
    → (get_or hs i 0 ≤ total hs) × (total (set hs i (get_or hs i 0 + 1)) ≡ total hs + 1)
total-set [] i h = absurd (omega arith)
total-set (x ∷ hs) zero h = omega arith
total-set (x ∷ hs) (suc i) h = omega (arith, total-set hs i (omega arith))

bucket_of-lt : (e : ℕ) → bucket_of e < buckets
unfolding bucket_of
bucket_of-lt e = ground arith

recorded-IsValid :
    (l : Latency) (e2e decode jitter handoff : ℕ)
    → IsValid l
    → l.lat_cnt + 1 < 144115188075855872
    → IsValid (recorded l e2e decode jitter handoff)
      × ((recorded l e2e decode jitter handoff).lat_cnt ≡ l.lat_cnt + 1)
unfolding recorded
recorded-IsValid l e2e decode jitter handoff v more =
    let i = bucket_of e2e in
    let (some_of, one_more) = total-set l.lat_hist i (omega (arith, bucket_of-lt e2e, v.size)) in
    let fits : u64 (get_or l.lat_hist i 0 + 1) ≡ get_or l.lat_hist i 0 + 1 =
      omega (arith, v.counted) in
    let next : u64 (l.lat_cnt + 1) ≡ l.lat_cnt + 1 = omega arith in
    (
      record {
        size = length-set l.lat_hist i _ ∙ v.size;
        counted =
            ap (λ k. total (set l.lat_hist i k)) fits ∙ one_more ∙ omega (arith, next, v.counted);
        few = omega (arith, next);
      },
      next,
    )

-- A frame is counted once there is an offset, and is not before. The histogram stays true to the
-- count, with fewer than 2 ^ 57 frames.
pub record_frame-IsValid :
    (l : Latency) (e2e decode jitter handoff : ℕ)
    → IsValid l
    → l.lat_cnt + 1 < 144115188075855872
    → IsValid (record_frame l e2e decode jitter handoff)
      × ((record_frame l e2e decode jitter handoff).lat_cnt
          ≡ (if l.have_offset then l.lat_cnt + 1 else l.lat_cnt))
unfolding record_frame
record_frame-IsValid l e2e decode jitter handoff v more = either l.have_offset
  where
    either :
        (b : Bool)
        → IsValid (if not b then l else recorded l e2e decode jitter handoff)
          × ((if not b then l else recorded l e2e decode jitter handoff).lat_cnt
              ≡ (if b then l.lat_cnt + 1 else l.lat_cnt))
    either true = recorded-IsValid l e2e decode jitter handoff v more
    either false = (v, refl)

-- The search stops at the first bucket that brings the sum up to the target.
percentile_lem :
    (hs : List ℕ) (i acc target : ℕ)
    → acc + total hs < 18446744073709551616
    → acc < target
    → target ≤ acc + total hs
    → (k : ℕ) × (k < length hs)
      × (percentile hs i acc target ≡ (i + k) * 1000)
      × (acc + total (take k hs) < target)
      × (target ≤ acc + total (take (suc k) hs))
unfolding percentile
percentile_lem [] i acc target h low high = absurd (omega arith)
percentile_lem (x ∷ hs) i acc target h low high =
    let fits : u64 (acc + x) ≡ acc + x = omega arith in
    rw fits (elim (Bool-cases (leb target (acc + x))) [
      | inl enough ↦ rw enough (0, omega arith, omega arith, omega arith, ground arith)
      | inr short ↦
          let (k, in_range, found, below, above) =
            percentile_lem hs (i + 1) (acc + x) target (omega arith) (ground arith) (omega arith) in
          rw short
            (suc k, omega arith, found ∙ omega arith, omega (arith, below), omega (arith, above))
    ])

-- A report after the first frames gives as the 95th percentile the start of a bucket such that the
-- frames of the buckets before it are fewer than 95 % of all, rounded down, and with its own they
-- are at least as many. At least two frames were measured.
pub report-p95 :
    (l : Latency)
    → IsValid l
    → 2 ≤ l.lat_cnt
    → (r : Report) × (report l ≡ some r)
      × ((k : ℕ) × (k < buckets)
          × (r.e2e_p95 ≡ k * 1000)
          × (total (take k l.lat_hist) < l.lat_cnt * 95 / 100)
          × (l.lat_cnt * 95 / 100 ≤ total (take (suc k) l.lat_hist)))
unfolding report
report-p95 l v two =
    let measured : (l.lat_cnt == 0) ≡ false = ground arith in
    let target : u64 (l.lat_cnt * 95) / 100 ≡ l.lat_cnt * 95 / 100 = omega arith in
    let (k, in_range, found, below, above) =
      percentile_lem l.lat_hist 0 0 (l.lat_cnt * 95 / 100) (omega (arith, v.counted)) (omega arith)
        (omega (arith, v.counted)) in
    (
      numbers l,
      rw measured refl,
      (
        k,
        omega (arith, v.size),
        ap (percentile l.lat_hist 0 0) target ∙ found ∙ omega arith,
        omega (arith, below),
        omega (arith, above),
      ),
    )
