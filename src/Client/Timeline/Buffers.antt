-- ===== src/Client/Timeline/Buffers.antt =====
-- apps/thinclient/main.c: the targets of the live buffers.
use remote_avapps.Base.{ℕ, ◌+◌, ◌/◌, ◌<◌, ◌≤◌, arith}
use remote_avapps.Client.Timeline.{
  LiveBuffers, target_us, max_us, prefetch_us, buffer_grow, averaged, video_desired,
  update_live_buffer,
}

buffer_grow_bounds :
    (base fetch_ewma seg : ℕ)
    → (prefetch_us ≤ buffer_grow base max_us prefetch_us fetch_ewma seg)
      × (buffer_grow base max_us prefetch_us fetch_ewma seg ≤ max_us)
unfolding buffer_grow
buffer_grow_bounds base fetch_ewma seg = ground arith

-- The targets lie between the prefetch and the maximum.
pub record IsValid (b : LiveBuffers) : Type 0 where
  pub video_min : prefetch_us ≤ b.video_us
  pub video_max : b.video_us ≤ max_us
  pub audio_min : prefetch_us ≤ b.audio_us
  pub audio_max : b.audio_us ≤ max_us

video_desired_bounds :
    (video ewma seg : ℕ)
    → prefetch_us ≤ video
    → video ≤ max_us
    → (prefetch_us ≤ video_desired video ewma seg) × (video_desired video ewma seg ≤ max_us)
unfolding video_desired
video_desired_bounds video ewma seg low high =
    let grown = buffer_grow_bounds target_us ewma seg in ground arith

-- Whatever a fetch took, the targets stay between the prefetch and the maximum.
pub update_live_buffer-IsValid :
    (b : LiveBuffers) (fetch_us seg : ℕ) → IsValid b → IsValid (update_live_buffer b fetch_us seg)
unfolding update_live_buffer
update_live_buffer-IsValid b fetch_us seg v =
    let ewma = averaged b.fetch_ewma_us fetch_us in
    let (low, high) = video_desired_bounds b.video_us ewma seg v.video_min v.video_max in
    let (least, most) = buffer_grow_bounds target_us ewma seg in
    record { video_min = low; video_max = high; audio_min = least; audio_max = most }

-- While fetches take on average less than a quarter of a segment, the video target falls by one
-- second at most.
pub update_live_buffer-shrink :
    (b : LiveBuffers) (fetch_us seg : ℕ)
    → IsValid b
    → averaged b.fetch_ewma_us fetch_us < seg / 4
    → b.video_us ≤ (update_live_buffer b fetch_us seg).video_us + 1000000
unfolding update_live_buffer video_desired
update_live_buffer-shrink b fetch_us seg v fast =
    let high = v.video_max in
    let grown = buffer_grow_bounds target_us (averaged b.fetch_ewma_us fetch_us) seg in ground arith

-- A slower network never makes a target smaller.
pub buffer_grow_mono :
    (base ewma ewma' seg : ℕ)
    → ewma ≤ ewma'
    → seg < 4294967296
    → base ≤ max_us
    → buffer_grow base max_us prefetch_us ewma seg ≤ buffer_grow base max_us prefetch_us ewma' seg
unfolding buffer_grow
buffer_grow_mono base ewma ewma' seg h small low = ground arith
