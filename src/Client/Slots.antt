-- ===== src/Client/Slots.antt =====
-- apps/thinclient/main.c: the pool of frame slots between the reader, which assembles access units,
-- and the decode worker. The bytes of the access unit are copied when the slot is published.
pub mod Pick
pub mod Held
pub mod Pool
mod Tests
use remote_avapps.Base.{
  ℕ, zero, suc, ◌+◌, ◌==◌, ltb, leb, if◌then◌else◌, u64, Bool, true, false, ◌&&◌, List, [], ◌∷◌,
  get_or, take, drop, ◌++◌, Option, none, some,
}
use remote_avapps.Base.Blocks.{store}
use remote_avapps.Base.Int.{ℤ}

-- `VMC_FRAME_SLOTS`
abbrev pub frame_slots : ℕ
frame_slots = 512

-- `VMC_VIDEO_AU_MAX`
abbrev pub au_max : ℕ
au_max = 524288

-- The states `SLOT_FREE` to `SLOT_WRITING`.
pub data SlotState : Type 0 where
  free ready decoding writing : SlotState

-- `vmc_frame_slot`
pub record FrameSlot : Type 0 where
  pub buf : List ℕ
  pub len : ℕ
  pub send_ts : ℕ
  pub pub_us : ℕ
  pub deadline_us : ℕ
  pub fidx : ℕ
  pub pts_us : ℤ
  pub seg : ℤ
  pub state : SlotState

abbrev pub is_free : SlotState → Bool
is_free free = true
is_free _ = false

abbrev pub is_ready : SlotState → Bool
is_ready ready = true
is_ready _ = false

-- A write through an index.
abbrev pub update : List FrameSlot → ℕ → (FrameSlot → FrameSlot) → List FrameSlot
update [] i f = []
update (s ∷ ss) zero f = f s ∷ ss
update (s ∷ ss) (suc i) f = s ∷ update ss i f

abbrev pub next_index : Option ℕ → Option ℕ
next_index none = none
next_index (some i) = some (suc i)

-- The `for` loop of `slot_take_write`.
unfoldable pub find_free : List FrameSlot → Option ℕ
find_free [] = none
find_free (s ∷ ss) = if is_free s.state then some 0 else next_index (find_free ss)

abbrev pub mark : SlotState → FrameSlot → FrameSlot
mark st s = record s { state = st }

-- `slot_take_write`: the index and the slots, or none when it waits.
unfoldable pub take_write : List FrameSlot → Option (ℕ × List FrameSlot)
take_write ss = elim (find_free ss) [ none ↦ none | some i ↦ some (i, update ss i (mark writing)) ]

-- The arguments of `slot_publish`, with the clock.
pub record Frame : Type 0 where
  pub len : ℕ
  pub send_ts : ℕ
  pub deadline_us : ℕ
  pub fidx : ℕ
  pub pts_us : ℤ
  pub seg : ℤ
  pub now_us : ℕ

abbrev pub fill : Frame → FrameSlot → FrameSlot
fill f s = record s {
  len = f.len;
  send_ts = f.send_ts;
  pub_us = f.now_us;
  deadline_us = f.deadline_us;
  fidx = f.fidx;
  pts_us = f.pts_us;
  seg = f.seg;
  state = ready;
}

-- `slot_publish`
unfoldable pub publish : List FrameSlot → ℕ → Frame → List FrameSlot
publish ss idx f = update ss idx (fill f)

-- `slot_release`
unfoldable pub release : List FrameSlot → ℕ → List FrameSlot
release ss idx = update ss idx (mark free)

-- The copy of an access unit into a slot.
abbrev pub store_unit : List ℕ → FrameSlot → FrameSlot
store_unit bytes s = record s { buf = store s.buf 0 bytes }

-- `dash_publish_au` on the slot that it took: an access unit that is too large frees it again.
unfoldable pub publish_taken : List FrameSlot → ℕ → List ℕ → ℕ → Frame → List FrameSlot
unfolding publish release
publish_taken ss idx bytes size f =
    if leb size au_max then publish (update ss idx (store_unit bytes)) idx f else release ss idx

-- `dash_publish_au`, with the count of the calls.
unfoldable pub publish_au : List FrameSlot → ℕ → List ℕ → ℕ → Frame → Option (List FrameSlot × ℕ)
publish_au ss dash_pub bytes size f = elim (take_write ss) [
  | none ↦ none
  | some (i, ss') ↦ some (publish_taken ss' i bytes size f, u64 (dash_pub + 1))
]

-- The `for` loop of `decode_worker` that looks for the slot to decode, from index `i` on.
unfoldable pub pick : List FrameSlot → ℕ → ℕ → Option ℕ → Option ℕ
pick [] i best idx = idx
pick (s ∷ ss) i best idx =
    let hit = is_ready s.state && ltb s.deadline_us best in
    pick ss (i + 1) (if hit then s.deadline_us else best) (if hit then some i else idx)

-- The search of `decode_worker`, with `best` from UINT64_MAX on; none when it waits.
unfoldable pub best_ready : List FrameSlot → Option ℕ
best_ready ss = pick ss 0 18446744073709551615 none

-- The store of SLOT_DECODING.
unfoldable pub start_decoding : List FrameSlot → ℕ → List FrameSlot
start_decoding ss idx = update ss idx (mark decoding)
