-- ===== src/Scanout.antt =====
-- src/video/drm_scanout.c: the buffers of the display. What `drmModePageFlip` answers and the flip
-- events that a wait handles are arguments; the memory of the buffers is left out. An index that the
-- code sets to -1 is an option.
pub mod Handed
mod Tests
use remote_avapps.Base.{
  ℕ, zero, suc, ◌+◌, ◌%◌, ◌==◌, ltb, leb, if◌then◌else◌, u32, Bool, true, false, not, ◌&&◌, List,
  [], ◌∷◌, set, get_or, length, Option, none, some,
}
use remote_avapps.Status.{Status, ok, invalid_arg, io, again}

-- `VMC_DRM_MAX_BUFS`
abbrev pub max_bufs : ℕ
max_bufs = 8

-- `VMC_DRM_FLIP_HISTORY`
abbrev pub flip_history_size : ℕ
flip_history_size = 16

-- `vmc_drm_buffer`, without its memory.
pub record DrmBuffer : Type 0 where
  pub busy : Bool
  pub last_flip_ts : ℕ
  pub submit_wall_us : ℕ

-- `vmc_drm_flip_rec`
pub record FlipRec : Type 0 where
  pub buf_idx : ℕ
  pub submit_us : ℕ

-- `vmc_drm_scanout`, without the mode.
pub record Scanout : Type 0 where
  pub nbufs : ℕ
  pub next : ℕ
  pub last_presented : ℕ
  pub flip_pending : Option ℕ
  pub on_screen : Option ℕ
  pub last_completed : ℕ
  pub last_flip_ts_us : ℕ
  pub flips_done : ℕ
  pub bufs : List DrmBuffer
  pub history : List FlipRec
  pub h_head : ℕ
  pub h_tail : ℕ

abbrev pub no_buffer : DrmBuffer
no_buffer = record { busy = false; last_flip_ts = 0; submit_wall_us = 0 }

abbrev pub no_rec : FlipRec
no_rec = record { buf_idx = 0; submit_us = 0 }

abbrev pub is_at : Option ℕ → ℕ → Bool
is_at none i = false
is_at (some j) i = i == j

-- What `vmc_drm_scanout_init` leaves once the first buffer is shown.
unfoldable pub started : ℕ → List DrmBuffer → List FlipRec → Scanout
started nbufs bufs history = record {
  nbufs = nbufs;
  next = 1;
  last_presented = 0;
  flip_pending = none;
  on_screen = some 0;
  last_completed = 0;
  last_flip_ts_us = 0;
  flips_done = 0;
  bufs = bufs;
  history = history;
  h_head = 0;
  h_tail = 0;
}

-- A buffer that leaves the screen is free.
abbrev pub left_screen : ℕ → DrmBuffer → DrmBuffer
left_screen ts b = record b { busy = false; last_flip_ts = ts }

unfoldable pub free_shown : Scanout → ℕ → List DrmBuffer
free_shown s ts = elim s.on_screen [
  | none ↦ s.bufs
  | some i ↦ set s.bufs i (left_screen ts (get_or s.bufs i no_buffer))
]

-- The first branch of `flip_handler`: the oldest record.
unfoldable pub flip_oldest : Scanout → ℕ → Scanout
unfolding free_shown
flip_oldest s ts =
    let r = get_or s.history s.h_tail no_rec in
    record s {
      h_tail = (s.h_tail + 1) % flip_history_size;
      bufs = free_shown s ts;
      on_screen = some r.buf_idx;
      last_completed = r.buf_idx;
      flip_pending = none;
    }

-- The second branch: a flip without a record.
unfoldable pub flip_stray : Scanout → ℕ → Scanout
unfolding free_shown
flip_stray s ts = elim s.flip_pending [
  | none ↦ s
  | some i ↦ record s {
    bufs = free_shown s ts;
    on_screen = some i;
    last_completed = i;
    flip_pending = none;
  }
]

-- `flip_handler` for an event with the time `ts`.
unfoldable pub flip_handler : Scanout → ℕ → Scanout
unfolding flip_oldest flip_stray
flip_handler s ts =
    let s' = if s.h_head == s.h_tail then flip_stray s ts else flip_oldest s ts in
    record s' { flips_done = u32 (s'.flips_done + 1); last_flip_ts_us = ts }

-- The test of a buffer in `vmc_drm_scanout_next_idx`.
unfoldable pub is_usable : Scanout → ℕ → Bool
is_usable s i =
    not (get_or s.bufs i no_buffer).busy
    && not (is_at s.on_screen i)
    && not (is_at s.flip_pending i)

-- The loop of `vmc_drm_scanout_next_idx`, with `left` buffers to try, the next of them at `i`.
unfoldable pub find_usable : Scanout → ℕ → ℕ → Option ℕ
unfolding is_usable
find_usable s zero i = none
find_usable s (suc left) i =
    let idx = (s.next + i) % s.nbufs in
    if is_usable s idx then some idx else find_usable s left (i + 1)

abbrev pub make_busy : DrmBuffer → DrmBuffer
make_busy b = record b { busy = true }

-- The buffer that was found is held.
unfoldable pub hold_found : Scanout → Option ℕ → Option (ℕ × Scanout)
hold_found s none = none
hold_found s (some i) = some (
  i,
  record s {
    next = (i + 1) % s.nbufs;
    last_presented = u32 i;
    bufs = set s.bufs i (make_busy (get_or s.bufs i no_buffer));
  },
)

-- `vmc_drm_scanout_next_idx`: the index, and the display.
unfoldable pub next_idx : Scanout → Option (ℕ × Scanout)
unfolding find_usable hold_found
next_idx s = hold_found s (find_usable s s.nbufs 0)

-- A flip that the kernel accepts, at the time `now_us`: the buffer is busy and pending, and it is
-- the newest record; a full history gives up the oldest.
unfoldable pub submit : Scanout → ℕ → ℕ → Scanout
submit s idx now_us =
    let full = (s.h_head + 1) % flip_history_size == s.h_tail in
    record s {
      bufs =
          set s.bufs idx
            (record (get_or s.bufs idx no_buffer) { busy = true; submit_wall_us = now_us });
      flip_pending = some idx;
      h_tail = if full then (s.h_tail + 1) % flip_history_size else s.h_tail;
      history = set s.history s.h_head (record { buf_idx = idx; submit_us = now_us });
      h_head = (s.h_head + 1) % flip_history_size;
    }

-- What `drmModePageFlip` answers; the flip events that the wait after EBUSY handles.
pub data Flip : Type 0 where
  accepted : ℕ → Flip
  busy_flip : List ℕ → Flip
  fails : Flip

-- The events that a wait for flips handles, in their order.
unfoldable pub handle_events : Scanout → List ℕ → Scanout
unfolding flip_handler
handle_events s [] = s
handle_events s (ts ∷ more) = handle_events (flip_handler s ts) more

-- The three tries of `vmc_drm_scanout_present`.
unfoldable pub try_flip : ℕ → Scanout → ℕ → List Flip → Status × Scanout
unfolding submit handle_events
try_flip zero s idx answers = (again, s)
try_flip (suc left) s idx [] = (io, s)
try_flip (suc left) s idx (accepted now_us ∷ answers) = (ok, submit s idx now_us)
try_flip (suc left) s idx (busy_flip events ∷ answers) =
    try_flip left (handle_events s events) idx answers
try_flip (suc left) s idx (fails ∷ answers) = (io, s)

abbrev pub index_or : ℕ → Option ℕ → ℕ
index_or d none = d
index_or d (some i) = i

-- `vmc_drm_scanout_present`; no index stands for the last one that was handed out.
unfoldable pub present : Scanout → Option ℕ → List Flip → Status × Scanout
unfolding try_flip
present s idx answers =
    let i = index_or s.last_presented idx in
    if leb s.nbufs i then (invalid_arg, s) else try_flip 3 s i answers
