-- ===== src/Client/Play.antt =====
-- apps/thinclient/main.c: the playout part of the main loop, for a client with a decoder: the
-- fragments in the jitter buffer's slots are put together in the frame slot that is being written.
-- The buffer of the assembler is that of the frame slot; it is copied into the slot when the slot is
-- published. An access unit in one datagram, which goes to the decoder at once, is left out.
pub mod Deliver
use remote_avapps.Base.{
  ℕ, ◌+◌, ◌*◌, ◌-◌, ◌==◌, ltb, leb, if◌then◌else◌, bit_and, u32, Bool, not, ◌&&◌, List, [], ◌∷◌,
  drop, get_or, Option, none, some,
}
use remote_avapps.Base.Int.{ℤ, pos}
use remote_avapps.Status.{Status, ok, is_ok}
use remote_avapps.Jitter.{Slot}
use remote_avapps.Fragment.{Assembler, feed, hdr_unpack}
use remote_avapps.Client.Slots.{FrameSlot, Frame, free, publish, take_write, update}

-- `VMC_PROTO_FLAG_FRAGMENTED`
abbrev pub fragmented_flag : ℕ
fragmented_flag = 4

-- The globals of the playout. `g_write_slot` is not negative once playout starts.
pub record Player : Type 0 where
  pub frag : Assembler
  pub slots : List FrameSlot
  pub write_slot : ℕ
  pub frame_count : ℕ
  pub cur_fid : ℕ
  pub frame_arrival_us : ℕ

-- The loop goes on, or it waits in `slot_take_write` for a frame slot.
pub data Progress : Type 0 where
  goes_on : Player → Progress
  waits : Player → Progress

abbrev pub no_slot : FrameSlot
no_slot = record {
  buf = [];
  len = 0;
  send_ts = 0;
  pub_us = 0;
  deadline_us = 0;
  fidx = 0;
  pts_us = pos 0;
  seg = pos 0;
  state = free;
}

-- The next frame slot, whose buffer the assembler writes from now on.
unfoldable pub next_slot : Player → Progress
next_slot p = elim (take_write p.slots) [
  | none ↦ waits p
  | some (i, ss) ↦ goes_on (record p {
    slots = ss;
    write_slot = i;
    frag = record p.frag { buf = (get_or ss i no_slot).buf };
  })
]

-- The arguments of `slot_publish`.
abbrev pub complete : ℕ → ℕ → ℕ → ℕ → Frame
complete au_len ts_us fidx now_us = record {
  len = au_len;
  send_ts = ts_us;
  deadline_us = 0;
  fidx = fidx;
  pts_us = pos (fidx * 1000);
  seg = pos 0;
  now_us = now_us;
}

abbrev pub hold : List ℕ → FrameSlot → FrameSlot
hold bytes s = record s { buf = bytes }

-- A completed access unit is published.
unfoldable pub finish_frame : Player → ℕ → ℕ → ℕ → Player
finish_frame p au_len ts_us now_us = record p {
  slots =
      publish (update p.slots p.write_slot (hold p.frag.buf)) p.write_slot
        (complete au_len ts_us p.frame_count now_us);
  frame_count = u32 (p.frame_count + 1);
}

-- A fragment in the payload of a jitter slot is fed to the assembler.
unfoldable pub feed_payload : Assembler → List ℕ → ℕ → Status × Assembler × ℕ
feed_payload a payload len =
    let (fid, idx, last) = hdr_unpack payload in
    feed a fid idx last (some (drop 4 payload)) (len - 4)

-- The first fragment of a frame tells when the frame arrived.
unfoldable pub note_arrival : Player → ℕ → ℕ → Player
note_arrival p fid now_us =
    if fid == p.cur_fid then p else record p { cur_fid = fid; frame_arrival_us = now_us }

-- A slot that holds a fragment, of four bytes or more.
unfoldable pub play_fragment : Player → Slot → ℕ → ℕ → Progress
unfolding feed_payload finish_frame note_arrival
play_fragment p s arrival_us publish_us =
    let p1 = note_arrival p (hdr_unpack s.storage).0 arrival_us in
    let (st, frag, au_len) = feed_payload p1.frag s.storage s.len in
    let p2 = record p1 { frag = frag } in
    if is_ok st && ltb 0 au_len
    then next_slot (finish_frame p2 au_len s.ts_us publish_us)
    else goes_on p2

-- The branch for a slot with the flag for fragments.
unfoldable pub play_slot : Player → Slot → ℕ → ℕ → Progress
unfolding play_fragment
play_slot p s arrival_us publish_us =
    if leb 4 s.len then play_fragment p s arrival_us publish_us else goes_on p
