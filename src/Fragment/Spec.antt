-- ===== src/Fragment/Spec.antt =====
-- What the assembler of src/video/fragment.c promises, without its buffer: the bytes of the frame
-- that is being collected, or nothing.
use remote_avapps.Base.{
  ℕ, ◌+◌, ◌==◌, ltb, if◌then◌else◌, u16, Bool, not, List, [], ◌++◌, length, Option, none, some,
}
use remote_avapps.Status.{Status, ok, overrun, out_of_sync}

-- A frame in progress: its number, the next index, and the bytes so far.
pub record Progress : Type 0 where
  pub frame_id : ℕ
  pub next_index : ℕ
  pub bytes : List ℕ

abbrev pub fresh : ℕ → Progress
fresh frame_id = record { frame_id = frame_id; next_index = 0; bytes = [] }

-- The frame that a fragment of frame `frame_id` goes to.
abbrev pub current : Option Progress → ℕ → Progress
current none frame_id = fresh frame_id
current (some p) frame_id = if frame_id == p.frame_id then p else fresh frame_id

-- A fragment for a frame: the status, the frame in progress afterwards, and a completed access
-- unit.
unfoldable pub collect_into :
    ℕ → Progress → ℕ → Bool → List ℕ → Status × Option Progress × Option (List ℕ)
collect_into cap p frag_index last chunk =
    let bytes = p.bytes ++ chunk in
    if not (frag_index == p.next_index)
    then (out_of_sync, none, none)
    else if ltb cap (length bytes)
    then (overrun, none, none)
    else if last
    then (ok, none, some bytes)
    else (
      ok,
      some (record { frame_id = p.frame_id; next_index = u16 (p.next_index + 1); bytes = bytes }),
      none,
    )

unfoldable pub collect :
    ℕ → Option Progress → ℕ → ℕ → Bool → List ℕ → Status × Option Progress × Option (List ℕ)
collect cap v frame_id frag_index last chunk =
    collect_into cap (current v frame_id) frag_index last chunk
