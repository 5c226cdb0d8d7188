-- ===== src/Jitter.antt =====
-- src/transport/jitter_buffer.c and include/vmc/transport/jitter_buffer.h. A slot's `payload`
-- always points at its own storage and is left out. A pointer to a slot is its index, or the slot
-- where it is only read. The payload pointer is an option; the buffer itself is not NULL.
pub mod Slots
pub mod Valid
mod Tests
pub mod Push
pub mod Peek
pub mod Play
use remote_avapps.Base.{
  ℕ, zero, suc, ◌+◌, ◌==◌, ltb, leb, if◌then◌else◌, u16, u32, u64, sub32, sub64, Bool, true, false,
  not, ◌&&◌, ◌||◌, List, [], ◌∷◌, take, replicate, map, Option, none, some,
}
use remote_avapps.Base.Blocks.{store}
use remote_avapps.Base.Int.{ℤ, pos, negsuc, ltb_ℤ, signed32}
use remote_avapps.Status.{Status, ok, invalid_arg, again, overrun, out_of_sync}

-- `VMC_JB_MAX_SLOTS`
abbrev pub max_slots : ℕ
max_slots = 256

-- `VMC_JB_PAYLOAD_CAP`
abbrev pub payload_cap : ℕ
payload_cap = 1408

-- `vmc_jb_slot`
pub record Slot : Type 0 where
  pub seq : ℕ
  pub ts_us : ℕ
  pub flags : ℕ
  pub stream : ℕ
  pub len : ℕ
  pub recv_us : ℕ
  pub storage : List ℕ
  pub valid : Bool

-- `vmc_jitter_buffer`
pub record Buffer : Type 0 where
  pub slots : List Slot
  pub next_seq : ℕ
  pub target_delay_us : ℕ
  pub stats_pushed : ℕ
  pub stats_played : ℕ
  pub stats_dropped_late : ℕ
  pub stats_dropped_dupe : ℕ
  pub stats_gaps : ℕ

-- What `memset` leaves in a slot.
abbrev pub zero_slot : Slot
zero_slot = record {
  seq = 0;
  ts_us = 0;
  flags = 0;
  stream = 0;
  len = 0;
  recv_us = 0;
  storage = replicate payload_cap 0;
  valid = false;
}

abbrev pub zeroed : Buffer
zeroed = record {
  slots = replicate max_slots zero_slot;
  next_seq = 0;
  target_delay_us = 0;
  stats_pushed = 0;
  stats_played = 0;
  stats_dropped_late = 0;
  stats_dropped_dupe = 0;
  stats_gaps = 0;
}

-- `vmc_jb_init`
unfoldable pub init : ℕ → Status × Buffer
init target_delay_us = (ok, record zeroed { target_delay_us = target_delay_us })

-- `vmc_jb_reset`, which clears the buffer that it is given as well.
unfoldable pub reset : Buffer → ℕ → Buffer
reset jb first_seq = record zeroed { next_seq = first_seq }

-- `seq_cmp`
abbrev pub seq_cmp : ℕ → ℕ → ℤ
seq_cmp a b = signed32 (sub32 a b)

abbrev pub shift_index : Option ℕ → Option ℕ
shift_index none = none
shift_index (some i) = some (suc i)

-- `find_slot`
unfoldable pub find_slot : List Slot → ℕ → Option ℕ
find_slot [] seq = none
find_slot (s ∷ ss) seq = if s.valid && s.seq == seq then some 0 else shift_index (find_slot ss seq)

-- The search of `vmc_jb_push` for a slot that is not in use.
unfoldable pub free_slot : List Slot → Option ℕ
free_slot [] = none
free_slot (s ∷ ss) = if not s.valid then some 0 else shift_index (free_slot ss)

-- A write through a pointer to a slot.
abbrev pub modify : List Slot → ℕ → (Slot → Slot) → List Slot
modify [] i f = []
modify (s ∷ ss) zero f = f s ∷ ss
modify (s ∷ ss) (suc i) f = s ∷ modify ss i f

-- The arguments of `vmc_jb_push`.
pub record Packet : Type 0 where
  pub seq : ℕ
  pub ts_us : ℕ
  pub stream : ℕ
  pub flags : ℕ
  pub payload : Option (List ℕ)
  pub len : ℕ
  pub recv_us : ℕ

abbrev pub payload_bytes : Option (List ℕ) → List ℕ
payload_bytes none = []
payload_bytes (some p) = p

abbrev pub is_null : Option (List ℕ) → Bool
is_null none = true
is_null (some p) = false

-- The copy of the payload into a slot, cut to its capacity.
unfoldable pub fill_payload : Packet → Slot → Slot
fill_payload p s =
    let cap = if ltb p.len payload_cap then p.len else payload_cap in
    record s { storage = store s.storage 0 (take cap (payload_bytes p.payload)); len = u16 cap }

-- The stores of `vmc_jb_push` into the slot that it found.
unfoldable pub fill : Packet → Slot → Slot
unfolding fill_payload
fill p s =
    let s' = record s {
      seq = p.seq;
      ts_us = p.ts_us;
      flags = p.flags;
      stream = p.stream;
      len = p.len;
      recv_us = p.recv_us;
      valid = true;
    } in
    if ltb 0 p.len then fill_payload p s' else s'

-- Outside the reorder window, by the test of `vmc_jb_push` on `fwd`.
unfoldable pub outside_window : ℕ → ℕ → Bool
outside_window seq next_seq =
    let fwd = seq_cmp seq next_seq in
    not (ltb_ℤ fwd (pos max_slots)) || not (ltb_ℤ (negsuc 255) fwd)

-- The first push establishes the playout base.
unfoldable pub rebase : Buffer → ℕ → Buffer
rebase jb seq = if jb.stats_pushed == 0 then record jb { next_seq = seq } else jb

abbrev pub stored : Buffer → Packet → Option ℕ → Status × Buffer
stored jb p none = (overrun, record jb { stats_dropped_late = u64 (jb.stats_dropped_late + 1) })
stored jb p (some i) =
    (ok, record jb { slots = modify jb.slots i (fill p); stats_pushed = u64 (jb.stats_pushed + 1) })

abbrev pub is_some : Option ℕ → Bool
is_some none = false
is_some (some i) = true

-- `vmc_jb_push` after the first test.
unfoldable pub admit : Buffer → Packet → Status × Buffer
admit jb p =
    if is_some (find_slot jb.slots p.seq)
    then (again, record jb { stats_dropped_dupe = u64 (jb.stats_dropped_dupe + 1) })
    else if outside_window p.seq jb.next_seq
    then (out_of_sync, record jb { stats_dropped_late = u64 (jb.stats_dropped_late + 1) })
    else stored jb p (free_slot jb.slots)

-- `vmc_jb_push`
unfoldable pub push : Buffer → Packet → Status × Buffer
push jb p =
    if ltb 0 p.len && is_null p.payload then (invalid_arg, jb) else admit (rebase jb p.seq) p

abbrev pub better : (Slot → Slot → Bool) → Option Slot → Slot → Option Slot
better beats none s = some s
better beats (some m) s = if beats s m then some s else some m

abbrev pub earlier : Slot → Slot → Bool
earlier s m = ltb_ℤ (seq_cmp s.seq m.seq) (pos 0)

abbrev pub arrived_later : Slot → Slot → Bool
arrived_later s m = ltb m.recv_us s.recv_us

-- The first loop of `vmc_jb_peek`: the slots `min` and `newest` so far.
unfoldable pub scan : List Slot → Option Slot → Option Slot → Option Slot × Option Slot
scan [] m newest = (m, newest)
scan (s ∷ ss) m newest =
    scan ss (if s.valid then better earlier m s else m)
      (if s.valid then better arrived_later newest s else newest)

abbrev pub old_enough : Buffer → ℕ → Slot → Bool
old_enough jb now_us s = leb jb.target_delay_us (sub64 now_us s.recv_us)

-- The body of the loop of `vmc_jb_peek`; it returns on every path, so the loop runs it once.
unfoldable pub offer : Buffer → ℕ → Slot → Slot → Option Slot × Buffer
offer jb now_us m newest =
    if ltb_ℤ (seq_cmp m.seq jb.next_seq) (pos 0)
    then (if old_enough jb now_us m then (some m, record jb { next_seq = m.seq }) else (none, jb))
    else if ltb_ℤ (pos 0) (seq_cmp m.seq jb.next_seq)
    then (if old_enough jb now_us newest
        then (
          if old_enough jb now_us m then some m else none,
          record jb {
            stats_gaps = u64 (jb.stats_gaps + sub32 m.seq jb.next_seq);
            next_seq = m.seq;
          },
        )
        else (none, jb))
    else (if old_enough jb now_us m then (some m, jb) else (none, jb))

abbrev pub offer_found : Buffer → ℕ → Option Slot → Option Slot → Option Slot × Buffer
offer_found jb now_us none newest = (none, jb)
offer_found jb now_us (some m) none = (none, jb)
offer_found jb now_us (some m) (some newest) = offer jb now_us m newest

-- `vmc_jb_peek`. The scan finds both slots or neither.
unfoldable pub peek : Buffer → ℕ → Option Slot × Buffer
peek jb now_us = let (m, newest) = scan jb.slots none none in offer_found jb now_us m newest

abbrev pub release : Slot → Slot
release s = record s { valid = false }

abbrev pub consumed : Buffer → Option ℕ → Buffer
consumed jb none = jb
consumed jb (some i) = record jb {
  slots = modify jb.slots i release;
  next_seq = u32 (jb.next_seq + 1);
  stats_played = u64 (jb.stats_played + 1);
}

-- `vmc_jb_consume`
unfoldable pub consume : Buffer → Buffer
consume jb = consumed jb (find_slot jb.slots jb.next_seq)

abbrev pub flushed : ℕ → Slot → Slot
flushed seq s = if s.valid && ltb_ℤ (seq_cmp s.seq seq) (pos 0) then release s else s

-- `vmc_jb_flush_before`
unfoldable pub flush_before : Buffer → ℕ → Buffer
flush_before jb seq =
    let jb' = record jb { slots = map (flushed seq) jb.slots } in
    if ltb_ℤ (pos 0) (seq_cmp seq jb.next_seq) then record jb' { next_seq = seq } else jb'

-- `vmc_jb_estimate_jitter_us`
unfoldable pub estimate_jitter_us : Buffer → ℕ
estimate_jitter_us jb = 0
