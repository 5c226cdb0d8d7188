-- ===== src/Client/Present.antt =====
-- apps/thinclient/main.c: the queue from the decode worker to the present worker.
pub mod Queue
mod Tests
use remote_avapps.Base.{
  ℕ, ◌+◌, ◌-◌, ◌%◌, ◌==◌, leb, if◌then◌else◌, Bool, true, false, ◌&&◌, List, set, get_or, Option,
  none, some,
}
use remote_avapps.Base.Int.{ℤ, pos}

-- `VMC_PRESENT_QUEUE_SIZE`
abbrev pub queue_size : ℕ
queue_size = 128

-- `present_entry`
pub record Entry : Type 0 where
  pub buf_idx : ℤ
  pub deadline_us : ℕ
  pub pts_us : ℤ

abbrev pub no_entry : Entry
no_entry = record { buf_idx = pos 0; deadline_us = 0; pts_us = pos 0 }

-- The array and the three counters of the queue.
pub record PresentQueue : Type 0 where
  pub entries : List Entry
  pub qhead : ℕ
  pub qtail : ℕ
  pub qcount : ℕ

-- The end of `present_push`.
unfoldable pub enqueue : PresentQueue → Entry → PresentQueue
enqueue q e = record {
  entries = set q.entries q.qtail e;
  qhead = q.qhead;
  qtail = (q.qtail + 1) % queue_size;
  qcount = q.qcount + 1;
}

-- `present_push`, with the flag `g_run`; none when it waits for space.
unfoldable pub push : PresentQueue → Bool → Entry → Option PresentQueue
push q run e = if leb queue_size q.qcount && run then none else some (enqueue q e)

pub data Popped : Type 0 where
  waits : Popped
  stopped : Popped
  popped : Entry → PresentQueue → Popped

-- The end of `present_pop`.
unfoldable pub dequeue : PresentQueue → Popped
dequeue q =
    popped (get_or q.entries q.qhead no_entry)
      (record q { qhead = (q.qhead + 1) % queue_size; qcount = q.qcount - 1 })

-- `present_pop`
unfoldable pub pop : PresentQueue → Bool → Popped
pop q run = if q.qcount == 0 then (if run then waits else stopped) else dequeue q
