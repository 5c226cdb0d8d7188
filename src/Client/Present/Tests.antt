-- ===== src/Client/Present/Tests.antt =====
-- Runs of the present queue, and its theorems at concrete inputs.
use remote_avapps.Base.{
  ◌≡◌, ◌⊎◌, inr, refl, arith, if◌then◌else◌, true, false, [], ◌∷◌, ◌++◌, replicate, none, some,
}
use remote_avapps.Base.Int.{pos}
use remote_avapps.Client.Present.{
  Entry, PresentQueue, queue_size, no_entry, enqueue, push, waits, stopped, popped, pop,
}
use remote_avapps.Client.Present.Queue.{IsValid, contents, push-contents, pop-contents}

abbrev frame : Entry
frame = record { buf_idx = pos 2; deadline_us = 40000; pts_us = pos 0 }

abbrev one : PresentQueue
one = record { entries = frame ∷ replicate 127 no_entry; qhead = 0; qtail = 1; qcount = 1 }

abbrev full : PresentQueue
full = record { entries = replicate 128 no_entry; qhead = 5; qtail = 5; qcount = 128 }

one-IsValid : IsValid one
one-IsValid = record { size = refl; head_in = omega arith; tail_at = refl; count_in = omega arith }

-- While the client shuts down a push no longer waits, and the count passes the size of the array.
push_past_end : push full false frame ≡ some (enqueue full frame)
unfolding push
push_past_end = refl

push-contents_example :
    ((push one true frame ≡ none) × (one.qcount ≡ queue_size))
    ⊎ ((r : PresentQueue) × (push one true frame ≡ some r)
        × IsValid r
        × (contents r ≡ contents one ++ (frame ∷ [])))
push-contents_example = push-contents one true frame one-IsValid (inr refl)

pop-contents_example :
    ((contents one ≡ []) × (pop one true ≡ (if true then waits else stopped)))
    ⊎ ((e : Entry) × (r : PresentQueue) × (pop one true ≡ popped e r)
        × IsValid r
        × (contents one ≡ e ∷ contents r))
pop-contents_example = pop-contents one true one-IsValid
