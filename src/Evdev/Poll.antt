-- ===== src/Evdev/Poll.antt =====
-- src/input/evdev_input.c: what a poll reports, from the reads that it consumes.
use remote_avapps.Base.{
  ℕ, arith, ◌≡◌, ◌⊎◌, inl, inr, refl, ap, sym, ◌∙◌, if◌then◌else◌, u16, u32, Bool, true, false,
  Bool-cases, ◌||◌, ◌&&◌, List, [], ◌∷◌, ◌++◌, Option, none, some,
}
use mathlib.Core.Path.{subst}
use remote_avapps.Base.Int.{ℤ, pos, ltb_ℤ}
use remote_avapps.Status.{Status, ok, io, again}
use remote_avapps.Batch.{InputEvent}
use remote_avapps.Evdev.{
  Kind, Read, Touch, mt_slot, mt_position_x, mt_position_y, mt_pressure, mt_tracking_id, btn_touch,
  syn_report, ignored, event, short, broken, word, is_zero, no_touch, track, report, poll_loop,
  poll, touch_move, touch_up,
}

-- The value of the last event of a kind among reads, or `d`.
abbrev pub last_value : (Kind → Bool) → ℕ → List Read → ℕ
last_value is d [] = d
last_value is d (event kind v ∷ reads) = last_value is (if is kind then word v else d) reads
last_value is d (short ∷ reads) = last_value is d reads
last_value is d (broken ∷ reads) = last_value is d reads

abbrev pub is_slot : Kind → Bool
is_slot mt_slot = true
is_slot _ = false

abbrev pub is_x : Kind → Bool
is_x mt_position_x = true
is_x _ = false

abbrev pub is_y : Kind → Bool
is_y mt_position_y = true
is_y _ = false

abbrev pub is_pressure : Kind → Bool
is_pressure mt_pressure = true
is_pressure _ = false

-- A finger is lifted: its tracking ends, or the touch key is released.
abbrev pub is_lift : Read → Bool
is_lift (event mt_tracking_id v) = ltb_ℤ v (pos 0)
is_lift (event btn_touch v) = is_zero v
is_lift _ = false

abbrev pub is_sync : Read → Bool
is_sync (event syn_report v) = true
is_sync _ = false

abbrev pub is_position : Read → Bool
is_position (event mt_position_x v) = true
is_position (event mt_position_y v) = true
is_position _ = false

abbrev pub is_broken : Read → Bool
is_broken broken = true
is_broken _ = false

-- A position is among the reads, or was before them.
abbrev pub positioned : Bool → List Read → Bool
positioned before [] = before
positioned before (r ∷ reads) = positioned (before || is_position r) reads

-- A read ends a poll: a failure, a lift, or the end of a report that has a position.
abbrev pub ends : Bool → Read → Bool
ends has r = is_broken r || (is_lift r || (is_sync r && has))

-- None of the reads ends a poll.
abbrev pub Quiet : Bool → List Read → Type 0
Quiet has [] = Unit {0}
Quiet has (r ∷ reads) = (ends has r ≡ false) × Quiet (has || is_position r) reads

-- The lift of the slot that was read last.
abbrev pub lift_after : Touch → List Read → ℕ → InputEvent
lift_after t quiet now_us = record {
  kind = touch_up;
  slot = u16 (last_value is_slot t.slot quiet);
  x = 0;
  y = 0;
  pressure = 0;
  buttons = 0;
  ts_us = u32 now_us;
}

-- The move of the slot that was read last, to the position that was read last.
abbrev pub move_after : Touch → List Read → ℕ → InputEvent
move_after t quiet now_us = record {
  kind = touch_move;
  slot = u16 (last_value is_slot t.slot quiet);
  x = u16 (last_value is_x t.tx quiet);
  y = u16 (last_value is_y t.ty quiet);
  pressure = u16 (last_value is_pressure t.pressure quiet);
  buttons = 0;
  ts_us = u32 now_us;
}

abbrev pub has_position : Touch → Bool
has_position t = t.have_tx || t.have_ty

-- How a poll ends behind reads that do not end it: with nothing left, with a failed read, or with
-- the event of the last read.
abbrev pub EndsWith :
    Touch → ℕ → List Read → List Read → Status × Option InputEvent × List Read → Type 0
EndsWith t now_us reads quiet (st, o, rest) =
    ((st ≡ again) × (o ≡ none) × (rest ≡ []) × (reads ≡ quiet))
    ⊎ ((st ≡ io) × (o ≡ none) × (reads ≡ quiet ++ (broken ∷ rest)))
    ⊎ ((st ≡ ok)
        × ((last : Read) × (reads ≡ quiet ++ (last ∷ rest))
            × (((is_lift last ≡ true) × (o ≡ some (lift_after t quiet now_us)))
                ⊎ ((is_sync last ≡ true)
                    × (positioned (has_position t) quiet ≡ true)
                    × (o ≡ some (move_after t quiet now_us))))))

-- The result of a poll: the reads before the one that ends it, and how it ends.
abbrev pub Polled : Touch → ℕ → List Read → Status × Option InputEvent × List Read → Type 0
Polled t now_us reads r =
    (quiet : List Read) × Quiet (has_position t) quiet × EndsWith t now_us reads quiet r

consed : (r : Read) {xs ys : List Read} → xs ≡ ys → ◌≡◌ {A = List Read} (r ∷ xs) (r ∷ ys)
consed r e = ap (λ l. r ∷ l) e

-- A read that does not end the poll and changes what is known to that of `t'`.
longer :
    (t t' : Touch) (now_us : ℕ) (r : Read) (reads : List Read)
    (out : Status × Option InputEvent × List Read)
    → ends (has_position t) r ≡ false
    → has_position t' ≡ (has_position t || is_position r)
    → ((q : List Read) → lift_after t' q now_us ≡ lift_after t (r ∷ q) now_us)
    → ((q : List Read) → move_after t' q now_us ≡ move_after t (r ∷ q) now_us)
    → Polled t' now_us reads out
    → Polled t now_us (r ∷ reads) out
longer t t' now_us r reads (st, o, rest) go_on known lifts moves (quiet, q, p) =
    (r ∷ quiet, (go_on, subst (λ b. Quiet b quiet) known q), closes p)
  where
    closes :
        EndsWith t' now_us reads quiet (st, o, rest)
        → EndsWith t now_us (r ∷ reads) (r ∷ quiet) (st, o, rest)
    closes (inl (a, b, c, e)) = inl (a, b, c, consed r e)
    closes (inr (inl (a, b, e))) = inr (inl (a, b, consed r e))
    closes (inr (inr (a, (last, e, inl (l, f))))) =
        inr (inr (a, (last, consed r e, inl (l, f ∙ ap some (lifts quiet)))))
    closes (inr (inr (a, (last, e, inr (l, has, f))))) = inr (
        inr (
          a,
          (
            last,
            consed r e,
            inr (l, ap (λ b. positioned b quiet) (sym known) ∙ has, f ∙ ap some (moves quiet)),
          ),
        ))

or_true : (b : Bool) → true ≡ (b || true)
or_true b = ground arith

or_false : (b : Bool) → b ≡ (b || false)
or_false b = ground arith

-- What an event that does not end the poll changes.
known_after :
    (t : Touch) (kind : Kind) (v : ℤ)
    → has_position (track t kind v) ≡ (has_position t || is_position (event kind v))
unfolding track
known_after t mt_slot v = or_false (has_position t)
known_after t mt_position_x v = or_true (has_position t)
known_after t mt_position_y v = ground arith
known_after t mt_pressure v = or_false (has_position t)
known_after t mt_tracking_id v = or_false (has_position t)
known_after t btn_touch v = or_false (has_position t)
known_after t syn_report v = or_false (has_position t)
known_after t ignored v = or_false (has_position t)

lift_tracked :
    (t : Touch) (kind : Kind) (v : ℤ) (now_us : ℕ) (q : List Read)
    → lift_after (track t kind v) q now_us ≡ lift_after t (event kind v ∷ q) now_us
unfolding track
lift_tracked t mt_slot v now_us q = refl
lift_tracked t mt_position_x v now_us q = refl
lift_tracked t mt_position_y v now_us q = refl
lift_tracked t mt_pressure v now_us q = refl
lift_tracked t mt_tracking_id v now_us q = refl
lift_tracked t btn_touch v now_us q = refl
lift_tracked t syn_report v now_us q = refl
lift_tracked t ignored v now_us q = refl

move_tracked :
    (t : Touch) (kind : Kind) (v : ℤ) (now_us : ℕ) (q : List Read)
    → move_after (track t kind v) q now_us ≡ move_after t (event kind v ∷ q) now_us
unfolding track
move_tracked t mt_slot v now_us q = refl
move_tracked t mt_position_x v now_us q = refl
move_tracked t mt_position_y v now_us q = refl
move_tracked t mt_pressure v now_us q = refl
move_tracked t mt_tracking_id v now_us q = refl
move_tracked t btn_touch v now_us q = refl
move_tracked t syn_report v now_us q = refl
move_tracked t ignored v now_us q = refl

-- The `switch` returns with an event, or the read does not end the poll.
abbrev Reported : Touch → Kind → ℤ → ℕ → Option InputEvent → Type 0
Reported t kind v now_us none = ends (has_position t) (event kind v) ≡ false
Reported t kind v now_us (some ev) =
    ((is_lift (event kind v) ≡ true) × (ev ≡ lift_after t [] now_us))
    ⊎ ((is_sync (event kind v) ≡ true) × (has_position t ≡ true) × (ev ≡ move_after t [] now_us))

reported :
    (t : Touch) (kind : Kind) (v : ℤ) (now_us : ℕ)
    → Reported t kind v now_us (report t kind v now_us)
unfolding report
reported t mt_slot v now_us = refl
reported t mt_position_x v now_us = refl
reported t mt_position_y v now_us = refl
reported t mt_pressure v now_us = refl
reported t ignored v now_us = refl
reported t mt_tracking_id v now_us = elim (Bool-cases (ltb_ℤ v (pos 0))) [
  | inl lifts ↦ rw lifts (inl (lifts, refl))
  | inr stays ↦ rw stays (sym (or_false (ltb_ℤ v (pos 0))) ∙ stays)
]
reported t btn_touch v now_us = elim (Bool-cases (is_zero v)) [
  | inl lifts ↦ rw lifts (inl (lifts, refl))
  | inr stays ↦ rw stays (sym (or_false (is_zero v)) ∙ stays)
]
reported t syn_report v now_us = elim (Bool-cases (t.have_tx || t.have_ty)) [
  | inl has ↦ rw has (inr (refl, has, refl))
  | inr hasnt ↦ rw hasnt hasnt
]

poll_loop_lem :
    (t : Touch) (now_us : ℕ) (reads : List Read) → Polled t now_us reads (poll_loop t now_us reads)
unfolding poll_loop
poll_loop_lem t now_us [] = ([], tt, inl (refl, refl, refl, refl))
poll_loop_lem t now_us (broken ∷ reads) = ([], tt, inr (inl (refl, refl, refl)))
poll_loop_lem t now_us (short ∷ reads) =
    longer t t now_us short reads (poll_loop t now_us reads) refl (or_false (has_position t))
      (λ q. refl) (λ q. refl) (poll_loop_lem t now_us reads)
poll_loop_lem t now_us (event kind v ∷ reads) =
    answer (report t kind v now_us) (reported t kind v now_us)
      (poll_loop_lem (track t kind v) now_us reads)
  where
    rest : Status × Option InputEvent × List Read
    rest = poll_loop (track t kind v) now_us reads

    answer :
        (o : Option InputEvent)
        → Reported t kind v now_us o
        → Polled (track t kind v) now_us reads rest
        → Polled t now_us
            (event kind v ∷ reads)
            (elim o [ none ↦ rest | some ev ↦ (ok, some ev, reads) ])
    answer none d p =
        longer t (track t kind v) now_us (event kind v) reads rest d (known_after t kind v)
          (lift_tracked t kind v now_us) (move_tracked t kind v now_us) p
    answer (some ev) (inl (l, e)) p =
        ([], tt, inr (inr (refl, (event kind v, refl, inl (l, ap some e)))))
    answer (some ev) (inr (l, has, e)) p =
        ([], tt, inr (inr (refl, (event kind v, refl, inr (l, has, ap some e)))))

-- A poll of an open device ends with the first read that fails, that is the lift of a finger (a
-- negative tracking id, or 0 for the touch key), or that is the end of a report behind a position.
-- A failed read is an input error. A lift is the event of the last slot read before it, without
-- position. The end of a report is a move of the last slot, to the last position and pressure read
-- before it, each 0 if it was not read, all cut to 16 bits. Both are success, and leave the reads
-- behind. Without such a read, there is no event, and no read is left.
pub poll-Polled :
    (now_us : ℕ) (reads : List Read) → Polled no_touch now_us reads (poll true now_us reads)
unfolding poll
poll-Polled now_us reads = poll_loop_lem no_touch now_us reads
