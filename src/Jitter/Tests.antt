-- ===== src/Jitter/Tests.antt =====
-- Runs of src/transport/jitter_buffer.c, and its theorems at concrete inputs.
use remote_avapps.Base.{
  ℕ, zero, suc, ◌<◌, ◌≡◌, refl, arith, true, [], ◌∷◌, replicate, none, some, inr,
}
use remote_avapps.Status.{ok}
use remote_avapps.Jitter.{
  Slot, Buffer, Packet, init, reset, push, peek, rebase, zero_slot, zeroed, scan, offer,
}
use remote_avapps.Jitter.Push.{IsValid, Pushed, push_outcome}
use remote_avapps.Jitter.Peek.{AllInUse}
use remote_avapps.Jitter.Play.{Fits, Played, peek-consume}
use remote_avapps.Jitter.Valid.{Distinct-empty, Fresh-empty, reset-push, init-reset-IsValid}

abbrev packet : Packet
packet = record {
  seq = 4294967295;
  ts_us = 7;
  stream = 1;
  flags = 1;
  payload = some (1 ∷ 2 ∷ []);
  len = 2;
  recv_us = 50;
}

abbrev held : Slot
held = record zero_slot { seq = 4294967295; recv_us = 50; valid = true }

-- A buffer that holds one packet, at the wrap of the sequence numbers.
abbrev one : Buffer
one = record zeroed {
  slots = held ∷ replicate 255 zero_slot;
  next_seq = 4294967295;
  target_delay_us = 100;
  stats_pushed = 1;
}

one-IsValid : IsValid one
one-IsValid = record {
  size = refl;
  distinct = (inr (Fresh-empty 4294967295 255), Distinct-empty 255);
}

none_in_use : (n : ℕ) → AllInUse (λ s. s.seq < 4294967296) (replicate n zero_slot)
none_in_use zero = tt
none_in_use (suc n) = ((λ h. omega arith), none_in_use n)

one-Fits : Fits one
one-Fits = record { seqs = ((λ h. omega arith), none_in_use 255); base = omega arith }

-- Too young at 120, returned at 150.
peek_young : (peek one 120).0 ≡ none
unfolding peek scan offer
peek_young = refl

peek_old : (peek one 150).0 ≡ some held
unfolding peek scan offer
peek_old = refl

push_outcome_example :
    IsValid (push (init 100).1 packet).1
    × Pushed
        (init 100).1.slots
        (rebase (init 100).1 4294967295).next_seq
        (init 100).1.stats_pushed
        packet
        (push (init 100).1 packet)
push_outcome_example = push_outcome (init 100).1 packet (init-reset-IsValid zeroed 100).0

peek-consume_example : Played one 150 (peek one 150)
peek-consume_example = peek-consume one 150 one-IsValid one-Fits

reset-push_example :
    ((push (reset one 1000) packet).0 ≡ ok)
    × ((push (reset one 1000) packet).1.next_seq ≡ 4294967295)
    × ((push (reset one 1000) packet).1.target_delay_us ≡ 0)
reset-push_example = reset-push one 1000 packet refl
