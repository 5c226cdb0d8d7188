-- ===== src/Sim/Tests.antt =====
-- Runs of the simulator, and its theorems at concrete inputs.
use remote_avapps.Base.{
  ℕ, ◌≡◌, inl, refl, arith, true, false, List, [], ◌∷◌, some, length, replicate, take,
}
use remote_avapps.Status.{ok}
use remote_avapps.Fragment.{Assembler}
use remote_avapps.Fragment.Refine.{IsValid}
use remote_avapps.Sim.Send.{SimCtx, send_au}
use remote_avapps.Base.Blocks.{store}
use remote_avapps.Sim.Units.{
  AuAsm, process_nalus, process_from, find_start, scan_start, au_feed, append_nal, take_pend,
  append_au, append_pend, au_append, au_asm_reset,
}
use remote_avapps.Sim.Delivery.{receive_all, send_au-delivered}

abbrev connected : SimCtx
connected = record { have_client = true; video_seq = 70000; audio_seq = 0; audio_frames = 0 }

abbrev unit : List ℕ
unit = replicate 1500 7

abbrev assembler : Assembler
assembler = record {
  buf = replicate 2000 0;
  cap = 2000;
  frame_id = 0;
  next_index = 0;
  filled = 0;
  started = false;
}

assembler-IsValid : IsValid assembler
assembler-IsValid = record {
  filled_in = omega arith;
  cap_in = omega arith;
  cap_small = omega arith;
}

send_au-delivered_example :
    let (st, a', n) =
      receive_all assembler (send_au connected (replicate 1421 0) unit true 9 (λ k. false)).0 in
    (st ≡ ok) × (n ≡ length unit) × (take n a'.buf ≡ unit) × (a'.started ≡ false) × IsValid a'
send_au-delivered_example =
    send_au-delivered connected (replicate 1421 0) unit true 9 assembler refl refl (omega arith)
      (omega arith) (omega arith) (omega arith) assembler-IsValid (inl refl)

-- Two slices, the second without an end.
abbrev two_slices : List ℕ
two_slices = 0 ∷ 0 ∷ 1 ∷ 101 ∷ 9 ∷ 0 ∷ 0 ∷ 0 ∷ 1 ∷ 65 ∷ 8 ∷ 0 ∷ 0 ∷ 1 ∷ 65 ∷ []

abbrev assembly : AuAsm
assembly = record {
  au = replicate 40 0;
  au_len = 0;
  au_cap = 40;
  pend = replicate 40 0;
  pend_len = 0;
  pend_cap = 40;
  key = false;
  have = false;
}

-- The first slice, a key frame, is complete when the second one starts.
first_slice : (process_nalus assembly two_slices 15).2 ≡ some (0 ∷ 0 ∷ 1 ∷ 101 ∷ 9 ∷ [], true)
unfolding process_nalus process_from find_start scan_start au_feed append_nal take_pend append_au
    append_pend au_append au_asm_reset store
first_slice = refl
