-- ===== src/Fragment/Tests.antt =====
-- Runs of src/video/fragment.c, and its theorems at concrete inputs.
use remote_avapps.Base.{◌≡◌, refl, arith, [], ◌∷◌, replicate, some, true, false}
use remote_avapps.Base.Blocks.{store}
use remote_avapps.Status.{ok, overrun}
use remote_avapps.Fragment.{Assembler, feed, begin_frame, add_chunk}
use remote_avapps.Fragment.Spec.{collect}
use remote_avapps.Fragment.Refine.{view, Delivers, feed_refines}

abbrev idle : Assembler
idle = record {
  buf = replicate 8 0;
  cap = 6;
  frame_id = 0;
  next_index = 0;
  filled = 0;
  started = false;
}

-- One chunk of frame 5 has come.
abbrev begun : Assembler
begun = record idle {
  buf = 1 ∷ 2 ∷ 3 ∷ 0 ∷ 0 ∷ 0 ∷ 0 ∷ 0 ∷ [];
  frame_id = 5;
  next_index = 1;
  filled = 3;
  started = true;
}

begun_by_feed : feed idle 5 0 false (some (1 ∷ 2 ∷ 3 ∷ [])) 3 ≡ (ok, begun, 0)
unfolding feed begin_frame add_chunk store
begun_by_feed = refl

too_long : (feed begun 5 1 true (some (4 ∷ 5 ∷ 6 ∷ 7 ∷ [])) 4).0 ≡ overrun
unfolding feed begin_frame add_chunk
too_long = refl

feed_refines_example :
    let (st, a', n) = feed begun 5 1 true (some (4 ∷ 5 ∷ [])) 2 in
    let (st', progress, unit) = collect 6 (view begun) 5 1 true (4 ∷ 5 ∷ []) in
    (st ≡ st') × (view a' ≡ progress) × Delivers unit n a'.buf
feed_refines_example = feed_refines begun 5 1 true (some (4 ∷ 5 ∷ [])) (omega arith)
