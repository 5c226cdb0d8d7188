-- ===== src/Mixer/Tests.antt =====
-- Runs of src/audio/mixer.c, and its theorems at concrete inputs.
use remote_avapps.Base.{◌≡◌, refl, arith, true, List, [], ◌∷◌, get_or, some}
use remote_avapps.Base.Int.{ℤ, pos, negsuc}
use remote_avapps.Status.{ok}
use remote_avapps.Mixer.{Mixer, init, set_source, accumulate, mix_from, mix, sat_i16}
use remote_avapps.Mixer.Mix.{mix-set_source}

abbrev wave : List ℤ
wave = pos 1000 ∷ negsuc 999 ∷ pos 32767 ∷ negsuc 32767 ∷ []

-- Two copies of the wave, one of them at half the gain.
abbrev both : Mixer
both = record {
  src =
      record { is_active = true; gain_q8 = pos 256; pcm = some wave; frames = 2 }
      ∷ record { is_active = true; gain_q8 = pos 128; pcm = some wave; frames = 2 }
      ∷ [];
}

half_gain_added :
    mix both 3 ≡ pos 1500 ∷ negsuc 1499 ∷ pos 32767 ∷ negsuc 32767 ∷ pos 0 ∷ pos 0 ∷ []
unfolding mix mix_from accumulate sat_i16
half_gain_added = refl

mix-set_source_example :
    let (st, m) = set_source init 7 (some wave) 2 (pos 256) in
    (st ≡ ok) × (get_or (mix m 3) 1 (pos 0) ≡ negsuc 999)
mix-set_source_example =
    mix-set_source 7 wave 2 3 1 (omega arith) (omega arith) (omega arith, omega arith)
