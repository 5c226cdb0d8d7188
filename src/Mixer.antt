-- ===== src/Mixer.antt =====
-- src/audio/mixer.c and include/vmc/audio/mixer.h: the mix of up to eight stereo sources. Samples
-- and gains are integers; a product of two 16-bit numbers and a sum of eight such quotients by 256
-- stay within 32 bits. The mixer and the output are not NULL, and a source has the samples that its
-- `frames` says.
pub mod Mix
mod Tests
use remote_avapps.Base.{
  ℕ, zero, suc, ◌+◌, ◌*◌, ◌/◌, ◌==◌, ltb, leb, if◌then◌else◌, Bool, true, false, not, ◌&&◌, List,
  [], ◌∷◌, replicate, set, get_or, Option, none, some,
}
use remote_avapps.Base.Int.{ℤ, pos, negsuc, ltb_ℤ, ◌+ℤ◌, ◌*ℤ◌, ◌/ℤ◌}
use remote_avapps.Status.{Status, ok, invalid_arg}

-- `VMC_MIXER_MAX_SOURCES`
abbrev pub max_sources : ℕ
max_sources = 8

-- `vmc_mixer_source`
pub record Source : Type 0 where
  pub is_active : Bool
  pub gain_q8 : ℤ
  pub pcm : Option (List ℤ)
  pub frames : ℕ

-- `vmc_mixer`
pub record Mixer : Type 0 where
  pub src : List Source

abbrev pub silent : Source
silent = record { is_active = false; gain_q8 = pos 0; pcm = none; frames = 0 }

-- `vmc_mixer_init`
unfoldable pub init : Mixer
init = record { src = replicate max_sources silent }

abbrev pub is_null : Option (List ℤ) → Bool
is_null none = true
is_null (some p) = false

-- `vmc_mixer_set_source`
unfoldable pub set_source : Mixer → ℕ → Option (List ℤ) → ℕ → ℤ → Status × Mixer
set_source m idx pcm frames gain_q8 =
    if leb max_sources idx
    then (invalid_arg, m)
    else if ltb 0 frames && is_null pcm
    then (invalid_arg, m)
    else if ltb_ℤ gain_q8 (pos 0)
    then (invalid_arg, m)
    else (
      ok,
      record {
        src =
            set m.src idx
              (record { is_active = ltb 0 frames; gain_q8 = gain_q8; pcm = pcm; frames = frames });
      },
    )

-- `vmc_mixer_clear_source`
unfoldable pub clear_source : Mixer → ℕ → Mixer
clear_source m idx =
    if leb max_sources idx
    then m
    else record { src = set m.src idx (record (get_or m.src idx silent) { is_active = false }) }

-- `sat_i16`
unfoldable pub sat_i16 : ℤ → ℤ
sat_i16 v =
    if ltb_ℤ (pos 32767) v then pos 32767 else if ltb_ℤ v (negsuc 32767) then negsuc 32767 else v

abbrev pub sample_at : Option (List ℤ) → ℕ → ℤ
sample_at none s = pos 0
sample_at (some p) s = get_or p s (pos 0)

-- The inner loop of `vmc_mixer_mix`.
unfoldable pub accumulate : List Source → ℕ → ℤ → ℤ
accumulate [] s acc = acc
accumulate (src ∷ srcs) s acc = accumulate srcs s (
    if not src.is_active
    then acc
    else if leb src.frames (s / 2)
    then acc
    else acc +ℤ sample_at src.pcm s *ℤ src.gain_q8 /ℤ 256)

-- The outer loop: `left` samples from `s` on.
unfoldable pub mix_from : List Source → ℕ → ℕ → List ℤ
mix_from srcs zero s = []
mix_from srcs (suc left) s = sat_i16 (accumulate srcs s (pos 0)) ∷ mix_from srcs left (s + 1)

-- `vmc_mixer_mix`: the samples that it writes.
unfoldable pub mix : Mixer → ℕ → List ℤ
mix m frames_out = if frames_out == 0 then [] else mix_from m.src (frames_out * 2) 0
