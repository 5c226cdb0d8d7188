-- ===== src/Pipeline.antt =====
-- src/audio/pipeline.c: the audio pipeline. The sink and the source are arguments, by what they
-- return, and absent where their function pointer is NULL. The pipeline itself is not NULL.
use remote_avapps.Base.{
  ℕ, ltb, if◌then◌else◌, Bool, true, false, ◌&&◌, List, [], ◌∷◌, Option, none, some,
}
use remote_avapps.Base.Int.{ℤ, pos}
use remote_avapps.Status.{Status, ok, invalid_arg, no_sys}
use remote_avapps.Mixer.{Mixer, set_source}
use remote_avapps.Mixer

abbrev pub no_pcm : Option (List ℤ) → Bool
no_pcm none = true
no_pcm (some pcm) = false

-- `vmc_audio_pipeline_init`: the mixer that it leaves.
unfoldable pub pipeline_init : Mixer
pipeline_init = Mixer.init

-- The blocks that go to the sink, and its answer.
abbrev pub played : Option Status → Option (List ℤ) → ℕ → Status × List (Option (List ℤ) × ℕ)
played none pcm frames = (no_sys, [])
played (some st) pcm frames = (st, (pcm, frames) ∷ [])

-- What follows the setting of the source.
abbrev pub rendered :
    Status × Mixer
    → Option Status
    → Option (List ℤ)
    → ℕ
    → Status × Mixer × List (Option (List ℤ) × ℕ)
rendered (ok, m) sink pcm frames = let (st, blocks) = played sink pcm frames in (st, m, blocks)
rendered (st, m) sink pcm frames = (st, m, [])

-- `vmc_audio_pipeline_render`: the status, the mixer, and the blocks that went to the sink.
unfoldable pub render :
    Mixer → Option Status → Option (List ℤ) → ℕ → Status × Mixer × List (Option (List ℤ) × ℕ)
render m sink pcm frames =
    if ltb 0 frames && no_pcm pcm
    then (invalid_arg, m, [])
    else rendered (set_source m 0 pcm frames (pos 256)) sink pcm frames
