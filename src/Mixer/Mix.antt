-- ===== src/Mixer/Mix.antt =====
-- src/audio/mixer.c: what a mix plays.
use remote_avapps.Base.{
  ℕ, zero, suc, ◌+◌, ◌*◌, ◌/◌, ◌<◌, ◌≤◌, ◌≡◌, ◌==◌, refl, arith, ltb, leb, if◌then◌else◌, not, ◌&&◌,
  Bool, true, false, List, length, set, get_or, replicate, some, Bool-cases, inl, inr, ap, ◌∙◌,
}
use remote_avapps.Base.Int.{ℤ, pos, pos_part, neg_part, ◌+ℤ◌, ◌*ℤ◌, ◌/ℤ◌}
use remote_avapps.Status.{ok}
use remote_avapps.Mixer.{
  Source, Mixer, init, set_source, silent, sat_i16, accumulate, mix_from, mix, max_sources,
}

-- A 16-bit sample.
abbrev pub IsSample : ℤ → Type 0
IsSample v = (pos_part v ≤ 32767) × (neg_part v ≤ 32768)

sat_i16-IsSample : (v : ℤ) → IsSample (sat_i16 v)
unfolding sat_i16
sat_i16-IsSample v = ground arith

sat_i16_id : (v : ℤ) → IsSample v → sat_i16 v ≡ v
unfolding sat_i16
sat_i16_id v h = ground arith

unity : (v : ℤ) → pos 0 +ℤ v *ℤ pos 256 /ℤ 256 ≡ v
unity v = ground arith

-- The sum over sources of which none is active.
accumulate-silent : (n s : ℕ) (acc : ℤ) → accumulate (replicate n silent) s acc ≡ acc
unfolding accumulate
accumulate-silent zero s acc = refl
accumulate-silent (suc n) s acc = accumulate-silent n s acc

-- What one source with unity gain adds at sample `s`.
abbrev pub played : List ℤ → ℕ → ℕ → ℤ
played p frames s = if leb frames (s / 2) then pos 0 else get_or p s (pos 0)

abbrev plain : List ℤ → ℕ → Source
plain p frames = record {
  is_active = ltb 0 frames;
  gain_q8 = pos 256;
  pcm = some p;
  frames = frames;
}

first :
    (frames s : ℕ) (v : ℤ)
    → (if not (ltb 0 frames)
        then pos 0
        else if leb frames (s / 2)
        then pos 0
        else pos 0 +ℤ v *ℤ pos 256 /ℤ 256)
      ≡ (if leb frames (s / 2) then pos 0 else v)
first frames s v = elim (Bool-cases (leb frames (s / 2))) [
  | inl h ↦ rw h (ground arith)
  | inr h ↦ let on : ltb 0 frames ≡ true = ground arith in rw h (rw on (unity v))
]

accumulate_one :
    (n idx : ℕ) (p : List ℤ) (frames s : ℕ)
    → idx < n
    → accumulate (set (replicate n silent) idx (plain p frames)) s (pos 0) ≡ played p frames s
unfolding accumulate
accumulate_one zero idx p frames s h = absurd (omega arith)
accumulate_one (suc n) zero p frames s h =
    accumulate-silent n s _ ∙ first frames s (get_or p s (pos 0))
accumulate_one (suc n) (suc idx) p frames s h = accumulate_one n idx p frames s (omega arith)

get_or-mix_from :
    (srcs : List Source) (left s j : ℕ)
    → j < left
    → get_or (mix_from srcs left s) j (pos 0) ≡ sat_i16 (accumulate srcs (s + j) (pos 0))
unfolding mix_from
get_or-mix_from srcs zero s j h = absurd (omega arith)
get_or-mix_from srcs (suc left) s zero h =
    let e : s ≡ s + 0 = omega arith in ap (λ k. sat_i16 (accumulate srcs k (pos 0))) e
get_or-mix_from srcs (suc left) s (suc j) h =
    let e : s + 1 + j ≡ s + suc j = omega arith in
    get_or-mix_from srcs left (s + 1) j (omega arith)
    ∙ ap (λ k. sat_i16 (accumulate srcs k (pos 0))) e

length-mix_from : (srcs : List Source) (left s : ℕ) → length (mix_from srcs left s) ≡ left
unfolding mix_from
length-mix_from srcs zero s = refl
length-mix_from srcs (suc left) s = ap suc (length-mix_from srcs left (s + 1))

mix_all : (m : Mixer) (n : ℕ) → mix m n ≡ mix_from m.src (n * 2) 0
unfolding mix mix_from
mix_all m zero = refl
mix_all m (suc n) = let e : (suc n == 0) ≡ false = ground arith in rw e refl

get_or-mix :
    (m : Mixer) (n s : ℕ)
    → s < n * 2
    → get_or (mix m n) s (pos 0) ≡ sat_i16 (accumulate m.src s (pos 0))
get_or-mix m n s h =
    let e : 0 + s ≡ s = omega arith in
    ap (λ l. get_or l s (pos 0)) (mix_all m n)
    ∙ get_or-mix_from m.src (n * 2) 0 s h
    ∙ ap (λ k. sat_i16 (accumulate m.src k (pos 0))) e

set_source_ok :
    (idx : ℕ) (p : List ℤ) (frames : ℕ)
    → idx < max_sources
    → set_source init idx (some p) frames (pos 256)
      ≡ (ok, record { src = set (replicate max_sources silent) idx (plain p frames) })
unfolding set_source init
set_source_ok idx p frames h =
    let within : leb max_sources idx ≡ false = ground arith in
    let given : (ltb 0 frames && false) ≡ false = ground arith in rw within (rw given refl)

-- A mix of any sources writes two samples for each frame asked for, and each of them is a 16-bit
-- sample.
pub mix-IsSample :
    (m : Mixer) (frames_out s : ℕ)
    → s < frames_out * 2
    → (length (mix m frames_out) ≡ frames_out * 2) × IsSample (get_or (mix m frames_out) s (pos 0))
mix-IsSample m n s h = (
  ap length (mix_all m n) ∙ length-mix_from m.src (n * 2) 0,
  rw (get_or-mix m n s h) (sat_i16-IsSample (accumulate m.src s (pos 0))),
)

-- One source, put at any index of a fresh mixer with gain 1.0, is accepted and plays unchanged: a
-- sample of the mix is its sample, and 0 behind its end. The sample is of 16 bits.
pub mix-set_source :
    (idx : ℕ) (p : List ℤ) (frames frames_out s : ℕ)
    → idx < max_sources
    → s < frames_out * 2
    → IsSample (get_or p s (pos 0))
    → let (st, m) = set_source init idx (some p) frames (pos 256) in
      (st ≡ ok) × (get_or (mix m frames_out) s (pos 0) ≡ played p frames s)
mix-set_source idx p frames n s below h small =
    let e = set_source_ok idx p frames below in
    let m : Mixer = record { src = set (replicate max_sources silent) idx (plain p frames) } in
    rw e (
      refl,
      get_or-mix m n s h
          ∙ ap sat_i16 (accumulate_one max_sources idx p frames s below)
          ∙ sat_i16_id (played p frames s) (kept (leb frames (s / 2))),
    )
  where
    kept : (b : Bool) → IsSample (if b then pos 0 else get_or p s (pos 0))
    kept true = (omega arith, omega arith)
    kept false = small
