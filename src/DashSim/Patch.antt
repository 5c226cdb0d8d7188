-- ===== src/DashSim/Patch.antt =====
-- tools/vmc-dash-sim/main.c: the end of a stream that is played once. `patch_mpd_static` rewrites the
-- manifest.
use remote_avapps.Base.{
  ℕ, zero, suc, ◌≡◌, ◌⊎◌, ◌≤◌, ◌==◌, take_long, refl, ap, arith, Bool, true, false, ◌||◌, min,
  if◌then◌else◌, Bool-cases, inl, inr, List, [], ◌∷◌, ◌++◌, length, take,
}
use remote_avapps.Base.Text.{codes, c_str, starts_with, contains}
use remote_avapps.Client.Manifest.{static_attribute}

abbrev pub dynamic_attribute : List ℕ
dynamic_attribute = codes "type=\"dynamic\""

-- The loop over the text; `skip` counts the bytes of an attribute that is already replaced.
unfoldable pub replaced : ℕ → List ℕ → List ℕ
unfolding starts_with
replaced skip [] = []
replaced (suc skip) (c ∷ s) = replaced skip s
replaced zero (c ∷ s) =
    let here = starts_with dynamic_attribute (c ∷ s) in
    (if here then static_attribute else c ∷ []) ++ replaced (if here then 13 else 0) s

-- What the calls of the C library do for `patch_mpd_static`: the file opens for reading, `fread`
-- gives so many bytes at most, there is memory, the file opens for writing, and so many bytes at
-- most are written to it.
pub record Files : Type 0 where
  pub reads : Bool
  pub got : ℕ
  pub memory : Bool
  pub writes : Bool
  pub written : ℕ

-- What the file holds once the text `out` is to be written to it.
unfoldable pub rewritten : Files → List ℕ → List ℕ → List ℕ
rewritten io file out = if io.writes then take io.written out else file

-- What it holds for the text that was read: the text with the attribute replaced, unless it is
-- static or there is no memory.
unfoldable pub patched_text : Files → List ℕ → List ℕ → List ℕ
unfolding contains replaced rewritten
patched_text io file text =
    if contains static_attribute text
    then file
    else if io.memory
    then rewritten io file (replaced 0 text)
    else file

-- What it holds for the bytes that were read; there may be none.
unfoldable pub patched_from : Files → List ℕ → List ℕ → List ℕ
unfolding patched_text c_str
patched_from io file [] = file
patched_from io file (c ∷ s) = patched_text io file (c_str (c ∷ s))

-- What the file holds after `patch_mpd_static`.
unfoldable pub patch_mpd_static : Files → List ℕ → List ℕ
unfolding patched_from
patch_mpd_static io file =
    if io.reads then patched_from io file (take (min 65535 io.got) file) else file

pub contains_front : (p s : List ℕ) → starts_with p s ≡ true → contains p s ≡ true
unfolding contains
contains_front p [] h = h
contains_front p (c ∷ s) h = rw h refl

pub contains_later : (p s : List ℕ) (c : ℕ) → contains p s ≡ true → contains p (c ∷ s) ≡ true
unfolding contains
contains_later p s c h = ground (arith, h)

static_front : (t : List ℕ) → starts_with static_attribute (static_attribute ++ t) ≡ true
unfolding starts_with
static_front t = refl

contains_nil : contains dynamic_attribute [] ≡ true → ⊥
unfolding contains starts_with
contains_nil h = cc h

pub contains_rest :
    (p s : List ℕ) (c : ℕ)
    → starts_with p (c ∷ s) ≡ false
    → contains p (c ∷ s) ≡ true
    → contains p s ≡ true
unfolding contains
contains_rest p s c e h = ground (arith, e, h)

-- A text with the one attribute becomes a text with the other.
replaced-contains :
    (s : List ℕ)
    → contains dynamic_attribute s ≡ true
    → contains static_attribute (replaced 0 s) ≡ true
unfolding replaced
replaced-contains [] h = absurd (contains_nil h)
replaced-contains (c ∷ s) h = elim (Bool-cases (starts_with dynamic_attribute (c ∷ s))) [
  | inl here ↦ rw here (
      contains_front static_attribute (static_attribute ++ replaced 13 s)
        (static_front (replaced 13 s)))
  | inr later ↦ rw later (
      contains_later static_attribute (replaced 0 s) c
        (replaced-contains s (contains_rest dynamic_attribute s c later h)))
]

-- No byte is 0.
abbrev NoZero : List ℕ → Type 0
NoZero [] = Unit {0}
NoZero (c ∷ s) = ((c == 0) ≡ false) × NoZero s

c_str-NoZero : (s : List ℕ) → NoZero (c_str s)
unfolding c_str
c_str-NoZero [] = tt
c_str-NoZero (c ∷ s) = elim (Bool-cases (c == 0)) [
  | inl end ↦ rw end tt
  | inr go_on ↦ rw go_on (go_on, c_str-NoZero s)
]

c_str_whole : (s : List ℕ) → NoZero s → c_str s ≡ s
unfolding c_str
c_str_whole [] h = refl
c_str_whole (c ∷ s) h = rw h.0 (ap (λ t. c ∷ t) (c_str_whole s h.1))

replaced-NoZero : (skip : ℕ) (s : List ℕ) → NoZero s → NoZero (replaced skip s)
unfolding replaced
replaced-NoZero skip [] h = tt
replaced-NoZero (suc skip) (c ∷ s) h = replaced-NoZero skip s h.1
replaced-NoZero zero (c ∷ s) h = elim (Bool-cases (starts_with dynamic_attribute (c ∷ s))) [
  | inl here ↦ rw here (static_more (replaced 13 s) (replaced-NoZero 13 s h.1))
  | inr later ↦ rw later (h.0, replaced-NoZero 0 s h.1)
]
  where
    static_more : (t : List ℕ) → NoZero t → NoZero (static_attribute ++ t)
    static_more t h = search h

-- The text of a manifest is static after the patch, if it says dynamic or static.
patched_text-contains :
    (io : Files) (file : List ℕ)
    → io.memory ≡ true
    → io.writes ≡ true
    → length (replaced 0 (c_str file)) ≤ io.written
    → (contains dynamic_attribute (c_str file) || contains static_attribute (c_str file)) ≡ true
    → contains static_attribute (c_str (patched_text io file (c_str file))) ≡ true
unfolding patched_text rewritten
patched_text-contains io file m w room h =
    elim (Bool-cases (contains static_attribute (c_str file))) [
      | inl already ↦ rw already already
      | inr not_yet ↦
          let dynamic : contains dynamic_attribute (c_str file) ≡ true =
            ground (arith, h, not_yet) in
          let kept : c_str (replaced 0 (c_str file)) ≡ replaced 0 (c_str file) =
            c_str_whole _ (replaced-NoZero 0 (c_str file) (c_str-NoZero file)) in
          rw (not_yet, m, w, take_long io.written (replaced 0 (c_str file)) room, kept)
            (replaced-contains (c_str file) dynamic)
    ]

pub not_static : contains static_attribute (c_str []) ≡ true → ⊥
unfolding contains starts_with c_str
not_static h = cc h

nothing_said :
    (contains dynamic_attribute (c_str []) || contains static_attribute (c_str [])) ≡ true → ⊥
unfolding contains starts_with c_str
nothing_said h = cc h

patched_from-contains :
    (io : Files) (file : List ℕ)
    → io.memory ≡ true
    → io.writes ≡ true
    → length (replaced 0 (c_str file)) ≤ io.written
    → (contains dynamic_attribute (c_str file) || contains static_attribute (c_str file)) ≡ true
    → contains static_attribute (c_str (patched_from io file file)) ≡ true
unfolding patched_from
patched_from-contains io [] m w room h = absurd (nothing_said h)
patched_from-contains io (c ∷ s) m w room h = patched_text-contains io (c ∷ s) m w room h

pub patched_static :
    (io : Files) (file : List ℕ)
    → io.reads ≡ true
    → io.memory ≡ true
    → io.writes ≡ true
    → length file ≤ 65535
    → length file ≤ io.got
    → length (replaced 0 (c_str file)) ≤ io.written
    → (contains dynamic_attribute (c_str file) || contains static_attribute (c_str file)) ≡ true
    → contains static_attribute (c_str (patch_mpd_static io file)) ≡ true
unfolding patch_mpd_static
patched_static io file r m w fits whole room h =
    let all : take (min 65535 io.got) file ≡ file =
      take_long (min 65535 io.got) file (omega (arith, fits, whole)) in
    rw (r, all) (patched_from-contains io file m w room h)

unwritten :
    (io : Files) (file bytes : List ℕ)
    → (io.memory ≡ false) ⊎ (io.writes ≡ false)
    → patched_from io file bytes ≡ file
unfolding patched_from patched_text rewritten
unwritten io file [] f = refl
unwritten io file (c ∷ s) f = ground (arith, f)

-- A failure to open the file, or to get memory, leaves the manifest as it was.
pub patch_mpd_static_failed :
    (io : Files) (file : List ℕ)
    → (io.reads ≡ false) ⊎ (io.memory ≡ false) ⊎ (io.writes ≡ false)
    → patch_mpd_static io file ≡ file
unfolding patch_mpd_static
patch_mpd_static_failed io file (inl r) = rw r refl
patch_mpd_static_failed io file (inr f) = elim (Bool-cases io.reads) [
  | inl r ↦ rw r (unwritten io file (take (min 65535 io.got) file) f)
  | inr r ↦ rw r refl
]
