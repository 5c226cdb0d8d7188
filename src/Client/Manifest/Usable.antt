-- ===== src/Client/Manifest/Usable.antt =====
-- apps/thinclient/main.c: what a manifest is good for, once it is loaded.
use remote_avapps.Base.{
  ℕ, zero, suc, ◌+◌, ◌*◌, ◌/◌, ◌-◌, ◌≤◌, ◌<◌, ◌≡◌, ◌≢◌, ◌↔◌, ◌⊎◌, inl, inr, refl, ap, arith, ltb,
  leb, ◌==◌, u32, u64, if◌then◌else◌, Bool, true, false, ◌||◌, ◌&&◌, Bool-cases, List, [], ◌∷◌,
  ◌++◌, Option, none, some,
}
use remote_avapps.Base.Int.{ℤ, pos, negsuc, pos_part}
use remote_avapps.Base.Text.{contains, before_byte, find, behind, starts_with}
use remote_avapps.Client.Http.Chunked.{fetched}
use remote_avapps.Client.Manifest.{
  DashManifest, scaled, window_of, Loaded, refused, hangs, overrun, divided_by_zero, loaded,
  or_else, static_attribute, start_attribute, time_of, conclude, attributes, base_of,
  parse_manifest, parse_text, load_manifest,
}

quotient_bounds : (n seg : ℕ) → 0 < seg → (n / seg * seg ≤ n) × (n < n / seg * seg + seg)
quotient_bounds n seg h = grind arith

quotient_small : (n d : ℕ) → n < d → n / d ≡ 0
quotient_small n d h = grind (arith, quotient_bounds n d)

-- The window covers the time shift, with less than a segment more. The shift is above 0, the
-- segments take time, the shift is that of less than 2 ^ 31 segments, and the sum of both is a
-- 64-bit number.
pub window_lem :
    (depth seg : ℕ)
    → 0 < depth
    → 0 < seg
    → depth ≤ 2147483647 * seg
    → depth + seg < 18446744073709551616
    → (depth ≤ window_of depth seg * seg) × (window_of depth seg * seg < depth + seg)
unfolding window_of
window_lem depth seg d s fits words =
    let word : u64 (depth + seg - 1) ≡ depth + seg - 1 = omega (arith, words) in
    let q = (depth + seg - 1) / seg in
    let (low, high) = quotient_bounds (depth + seg - 1) seg s in
    let some_segments : 1 ≤ q = grind (arith, low, high) in
    let int : q < 2147483648 = grind (arith, low, fits) in
    let cut : u32 q ≡ q = omega (arith, int) in
    let test : (leb 1 q && ltb q 2147483648) ≡ true = ground (arith, some_segments, int) in
    rw (word, cut, test) (omega (arith, low, high), omega (arith, low, high))

-- A duration of a segment is 0 exactly when its units are less than a microsecond.
scaled_zero_iff :
    (timescale units : ℤ)
    → (scaled timescale units ≡ 0)
      ↔ ((0 < pos_part units) × (pos_part units * 1000000 < pos_part timescale))
unfolding scaled
scaled_zero_iff timescale units =
    let t = pos_part timescale in
    let u = pos_part units in
    elim (Bool-cases (ltb 0 t && ltb 0 u)) [
      | inl both ↦
          let some_scale : 0 < t = ground (arith, both) in
          let some_units : 0 < u = ground (arith, both) in
          let (low, high) = quotient_bounds (u * 1000000) t some_scale in
          rw both (
            (λ z. (some_units, omega (arith, high, ap (λ (q : ℕ). q * t) z))),
            (λ h. quotient_small (u * 1000000) t h.1),
          )
      | inr none_given ↦ rw none_given (
        (λ z. absurd (omega (arith, z))),
        (λ h. absurd (not_both t u h.0 (omega (arith, h.1)) none_given)),
      )
    ]
  where
    not_both : (t u : ℕ) → 0 < u → 0 < t → (ltb 0 t && ltb 0 u) ≡ false → ⊥
    not_both t u a b e = ground (arith, a, b, e)

or_else_pos : (default z : ℤ) → 0 < pos_part default → 0 < pos_part (or_else default z)
or_else_pos default (pos zero) h = h
or_else_pos default (pos (suc n)) h = omega arith
or_else_pos default (negsuc n) h = h

-- What the last part of a load says of the manifest.
abbrev pub Finished : DashManifest → Option (List ℕ) → Loaded → Type 0
Finished m base refused = (base ≡ none) ⊎ ((m.static_mpd ≡ false) × (pos_part m.avail_start_us ≡ 0))
Finished m base hangs = ⊥
Finished m base overrun = ⊥
Finished m base divided_by_zero = (base ≢ none) × (m.seg_duration_us ≡ 0)
Finished m base (loaded m') =
    (m'.static_mpd ≡ m.static_mpd)
    × (0 < m'.seg_duration_us)
    × (m'.seg_duration_us ≡ m.seg_duration_us)
    × (0 < pos_part m'.timeshift_depth_us)
    × (m'.window_segments ≡ window_of (pos_part m'.timeshift_depth_us) m'.seg_duration_us)
    × ((m'.static_mpd ≡ true) ⊎ (0 < pos_part m'.avail_start_us))

conclude-Finished : (m : DashManifest) (base : Option (List ℕ)) → Finished m base (conclude m base)
unfolding conclude
conclude-Finished m none = inl refl
conclude-Finished m (some base) = elim (Bool-cases (m.seg_duration_us == 0)) [
  | inl z ↦ rw z ((λ e. cc e), ground (arith, z))
  | inr nz ↦ elim (Bool-cases m.static_mpd) [
    | inl st ↦
        rw (nz, st)
          (
            refl,
            ground (arith, nz),
            refl,
            or_else_pos (pos 10000000) m.timeshift_depth_us (omega arith),
            refl,
            inl refl,
          )
    | inr dy ↦ elim (Bool-cases (ltb 0 (pos_part m.avail_start_us))) [
      | inl a ↦
          rw (nz, dy, a)
            (
              refl,
              ground (arith, nz),
              refl,
              or_else_pos (pos 10000000) m.timeshift_depth_us (omega arith),
              refl,
              inr (ground (arith, a)),
            )
      | inr a ↦ rw (nz, dy, a) (inr (refl, ground (arith, a)))
    ]
  ]
]

find-none : (p s : List ℕ) → contains p s ≡ false → find p s ≡ none
unfolding contains find
find-none p [] h = rw h refl
find-none p (c ∷ s) h = elim (Bool-cases (starts_with p (c ∷ s))) [
  | inl here ↦ absurd (cc (rw here at h))
  | inr later ↦ rw later (find-none p s (rw later at h))
]

behind-none : (p s : List ℕ) → contains p s ≡ false → behind p s ≡ none
unfolding behind
behind-none p s h = rw (find-none p s h, behind) refl

dynamic :
    (iso8601 duration : List ℕ → ℤ) (s : List ℕ)
    → contains static_attribute s ≡ false
    → (attributes iso8601 duration s).static_mpd ≡ false
unfolding attributes
dynamic iso8601 duration s h = h

no_start :
    (iso8601 duration : List ℕ → ℤ) (s : List ℕ)
    → contains start_attribute s ≡ false
    → pos_part (attributes iso8601 duration s).avail_start_us ≡ 0
unfolding attributes time_of
no_start iso8601 duration s h =
    ap (λ o. pos_part (time_of iso8601 start_attribute o)) (behind-none start_attribute s h)

or_else_refused :
    (m : DashManifest) (base : Option (List ℕ)) (b : Bool)
    → (b ≡ false → Finished m base refused)
    → Finished m base (if b then conclude m base else refused)
or_else_refused m base true h = conclude-Finished m base
or_else_refused m base false h = h refl

-- The load of a manifest that is not empty, when there is a 0 in the memory from its first byte on:
-- the text `s` is what stands before that 0, in the body and behind it. The load fails only when the
-- address has no scheme, or the manifest is not static and has no start above 0; it divides by 0
-- only when the duration of a segment is 0; otherwise the manifest that it gives has the duration of
-- a segment that was read, which is above 0, a time shift above 0, the window of both, and it is
-- static or has a start above 0.
pub load_manifest-Finished :
    (iso8601 duration : List ℕ → ℤ) (url : List ℕ) (c : ℕ) (body beyond s : List ℕ)
    → before_byte 0 ((c ∷ body) ++ beyond) ≡ some s
    → Finished
        (attributes iso8601 duration s)
        (base_of url)
        (load_manifest iso8601 duration url beyond (fetched (c ∷ body)))
unfolding load_manifest parse_text parse_manifest
load_manifest-Finished iso8601 duration url c body beyond s h = rw h (
    or_else_refused (attributes iso8601 duration s) (base_of url)
      (contains static_attribute s || contains start_attribute s)
      (λ e. inr (
        dynamic iso8601 duration s (ground (arith, e)),
        no_start iso8601 duration s (ground (arith, e)),
      )))
