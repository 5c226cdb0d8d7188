-- ===== src/DashSim/Static.antt =====
-- tools/vmc-dash-sim/main.c and apps/thinclient/main.c: the manifest at the end of a stream that is
-- played once, as the client loads it.
use remote_avapps.Base.{
  ℕ, ◌≡◌, ◌≢◌, ◌⊎◌, ◌≤◌, ◌==◌, ◌∙◌, refl, arith, true, ◌||◌, some, Bool-cases, inl, inr, List, [],
  ◌∷◌, ◌++◌, length, Option, none,
}
use remote_avapps.Base.Text.{c_str, before_byte, starts_with, contains}
use remote_avapps.Base.Int.{ℤ}
use remote_avapps.Client.Http.Chunked.{fetched}
use remote_avapps.Client.Manifest.{
  DashManifest, Loaded, refused, hangs, overrun, divided_by_zero, loaded, static_attribute,
  attributes, base_of, load_manifest,
}
use remote_avapps.Client.Manifest.Usable.{Finished, load_manifest-Finished}
use remote_avapps.DashSim.Patch.{
  Files, dynamic_attribute, replaced, patch_mpd_static, contains_front, contains_later,
  contains_rest, not_static, patched_static,
}

starts_with-append : (p s u : List ℕ) → starts_with p s ≡ true → starts_with p (s ++ u) ≡ true
unfolding starts_with
starts_with-append [] s u h = refl
starts_with-append (c ∷ p) [] u h = cc h
starts_with-append (c ∷ p) (d ∷ s) u h = ground (arith, h, starts_with-append p s u)

contains-append : (p s u : List ℕ) → contains p s ≡ true → contains p (s ++ u) ≡ true
unfolding contains
contains-append p [] u h = contains_front p u (starts_with-append p [] u h)
contains-append p (c ∷ s) u h = elim (Bool-cases (starts_with p (c ∷ s))) [
  | inl here ↦ contains_front p (c ∷ (s ++ u)) (starts_with-append p (c ∷ s) u here)
  | inr later ↦ contains_later p (s ++ u) c (contains-append p s u (contains_rest p s c later h))
]

-- The text from a body on goes at least as far as that of the body with a 0 behind it.
before_byte-c_str :
    (body beyond before : List ℕ)
    → before_byte 0 beyond ≡ some before
    → (u : List ℕ) × (before_byte 0 (body ++ beyond) ≡ some (c_str body ++ u))
unfolding before_byte c_str
before_byte-c_str [] beyond before h = (before, h)
before_byte-c_str (c ∷ body) beyond before h = elim (Bool-cases (c == 0)) [
  | inl end ↦ rw end ([], refl)
  | inr go_on ↦ let (u, e) = before_byte-c_str body beyond before h in rw (go_on, e) (u, refl)
]

static_outcome :
    (m : DashManifest) (base : Option (List ℕ)) (r : Loaded)
    → Finished m base r
    → m.static_mpd ≡ true
    → base ≢ none
    → (r ≡ divided_by_zero) ⊎ ((m' : DashManifest) × (r ≡ loaded m') × (m'.static_mpd ≡ true))
static_outcome m base refused (inl e) s b = absurd (b e)
static_outcome m base refused (inr (d, z)) s b = absurd (cc (d, s))
static_outcome m base hangs f s b = absurd f
static_outcome m base overrun f s b = absurd f
static_outcome m base divided_by_zero f s b = inl refl
static_outcome m base (loaded m') f s b = inr (m', refl, f.0 ∙ s)

static_mpd_lem :
    (iso8601 duration : List ℕ → ℤ) (s : List ℕ)
    → (attributes iso8601 duration s).static_mpd ≡ contains static_attribute s
unfolding attributes
static_mpd_lem iso8601 duration s = refl

-- A body whose text is static is not refused.
load-static :
    (iso8601 duration : List ℕ → ℤ) (url body beyond before : List ℕ)
    → before_byte 0 beyond ≡ some before
    → contains static_attribute (c_str body) ≡ true
    → base_of url ≢ none
    → let r = load_manifest iso8601 duration url beyond (fetched body) in
      (r ≡ divided_by_zero) ⊎ ((m : DashManifest) × (r ≡ loaded m) × (m.static_mpd ≡ true))
load-static iso8601 duration url [] beyond before z s b = absurd (not_static s)
load-static iso8601 duration url (c ∷ body) beyond before z s b =
    let (u, e) = before_byte-c_str (c ∷ body) beyond before z in
    let text = c_str (c ∷ body) ++ u in
    static_outcome (attributes iso8601 duration text) (base_of url) _
      (load_manifest-Finished iso8601 duration url c body beyond text e)
      (static_mpd_lem iso8601 duration text
        ∙ contains-append static_attribute (c_str (c ∷ body)) u s)
      b

-- The server's manifest says dynamic or static, and fits its buffer. The file opens for reading and
-- for writing, all of it is read, there is memory, and all of the new text is written. After the
-- patch at the end of the stream, a client whose address has a scheme loads a static manifest, or
-- divides by 0; it does not refuse it. The client's body has no terminator: a 0 stands somewhere in
-- the memory behind it.
pub load_manifest-patch_mpd_static :
    (iso8601 duration : List ℕ → ℤ) (url file beyond before : List ℕ) (io : Files)
    → io.reads ≡ true
    → io.memory ≡ true
    → io.writes ≡ true
    → length file ≤ 65535
    → length file ≤ io.got
    → length (replaced 0 (c_str file)) ≤ io.written
    → (contains dynamic_attribute (c_str file) || contains static_attribute (c_str file)) ≡ true
    → base_of url ≢ none
    → before_byte 0 beyond ≡ some before
    → let r = load_manifest iso8601 duration url beyond (fetched (patch_mpd_static io file)) in
      (r ≡ divided_by_zero) ⊎ ((m : DashManifest) × (r ≡ loaded m) × (m.static_mpd ≡ true))
load_manifest-patch_mpd_static iso8601 duration url file beyond before io r m w fits whole room h b
      z =
    load-static iso8601 duration url (patch_mpd_static io file) beyond before z
      (patched_static io file r m w fits whole room h) b
