-- ===== src/Client/Manifest.antt =====
-- apps/thinclient/main.c: the manifest (`dash_load_manifest`). The body of the response has no
-- terminator, yet it is searched with `strstr` and `strchr`: the memory behind the body is an
-- argument, and the text goes on in it up to its first 0. The times of the manifest are read by `parse_iso8601` and `parse_duration_us`, which
-- compute with `double` numbers: they are arguments.

pub mod Usable
mod Tests
use remote_avapps.Base.{
  ℕ, zero, suc, ◌+◌, ◌*◌, ◌/◌, ◌-◌, ltb, leb, ◌==◌, if◌then◌else◌, min, u32, u64, Bool, true, false,
  not, ◌&&◌, ◌||◌, List, [], ◌∷◌, ◌++◌, length, take, drop, Option, none, some,
}
use remote_avapps.Base.Int.{ℤ, pos, negsuc, pos_part}
use remote_avapps.Base.Text.{codes, find, contains, behind, before_byte}
use remote_avapps.Client.Http.Chunked.{Fetched, fetched, failed, endless, unfinished}
use remote_avapps.Client.Http.Response.{atoi}

-- `dash_manifest`
pub record DashManifest : Type 0 where
  pub base : List ℕ
  pub start_number : ℤ
  pub avail_start_us : ℤ
  pub seg_duration_us : ℕ
  pub publish_time_us : ℤ
  pub timeshift_depth_us : ℤ
  pub duration_us : ℤ
  pub static_mpd : Bool
  pub window_segments : ℕ
  pub frame_rate : ℕ

-- The value of an attribute, cut to its buffer of 64 bytes, as a time; 0 without the attribute or
-- the quote behind it.
unfoldable pub time_of : (List ℕ → ℤ) → List ℕ → Option (List ℕ) → ℤ
time_of parse name none = pos 0
time_of parse name (some text) = elim (before_byte 34 text) [
  | none ↦ pos 0
  | some value ↦ parse (take 63 value)
]

unfoldable pub number_of : Option (List ℕ) → ℤ
unfolding atoi
number_of none = pos 0
number_of (some text) = atoi text

-- The duration of a segment, from a time scale and a number of its units, a second without them.
unfoldable pub scaled : ℤ → ℤ → ℕ
scaled timescale units =
    if ltb 0 (pos_part timescale) && ltb 0 (pos_part units)
    then pos_part units * 1000000 / pos_part timescale
    else 1000000

-- The first `d` behind the first `<S ` behind a text.
unfoldable pub segment_units : List ℕ → ℤ
unfolding number_of
segment_units s = elim (find (codes "<S ") s) [
  | none ↦ pos 0
  | some timeline ↦ number_of (behind (codes "d=\"") timeline)
]

unfoldable pub segment_us : List ℕ → ℕ
unfolding scaled segment_units
segment_us s = elim (find (codes "timescale=\"") s) [
  | none ↦ 1000000
  | some text ↦ scaled (number_of (some (drop 11 text))) (segment_units text)
]

-- The denominator of a frame rate: the number behind the next slash, 1 without one.
unfoldable pub denominator : List ℕ → ℤ
denominator text = elim (find (47 ∷ []) text) [
  | none ↦ pos 1
  | some [] ↦ pos 1
  | some (slash ∷ []) ↦ pos 1
  | some (slash ∷ c ∷ rest) ↦ atoi (c ∷ rest)
]

unfoldable pub rate : ℤ → ℤ → ℕ
rate (pos (suc n)) (pos (suc d)) = suc n / suc d
rate _ _ = 0

unfoldable pub frame_rate_of : Option (List ℕ) → ℕ
unfolding denominator rate
frame_rate_of none = 0
frame_rate_of (some text) = rate (atoi text) (denominator text)

-- The scheme and the host of the address of the manifest.
unfoldable pub base_of : List ℕ → Option (List ℕ)
base_of url = elim (find (codes "://") url) [
  | none ↦ none
  | some text ↦
      let scheme = length url - length text + 3 in
      let host : List ℕ = elim (before_byte 47 (drop 3 text)) [ none ↦ drop 3 text | some h ↦ h ] in
      some (take (scheme + min 255 (length host)) url)
]

-- How many segments make up the time shift, at least one. The quotient is cut to an `int`.
unfoldable pub window_of : ℕ → ℕ → ℕ
window_of depth seg =
    let n = u32 (u64 (depth + seg - 1) / seg) in if leb 1 n && ltb n 2147483648 then n else 1

-- The load of a manifest fails, does not end, divides by 0, or gives the manifest; or there is no 0
-- in the memory from the body on, and what a search does there is not known.
pub data Loaded : Type 0 where
  refused : Loaded
  hangs : Loaded
  overrun : Loaded
  divided_by_zero : Loaded
  loaded : DashManifest → Loaded

abbrev pub or_else : ℤ → ℤ → ℤ
or_else default (pos (suc n)) = pos (suc n)
or_else default _ = default

abbrev pub static_attribute : List ℕ
static_attribute = codes "type=\"static\""

abbrev pub start_attribute : List ℕ
start_attribute = codes "availabilityStartTime=\""

-- From the base on: the defaults, the window, and the last tests.
unfoldable pub conclude : DashManifest → Option (List ℕ) → Loaded
unfolding window_of
conclude m none = refused
conclude m (some base) =
    let publish = or_else m.avail_start_us m.publish_time_us in
    let depth = or_else (pos 10000000) m.timeshift_depth_us in
    let m' = record m {
      base = base;
      publish_time_us = publish;
      timeshift_depth_us = depth;
      window_segments = window_of (pos_part depth) m.seg_duration_us;
    } in
    if m.seg_duration_us == 0
    then divided_by_zero
    else if m.static_mpd || ltb 0 (pos_part m.avail_start_us)
    then loaded m'
    else refused

abbrev is_some {ℓ} : {A : Type ℓ} → Option A → Bool
is_some none = false
is_some (some x) = true

-- What the attributes of a manifest say.
unfoldable pub attributes : (List ℕ → ℤ) → (List ℕ → ℤ) → List ℕ → DashManifest
unfolding time_of number_of segment_us frame_rate_of
attributes iso8601 duration s =
    let time = λ (parse : List ℕ → ℤ) (name : List ℕ). time_of parse name (behind name s) in
    record {
      base = [];
      start_number = number_of (behind (codes "startNumber=\"") s);
      avail_start_us = time iso8601 start_attribute;
      seg_duration_us = segment_us s;
      publish_time_us = time iso8601 (codes "publishTime=\"");
      timeshift_depth_us = time duration (codes "timeShiftBufferDepth=\"");
      duration_us = time duration (codes "mediaPresentationDuration=\"");
      static_mpd = contains static_attribute s;
      window_segments = 0;
      frame_rate = frame_rate_of (behind (codes "frameRate=\"") s);
    }

-- The manifest of a body that is not empty.
unfoldable pub parse_manifest : (List ℕ → ℤ) → (List ℕ → ℤ) → List ℕ → List ℕ → Loaded
unfolding attributes conclude base_of
parse_manifest iso8601 duration url s =
    if contains static_attribute s || contains start_attribute s
    then conclude (attributes iso8601 duration s) (base_of url)
    else refused

-- The text of a body that is not empty, if there is a 0 behind it.
unfoldable pub parse_text : (List ℕ → ℤ) → (List ℕ → ℤ) → List ℕ → Option (List ℕ) → Loaded
unfolding parse_manifest
parse_text iso8601 duration url none = overrun
parse_text iso8601 duration url (some s) = parse_manifest iso8601 duration url s

-- `dash_load_manifest`, for what the fetch gave and the memory `beyond` its body.
unfoldable pub load_manifest : (List ℕ → ℤ) → (List ℕ → ℤ) → List ℕ → List ℕ → Fetched → Loaded
unfolding parse_text
load_manifest iso8601 duration url beyond (fetched []) = refused
load_manifest iso8601 duration url beyond (fetched (c ∷ body)) =
    parse_text iso8601 duration url (before_byte 0 ((c ∷ body) ++ beyond))
load_manifest iso8601 duration url beyond failed = refused
load_manifest iso8601 duration url beyond endless = hangs
load_manifest iso8601 duration url beyond unfinished = hangs
