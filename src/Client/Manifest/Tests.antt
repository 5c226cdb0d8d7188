-- ===== src/Client/Manifest/Tests.antt =====
-- Manifests that the client loads, and the theorems at concrete inputs.
use remote_avapps.Base.{ℕ, ◌+◌, ◌*◌, ◌≤◌, ◌<◌, ◌≡◌, refl, arith, List, [], ◌∷◌, ◌++◌, some}
use remote_avapps.Base.Int.{pos}
use remote_avapps.Base.Text.{codes, find, behind, contains, before_byte, starts_with, decimal_from}
use remote_avapps.Client.Http.Chunked.{fetched}
use remote_avapps.Client.Http.Response.{atoi}
use remote_avapps.Client.Manifest.{
  segment_us, frame_rate_of, base_of, attributes, window_of, divided_by_zero, load_manifest,
}
use remote_avapps.Client.Manifest.Usable.{window_lem, Finished, load_manifest-Finished}

half_seconds : segment_us (codes "timescale=\"48000\"><S t=\"0\" d=\"24000\"/>") ≡ 500000
unfolding segment_us find starts_with behind atoi decimal_from
half_seconds = refl

-- A rate with no denominator finds the slash of another tag.
rate_lost : frame_rate_of (some (codes "24\" /><S/>")) ≡ 0
unfolding frame_rate_of find starts_with atoi decimal_from
rate_lost = refl

abbrev address : List ℕ
address = codes "http://box/live.mpd"

-- A time scale above a million units, and one unit.
tiny_segments :
    load_manifest
      (λ t. pos 1)
      (λ t. pos 1)
      address
      (0 ∷ [])
      (fetched (codes "<MPD type=\"static\" timescale=\"90000000\"><S d=\"1\"/>"))
    ≡ divided_by_zero
unfolding load_manifest find starts_with behind contains before_byte atoi decimal_from
tiny_segments = refl

-- The memory behind the body still holds the end of an older one.
abbrev old_bytes : List ℕ
old_bytes = codes "d=\"5\"/>" ++ (0 ∷ [])

text_found :
    before_byte 0 (codes "<MPD type=\"static\"/>" ++ old_bytes)
    ≡ some (codes "<MPD type=\"static\"/>d=\"5\"/>")
unfolding before_byte
text_found = refl

load_manifest-Finished_example :
    Finished
      (attributes (λ t. pos 1) (λ t. pos 1) (codes "<MPD type=\"static\"/>d=\"5\"/>"))
      (base_of address)
      (load_manifest
        (λ t. pos 1)
        (λ t. pos 1)
        address
        old_bytes
        (fetched (codes "<MPD type=\"static\"/>")))
load_manifest-Finished_example =
    load_manifest-Finished (λ t. pos 1) (λ t. pos 1) address b'<' (codes "MPD type=\"static\"/>")
      old_bytes (codes "<MPD type=\"static\"/>d=\"5\"/>") text_found

window_lem_example :
    (10000000 ≤ window_of 10000000 960000 * 960000)
    × (window_of 10000000 960000 * 960000 < 10000000 + 960000)
window_lem_example =
    window_lem 10000000 960000 (omega arith) (omega arith) (omega arith) (omega arith)
