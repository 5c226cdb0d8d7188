-- ===== src/DashSim/Requests.antt =====
-- tools/vmc-dash-sim/main.c: `conn_handler`, which answers a request, and `newest_seg`. What the
-- file system says is an argument: the names in the directory, and the state of the file that is
-- asked for, after each pause of 30 ms. What `sscanf` reads of the path is one too.
use remote_avapps.Base.{
  ℕ, zero, suc, ◌+◌, ◌<◌, ◌≤◌, ◌≡◌, ◌≢◌, ◌∙◌, sym, append-nil, Bool-cases, inl, inr, refl, ap,
  arith, if◌then◌else◌, Bool, true, false, ◌&&◌, List, [], ◌∷◌, ◌++◌, length, drop, Option, none,
  some,
}
use remote_avapps.Base.Int.{ℤ, pos, negsuc, ltb_ℤ, ◌+ℤ◌}
use remote_avapps.Base.Text.{codes, starts_with}
use remote_avapps.Client.Http.Response.{atoi}

-- The loop of `newest_seg` over the names, with the highest number so far.
unfoldable pub newest_from : List ℕ → List (List ℕ) → ℤ → ℤ
unfolding starts_with atoi
newest_from prefix [] best = best
newest_from prefix (name ∷ names) best =
    let num = atoi (drop (length prefix) name) in
    newest_from prefix names (if starts_with prefix name && ltb_ℤ best num then num else best)

-- `newest_seg`, for the prefix of the names of a stream and a directory that may not open.
unfoldable pub newest_seg : List ℕ → Option (List (List ℕ)) → ℤ
unfolding newest_from
newest_seg prefix none = negsuc 0
newest_seg prefix (some names) = newest_from prefix names (negsuc 0)

-- A file under its final name, under its temporary name only, or neither.
pub data FileState : Type 0 where
  final temporary absent : FileState

-- An answer to a request: `serve_full`, `serve_progressive`, or 404.
pub data Answer : Type 0 where
  full progressive not_found : Answer

-- What is served of a file, or else the rest of the handler.
abbrev pub serve_or : FileState → List Answer → List Answer
serve_or final rest = full ∷ []
serve_or temporary rest = progressive ∷ []
serve_or absent rest = rest

-- The loop that holds a request: the answer, for the turns left, the state of the file after so many
-- pauses, and whether the server runs.
unfoldable pub hold : (ℕ → FileState) → (ℕ → Bool) → ℕ → ℕ → List Answer
hold world run zero pauses = []
hold world run (suc left) pauses =
    let rest = serve_or (world (suc pauses)) (hold world run left (suc pauses)) in
    if run pauses then rest else []

-- After the loop a 404 goes out if the server runs and the file is absent then.
unfoldable pub after_hold : FileState → Bool → List Answer
after_hold absent true = not_found ∷ []
after_hold _ _ = []

-- A number is too far ahead of the newest segment, if there is one.
unfoldable pub too_far : Option ℤ → ℤ → Bool
too_far none newest = false
too_far (some num) (pos n) = ltb_ℤ (pos n +ℤ pos 30) num
too_far (some num) (negsuc n) = false

-- `conn_handler`, for a path that was read of a GET request: `num` is the number in the path,
-- `newest` that of the newest segment, and `later` and `runs` stand for the tests after the loop.
unfoldable pub conn_handler :
    List ℕ → Option ℤ → ℤ → (ℕ → FileState) → (ℕ → Bool) → FileState → Bool → List Answer
unfolding after_hold starts_with
conn_handler path num newest world run later runs =
    let manifest = starts_with path (codes "/live.mpd") && starts_with (codes "/live.mpd") path in
    let held =
      if too_far num newest
      then not_found ∷ []
      else hold world run 500 0 ++ after_hold later runs in
    if manifest
    then full ∷ []
    else if starts_with (47 ∷ []) path
    then serve_or (world 0) held
    else not_found ∷ []

served_or :
    (f : FileState) (rest rest' : List Answer) → f ≢ absent → serve_or f rest ≡ serve_or f rest'
served_or final rest rest' h = refl
served_or temporary rest rest' h = refl
served_or absent rest rest' h = absurd (h refl)

after_kept : (f : FileState) (b : Bool) → f ≢ absent → after_hold f b ≡ []
unfolding after_hold
after_kept final b h = refl
after_kept temporary b h = refl
after_kept absent b h = absurd (h refl)

-- A file that is absent for so many pauses, and then is there, is served then.
hold_served :
    (world : ℕ → FileState) (run : ℕ → Bool) (k left pauses : ℕ)
    → k < left
    → ((i : ℕ) → run i ≡ true)
    → ((i : ℕ) → i < k → world (suc pauses + i) ≡ absent)
    → world (suc pauses + k) ≢ absent
    → hold world run left pauses ≡ serve_or (world (suc pauses + k)) []
unfolding hold
hold_served world run k zero pauses h r a there = absurd (omega arith)
hold_served world run zero (suc left) pauses h r a there =
    let e : suc pauses + 0 ≡ suc pauses = omega arith in
    rw (r pauses, e)
      (served_or (world (suc pauses)) (hold world run left (suc pauses)) []
        (λ z. there (ap world e ∙ z)))
hold_served world run (suc k) (suc left) pauses h r a there =
    let here : world (suc pauses) ≡ absent =
      ap world (let e : suc pauses ≡ suc pauses + 0 = omega arith in e) ∙ a 0 (omega arith) in
    let e : suc (suc pauses) + k ≡ suc pauses + suc k = omega arith in
    rw (r pauses, here)
      (hold_served world run k left (suc pauses) (omega arith) r
          (λ i l.
            ap world (let f : suc (suc pauses) + i ≡ suc pauses + suc i = omega arith in f)
            ∙ a (suc i) (omega arith))
          (λ z. there (ap world (sym e) ∙ z))
        ∙ ap (λ j. serve_or (world j) []) e)

-- A file that stays absent is not served.
hold_absent :
    (world : ℕ → FileState) (run : ℕ → Bool) (left pauses : ℕ)
    → ((i : ℕ) → i < left → world (suc pauses + i) ≡ absent)
    → hold world run left pauses ≡ []
unfolding hold
hold_absent world run zero pauses a = refl
hold_absent world run (suc left) pauses a = elim (Bool-cases (run pauses)) [
  | inl go_on ↦
      let here : world (suc pauses) ≡ absent =
        ap world (let e : suc pauses ≡ suc pauses + 0 = omega arith in e) ∙ a 0 (omega arith) in
      rw (go_on, here)
        (hold_absent world run left (suc pauses) (λ i l.
          ap world (let f : suc (suc pauses) + i ≡ suc pauses + suc i = omega arith in f)
          ∙ a (suc i) (omega arith)))
  | inr stopped ↦ rw stopped refl
]

module _ (path : List ℕ) (num : Option ℤ) (newest : ℤ) (world : ℕ → FileState) (later : FileState)
    (run : ℕ → Bool) (running : (i : ℕ) → run i ≡ true)
    (is_file : starts_with (47 ∷ []) path ≡ true)
    (no_manifest : (starts_with path (codes "/live.mpd") && starts_with (codes "/live.mpd") path)
      ≡ false)
    (near : too_far num newest ≡ false) where
  -- A request for a file, with no number more than 30 ahead of the newest segment, while the server
  -- runs: a file that is there at first, or appears within 500 pauses, and is there after the loop,
  -- is served once, under the name that it has when it is found.
  pub conn_handler_served :
      (k : ℕ)
      → k ≤ 500
      → ((i : ℕ) → i < k → world i ≡ absent)
      → world k ≢ absent
      → later ≢ absent
      → conn_handler path num newest world run later true ≡ serve_or (world k) []
  unfolding conn_handler
  conn_handler_served zero l a there kept =
      rw (no_manifest, is_file) (served_or (world 0) _ [] there)
  conn_handler_served (suc k) l a there kept =
      let e : 1 + k ≡ suc k = omega arith in
      let held : hold world run 500 0 ≡ serve_or (world (1 + k)) [] =
        hold_served world run k 500 0 (omega arith) running (λ i h. a (1 + i) (omega arith))
          (λ z. there (ap world (sym e) ∙ z)) in
      rw (no_manifest, is_file, a 0 (omega arith), near)
        (ap (λ t. t ++ after_hold later true) (held ∙ ap (λ j. serve_or (world j) []) e)
          ∙ (ap (λ t. serve_or (world (suc k)) [] ++ t) (after_kept later true kept)
              ∙ append-nil _))

  -- A file that stays absent is answered by one 404.
  pub conn_handler_absent :
      ((i : ℕ) → i ≤ 500 → world i ≡ absent)
      → later ≡ absent
      → conn_handler path num newest world run later true ≡ not_found ∷ []
  unfolding conn_handler
  conn_handler_absent a gone =
      rw
        (
          no_manifest,
          is_file,
          a 0 (omega arith),
          near,
          hold_absent world run 500 0 (λ i h. a (1 + i) (omega arith)),
          gone,
        )
        refl
