-- ===== src/Sim/Scan.antt =====
-- tools/vmc_sim/main.c: the search for start codes, and the loop over the NAL units.
use remote_avapps.Base.{
  ℕ, zero, suc, ◌+◌, ◌-◌, ◌<◌, ◌≤◌, ◌≡◌, ◌⊎◌, inl, inr, refl, arith, ap, ltb, leb, ◌==◌, Bool-cases,
  true, ◌&&◌, List, drop, Option, none, some,
}
use remote_avapps.Wire.{byte_at}
use remote_avapps.Sim.Units.{
  AuAsm, Processed, scan_start, find_start, au_feed, after_feed, process_from,
}

-- A start code of three or four bytes at an index.
abbrev pub StartCode : List ℕ → ℕ → ℕ → Type 0
StartCode buf i l =
    ((l ≡ 3) × (byte_at buf i ≡ 0) × (byte_at buf (i + 1) ≡ 0) × (byte_at buf (i + 2) ≡ 1))
    ⊎ ((l ≡ 4)
        × (byte_at buf i ≡ 0)
        × (byte_at buf (i + 1) ≡ 0)
        × (byte_at buf (i + 2) ≡ 0)
        × (byte_at buf (i + 3) ≡ 1))

abbrev pub Found : List ℕ → ℕ → ℕ → Option (ℕ × ℕ) → Type 0
Found buf len from none = Unit {0}
Found buf len from (some (i, l)) = (from ≤ i) × (i + l ≤ len) × (3 ≤ l) × StartCode buf i l

Found-earlier :
    (buf : List ℕ) (len i : ℕ) (r : Option (ℕ × ℕ)) → Found buf len (i + 1) r → Found buf len i r
Found-earlier buf len i none p = tt
Found-earlier buf len i (some (j, l)) (a, b, c, d) = (omega (arith, a), b, c, d)

scan_start-Found :
    (left : ℕ) (buf : List ℕ) (len i : ℕ) → Found buf len i (scan_start left buf len i)
unfolding scan_start
scan_start-Found zero buf len i = tt
scan_start-Found (suc left) buf len i = elim (Bool-cases (ltb len (i + 3))) [
  | inl past ↦ rw past tt
  | inr h ↦
      elim (Bool-cases
        (byte_at buf i == 0 && byte_at buf (i + 1) == 0 && byte_at buf (i + 2) == 1)) [
          | inl g ↦
              rw (h, g)
                (
                  omega arith,
                  ground arith,
                  omega arith,
                  inl (refl, ground arith, ground arith, ground arith),
                )
          | inr g ↦
              elim (Bool-cases (
                leb (i + 4) len
                && byte_at buf i == 0
                && byte_at buf (i + 1) == 0
                && byte_at buf (i + 2) == 0
                && byte_at buf (i + 3) == 1)) [
                  | inl f ↦
                      rw (h, g, f)
                        (
                          omega arith,
                          ground arith,
                          omega arith,
                          inr (refl, ground arith, ground arith, ground arith, ground arith),
                        )
                  | inr f ↦
                      rw (h, g, f)
                        (Found-earlier buf len i (scan_start left buf len (i + 1))
                          (scan_start-Found left buf len (i + 1)))
                ]
        ]
]

-- A start code that is found lies within the buffer, at or behind the index searched from.
pub find_start-Found : (buf : List ℕ) (len from : ℕ) → Found buf len from (find_start buf len from)
unfolding find_start
find_start-Found buf len from = scan_start-Found (len - from) buf len from

-- The turn for a NAL unit, if one is found, with the rest of the loop as a function.
abbrev turn : (AuAsm → ℕ → Processed) → AuAsm → List ℕ → ℕ → ℕ → Option (ℕ × ℕ) → Processed
turn go st buf len pos found = elim found [
  | none ↦ (pos, st, none)
  | some (sc, slen) ↦ elim (find_start buf len (sc + slen)) [
    | none ↦ (pos, st, none)
    | some (nxt, slen2) ↦
        let fed = au_feed st slen (drop (sc + slen) buf) (nxt - (sc + slen)) in
        after_feed sc fed (go fed.0 nxt)
  ]
]

-- The rest of the loop starts behind the index searched from.
turn_ext :
    (go go' : AuAsm → ℕ → Processed) (st : AuAsm) (buf : List ℕ) (len pos : ℕ)
    (found : Option (ℕ × ℕ))
    → Found buf len pos found
    → ((st' : AuAsm) (nxt : ℕ) → pos < nxt → go st' nxt ≡ go' st' nxt)
    → turn go st buf len pos found ≡ turn go' st buf len pos found
turn_ext go go' st buf len pos none f same = refl
turn_ext go go' st buf len pos (some (sc, slen)) (a, b, c, d) same =
    next (find_start buf len (sc + slen)) (find_start-Found buf len (sc + slen))
  where
    next :
        (o : Option (ℕ × ℕ))
        → Found buf len (sc + slen) o
        → ◌≡◌ {A = Processed}
            (elim o [
              | none ↦ (pos, st, none)
              | some (nxt, slen2) ↦
                  let fed = au_feed st slen (drop (sc + slen) buf) (nxt - (sc + slen)) in
                  after_feed sc fed (go fed.0 nxt)
            ])
            (elim o [
              | none ↦ (pos, st, none)
              | some (nxt, slen2) ↦
                  let fed = au_feed st slen (drop (sc + slen) buf) (nxt - (sc + slen)) in
                  after_feed sc fed (go' fed.0 nxt)
            ])
    next none g = refl
    next (some (nxt, slen2)) (g, g1, g2, g3) =
        let fed = au_feed st slen (drop (sc + slen) buf) (nxt - (sc + slen)) in
        ap (after_feed sc fed) (same fed.0 nxt (omega (arith, a, c, g)))

-- Whatever the state and the bytes, the loop over the NAL units ends within as many turns as bytes
-- are left: with more fuel it does the same.
pub process_from-enough :
    (fuel more : ℕ) (st : AuAsm) (buf : List ℕ) (len pos : ℕ)
    → len ≤ pos + fuel
    → len ≤ pos + more
    → process_from fuel st buf len pos ≡ process_from more st buf len pos
unfolding process_from
process_from-enough zero zero st buf len pos h k = refl
process_from-enough zero (suc more) st buf len pos h k =
    let past : ltb len (pos + 4) ≡ true = ground arith in rw past refl
process_from-enough (suc fuel) zero st buf len pos h k =
    let past : ltb len (pos + 4) ≡ true = ground arith in rw past refl
process_from-enough (suc fuel) (suc more) st buf len pos h k =
    elim (Bool-cases (ltb len (pos + 4))) [
      | inl past ↦ rw past refl
      | inr room ↦ rw room (
          turn_ext (λ st' nxt. process_from fuel st' buf len nxt)
            (λ st' nxt. process_from more st' buf len nxt) st buf len pos (find_start buf len pos)
            (find_start-Found buf len pos)
            (λ st' nxt p.
              process_from-enough fuel more st' buf len nxt (omega (arith, p, h))
                (omega (arith, p, k))))
    ]
