-- ===== src/Jitter/Play.antt =====
-- src/transport/jitter_buffer.c: the playout, a `vmc_jb_peek` that returns a slot and the
-- `vmc_jb_consume` that follows it.
use remote_avapps.Base.{
  ℕ, ◌+◌, ◌<◌, ◌≡◌, ◌≢◌, refl, sym, arith, true, List, [], ◌∷◌, length, Option, none, some, ap, ◌∙◌,
  inl, inr, Option-cases, u32, u64,
}
use remote_avapps.Jitter.{
  Slot, Buffer, scan, old_enough, offer, offer_found, peek, find_slot, release, consume,
}
use remote_avapps.Jitter.Slots.{Fresh, used, length-modify, find_slot-none, Distinct-release}
use remote_avapps.Jitter.Push.{IsValid}
use remote_avapps.Jitter.Peek.{Holds, AllInUse, Holds-scan, Returned, offer-Returned}

-- Each slot in use holds a 32-bit number, and so does the play position.
pub record Fits (jb : Buffer) : Type 0 where
  pub seqs : AllInUse (λ s. s.seq < 4294967296) jb.slots
  pub base : jb.next_seq < 4294967296

-- A slot in use of an array, with a number that fits.
abbrev InArray : List Slot → Slot → Type 0
InArray all s = (s.seq < 4294967296) × (Fresh s.seq all → ⊥)

not-Fresh : (s : Slot) (ss : List Slot) → s.valid ≡ true → ¬ Fresh s.seq (s ∷ ss)
not-Fresh s ss h fr = elim (fr.0) [ inl idle ↦ ground (arith, h, idle) | inr other ↦ other refl ]

AllInUse-map :
    (P Q : Slot → Type 0) (ss : List Slot)
    → ((s : Slot) → P s → Q s)
    → AllInUse P ss
    → AllInUse Q ss
AllInUse-map P Q [] f all = tt
AllInUse-map P Q (s ∷ ss) f all = ((λ h. f s (all.0 h)), AllInUse-map P Q ss f all.1)

in_array : (ss : List Slot) → AllInUse (λ s. s.seq < 4294967296) ss → AllInUse (InArray ss) ss
in_array [] all = tt
in_array (s ∷ ss) all = (
  (λ h. (all.0 h, not-Fresh s ss h)),
  AllInUse-map (InArray ss) (InArray (s ∷ ss)) ss (λ t p. (p.0, λ fr. p.1 fr.1))
      (in_array ss all.1),
)

-- What a peek does, with the slot it returns in the array.
abbrev Shown : Buffer → ℕ → Option Slot × Buffer → Type 0
Shown jb now_us (none, jb') = (jb'.slots ≡ jb.slots) × (jb'.stats_played ≡ jb.stats_played)
Shown jb now_us (some s, jb') =
    (jb'.slots ≡ jb.slots)
    × (jb'.stats_played ≡ jb.stats_played)
    × (jb'.next_seq ≡ s.seq)
    × (old_enough jb now_us s ≡ true)
    × InArray jb.slots s

shown :
    (jb : Buffer) (now_us : ℕ) (m : Slot) (r : Option Slot × Buffer)
    → InArray jb.slots m
    → Returned jb now_us m r
    → Shown jb now_us r
shown jb now_us m (none, jb') i r = r
shown jb now_us m (some s, jb') i (a, b, e, n, o) =
    (a, b, n ∙ ap (λ t. t.seq) (sym e), ap (old_enough jb now_us) e ∙ o, rw e i)

peek-Shown : (jb : Buffer) (now_us : ℕ) → Fits jb → Shown jb now_us (peek jb now_us)
unfolding peek
peek-Shown jb now_us v =
    found (scan jb.slots none none).0 (scan jb.slots none none).1
      (Holds-scan (InArray jb.slots) jb.slots none none (in_array jb.slots v.seqs) tt tt)
  where
    found :
        (m newest : Option Slot)
        → Holds (InArray jb.slots) m
        → Shown jb now_us (offer_found jb now_us m newest)
    found none newest h = (refl, refl)
    found (some m) none h = (refl, refl)
    found (some m) (some newest) h =
        shown jb now_us m (offer jb now_us m newest) h
          (offer-Returned jb now_us m newest h.0 v.base)

-- The slot at the play position is released.
consume-releases :
    (jb : Buffer)
    → IsValid jb
    → find_slot jb.slots jb.next_seq ≢ none
    → IsValid (consume jb)
      × (used (consume jb).slots + 1 ≡ used jb.slots)
      × Fresh jb.next_seq (consume jb).slots
      × ((consume jb).next_seq ≡ u32 (jb.next_seq + 1))
      × ((consume jb).stats_played ≡ u64 (jb.stats_played + 1))
unfolding consume
consume-releases jb v h = elim (Option-cases (find_slot jb.slots jb.next_seq)) [
  | inl e ↦ absurd (h e)
  | inr (i, e) ↦
      let (d, fewer, fresh) = Distinct-release jb.slots jb.next_seq i e v.distinct in
      rw e (
        record { size = length-modify jb.slots i release ∙ v.size; distinct = d },
        fewer,
        fresh,
        refl,
        refl,
      )
]

-- What the playout does to the buffer when a slot is returned.
abbrev pub Played : Buffer → ℕ → Option Slot × Buffer → Type 0
Played jb now_us (none, jb') = (jb'.slots ≡ jb.slots) × (jb'.stats_played ≡ jb.stats_played)
Played jb now_us (some s, jb') =
    (find_slot jb.slots s.seq ≢ none)
    × (old_enough jb now_us s ≡ true)
    × IsValid (consume jb')
    × (used (consume jb').slots + 1 ≡ used jb.slots)
    × Fresh s.seq (consume jb').slots
    × ((consume jb').next_seq ≡ u32 (s.seq + 1))
    × ((consume jb').stats_played ≡ u64 (jb.stats_played + 1))

-- On a valid buffer whose numbers are 32-bit: a peek that returns nothing leaves the slots and the
-- count of played packets alone; when it returns a slot, that slot's number was in use and the slot
-- has been held for the target delay, and the consume after it keeps the buffer valid, releases one
-- slot, after which the number is not in use, goes on to the next number, and counts one played
-- packet.
pub peek-consume :
    (jb : Buffer) (now_us : ℕ) → IsValid jb → Fits jb → Played jb now_us (peek jb now_us)
peek-consume jb now_us v f = played (peek jb now_us) (peek-Shown jb now_us f)
  where
    played : (r : Option Slot × Buffer) → Shown jb now_us r → Played jb now_us r
    played (none, jb') r = r
    played (some s, jb') (same, count, n, old, i) =
        let held : find_slot jb.slots s.seq ≢ none = λ e. i.1 (find_slot-none jb.slots s.seq e) in
        let v' : IsValid jb' = record {
          size = ap length same ∙ v.size;
          distinct = rw same v.distinct;
        } in
        let (kept, fewer, fresh, next, more) = consume-releases jb' v' (rw same (rw n held)) in
        (
          held,
          old,
          kept,
          fewer ∙ ap used same,
          rw (← n) fresh,
          next ∙ ap (λ k. u32 (k + 1)) n,
          more ∙ ap (λ k. u64 (k + 1)) count,
        )
