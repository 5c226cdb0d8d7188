-- ===== src/Jitter/Peek.antt =====
-- src/transport/jitter_buffer.c: what `vmc_jb_peek` returns and what it leaves alone.
use remote_avapps.Base.{
  ℕ, ◌<◌, ◌≡◌, refl, sym, arith, if◌then◌else◌, Bool, true, false, List, [], ◌∷◌, Option, none,
  some, inl, inr, Bool-cases,
}
use remote_avapps.Base.Int.{pos, ltb_ℤ}
use remote_avapps.Jitter.{
  Slot, Buffer, seq_cmp, better, earlier, arrived_later, scan, old_enough, offer,
}

-- A property of the slot found, if one was found.
abbrev pub Holds : (Slot → Type 0) → Option Slot → Type 0
Holds P none = Unit {0}
Holds P (some s) = P s

abbrev pub AllInUse : (Slot → Type 0) → List Slot → Type 0
AllInUse P [] = Unit {0}
AllInUse P (s ∷ ss) = (s.valid ≡ true → P s) × AllInUse P ss

Holds-better :
    (P : Slot → Type 0) (beats : Slot → Slot → Bool) (m : Option Slot) (s : Slot)
    → P s
    → Holds P m
    → Holds P (better beats m s)
Holds-better P beats none s ps pm = ps
Holds-better P beats (some m) s ps pm = elim (Bool-cases (beats s m)) [
  | inl h ↦ rw h ps
  | inr h ↦ rw h pm
]

-- The scan finds slots in use only.
pub Holds-scan :
    (P : Slot → Type 0) (ss : List Slot) (m newest : Option Slot)
    → AllInUse P ss
    → Holds P m
    → Holds P newest
    → Holds P (scan ss m newest).0
unfolding scan
Holds-scan P [] m newest all pm pn = pm
Holds-scan P (s ∷ ss) m newest all pm pn =
    step s.valid all.0 (λ m' newest' h h'. Holds-scan P ss m' newest' all.1 h h')
  where
    step :
        (b : Bool)
        → (b ≡ true → P s)
        → ((m' newest' : Option Slot)
            → Holds P m'
            → Holds P newest'
            → Holds P (scan ss m' newest').0)
        → Holds P
            (scan ss
              (if b then better earlier m s else m)
              (if b then better arrived_later newest s else newest)).0
    step true ps rest =
        rest (better earlier m s) (better arrived_later newest s)
          (Holds-better P earlier m s (ps refl) pm)
          (Holds-better P arrived_later newest s (ps refl) pn)
    step false ps rest = rest m newest pm pn

-- Two sequence numbers that compare neither way are one.
pub seq_cmp_same :
    (a b : ℕ)
    → a < 4294967296
    → b < 4294967296
    → ltb_ℤ (seq_cmp a b) (pos 0) ≡ false
    → ltb_ℤ (pos 0) (seq_cmp a b) ≡ false
    → a ≡ b
seq_cmp_same a b ha hb h h' = ground arith

-- The slot returned is the least one, the play position becomes its number, and only the play
-- position and the count of gaps change.
abbrev pub Returned : Buffer → ℕ → Slot → Option Slot × Buffer → Type 0
Returned jb now_us m (none, jb') = (jb'.slots ≡ jb.slots) × (jb'.stats_played ≡ jb.stats_played)
Returned jb now_us m (some s, jb') =
    (jb'.slots ≡ jb.slots)
    × (jb'.stats_played ≡ jb.stats_played)
    × (s ≡ m)
    × (jb'.next_seq ≡ m.seq)
    × (old_enough jb now_us m ≡ true)

pub offer-Returned :
    (jb : Buffer) (now_us : ℕ) (m newest : Slot)
    → m.seq < 4294967296
    → jb.next_seq < 4294967296
    → Returned jb now_us m (offer jb now_us m newest)
unfolding offer
offer-Returned jb now_us m newest hm hn =
    elim (Bool-cases (ltb_ℤ (seq_cmp m.seq jb.next_seq) (pos 0))) [
      | inl late ↦ rw late (elim (Bool-cases (old_enough jb now_us m)) [
        | inl old ↦ rw old (refl, refl, refl, refl, old)
        | inr new ↦ rw new (refl, refl)
      ])
      | inr not_late ↦ rw not_late (elim (Bool-cases (ltb_ℤ (pos 0) (seq_cmp m.seq jb.next_seq))) [
        | inl gap ↦ rw gap (elim (Bool-cases (old_enough jb now_us newest)) [
          | inl old ↦ rw old (elim (Bool-cases (old_enough jb now_us m)) [
            | inl old_m ↦ rw old_m (refl, refl, refl, refl, old_m)
            | inr new_m ↦ rw new_m (refl, refl)
          ])
          | inr new ↦ rw new (refl, refl)
        ])
        | inr next ↦ rw next (elim (Bool-cases (old_enough jb now_us m)) [
          | inl old ↦
              rw old
                (refl, refl, refl, sym (seq_cmp_same m.seq jb.next_seq hm hn not_late next), old)
          | inr new ↦ rw new (refl, refl)
        ])
      ])
    ]
