-- ===== src/Jitter/Push.antt =====
-- src/transport/jitter_buffer.c: `vmc_jb_push` on every branch.
use remote_avapps.Base.{
  ℕ, ◌+◌, ◌<◌, ◌≡◌, ◌≢◌, ◌==◌, refl, sym, arith, ltb, true, false, ◌&&◌, List, length, Option, none,
  some, ◌∙◌, inl, inr, Option-cases, Bool-cases, u64,
}
use remote_avapps.Status.{Status, ok, invalid_arg, again, overrun, out_of_sync}
use remote_avapps.Jitter.{
  Slot, Buffer, Packet, max_slots, find_slot, free_slot, fill, outside_window, rebase, stored,
  admit, push, is_null,
}
use remote_avapps.Jitter.Slots.{
  Fresh, Distinct, used, length-modify, find_slot-none, Distinct-fill, Fresh-fill, free_slot-none,
}

-- The array has its size, and no two slots in use have one sequence number.
pub record IsValid (jb : Buffer) : Type 0 where
  pub size : length jb.slots ≡ max_slots
  pub distinct : Distinct jb.slots

-- What a push does, by its status: the slots, the start of the window and the count of accepted
-- packets before it, the packet, and the result.
abbrev pub Pushed : List Slot → ℕ → ℕ → Packet → Status × Buffer → Type 0
Pushed slots base pushed p (ok, jb') =
    Fresh p.seq slots
    × (outside_window p.seq base ≡ false)
    × (used jb'.slots ≡ used slots + 1)
    × (find_slot jb'.slots p.seq ≢ none)
    × (jb'.stats_pushed ≡ u64 (pushed + 1))
Pushed slots base pushed p (again, jb') = (find_slot slots p.seq ≢ none) × (jb'.slots ≡ slots)
Pushed slots base pushed p (out_of_sync, jb') =
    (outside_window p.seq base ≡ true) × (jb'.slots ≡ slots)
Pushed slots base pushed p (overrun, jb') = (used slots ≡ max_slots) × (jb'.slots ≡ slots)
Pushed slots base pushed p (invalid_arg, jb') =
    (0 < p.len) × (p.payload ≡ none) × (jb'.slots ≡ slots) × (jb'.stats_pushed ≡ pushed)
Pushed slots base pushed p (_, jb') = ⊥

fills : (p : Packet) (s : Slot) → ((fill p s).valid ≡ true) × ((fill p s).seq ≡ p.seq)
unfolding fill
fills p s = ground arith

rebase-slots :
    (jb : Buffer) (seq : ℕ)
    → ((rebase jb seq).slots ≡ jb.slots)
      × ((rebase jb seq).stats_pushed ≡ jb.stats_pushed)
      × ((rebase jb seq).stats_played ≡ jb.stats_played)
unfolding rebase
rebase-slots jb seq = ground arith

-- The last step, on a buffer that does not hold the number.
module _ (jb : Buffer) (p : Packet) (v : IsValid jb) (fr : Fresh p.seq jb.slots) where
  stored_full : free_slot jb.slots ≡ none → (stored jb p (free_slot jb.slots)).0 ≡ overrun
  stored_full e = rw e

  stored-some :
      (i : ℕ)
      → free_slot jb.slots ≡ some i
      → IsValid (stored jb p (some i)).1 × (used (stored jb p (some i)).1.slots ≡ used jb.slots + 1)
  stored-some i e =
      let (d, more) = Distinct-fill (fill p) p.seq (fills p) jb.slots i e fr v.distinct in
      (record { size = length-modify jb.slots i (fill p) ∙ v.size; distinct = d }, more)

-- The search for a free slot, on a buffer that does not hold the number.
stored-outcome :
    (jb : Buffer) (p : Packet) (o : Option ℕ)
    → free_slot jb.slots ≡ o
    → IsValid jb
    → Fresh p.seq jb.slots
    → outside_window p.seq jb.next_seq ≡ false
    → IsValid (stored jb p o).1 × Pushed jb.slots jb.next_seq jb.stats_pushed p (stored jb p o)
stored-outcome jb p none e v fr near =
    (record { size = v.size; distinct = v.distinct }, (free_slot-none jb.slots e ∙ v.size, refl))
stored-outcome jb p (some i) e v fr near =
    let (v', more) = stored-some jb p v fr i e in
    (
      v',
      (
        fr,
        near,
        more,
        (λ h. Fresh-fill (fill p) p.seq (fills p) jb.slots i e (find_slot-none _ p.seq h)),
        refl,
      ),
    )

-- The search for the number, then the test of the window.
admit-outcome :
    (jb : Buffer) (p : Packet)
    → IsValid jb
    → IsValid (admit jb p).1 × Pushed jb.slots jb.next_seq jb.stats_pushed p (admit jb p)
unfolding admit
admit-outcome jb p v = elim (Option-cases (find_slot jb.slots p.seq)) [
  | inr (i, h) ↦
      rw h (record { size = v.size; distinct = v.distinct }, (λ e. clash i (sym h ∙ e), refl))
  | inl h ↦ elim (Bool-cases (outside_window p.seq jb.next_seq)) [
    | inl far ↦ rw h (rw far (record { size = v.size; distinct = v.distinct }, (far, refl)))
    | inr near ↦ rw h (
        rw near
          (stored-outcome jb p (free_slot jb.slots) refl v (find_slot-none jb.slots p.seq h) near))
  ]
]
  where
    clash : (i : ℕ) → ◌≡◌ {A = Option ℕ} (some i) none → ⊥
    clash i e = cc

-- Every push keeps the invariant, and does what its status says: on success the number of the packet
-- was not in use and lay in the window, one more slot is in use, the number is in use, and the count
-- of accepted packets goes up modulo 2 ^ 64; a duplicate, a packet outside the window, and one for
-- which all 256 slots are in use leave the slots alone; a missing payload leaves the slots and that
-- count alone; there is no other status.
pub push_outcome :
    (jb : Buffer) (p : Packet)
    → IsValid jb
    → IsValid (push jb p).1
      × Pushed jb.slots (rebase jb p.seq).next_seq jb.stats_pushed p (push jb p)
unfolding push rebase
push_outcome jb p v = elim (Bool-cases (ltb 0 p.len && is_null p.payload)) [
  | inl h ↦ rw h (v, (ground (arith, h), missing p.payload (ground (arith, h)), refl, refl))
  | inr h ↦ rw h (elim (Bool-cases (jb.stats_pushed == 0)) [
    | inl first ↦ rw first (
        admit-outcome (record jb { next_seq = p.seq }) p
          (record { size = v.size; distinct = v.distinct }))
    | inr later ↦ rw later (admit-outcome jb p v)
  ])
]
  where
    missing : (o : Option (List ℕ)) → is_null o ≡ true → o ≡ none
    missing none e = refl
    missing (some b) e = cc
