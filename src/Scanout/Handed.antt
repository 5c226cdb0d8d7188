-- ===== src/Scanout/Handed.antt =====
-- src/video/drm_scanout.c: which buffer is handed out.
use remote_avapps.Base.{
  ℕ, zero, suc, ◌+◌, ◌%◌, ◌<◌, ◌≤◌, ◌≡◌, ◌≢◌, refl, arith, sym, ap, ◌∙◌, Bool, true, false,
  Bool-cases, inl, inr, not, ◌&&◌, length, get_or, get_or-set_self, get_or-set_ne, Option, none,
  some,
}
use mathlib.Core.Path.{subst}
use native.Mathlib.Nat.{mod-lt}
use remote_avapps.Scanout.{
  Scanout, DrmBuffer, no_buffer, is_at, is_usable, find_usable, hold_found, next_idx, make_busy,
}

-- What a search over the next `left` buffers tells.
abbrev pub Tells : Scanout → ℕ → ℕ → Option ℕ → Type 0
Tells s left i none = (k : ℕ) → k < left → is_usable s ((s.next + (i + k)) % s.nbufs) ≡ false
Tells s left i (some j) =
    (is_usable s j ≡ true) × ((k : ℕ) × (k < left) × (j ≡ (s.next + (i + k)) % s.nbufs))

nothing_left : (s : Scanout) (i : ℕ) → Tells s zero i none
nothing_left s i k h = absurd (omega (arith, h))

shift_index : (i k : ℕ) → i + 1 + k ≡ i + suc k
shift_index i k = omega arith

all_unusable :
    (s : Scanout) (left i : ℕ)
    → is_usable s ((s.next + i) % s.nbufs) ≡ false
    → Tells s left (i + 1) none
    → Tells s (suc left) i none
all_unusable s left i e t zero h =
    let same : i + 0 ≡ i = omega arith in ap (λ k. is_usable s ((s.next + k) % s.nbufs)) same ∙ e
all_unusable s left i e t (suc k) h =
    ap (λ n. is_usable s ((s.next + n) % s.nbufs)) (sym (shift_index i k)) ∙ t k (omega (arith, h))

find_usable-Tells : (s : Scanout) (left i : ℕ) → Tells s left i (find_usable s left i)
unfolding find_usable
find_usable-Tells s zero i = nothing_left s i
find_usable-Tells s (suc left) i = elim (Bool-cases (is_usable s ((s.next + i) % s.nbufs))) [
  | inl e ↦
      let same : i ≡ i + 0 = omega arith in
      rw e (e, (0, omega arith, ap (λ k. (s.next + k) % s.nbufs) same))
  | inr e ↦ rw e (later (find_usable s left (i + 1)) e (find_usable-Tells s left (i + 1)))
]
  where
    later :
        (o : Option ℕ)
        → is_usable s ((s.next + i) % s.nbufs) ≡ false
        → Tells s left (i + 1) o
        → Tells s (suc left) i o
    later none e t = λ k h. all_unusable s left i e t k h
    later (some j) e (u, (k, h, q)) =
        (u, (suc k, omega (arith, h), q ∙ ap (λ n. (s.next + n) % s.nbufs) (shift_index i k)))

-- What is told of the result of `vmc_drm_scanout_next_idx`.
abbrev pub Handed : Scanout → Option (ℕ × Scanout) → Type 0
Handed s none = (k : ℕ) → k < s.nbufs → is_usable s ((s.next + k) % s.nbufs) ≡ false
Handed s (some (i, s')) =
    ((get_or s.bufs i no_buffer).busy ≡ false)
    × (is_at s.on_screen i ≡ false)
    × (is_at s.flip_pending i ≡ false)
    × ((get_or s'.bufs i no_buffer).busy ≡ true)
    × ((j : ℕ) → i ≢ j → get_or s'.bufs j no_buffer ≡ get_or s.bufs j no_buffer)
    × (s'.on_screen ≡ s.on_screen)
    × (s'.flip_pending ≡ s.flip_pending)

usable-parts :
    (s : Scanout) (i : ℕ)
    → is_usable s i ≡ true
    → ((get_or s.bufs i no_buffer).busy ≡ false)
      × (is_at s.on_screen i ≡ false)
      × (is_at s.flip_pending i ≡ false)
unfolding is_usable
usable-parts s i e =
    split (get_or s.bufs i no_buffer).busy (is_at s.on_screen i) (is_at s.flip_pending i) e
  where
    split :
        (a b c : Bool) → not a && not b && not c ≡ true → (a ≡ false) × (b ≡ false) × (c ≡ false)
    split a b c e = ground arith

hold_found-Handed :
    (s : Scanout) (o : Option ℕ)
    → 0 < s.nbufs
    → s.nbufs ≤ length s.bufs
    → Tells s s.nbufs 0 o
    → Handed s (hold_found s o)
unfolding hold_found
hold_found-Handed s none some_bufs room t = λ k h.
    let same : 0 + k ≡ k = omega arith in
    subst (λ n. is_usable s ((s.next + n) % s.nbufs) ≡ false) same (t k h)
hold_found-Handed s (some i) some_bufs room (u, (k, h, e)) =
    let (idle, hidden, settled) = usable-parts s i u in
    let inside : (s.next + (0 + k)) % s.nbufs < s.nbufs = mod-lt (s.next + (0 + k)) some_bufs in
    (
      idle,
      hidden,
      settled,
      ap (λ (b : DrmBuffer). b.busy)
          (get_or-set_self s.bufs i (make_busy (get_or s.bufs i no_buffer)) no_buffer
            (omega (arith, e, inside, room))),
      λ j d. get_or-set_ne s.bufs i j (make_busy (get_or s.bufs i no_buffer)) no_buffer d,
      refl,
      refl,
    )

-- When `vmc_drm_scanout_next_idx` hands out nothing, none of the buffers in its round is free. When
-- it hands out a buffer, that one was not busy, on the screen or pending; it is busy from then on,
-- the other buffers are as they were, and what is on the screen and pending is too. There is an
-- entry for each buffer.
pub next_idx-Handed : (s : Scanout) → 0 < s.nbufs → s.nbufs ≤ length s.bufs → Handed s (next_idx s)
unfolding next_idx
next_idx-Handed s some_bufs room =
    hold_found-Handed s (find_usable s s.nbufs 0) some_bufs room (find_usable-Tells s s.nbufs 0)
