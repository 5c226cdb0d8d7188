-- ===== src/Base/Blocks.antt =====
-- `memcpy` into an array: the bytes of a list, stored from an offset on.
use remote_avapps.Base.Lists.{
  length, get_or, set, take, drop, length-set, get_or-set_self, get_or-set_ne, length-take,
  take-append, drop-append, take-append-drop, drop-drop, get_or-take, get_or-drop, get_or_ext,
  length-drop, length-append,
}
use remote_avapps.Base.Tests.{ltb, leb, if◌then◌else◌, Bool-cases}
use mathlib.Core.Bool.{◌&&◌}
use Prim.Native.Nat.{ℕ, zero, suc, ◌+◌, ◌-◌, ◌≤◌, ◌<◌}
use mathlib.Core.Path.{◌≡◌, refl, sym, ◌∙◌, ap, ap₂}
use mathlib.Core.Logic.{◌⊎◌, inl, inr}
use mathlib.Core.List.{List, [], ◌∷◌, ◌++◌, append_assoc}
use native.Mathlib.Omega.{arith}

module _ {ℓ} {A : Type ℓ} where
  -- What would land outside the array is dropped; callers are shown to stay inside.
  unfoldable pub store : List A → ℕ → List A → List A
  store buf off [] = buf
  store buf off (x ∷ xs) = store (set buf off x) (off + 1) xs

  pub length-store : (buf : List A) (off : ℕ) (xs : List A) → length (store buf off xs) ≡ length buf
  unfolding store
  length-store buf off [] = refl
  length-store buf off (x ∷ xs) = length-store (set buf off x) (off + 1) xs ∙ length-set buf off x

  pub get_or-store_outside :
      (buf : List A) (off : ℕ) (xs : List A) (j : ℕ) (d : A)
      → (j < off) ⊎ (off + length xs ≤ j)
      → get_or (store buf off xs) j d ≡ get_or buf j d
  unfolding store
  get_or-store_outside buf off [] j d h = refl
  get_or-store_outside buf off (x ∷ xs) j d h =
      get_or-store_outside (set buf off x) (off + 1) xs j d (later h)
      ∙ get_or-set_ne buf off j x d (λ e. differs h e)
    where
      later : (j < off) ⊎ (off + suc (length xs) ≤ j) → (j < off + 1) ⊎ (off + 1 + length xs ≤ j)
      later (inl p) = inl (omega arith)
      later (inr p) = inr (omega arith)

      differs : (j < off) ⊎ (off + suc (length xs) ≤ j) → off ≡ j → ⊥
      differs (inl p) e = omega arith
      differs (inr p) e = omega arith

  pub get_or-store_inside :
      (buf : List A) (off : ℕ) (xs : List A) (i : ℕ) (d : A)
      → i < length xs
      → off + length xs ≤ length buf
      → get_or (store buf off xs) (off + i) d ≡ get_or xs i d
  unfolding store
  get_or-store_inside buf off [] i d h fits = absurd (omega arith)
  get_or-store_inside buf off (x ∷ xs) zero d h fits =
      let e : off + 0 ≡ off = omega arith in
      ap (λ k. get_or (store (set buf off x) (off + 1) xs) k d) e
      ∙ get_or-store_outside (set buf off x) (off + 1) xs off d (inl (omega arith))
      ∙ get_or-set_self buf off x d (omega arith)
  get_or-store_inside buf off (x ∷ xs) (suc i) d h fits =
      let e : off + suc i ≡ off + 1 + i = omega arith in
      ap (λ k. get_or (store (set buf off x) (off + 1) xs) k d) e
      ∙ get_or-store_inside (set buf off x) (off + 1) xs i d (omega arith)
          (omega (arith, length-set buf off x))

  -- The stored block reads back.
  pub take-drop-store :
      (d : A) (buf : List A) (off : ℕ) (xs : List A)
      → off + length xs ≤ length buf
      → take (length xs) (drop off (store buf off xs)) ≡ xs
  take-drop-store d buf off xs fits = get_or_ext d _ xs same pointwise
    where
      same : length (take (length xs) (drop off (store buf off xs))) ≡ length xs
      same = omega (
        arith,
        length-take (length xs) (drop off (store buf off xs)),
        length-drop off (store buf off xs),
        length-store buf off xs,
      )

      pointwise :
          (i : ℕ)
          → i < length (take (length xs) (drop off (store buf off xs)))
          → get_or (take (length xs) (drop off (store buf off xs))) i d ≡ get_or xs i d
      pointwise i p =
          let q : i < length xs = omega (arith, same) in
          get_or-take (length xs) i _ d q
          ∙ get_or-drop off i (store buf off xs) d
          ∙ get_or-store_inside buf off xs i d q fits

  set-append :
      (pre : List A) (y : A) (ys : List A) (v : A)
      → set (pre ++ (y ∷ ys)) (length pre) v ≡ pre ++ (v ∷ ys)
  set-append [] y ys v = refl
  set-append (x ∷ pre) y ys v = ap (λ l. x ∷ l) (set-append pre y ys v)

  -- A block that is stored behind a prefix replaces as many elements there.
  pub store-append :
      (pre ys xs : List A)
      → length xs ≤ length ys
      → store (pre ++ ys) (length pre) xs ≡ pre ++ (xs ++ drop (length xs) ys)
  unfolding store
  store-append pre ys [] h = refl
  store-append pre [] (x ∷ xs) h = absurd (omega arith)
  store-append pre (y ∷ ys) (x ∷ xs) h =
      let e : length pre + 1 ≡ length (pre ++ (x ∷ [])) =
        omega (arith, length-append pre (x ∷ [])) in
      rw (set-append pre y ys x, e, ← append_assoc pre (x ∷ []) ys)
        (store-append (pre ++ (x ∷ [])) ys xs (omega arith)
          ∙ append_assoc pre (x ∷ []) (xs ++ drop (length xs) ys))

  -- Storing a block that fits: what stands before it, the block, and what stands behind it.
  pub store_split :
      (buf : List A) (off : ℕ) (xs : List A)
      → off + length xs ≤ length buf
      → store buf off xs ≡ take off buf ++ (xs ++ drop (off + length xs) buf)
  store_split buf off xs fits =
      let len : length (take off buf) ≡ off = omega (arith, length-take off buf) in
      let rest : drop (length xs) (drop off buf) ≡ drop (off + length xs) buf =
        drop-drop off (length xs) buf in
      ap₂ (λ b k. store b k xs) (sym (take-append-drop off buf)) (sym len)
      ∙ store-append (take off buf) (drop off buf) xs (omega (arith, length-drop off buf))
      ∙ ap (λ r. take off buf ++ (xs ++ r)) rest

  pub take-store :
      (buf : List A) (off : ℕ) (xs : List A)
      → off + length xs ≤ length buf
      → take (off + length xs) (store buf off xs) ≡ take off buf ++ xs
  take-store buf off xs fits =
      let len : length (take off buf ++ xs) ≡ off + length xs =
        omega (arith, length-append (take off buf) xs, length-take off buf) in
      ap₂ take (sym len) (
        store_split buf off xs fits
        ∙ sym (append_assoc (take off buf) xs (drop (off + length xs) buf)))
      ∙ take-append (take off buf ++ xs) (drop (off + length xs) buf)

  -- A block stored right behind another one.
  pub store-store :
      (buf : List A) (off : ℕ) (xs ys : List A)
      → store (store buf off xs) (off + length xs) ys ≡ store buf off (xs ++ ys)
  unfolding store
  store-store buf off [] ys = let e : off + 0 ≡ off = omega arith in ap (λ k. store buf k ys) e
  store-store buf off (x ∷ xs) ys =
      let e : off + suc (length xs) ≡ off + 1 + length xs = omega arith in
      ap (λ k. store (store (set buf off x) (off + 1) xs) k ys) e
      ∙ store-store (set buf off x) (off + 1) xs ys

  pub drop-store :
      (buf : List A) (off : ℕ) (xs : List A)
      → off + length xs ≤ length buf
      → drop off (store buf off xs) ≡ xs ++ drop (off + length xs) buf
  drop-store buf off xs fits =
      let len : off ≡ length (take off buf) = omega (arith, length-take off buf) in
      ap₂ drop len (store_split buf off xs fits)
      ∙ drop-append (take off buf) (xs ++ drop (off + length xs) buf)

  -- What a stored block leaves at an index, in one equation.
  pub get_or-store :
      (buf : List A) (off : ℕ) (xs : List A) (j : ℕ) (d : A)
      → off + length xs ≤ length buf
      → get_or (store buf off xs) j d
        ≡ (if leb off j && ltb j (off + length xs) then get_or xs (j - off) d else get_or buf j d)
  get_or-store buf off xs j d fits = elim (Bool-cases (leb off j && ltb j (off + length xs))) [
    | inl is_in ↦
        let low : off ≤ j = ground arith in
        let high : j < off + length xs = ground arith in
        let e : j ≡ off + (j - off) = omega arith in
        rw is_in (
          ap (λ k. get_or (store buf off xs) k d) e
          ∙ get_or-store_inside buf off xs (j - off) d (omega arith) fits)
    | inr is_out ↦
        let away : (j < off) ⊎ (off + length xs ≤ j) = ground arith in
        rw is_out (get_or-store_outside buf off xs j d away)
  ]

  -- The same for the first `n` elements of a source.
  pub get_or-store-take :
      (buf : List A) (off n : ℕ) (xs : List A) (j : ℕ) (d : A)
      → n ≤ length xs
      → off + n ≤ length buf
      → get_or (store buf off (take n xs)) j d
        ≡ (if leb off j && ltb j (off + n) then get_or xs (j - off) d else get_or buf j d)
  get_or-store-take buf off n xs j d enough fits =
      let len : length (take n xs) ≡ n = omega (arith, length-take n xs) in
      let stored = get_or-store buf off (take n xs) j d (omega (arith, len)) in
      elim (Bool-cases (leb off j && ltb j (off + n))) [
        | inl is_in ↦
            rw is_in ((rw (len, is_in) at stored) ∙ get_or-take n (j - off) xs d (ground arith))
        | inr is_out ↦ rw is_out (rw (len, is_out) at stored)
      ]

-- The values of a function at the first `n` numbers.
abbrev pub tabulate {ℓ} : {A : Type ℓ} → ℕ → (ℕ → A) → List A
tabulate zero f = []
tabulate (suc n) f = f 0 ∷ tabulate n (λ i. f (suc i))

pub length-tabulate {ℓ} : {A : Type ℓ} (n : ℕ) (f : ℕ → A) → length (tabulate n f) ≡ n
length-tabulate zero f = refl
length-tabulate (suc n) f = ap suc (length-tabulate n (λ i. f (suc i)))

pub get_or-tabulate {ℓ} :
    {A : Type ℓ} (n : ℕ) (f : ℕ → A) (i : ℕ) (d : A) → i < n → get_or (tabulate n f) i d ≡ f i
get_or-tabulate zero f i d h = absurd (omega arith)
get_or-tabulate (suc n) f zero d h = refl
get_or-tabulate (suc n) f (suc i) d h = get_or-tabulate n (λ k. f (suc k)) i d (omega arith)

pub tabulate_ext {ℓ} :
    {A : Type ℓ} (n : ℕ) (f g : ℕ → A) → ((i : ℕ) → i < n → f i ≡ g i) → tabulate n f ≡ tabulate n g
tabulate_ext zero f g h = refl
tabulate_ext (suc n) f g h =
    ap₂ ◌∷◌ (h 0 (omega arith))
      (tabulate_ext n (λ i. f (suc i)) (λ i. g (suc i)) (λ i p. h (suc i) (omega arith)))

pub tabulate-suc {ℓ} :
    {A : Type ℓ} (n : ℕ) (f : ℕ → A) → tabulate (n + 1) f ≡ tabulate n f ++ (f n ∷ [])
tabulate-suc zero f = refl
tabulate-suc (suc n) f =
    let e : suc n + 1 ≡ suc (n + 1) = omega arith in
    ap (λ k. tabulate k f) e ∙ ap (λ l. f 0 ∷ l) (tabulate-suc n (λ i. f (suc i)))

pub take-tabulate {ℓ} :
    {A : Type ℓ} (n m : ℕ) (f : ℕ → A) → n ≤ m → take n (tabulate m f) ≡ tabulate n f
take-tabulate zero m f h = refl
take-tabulate (suc n) zero f h = absurd (omega arith)
take-tabulate (suc n) (suc m) f h =
    ap (λ l. f 0 ∷ l) (take-tabulate n m (λ i. f (suc i)) (omega arith))

pub drop-tabulate {ℓ} :
    {A : Type ℓ} (n m : ℕ) (f : ℕ → A)
    → n ≤ m
    → drop n (tabulate m f) ≡ tabulate (m - n) (λ i. f (n + i))
drop-tabulate zero m f h =
    let e : m ≡ m - 0 = omega arith in
    ap (λ k. tabulate k f) e ∙ tabulate_ext (m - 0) f (λ i. f (0 + i)) (λ i p. start i)
  where
    start : (i : ℕ) → f i ≡ f (0 + i)
    start i = let e : i ≡ 0 + i = omega arith in ap f e
drop-tabulate (suc n) zero f h = absurd (omega arith)
drop-tabulate (suc n) (suc m) f h =
    let e : m - n ≡ suc m - suc n = omega arith in
    drop-tabulate n m (λ i. f (suc i)) (omega arith)
    ∙ ap (λ k. tabulate k (λ i. f (suc (n + i)))) e
    ∙ tabulate_ext (suc m - suc n) (λ i. f (suc (n + i))) (λ i. f (suc n + i)) (λ i p. shift i)
  where
    shift : (i : ℕ) → f (suc (n + i)) ≡ f (suc n + i)
    shift i = let e : suc (n + i) ≡ suc n + i = omega arith in ap f e
