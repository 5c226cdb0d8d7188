-- ===== src/Mapper/Attempts.antt =====
-- src/session/mapper.c: the attempts to resolve the route.
use remote_avapps.Base.{
  ℕ, zero, suc, ◌+◌, ◌<◌, ◌≤◌, ◌≡◌, ◌⊎◌, refl, arith, sym, ap, ◌∙◌, true, false, Bool, false, Bool,
  List, Option, none, some,
}
use mathlib.Core.Path.{subst}
use remote_avapps.Status.{Status, ok, io, timeout, proto}
use remote_avapps.Mapper.{
  MapperCfg, Attempt, send_fails, no_answer, answer, Route, parse, one_more, after_answer,
  after_attempt, attempts, resolve,
}

module _ (scan : List ℕ → Option (List ℕ × ℕ)) where
  -- An attempt that the loop goes on after.
  abbrev pub Misses : Attempt → Type 0
  Misses send_fails = ⊥
  Misses no_answer = Unit {0}
  Misses (answer bytes) = parse scan bytes ≡ none

  -- Success comes with a route, and with success only.
  abbrev pub Agrees : Status × Option Route × ℕ → Type 0
  Agrees (st, some r, n) = st ≡ ok
  Agrees (st, none, n) = (st ≡ io) ⊎ (st ≡ timeout) ⊎ (st ≡ proto)

  -- At most `k` requests, and a result that agrees with the route.
  abbrev Fine : ℕ → Status × Option Route × ℕ → Type 0
  Fine k r = (r.2 ≤ k) × Agrees r

  -- A turn, by what becomes of its attempt.
  abbrev turn : (ℕ → Attempt) → ℕ → ℕ → Status → Attempt → Status × Option Route × ℕ
  turn world left i result a =
      after_attempt scan a (attempts scan world left (i + 1) result)
        (attempts scan world left (i + 1) proto)

  missed_step :
      (world : ℕ → Attempt) (left i : ℕ) (result : Status) (a : Attempt)
      → world i ≡ a
      → Misses a
      → (next : Status) × (attempts scan world (suc left) i result
          ≡ one_more (attempts scan world left (i + 1) next))
  unfolding attempts after_attempt after_answer
  missed_step world left i result send_fails e m = absurd m
  missed_step world left i result no_answer e m = (result, ap (turn world left i result) e)
  missed_step world left i result (answer bytes) e m = (
    proto,
    ap (turn world left i result) e
        ∙ ap (λ o. after_answer o (attempts scan world left (i + 1) proto)) m,
  )

  attempts-retries :
      (k left i : ℕ) (world : ℕ → Attempt) (result : Status) (bytes : List ℕ) (r : Route)
      → k < left
      → ((j : ℕ) → j < k → Misses (world (i + j)))
      → world (i + k) ≡ answer bytes
      → parse scan bytes ≡ some r
      → attempts scan world left i result ≡ (ok, some r, k + 1)
  unfolding attempts after_attempt after_answer
  attempts-retries k zero i world result bytes r h m e p = absurd (omega arith)
  attempts-retries zero (suc left) i world result bytes r h m e p =
      let here : i + 0 ≡ i = omega arith in
      let now : world i ≡ answer bytes = ap world (sym here) ∙ e in
      ap (turn world left i result) now
      ∙ ap (λ o. after_answer o (attempts scan world left (i + 1) proto)) p
  attempts-retries (suc k) (suc left) i world result bytes r h m e p =
      let here : i + 0 ≡ i = omega arith in
      let (next, step) =
        missed_step world left i result (world i) refl
          (subst (λ n. Misses (world n)) here (m 0 (omega arith))) in
      let later =
        attempts-retries k left (i + 1) world next bytes r (omega arith)
          (λ j q.
            let shift : i + suc j ≡ i + 1 + j = omega arith in
            subst (λ n. Misses (world n)) shift (m (suc j) (omega (arith, q))))
          (let shift : i + 1 + k ≡ i + suc k = omega arith in ap world shift ∙ e) p in
      let count : k + 1 + 1 ≡ suc k + 1 = omega arith in
      step ∙ ap one_more later ∙ ap (λ n. (ok, some r, n)) count

-- When the host resolves and a socket opens, the attempts before number `k` are not answered or get
-- a malformed answer, attempt `k` gets an answer that parses, and `k` is at most `max_retries`, then
-- the resolution succeeds with the route of that answer after `k + 1` requests.
pub resolve-retries :
    (scan : List ℕ → Option (List ℕ × ℕ)) (cfg : MapperCfg) (world : ℕ → Attempt) (k : ℕ)
    (bytes : List ℕ) (r : Route)
    → k ≤ cfg.max_retries
    → ((j : ℕ) → j < k → Misses scan (world j))
    → world k ≡ answer bytes
    → parse scan bytes ≡ some r
    → resolve scan cfg true true world ≡ (ok, some r, k + 1)
unfolding resolve
resolve-retries scan cfg world k bytes r h m e p =
    attempts-retries scan k (cfg.max_retries + 1) 0 world timeout bytes r (omega arith)
      (λ j q. let same : j ≡ 0 + j = omega arith in subst (λ n. Misses scan (world n)) same (m j q))
      (let same : 0 + k ≡ k = omega arith in ap world same ∙ e) p
