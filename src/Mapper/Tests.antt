-- ===== src/Mapper/Tests.antt =====
-- Runs of the mapper client, and its theorems at concrete inputs. Here an answer is the port itself.
use remote_avapps.Base.{
  ℕ, zero, suc, ◌+◌, ◌<◌, ◌≡◌, refl, arith, true, List, [], ◌∷◌, Option, none, some,
}
use remote_avapps.Status.{ok}
use remote_avapps.Mapper.{MapperCfg, Attempt, no_answer, answer, Route, parse, resolve}
use remote_avapps.Mapper.Attempts.{Misses, resolve-retries}

abbrev scan : List ℕ → Option (List ℕ × ℕ)
scan [] = none
scan (port ∷ bytes) = some (bytes, port)

-- No answer, then a port that is out of range, then a route.
abbrev world : ℕ → Attempt
world zero = no_answer
world (suc zero) = answer (70000 ∷ [])
world (suc (suc n)) = answer (5000 ∷ 49 ∷ [])

abbrev cfg : MapperCfg
cfg = record { port = 4000; timeout_ms = 1000; max_retries = 3 }

abbrev route : Route
route = record { host = 49 ∷ []; port = 5000 }

first_two : (j : ℕ) → j < 2 → Misses scan (world j)
unfolding parse
first_two zero h = tt
first_two (suc zero) h = refl
first_two (suc (suc j)) h = absurd (omega arith)

third : parse scan (5000 ∷ 49 ∷ []) ≡ some route
unfolding parse
third = refl

resolve-retries_example : resolve scan cfg true true world ≡ (ok, some route, 2 + 1)
resolve-retries_example =
    resolve-retries scan cfg world 2 (5000 ∷ 49 ∷ []) route (omega arith) first_two refl third
