-- ===== src/Mapper.antt =====
-- src/session/mapper.c: the client of the mapper, which asks for the route to the container. The
-- socket and `sscanf` are arguments: the answers to the attempts, and what is read of an answer.
pub mod Attempts
mod Tests
use remote_avapps.Base.{
  ℕ, zero, suc, ◌+◌, ◌==◌, ltb, leb, if◌then◌else◌, u16, Bool, true, false, ◌&&◌, List, [], ◌∷◌,
  take, Option, none, some,
}
use remote_avapps.Status.{Status, ok, timeout, io, proto}

-- The configuration, for a host that is not NULL.
pub record MapperCfg : Type 0 where
  pub port : ℕ
  pub timeout_ms : ℕ
  pub max_retries : ℕ

-- `vmc_mapper_create`
unfoldable pub create : MapperCfg → Option MapperCfg
create cfg =
    if cfg.port == 0
    then none
    else some (record {
      port = cfg.port;
      timeout_ms = if cfg.timeout_ms == 0 then 1000 else cfg.timeout_ms;
      max_retries = if cfg.max_retries == 0 then 3 else cfg.max_retries;
    })

-- What becomes of an attempt: the request is not sent, nothing is received, or the bytes received.
pub data Attempt : Type 0 where
  send_fails : Attempt
  no_answer : Attempt
  answer : List ℕ → Attempt

-- The host and the port of the route.
pub record Route : Type 0 where
  pub host : List ℕ
  pub port : ℕ

-- An answer is accepted when `scan` reads a host and a port from it, and the port is in range.
unfoldable pub parse : (List ℕ → Option (List ℕ × ℕ)) → List ℕ → Option Route
parse scan bytes = elim (scan bytes) [
  | none ↦ none
  | some (host, port) ↦
      if ltb 0 port && leb port 65535
      then some (record { host = take 127 host; port = u16 port })
      else none
]

-- One more request before the rest of the loop.
abbrev pub one_more : Status × Option Route × ℕ → Status × Option Route × ℕ
one_more (st, route, n) = (st, route, n + 1)

-- After an answer: it is the route, or it is malformed and `rest` goes on.
unfoldable pub after_answer : Option Route → Status × Option Route × ℕ → Status × Option Route × ℕ
after_answer none rest = one_more rest
after_answer (some route) rest = (ok, some route, 1)

-- One turn of the loop of `vmc_mapper_resolve`; `missed` and `malformed` are the rest of the loop
-- after no answer and after a malformed one.
unfoldable pub after_attempt :
    (List ℕ → Option (List ℕ × ℕ))
    → Attempt
    → Status × Option Route × ℕ
    → Status × Option Route × ℕ
    → Status × Option Route × ℕ
unfolding parse after_answer
after_attempt scan send_fails missed malformed = (io, none, 1)
after_attempt scan no_answer missed malformed = one_more missed
after_attempt scan (answer bytes) missed malformed = after_answer (parse scan bytes) malformed

-- The loop of `vmc_mapper_resolve` from attempt `i` on, with `left` turns allowed and the result so
-- far: the result, the route, and the number of requests. `max_retries` is below 2 ^ 32 - 1, so its
-- counter does not wrap.
unfoldable pub attempts :
    (List ℕ → Option (List ℕ × ℕ)) → (ℕ → Attempt) → ℕ → ℕ → Status → Status × Option Route × ℕ
unfolding after_attempt
attempts scan world zero i result = (result, none, 0)
attempts scan world (suc left) i result =
    after_attempt scan (world i) (attempts scan world left (i + 1) result)
      (attempts scan world left (i + 1) proto)

-- `vmc_mapper_resolve`, with the answers of `getaddrinfo` and `socket`.
unfoldable pub resolve :
    (List ℕ → Option (List ℕ × ℕ))
    → MapperCfg
    → Bool
    → Bool
    → (ℕ → Attempt)
    → Status × Option Route × ℕ
unfolding attempts
resolve scan cfg resolves socket world =
    if resolves && socket
    then attempts scan world (cfg.max_retries + 1) 0 timeout
    else (io, none, 0)
