-- ===== src/RateLimit.antt =====
-- cmd/hsc/ratelimit.go: the counter of requests by host. Addresses are strings, that is lists of
-- bytes; the map and the rest of `http.Request` are an association list and a record.
pub mod Window
mod Tests
use hostscore.Prelude.{
  ℕ, suc, ◌+◌, List, [], ◌∷◌, Bool, true, false, ◌||◌, Option, none, some, ltb, if◌then◌else◌,
  str_eq,
}

abbrev pub max_requests_per_second : ℕ
max_requests_per_second = 10

pub record RateLimiter : Type 0 where
  pub requests : List (List ℕ × ℕ)

unfoldable pub new_rate_limiter : RateLimiter
new_rate_limiter = record { requests = [] }

-- A missing key reads as 0.
abbrev pub read : List ℕ → List (List ℕ × ℕ) → ℕ
read addr [] = 0
read addr ((a, n) ∷ m) = if str_eq a addr then n else read addr m

-- `rl.requests[addr]++`.
abbrev pub increment : List ℕ → List (List ℕ × ℕ) → List (List ℕ × ℕ)
increment addr [] = (addr, 1) ∷ []
increment addr ((a, n) ∷ m) =
    let rest = increment addr m in if str_eq a addr then (a, suc n) ∷ m else (a, n) ∷ rest

unfoldable pub limit_exceeded : List ℕ → RateLimiter → Bool × RateLimiter
limit_exceeded addr rl =
    let requests' = increment addr rl.requests in
    (ltb max_requests_per_second (read addr requests'), record { requests = requests' })

-- A tick of the goroutine that empties the map, and a request.
pub data Event : Type 0 where
  tick : Event
  request : List ℕ → Event

unfoldable pub handle : Event → RateLimiter → RateLimiter
unfolding limit_exceeded new_rate_limiter
handle tick rl = new_rate_limiter
handle (request addr) rl = (limit_exceeded addr rl).1

-- The answers to the requests of a run, whether the limit was exceeded.
unfoldable pub serve : List Event → RateLimiter → List Bool
unfolding handle limit_exceeded
serve [] rl = []
serve (tick ∷ es) rl = serve es (handle tick rl)
serve (request addr ∷ es) rl = (limit_exceeded addr rl).0 ∷ serve es (handle (request addr) rl)

pub record Request : Type 0 where
  pub remote_addr : List ℕ
  pub forwarded_for : List (List ℕ)

abbrev pub loopback : List ℕ
loopback = b'1' ∷ b'2' ∷ b'7' ∷ b'.' ∷ b'0' ∷ b'.' ∷ b'0' ∷ b'.' ∷ b'1' ∷ []

abbrev pub localhost : List ℕ
localhost = b'l' ∷ b'o' ∷ b'c' ∷ b'a' ∷ b'l' ∷ b'h' ∷ b'o' ∷ b's' ∷ b't' ∷ []

-- `split` is the host of net.SplitHostPort, whose error is dropped.
unfoldable pub get_remote_host : (List ℕ → List ℕ) → Request → List ℕ
get_remote_host split r =
    let host = split r.remote_addr in
    let forwarded : List ℕ = elim r.forwarded_for [ [] ↦ host | x ∷ _ ↦ x ] in
    if str_eq host loopback || str_eq host localhost then forwarded else host
