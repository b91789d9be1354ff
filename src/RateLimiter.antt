-- ===== src/RateLimiter.antt =====
-- c++/src/server/rate_limiter.cpp: at most N requests of one key in a number of seconds. Times are
-- nanoseconds of the steady clock, which is assumed to show more than `seconds`.
pub mod Bound
use shifupool.Base.{
  ℕ, ◌+◌, ◌-◌, ◌*◌, ◌/◌, Bool, true, false, ◌&&◌, Option, none, some, List, [], ◌∷◌, Bytes,
  bytes_eq, ltb, if◌then◌else◌, max,
}

-- `c`, the time up to which each key has used up its share
abbrev pub Times : Type 0
Times = List (Bytes × ℕ)

pub record RateLimiter : Type 0 where
  pub n : ℕ
  pub seconds : ℕ
  pub c : Times

unfoldable pub find : Bytes → Times → Option ℕ
find s [] = none
find s ((k, t) ∷ c) = if bytes_eq k s then some t else find s c

-- `iter->second = t`, or `c.emplace(s, t)`
unfoldable pub assign : Bytes → ℕ → Times → Times
assign s t [] = (s, t) ∷ []
assign s t ((k, u) ∷ c) = if bytes_eq k s then (k, t) ∷ c else (k, u) ∷ assign s t c

abbrev pub nanoseconds : ℕ → ℕ
nanoseconds seconds = seconds * 1000000000

-- `std::chrono::seconds(seconds) / N` is a duration in whole seconds again.
unfoldable pub share : RateLimiter → ℕ
share r = nanoseconds (r.seconds / r.n)

-- `limit(s)` when the clock shows `now`: whether the request is accepted
unfoldable pub limit : RateLimiter → Bytes → ℕ → Bool × RateLimiter
limit r s now = elim (find s r.c) [
  | none ↦ (true, record r { c = assign s (now - nanoseconds r.seconds + share r) r.c })
  | some t ↦
      if ltb now t
      then (false, r)
      else (true, record r { c = assign s (max (now - nanoseconds r.seconds) t + share r) r.c })
]

-- A sequence of requests, each with the time of the clock, and how many of key `s` were accepted.
unfoldable pub accepted : RateLimiter → Bytes → List (Bytes × ℕ) → ℕ
accepted r s [] = 0
accepted r s ((k, now) ∷ rest) =
    let (passed, r') = limit r k now in
    (if passed && bytes_eq k s then 1 else 0) + accepted r' s rest
