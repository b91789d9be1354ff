-- ===== src/RateLimiter/Bound.antt =====
-- How many requests pass: at most what the configuration allows, and with more requests than
-- seconds, all of them.
use native.Mathlib.Nat.{div-eq_of_lt}
use shifupool.Base.{
  ℕ, ◌+◌, ◌-◌, ◌*◌, ◌≤◌, ◌<◌, ◌≡◌, refl, ap, ◌∙◌, true, false, none, some, List, [], ◌∷◌, Bytes,
  bytes_eq, bytes_eq_iff, bytes_eq_refl, ltb, if◌then◌else◌, max, arith, All, Bool-cases,
  Option-cases, inl, inr, ltb_false→le,
}
use shifupool.RateLimiter.{RateLimiter, Times, find, assign, nanoseconds, share, limit, accepted}

find-assign :
    (s k : Bytes) (t : ℕ) (c : Times)
    → find s (assign k t c) ≡ (if bytes_eq k s then some t else find s c)
unfolding find assign
find-assign s k t [] = refl
find-assign s k t ((j, u) ∷ c) =
    ground (arith, find-assign s k t c, bytes_eq_iff j k, bytes_eq_iff j s, bytes_eq_iff k s)

-- Requests of other keys leave the time noted for `s` alone.
limit-other :
    (r : RateLimiter) (s k : Bytes) (now : ℕ)
    → bytes_eq k s ≡ false
    → (find s (limit r k now).1.c ≡ find s r.c) × (share (limit r k now).1 ≡ share r)
unfolding limit share
limit-other r s k now other = elim (Option-cases (find k r.c)) [
  | inl new ↦
      rw (new, limit)
        (rw (find-assign s k (now - nanoseconds r.seconds + share r) r.c, other) refl, refl)
  | inr (t, old) ↦
      rw (old, limit)
        (elim (Bool-cases (ltb now t)) [
          | inl early ↦ rw early (refl, refl)
          | inr late ↦ rw late (
            rw (find-assign s k (max (now - nanoseconds r.seconds) t + share r) r.c, other) refl,
            refl,
          )
        ])
]

-- What a request of `s` does when `t` is noted.
limit_self :
    (r : RateLimiter) (s k : Bytes) (now t : ℕ)
    → bytes_eq k s ≡ true
    → find s r.c ≡ some t
    → limit r k now ≡ (
        if ltb now t
        then (false, r)
        else (true, record r { c = assign k (max (now - nanoseconds r.seconds) t + share r) r.c }))
unfolding limit
limit_self r s k now t same e =
    let e' : find k r.c ≡ some t = ap (λ x. find x r.c) ((bytes_eq_iff k s).0 same) ∙ e in
    rw (e', limit) refl

next_share : (r : RateLimiter) (c : Times) → share (record r { c = c }) ≡ share r
unfolding share
next_share r c = refl

-- The clock shows at most `b`.
abbrev pub TimesUpTo : ℕ → List (Bytes × ℕ) → Type 0
TimesUpTo b reqs = All (λ q. q.1 ≤ b) reqs

accepted_after :
    (r : RateLimiter) (s : Bytes) (reqs : List (Bytes × ℕ)) (t a b : ℕ)
    → find s r.c ≡ some t
    → share r ≡ a
    → TimesUpTo b reqs
    → t + accepted r s reqs * a ≤ max t (b + a)
unfolding accepted
accepted_after r s [] t a b e sh h = omega arith
accepted_after r s ((k, now) ∷ rest) t a b e sh h = elim (Bool-cases (bytes_eq k s)) [
  | inr other ↦
      let (same, shares) = limit-other r s k now other in
      let ih = accepted_after (limit r k now).1 s rest t a b (same ∙ e) (shares ∙ sh) h.1 in
      rw other (ground arith)
  | inl own ↦ elim (Bool-cases (ltb now t)) [
    | inl early ↦
        let ih = accepted_after r s rest t a b e sh h.1 in
        rw (limit_self r s k now t own e, early) (ground arith)
    | inr late ↦
        let t' = max (now - nanoseconds r.seconds) t + share r in
        let r' : RateLimiter = record r { c = assign k t' r.c } in
        let found : find s r'.c ≡ some t' = rw (find-assign s k t' r.c, own) refl in
        let ih = accepted_after r' s rest t' a b found (next_share r (assign k t' r.c) ∙ sh) h.1 in
        rw (limit_self r s k now t own e, late, own) (ground (arith, h.0, ltb_false→le now t late))
  ]
]

limit-new :
    (r : RateLimiter) (k : Bytes) (now : ℕ)
    → find k r.c ≡ none
    → limit r k now ≡ (true, record r { c = assign k (now - nanoseconds r.seconds + share r) r.c })
unfolding limit
limit-new r k now e = rw (e, limit) refl

-- From the first request of a key on, the requests of that key that are accepted until a time
-- take a share of time each, together no more than the time that passed, the configured seconds
-- and one share.
pub accepted_bound :
    (r : RateLimiter) (s : Bytes) (start b : ℕ) (rest : List (Bytes × ℕ))
    → find s r.c ≡ none
    → nanoseconds r.seconds ≤ start
    → start ≤ b
    → TimesUpTo b rest
    → accepted r s ((s, start) ∷ rest) * share r + start ≤ b + nanoseconds r.seconds + share r
unfolding accepted
accepted_bound r s start b rest e old le h =
    let t' = start - nanoseconds r.seconds + share r in
    let r' : RateLimiter = record r { c = assign s t' r.c } in
    let found : find s r'.c ≡ some t' = rw (find-assign s s t' r.c, bytes_eq_refl s) refl in
    let ih = accepted_after r' s rest t' (share r) b found (next_share r (assign s t' r.c)) h in
    rw (limit-new r s start e, bytes_eq_refl s) (omega arith)

-- The clock never goes back.
abbrev pub Nondecreasing : ℕ → List (Bytes × ℕ) → Type 0
Nondecreasing b [] = Unit
Nondecreasing b ((k, now) ∷ rest) = (b ≤ now) × Nondecreasing now rest

-- The requests of a key.
unfoldable pub requests : Bytes → List (Bytes × ℕ) → ℕ
requests s [] = 0
requests s ((k, now) ∷ rest) = (if bytes_eq k s then 1 else 0) + requests s rest

-- No noted time lies in the future.
abbrev IsPast : ℕ → RateLimiter → Type 0
IsPast b r = (k : Bytes) (t : ℕ) → find k r.c ≡ some t → t ≤ b

limit-IsPast :
    (r : RateLimiter) (k : Bytes) (b now : ℕ)
    → share r ≡ 0
    → b ≤ now
    → IsPast b r
    → ((limit r k now).0 ≡ true) × IsPast now (limit r k now).1 × (share (limit r k now).1 ≡ 0)
limit-IsPast r k b now sh le past = elim (Option-cases (find k r.c)) [
  | inl new ↦
      rw (limit-new r k now new)
        (refl, after (now - nanoseconds r.seconds + share r) (omega arith), next_share r _ ∙ sh)
  | inr (t, old) ↦
      let early : ltb now t ≡ false = ground (arith, past k t old) in
      rw (limit_self r k k now t (bytes_eq_refl k) old, early)
        (
          refl,
          after (max (now - nanoseconds r.seconds) t + share r) (omega (arith, past k t old)),
          next_share r _ ∙ sh,
        )
]
  where
    after : (u : ℕ) → u ≤ now → IsPast now (record r { c = assign k u r.c })
    after u h j t e = ground (arith, find-assign j k u r.c, past j t)

accepted-all :
    (r : RateLimiter) (s : Bytes) (b : ℕ) (reqs : List (Bytes × ℕ))
    → share r ≡ 0
    → IsPast b r
    → Nondecreasing b reqs
    → accepted r s reqs ≡ requests s reqs
unfolding accepted requests
accepted-all r s b [] sh past h = refl
accepted-all r s b ((k, now) ∷ rest) sh past h =
    let (passed, past', sh') = limit-IsPast r k b now sh h.0 past in
    rw (passed) (omega (arith, accepted-all (limit r k now).1 s now rest sh' past' h.1))

-- A limiter with more requests than seconds accepts every request of a key, on a clock that never
-- goes back.
pub accepted-requests :
    (n seconds : ℕ) (s : Bytes) (reqs : List (Bytes × ℕ))
    → seconds < n
    → Nondecreasing 0 reqs
    → accepted (record { n = n; seconds = seconds; c = [] }) s reqs ≡ requests s reqs
unfolding share find
accepted-requests n seconds s reqs few h =
    accepted-all (record { n = n; seconds = seconds; c = [] }) s 0 reqs
      (ap nanoseconds (div-eq_of_lt few)) (λ k t e. cc) h
