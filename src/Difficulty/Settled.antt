-- ===== src/Difficulty/Settled.antt =====
-- With an expected time of at least one second no division by zero is reached.
use native.Mathlib.Nat.{
  div-div-eq-div-mul, pow-le-pow_right, pow-suc, zero-div, div-le_self, div-lt_iff_lt-mul,
}
use native.Mathlib.Decide.{dec_le}
use shifupool.Base.{
  ℕ, zero, suc, ◌+◌, ◌-◌, ◌*◌, ◌/◌, ◌^◌, ◌≤◌, ◌<◌, ◌≡◌, refl, ap, ◌∙◌, arith, if◌then◌else◌, min,
  max, Bool-cases, inl, inr, ltb, leb, true, false,
}
use shifupool.Int.{ℤ, pos, negsuc, ltb_ℤ, div_ℤ, pos_part}
use shifupool.Difficulty.{Rounds, settled, distance, double, is_zero, lower, compute_difficulty}
use shifupool.Difficulty.Bounds.{raise-Rises}

-- The loops end with a difficulty that is not beyond their bounds.
pub record Settles (d : ℕ) (r : Rounds) : Type 0 where
  pub value : ℕ
  pub ends : r ≡ settled value
  pub low : min d 16 ≤ value
  pub high : value ≤ max d 254

stop_here : (d : ℕ) (r : Rounds) → r ≡ settled d → Settles d r
stop_here d r e = record { value = d; ends = e; low = omega arith; high = omega arith }

-- A round behind the current one, with the difficulty one lower.
go_on : (d : ℕ) (r : Rounds) → 16 < d → Settles (d - 1) r → Settles d r
go_on d r h s = record {
  value = s.value;
  ends = s.ends;
  low = omega (arith, s.low);
  high = omega (arith, s.high);
}

gap : ℕ → ℕ → ℕ
gap q x = if leb x q then q - x else x - q

distance-gap : (q x : ℕ) → q < 2 ^ 31 → x < 2 ^ 31 → distance (pos q) (pos x) ≡ pos (gap q x)
unfolding distance gap
distance-gap q x h i = ground arith

double_pos : (l : ℕ) → l < 2 ^ 30 → double (pos l) ≡ pos (l * 2)
unfolding double
double_pos l h = ground arith

double_most : double (pos (2 ^ 30)) ≡ negsuc (2 ^ 31 - 1)
unfolding double
double_most = refl

div_pos : (e l : ℕ) → div_ℤ (pos e) (pos l) ≡ pos (e / l)
div_pos e l = rw (zero-div l) (ground arith)

half : (e l : ℕ) → e < 2 ^ 31 → l ≤ 2 ^ 30 → div_ℤ (pos e) (double (pos l)) ≡ pos (e / l / 2)
half e l h i = elim (dec_le (2 ^ 30) l) [
  | no small ↦ rw (double_pos l (omega arith)) (rw (div-div-eq-div-mul e l 2) (div_pos e (l * 2)))
  | yes most ↦
      let there : l ≡ 2 ^ 30 = omega arith in
      let none_left : e / 2 ^ 31 ≡ 0 = omega arith in
      let nothing : e / 2 ^ 30 / 2 ≡ 0 = omega arith in
      rw there (rw double_most (rw (none_left, nothing) refl))
]

is_zero-pos : (l : ℕ) → 0 < l → is_zero (pos l) ≡ false
unfolding is_zero
is_zero-pos l h = ground arith

is_zero-double : (l : ℕ) → 0 < l → l ≤ 2 ^ 30 → is_zero (double (pos l)) ≡ false
is_zero-double l h i = elim (dec_le (2 ^ 30) l) [
  | no small ↦ rw (double_pos l (omega arith)) (is_zero-pos (l * 2) (omega arith))
  | yes most ↦
      let there : l ≡ 2 ^ 30 = omega arith in rw there (rw double_most (unfold is_zero in refl))
]

-- One round, when the divisors are in range.
round :
    (fuel e x d l : ℕ)
    → e < 2 ^ 31
    → x < 2 ^ 31
    → 0 < l
    → l ≤ 2 ^ 30
    → ltb 16 d ≡ true
    → lower (suc fuel) (pos e) (pos x) d (double (pos l)) (pos l) ≡ (
        if ltb (gap (e / l) x) (gap (e / l / 2) x)
        then settled d
        else lower fuel (pos e) (pos x) (d - 1) (double (double (pos l))) (double (pos l)))
unfolding lower
round fuel e x d l h i some le high =
    let first = distance-gap (e / l) x (omega (arith, div-le_self e l)) i in
    let second = distance-gap (e / l / 2) x (omega (arith, div-le_self e l)) i in
    rw high (
      rw (is_zero-double l some le, is_zero-pos l some)
        (rw (div_pos e l, half e l h le) (rw (first, second) (ground arith))))

-- Once the quotient is not above the expected time, the next round stops.
near-Settles :
    (fuel e x d l : ℕ)
    → e < 2 ^ 31
    → x < 2 ^ 31
    → 0 < l
    → l ≤ 2 ^ 30
    → 1 ≤ e / l
    → e / l ≤ x
    → d ≤ fuel + 16
    → Settles d (lower fuel (pos e) (pos x) d (double (pos l)) (pos l))
near-Settles zero e x d l h i some le one under fits = stop_here d _ (unfold lower in ground arith)
near-Settles (suc fuel) e x d l h i some le one under fits = elim (Bool-cases (ltb 16 d)) [
  | inr low ↦ stop_here d _ (unfold lower in rw low refl)
  | inl high ↦
      let farther : ltb (gap (e / l) x) (gap (e / l / 2) x) ≡ true = unfold gap in ground arith in
      stop_here d _ (round fuel e x d l h i some le high ∙ rw farther refl)
]

power_room : (j : ℕ) → 2 ^ j < 2 ^ 31 → 2 ^ j ≤ 2 ^ 30
power_room j h = elim (dec_le j 30) [
  | yes le ↦ pow-le-pow_right {n = 2} (omega arith) le
  | no gt ↦
      absurd (omega (arith, pow-le-pow_right {n = 2} (omega arith) {i = 31} {j = j} (omega arith)))
]

double_room : (e l : ℕ) → 0 < l → 2 ≤ e / l → l * 2 ≤ e
double_room e l some two = elim (dec_le (l * 2) e) [
  | yes le ↦ le
  | no gt ↦ absurd (omega (arith, (div-lt_iff_lt-mul {k = l} {x = e} {y = 2} some).1 (omega arith)))
]

far-Settles :
    (fuel e x d j l : ℕ)
    → l ≡ 2 ^ j
    → e < 2 ^ 31
    → x < 2 ^ 31
    → 0 < x
    → 0 < l
    → x < e / l
    → d ≤ fuel + 16
    → Settles d (lower fuel (pos e) (pos x) d (double (pos l)) (pos l))
far-Settles zero e x d j l p h i wanted some over fits =
    stop_here d _ (unfold lower in ground arith)
far-Settles (suc fuel) e x d j l p h i wanted some over fits = elim (Bool-cases (ltb 16 d)) [
  | inr low ↦ stop_here d _ (unfold lower in rw low refl)
  | inl high ↦
      let room : l * 2 ≤ e = double_room e l some (omega arith) in
      let next : l * 2 ≡ 2 ^ suc j = rw (pow-suc 2 j) (ap (λ n. n * 2) p) in
      let le : l * 2 ≤ 2 ^ 30 = omega (arith, next, power_room (suc j) (omega (arith, next))) in
      rw (round fuel e x d l h i some (omega arith) high)
        (elim (Bool-cases (ltb (gap (e / l) x) (gap (e / l / 2) x))) [
          | inl farther ↦ rw farther (stop_here d _ refl)
          | inr closer ↦ rw closer (
              rw (double_pos l (omega arith)) (
                go_on d _ (ground arith) (elim (dec_le (e / (l * 2)) x) [
                  | yes under ↦
                      near-Settles fuel e x (d - 1) (l * 2) h i (omega arith) le
                        (omega (arith, div-div-eq-div-mul e l 2)) under (ground arith)
                  | no above ↦
                      far-Settles fuel e x (d - 1) (suc j) (l * 2) next h i wanted (omega arith)
                        (omega arith) (ground arith)
                ])))
        ])
]

-- ComputeDifficulty, with an expected time from one second to the largest int and an elapsed time
-- that is an int, ends for any difficulty, without a division by zero, with a difficulty that is
-- not beyond 16 and 254 unless the difficulty was.
pub compute_difficulty-Settles :
    (current : ℕ) (elapsed : ℤ) (expected : ℕ)
    → 0 < expected
    → expected < 2 ^ 31
    → pos_part elapsed < 2 ^ 31
    → Settles current (compute_difficulty current elapsed (pos expected))
unfolding compute_difficulty double
compute_difficulty-Settles d e x wanted small int = elim (Bool-cases (ltb_ℤ (pos x) e)) [
  | inl slow ↦ rw slow (go e slow int)
  | inr quick ↦
      let rises = raise-Rises 254 e (pos x) d (pos 2) (pos 1) (omega arith) in
      rw quick (record {
        value = rises.value;
        ends = rises.ends;
        low = omega (arith, rises.low);
        high = rises.high;
      })
]
  where
    go :
        (e : ℤ)
        → ltb_ℤ (pos x) e ≡ true
        → pos_part e < 2 ^ 31
        → Settles d (lower d e (pos x) d (pos 2) (pos 1))
    go (pos n) slow int =
        far-Settles d n x d 0 1 refl int small wanted (omega arith) (ground arith) (omega arith)
    go (negsuc n) slow int = absurd (ground arith)
