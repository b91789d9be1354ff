-- ===== src/Difficulty/Bounds.antt =====
-- The difficulty stays in its range, and the loops end.
use shifupool.Base.{
  ℕ, zero, suc, ◌+◌, ◌-◌, ◌≤◌, ◌≡◌, refl, arith, min, max, Bool-cases, inl, inr, ltb, false, ◌||◌,
}
use shifupool.Int.{ℤ, pos, ltb_ℤ, div_ℤ, mul_ℤ, int32}
use shifupool.Difficulty.{
  Rounds, settled, divided_by_zero, unfinished, distance, double, is_zero, lower, raise,
  compute_difficulty,
}

-- The loop has ended, with a difficulty from `a` to `b` or in a division by zero.
abbrev pub Ends : ℕ → ℕ → Rounds → Type 0
Ends a b (settled d) = (a ≤ d) × (d ≤ b)
Ends a b divided_by_zero = Unit
Ends a b unfinished = ⊥

Ends-wider : (a b c d : ℕ) (r : Rounds) → c ≤ a → b ≤ d → Ends a b r → Ends c d r
Ends-wider a b c d (settled n) h i e = (omega (arith, e.0), omega (arith, e.1))
Ends-wider a b c d divided_by_zero h i e = tt
Ends-wider a b c d unfinished h i e = absurd e

pub lower-Ends :
    (fuel : ℕ) (e x : ℤ) (d : ℕ) (k l : ℤ)
    → d ≤ fuel + 16
    → Ends (min d 16) d (lower fuel e x d k l)
unfolding lower
lower-Ends zero e x d k l h = elim (Bool-cases (ltb 16 d)) [
  | inl high ↦ absurd (ground arith)
  | inr low ↦ rw low (omega arith, omega arith)
]
lower-Ends (suc fuel) e x d k l h = elim (Bool-cases (ltb 16 d)) [
  | inr low ↦ rw low (omega arith, omega arith)
  | inl high ↦
      let below = lower-Ends fuel e x (d - 1) (double k) k (omega arith) in
      let rest =
        Ends-wider _ _ (min d 16) d (lower fuel e x (d - 1) (double k) k) (ground arith)
          (omega arith) below in
      rw high (elim (Bool-cases (is_zero k || is_zero l)) [
        | inl none ↦ rw none tt
        | inr some ↦
            rw some (elim (Bool-cases (ltb_ℤ (distance (div_ℤ e l) x) (distance (div_ℤ e k) x))) [
              | inl farther ↦ rw farther (omega arith, omega arith)
              | inr closer ↦ rw closer rest
            ])
      ])
]

-- The other loop does not divide.
pub record Rises (d : ℕ) (r : Rounds) : Type 0 where
  pub value : ℕ
  pub ends : r ≡ settled value
  pub low : d ≤ value
  pub high : value ≤ max d 254

pub raise-Rises :
    (fuel : ℕ) (e x : ℤ) (d : ℕ) (k l : ℤ) → 254 ≤ fuel + d → Rises d (raise fuel e x d k l)
unfolding raise
raise-Rises zero e x d k l h = elim (Bool-cases (ltb d 254)) [
  | inl low ↦ absurd (ground arith)
  | inr high ↦ record { value = d; ends = rw high refl; low = omega arith; high = omega arith }
]
raise-Rises (suc fuel) e x d k l h = elim (Bool-cases (ltb d 254)) [
  | inr high ↦ record { value = d; ends = rw high refl; low = omega arith; high = omega arith }
  | inl low ↦
      elim (Bool-cases (ltb_ℤ (distance (int32 (mul_ℤ e l)) x) (distance (int32 (mul_ℤ e k)) x))) [
        | inl farther ↦ record {
          value = d;
          ends = rw low (rw farther refl);
          low = omega arith;
          high = omega arith;
        }
        | inr closer ↦
            let rest = raise-Rises fuel e x (d + 1) (double k) k (omega arith) in
            record {
              value = rest.value;
              ends = rw low (rw closer rest.ends);
              low = omega (arith, rest.low);
              high = ground (arith, rest.high);
            }
      ]
]

-- ComputeDifficulty of a difficulty between 16 and 254 ends for any times, with a difficulty
-- between 16 and 254 or in a division by zero.
pub compute_difficulty-Ends :
    (current : ℕ) (elapsed expected : ℤ)
    → 16 ≤ current
    → current ≤ 254
    → Ends 16 254 (compute_difficulty current elapsed expected)
unfolding compute_difficulty
compute_difficulty-Ends d e x low high = elim (Bool-cases (ltb_ℤ x e)) [
  | inl slow ↦ rw slow (
      Ends-wider (min d 16) d 16 254 _ (ground arith) high
        (lower-Ends d e x d (pos 2) (pos 1) (omega arith)))
  | inr quick ↦
      let rises = raise-Rises 254 e x d (pos 2) (pos 1) (omega arith) in
      rw quick (rw rises.ends (omega (arith, rises.low), ground (arith, rises.high)))
]

ltb_ℤ_irrefl : (a : ℤ) → ltb_ℤ a a ≡ false
ltb_ℤ_irrefl a = ground arith

mul_zero : (k : ℤ) → mul_ℤ (pos 0) k ≡ pos 0
mul_zero k = ground arith

raise_zero :
    (fuel : ℕ) (x : ℤ) (d : ℕ) (k l : ℤ)
    → d ≤ 254
    → 254 ≤ fuel + d
    → raise fuel (pos 0) x d k l ≡ settled 254
unfolding raise
raise_zero zero x d k l h i = let e : d ≡ 254 = omega arith in rw e refl
raise_zero (suc fuel) x d k l h i = elim (Bool-cases (ltb d 254)) [
  | inr high ↦ let e : d ≡ 254 = ground arith in rw e refl
  | inl low ↦ rw low (
      rw (mul_zero k, mul_zero l)
        (rw (ltb_ℤ_irrefl (distance (int32 (pos 0)) x))
          (raise_zero fuel x (d + 1) (double k) k (ground arith) (omega arith))))
]

-- Where no time passed between the two blocks, a difficulty of at most 254 becomes 254 at once.
pub compute_difficulty-zero :
    (current : ℕ) (expected : ℕ)
    → current ≤ 254
    → compute_difficulty current (pos 0) (pos expected) ≡ settled 254
unfolding compute_difficulty
compute_difficulty-zero d x h =
    ground (arith, raise_zero 254 (pos x) d (pos 2) (pos 1) h (omega arith))
