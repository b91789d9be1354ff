-- ===== src/Difficulty.antt =====
-- `computeDifficulty` of c++/src/server/blockchain.cpp: the difficulty after a look-back period that
-- took `elapsed` instead of `expected` seconds. The `int` variables `k` and `lastK` are cut to 32 bits
-- when they are doubled, so that the 31st round in a row makes `k` zero. Each round changes the
-- difficulty by one; the fuel is the number of rounds, and running out of it is an outcome of its own.
pub mod Bounds
pub mod Settled
use shifupool.Base.{ℕ, zero, suc, ◌+◌, ◌-◌, Bool, ltb, ◌==◌, ◌||◌, if◌then◌else◌}
use shifupool.Int.{ℤ, pos, negsuc, ◌-ℤ◌, abs, ltb_ℤ, div_ℤ, mul_ℤ, int32}

-- How the loops end: with a difficulty, or in a division by zero; `unfinished` when the fuel is out.
pub data Rounds : Type 0 where
  settled : ℕ → Rounds
  divided_by_zero unfinished : Rounds

-- `abs(q - expectedTime)`
unfoldable pub distance : ℤ → ℤ → ℤ
distance q expected = int32 (pos (abs (int32 (q -ℤ expected))))

-- `k *= 2`
unfoldable pub double : ℤ → ℤ
double k = int32 (mul_ℤ k (pos 2))

unfoldable pub is_zero : ℤ → Bool
is_zero k = abs k == 0

-- `while (newDifficulty > 16) { if (…) break; newDifficulty--; lastK = k; k *= 2; }`
unfoldable pub lower : ℕ → ℤ → ℤ → ℕ → ℤ → ℤ → Rounds
lower zero elapsed expected d k last_k = if ltb 16 d then unfinished else settled d
lower (suc fuel) elapsed expected d k last_k =
    let rest = lower fuel elapsed expected (d - 1) (double k) k in
    if ltb 16 d
    then (if is_zero k || is_zero last_k
        then divided_by_zero
        else if ltb_ℤ (distance (div_ℤ elapsed last_k) expected)
            (distance (div_ℤ elapsed k) expected)
        then settled d
        else rest)
    else settled d

-- `while (newDifficulty < 254) { if (…) break; newDifficulty++; lastK = k; k *= 2; }`
unfoldable pub raise : ℕ → ℤ → ℤ → ℕ → ℤ → ℤ → Rounds
raise zero elapsed expected d k last_k = if ltb d 254 then unfinished else settled d
raise (suc fuel) elapsed expected d k last_k =
    let rest = raise fuel elapsed expected (d + 1) (double k) k in
    if ltb d 254
    then (if ltb_ℤ (distance (int32 (mul_ℤ elapsed last_k)) expected)
          (distance (int32 (mul_ℤ elapsed k)) expected)
        then settled d
        else rest)
    else settled d

unfoldable pub compute_difficulty : ℕ → ℤ → ℤ → Rounds
compute_difficulty current elapsed expected =
    if ltb_ℤ expected elapsed
    then lower current elapsed expected current (pos 2) (pos 1)
    else raise 254 elapsed expected current (pos 2) (pos 1)
