-- ===== src/Crypto/Mine/Search.antt =====
-- The search for a nonce comes past every value of the eight bytes that it counts.
use shifupool.Base.{
  ℕ, zero, suc, ◌+◌, ◌-◌, ◌%◌, ◌≡◌, ◌≤◌, ◌<◌, refl, sym, ap, ◌∙◌, subst, Bool, true, false, Option,
  some, ◌++◌, Bytes, drop, arith, Bool-cases, inl, inr,
}
use shifupool.Words.{u64_mod, le_bytes, of_le, of_le-le_bytes8, of_le-lt8}
use shifupool.Crypto.{Primitives, verify_hash}
use shifupool.Crypto.Mine.{next_nonce, mine_hash}

-- A nonce with `w` in the bytes that are counted.
unfoldable pub with_count : ℕ → Bytes → Bytes
with_count w nonce = le_bytes 8 w ++ drop 8 nonce

count-next_nonce : (nonce : Bytes) → of_le 8 (next_nonce nonce) ≡ (of_le 8 nonce + 1) % u64_mod
unfolding next_nonce
count-next_nonce nonce =
    of_le-le_bytes8 ((of_le 8 nonce + 1) % u64_mod) (drop 8 nonce) ∙ omega arith

next_nonce-with_count :
    (nonce : Bytes) → next_nonce nonce ≡ with_count ((of_le 8 nonce + 1) % u64_mod) nonce
unfolding next_nonce with_count
next_nonce-with_count nonce = refl

with_count-next_nonce :
    (w : ℕ) (nonce : Bytes) → with_count w (next_nonce nonce) ≡ with_count w nonce
unfolding next_nonce with_count le_bytes
with_count-next_nonce w nonce = refl

module _ (p : Primitives) (target : Bytes) (challenge_size : ℕ) (use_pufferfish : Bool) where
  passes : Bytes → Bool
  passes nonce = verify_hash p target nonce challenge_size use_pufferfish

  -- The search ended with a nonce that passes.
  pub record Finds (r : Option Bytes) : Type 0 where
    pub solution : Bytes
    pub found : r ≡ some solution
    pub good : verify_hash p target solution challenge_size use_pufferfish ≡ true

  first_round :
      (nonce : Bytes)
      → passes (with_count ((of_le 8 nonce + 1 + 0) % u64_mod) nonce) ≡ true
      → passes (next_nonce nonce) ≡ true
  first_round nonce good =
      ap passes (next_nonce-with_count nonce ∙ ap (λ n. with_count n nonce) same) ∙ good
    where
      same : (of_le 8 nonce + 1) % u64_mod ≡ (of_le 8 nonce + 1 + 0) % u64_mod
      same = omega arith

  next_round :
      (k : ℕ) (nonce : Bytes)
      → passes (with_count ((of_le 8 nonce + 1 + suc k) % u64_mod) nonce) ≡ true
      → passes (with_count ((of_le 8 (next_nonce nonce) + 1 + k) % u64_mod) (next_nonce nonce))
        ≡ true
  next_round k nonce good =
      ap passes (
        with_count-next_nonce ((of_le 8 (next_nonce nonce) + 1 + k) % u64_mod) nonce
        ∙ ap (λ n. with_count n nonce) same)
      ∙ good
    where
      same : (of_le 8 (next_nonce nonce) + 1 + k) % u64_mod ≡ (of_le 8 nonce + 1 + suc k) % u64_mod
      same = rw (count-next_nonce nonce) (omega arith)

  clash : {b : Bool} → b ≡ true → b ≡ false → ⊥
  clash holds fails = cc

  mine_hash-Finds_within :
      (rounds k : ℕ) (nonce : Bytes)
      → k < rounds
      → passes (with_count ((of_le 8 nonce + 1 + k) % u64_mod) nonce) ≡ true
      → Finds (mine_hash p rounds target challenge_size use_pufferfish nonce)
  unfolding mine_hash passes
  mine_hash-Finds_within zero k nonce h good = absurd (omega arith)
  mine_hash-Finds_within (suc rounds) k nonce h good =
      elim (Bool-cases (verify_hash p target (next_nonce nonce) challenge_size use_pufferfish)) [
        | inl found ↦ rw found (record { solution = next_nonce nonce; found = refl; good = found })
        | inr wrong ↦ rw wrong (
            later k h good wrong
              (λ k' h' g'. mine_hash-Finds_within rounds k' (next_nonce nonce) h' g'))
      ]
    where
      later :
          (k : ℕ)
          → k < suc rounds
          → passes (with_count ((of_le 8 nonce + 1 + k) % u64_mod) nonce) ≡ true
          → passes (next_nonce nonce) ≡ false
          → ((k' : ℕ)
              → k' < rounds
              → passes
                  (with_count ((of_le 8 (next_nonce nonce) + 1 + k') % u64_mod) (next_nonce nonce))
                ≡ true
              → Finds (mine_hash p rounds target challenge_size use_pufferfish (next_nonce nonce)))
          → Finds (mine_hash p rounds target challenge_size use_pufferfish (next_nonce nonce))
      later zero h good wrong search_on = absurd (clash (first_round nonce good) wrong)
      later (suc k) h good wrong search_on = search_on k (omega arith) (next_round k nonce good)

  -- If the proof-of-work test passes for any value of the eight counted bytes, then mineHash
  -- finds a nonce that passes in at most 2^64 rounds, wherever it begins.
  pub mine_hash-Finds :
      (fuel w : ℕ) (nonce : Bytes)
      → w < u64_mod
      → u64_mod ≤ fuel
      → verify_hash p target (with_count w nonce) challenge_size use_pufferfish ≡ true
      → Finds (mine_hash p fuel target challenge_size use_pufferfish nonce)
  unfolding passes
  mine_hash-Finds fuel w nonce small enough good =
      mine_hash-Finds_within fuel rounds nonce (omega arith)
        (subst (λ n. passes (with_count n nonce) ≡ true) (sym same) good)
    where
      rounds : ℕ
      rounds = (w + u64_mod + u64_mod - of_le 8 nonce - 1) % u64_mod

      same : (of_le 8 nonce + 1 + rounds) % u64_mod ≡ w
      same = omega (arith, of_le-lt8 nonce)
