-- ===== src/Crypto/Mine.antt =====
-- `mineHash` of c++/src/core/crypto.cpp: the search for a nonce. It begins at 32 random bytes, counts
-- the first eight of them up as a `uint64_t` and leaves the others alone. The source loops for ever
-- when no nonce passes; the fuel is the number of rounds.
pub mod Search
use shifupool.Base.{ℕ, zero, suc, Bool, Option, none, some, ◌++◌, Bytes, drop, if◌then◌else◌}
use shifupool.Words.{add64, le_bytes, of_le}
use shifupool.Crypto.{Primitives, verify_hash}

-- `*reinterpret_cast<uint64_t*>(concat.data() + 32) += 1`
unfoldable pub next_nonce : Bytes → Bytes
next_nonce nonce = le_bytes 8 (add64 (of_le 8 nonce) 1) ++ drop 8 nonce

module _ (p : Primitives) where
  unfoldable pub mine_hash : ℕ → Bytes → ℕ → Bool → Bytes → Option Bytes
  mine_hash zero target challenge_size use_pufferfish nonce = none
  mine_hash (suc rounds) target challenge_size use_pufferfish nonce =
      let solution = next_nonce nonce in
      let rest = mine_hash rounds target challenge_size use_pufferfish solution in
      if verify_hash p target solution challenge_size use_pufferfish then some solution else rest
