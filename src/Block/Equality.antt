-- ===== src/Block/Equality.antt =====
-- Equality and hashes of blocks.
use shifupool.Base.{◌≡◌, Bool, true, arith, bytes_eq_iff}
use shifupool.Crypto.{Primitives}
use shifupool.Block.{Block, block_eq, get_hash, verify_nonce}

-- Blocks that operator== takes for equal have the same hash and pass or fail the proof-of-work
-- test alike.
pub get_hash-block_eq :
    (p : Primitives) (a b : Block) (use_pufferfish : Bool)
    → block_eq a b ≡ true
    → (get_hash p a ≡ get_hash p b)
      × (verify_nonce p a use_pufferfish ≡ verify_nonce p b use_pufferfish)
unfolding block_eq get_hash verify_nonce
get_hash-block_eq p a b use_pufferfish e = ground (
  arith,
  bytes_eq_iff b.nonce a.nonce,
  bytes_eq_iff b.last_block_hash a.last_block_hash,
  bytes_eq_iff b.merkle_root a.merkle_root,
)
