-- ===== src/Crypto.antt =====
-- c++/src/core/crypto.cpp: hashes, hexadecimal text, wallet addresses, signatures and proof of work.
-- SHA-256 and RIPEMD-160 of OpenSSL, ed25519 and pufferfish (c++/src/external) are parameters.
pub mod Hex
pub mod Work
pub mod Mine
use shifupool.Base.{
  ℕ, suc, ◌+◌, ◌≡◌, Bool, List, [], ◌∷◌, ◌++◌, Bytes, take, IsBytes, ◌==◌, replicate, length,
}
use Work.{check_leading_zero_bits}

-- The primitives that the code calls, each a function of the bytes that it is handed.
pub record Primitives : Type 0 where
  pub sha256 : Bytes → Bytes
  pub ripemd160 : Bytes → Bytes
  -- the salted hash string of `pf_newhash`, `PF_HASHSPACE` bytes
  pub pf_newhash : Bytes → Bytes
  -- message, public key, private key
  pub ed25519_sign : Bytes → Bytes → Bytes → Bytes
  -- signature, message, public key
  pub ed25519_verify : Bytes → Bytes → Bytes → ℕ

-- What the code relies on: the sizes of the digests and signatures, and that a signature made with
-- the key pair verifies.
pub record PrimitiveSizes (p : Primitives) : Type 0 where
  pub sha256_size : (m : Bytes) → IsBytes 32 (p.sha256 m)
  pub ripemd160_size : (m : Bytes) → IsBytes 20 (p.ripemd160 m)

-- `NULL_SHA256_HASH`, `NULL_ADDRESS`
abbrev pub null_sha256_hash : Bytes
null_sha256_hash = replicate 32 0

abbrev pub null_address : Bytes
null_address = replicate 25 0

module _ (p : Primitives) where
  -- `SHA256(buffer, len, usePufferFish)` and `PUFFERFISH`
  unfoldable pub pufferfish : Bytes → Bytes
  pufferfish buffer = p.sha256 (p.pf_newhash buffer)

  unfoldable pub sha256_with : Bytes → Bool → Bytes
  unfolding pufferfish
  sha256_with buffer Bool.true = pufferfish buffer
  sha256_with buffer Bool.false = p.sha256 buffer

  unfoldable pub concat_hashes : Bytes → Bytes → Bool → Bytes
  unfolding sha256_with
  concat_hashes a b use_pufferfish = sha256_with (take 32 a ++ take 32 b) use_pufferfish

  unfoldable pub verify_hash : Bytes → Bytes → ℕ → Bool → Bool
  verify_hash target nonce challenge_size use_pufferfish =
      check_leading_zero_bits (concat_hashes target nonce use_pufferfish) challenge_size

  -- byte 0, the twenty bytes of the key's hash, and four bytes of checksum
  unfoldable pub wallet_address_from_public_key : Bytes → Bytes
  wallet_address_from_public_key input_key =
      let hash2 = p.ripemd160 (p.sha256 input_key) in
      0 ∷ (take 20 hash2 ++ take 4 (p.sha256 (p.sha256 hash2)))

  unfoldable pub check_signature : Bytes → Bytes → Bytes → Bool
  check_signature bytes signature signing_key = p.ed25519_verify signature bytes signing_key == 1

  unfoldable pub sign_with_private_key : Bytes → Bytes → Bytes → Bytes
  sign_with_private_key bytes pub_key priv_key = p.ed25519_sign bytes pub_key priv_key
