-- ===== src/Examples.antt =====
-- Concrete data for the theorems: weak stand-ins for the hash functions and signatures, keys, blocks
-- and a chain over tables in memory.
pub mod Wire
pub mod Rules
pub mod Server
pub mod Chain
pub mod Runs
pub mod Node
use shifupool.Base.{
  ℕ, zero, suc, ◌+◌, ◌%◌, ◌≡◌, ◌<◌, refl, Bool, true, false, Option, none, some, List, [], ◌∷◌,
  ◌++◌, Bytes, arith, All, length, replicate, IsBytes, bytes_eq, if◌then◌else◌,
}
use shifupool.Crypto.{Primitives, PrimitiveSizes, null_sha256_hash, null_address}
use shifupool.Transaction.{Transaction, TransactionInfo}
use shifupool.Block.{Block, BlockHeader}
use shifupool.DataStore.Table.{table}
use shifupool.MemPool.{MemPool}
use shifupool.BlockStore.{BigintText}
use shifupool.BlockChain.{BlockChain, Setup}

abbrev sum : Bytes → ℕ
sum [] = 0
sum (b ∷ bs) = b + sum bs

-- The sum of the bytes stands in for a hash; a signature is the hash of what is signed.
abbrev pub toy : Primitives
toy = record {
  sha256 = λ m. replicate 32 (sum m % 256);
  ripemd160 = λ m. replicate 20 (sum m % 256);
  pf_newhash = λ m. m;
  ed25519_sign = λ m public_key private_key. replicate 64 (sum m % 256);
  ed25519_verify = λ s m public_key. if bytes_eq s (replicate 64 (sum m % 256)) then 1 else 0;
}

small-replicate : (n b : ℕ) → b < 256 → All (λ x. x < 256) (replicate n b)
small-replicate zero b h = tt
small-replicate (suc n) b h = (h, small-replicate n b h)

length-replicate : (n b : ℕ) → length (replicate n b) ≡ n
length-replicate zero b = refl
length-replicate (suc n) b = omega (arith, length-replicate n b)

pub replicate-IsBytes : (n b : ℕ) → b < 256 → IsBytes n (replicate n b)
replicate-IsBytes n b h = record { size = length-replicate n b; small = small-replicate n b h }

pub toy-PrimitiveSizes : PrimitiveSizes toy
toy-PrimitiveSizes = record {
  sha256_size = λ m. replicate-IsBytes 32 (sum m % 256) (omega arith);
  ripemd160_size = λ m. replicate-IsBytes 20 (sum m % 256) (omega arith);
}

abbrev pub alice : Bytes
alice = replicate 25 1

abbrev pub bob : Bytes
bob = replicate 25 2

-- a mining fee of 50 coins for alice, and a payment of 3 coins to bob
abbrev pub fee : Transaction
fee = record {
  signature = replicate 64 0;
  signing_key = replicate 32 0;
  timestamp = 9;
  to = alice;
  from = null_address;
  amount = 500000;
  fee = 0;
  is_transaction_fee = true;
}

abbrev pub payment : Transaction
payment = record {
  signature = replicate 64 7;
  signing_key = replicate 32 3;
  timestamp = 10;
  to = bob;
  from = alice;
  amount = 30000;
  fee = 10;
  is_transaction_fee = false;
}

-- Every hash is zero and every signature is good.
abbrev pub flat : Primitives
flat = record {
  sha256 = λ m. null_sha256_hash;
  ripemd160 = λ m. replicate 20 0;
  pf_newhash = λ m. m;
  ed25519_sign = λ m public_key private_key. replicate 64 0;
  ed25519_verify = λ s m public_key. 1;
}

abbrev pub block_of : ℕ → List Transaction → Block
block_of id ts = record {
  id = id;
  timestamp = 20;
  difficulty = 16;
  transactions = ts;
  merkle_root = null_sha256_hash;
  last_block_hash = null_sha256_hash;
  nonce = null_sha256_hash;
}

abbrev pub Db : Type 0
Db = List (Bytes × Bytes)

abbrev pub toy_setup : Setup Db Db Db
toy_setup = record {
  primitives = flat;
  ledger_db = table Bytes;
  blocks_db = table Bytes;
  tx_db = table Bytes;
  text = record { to_text = λ n. n ∷ []; of_text = sum };
  genesis = block_of 1 (fee ∷ []);
  use_pufferfish = false;
  stale = null_address;
}

-- a chain that has no block yet
abbrev pub empty_chain : BlockChain Db Db Db
empty_chain = record {
  mem_pool = some (record { mempool_outgoing = []; to_send = []; transaction_queue = [] });
  num_blocks = 0;
  target_block_count = 1;
  total_work = 0;
  difficulty = 16;
  last_hash = null_sha256_hash;
  ledger = [];
  block_store = [];
  txdb = [];
}
