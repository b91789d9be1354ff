-- ===== src/Block.antt =====
-- c++/src/core/block.hpp and block.cpp: blocks and their headers. The conversions from and to JSON
-- are not modelled.
pub mod Codec
pub mod Equality
use shifupool.Base.{
  ℕ, ◌+◌, ◌*◌, ◌%◌, ◌≡◌, ◌<◌, Bool, true, false, not, List, [], ◌∷◌, ◌++◌, Bytes, bytes_eq, ◌==◌,
  if◌then◌else◌, IsBytes, length,
}
use shifupool.Words.{u32_mod, u64_mod, le_bytes}
use shifupool.Helpers.{
  read_network_uint32, read_network_uint64, read_network_sha256, write_network_uint32,
  write_network_uint64, write_network_sha256,
}
use shifupool.Crypto.{Primitives, null_sha256_hash, verify_hash}
use shifupool.Transaction.{Transaction, transaction_eq}

pub record BlockHeader : Type 0 where
  pub id : ℕ
  pub timestamp : ℕ
  pub difficulty : ℕ
  pub num_transactions : ℕ
  pub last_block_hash : Bytes
  pub merkle_root : Bytes
  pub nonce : Bytes

-- The sizes that the C++ types give.
pub record IsBlockHeader (b : BlockHeader) : Type 0 where
  pub id_small : b.id < u32_mod
  pub timestamp_small : b.timestamp < u64_mod
  pub difficulty_small : b.difficulty < u32_mod
  pub count_small : b.num_transactions < u32_mod
  pub last_block_hash_size : IsBytes 32 b.last_block_hash
  pub merkle_root_size : IsBytes 32 b.merkle_root
  pub nonce_size : IsBytes 32 b.nonce

-- `BLOCKHEADER_BUFFER_SIZE`
abbrev pub blockheader_buffer_size : ℕ
blockheader_buffer_size = 116

-- `blockHeaderFromBuffer`
unfoldable pub block_header_from_buffer : Bytes → BlockHeader
block_header_from_buffer b0 =
    let (id, b1) = read_network_uint32 b0 in
    let (timestamp, b2) = read_network_uint64 b1 in
    let (difficulty, b3) = read_network_uint32 b2 in
    let (num_transactions, b4) = read_network_uint32 b3 in
    let (last_block_hash, b5) = read_network_sha256 b4 in
    let (merkle_root, b6) = read_network_sha256 b5 in
    let (nonce, b7) = read_network_sha256 b6 in
    record {
      id = id;
      timestamp = timestamp;
      difficulty = difficulty;
      num_transactions = num_transactions;
      last_block_hash = last_block_hash;
      merkle_root = merkle_root;
      nonce = nonce;
    }

-- `blockHeaderToBuffer`, behind what `b0` holds already
unfoldable pub block_header_to_buffer : BlockHeader → Bytes → Bytes
block_header_to_buffer b b0 =
    let b1 = write_network_uint32 b0 b.id in
    let b2 = write_network_uint64 b1 b.timestamp in
    let b3 = write_network_uint32 b2 b.difficulty in
    let b4 = write_network_uint32 b3 b.num_transactions in
    let b5 = write_network_sha256 b4 b.last_block_hash in
    let b6 = write_network_sha256 b5 b.merkle_root in write_network_sha256 b6 b.nonce

pub record Block : Type 0 where
  pub id : ℕ
  pub timestamp : ℕ
  pub difficulty : ℕ
  pub transactions : List Transaction
  pub merkle_root : Bytes
  pub last_block_hash : Bytes
  pub nonce : Bytes

-- `MIN_DIFFICULTY`
abbrev pub min_difficulty : ℕ
min_difficulty = 16

-- `Block()` at the time `now`
unfoldable pub new_block : ℕ → Block
new_block now = record {
  id = 1;
  timestamp = now;
  difficulty = min_difficulty;
  transactions = [];
  merkle_root = null_sha256_hash;
  last_block_hash = null_sha256_hash;
  nonce = null_sha256_hash;
}

-- `Block::addTransaction`
unfoldable pub add_transaction : Block → Transaction → Block
add_transaction b t = record b { transactions = b.transactions ++ (t ∷ []) }

-- the loop of `Block(const BlockHeader&, vector<Transaction>&)`
unfoldable pub add_all : Block → List Transaction → Block
add_all b [] = b
add_all b (t ∷ ts) = add_all (add_transaction b t) ts

unfoldable pub of_block_header : BlockHeader → List Transaction → Block
unfolding add_all add_transaction
of_block_header b transactions =
    add_all
      (record {
        id = b.id;
        timestamp = b.timestamp;
        difficulty = b.difficulty;
        transactions = [];
        merkle_root = b.merkle_root;
        last_block_hash = b.last_block_hash;
        nonce = b.nonce;
      })
      transactions

-- `Block::serialize`; the count is cut to a `uint32_t`.
unfoldable pub serialize : Block → BlockHeader
serialize b = record {
  id = b.id;
  timestamp = b.timestamp;
  difficulty = b.difficulty;
  num_transactions = length b.transactions % u32_mod;
  last_block_hash = b.last_block_hash;
  merkle_root = b.merkle_root;
  nonce = b.nonce;
}

-- `getDifficulty` returns a `uint8_t`, and `setDifficulty` takes one.
unfoldable pub get_difficulty : Block → ℕ
get_difficulty b = b.difficulty % 256

unfoldable pub set_difficulty : Block → ℕ → Block
set_difficulty b d = record b { difficulty = d % 256 }

module _ (p : Primitives) where
  -- `Block::getHash`
  unfoldable pub get_hash : Block → Bytes
  get_hash b =
      p.sha256 (
        b.merkle_root ++ (b.last_block_hash ++ (le_bytes 4 b.difficulty ++ le_bytes 8 b.timestamp)))

  -- `Block::verifyNonce`; the call of `verifyHash` cuts the difficulty to a `uint8_t`.
  unfoldable pub verify_nonce : Block → Bool → Bool
  verify_nonce b use_pufferfish =
      if bytes_eq b.last_block_hash null_sha256_hash
      then true
      else verify_hash p (get_hash b) b.nonce (b.difficulty % 256) use_pufferfish

-- the loop of `operator==` over two lists, whose lengths have been compared
transactions_eq : List Transaction → List Transaction → Bool
transactions_eq [] bs = true
transactions_eq (a ∷ as') [] = true
transactions_eq (a ∷ as') (b ∷ bs) =
    let rest = transactions_eq as' bs in if transaction_eq a b then rest else false

-- `operator==`
unfoldable pub block_eq : Block → Block → Bool
unfolding transactions_eq
block_eq a b =
    if not (b.id == a.id)
    then false
    else if not (bytes_eq b.nonce a.nonce)
    then false
    else if not (b.timestamp == a.timestamp)
    then false
    else if not (bytes_eq b.last_block_hash a.last_block_hash)
    then false
    else if not (b.difficulty == a.difficulty)
    then false
    else if not (bytes_eq b.merkle_root a.merkle_root)
    then false
    else if not (length a.transactions == length b.transactions)
    then false
    else transactions_eq a.transactions b.transactions
