-- ===== src/MiningProblem.antt =====
-- c++/src/miningproblem/main.cpp: the blocks that the mining client builds from the waiting transactions
-- of a node. `zeros` is in Crypto/Work; the loop that fetches, mines and submits is not modelled.
use shifupool.Base.{ℕ, zero, suc, ◌/◌, max, Option, none, some, List, [], ◌∷◌, Bytes, drop, length}
use shifupool.Words.{add64}
use shifupool.Crypto.{Primitives}
use shifupool.Crypto.Hex.{string_to_sha256}
use shifupool.Transaction.{
  Transaction, transaction_info_from_buffer, of_transaction_info, new_mining_fee,
  transactioninfo_buffer_size,
}
use shifupool.Block.{Block, add_all, add_transaction, new_block, set_difficulty}
use shifupool.MerkleTree.{set_items, hash_of}

module _ (p : Primitives) where
  -- the loop over `n` images
  read_transactions : Bytes → ℕ → Bytes → List Transaction
  read_transactions stale zero curr = []
  read_transactions stale (suc n) curr =
      of_transaction_info stale (transaction_info_from_buffer p curr)
      ∷ read_transactions stale n (drop transactioninfo_buffer_size curr)

  -- `readRawTransactions`
  unfoldable pub read_raw_transactions : Bytes → Bytes → List Transaction
  unfolding read_transactions
  read_raw_transactions stale bytes =
      read_transactions stale (length bytes / transactioninfo_buffer_size) bytes

  -- The transactions are sorted in place, and the root is set; `none` where the source reads the front
  -- of an empty queue.
  unfoldable pub with_merkle_root : Block → Option Block
  with_merkle_root b =
      let (sorted, tree) = set_items p b.transactions in
      elim tree [
        | none ↦ none
        | some root ↦ some (record b { transactions = sorted; merkle_root = hash_of root })
      ]

  unfoldable pub add_txs_to_block : Block → List Transaction → Option Block
  add_txs_to_block b transactions = with_merkle_root (add_all b transactions)

  -- `make_work_block` at the time `now`; `last_timestamp` is the number that the text stands for.
  unfoldable pub make_work_block : Transaction → ℕ → Bytes → ℕ → ℕ → ℕ → ℕ → Bytes → Option Block
  make_work_block stale now wallet id difficulty mining_fee last_timestamp last_hash_str =
      let fee = new_mining_fee stale wallet mining_fee now in
      let stamped = record (new_block now) {
        id = id;
        timestamp = max now (add64 last_timestamp 1);
      } in
      elim (with_merkle_root (add_transaction stamped fee)) [
        | none ↦ none
        | some b ↦ some (record (set_difficulty b difficulty) {
          last_block_hash = string_to_sha256 last_hash_str;
        })
      ]
