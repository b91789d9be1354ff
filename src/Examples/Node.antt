-- ===== src/Examples/Node.antt =====
-- The theorems on requests, on what hosts send each other and on Merkle proofs, applied.
use shifupool.Base.{
  ℕ, ◌≡◌, ◌<◌, ◌/◌, ◌^◌, refl, true, none, some, [], ◌∷◌, List, map, length, Bytes, arith, returned,
  bytes_eq, ◌⊎◌, ◌==◌, replicate, if◌then◌else◌,
}
use shifupool.Crypto.{concat_hashes, sha256_with}
use shifupool.Crypto.Hex.{sha256_to_string, hex_encode}
use shifupool.Transaction.{hash_contents}
use shifupool.Transaction
use shifupool.Block.{Block, IsBlockHeader}
use shifupool.Block
use shifupool.DataStore.{clear}
use shifupool.DataStore.Table.{table-IsReliable}
use shifupool.Executor.Status.{is_success}
use shifupool.Executor.{execute_block, scan, scan_step, execute_all, update_ledger}
use shifupool.Executor
use shifupool.Ledger
use shifupool.BlockStore
use shifupool.MemPool.{finish_block}
use shifupool.MerkleTree.{set_items, hash_of, merge_queue, pad_queue, sort_items, before}
use shifupool.BlockChain.{BlockChain, check_timestamp, get_current_mining_fee, update_difficulty}
use shifupool.BlockChain.{Setup}
use shifupool.Words.{le_bytes}
use shifupool.Crypto.{check_signature}
use shifupool.TxStore.{insert_transaction, has_transaction}
use shifupool.BlockChain.Changes.{
  sorted_block, add_block, check_header, execute_and_append, append_block, store_block, advance,
  save_totals, record_transaction, finish_in_pool, add_genesis, reset_chain,
}
use shifupool.BlockChain.Stored.Steps.{started, Run-IsConsistent}
use shifupool.Examples.{flat, fee, block_of, Db, toy_setup, empty_chain}
use shifupool.Examples.Server.{fee-IsStorable}
use shifupool.Transaction.{Transaction}
use shifupool.MemPool.{MemPool, get_raw}
use shifupool.MemPool.Bounds.{IsSorted}
use shifupool.MemPool
use shifupool.Executor.Status.{ExecutionStatus}
use shifupool.MerkleTree.{HashTree, leaf, node}
use shifupool.MerkleTree.Proof.{is_fringe, get_merkle_proof}
use shifupool.MerkleTree.Proof.Whole.{get_merkle_proof-root}
use shifupool.Crypto.{null_sha256_hash}
use shifupool.BlockStore.{get_raw_data, set_block}
use shifupool.Api.{block_to_buffer, parse_raw_blocks, parse_raw_transactions}
use shifupool.Api.Wire.{
  received, received_block, IsSentBlock, blocks_to_buffer, parse_raw_blocks-blocks_to_buffer,
  parse_raw_transactions_total,
}
use shifupool.Api.Wire.Served.{parse_raw_transactions-get_raw, parse_raw_blocks-get_raw_data}
use shifupool.DataStore.Table.{table}
use shifupool.HostManager.{HostManager}
use shifupool.RequestManager.{RequestManager, Submission, submit_proof_of_work}
use shifupool.RequestManager.Keeping.{IsKept, submitting, Request-IsKept}
use shifupool.RequestManager.Keeping.Pool.{HasPool}
use shifupool.RequestManager.Submitting.{IsForwarded, IsRefused, submit_proof_of_work-IsForwarded}
use shifupool.Examples.{alice, bob, payment}
use shifupool.Examples.Server.{payment-IsStorable}
use shifupool.Examples.Runs.{toy-IsText, fee_block-IsSized, genesis_only}

fee_block-IsSentBlock : (id : ℕ) → id < 2 ^ 32 → IsSentBlock (block_of id (fee ∷ []))
fee_block-IsSentBlock id small = record {
  header = (fee_block-IsSized id small).header;
  count = omega arith;
  transactions = (fee-IsStorable.info, tt);
}

parse_raw_blocks-blocks_to_buffer_example :
    parse_raw_blocks flat bob
      (blocks_to_buffer (block_of 1 (fee ∷ []) ∷ block_of 2 (fee ∷ []) ∷ []))
    ≡ returned (map (received_block flat bob) (block_of 1 (fee ∷ []) ∷ block_of 2 (fee ∷ []) ∷ []))
parse_raw_blocks-blocks_to_buffer_example =
    parse_raw_blocks-blocks_to_buffer flat bob (block_of 1 (fee ∷ [])) (block_of 2 (fee ∷ []) ∷ [])
      (fee_block-IsSentBlock 1 (omega arith)) (fee_block-IsSentBlock 2 (omega arith), tt)

parse_raw_transactions_total_example :
    (ts : List Transaction) × (parse_raw_transactions flat bob (1 ∷ 2 ∷ []) ≡ returned ts)
    × (length ts ≡ length {A = ℕ} (1 ∷ 2 ∷ []) / 149)
parse_raw_transactions_total_example = parse_raw_transactions_total flat bob (1 ∷ 2 ∷ [])

abbrev waiting : MemPool
waiting = record { mempool_outgoing = []; to_send = []; transaction_queue = payment ∷ [] }

parse_raw_transactions-get_raw_example :
    parse_raw_transactions flat bob (get_raw waiting)
    ≡ returned (map (received flat bob) waiting.transaction_queue)
parse_raw_transactions-get_raw_example =
    parse_raw_transactions-get_raw flat bob waiting (payment-IsStorable.info, tt)

parse_raw_blocks-get_raw_data_example :
    (bytes : Bytes) × (get_raw_data
        (table Bytes)
        (set_block (table Bytes) (block_of 1 (fee ∷ [])) []).1
        1
      ≡ returned bytes)
    × (parse_raw_blocks flat bob bytes
        ≡ returned (received_block flat bob (block_of 1 (fee ∷ [])) ∷ []))
parse_raw_blocks-get_raw_data_example =
    parse_raw_blocks-get_raw_data (table Bytes) (table-IsReliable Bytes) flat bob
      (block_of 1 (fee ∷ [])) [] (fee_block-IsSized 1 (omega arith)).header (omega arith)
      (fee-IsStorable, tt)

abbrev toy_root : HashTree
toy_root = node null_sha256_hash (leaf null_sha256_hash) (leaf null_sha256_hash)

get_merkle_proof-root_example :
    get_merkle_proof flat (set_items flat (fee ∷ payment ∷ [])).0 toy_root payment ≡ (
      if is_fringe flat (Transaction.get_hash flat payment) (set_items flat (fee ∷ payment ∷ [])).0
      then some toy_root
      else none)
unfolding set_items merge_queue pad_queue sort_items hash_of concat_hashes sha256_with
    Transaction.get_hash hash_contents before Transaction.bytes_lt sha256_to_string hex_encode
get_merkle_proof-root_example =
    get_merkle_proof-root flat (fee ∷ payment ∷ []) toy_root payment refl

abbrev nobody : HostManager
nobody = record {
  curr_peers = [];
  host_ping_times = [];
  peer_clock_deltas = [];
  hosts = [];
  blacklist = [];
  whitelist = [];
  address = [];
  version = [];
}

abbrev manager_of : BlockChain Db Db Db → RequestManager Db Db Db
manager_of c = record {
  blockchain = c;
  hosts = nobody;
  rate_limiter = record { n = 30; seconds = 5; c = [] };
  limit_requests = true;
}

genesis_only-HasPool : HasPool toy_setup genesis_only
unfolding IsSorted MemPool.size reset_chain clear add_genesis add_block check_header check_timestamp
    Block.get_difficulty Block.verify_nonce bytes_eq is_success set_items merge_queue pad_queue
    sort_items hash_of concat_hashes sha256_with Transaction.get_hash hash_contents
    execute_and_append execute_block scan scan_step execute_all update_ledger Executor.deposit
    Ledger.deposit Ledger.has_wallet Ledger.create_wallet Ledger.get_wallet_value
    Ledger.set_wallet_value get_current_mining_fee append_block store_block advance save_totals
    BlockStore.set_block BlockStore.set_total_work BlockStore.set_block_count update_difficulty
    record_transaction finish_in_pool finish_block MemPool.finish_transaction MemPool.queued
genesis_only-HasPool = record {
  pool = record { mempool_outgoing = []; to_send = []; transaction_queue = [] };
  there = refl;
  good = record { sorted = tt; small = omega arith };
}

Request-IsKept_example :
    IsKept toy_setup
      (submit_proof_of_work toy_setup 25
        (alice ∷ [])
        (block_of 2 (fee ∷ []))
        (manager_of genesis_only)).1
Request-IsKept_example =
    Request-IsKept toy_setup (table-IsReliable Bytes) toy-IsText
      (submitting 25 (alice ∷ []) (block_of 2 (fee ∷ [])) (fee_block-IsSized 2 (omega arith)))
      (record {
        chain =
            Run-IsConsistent toy_setup (table-IsReliable Bytes) toy-IsText
              (fee_block-IsSized 1 (omega arith)) genesis_only (started 25 empty_chain);
        pool = genesis_only-HasPool;
      })

-- A transaction with a signature has the hash of sevens, all else has the hash zero.
abbrev marked : Setup Db Db Db
marked = record toy_setup {
  primitives = record flat {
    sha256 = λ m. if length m == 96 then replicate 32 7 else null_sha256_hash;
  };
}

-- a block that the Merkle tree puts into another order
abbrev unsorted : Block
unsorted = block_of 1 (fee ∷ payment ∷ [])

abbrev accepted : Submission
accepted = record {
  status = ExecutionStatus.success;
  forwarded = (bob, block_to_buffer (block_of 1 (payment ∷ fee ∷ []))) ∷ [];
}

submit_proof_of_work-IsForwarded_example :
    IsForwarded marked
      (bob ∷ [])
      unsorted
      empty_chain
      (submit_proof_of_work marked 25 (bob ∷ []) unsorted (manager_of empty_chain)).1.blockchain
      accepted
    ⊎ IsRefused marked empty_chain
        (submit_proof_of_work marked 25 (bob ∷ []) unsorted (manager_of empty_chain)).1.blockchain
        accepted
unfolding submit_proof_of_work add_block check_header check_timestamp Block.get_difficulty
    Block.verify_nonce bytes_eq is_success set_items merge_queue pad_queue sort_items hash_of
    concat_hashes sha256_with Transaction.get_hash hash_contents execute_and_append execute_block
    scan scan_step execute_all update_ledger Executor.deposit Ledger.deposit Ledger.has_wallet
    Ledger.create_wallet Ledger.get_wallet_value Ledger.set_wallet_value get_current_mining_fee
    append_block store_block advance save_totals BlockStore.set_block BlockStore.set_total_work
    BlockStore.set_block_count update_difficulty record_transaction finish_in_pool finish_block
    sorted_block before Transaction.bytes_lt sha256_to_string hex_encode Block.get_hash
    Transaction.signature_valid insert_transaction has_transaction MemPool.finish_transaction
    MemPool.queued le_bytes check_signature
submit_proof_of_work-IsForwarded_example =
    submit_proof_of_work-IsForwarded marked (table-IsReliable Bytes) 25 (bob ∷ []) unsorted
      (manager_of empty_chain) accepted refl
