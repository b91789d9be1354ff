-- ===== src/Examples/Chain.antt =====
-- The theorems on the chain and the pool, applied.
use shifupool.Base.{
  ℕ, ◌-◌, ◌≡◌, ◌≤◌, refl, false, none, some, [], ◌∷◌, Bytes, arith, All, bytes_eq, returned,
}
use shifupool.Words.{le_bytes, of_le}
use shifupool.Helpers.{read_network_uint32, read_network_uint64, read_network_n_bytes}
use shifupool.Crypto.{concat_hashes, sha256_with}
use shifupool.Transaction.{Transaction, hash_contents}
use shifupool.Transaction
use shifupool.Block.{Block}
use shifupool.Block
use shifupool.DataStore.Table.{table-IsReliable}
use shifupool.Executor.Status.{ExecutionStatus, is_success}
use shifupool.Executor.{execute_block, scan, scan_step, execute_all, update_ledger}
use shifupool.Executor
use shifupool.Ledger
use shifupool.BlockStore
use shifupool.BlockStore.Layout.{header_image, header_of_image}
use shifupool.MemPool.{MemPool, Chain, Node, add_transaction, finish_block, has_transaction}
use shifupool.MemPool.Bounds.{IsPool, IsSorted, add_transaction-IsPool, finish_block-IsPool}
use shifupool.MemPool
use shifupool.BlockChain.{
  BlockChain, verify_transaction, get_wallet_value, check_timestamp, get_current_mining_fee,
  update_difficulty, in_chain, get_block,
}
use shifupool.BlockChain.Changes.{
  add_block, check_header, execute_and_append, append_block, store_block, advance, save_totals,
  record_transaction, finish_in_pool,
}
use shifupool.BlockChain.Accept.{
  LeavesNoTrace, verify_transaction-LeavesNoTrace, add_block-rejected,
}
use shifupool.BlockChain.Linkage.{Fits, Extends, add_block-accepted}
use shifupool.BlockChain.Sync.{Hosts, to_pop}
use shifupool.BlockChain.Agreement.{Agrees, to_pop-Agrees}
use shifupool.MerkleTree.{HashTree, set_items, hash_of, merge_queue, pad_queue, sort_items}
use shifupool.Examples.{flat, alice, fee, payment, block_of, Db, toy_setup, empty_chain}

-- alice has 5 coins
abbrev rich : BlockChain Db Db Db
rich = record empty_chain { ledger = (alice, le_bytes 8 50000) ∷ [] }

verify_transaction-LeavesNoTrace_example :
    ((status : ExecutionStatus) × ((verify_transaction toy_setup payment rich).0 ≡ returned status))
    × LeavesNoTrace toy_setup rich (verify_transaction toy_setup payment rich).1
verify_transaction-LeavesNoTrace_example =
    verify_transaction-LeavesNoTrace toy_setup (table-IsReliable Bytes) payment rich

-- a block whose mining fee is too low
abbrev cheap : Block
cheap = block_of 1 (record fee { amount = 7 } ∷ [])

add_block-rejected_example : LeavesNoTrace toy_setup rich (add_block toy_setup 25 cheap rich).1
unfolding add_block check_header check_timestamp Block.get_difficulty Block.verify_nonce bytes_eq
    is_success set_items merge_queue pad_queue sort_items hash_of concat_hashes sha256_with
    Transaction.get_hash hash_contents execute_and_append execute_block scan scan_step execute_all
    update_ledger get_current_mining_fee Executor.rollback
add_block-rejected_example =
    add_block-rejected toy_setup (table-IsReliable Bytes) 25 cheap rich
      ExecutionStatus.incorrect_mining_fee refl (λ e. cc)

abbrev good : Block
good = block_of 1 (fee ∷ [])

add_block-accepted_example :
    Fits toy_setup good rich
    × ((root : HashTree) × ((set_items flat (fee ∷ [])).1 ≡ some root)
        × (good.merkle_root ≡ hash_of root))
    × Extends toy_setup good rich (add_block toy_setup 25 good rich).1
unfolding add_block check_header check_timestamp Block.get_difficulty Block.verify_nonce bytes_eq
    is_success set_items merge_queue pad_queue sort_items hash_of concat_hashes sha256_with
    Transaction.get_hash hash_contents execute_and_append execute_block scan scan_step execute_all
    update_ledger Executor.deposit Ledger.deposit Ledger.has_wallet Ledger.create_wallet
    Ledger.get_wallet_value Ledger.set_wallet_value get_current_mining_fee append_block store_block
    advance save_totals BlockStore.set_block BlockStore.set_total_work BlockStore.set_block_count
    update_difficulty record_transaction finish_in_pool finish_block
add_block-accepted_example = add_block-accepted toy_setup 25 good rich refl

abbrev toy_chain : Chain (BlockChain Db Db Db)
toy_chain = record {
  verify_transaction = verify_transaction toy_setup;
  get_wallet_value = get_wallet_value toy_setup;
}

abbrev no_pool : MemPool
no_pool = record { mempool_outgoing = []; to_send = []; transaction_queue = [] }

no_pool-IsPool : IsPool no_pool
unfolding IsSorted MemPool.size
no_pool-IsPool = record { sorted = tt; small = omega arith }

add_transaction-IsPool_example :
    IsPool (add_transaction toy_chain payment (record { pool = no_pool; chain = rich })).1.pool
add_transaction-IsPool_example =
    add_transaction-IsPool toy_chain payment (record { pool = no_pool; chain = rich })
      no_pool-IsPool

abbrev one_pool : MemPool
one_pool = record {
  mempool_outgoing = (alice, 30000) ∷ [];
  to_send = [];
  transaction_queue = payment ∷ [];
}

one_pool-IsPool : IsPool one_pool
unfolding IsSorted MemPool.size
one_pool-IsPool = record { sorted = (tt, tt); small = omega arith }

finish_block-IsPool_example :
    IsPool (finish_block good one_pool)
    × All (λ t. has_transaction (finish_block good one_pool) t ≡ false) (fee ∷ [])
finish_block-IsPool_example = finish_block-IsPool good one_pool one_pool-IsPool

-- a host that shares no block with the chain
abbrev stranger : Hosts
stranger = record {
  good_host = [];
  block_count = 3;
  total_work = 9999999;
  block_hash = λ host i. [];
  read_raw_blocks = λ host i end. returned [];
  network_time = 30;
  special_blocks = λ i. none;
}

-- a chain of one block that is stored without transactions
abbrev one_block : BlockChain Db Db Db
one_block = record empty_chain {
  num_blocks = 1;
  block_store = (BlockStore.block_key 1, header_image (Block.serialize (block_of 1 []))) ∷ [];
}

to_pop-Agrees_example :
    (1 ≤ 1) × ((j : ℕ) → 1 ≤ j → j ≤ 1 - 1 → Agrees toy_setup stranger one_block j)
unfolding to_pop get_block in_chain BlockStore.get_block BlockStore.get_block_header bytes_eq
    header_image header_of_image Block.serialize BlockStore.get_block_transactions le_bytes
    read_network_uint32 of_le read_network_uint64 read_network_n_bytes Block.get_hash
to_pop-Agrees_example = to_pop-Agrees toy_setup stranger one_block 1 refl
