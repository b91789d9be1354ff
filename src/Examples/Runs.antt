-- ===== src/Examples/Runs.antt =====
-- The theorems on runs, restarts and searches, applied.
use shifupool.Base.{
  ℕ, ◌^◌, ◌≡◌, ◌<◌, refl, false, [], ◌∷◌, Bytes, arith, returned, replicate, bytes_eq,
}
use shifupool.Words.{u64_mod, of_le, le_bytes}
use shifupool.Crypto.Hex.{sha256_to_string, hex_encode}
use shifupool.TxStore.{has_transaction, insert_transaction}
use shifupool.Crypto.{check_signature, verify_hash, concat_hashes, sha256_with}
use shifupool.Crypto.Work.{check_leading_zero_bits}
use shifupool.Crypto.Mine.{mine_hash}
use shifupool.Crypto.Mine.Search.{Finds, mine_hash-Finds}
use shifupool.Transaction.{hash_contents}
use shifupool.Transaction
use shifupool.Block.{Block, IsBlockHeader}
use shifupool.Block
use shifupool.DataStore.{clear}
use shifupool.DataStore.Table.{table-IsReliable}
use shifupool.Executor.Status.{ExecutionStatus, is_success}
use shifupool.Executor.{execute_block, scan, scan_step, execute_all, update_ledger}
use shifupool.Executor
use shifupool.Ledger
use shifupool.BlockStore
use shifupool.MemPool.{finish_block}
use shifupool.MerkleTree.{before, set_items, hash_of, merge_queue, pad_queue, sort_items}
use shifupool.BlockChain.{BlockChain, check_timestamp, get_current_mining_fee, update_difficulty}
use shifupool.BlockChain.Changes.{
  add_block, check_header, execute_and_append, append_block, store_block, advance, save_totals,
  record_transaction, finish_in_pool, add_genesis, reset_chain, init_chain,
}
use shifupool.BlockChain.Retarget.{IsRetargeted, update_difficulty-IsRetargeted}
use shifupool.BlockChain.Undone.{IsBack, pop_block-add_block}
use shifupool.BlockChain.Changes.{pop_block}
use shifupool.BlockChain.Stored.{IsSized, IsConsistent}
use shifupool.BlockChain.Stored.Totals.{IsText}
use shifupool.BlockChain.Stored.Restart.{Restores, init_chain-Restores}
use shifupool.BlockChain.Stored.Steps.{started, next, adding, Run-IsConsistent}
use shifupool.Examples.{payment, flat, fee, block_of, Db, toy_setup, empty_chain, replicate-IsBytes}
use shifupool.Examples.Server.{fee-IsStorable, payment-IsStorable}

mine_hash-Finds_example :
    Finds flat [] 16 false (mine_hash flat u64_mod [] 16 false (replicate 32 5))
unfolding verify_hash check_leading_zero_bits concat_hashes
mine_hash-Finds_example =
    mine_hash-Finds flat [] 16 false u64_mod 7 (replicate 32 5) (omega arith) (omega arith) refl

pub toy-IsText : IsText toy_setup.text
toy-IsText = record { of_to = λ n. omega arith }

pub fee_block-IsSized : (id : ℕ) → id < 2 ^ 32 → IsSized (block_of id (fee ∷ []))
unfolding Block.serialize
fee_block-IsSized id small = record {
  header = record {
    id_small = small;
    timestamp_small = omega arith;
    difficulty_small = omega arith;
    count_small = omega arith;
    last_block_hash_size = replicate-IsBytes 32 0 (omega arith);
    merkle_root_size = replicate-IsBytes 32 0 (omega arith);
    nonce_size = replicate-IsBytes 32 0 (omega arith);
  };
  transactions = (fee-IsStorable, tt);
}

-- the genesis block, and a second block on top
abbrev pub genesis_only : BlockChain Db Db Db
genesis_only = (reset_chain toy_setup 25 empty_chain).1

abbrev two_blocks : BlockChain Db Db Db
two_blocks = (add_block toy_setup 25 (block_of 2 (fee ∷ [])) genesis_only).1

Run-IsConsistent_example : IsConsistent toy_setup two_blocks
Run-IsConsistent_example =
    Run-IsConsistent toy_setup (table-IsReliable Bytes) toy-IsText
      (fee_block-IsSized 1 (omega arith)) two_blocks
      (next (started 25 empty_chain)
        (adding 25 (block_of 2 (fee ∷ [])) (fee_block-IsSized 2 (omega arith))))

genesis_only-count : genesis_only.num_blocks ≡ 1
unfolding reset_chain clear add_genesis add_block check_header check_timestamp Block.get_difficulty
    Block.verify_nonce bytes_eq is_success set_items merge_queue pad_queue sort_items hash_of
    concat_hashes sha256_with Transaction.get_hash hash_contents execute_and_append execute_block
    scan scan_step execute_all update_ledger Executor.deposit Ledger.deposit Ledger.has_wallet
    Ledger.create_wallet Ledger.get_wallet_value Ledger.set_wallet_value get_current_mining_fee
    append_block store_block advance save_totals BlockStore.set_block BlockStore.set_total_work
    BlockStore.set_block_count update_difficulty record_transaction finish_in_pool finish_block
genesis_only-count = refl

init_chain-Restores_example :
    ((init_chain toy_setup 30 (record empty_chain { block_store = genesis_only.block_store })).0
      ≡ returned tt)
    × Restores toy_setup genesis_only
        (init_chain toy_setup 30 (record empty_chain { block_store = genesis_only.block_store })).1
init_chain-Restores_example =
    init_chain-Restores toy_setup 30 genesis_only
      (record empty_chain { block_store = genesis_only.block_store })
      (Run-IsConsistent toy_setup (table-IsReliable Bytes) toy-IsText
        (fee_block-IsSized 1 (omega arith)) genesis_only (started 25 empty_chain))
      (omega (arith, genesis_only-count)) refl

-- a third block, with a payment
abbrev third : Block
third = block_of 3 (fee ∷ payment ∷ [])

third-IsSized : IsSized third
unfolding Block.serialize
third-IsSized = record {
  header = record {
    id_small = omega arith;
    timestamp_small = omega arith;
    difficulty_small = omega arith;
    count_small = omega arith;
    last_block_hash_size = replicate-IsBytes 32 0 (omega arith);
    merkle_root_size = replicate-IsBytes 32 0 (omega arith);
    nonce_size = replicate-IsBytes 32 0 (omega arith);
  };
  transactions = (fee-IsStorable, (payment-IsStorable, tt));
}

two_blocks-third :
    (two_blocks.num_blocks ≡ 2)
    × ((add_block toy_setup 25 third two_blocks).0 ≡ returned ExecutionStatus.success)
unfolding reset_chain clear add_genesis add_block check_header check_timestamp Block.get_difficulty
    Block.verify_nonce bytes_eq is_success set_items merge_queue pad_queue sort_items hash_of
    concat_hashes sha256_with Transaction.get_hash hash_contents execute_and_append execute_block
    scan scan_step execute_all update_ledger Executor.deposit Ledger.deposit Ledger.has_wallet
    Ledger.create_wallet Ledger.get_wallet_value Ledger.set_wallet_value get_current_mining_fee
    append_block store_block advance save_totals BlockStore.set_block BlockStore.set_total_work
    BlockStore.set_block_count update_difficulty record_transaction finish_in_pool finish_block
    Executor.send Executor.transfer Executor.withdraw Ledger.withdraw Block.get_hash before
    Transaction.bytes_lt sha256_to_string hex_encode has_transaction Transaction.signature_valid
    check_signature of_le le_bytes insert_transaction
two_blocks-third = (refl, refl)

pop_block-add_block_example :
    IsBack toy_setup two_blocks (pop_block toy_setup 30 (add_block toy_setup 25 third two_blocks).1)
pop_block-add_block_example =
    pop_block-add_block toy_setup (table-IsReliable Bytes) toy-IsText (table-IsReliable Bytes)
      (table-IsReliable Bytes) 25 30 third two_blocks
      (Run-IsConsistent toy_setup (table-IsReliable Bytes) toy-IsText
        (fee_block-IsSized 1 (omega arith)) two_blocks
        (next (started 25 empty_chain)
          (adding 25 (block_of 2 (fee ∷ [])) (fee_block-IsSized 2 (omega arith)))))
      third-IsSized (omega (arith, two_blocks-third.0)) two_blocks-third.1

update_difficulty-IsRetargeted_example :
    IsRetargeted toy_setup two_blocks (update_difficulty toy_setup two_blocks)
update_difficulty-IsRetargeted_example = update_difficulty-IsRetargeted toy_setup two_blocks (
    Run-IsConsistent toy_setup (table-IsReliable Bytes) toy-IsText
      (fee_block-IsSized 1 (omega arith)) two_blocks
      (next (started 25 empty_chain)
        (adding 25 (block_of 2 (fee ∷ [])) (fee_block-IsSized 2 (omega arith)))))
