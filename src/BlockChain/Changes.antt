-- ===== src/BlockChain/Changes.antt =====
-- `BlockChain::addBlock`, `popBlock`, `resetChain` and `initChain`: what changes the chain.
use shifupool.Base.{
  ℕ, ◌+◌, ◌-◌, ◌^◌, not, Option, none, some, [], bytes_eq, ltb, ◌==◌, if◌then◌else◌, length, Result,
  returned, threw, Exception, Action, ◌>>=◌, ◌>>◌, pure, throw, reads,
}
use shifupool.Crypto.{null_sha256_hash}
use shifupool.Crypto.Work.{add_work}
use shifupool.Transaction.{Transaction}
use shifupool.Block.{Block, min_difficulty, verify_nonce, get_difficulty}
use shifupool.Block
use shifupool.DataStore.{clear}
use shifupool.TxStore
use shifupool.BlockStore
use shifupool.Executor.{execute_block, rollback, rollback_block, for_each}
use shifupool.Executor.Status.{ExecutionStatus, is_success}
use shifupool.MerkleTree.{set_items, hash_of}
use shifupool.MemPool.{MemPool, finish_block, max_transactions_per_block}
use shifupool.BlockChain.{
  BlockChain, Setup, on_ledger, on_blocks, on_txdb, modify, get_current_mining_fee, get_block,
  check_timestamp, update_difficulty,
}

module _ {L B T : Type 0} (setup : Setup L B T) where
  open setup use {primitives, ledger_db, blocks_db, tx_db, text, genesis, use_pufferfish, stale}

  -- The early returns of `addBlock` before the Merkle tree; a success means that there was none.
  unfoldable pub check_header : ℕ → Block → BlockChain L B T → Result ExecutionStatus
  check_header network_time block c =
      if ltb max_transactions_per_block (length block.transactions)
      then returned ExecutionStatus.invalid_transaction_count
      else if not (block.id == c.num_blocks + 1)
      then returned ExecutionStatus.invalid_block_id
      else if not (get_difficulty block == c.difficulty)
      then returned ExecutionStatus.invalid_difficulty
      else if not (verify_nonce primitives block use_pufferfish)
      then returned ExecutionStatus.invalid_nonce
      else if not (bytes_eq block.last_block_hash c.last_hash)
      then returned ExecutionStatus.invalid_lastblock_hash
      else check_timestamp setup network_time block c

  -- `if (!t.isFee()) this->txdb.insertTransaction(t, block.getId());`
  unfoldable pub record_transaction : ℕ → Transaction → Action T (Unit {0})
  record_transaction id t =
      if not t.is_transaction_fee then TxStore.insert_transaction primitives tx_db t id else pure tt

  -- `this->memPool->finishBlock(block)`, if there is a pool
  unfoldable pub finish_in_pool : Block → Option MemPool → Option MemPool
  finish_in_pool block none = none
  finish_in_pool block (some m) = some (finish_block block m)

  -- The two numbers that are kept on disk.
  unfoldable pub save_totals : Action (BlockChain L B T) (Unit {0})
  save_totals = do
    (λ c. on_blocks (BlockStore.set_total_work blocks_db text c.total_work) c)
    (λ c. on_blocks (BlockStore.set_block_count blocks_db c.num_blocks) c)

  -- What `addBlock` does after a successful execution: the pool and the stores first,
  unfoldable pub store_block : Block → Action (BlockChain L B T) (Unit {0})
  store_block block = do
    modify (λ c. record c { mem_pool = finish_in_pool block c.mem_pool })
    on_txdb (for_each (record_transaction block.id) block.transactions)
    on_blocks (BlockStore.set_block blocks_db block)

  -- then the members.
  unfoldable pub advance : Block → Action (BlockChain L B T) (Unit {0})
  advance block = do
    modify (λ c. record c {
      num_blocks = c.num_blocks + 1;
      total_work = add_work c.total_work (get_difficulty block);
    })
    save_totals
    modify (λ c. record c { last_hash = Block.get_hash primitives block })
    update_difficulty setup

  unfoldable pub append_block : Block → Action (BlockChain L B T) (Unit {0})
  append_block block = store_block block >> advance block

  -- `ExecuteBlock`, and then either the rollback of its changes or the new block
  unfoldable pub execute_and_append : Block → Action (BlockChain L B T) ExecutionStatus
  execute_and_append block c =
      let (r, a) =
        execute_block primitives ledger_db tx_db block c.txdb (get_current_mining_fee c)
          (record { ledger = c.ledger; deltas = [] }) in
      let executed = record c { ledger = a.ledger } in
      elim r [
        | threw e ↦ (threw e, executed)
        | returned status ↦
            if is_success status
            then (append_block block >> pure status) executed
            else (on_ledger (rollback ledger_db a.deltas) >> pure status) executed
      ]

  -- `addBlock`. `setItems` sorts the transactions of the block in place; without a transaction it reads
  -- the front of an empty queue.
  unfoldable pub add_block : ℕ → Block → Action (BlockChain L B T) ExecutionStatus
  add_block network_time block c = elim (check_header network_time block c) [
    | threw e ↦ (threw e, c)
    | returned status ↦
        if not (is_success status)
        then (returned status, c)
        else (let (sorted, tree) = set_items primitives block.transactions in
            elim tree [
              | none ↦ (threw Exception.undefined_behaviour, c)
              | some root ↦
                  if not (bytes_eq block.merkle_root (hash_of root))
                  then (returned ExecutionStatus.invalid_merkle_root, c)
                  else execute_and_append (record block { transactions = sorted }) c
            ])
  ]

  -- What `addBlock` leaves in its argument once it has come to the Merkle tree.
  unfoldable pub sorted_block : Block → Block
  sorted_block block = record block { transactions = (set_items primitives block.transactions).0 }

  -- The genesis block has to be accepted.
  unfoldable pub add_genesis : ℕ → Action (BlockChain L B T) (Unit {0})
  add_genesis network_time = do
    status ← add_block network_time genesis
    if is_success status then pure tt else throw Exception.genesis_rejected

  -- The stores are cleared, and the genesis block is added at the time `network_time`.
  unfoldable pub reset_chain : ℕ → Action (BlockChain L B T) (Unit {0})
  reset_chain network_time = do
    modify (λ c. record c {
      difficulty = min_difficulty;
      target_block_count = 1;
      num_blocks = 0;
      total_work = 0;
      last_hash = null_sha256_hash;
    })
    on_ledger (clear ledger_db)
    on_blocks (clear blocks_db)
    on_txdb (clear tx_db)
    add_genesis network_time

  unfoldable pub init_chain : ℕ → Action (BlockChain L B T) (Unit {0})
  init_chain network_time c =
      if BlockStore.has_block_count blocks_db c.block_store
      then ((do
        count ← reads (λ c. BlockStore.get_block_count blocks_db c.block_store)
        modify (λ c. record c { num_blocks = count; target_block_count = count })
        last ← reads (λ c. BlockStore.get_block blocks_db stale c.block_store count)
        work ← reads (λ c. BlockStore.get_total_work blocks_db text c.block_store)
        modify (λ c. record c {
          total_work = work;
          difficulty = get_difficulty last;
          last_hash = Block.get_hash primitives last;
        }))
          c)
      else reset_chain network_time c

  -- `Executor::RollbackBlock(last, this->ledger, this->txdb)`
  unfoldable pub undo_block : Block → Action (BlockChain L B T) (Unit {0})
  undo_block last c =
      let (r, s) =
        rollback_block primitives ledger_db tx_db stale last
          (record { ledger = c.ledger; txdb = c.txdb }) in
      (r, record c { ledger = s.ledger; txdb = s.txdb })

  -- `popBlock` behind `RollbackBlock`: the members of the block below, or the genesis block anew.
  unfoldable pub find_tip : ℕ → Action (BlockChain L B T) (Unit {0})
  find_tip network_time c =
      if ltb 1 c.num_blocks
      then ((do
        new_last ← reads (λ c. get_block setup c c.num_blocks)
        modify (λ c. record c {
          difficulty = get_difficulty new_last;
          last_hash = Block.get_hash primitives new_last;
        }))
          c)
      else reset_chain network_time c

  -- The work of the last block is a part of the total, so that the subtraction does not stop at 0.
  unfoldable pub step_back : ℕ → Block → Action (BlockChain L B T) (Unit {0})
  step_back network_time last = do
    modify (λ c. record c {
      num_blocks = c.num_blocks - 1;
      total_work = c.total_work - 2 ^ get_difficulty last;
    })
    save_totals
    find_tip network_time

  unfoldable pub pop_block : ℕ → Action (BlockChain L B T) (Unit {0})
  pop_block network_time = do
    last ← reads (λ c. get_block setup c c.num_blocks)
    undo_block last
    step_back network_time last
