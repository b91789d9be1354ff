-- ===== src/RequestManager/Keeping.antt =====
-- What every request keeps: a chain whose stores and members agree, and a pool that fits into a block.
pub mod Pool
use shifupool.Base.{
  ℕ, ◌≡◌, ◌≢◌, refl, sym, ap, ◌∙◌, Bool, true, false, not, Option, none, some, [], ◌∷◌, List, map,
  Bytes, bytes_eq, leb, Result, returned, threw, Result-cases, step-cases, ◌+◌, returned_eq,
  threw-ne-returned, Option-cases, Bool-cases, inl, inr, ◌⊎◌, arith, Keeps, Keeps->>=, Action,
  ◌>>=◌, ◌>>◌, pure, if◌then◌else◌, seq_pure_state,
}
use shifupool.Crypto.Work.{add_work}
use shifupool.Transaction.{Transaction}
use shifupool.Block.{Block, get_difficulty}
use shifupool.Block
use shifupool.DataStore.{IsReliable}
use shifupool.Executor.{Accounts, for_each, execute_block, rollback}
use shifupool.Executor.Status.{ExecutionStatus, is_success}
use shifupool.MerkleTree.{set_items, hash_of}
use shifupool.MemPool.{MemPool, Node, Chain, finish_block, queued}
use shifupool.MemPool
use shifupool.MemPool.Bounds.{IsPool, finish_block-IsPool, add_transaction-IsPool}
use shifupool.RateLimiter.{limit}
use shifupool.BlockChain.{
  BlockChain, Setup, on_txdb, on_blocks, on_ledger, modify, update_difficulty, verify_transaction,
  get_current_mining_fee,
}
use shifupool.BlockChain.Changes.{
  add_block, check_header, execute_and_append, append_block, store_block, advance, save_totals,
  record_transaction, finish_in_pool,
}
use shifupool.BlockChain.Accept.{is_success-eq}
use shifupool.BlockChain.Stored.{IsSized, IsConsistent}
use shifupool.BlockChain.Stored.Totals.{IsText}
use shifupool.BlockChain.Stored.Adding.{Same-IsConsistent, add_block-IsConsistent}
use shifupool.BlockChain.Stored.Popping.{verify_transaction-Same}
use shifupool.RequestManager.Keeping.Pool.{HasPool, add_block-HasPool}
use shifupool.RequestManager.{
  RequestManager, accept_request, add_transaction, submit_proof_of_work, add_peer_at, pool_chain,
}

module _ {L B T : Type 0} (setup : Setup L B T) where
  open setup use {primitives, ledger_db, tx_db, blocks_db, text}

  -- What the requests rely on.
  pub record IsKept (s : RequestManager L B T) : Type 0 where
    pub chain : IsConsistent setup s.blockchain
    pub pool : HasPool setup s.blockchain

  -- The requests that change the node, with any outcome.
  pub data Request : RequestManager L B T → RequestManager L B T → Type 0 where
    accepting :
        {s : RequestManager L B T} (ip : Bytes) (now : ℕ)
        → Request s (accept_request setup ip now s).1
    adding : {s : RequestManager L B T} (t : Transaction) → Request s (add_transaction setup t s).1
    submitting :
        {s : RequestManager L B T} (network_time : ℕ) (neighbors : List Bytes) (block : Block)
        → IsSized block
        → Request s (submit_proof_of_work setup network_time neighbors block s).1
    meeting :
        {s : RequestManager L B T} (now : ℕ) (reachable : Bool) (check_point address : Bytes)
        (time : ℕ) (version : Bytes)
        → Request s (add_peer_at setup now reachable check_point address time version s).1

  -- Whatever holds of a chain and is kept by `verifyTransaction` is kept by the pool.
  add_transaction-chain :
      (P : BlockChain L B T → Type 0) (t : Transaction) (n : Node (BlockChain L B T))
      → Keeps P (verify_transaction setup t)
      → P n.chain
      → P (MemPool.add_transaction (pool_chain setup) t n).1.chain
  unfolding MemPool.add_transaction
  add_transaction-chain P t n keeps h = elim (Bool-cases (queued t n.pool.transaction_queue)) [
    | inl there ↦ rw there h
    | inr new ↦ elim (Result-cases (verify_transaction setup t n.chain).0) [
      | inr (ex, q) ↦ rw new (rw (q, MemPool.add_transaction) (keeps n.chain h))
      | inl (status, q) ↦ elim (Bool-cases (is_success status)) [
        | inl fine ↦ rw new (rw (q, MemPool.add_transaction) (rw fine (keeps n.chain h)))
        | inr failed ↦ rw new (rw (q, MemPool.add_transaction) (rw failed (keeps n.chain h)))
      ]
    ]
  ]

  add_transaction-IsKept :
      (t : Transaction) (s : RequestManager L B T) → IsKept s → IsKept (add_transaction setup t s).1
  unfolding add_transaction
  add_transaction-IsKept t s kept =
      let start : Node (BlockChain L B T) = record {
        pool = kept.pool.pool;
        chain = s.blockchain;
      } in
      let after = (MemPool.add_transaction (pool_chain setup) t start).1 in
      rw (kept.pool.there, add_transaction)
        (record {
          chain =
              Same-IsConsistent setup after.chain
                (record after.chain { mem_pool = some after.pool })
                (record { blocks = refl; count = refl; tip = refl; work = refl })
                (add_transaction-chain (IsConsistent setup) t start
                  (λ c h. Same-IsConsistent setup c _ (verify_transaction-Same setup t c) h)
                  kept.chain);
          pool = record {
            pool = after.pool;
            there = refl;
            good = add_transaction-IsPool (pool_chain setup) t start kept.pool.good;
          };
        })

  accept_request-chain :
      (ip : Bytes) (now : ℕ) (s : RequestManager L B T)
      → (accept_request setup ip now s).1.blockchain ≡ s.blockchain
  unfolding accept_request
  accept_request-chain ip now s = ground arith

  module _ (reliable : IsReliable blocks_db) (readable : IsText text) where
    submit_proof_of_work-IsKept :
        (network_time : ℕ) (neighbors : List Bytes) (block : Block) (s : RequestManager L B T)
        → IsSized block
        → IsKept s
        → IsKept (submit_proof_of_work setup network_time neighbors block s).1
    unfolding submit_proof_of_work
    submit_proof_of_work-IsKept network_time neighbors block s sized kept =
        elim (Bool-cases (leb block.id s.blockchain.num_blocks)) [
          | inl old ↦ rw old kept
          | inr new ↦
              let chain =
                add_block-IsConsistent setup reliable readable network_time block s.blockchain sized
                  kept.chain in
              let pool = add_block-HasPool setup network_time block s.blockchain kept.pool in
              elim (Result-cases (add_block setup network_time block s.blockchain).0) [
                | inr (ex, q) ↦
                    rw new (rw (q, submit_proof_of_work) (record { chain = chain; pool = pool }))
                | inl (status, q) ↦
                    rw new (rw (q, submit_proof_of_work) (record { chain = chain; pool = pool }))
              ]
        ]

    -- Over a reliable block store, where the text of a number is read back as the number,
    -- every request that changes a node (acceptRequest, addTransaction, submitProofOfWork
    -- with a block whose members have the sizes of their types, addPeer), with any outcome,
    -- keeps the chain consistent with its stores and the pool a set that fits into one block.
    pub Request-IsKept : {s s' : RequestManager L B T} → Request s s' → IsKept s → IsKept s'
    unfolding add_peer_at
    Request-IsKept (accepting {s} ip now) kept =
        let same = accept_request-chain ip now s in
        record { chain = rw same kept.chain; pool = rw same kept.pool }
    Request-IsKept (adding {s} t) kept = add_transaction-IsKept t s kept
    Request-IsKept (submitting {s} network_time neighbors block sized) kept =
        submit_proof_of_work-IsKept network_time neighbors block s sized kept
    Request-IsKept (meeting {s} now reachable check_point address time version) kept = record {
      chain = kept.chain;
      pool = kept.pool;
    }
