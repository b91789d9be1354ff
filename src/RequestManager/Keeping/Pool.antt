-- ===== src/RequestManager/Keeping/Pool.antt =====
-- The chain's pool fits into a block whatever `addBlock` answers.
use shifupool.Base.{
  ℕ, ◌≡◌, refl, ap, ◌∙◌, some, [], bytes_eq, Result, Result-cases, step-cases, ◌+◌, Option-cases,
  Bool-cases, inl, inr, arith, Keeps, Keeps->>=, ◌>>=◌, seq_pure_state,
}
use shifupool.Crypto.Work.{add_work}
use shifupool.Block.{Block, get_difficulty}
use shifupool.Executor.{Accounts, execute_block, rollback}
use shifupool.Executor.Status.{ExecutionStatus, is_success}
use shifupool.MerkleTree.{set_items, hash_of}
use shifupool.MemPool.{MemPool, finish_block}
use shifupool.MemPool.Bounds.{IsPool, finish_block-IsPool}
use shifupool.BlockChain.{BlockChain, Setup, on_ledger, update_difficulty, get_current_mining_fee}
use shifupool.BlockChain.Changes.{
  add_block, check_header, execute_and_append, append_block, store_block, advance, save_totals,
  finish_in_pool,
}

module _ {L B T : Type 0} (setup : Setup L B T) where
  open setup use {primitives, ledger_db, tx_db, blocks_db, text}

  -- The chain points to a pool that fits into one block.
  pub record HasPool (c : BlockChain L B T) : Type 0 where
    pub pool : MemPool
    pub there : c.mem_pool ≡ some pool
    pub good : IsPool pool

  -- Where the pool is the same.
  moved : {c c' : BlockChain L B T} → c'.mem_pool ≡ c.mem_pool → HasPool c → HasPool c'
  moved same h = record { pool = h.pool; there = same ∙ h.there; good = h.good }

  store_block-pool :
      (block : Block) (c : BlockChain L B T)
      → (store_block setup block c).1.mem_pool ≡ finish_in_pool setup block c.mem_pool
  unfolding store_block
  store_block-pool block c = ground arith

  store_block-HasPool : (block : Block) → Keeps HasPool (store_block setup block)
  unfolding finish_in_pool
  store_block-HasPool block c h = record {
    pool = finish_block block h.pool;
    there = store_block-pool block c ∙ ap (finish_in_pool setup block) h.there;
    good = (finish_block-IsPool block h.pool h.good).0;
  }

  save_totals-pool : (c : BlockChain L B T) → (save_totals setup c).1.mem_pool ≡ c.mem_pool
  unfolding save_totals
  save_totals-pool c = ground arith

  update_difficulty-pool :
      (c : BlockChain L B T) → (update_difficulty setup c).1.mem_pool ≡ c.mem_pool
  unfolding update_difficulty
  update_difficulty-pool c = ground arith

  advance-HasPool : (block : Block) → Keeps HasPool (advance setup block)
  unfolding advance
  advance-HasPool block c h =
      let grown = record c {
        num_blocks = c.num_blocks + 1;
        total_work = add_work c.total_work (get_difficulty block);
      } in
      elim (step-cases (save_totals setup) grown) [
        | inl q ↦ rw (q, ◌>>=◌) (moved (update_difficulty-pool _ ∙ save_totals-pool grown) h)
        | inr (ex, q) ↦ rw (q, ◌>>=◌) (moved (save_totals-pool grown) h)
      ]

  append_block-HasPool : (block : Block) → Keeps HasPool (append_block setup block)
  unfolding append_block
  append_block-HasPool block =
      Keeps->>= HasPool (store_block setup block) (λ _. advance setup block)
        (store_block-HasPool block) (λ _. advance-HasPool block)

  execute_and_append-HasPool : (block : Block) → Keeps HasPool (execute_and_append setup block)
  unfolding execute_and_append
  execute_and_append-HasPool block c h = elim (Result-cases start.0) [
    | inr (ex, q) ↦ rw (q, execute_and_append) (moved refl h)
    | inl (status, q) ↦ elim (Bool-cases (is_success status)) [
      | inl fine ↦
          rw (q, execute_and_append)
            (rw fine (
              rw (seq_pure_state (append_block setup block) status executed)
                (append_block-HasPool block executed (moved refl h))))
      | inr failed ↦
          rw (q, execute_and_append)
            (rw failed (
              rw (seq_pure_state (on_ledger (rollback ledger_db start.1.deltas)) status executed)
                (moved refl h)))
    ]
  ]
    where
      start : Result ExecutionStatus × Accounts L
      start =
          execute_block primitives ledger_db tx_db block c.txdb (get_current_mining_fee c)
            (record { ledger = c.ledger; deltas = [] })

      executed : BlockChain L B T
      executed = record c { ledger = start.1.ledger }

  pub add_block-HasPool :
      (network_time : ℕ) (block : Block) → Keeps HasPool (add_block setup network_time block)
  unfolding add_block
  add_block-HasPool network_time block c h =
      elim (Result-cases (check_header setup network_time block c)) [
        | inr (ex, q) ↦ rw (q, add_block) h
        | inl (status, q) ↦ elim (Bool-cases (is_success status)) [
          | inr failed ↦ rw (q, add_block) (rw failed h)
          | inl fine ↦ elim (Option-cases (set_items primitives block.transactions).1) [
            | inl empty ↦ rw (q, add_block) (rw fine (rw (empty, add_block) h))
            | inr (root, there) ↦ elim (Bool-cases (bytes_eq block.merkle_root (hash_of root))) [
              | inr other ↦ rw (q, add_block) (rw fine (rw (there, add_block) (rw other h)))
              | inl same ↦
                  rw (q, add_block)
                    (rw fine (rw (there, add_block) (rw same (execute_and_append-HasPool _ c h))))
            ]
          ]
        ]
      ]
