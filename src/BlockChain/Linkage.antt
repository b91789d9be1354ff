-- ===== src/BlockChain/Linkage.antt =====
-- What an accepted block satisfies, and what the chain is behind it.
use shifupool.Base.{
  ℕ, ◌+◌, ◌≡◌, ◌≢◌, ◌≤◌, refl, sym, ap, ◌∙◌, Bool, true, false, some, [], bytes_eq, bytes_eq_iff,
  ==_iff, Result, returned, threw, returned_eq, threw-ne-returned, step-cases, ◌>>=◌, arith, length,
  Bool-cases, Option-cases, inl, inr,
}
use shifupool.Crypto.Work.{add_work}
use shifupool.Block.{Block, verify_nonce, get_difficulty}
use shifupool.Block
use shifupool.Executor.{Accounts, execute_block, rollback}
use shifupool.Executor.Status.{ExecutionStatus, is_success}
use shifupool.MerkleTree.{HashTree, set_items, hash_of}
use shifupool.MemPool.{max_transactions_per_block}
use shifupool.BlockChain.{BlockChain, Setup, on_ledger, update_difficulty, get_current_mining_fee}
use shifupool.BlockChain.Changes.{
  check_header, execute_and_append, store_block, save_totals, advance, append_block, add_block,
}
use shifupool.BlockChain.Accept.{seq_pure, is_success-eq}

wrong_root : ExecutionStatus.invalid_merkle_root ≢ ExecutionStatus.success
wrong_root h = cc

true-ne-false : ◌≡◌ {A = Bool} true false → ⊥
true-ne-false e = cc

module _ {L B T : Type 0} (setup : Setup L B T) where
  open setup use {primitives, use_pufferfish}

  -- A block that fits onto the chain `c`.
  pub record Fits (block : Block) (c : BlockChain L B T) : Type 0 where
    pub next : block.id ≡ c.num_blocks + 1
    pub linked : block.last_block_hash ≡ c.last_hash
    pub hard : get_difficulty block ≡ c.difficulty
    pub worked : verify_nonce primitives block use_pufferfish ≡ true
    pub small : length block.transactions ≤ max_transactions_per_block

  -- The chain `c'` is `c` with this block on top.
  pub record Extends (block : Block) (c c' : BlockChain L B T) : Type 0 where
    pub count : c'.num_blocks ≡ c.num_blocks + 1
    pub work : c'.total_work ≡ add_work c.total_work (get_difficulty block)
    pub tip : c'.last_hash ≡ Block.get_hash primitives block

  pub check_header-Fits :
      (network_time : ℕ) (block : Block) (c : BlockChain L B T)
      → check_header setup network_time block c ≡ returned ExecutionStatus.success
      → Fits block c
  unfolding check_header
  check_header-Fits network_time block c e = record {
    next = ground (arith, ==_iff block.id (c.num_blocks + 1));
    linked = ground (arith, bytes_eq_iff block.last_block_hash c.last_hash);
    hard = ground arith;
    worked = ground arith;
    small = ground arith;
  }

  -- The last step changes nothing but the difficulty.
  update_difficulty-kept :
      (c : BlockChain L B T)
      → ((update_difficulty setup c).1.num_blocks ≡ c.num_blocks)
        × ((update_difficulty setup c).1.total_work ≡ c.total_work)
        × ((update_difficulty setup c).1.last_hash ≡ c.last_hash)
  unfolding update_difficulty
  update_difficulty-kept c = ground arith

  store_block-kept :
      (block : Block) (c : BlockChain L B T)
      → ((store_block setup block c).1.num_blocks ≡ c.num_blocks)
        × ((store_block setup block c).1.total_work ≡ c.total_work)
  unfolding store_block
  store_block-kept block c = ground arith

  save_totals-kept :
      (c : BlockChain L B T)
      → ((save_totals setup c).1.num_blocks ≡ c.num_blocks)
        × ((save_totals setup c).1.total_work ≡ c.total_work)
  unfolding save_totals
  save_totals-kept c = ground arith

  -- the chain with the new count and the new work
  grown : Block → BlockChain L B T → BlockChain L B T
  grown block c = record c {
    num_blocks = c.num_blocks + 1;
    total_work = add_work c.total_work (get_difficulty block);
  }

  advance-Extends :
      (block : Block) (c : BlockChain L B T)
      → (advance setup block c).0 ≡ returned tt
      → Extends block c (advance setup block c).1
  unfolding advance grown
  advance-Extends block c e = elim (step-cases (save_totals setup) (grown block c)) [
    | inr (ex, q) ↦ absurd (threw-ne-returned (rw (q, ◌>>=◌) at e))
    | inl q ↦
        let saved = (save_totals setup (grown block c)).1 in
        let kept = save_totals-kept (grown block c) in
        let last =
          update_difficulty-kept (record saved { last_hash = Block.get_hash primitives block }) in
        rw (q, ◌>>=◌) (record { count = last.0 ∙ kept.0; work = last.1 ∙ kept.1; tip = last.2 })
  ]

  append_block-Extends :
      (block : Block) (c : BlockChain L B T)
      → (append_block setup block c).0 ≡ returned tt
      → Extends block c (append_block setup block c).1
  unfolding append_block
  append_block-Extends block c e = elim (step-cases (store_block setup block) c) [
    | inr (ex, q) ↦ absurd (threw-ne-returned (rw (q, ◌>>=◌) at e))
    | inl q ↦
        let kept = store_block-kept block c in
        let top = advance-Extends block (store_block setup block c).1 (rw (q, ◌>>=◌) at e) in
        rw (q, ◌>>=◌)
          (record {
            count = top.count ∙ ap (λ n. n + 1) kept.0;
            work = top.work ∙ ap (λ w. add_work w (get_difficulty block)) kept.1;
            tip = top.tip;
          })
  ]

  execute_and_append-Extends :
      (block : Block) (c : BlockChain L B T)
      → (execute_and_append setup block c).0 ≡ returned ExecutionStatus.success
      → Extends block c (execute_and_append setup block c).1
  unfolding execute_and_append is_success
  execute_and_append-Extends block c e = go start.0 refl
    where
      start : Result ExecutionStatus × Accounts L
      start =
          execute_block primitives setup.ledger_db setup.tx_db block c.txdb
            (get_current_mining_fee c) (record { ledger = c.ledger; deltas = [] })

      go :
          (r : Result ExecutionStatus)
          → start.0 ≡ r
          → Extends block c (execute_and_append setup block c).1
      go (threw ex) q = absurd (threw-ne-returned (rw (q, execute_and_append) at e))
      go (returned status) q = elim (Bool-cases (is_success status)) [
        | inl fine ↦
            let left = rw fine at rw (q, execute_and_append) at e in
            rw (q, execute_and_append)
              (rw fine
                (elim (step-cases (append_block setup block)
                  (record c { ledger = start.1.ledger })) [
                    | inr (ex, bad) ↦ absurd (threw-ne-returned (rw (bad, ◌>>=◌) at left))
                    | inl done ↦
                        let top =
                          append_block-Extends block (record c { ledger = start.1.ledger }) done in
                        rw (done, ◌>>=◌)
                          (record { count = top.count; work = top.work; tip = top.tip })
                  ]))
        | inr failed ↦
            let left = rw failed at rw (q, execute_and_append) at e in
            let same =
              seq_pure (on_ledger (rollback setup.ledger_db start.1.deltas)) status
                ExecutionStatus.success (record c { ledger = start.1.ledger }) left in
            absurd (true-ne-false (sym (ap is_success same) ∙ failed))
      ]

  -- A block that addBlock accepts is the next one, names the last block's hash, has the asked
  -- difficulty and the work for it, at most 25000 transactions and the root of its Merkle tree,
  -- and the chain behind it has one block more, its work added and its hash as the last.
  pub add_block-accepted :
      (network_time : ℕ) (block : Block) (c : BlockChain L B T)
      → (add_block setup network_time block c).0 ≡ returned ExecutionStatus.success
      → Fits block c
        × ((root : HashTree) × ((set_items primitives block.transactions).1 ≡ some root)
            × (block.merkle_root ≡ hash_of root))
        × Extends block c (add_block setup network_time block c).1
  unfolding add_block Block.get_hash get_difficulty is_success
  add_block-accepted network_time block c e = go (check_header setup network_time block c) refl
    where
      go :
          (r : Result ExecutionStatus)
          → check_header setup network_time block c ≡ r
          → Fits block c
            × ((root : HashTree) × ((set_items primitives block.transactions).1 ≡ some root)
                × (block.merkle_root ≡ hash_of root))
            × Extends block c (add_block setup network_time block c).1
      go (threw ex) q = absurd (threw-ne-returned (rw (q, add_block) at e))
      go (returned early) q = elim (Bool-cases (is_success early)) [
        | inr failed ↦
            let same = returned_eq (rw failed at rw (q, add_block) at e) in
            absurd (true-ne-false (sym (ap is_success same) ∙ failed))
        | inl fine ↦ elim (Option-cases (set_items primitives block.transactions).1) [
          | inl none_there ↦
              absurd (
                threw-ne-returned (rw (none_there, add_block) at rw fine at rw (q, add_block) at e))
          | inr (root, there) ↦ elim (Bool-cases (bytes_eq block.merkle_root (hash_of root))) [
            | inr other ↦
                let same =
                  returned_eq
                    (rw other at rw (there, add_block) at rw fine at rw (q, add_block) at e) in
                absurd (wrong_root same)
            | inl same ↦
                let left = rw same at rw (there, add_block) at rw fine at rw (q, add_block) at e in
                let top = execute_and_append-Extends _ c left in
                (
                  check_header-Fits network_time block c
                      (q ∙ ap returned (is_success-eq early fine)),
                  (root, there, (bytes_eq_iff block.merkle_root (hash_of root)).0 same),
                  rw (q, add_block)
                      (rw fine (
                        rw (there, add_block)
                          (rw same
                            (record { count = top.count; work = top.work; tip = top.tip })))),
                )
          ]
        ]
      ]
