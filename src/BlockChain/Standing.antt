-- ===== src/BlockChain/Standing.antt =====
-- A block that `addBlock` accepted stands in the ledger, and is read back from the store.
use shifupool.Base.{
  ℕ, ◌+◌, ◌≡◌, ◌<◌, refl, sym, ap, ◌∙◌, Bool, true, false, [], arith, Result, returned, returned_eq,
  threw-ne-returned, Result-cases, Bool-cases, Option-cases, step-cases, inl, inr, ◌>>=◌, bytes_eq,
  length,
}
use shifupool.Block.{Block, get_difficulty}
use shifupool.Block
use shifupool.DataStore.{IsReliable}
use shifupool.BlockStore
use shifupool.Words.{u32_mod}
use shifupool.Crypto.Work.{add_work}
use shifupool.BlockStore.Blocks.{get_block-set_block}
use shifupool.Executor.{rollback, Accounts, execute_block}
use shifupool.Executor.Status.{ExecutionStatus, is_success}
use shifupool.BlockChain.Accept.{seq_pure, is_success-eq}
use shifupool.BlockChain.Linkage.{check_header-Fits}
use shifupool.MerkleTree.{set_items, sort_items, hash_of}
use shifupool.MerkleTree.Order.{length-sort_items}
use shifupool.BlockChain.{on_ledger, BlockChain, Setup, get_current_mining_fee, update_difficulty}
use shifupool.BlockChain.Changes.{
  store_block, advance, append_block, execute_and_append, add_block, check_header,
}
use shifupool.BlockChain.Stored.{IsSized}
use shifupool.BlockChain.Stored.Totals.{
  IsText, save_totals-step, with_totals, get_block-with_totals,
}
use shifupool.BlockChain.Stored.Adding.{
  refused, written, store_block-Stored, small_id, sorted-IsSized,
}
use shifupool.BlockChain.Reread.{rereads}

module _ {L B T : Type 0} (setup : Setup L B T) where
  open setup use {primitives, ledger_db, blocks_db, tx_db, text, stale}

  module _ (reliable : IsReliable blocks_db) (readable : IsText text) where
    -- A block whose transactions stand in the ledger `l'`, and which is read back from the store `d`.
    pub record Standing (block : Block) (c : BlockChain L B T) (d : B) (l' : L) : Type 0 where
      pub ran :
          (execute_block primitives ledger_db tx_db block c.txdb
            (get_current_mining_fee c)
            (record { ledger = c.ledger; deltas = [] })).0
          ≡ returned ExecutionStatus.success
      pub ledger :
          l'
          ≡ (execute_block primitives ledger_db tx_db block c.txdb
              (get_current_mining_fee c)
              (record { ledger = c.ledger; deltas = [] })).1.ledger
      pub found :
          BlockStore.get_block blocks_db stale d block.id
          ≡ returned (record block { transactions = rereads setup reliable block.transactions })

    -- What appending a block does to the ledger and to what is read under its number.
    record Appended (block : Block) (c c' : BlockChain L B T) : Type 0 where
      ledger : c'.ledger ≡ c.ledger
      found :
          BlockStore.get_block blocks_db stale c'.block_store block.id
          ≡ returned (record block { transactions = rereads setup reliable block.transactions })

    update_difficulty-kept :
        (c : BlockChain L B T)
        → ((update_difficulty setup c).1.ledger ≡ c.ledger)
          × ((update_difficulty setup c).1.block_store ≡ c.block_store)
    unfolding update_difficulty
    update_difficulty-kept c = ground arith

    store_block-ledger :
        (block : Block) (c : BlockChain L B T) → (store_block setup block c).1.ledger ≡ c.ledger
    unfolding store_block
    store_block-ledger block c = ground arith

    grown : Block → BlockChain L B T → BlockChain L B T
    grown block c = record c {
      num_blocks = c.num_blocks + 1;
      total_work = add_work c.total_work (get_difficulty block);
    }

    advance-Appended :
        (block : Block) (c : BlockChain L B T)
        → block.id < u32_mod
        → BlockStore.get_block blocks_db stale c.block_store block.id
          ≡ returned (record block { transactions = rereads setup reliable block.transactions })
        → Appended block c (advance setup block c).1
    unfolding advance grown
    advance-Appended block c small found =
        let saved : BlockChain L B T = record (grown block c) {
          block_store = with_totals setup reliable (grown block c);
          last_hash = Block.get_hash primitives block;
        } in
        let kept = update_difficulty-kept saved in
        rw (save_totals-step setup reliable (grown block c), ◌>>=◌)
          (rw (save_totals-step setup reliable (grown block c)) (record {
            ledger = kept.0;
            found =
                rw kept.1 (
                  get_block-with_totals setup reliable (grown block c) block.id _ small found refl);
          }))

    append_block-Appended :
        (block : Block) (c : BlockChain L B T)
        → IsSized block
        → length block.transactions < u32_mod
        → (append_block setup block c).0 ≡ returned tt
        → Appended block c (append_block setup block c).1
    unfolding append_block rereads
    append_block-Appended block c sized room e =
        elim (store_block-Stored setup reliable readable block c sized room) [
          | refused ex q same ↦ absurd (threw-ne-returned (rw (q, ◌>>=◌) at e))
          | written q same ↦
              let found =
                (get_block-set_block blocks_db reliable stale block c.block_store sized.header room
                  sized.transactions).2 in
              let a =
                advance-Appended block (store_block setup block c).1 (small_id block sized)
                  (rw same.blocks found) in
              rw (q, ◌>>=◌)
                (record { ledger = a.ledger ∙ store_block-ledger block c; found = a.found })
        ]

    execute_and_append-Standing :
        (block : Block) (c : BlockChain L B T)
        → IsSized block
        → length block.transactions < u32_mod
        → (execute_and_append setup block c).0 ≡ returned ExecutionStatus.success
        → Standing block c
            (execute_and_append setup block c).1.block_store
            (execute_and_append setup block c).1.ledger
    unfolding execute_and_append is_success
    execute_and_append-Standing block c sized room e = elim (Result-cases start.0) [
      | inr (ex, q) ↦ absurd (threw-ne-returned (rw (q, execute_and_append) at e))
      | inl (status, q) ↦ elim (Bool-cases (is_success status)) [
        | inr failed ↦ absurd (
            clash (
              sym (
                ap is_success (
                  seq_pure (on_ledger (rollback ledger_db start.1.deltas)) status
                    ExecutionStatus.success executed
                    (rw failed at rw (q, execute_and_append) at e)))
              ∙ failed))
        | inl fine ↦ elim (step-cases (append_block setup block) executed) [
          | inr (ex, bad) ↦
              absurd
                (threw-ne-returned (rw (bad, ◌>>=◌) at rw fine at rw (q, execute_and_append) at e))
          | inl done ↦
              let a = append_block-Appended block executed sized room done in
              rw (q, execute_and_append)
                (rw fine (
                  rw (done, ◌>>=◌)
                    (record {
                      ran = q ∙ ap returned (is_success-eq status fine);
                      ledger = a.ledger;
                      found = a.found;
                    })))
        ]
      ]
    ]
      where
        start : Result ExecutionStatus × Accounts L
        start =
            execute_block primitives ledger_db tx_db block c.txdb (get_current_mining_fee c)
              (record { ledger = c.ledger; deltas = [] })

        executed : BlockChain L B T
        executed = record c { ledger = start.1.ledger }

        clash : ◌≡◌ {A = Bool} true false → ⊥
        clash h = cc

    -- the block with its transactions in the order of the Merkle tree
    unfoldable pub sorted : Block → Block
    sorted block = record block { transactions = sort_items primitives block.transactions }

    pub add_block-Standing :
        (network_time : ℕ) (block : Block) (c : BlockChain L B T)
        → IsSized block
        → (add_block setup network_time block c).0 ≡ returned ExecutionStatus.success
        → Standing
            (sorted block)
            c
            (add_block setup network_time block c).1.block_store
            (add_block setup network_time block c).1.ledger
    unfolding add_block set_items is_success sorted
    add_block-Standing network_time block c sized e =
        elim (Result-cases (check_header setup network_time block c)) [
          | inr (ex, q) ↦ absurd (threw-ne-returned (rw (q, add_block) at e))
          | inl (status, q) ↦ elim (Bool-cases (is_success status)) [
            | inr failed ↦ absurd (
                clash (
                  sym (ap is_success (returned_eq (rw failed at rw (q, add_block) at e))) ∙ failed))
            | inl fine ↦ elim (Option-cases (set_items primitives block.transactions).1) [
              | inl empty ↦
                  absurd
                    (threw-ne-returned (rw (empty, add_block) at rw fine at rw (q, add_block) at e))
              | inr (root, there) ↦ elim (Bool-cases (bytes_eq block.merkle_root (hash_of root))) [
                | inr other ↦ absurd (
                    wrong_root (
                      returned_eq
                        (rw other at rw (there, add_block) at rw fine at rw (q, add_block) at e)))
                | inl same ↦
                    let fits =
                      check_header-Fits setup network_time block c
                        (q ∙ ap returned (is_success-eq status fine)) in
                    let room : length (sort_items primitives block.transactions) < u32_mod =
                      omega (arith, fits.small, length-sort_items primitives block.transactions) in
                    rw (q, add_block)
                      (rw fine (
                        rw (there, add_block)
                          (rw same (
                            execute_and_append-Standing (sorted block) c
                              (sorted-IsSized setup reliable readable block sized) room
                              (rw same at rw (there, add_block) at rw fine at rw (q, add_block) at
                                e)))))
              ]
            ]
          ]
        ]
      where
        clash : ◌≡◌ {A = Bool} true false → ⊥
        clash h = cc

        wrong_root :
            ◌≡◌ {A = ExecutionStatus} ExecutionStatus.invalid_merkle_root ExecutionStatus.success
            → ⊥
        wrong_root h = cc
