-- ===== src/BlockChain/Stored/Adding.antt =====
-- `addBlock` keeps the stores and the members of the chain in agreement, whatever it answers.
use shifupool.Base.{
  ℕ, suc, ◌+◌, ◌≡◌, ◌<◌, refl, sym, ap, ◌∙◌, true, List, [], map, bytes_eq, arith, length, Result,
  returned, threw, Result-cases, seq_pure_state, step-cases, Action, ◌>>=◌, Bool-cases,
  Option-cases, inl, inr, Exception,
}
use shifupool.Words.{u32_mod}
use shifupool.Crypto.Work.{add_work}
use shifupool.Transaction.{Transaction}
use shifupool.Block.{Block, IsBlockHeader, verify_nonce, get_difficulty}
use shifupool.Block
use shifupool.DataStore.{IsReliable}
use shifupool.BlockStore
use shifupool.BlockStore.Blocks.{IsStorable, reread, get_block-set_block}
use shifupool.BlockStore.Kept.{get_block-set_block_other, set_block-returned}
use shifupool.Executor.{Accounts, for_each, execute_block, rollback}
use shifupool.MerkleTree.{set_items, sort_items, hash_of}
use shifupool.MerkleTree.Order.{length-sort_items, All-sort_items}
use shifupool.BlockChain.Accept.{is_success-eq}
use shifupool.Executor.Status.{ExecutionStatus, is_success}
use shifupool.BlockChain.{
  BlockChain, Setup, on_txdb, on_ledger, get_current_mining_fee, update_difficulty,
}
use shifupool.BlockChain.Changes.{
  store_block, advance, append_block, execute_and_append, finish_in_pool, add_block, check_header,
  record_transaction,
}
use shifupool.BlockChain.Stored.{IsSized, Linked, IsConsistent, Linked-agree, on_top}
use shifupool.BlockChain.Stored.Totals.{IsText, save_totals-step, with_totals-IsChain}
use shifupool.BlockChain.Linkage.{Fits, check_header-Fits}

plus_one : (n : ℕ) → n + 1 ≡ suc n
plus_one n = omega arith

pub small_id : (block : Block) → IsSized block → block.id < u32_mod
unfolding Block.serialize
small_id block sized = sized.header.id_small

module _ {L B T : Type 0} (setup : Setup L B T) where
  open setup use {primitives, ledger_db, tx_db, blocks_db, text, use_pufferfish, stale}

  -- The four members that `IsConsistent` reads are the same.
  pub record Same (c c' : BlockChain L B T) : Type 0 where
    pub blocks : c'.block_store ≡ c.block_store
    pub count : c'.num_blocks ≡ c.num_blocks
    pub tip : c'.last_hash ≡ c.last_hash
    pub work : c'.total_work ≡ c.total_work

  pub Same-IsConsistent :
      (c c' : BlockChain L B T) → Same c c' → IsConsistent setup c → IsConsistent setup c'
  Same-IsConsistent c c' same h = rw (same.blocks, same.count, same.tip, same.work) h

  update_difficulty-Same : (c : BlockChain L B T) → Same c (update_difficulty setup c).1
  unfolding update_difficulty
  update_difficulty-Same c = record {
    blocks = ground arith;
    count = ground arith;
    tip = ground arith;
    work = ground arith;
  }

  module _ (reliable : IsReliable blocks_db) (readable : IsText text) where
    -- the block `b` is stored on top of the chain `c`
    record IsNext (b : Block) (c : BlockChain L B T) : Type 0 where
      linked : Linked setup c.block_store c.num_blocks c.last_hash c.total_work
      found : BlockStore.get_block blocks_db stale c.block_store (suc c.num_blocks) ≡ returned b
      named : b.id ≡ suc c.num_blocks
      link : b.last_block_hash ≡ c.last_hash
      worked : verify_nonce primitives b use_pufferfish ≡ true
      small : suc c.num_blocks < u32_mod

    -- the chain with the new count and the new work
    grown : Block → BlockChain L B T → BlockChain L B T
    grown block c = record c {
      num_blocks = c.num_blocks + 1;
      total_work = add_work c.total_work (get_difficulty block);
    }

    advance-IsConsistent :
        (block : Block) (ts : List Transaction) (c : BlockChain L B T)
        → IsNext (record block { transactions = ts }) c
        → IsConsistent setup (advance setup block c).1
    unfolding advance Block.get_hash get_difficulty grown
    advance-IsConsistent block ts c next =
        rw (save_totals-step setup reliable (grown block c), ◌>>=◌)
          (Same-IsConsistent _ _ (update_difficulty-Same _) (
            rw (save_totals-step setup reliable (grown block c)) (
              with_totals-IsChain setup reliable readable (grown block c)
                (Block.get_hash primitives block) (rw (plus_one c.num_blocks) next.small)
                (rw (plus_one c.num_blocks) (
                  on_top (record block { transactions = ts }) next.linked next.found next.named
                    next.link next.worked)))))

    -- Either the transactions could not be recorded, or the block was written.
    pub data Stored (block : Block) (c : BlockChain L B T) : Type 0 where
      refused :
          (ex : Exception)
          → (store_block setup block c).0 ≡ threw ex
          → Same c (store_block setup block c).1
          → Stored block c
      written :
          (store_block setup block c).0 ≡ returned tt
          → Same
              (record c { block_store = (BlockStore.set_block blocks_db block c.block_store).1 })
              (store_block setup block c).1
          → Stored block c

    pub store_block-Stored :
        (block : Block) (c : BlockChain L B T)
        → IsSized block
        → length block.transactions < u32_mod
        → Stored block c
    unfolding store_block
    store_block-Stored block c sized room =
        let recording : Action (BlockChain L B T) (Unit {0}) =
          on_txdb (for_each (record_transaction setup block.id) block.transactions) in
        elim (step-cases recording
          (record c { mem_pool = finish_in_pool setup block c.mem_pool })) [
            | inr (ex, q) ↦
                refused ex (rw (q, ◌>>=◌) refl)
                  (rw (q, ◌>>=◌) (record { blocks = refl; count = refl; tip = refl; work = refl }))
            | inl q ↦
                written
                  (rw (q, ◌>>=◌)
                    (set_block-returned blocks_db reliable block c.block_store room
                      sized.transactions))
                  (rw (q, ◌>>=◌) (record { blocks = refl; count = refl; tip = refl; work = refl }))
          ]

    rereads : Block → Block
    rereads block = record block {
      transactions = map (reread blocks_db reliable stale) block.transactions;
    }

    written-IsNext :
        (block : Block) (c s : BlockChain L B T)
        → IsConsistent setup c
        → Fits setup block c
        → IsSized block
        → Same (record c { block_store = (BlockStore.set_block blocks_db block c.block_store).1 }) s
        → IsNext (rereads block) s
    unfolding rereads Block.get_hash verify_nonce
    written-IsNext block c s h fits sized same =
        let room : length block.transactions < u32_mod = omega (arith, fits.small) in
        let id_small : block.id < u32_mod = small_id block sized in
        rw (same.blocks, same.count, same.tip, same.work)
          (record {
            linked =
                Linked-agree setup c.block_store _
                  (λ id b le e named.
                    get_block-set_block_other blocks_db reliable stale block c.block_store id b room
                      sized.transactions e named (omega (arith, fits.next, le)) id_small)
                  h.linked;
            found =
                rw (sym (fits.next ∙ plus_one c.num_blocks))
                  (get_block-set_block blocks_db reliable stale block c.block_store sized.header
                    room sized.transactions).2;
            named = fits.next ∙ plus_one c.num_blocks;
            link = fits.linked;
            worked = fits.worked;
            small = omega (arith, fits.next, id_small);
          })

    append_block-IsConsistent :
        (block : Block) (c : BlockChain L B T)
        → IsConsistent setup c
        → Fits setup block c
        → IsSized block
        → IsConsistent setup (append_block setup block c).1
    unfolding append_block rereads
    append_block-IsConsistent block c h fits sized =
        elim (store_block-Stored block c sized (omega (arith, fits.small))) [
          | refused ex q same ↦ rw (q, ◌>>=◌) (Same-IsConsistent c _ same h)
          | written q same ↦
              rw (q, ◌>>=◌)
                (advance-IsConsistent block (rereads block).transactions _
                  (written-IsNext block c _ h fits sized same))
        ]

    execute_and_append-IsConsistent :
        (block : Block) (c : BlockChain L B T)
        → IsConsistent setup c
        → Fits setup block c
        → IsSized block
        → IsConsistent setup (execute_and_append setup block c).1
    unfolding execute_and_append
    execute_and_append-IsConsistent block c h fits sized = elim (Result-cases start.0) [
      | inr (ex, q) ↦ rw (q, execute_and_append) h
      | inl (status, q) ↦ elim (Bool-cases (is_success status)) [
        | inl fine ↦
            rw (q, execute_and_append)
              (rw fine (
                rw (seq_pure_state (append_block setup block) status executed) (
                  append_block-IsConsistent block executed h
                    (record {
                      next = fits.next;
                      linked = fits.linked;
                      hard = fits.hard;
                      worked = fits.worked;
                      small = fits.small;
                    })
                    sized)))
        | inr failed ↦
            rw (q, execute_and_append)
              (rw failed (
                rw (seq_pure_state (on_ledger (rollback ledger_db start.1.deltas)) status executed)
                  h))
      ]
    ]
      where
        start : Result ExecutionStatus × Accounts L
        start =
            execute_block primitives ledger_db tx_db block c.txdb (get_current_mining_fee c)
              (record { ledger = c.ledger; deltas = [] })

        executed : BlockChain L B T
        executed = record c { ledger = start.1.ledger }

    sorted-Fits :
        (block : Block) (c : BlockChain L B T)
        → Fits setup block c
        → Fits setup (record block { transactions = sort_items primitives block.transactions }) c
    unfolding verify_nonce Block.get_hash get_difficulty
    sorted-Fits block c fits = record {
      next = fits.next;
      linked = fits.linked;
      hard = fits.hard;
      worked = fits.worked;
      small = rw (length-sort_items primitives block.transactions) fits.small;
    }

    pub sorted-IsSized :
        (block : Block)
        → IsSized block
        → IsSized (record block { transactions = sort_items primitives block.transactions })
    unfolding Block.serialize
    sorted-IsSized block sized = record {
      header = rw (length-sort_items primitives block.transactions) sized.header;
      transactions = All-sort_items primitives IsStorable block.transactions sized.transactions;
    }

    -- x
    pub add_block-IsConsistent :
        (network_time : ℕ) (block : Block) (c : BlockChain L B T)
        → IsSized block
        → IsConsistent setup c
        → IsConsistent setup (add_block setup network_time block c).1
    unfolding add_block set_items
    add_block-IsConsistent network_time block c sized h =
        elim (Result-cases (check_header setup network_time block c)) [
          | inr (ex, q) ↦ rw (q, add_block) h
          | inl (status, q) ↦ elim (Bool-cases (is_success status)) [
            | inr failed ↦ rw (q, add_block) (rw failed h)
            | inl fine ↦ elim (Option-cases (set_items primitives block.transactions).1) [
              | inl empty ↦ rw (q, add_block) (rw fine (rw (empty, add_block) h))
              | inr (root, there) ↦ elim (Bool-cases (bytes_eq block.merkle_root (hash_of root))) [
                | inr other ↦ rw (q, add_block) (rw fine (rw (there, add_block) (rw other h)))
                | inl same ↦
                    let fits =
                      check_header-Fits setup network_time block c
                        (q ∙ ap returned (is_success-eq status fine)) in
                    rw (q, add_block)
                      (rw fine (
                        rw (there, add_block)
                          (rw same (
                            execute_and_append-IsConsistent _ c h (sorted-Fits block c fits)
                              (sorted-IsSized block sized)))))
              ]
            ]
          ]
        ]
