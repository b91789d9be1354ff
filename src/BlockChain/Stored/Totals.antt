-- ===== src/BlockChain/Stored/Totals.antt =====
-- The two numbers that the chain keeps on disk.
use shifupool.Base.{
  ℕ, ◌≡◌, ◌<◌, refl, sym, ap, ◌∙◌, some, [], Bytes, bytes_eq, append-nil, arith, returned, ◌>>=◌,
}
use shifupool.Words.{u32_mod, le_bytes, of_le, of_le-le_bytes8}
use shifupool.DataStore.{IsReliable}
use shifupool.Block.{Block}
use shifupool.BlockStore.{BigintText, block_count_key, total_work_key}
use shifupool.BlockStore
use shifupool.BlockStore.Kept.{get_block-put_other}
use shifupool.BlockChain.{BlockChain, Setup}
use shifupool.BlockChain.Changes.{save_totals}
use shifupool.BlockChain.Stored.{Linked, IsChain, Linked-agree}

-- The decimal text of a number is read as this number.
pub record IsText (text : BigintText) : Type 0 where
  pub of_to : (n : ℕ) → text.of_text (text.to_text n) ≡ n

le_bytes8_eq : (n : ℕ) → n < u32_mod → of_le 8 (le_bytes 8 n) ≡ n
le_bytes8_eq n small =
    ap (of_le 8) (sym (append-nil (le_bytes 8 n))) ∙ of_le-le_bytes8 n [] ∙ omega arith

module _ {L B T : Type 0} (setup : Setup L B T) where
  open setup use {primitives, blocks_db, text, use_pufferfish, stale}

  module _ (reliable : IsReliable blocks_db) where
    -- the store with the two numbers of the chain
    pub with_totals : BlockChain L B T → B
    with_totals c =
        (blocks_db.put (blocks_db.put c.block_store total_work_key (text.to_text c.total_work)).0
          block_count_key (le_bytes 8 c.num_blocks)).0

    pub save_totals-step :
        (c : BlockChain L B T)
        → save_totals setup c ≡ (returned tt, record c { block_store = with_totals c })
    unfolding save_totals BlockStore.set_total_work BlockStore.set_block_count with_totals
    save_totals-step c =
        rw (reliable.put_ok c.block_store total_work_key (text.to_text c.total_work), ◌>>=◌)
          (rw (reliable.put_ok _ block_count_key (le_bytes 8 c.num_blocks)) refl)

    -- The two numbers do not change what is read as a block.
    pub get_block-with_totals :
        (c : BlockChain L B T) (id : ℕ) (b : Block)
        → id < u32_mod
        → BlockStore.get_block blocks_db stale c.block_store id ≡ returned b
        → b.id ≡ id
        → BlockStore.get_block blocks_db stale (with_totals c) id ≡ returned b
    unfolding with_totals bytes_eq
    get_block-with_totals c id b small e named =
        get_block-put_other blocks_db reliable stale _ block_count_key _ id b (omega arith)
          (get_block-put_other blocks_db reliable stale _ total_work_key _ id b (omega arith) e
            named)
          named

    count_read :
        (d : B) (v : Bytes)
        → blocks_db.get d block_count_key ≡ some v
        → BlockStore.get_block_count blocks_db d ≡ returned (of_le 8 v)
    unfolding BlockStore.get_block_count
    count_read d v e = rw (e, BlockStore.get_block_count) refl

    work_read :
        (d : B) (v : Bytes)
        → blocks_db.get d total_work_key ≡ some v
        → BlockStore.get_total_work blocks_db text d ≡ returned (text.of_text v)
    unfolding BlockStore.get_total_work
    work_read d v e = rw (e, BlockStore.get_total_work) refl

    module _ (readable : IsText text) where
      pub with_totals-IsChain :
          (c : BlockChain L B T) (hash : Bytes)
          → c.num_blocks < u32_mod
          → Linked setup c.block_store c.num_blocks hash c.total_work
          → IsChain setup (with_totals c) c.num_blocks hash c.total_work
      unfolding with_totals bytes_eq
      with_totals-IsChain c hash small linked = record {
        linked =
            Linked-agree setup c.block_store _
              (λ id b le e named.
                get_block-put_other blocks_db reliable stale _ block_count_key _ id b (omega arith)
                  (get_block-put_other blocks_db reliable stale _ total_work_key _ id b
                    (omega arith) e named)
                  named)
              linked;
        small = small;
        count_kept = λ pos.
            count_read _ _
              (reliable.get_put _ block_count_key block_count_key (le_bytes 8 c.num_blocks))
            ∙ ap returned (le_bytes8_eq c.num_blocks small);
        work_kept = λ pos.
            work_read _ _ (
              reliable.get_put _ block_count_key total_work_key (le_bytes 8 c.num_blocks)
              ∙ reliable.get_put _ total_work_key total_work_key (text.to_text c.total_work))
            ∙ ap returned (readable.of_to c.total_work);
      }
