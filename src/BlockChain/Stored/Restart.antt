-- ===== src/BlockChain/Stored/Restart.antt =====
-- `initChain` over the stores of an earlier run.
use shifupool.Base.{
  ℕ, ◌≡◌, ◌<◌, refl, sym, true, Option-cases, inl, inr, returned, threw-ne-returned, ◌>>=◌,
}
use shifupool.Block.{Block, get_difficulty}
use shifupool.BlockStore.{block_count_key}
use shifupool.BlockStore
use shifupool.BlockChain.{BlockChain, Setup}
use shifupool.BlockChain.Changes.{init_chain}
use shifupool.BlockChain.Stored.{IsConsistent, Linked-Top}

module _ {L B T : Type 0} (setup : Setup L B T) where
  open setup use {primitives, blocks_db, text, stale}

  -- The members of `c'` are those of `c`, but for the difficulty, which is that of the last block.
  pub record Restores (c c' : BlockChain L B T) : Type 0 where
    pub count : c'.num_blocks ≡ c.num_blocks
    pub target : c'.target_block_count ≡ c.num_blocks
    pub work : c'.total_work ≡ c.total_work
    pub tip : c'.last_hash ≡ c.last_hash
    pub last : Block
    pub last_there : BlockStore.get_block blocks_db stale c.block_store c.num_blocks ≡ returned last
    pub asked : c'.difficulty ≡ get_difficulty last

  has_block_count-counted :
      (d : B) (n : ℕ)
      → BlockStore.get_block_count blocks_db d ≡ returned n
      → BlockStore.has_block_count blocks_db d ≡ true
  unfolding BlockStore.get_block_count BlockStore.has_block_count
  has_block_count-counted d n e = elim (Option-cases (blocks_db.get d block_count_key)) [
    | inl missing ↦ absurd (threw-ne-returned (rw (missing, BlockStore.get_block_count) at e))
    | inr (v, there) ↦ rw (there, BlockStore.has_block_count) refl
  ]

  -- Over the block store of a consistent chain that has a block, initChain returns and restores
  -- the count, the total work and the last hash, and the difficulty is that of the last block.
  pub init_chain-Restores :
      (network_time : ℕ) (c fresh : BlockChain L B T)
      → IsConsistent setup c
      → 0 < c.num_blocks
      → fresh.block_store ≡ c.block_store
      → ((init_chain setup network_time fresh).0 ≡ returned tt)
        × Restores c (init_chain setup network_time fresh).1
  unfolding init_chain
  init_chain-Restores network_time c fresh h pos same =
      let (last, top) = Linked-Top setup c.block_store h.linked pos in
      rw (same, has_block_count-counted c.block_store c.num_blocks (h.count_kept pos))
        (rw (h.count_kept pos, ◌>>=◌)
          (rw (top.found, ◌>>=◌)
            (rw (h.work_kept pos, ◌>>=◌)
              (
                refl,
                record {
                  count = refl;
                  target = refl;
                  work = refl;
                  tip = sym top.tip;
                  last = last;
                  last_there = top.found;
                  asked = refl;
                },
              ))))
