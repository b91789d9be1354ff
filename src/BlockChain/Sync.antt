-- ===== src/BlockChain/Sync.antt =====
-- `BlockChain::startChainSync`: blocks that the trusted host does not have are popped, and its blocks
-- are fetched in batches and added. What the hosts answer is a parameter. The special blocks, which a
-- file names, replace fetched ones; they are a parameter too.
use shifupool.Base.{
  ℕ, zero, suc, ◌+◌, ◌-◌, min, not, Option, none, some, List, [], ◌∷◌, Bytes, bytes_eq, ltb, leb,
  ◌==◌, if◌then◌else◌, Result, returned, threw, Action, ◌>>=◌, ◌>>◌, pure, reads,
}
use shifupool.Block.{Block}
use shifupool.Block
use shifupool.Executor.Status.{ExecutionStatus, is_success}
use shifupool.BlockChain.{BlockChain, Setup, modify, get_block}
use shifupool.BlockChain.Changes.{add_block, pop_block}

-- `BLOCKS_PER_FETCH`
abbrev pub blocks_per_fetch : ℕ
blocks_per_fetch = 200

-- What `HostManager` and `readRawBlocks` answer during one round.
pub record Hosts : Type 0 where
  pub good_host : Bytes
  pub block_count : ℕ
  pub total_work : ℕ
  pub block_hash : Bytes → ℕ → Bytes
  pub read_raw_blocks : Bytes → ℕ → ℕ → Result (List Block)
  pub network_time : ℕ
  pub special_blocks : ℕ → Option Block

module _ {L B T : Type 0} (setup : Setup L B T) (hosts : Hosts) where
  open setup use {primitives}
  open hosts use {
    good_host, block_count, total_work, block_hash, read_raw_blocks, network_time, special_blocks,
  }

  -- How many blocks to pop: those from the first block on whose hash the host does not share, of the
  -- `rounds` blocks that follow block `i`.
  unfoldable pub to_pop : BlockChain L B T → ℕ → ℕ → Result ℕ
  to_pop c zero i = returned 0
  to_pop c (suc rounds) i =
      let rest = to_pop c rounds (i + 1) in
      elim (get_block setup c i) [
        | threw e ↦ threw e
        | returned b ↦
            if not (bytes_eq (block_hash good_host i) (Block.get_hash primitives b))
            then returned (c.num_blocks - i + 1)
            else rest
      ]

  unfoldable pub pop_blocks : ℕ → Action (BlockChain L B T) (Unit {0})
  pop_blocks zero = pure tt
  pop_blocks (suc n) =
      let rest = pop_block setup network_time >> pop_blocks n in
      λ c. if c.num_blocks == 1 then pure tt c else rest c

  -- the blocks of a batch, up to the first that is not added
  unfoldable pub add_blocks : List Block → Action (BlockChain L B T) ExecutionStatus
  add_blocks [] = pure ExecutionStatus.success
  add_blocks (b ∷ bs) =
      let rest = add_blocks bs in
      do
        status ←
            add_block setup network_time
              (elim (special_blocks b.id) [ none ↦ b | some special ↦ special ])
        if is_success status then rest else pure status

  -- The batches from block `i` on; the fuel is the number of batches. An exception ends in a status.
  unfoldable pub fetch_batches : ℕ → ℕ → Action (BlockChain L B T) ExecutionStatus
  fetch_batches zero i = pure ExecutionStatus.success
  fetch_batches (suc fuel) i =
      let rest = fetch_batches fuel (i + blocks_per_fetch) in
      λ c.
        if leb i c.target_block_count
        then elim (read_raw_blocks good_host i
            (min c.target_block_count (i + blocks_per_fetch - 1))) [
              | threw e ↦ (returned ExecutionStatus.unknown_error, c)
              | returned blocks ↦
                  (let (r, c') = add_blocks blocks c in
                    elim r [
                      | threw e ↦ (returned ExecutionStatus.unknown_error, c')
                      | returned status ↦
                          if is_success status then rest c' else (returned status, c')
                    ])
            ]
        else pure ExecutionStatus.success c

  -- A batch moves on by `blocks_per_fetch`, so that as many rounds as there are blocks are enough.
  unfoldable pub start_chain_sync : Action (BlockChain L B T) ExecutionStatus
  start_chain_sync = do
    modify (λ c. record c { target_block_count = block_count })
    (λ c.
        if ltb c.total_work total_work
        then (do n ← reads (λ c. to_pop c c.num_blocks 1); pop_blocks n) c
        else pure tt c)
    (λ c. fetch_batches c.target_block_count (c.num_blocks + 1) c)
