-- ===== src/BlockChain.antt =====
-- c++/src/server/blockchain.hpp and blockchain.cpp: the chain of blocks over its four stores. Numbers
-- of blocks are below 2^31, where `int` and `uint32_t` agree. The lock makes each call one step; the
-- log, the special blocks (a file), `closeDB` and `deleteDB` are not modelled. `Block::verifyNonce` is
-- called without the flag that its declaration asks for, which is a parameter here.
pub mod Changes
pub mod Sync
pub mod Agreement
pub mod Accept
pub mod Linkage
pub mod Stored
pub mod Reread
pub mod Standing
pub mod Undone
pub mod Retarget
use mathlib.Core.List.{reverse}
use shifupool.Base.{
  ℕ, zero, suc, ◌+◌, ◌-◌, ◌*◌, ◌/◌, ◌%◌, ◌^◌, Bool, true, false, not, ◌&&◌, ◌||◌, Option, none,
  some, List, [], ◌∷◌, Bytes, bytes_eq, ltb, leb, ◌==◌, if◌then◌else◌, length, get_or, Result,
  returned, threw, Exception, Action, ◌>>=◌, ◌>>◌, pure, throw, reads,
}
use shifupool.Words.{add64, u32_mod}
use shifupool.Helpers.{bmb_halves}
use shifupool.Int.{sub_ℕ, int32, pos}
use shifupool.Crypto.{Primitives, null_sha256_hash}
use shifupool.Crypto.Work.{add_work}
use shifupool.Transaction.{Transaction, signature_valid}
use shifupool.Block.{Block, BlockHeader, min_difficulty, verify_nonce, get_difficulty}
use shifupool.Block
use shifupool.DataStore.{LevelDb, clear}
use shifupool.Ledger
use shifupool.TxStore
use shifupool.BlockStore.{BigintText}
use shifupool.BlockStore
use shifupool.Executor.{
  Accounts, Stores, execute_block, execute_transaction, rollback, rollback_block, for_each,
}
use shifupool.Executor.Status.{ExecutionStatus, is_success}
use shifupool.Difficulty.{compute_difficulty, settled, divided_by_zero, unfinished}
use shifupool.MerkleTree.{set_items, hash_of}
use shifupool.MemPool.{MemPool, finish_block, max_transactions_per_block}

-- `DIFFICULTY_LOOKBACK`, `DESIRED_BLOCK_TIME_SEC`
abbrev pub difficulty_lookback : ℕ
difficulty_lookback = 100

abbrev pub desired_block_time_sec : ℕ
desired_block_time_sec = 90

-- The members of `BlockChain`; `L`, `B` and `T` are the open databases of the ledger, of the blocks
-- and of the transactions.
pub record BlockChain (L B T : Type 0) : Type 0 where
  pub mem_pool : Option MemPool
  pub num_blocks : ℕ
  pub target_block_count : ℕ
  pub total_work : ℕ
  pub difficulty : ℕ
  pub last_hash : Bytes
  pub ledger : L
  pub block_store : B
  pub txdb : T

-- What the chain is built on: the databases, the hash functions and the files.
pub record Setup (L B T : Type 0) : Type 0 where
  pub primitives : Primitives
  pub ledger_db : LevelDb L Bytes
  pub blocks_db : LevelDb B Bytes
  pub tx_db : LevelDb T Bytes
  pub text : BigintText
  -- the block of genesis.json, and the flag of `verifyNonce`
  pub genesis : Block
  pub use_pufferfish : Bool
  -- what an uninitialised address holds
  pub stale : Bytes

module _ {L B T : Type 0} where
  abbrev pub on_ledger : {A : Type 0} → Action L A → Action (BlockChain L B T) A
  on_ledger m c = let (r, l) = m c.ledger in (r, record c { ledger = l })

  abbrev pub on_blocks : {A : Type 0} → Action B A → Action (BlockChain L B T) A
  on_blocks m c = let (r, b) = m c.block_store in (r, record c { block_store = b })

  abbrev pub on_txdb : {A : Type 0} → Action T A → Action (BlockChain L B T) A
  on_txdb m c = let (r, t) = m c.txdb in (r, record c { txdb = t })

  -- An assignment to members of the chain.
  abbrev pub modify : (BlockChain L B T → BlockChain L B T) → Action (BlockChain L B T) (Unit {0})
  modify f c = (returned tt, f c)

  -- The fee in half coins falls with the number of the block, counted on from the chain forked off.
  unfoldable pub get_current_mining_fee : BlockChain L B T → ℕ
  get_current_mining_fee c =
      let logical_block = c.num_blocks + 125180 + 7750 in
      if ltb logical_block 1000000
      then bmb_halves 100
      else if ltb logical_block 2000000
      then bmb_halves 50
      else if ltb logical_block 4000000
      then bmb_halves 25
      else bmb_halves 0

  module _ (setup : Setup L B T) where
    open setup use {primitives, ledger_db, blocks_db, tx_db, text, genesis, use_pufferfish, stale}

    -- the guard of `getBlock`, `getBlockHeader` and `getRaw`
    unfoldable pub in_chain : BlockChain L B T → ℕ → Bool
    in_chain c block_id = not (leb block_id 0 || ltb c.num_blocks block_id)

    unfoldable pub get_block : BlockChain L B T → ℕ → Result Block
    get_block c block_id =
        if in_chain c block_id
        then BlockStore.get_block blocks_db stale c.block_store block_id
        else threw Exception.invalid_block

    unfoldable pub get_block_header : BlockChain L B T → ℕ → Result BlockHeader
    get_block_header c block_id =
        if in_chain c block_id
        then BlockStore.get_block_header blocks_db c.block_store block_id
        else threw Exception.invalid_block

    unfoldable pub get_raw : BlockChain L B T → ℕ → Result Bytes
    get_raw c block_id =
        if in_chain c block_id
        then BlockStore.get_raw_data blocks_db c.block_store block_id
        else threw Exception.invalid_block

    unfoldable pub get_wallet_value : BlockChain L B T → Bytes → Result ℕ
    get_wallet_value c addr = Ledger.get_wallet_value ledger_db c.ledger addr

    unfoldable pub find_block_for_transaction : BlockChain L B T → Transaction → Result ℕ
    find_block_for_transaction c t = TxStore.block_for_transaction primitives tx_db c.txdb t

    -- the transaction is tried out on the ledger and undone
    unfoldable pub verify_transaction : Transaction → Action (BlockChain L B T) ExecutionStatus
    verify_transaction t c =
        if t.is_transaction_fee
        then (returned ExecutionStatus.extra_mining_fee, c)
        else if not (signature_valid primitives t)
        then (returned ExecutionStatus.invalid_signature, c)
        else (let (r, a) =
              execute_transaction primitives ledger_db t
                (record { ledger = c.ledger; deltas = [] }) in
            elim r [
              | threw e ↦ (threw e, record c { ledger = a.ledger })
              | returned status ↦
                  let (r', l) = rollback ledger_db a.deltas a.ledger in
                  elim r' [
                    | threw e ↦ (threw e, record c { ledger = l })
                    | returned _ ↦ (
                      Result.returned (
                          if TxStore.has_transaction primitives tx_db c.txdb t
                          then ExecutionStatus.expired_transaction
                          else status),
                      record c { ledger = l },
                    )
                  ]
            ])

    unfoldable pub update_difficulty : Action (BlockChain L B T) (Unit {0})
    update_difficulty c =
        if leb c.num_blocks (difficulty_lookback * 2)
        then pure tt c
        else if not (c.num_blocks % difficulty_lookback == 0)
        then pure tt c
        else elim (get_block c (c.num_blocks - difficulty_lookback)) [
          | threw e ↦ throw e c
          | returned first ↦ elim (get_block c c.num_blocks) [
            | threw e ↦ throw e c
            | returned last ↦
                elim (compute_difficulty (get_difficulty last)
                  (int32 (sub_ℕ last.timestamp first.timestamp))
                  (pos (difficulty_lookback * desired_block_time_sec))) [
                    | settled d ↦ (returned tt, record c { difficulty = d })
                    | divided_by_zero ↦ throw Exception.undefined_behaviour c
                    | unfinished ↦ throw Exception.undefined_behaviour c
                  ]
          ]
        ]

    -- the timestamps of the blocks `last - i` for the rounds `i` that are left of ten
    recent_timestamps : BlockChain L B T → ℕ → ℕ → Result (List ℕ)
    recent_timestamps c last zero = returned []
    recent_timestamps c last (suc rounds) =
        let rest = recent_timestamps c (last - 1) rounds in
        elim (get_block c last) [
          | threw e ↦ threw e
          | returned b ↦ elim rest [
            | threw e ↦ threw e
            | returned times ↦ returned (b.timestamp ∷ times)
          ]
        ]

    insert_time : ℕ → List ℕ → List ℕ
    insert_time x [] = x ∷ []
    insert_time x (y ∷ ys) = let rest = insert_time x ys in if ltb y x then y ∷ rest else x ∷ y ∷ ys

    sort_times : List ℕ → List ℕ
    sort_times [] = []
    sort_times (x ∷ xs) = insert_time x (sort_times xs)

    unfoldable pub median_time : List ℕ → ℕ
    unfolding insert_time sort_times
    median_time ts =
        let times = sort_times ts in
        let n = length times in
        if n % 2 == 0
        then add64 (get_or times (n / 2) 0) (get_or times (n / 2 - 1) 0) / 2
        else get_or times (n / 2) 0

    -- the checks on the timestamp; a status is the error that `addBlock` returns
    unfoldable pub check_timestamp : ℕ → Block → BlockChain L B T → Result ExecutionStatus
    unfolding recent_timestamps
    check_timestamp network_time block c =
        if block.id == 1
        then returned ExecutionStatus.success
        else if ltb (add64 network_time (120 * 60)) block.timestamp
        then returned ExecutionStatus.block_timestamp_in_future
        else if not (ltb 10 c.num_blocks)
        then returned ExecutionStatus.success
        else elim (recent_timestamps c c.num_blocks 10) [
          | threw e ↦ threw e
          | returned times ↦
              if ltb block.timestamp (median_time times)
              then returned ExecutionStatus.block_timestamp_too_old
              else returned ExecutionStatus.success
        ]
