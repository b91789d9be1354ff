-- ===== src/BlockChain/Reread.antt =====
-- A block that was read back from the store pays and takes what it did: only the sender of a mining
-- fee is lost.
use shifupool.Base.{◌≡◌, refl, List, [], ◌∷◌, map, Bytes, All, Bool-cases, inl, inr}
use shifupool.Transaction.{Transaction}
use shifupool.DataStore.{IsReliable}
use shifupool.BlockStore.Blocks.{reread}
use shifupool.Executor.{find_miner}
use shifupool.Executor.Effect.{gain, cost, gains, costs, Known}
use shifupool.BlockChain.{Setup}

module _ {L B T : Type 0} (setup : Setup L B T) where
  open setup use {primitives, ledger_db, blocks_db, tx_db, text, stale}

  module _ (reliable : IsReliable blocks_db) where
    unfoldable pub rereads : List Transaction → List Transaction
    rereads ts = map (reread blocks_db reliable stale) ts

    gain-reread :
        (t : Transaction) (miner j : Bytes)
        → gain (reread blocks_db reliable stale t) miner j ≡ gain t miner j
    unfolding reread gain
    gain-reread t miner j = refl

    cost-reread :
        (t : Transaction) (j : Bytes) → cost (reread blocks_db reliable stale t) j ≡ cost t j
    unfolding reread cost
    cost-reread t j = elim (Bool-cases t.is_transaction_fee) [
      | inl fee ↦ simp fee refl
      | inr plain ↦ simp plain refl
    ]

    Known-reread :
        (l : L) (t : Transaction) (miner : Bytes)
        → Known ledger_db l t miner
        → Known ledger_db l (reread blocks_db reliable stale t) miner
    unfolding reread
    Known-reread l t miner known = record {
      to = known.to;
      from = λ plain. simp plain (known.from plain);
      to_miner = known.to_miner;
    }

    pub gains-reread :
        (ts : List Transaction) (miner j : Bytes) → gains (rereads ts) miner j ≡ gains ts miner j
    unfolding rereads gains
    gains-reread [] miner j = refl
    gains-reread (t ∷ ts) miner j = rw (gain-reread t miner j) (rw (gains-reread ts miner j) refl)

    pub costs-reread : (ts : List Transaction) (j : Bytes) → costs (rereads ts) j ≡ costs ts j
    unfolding rereads costs
    costs-reread [] j = refl
    costs-reread (t ∷ ts) j = rw (cost-reread t j) (rw (costs-reread ts j) refl)

    pub All-reread :
        (l : L) (ts : List Transaction) (miner : Bytes)
        → All (λ t. Known ledger_db l t miner) ts
        → All (λ t. Known ledger_db l t miner) (rereads ts)
    unfolding rereads
    All-reread l [] miner k = tt
    All-reread l (t ∷ ts) miner (k, ks) = (Known-reread l t miner k, All-reread l ts miner ks)

    pub find_miner-reread :
        (ts : List Transaction)
        → find_miner primitives ledger_db tx_db stale (rereads ts)
          ≡ find_miner primitives ledger_db tx_db stale ts
    unfolding rereads find_miner reread
    find_miner-reread [] = refl
    find_miner-reread (t ∷ ts) = rw (find_miner-reread ts) refl
