-- ===== src/BlockChain/Undone.antt =====
-- `popBlock` behind `addBlock`: the chain and the balances are as they were.
use shifupool.Base.{
  ℕ, ◌+◌, ◌-◌, ◌^◌, ◌≡◌, ◌<◌, refl, sym, ap, ◌∙◌, subst, true, false, [], Bytes, arith, ltb, ◌==◌,
  Result, returned, returned_eq, ◌>>=◌,
}
use shifupool.Base.{lt→ltb, ==_iff}
use shifupool.Executor.Tracks.{seq_returned}
use shifupool.Block.{Block, get_difficulty}
use shifupool.DataStore.{IsReliable}
use shifupool.BlockStore
use shifupool.Words.{u32_mod}
use shifupool.Crypto.Work.{add_work}
use shifupool.Ledger.Balances.{holding}
use shifupool.Executor.{Accounts, find_miner}
use shifupool.Executor.Status.{ExecutionStatus}
use shifupool.Executor.Effect.Executed.{execute_block-PaysAll}
use shifupool.Executor.Undo.{rollback_block-restores}
use shifupool.Executor.Effect.{Shifts-as}
use shifupool.BlockChain.Linkage.{add_block-accepted}
use shifupool.BlockChain.{BlockChain, Setup, get_current_mining_fee}
use shifupool.BlockChain.Changes.{add_block, undo_block, find_tip, step_back, pop_block}
use shifupool.BlockChain.Stored.{IsSized, IsConsistent, Top, Linked-Top}
use shifupool.BlockChain.Stored.Totals.{
  IsText, save_totals-step, with_totals, get_block-with_totals,
}
use shifupool.BlockChain.Stored.Adding.{add_block-IsConsistent}
use shifupool.BlockChain.Stored.Popping.{get_block-found}
use shifupool.BlockChain.Reread.{rereads, gains-reread, costs-reread, All-reread, find_miner-reread}
use shifupool.BlockChain.Standing.{Standing, sorted, add_block-Standing}

module _ {L B T : Type 0} (setup : Setup L B T) where
  open setup use {primitives, ledger_db, blocks_db, tx_db, text, stale}

  -- The chain is as before.
  pub record IsBack (c : BlockChain L B T) (r : Result (Unit {0}) × BlockChain L B T) : Type 0 where
    pub ended : r.0 ≡ returned tt
    pub balances : (w : Bytes) → holding ledger_db r.1.ledger w ≡ holding ledger_db c.ledger w
    pub count : r.1.num_blocks ≡ c.num_blocks
    pub work : r.1.total_work ≡ c.total_work
    pub tip : r.1.last_hash ≡ c.last_hash

  module _ (reliable : IsReliable blocks_db) (readable : IsText text) where
    module _ (ledger_reliable : IsReliable ledger_db) (tx_reliable : IsReliable tx_db) where
      undo_block-restores :
          (block : Block) (c s : BlockChain L B T)
          → (block.id == 1) ≡ false
          → Standing setup reliable readable block c s.block_store s.ledger
          → ((undo_block setup
                (record block { transactions = rereads setup reliable block.transactions })
                s).0
              ≡ returned tt)
            × ((w : Bytes)
                → holding ledger_db
                    (undo_block setup
                      (record block { transactions = rereads setup reliable block.transactions })
                      s).1.ledger
                    w
                  ≡ holding ledger_db c.ledger w)
      unfolding undo_block
      undo_block-restores block c s later stands =
          let start : Accounts L = record { ledger = c.ledger; deltas = [] } in
          let miner = find_miner primitives ledger_db tx_db stale block.transactions in
          let paid =
            execute_block-PaysAll primitives ledger_db tx_db ledger_reliable stale block c.txdb
              (get_current_mining_fee c) start later stands.ran in
          rw stands.ledger (
            rollback_block-restores primitives ledger_db tx_db ledger_reliable tx_reliable stale
              (record block { transactions = rereads setup reliable block.transactions }) c.ledger _
              (rw (find_miner-reread setup reliable block.transactions)
                (All-reread setup reliable _ block.transactions miner paid.known))
              (rw (find_miner-reread setup reliable block.transactions) (
                Shifts-as ledger_db
                  (λ j. sym (gains-reread setup reliable block.transactions miner j))
                  (λ j. sym (costs-reread setup reliable block.transactions j)) paid.shifts)))

      less_work : (w d : ℕ) → add_work w d - 2 ^ d ≡ w
      less_work w d = unfold add_work in omega arith

      -- the chain without its last block, before its last hash is set
      shrunk : Block → BlockChain L B T → BlockChain L B T
      shrunk last c = record c {
        num_blocks = c.num_blocks - 1;
        total_work = c.total_work - 2 ^ get_difficulty last;
      }

      -- the members behind `popBlock`, when a block is left below
      record Shrinks (last : Block) (hash : Bytes) (u : BlockChain L B T)
          (r : Result (Unit {0}) × BlockChain L B T) : Type 0 where
        ended : r.0 ≡ returned tt
        ledger : r.1.ledger ≡ u.ledger
        count : r.1.num_blocks ≡ u.num_blocks - 1
        work : r.1.total_work ≡ u.total_work - 2 ^ get_difficulty last
        tip : r.1.last_hash ≡ hash

      step_back-Shrinks :
          (network_time : ℕ) (last : Block) (u : BlockChain L B T)
          → 2 < u.num_blocks
          → u.num_blocks < u32_mod
          → (top : Top setup last u.block_store u.num_blocks u.last_hash u.total_work)
          → Shrinks last top.below_hash u (step_back setup network_time last u)
      unfolding step_back shrunk find_tip
      step_back-Shrinks network_time last u more small top =
          let (below, next) = Linked-Top setup u.block_store top.below (omega arith) in
          let v : BlockChain L B T = record (shrunk last u) {
            block_store = with_totals setup reliable (shrunk last u);
          } in
          let there = get_block-found setup v v.num_blocks below (omega arith) (omega arith) (
            get_block-with_totals setup reliable (shrunk last u) v.num_blocks below (omega arith)
              next.found next.named) in
          let left : ltb 1 v.num_blocks ≡ true = lt→ltb 1 v.num_blocks (omega arith) in
          rw (save_totals-step setup reliable (shrunk last u), ◌>>=◌)
            (rw (save_totals-step setup reliable (shrunk last u)) (
              rw left (
                rw (there, ◌>>=◌)
                  (record {
                    ended = refl;
                    ledger = refl;
                    count = refl;
                    work = refl;
                    tip = sym next.tip;
                  }))))

      pop_block-IsBack :
          (network_time : ℕ) (block : Block) (c s : BlockChain L B T)
          → 1 < c.num_blocks
          → IsConsistent setup s
          → Standing setup reliable readable block c s.block_store s.ledger
          → block.id ≡ c.num_blocks + 1
          → block.last_block_hash ≡ c.last_hash
          → s.num_blocks ≡ c.num_blocks + 1
          → s.total_work ≡ add_work c.total_work (get_difficulty block)
          → IsBack c (pop_block setup network_time s)
      unfolding pop_block undo_block get_difficulty
      pop_block-IsBack network_time block c s more h stands named link count work =
          let last : Block = record block {
            transactions = rereads setup reliable block.transactions;
          } in
          let found : BlockStore.get_block blocks_db stale s.block_store s.num_blocks
              ≡ returned last =
            subst (λ n. BlockStore.get_block blocks_db stale s.block_store n ≡ returned last)
              (named ∙ sym count) stands.found in
          let (other, top0) = Linked-Top setup s.block_store h.linked (omega (arith, count)) in
          let same : other ≡ last = returned_eq (sym top0.found ∙ found) in
          let top : Top setup last s.block_store s.num_blocks s.last_hash s.total_work =
            subst (λ b. Top setup b s.block_store s.num_blocks s.last_hash s.total_work) same
              top0 in
          let undone =
            undo_block-restores block c s (id_later block.id c.num_blocks named more) stands in
          let u = (undo_block setup last s).1 in
          let back = step_back-Shrinks network_time last u (omega (arith, count)) h.small top in
          rw
            (
              get_block-found setup s s.num_blocks last (omega (arith, count)) (omega arith) found,
              ◌>>=◌,
            )
            (rw
              (seq_returned (undo_block setup last) (step_back setup network_time last) s undone.0)
              (record {
                ended = back.ended;
                balances = λ w. ap (λ l. holding ledger_db l w) back.ledger ∙ undone.1 w;
                count = back.count ∙ omega (arith, count);
                work =
                    back.work
                    ∙ ap (λ x. x - 2 ^ get_difficulty block) work
                    ∙ less_work c.total_work (get_difficulty block);
                tip = back.tip ∙ sym top.link ∙ link;
              }))
        where
          id_later : (id n : ℕ) → id ≡ n + 1 → 1 < n → (id == 1) ≡ false
          id_later id n e le = ground (arith, ==_iff id 1)

      -- Over reliable databases, where the text of a number is read back as the number,
      -- when addBlock accepts a block whose members have the sizes of their types on a
      -- consistent chain of at least two blocks, popBlock then returns, and every balance,
      -- the count, the total work and the last hash are as before.
      pub pop_block-add_block :
          (network_time later_time : ℕ) (block : Block) (c : BlockChain L B T)
          → IsConsistent setup c
          → IsSized block
          → 1 < c.num_blocks
          → (add_block setup network_time block c).0 ≡ returned ExecutionStatus.success
          → IsBack c (pop_block setup later_time (add_block setup network_time block c).1)
      unfolding sorted get_difficulty
      pop_block-add_block network_time later_time block c h sized more e =
          let accepted = add_block-accepted setup network_time block c e in
          pop_block-IsBack later_time (sorted setup reliable readable block) c
            (add_block setup network_time block c).1 more
            (add_block-IsConsistent setup reliable readable network_time block c sized h)
            (add_block-Standing setup reliable readable network_time block c sized e)
            accepted.0.next accepted.0.linked accepted.2.count accepted.2.work
