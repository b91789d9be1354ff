-- ===== src/BlockChain/Stored/Popping.antt =====
-- `popBlock`, `resetChain` and `verifyTransaction` keep the stores and the members of the chain in
-- agreement.
use shifupool.Base.{
  ℕ, ◌-◌, ◌^◌, ◌≡◌, ◌≤◌, ◌<◌, refl, subst, false, Bytes, arith, returned, threw, Keeps, Leads,
  Leads->>=, Keeps->>=, Action, ◌>>=◌, ◌>>◌, pure, throw, step-cases, Bool-cases, inl, inr,
  if◌then◌else◌, ltb, ltb→lt, Exception,
}
use shifupool.Words.{u32_mod}
use shifupool.Crypto.{null_sha256_hash}
use shifupool.Crypto.Work.{add_work}
use shifupool.Transaction.{Transaction}
use shifupool.Block.{Block, min_difficulty, get_difficulty}
use shifupool.DataStore.{IsReliable, clear}
use shifupool.BlockStore
use shifupool.Executor.Status.{is_success}
use shifupool.BlockChain.{
  BlockChain, Setup, on_txdb, on_ledger, on_blocks, get_block, in_chain, verify_transaction,
}
use shifupool.BlockChain.Changes.{
  add_block, add_genesis, reset_chain, undo_block, find_tip, step_back, pop_block,
}
use shifupool.BlockChain.Stored.{IsSized, Linked, nothing, IsChain, IsConsistent, Top, Linked-Top}
use shifupool.BlockChain.Stored.Totals.{IsText, save_totals-step, with_totals-IsChain}
use shifupool.BlockChain.Stored.Adding.{Same, Same-IsConsistent, add_block-IsConsistent}

module _ {L B T : Type 0} (setup : Setup L B T) where
  open setup use {primitives, ledger_db, blocks_db, tx_db, text, genesis, stale}

  -- the members of an empty chain
  record IsEmpty (c : BlockChain L B T) : Type 0 where
    count : c.num_blocks ≡ 0
    tip : c.last_hash ≡ null_sha256_hash
    work : c.total_work ≡ 0

  IsEmpty-IsConsistent : (c : BlockChain L B T) → IsEmpty c → IsConsistent setup c
  IsEmpty-IsConsistent c e =
      rw (e.count, e.tip, e.work)
        (record {
          linked = nothing;
          small = omega arith;
          count_kept = λ pos. absurd (omega arith);
          work_kept = λ pos. absurd (omega arith);
        })

  pub get_block-found :
      (c : BlockChain L B T) (id : ℕ) (b : Block)
      → 0 < id
      → id ≤ c.num_blocks
      → BlockStore.get_block blocks_db stale c.block_store id ≡ returned b
      → get_block setup c id ≡ returned b
  unfolding get_block in_chain
  get_block-found c id b pos le found = ground arith

  undo_block-Same : (last : Block) (c : BlockChain L B T) → Same setup c (undo_block setup last c).1
  unfolding undo_block
  undo_block-Same last c = record { blocks = refl; count = refl; tip = refl; work = refl }

  pub verify_transaction-Same :
      (t : Transaction) (c : BlockChain L B T) → Same setup c (verify_transaction setup t c).1
  unfolding verify_transaction
  verify_transaction-Same t c = record {
    blocks = ground arith;
    count = ground arith;
    tip = ground arith;
    work = ground arith;
  }

  module _ (reliable : IsReliable blocks_db) (readable : IsText text)
      (genesis_sized : IsSized genesis) where
    add_genesis-IsConsistent :
        (network_time : ℕ) → Keeps (IsConsistent setup) (add_genesis setup network_time)
    unfolding add_genesis
    add_genesis-IsConsistent network_time =
        Keeps->>= (IsConsistent setup) (add_block setup network_time genesis)
          (λ status. if is_success status then pure tt else throw Exception.genesis_rejected)
          (λ c h.
            add_block-IsConsistent setup reliable readable network_time genesis c genesis_sized h)
          (λ status c h. elim (Bool-cases (is_success status)) [
            | inl fine ↦ rw fine h
            | inr failed ↦ rw failed h
          ])

    pub reset_chain-IsConsistent :
        (network_time : ℕ) (c : BlockChain L B T)
        → IsConsistent setup (reset_chain setup network_time c).1
    unfolding reset_chain
    reset_chain-IsConsistent network_time c =
        clearing (on_ledger (clear ledger_db))
          (on_blocks (clear blocks_db) >> (on_txdb (clear tx_db) >> add_genesis setup network_time))
          (λ s e. record { count = e.count; tip = e.tip; work = e.work })
          (clearing (on_blocks (clear blocks_db))
            (on_txdb (clear tx_db) >> add_genesis setup network_time)
            (λ s e. record { count = e.count; tip = e.tip; work = e.work })
            (clearing (on_txdb (clear tx_db)) (add_genesis setup network_time)
              (λ s e. record { count = e.count; tip = e.tip; work = e.work })
              (λ s e. add_genesis-IsConsistent network_time s (IsEmpty-IsConsistent s e))))
          (cleared c) (record { count = refl; tip = refl; work = refl })
      where
        clearing :
            (m rest : Action (BlockChain L B T) (Unit {0}))
            → Keeps IsEmpty m
            → Leads IsEmpty (IsConsistent setup) rest
            → Leads IsEmpty (IsConsistent setup) (m >> rest)
        clearing m rest keeps leads =
            Leads->>= IsEmpty (IsConsistent setup) m (λ _. rest) keeps IsEmpty-IsConsistent
              (λ _. leads)

        cleared : BlockChain L B T → BlockChain L B T
        cleared c = record c {
          difficulty = min_difficulty;
          target_block_count = 1;
          num_blocks = 0;
          total_work = 0;
          last_hash = null_sha256_hash;
        }

    -- the chain without its last block, before its last hash is set
    shrunk : Block → BlockChain L B T → BlockChain L B T
    shrunk last c = record c {
      num_blocks = c.num_blocks - 1;
      total_work = c.total_work - 2 ^ get_difficulty last;
    }

    find_tip-IsConsistent :
        (network_time : ℕ) (c : BlockChain L B T) (hash : Bytes)
        → IsChain setup c.block_store c.num_blocks hash c.total_work
        → IsConsistent setup (find_tip setup network_time c).1
    unfolding find_tip
    find_tip-IsConsistent network_time c hash h = elim (Bool-cases (ltb 1 c.num_blocks)) [
      | inr last_one ↦ rw last_one (reset_chain-IsConsistent network_time c)
      | inl more ↦
          let pos : 0 < c.num_blocks = omega (arith, ltb→lt 1 c.num_blocks more) in
          let (last, top) = Linked-Top setup c.block_store h.linked pos in
          rw more (
            rw (get_block-found c c.num_blocks last pos (omega arith) top.found, ◌>>=◌)
              (subst (λ x. IsChain setup c.block_store c.num_blocks x c.total_work) top.tip h))
    ]

    step_back-IsConsistent :
        (network_time : ℕ) (c : BlockChain L B T)
        → c.num_blocks < u32_mod
        → (last : Block) (top : Top setup last c.block_store c.num_blocks c.last_hash c.total_work)
        → IsConsistent setup (step_back setup network_time last c).1
    unfolding step_back shrunk
    step_back-IsConsistent network_time c small last top =
        rw (save_totals-step setup reliable (shrunk last c), ◌>>=◌)
          (rw (save_totals-step setup reliable (shrunk last c)) (
            find_tip-IsConsistent network_time _ top.below_hash (
              with_totals-IsChain setup reliable readable (shrunk last c) top.below_hash
                (omega arith) below)))
      where
        less_work : (w d : ℕ) → add_work w d - 2 ^ d ≡ w
        less_work w d = unfold add_work in omega arith

        below :
            Linked setup c.block_store
              (c.num_blocks - 1)
              top.below_hash
              (c.total_work - 2 ^ get_difficulty last)
        below = rw (top.total, less_work) top.below

    undone-IsConsistent :
        (network_time : ℕ) (c : BlockChain L B T)
        → IsConsistent setup c
        → (last : Block) (top : Top setup last c.block_store c.num_blocks c.last_hash c.total_work)
        → IsConsistent setup ((undo_block setup last >> step_back setup network_time last) c).1
    undone-IsConsistent network_time c h last top = elim (step-cases (undo_block setup last) c) [
      | inr (ex, e) ↦ rw (e, ◌>>=◌) (Same-IsConsistent setup c _ (undo_block-Same last c) h)
      | inl e ↦ rw (e, ◌>>=◌) (from_same (undo_block setup last c).1 (undo_block-Same last c))
    ]
      where
        from_same :
            (u : BlockChain L B T)
            → Same setup c u
            → IsConsistent setup (step_back setup network_time last u).1
        from_same u same =
            let moved : Top setup last u.block_store u.num_blocks u.last_hash u.total_work =
              rw (same.blocks, same.count, same.tip, same.work) top in
            step_back-IsConsistent network_time u (rw same.count h.small) last moved

    -- x
    pub pop_block-IsConsistent :
        (network_time : ℕ) → Keeps (IsConsistent setup) (pop_block setup network_time)
    unfolding pop_block
    pop_block-IsConsistent network_time c h = elim (Bool-cases (ltb 0 c.num_blocks)) [
      | inr none_there ↦ rw (nothing_found none_there, ◌>>=◌) h
      | inl some_there ↦
          let pos = ltb→lt 0 c.num_blocks some_there in
          let (last, top) = Linked-Top setup c.block_store h.linked pos in
          rw (get_block-found c c.num_blocks last pos (omega arith) top.found, ◌>>=◌)
            (undone-IsConsistent network_time c h last top)
    ]
      where
        nothing_found :
            ltb 0 c.num_blocks ≡ false
            → get_block setup c c.num_blocks ≡ threw Exception.invalid_block
        nothing_found e = unfold get_block in_chain in ground arith
