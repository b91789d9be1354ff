-- ===== src/BlockChain/Stored/Steps.antt =====
-- The runs of a node's chain, and that its stores and members agree in all of them.
use shifupool.Base.{
  ℕ, zero, suc, ◌+◌, ◌-◌, ◌≡◌, ◌==◌, Bool-cases, Option-cases, none, some, inl, inr, List, [], ◌∷◌,
  All, Bytes, Result-cases, returned, Action, ◌>>=◌, Keeps, Keeps->>=, pure, reads, if◌then◌else◌,
  ltb, leb, min,
}
use shifupool.Transaction.{Transaction}
use shifupool.Block.{Block}
use shifupool.DataStore.{IsReliable}
use shifupool.Executor.Status.{is_success}
use shifupool.BlockChain.{BlockChain, Setup, verify_transaction}
use shifupool.BlockChain.Changes.{add_block, pop_block, reset_chain}
use shifupool.BlockChain.Sync.{
  Hosts, blocks_per_fetch, to_pop, pop_blocks, add_blocks, fetch_batches, start_chain_sync,
}
use shifupool.BlockChain.Stored.{IsSized, IsConsistent}
use shifupool.BlockChain.Stored.Totals.{IsText}
use shifupool.BlockChain.Stored.Adding.{Same-IsConsistent, add_block-IsConsistent}
use shifupool.BlockChain.Stored.Popping.{
  verify_transaction-Same, reset_chain-IsConsistent, pop_block-IsConsistent,
}

-- Whatever the hosts answer, their blocks have members of the C++ types.
pub record IsTyped (hosts : Hosts) : Type 0 where
  pub fetched :
      (host : Bytes) (i end : ℕ) (blocks : List Block)
      → hosts.read_raw_blocks host i end ≡ returned blocks
      → All IsSized blocks
  pub special : (i : ℕ) (b : Block) → hosts.special_blocks i ≡ some b → IsSized b

module _ {L B T : Type 0} (setup : Setup L B T) where
  -- What a node does to its chain, with any outcome.
  pub data Step : BlockChain L B T → BlockChain L B T → Type 0 where
    adding :
        {c : BlockChain L B T} (network_time : ℕ) (block : Block)
        → IsSized block
        → Step c (add_block setup network_time block c).1
    popping : {c : BlockChain L B T} (network_time : ℕ) → Step c (pop_block setup network_time c).1
    trying : {c : BlockChain L B T} (t : Transaction) → Step c (verify_transaction setup t c).1
    syncing :
        {c : BlockChain L B T} (hosts : Hosts)
        → IsTyped hosts
        → Step c (start_chain_sync setup hosts c).1

  -- The chains that a node comes to which began with `resetChain`.
  pub data Run : BlockChain L B T → Type 0 where
    started : (network_time : ℕ) (c : BlockChain L B T) → Run (reset_chain setup network_time c).1
    next : {c c' : BlockChain L B T} → Run c → Step c c' → Run c'

  module _ (reliable : IsReliable setup.blocks_db) (readable : IsText setup.text)
      (genesis_sized : IsSized setup.genesis) where
    pop_blocks-IsConsistent :
        (hosts : Hosts) (n : ℕ) → Keeps (IsConsistent setup) (pop_blocks setup hosts n)
    unfolding pop_blocks
    pop_blocks-IsConsistent hosts zero c h = h
    pop_blocks-IsConsistent hosts (suc n) c h = elim (Bool-cases (c.num_blocks == 1)) [
      | inl one ↦ rw one h
      | inr more ↦ rw more (
          Keeps->>= (IsConsistent setup) (pop_block setup hosts.network_time)
            (λ _. pop_blocks setup hosts n)
            (pop_block-IsConsistent setup reliable readable genesis_sized hosts.network_time)
            (λ _. pop_blocks-IsConsistent hosts n) c h)
    ]

    chosen-IsSized :
        (hosts : Hosts)
        → IsTyped hosts
        → (b : Block) → IsSized b
        → IsSized (elim (hosts.special_blocks b.id) [ none ↦ b | some special ↦ special ])
    chosen-IsSized hosts typed b sized = elim (Option-cases (hosts.special_blocks b.id)) [
      | inl plain ↦ rw plain sized
      | inr (s, there) ↦ rw there (typed.special b.id s there)
    ]

    add_blocks-IsConsistent :
        (hosts : Hosts)
        → IsTyped hosts
        → (bs : List Block) → All IsSized bs
        → Keeps (IsConsistent setup) (add_blocks setup hosts bs)
    unfolding add_blocks
    add_blocks-IsConsistent hosts typed [] sized c h = h
    add_blocks-IsConsistent hosts typed (b ∷ bs) sized c h =
        Keeps->>= (IsConsistent setup)
          (add_block setup hosts.network_time
            (elim (hosts.special_blocks b.id) [ none ↦ b | some special ↦ special ]))
          (λ status. if is_success status then add_blocks setup hosts bs else pure status)
          (λ c h.
            add_block-IsConsistent setup reliable readable hosts.network_time _ c
              (chosen-IsSized hosts typed b sized.0) h)
          (λ status c h. elim (Bool-cases (is_success status)) [
            | inl fine ↦ rw fine (add_blocks-IsConsistent hosts typed bs sized.1 c h)
            | inr failed ↦ rw failed h
          ])
          c h

    fetch_batches-IsConsistent :
        (hosts : Hosts)
        → IsTyped hosts
        → (fuel i : ℕ) → Keeps (IsConsistent setup) (fetch_batches setup hosts fuel i)
    unfolding fetch_batches
    fetch_batches-IsConsistent hosts typed zero i c h = h
    fetch_batches-IsConsistent hosts typed (suc fuel) i c h =
        let answer =
          hosts.read_raw_blocks hosts.good_host i
            (min c.target_block_count (i + blocks_per_fetch - 1)) in
        elim (Bool-cases (leb i c.target_block_count)) [
          | inr done ↦ rw done h
          | inl more ↦ elim (Result-cases answer) [
            | inr (ex, q) ↦ rw (more, q, fetch_batches) h
            | inl (blocks, q) ↦
                let sized = typed.fetched _ _ _ blocks q in
                let added = add_blocks-IsConsistent hosts typed blocks sized c h in
                elim (Result-cases (add_blocks setup hosts blocks c).0) [
                  | inr (ex, e) ↦ rw (more, q, fetch_batches) (rw (e, fetch_batches) added)
                  | inl (status, e) ↦ elim (Bool-cases (is_success status)) [
                    | inr failed ↦
                        rw (more, q, fetch_batches) (rw (e, fetch_batches) (rw failed added))
                    | inl fine ↦
                        rw (more, q, fetch_batches)
                          (rw (e, fetch_batches)
                            (rw fine (
                              fetch_batches-IsConsistent hosts typed fuel (i + blocks_per_fetch) _
                                added)))
                  ]
                ]
          ]
        ]

    start_chain_sync-IsConsistent :
        (hosts : Hosts) → IsTyped hosts → Keeps (IsConsistent setup) (start_chain_sync setup hosts)
    unfolding start_chain_sync
    start_chain_sync-IsConsistent hosts typed c h =
        Keeps->>= (IsConsistent setup) pop_differing
          (λ _ c. fetch_batches setup hosts c.target_block_count (c.num_blocks + 1) c)
          pop_differing-IsConsistent
          (λ _ c h.
            fetch_batches-IsConsistent hosts typed c.target_block_count (c.num_blocks + 1) c h)
          (record c { target_block_count = hosts.block_count })
          (record {
            linked = h.linked;
            small = h.small;
            count_kept = h.count_kept;
            work_kept = h.work_kept;
          })
      where
        pop_all : Action (BlockChain L B T) (Unit {0})
        pop_all = do n ← reads (λ c. to_pop setup hosts c c.num_blocks 1); pop_blocks setup hosts n

        pop_differing : Action (BlockChain L B T) (Unit {0})
        pop_differing c = if ltb c.total_work hosts.total_work then pop_all c else pure tt c

        pop_differing-IsConsistent : Keeps (IsConsistent setup) pop_differing
        pop_differing-IsConsistent c h = elim (Bool-cases (ltb c.total_work hosts.total_work)) [
          | inr behind ↦ rw behind h
          | inl ahead ↦ rw ahead (
              Keeps->>= (IsConsistent setup) (reads (λ c. to_pop setup hosts c c.num_blocks 1))
                (pop_blocks setup hosts) (λ c h. h) (pop_blocks-IsConsistent hosts) c h)
        ]

    Step-IsConsistent :
        {c c' : BlockChain L B T} → Step c c' → IsConsistent setup c → IsConsistent setup c'
    Step-IsConsistent (adding {c} network_time block sized) h =
        add_block-IsConsistent setup reliable readable network_time block c sized h
    Step-IsConsistent (popping {c} network_time) h =
        pop_block-IsConsistent setup reliable readable genesis_sized network_time c h
    Step-IsConsistent (trying {c} t) h =
        Same-IsConsistent setup c _ (verify_transaction-Same setup t c) h
    Step-IsConsistent (syncing {c} hosts typed) h = start_chain_sync-IsConsistent hosts typed c h

    -- Over a reliable block store, where the text of a number is read back as the number and
    -- the members of the genesis block have the sizes of their types, every chain that a node
    -- reaches from resetChain by adding blocks, popping blocks, trying transactions and
    -- syncing with hosts, with any outcomes, is linked: each of its blocks is read back from
    -- the store under its number, names the hash of the block below and passes the proof-of-
    -- work test, the last hash and the total work are those of these blocks, and the stored
    -- count and work are those of the chain.
    pub Run-IsConsistent : (c : BlockChain L B T) → Run c → IsConsistent setup c
    Run-IsConsistent c (started network_time c0) =
        reset_chain-IsConsistent setup reliable readable genesis_sized network_time c0
    Run-IsConsistent c' (next {c} run step) = Step-IsConsistent step (Run-IsConsistent c run)
