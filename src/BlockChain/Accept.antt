-- ===== src/BlockChain/Accept.antt =====
-- What `addBlock` accepts, and that a block or a transaction that is not accepted leaves no trace.
use shifupool.Base.{
  ℕ, ◌≡◌, ◌≢◌, refl, sym, ◌∙◌, true, not, [], Bytes, bytes_eq, Result, returned, threw, Action,
  ◌>>=◌, ◌>>◌, pure, arith, Bool-cases, Option-cases, inl, inr,
}
use shifupool.Transaction.{Transaction, signature_valid}
use shifupool.Block.{Block}
use shifupool.DataStore.{IsReliable}
use shifupool.Ledger
use shifupool.Ledger.Balances.{holding}
use shifupool.Executor.Status.{ExecutionStatus, is_success}
use shifupool.Executor.Execute.{
  execute_block-Executes, execute_transaction-ended, rollback-execute_block,
  rollback-execute_transaction,
}
use shifupool.MerkleTree.{set_items, hash_of}
use shifupool.BlockChain.{BlockChain, Setup, get_current_mining_fee, verify_transaction}
use shifupool.BlockChain.Changes.{check_header, execute_and_append, append_block, add_block}

-- A result that is returned behind other steps.
pub seq_pure :
    {S A : Type 0} (m : Action S (Unit {0})) (x y : A) (s : S)
    → ((m >> pure x) s).0 ≡ returned y
    → x ≡ y
seq_pure {A = A} m x y s e = go (m s).0 refl
  where
    go : (r : Result (Unit {0})) → (m s).0 ≡ r → x ≡ y
    go (returned u) q = inject (rw (q, ◌>>=◌) at e)
      where
        inject : ◌≡◌ {A = Result A} (returned x) (returned y) → x ≡ y
        inject h = cc
    go (threw ex) q = absurd (refuse (rw (q, ◌>>=◌) at e))
      where
        refuse : ◌≡◌ {A = Result A} (threw ex) (returned y) → ⊥
        refuse h = cc

pub is_success-eq :
    (status : ExecutionStatus) → is_success status ≡ true → status ≡ ExecutionStatus.success
unfolding is_success
is_success-eq status h = ground arith

module _ {L B T : Type 0} (setup : Setup L B T) where
  open setup use {primitives, ledger_db, tx_db, use_pufferfish}

  -- Nothing but the ledger may differ, which has the same balances and all the wallets.
  pub record LeavesNoTrace (c c' : BlockChain L B T) : Type 0 where
    pub rest : record c { ledger = c'.ledger } ≡ c'
    pub balances : (j : Bytes) → holding ledger_db c'.ledger j ≡ holding ledger_db c.ledger j
    pub wallets :
        (j : Bytes)
        → Ledger.has_wallet ledger_db c.ledger j ≡ true
        → Ledger.has_wallet ledger_db c'.ledger j ≡ true

  pub LeavesNoTrace-refl : (c : BlockChain L B T) → LeavesNoTrace c c
  LeavesNoTrace-refl c = record { rest = refl; balances = λ j. refl; wallets = λ j h. h }

  module _ (reliable : IsReliable ledger_db) where
    -- Over a reliable ledger, verifyTransaction always returns a status and changes no
    -- member, no balance and no other store of the chain, and loses no wallet.
    pub verify_transaction-LeavesNoTrace :
        (t : Transaction) (c : BlockChain L B T)
        → ((status : ExecutionStatus) × ((verify_transaction setup t c).0 ≡ returned status))
          × LeavesNoTrace c (verify_transaction setup t c).1
    unfolding verify_transaction
    verify_transaction-LeavesNoTrace t c = elim (Bool-cases t.is_transaction_fee) [
      | inl fee ↦ simp fee ((ExecutionStatus.extra_mining_fee, refl), LeavesNoTrace-refl c)
      | inr plain ↦ simp plain (elim (Bool-cases (not (signature_valid primitives t))) [
        | inl bad ↦ simp bad ((ExecutionStatus.invalid_signature, refl), LeavesNoTrace-refl c)
        | inr good ↦
            let ended =
              execute_transaction-ended primitives ledger_db tx_db reliable t
                (record { ledger = c.ledger; deltas = [] }) in
            let undone =
              rollback-execute_transaction primitives ledger_db tx_db reliable t c.ledger in
            simp good (
              rw (ended.1, verify_transaction)
                (rw (undone.0, verify_transaction)
                  ((_, refl), record { rest = refl; balances = undone.1; wallets = undone.2 })))
      ])
    ]

    execute_and_append-rejected :
        (block : Block) (c : BlockChain L B T) (status : ExecutionStatus)
        → (execute_and_append setup block c).0 ≡ returned status
        → status ≢ ExecutionStatus.success
        → LeavesNoTrace c (execute_and_append setup block c).1
    unfolding execute_and_append
    execute_and_append-rejected block c status e bad =
        let ran =
          execute_block-Executes primitives ledger_db tx_db reliable block c.txdb
            (get_current_mining_fee c) (record { ledger = c.ledger; deltas = [] }) in
        let undone =
          rollback-execute_block primitives ledger_db tx_db reliable block c.txdb
            (get_current_mining_fee c) c.ledger in
        let left = rw (ran.ended, execute_and_append) at e in
        rw (ran.ended, execute_and_append)
          (elim (Bool-cases (is_success ran.status)) [
            | inr failed ↦ rw failed (
                rw (undone.0, ◌>>=◌)
                  (record { rest = refl; balances = undone.1; wallets = undone.2 }))
            | inl fine ↦ absurd (
                bad (
                  sym (seq_pure (append_block setup block) ran.status status _ (rw fine at left))
                  ∙ is_success-eq ran.status fine))
          ])

    -- Over a reliable ledger, a block that addBlock answers with an error status changes no
    -- member, no other store and no balance of the chain, and loses no wallet.
    pub add_block-rejected :
        (network_time : ℕ) (block : Block) (c : BlockChain L B T) (status : ExecutionStatus)
        → (add_block setup network_time block c).0 ≡ returned status
        → status ≢ ExecutionStatus.success
        → LeavesNoTrace c (add_block setup network_time block c).1
    unfolding add_block
    add_block-rejected network_time block c status e bad =
        go (check_header setup network_time block c) refl
      where
        go :
            (r : Result ExecutionStatus)
            → check_header setup network_time block c ≡ r
            → LeavesNoTrace c (add_block setup network_time block c).1
        go (threw ex) q = rw (q, add_block) (LeavesNoTrace-refl c)
        go (returned early) q = elim (Bool-cases (is_success early)) [
          | inr failed ↦ rw (q, add_block) (rw failed (LeavesNoTrace-refl c))
          | inl fine ↦ elim (Option-cases (set_items primitives block.transactions).1) [
            | inl none_there ↦
                rw (q, add_block) (rw fine (rw (none_there, add_block) (LeavesNoTrace-refl c)))
            | inr (root, there) ↦ elim (Bool-cases (bytes_eq block.merkle_root (hash_of root))) [
              | inr other ↦
                  rw (q, add_block)
                    (rw fine (rw (there, add_block) (rw other (LeavesNoTrace-refl c))))
              | inl same ↦
                  rw (q, add_block)
                    (rw fine (
                      rw (there, add_block)
                        (rw same (
                          execute_and_append-rejected _ c status
                            (rw same at rw (there, add_block) at rw fine at rw (q, add_block) at e)
                            bad))))
            ]
          ]
        ]
