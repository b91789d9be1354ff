-- ===== src/Executor/Update.antt =====
-- What `updateLedger` does, on every branch: it never throws, it changes nothing unless it succeeds,
-- its changes are recorded, and a transfer creates no money.
use shifupool.Base.{
  ℕ, ◌+◌, ◌%◌, ◌≡◌, ◌≢◌, refl, ap, subst, true, not, ◌&&◌, Bytes, arith, ltb, ◌==◌, ==_iff,
  if◌then◌else◌, Result, returned, Action, ◌>>◌, pure, Bool-cases, ◌⊎◌, inl, inr,
}
use shifupool.Words.{u64_mod, add64}
use shifupool.Crypto.{Primitives}
use shifupool.Transaction.{Transaction}
use shifupool.DataStore.{LevelDb, IsReliable}
use shifupool.Ledger
use shifupool.Ledger.Balances.{holding, get_wallet_value-holding}
use shifupool.Executor.{
  Accounts, deposit, withdraw, transfer, send, update_ledger, wallet_mismatch,
  wallet_sig_fork_block,
}
use shifupool.Executor.Status.{ExecutionStatus}
use shifupool.Executor.Deltas.{total, total-credit_delta, total-debit_delta}
use shifupool.Executor.Tracks.{
  Tracks, Tracks-refl, Tracks-trans, Credits-Tracks, Debits-Tracks, deposit-Credits,
  withdraw-Debits, seq_returned, >>_assoc,
}

-- What a transaction adds to the sum of all balances: the block's mining fee for the mining fee,
-- the whole amount in the genesis block, nothing otherwise.
unfoldable pub minted_by : Transaction → ℕ → ℕ → ℕ
minted_by t block_mining_fee block_id =
    if t.is_transaction_fee then block_mining_fee else if block_id == 1 then t.amount else 0

module _ {DB : Type 0} (db : LevelDb DB Bytes) where
  -- A call that succeeded, kept the record exact and added `minted` to the sum of the changes.
  pub record Succeeds (s : Accounts DB) (minted : ℕ) (r : Result ExecutionStatus × Accounts DB)
      : Type 0 where
    pub ended : r.0 ≡ returned ExecutionStatus.success
    pub tracked : Tracks db s r.1
    pub sum : total r.1.deltas % u64_mod ≡ (total s.deltas + minted) % u64_mod

  -- A withdrawal and the deposit of the same amount, which together keep the sum.
  pub record Moves (s s' : Accounts DB) : Type 0 where
    pub tracked : Tracks db s s'
    pub sum : total s'.deltas % u64_mod ≡ total s.deltas % u64_mod

  -- A call that either succeeded or returned an error status and changed nothing.
  unfoldable pub Outcome : Accounts DB → ℕ → Result ExecutionStatus × Accounts DB → Type 0
  Outcome s minted r =
      Succeeds s minted r
      ⊎ ((status : ExecutionStatus) × (status ≢ ExecutionStatus.success)
          × (r ≡ (returned status, s)))

  pub Outcome-Tracks :
      (s : Accounts DB) (minted : ℕ) (r : Result ExecutionStatus × Accounts DB)
      → Outcome s minted r
      → Tracks db s r.1
  unfolding Outcome
  Outcome-Tracks s minted r (inl good) = good.tracked
  Outcome-Tracks s minted r (inr (status, bad, same)) = rw same (Tracks-refl db s)

module _ {DB : Type 0} (p : Primitives) (db : LevelDb DB Bytes) (reliable : IsReliable db) where
  pub deposit-Succeeds :
      (to : Bytes) (amt : ℕ) (s : Accounts DB)
      → Succeeds db s amt ((deposit db to amt >> pure ExecutionStatus.success) s)
  deposit-Succeeds to amt s =
      let c = deposit-Credits db reliable to amt s in
      rw (seq_returned (deposit db to amt) (pure ExecutionStatus.success) s c.ended) (record {
        ended = refl;
        tracked = Credits-Tracks db s to amt _ c;
        sum = rw c.changed (total-credit_delta to amt s.deltas);
      })

  move : Bytes → Bytes → ℕ → Action (Accounts DB) (Unit {0})
  move from to amt = withdraw db from amt >> deposit db to amt

  move-Moves :
      (from to : Bytes) (amt : ℕ) (s : Accounts DB)
      → Ledger.has_wallet db s.ledger from ≡ true
      → ((move from to amt s).0 ≡ returned tt) × Moves db s (move from to amt s).1
  unfolding move
  move-Moves from to amt s there =
      let d = withdraw-Debits db reliable from amt s there in
      let s1 = (withdraw db from amt s).1 in
      let c = deposit-Credits db reliable to amt s1 in
      rw (seq_returned (withdraw db from amt) (deposit db to amt) s d.ended) (
        c.ended,
        record {
          tracked =
              Tracks-trans db (Debits-Tracks db s from amt _ d) (Credits-Tracks db s1 to amt _ c);
          sum = rw c.changed (
              let e = ap total d.changed in
              omega (
                arith,
                total-credit_delta to amt s1.deltas,
                total-debit_delta from amt s.deltas,
                e,
              ));
        },
      )

  -- the part of `updateLedger` that pays the fee
  pay_fee : Transaction → Bytes → Action (Accounts DB) (Unit {0})
  pay_fee t miner =
      if ltb 0 t.fee then (withdraw db t.from t.fee >> deposit db miner t.fee) else pure tt

  pay_fee-Moves :
      (t : Transaction) (miner : Bytes) (s : Accounts DB)
      → Ledger.has_wallet db s.ledger t.from ≡ true
      → ((pay_fee t miner s).0 ≡ returned tt) × Moves db s (pay_fee t miner s).1
  unfolding pay_fee move
  pay_fee-Moves t miner s there = elim (Bool-cases (ltb 0 t.fee)) [
    | inl some_fee ↦ rw some_fee (move-Moves t.from miner t.fee s there)
    | inr no_fee ↦ rw no_fee (refl, record { tracked = Tracks-refl db s; sum = refl })
  ]

  pub transfer-Succeeds :
      (t : Transaction) (miner : Bytes) (s : Accounts DB)
      → Ledger.has_wallet db s.ledger t.from ≡ true
      → Succeeds db s 0 (transfer p db t miner s)
  unfolding transfer move pay_fee
  transfer-Succeeds t miner s there =
      let (ended1, m1) = move-Moves t.from t.to t.amount s there in
      let s1 = (move t.from t.to t.amount s).1 in
      let (ended2, m2) = pay_fee-Moves t miner s1 ((m1.tracked.at t.from).kept there) in
      rw
        (>>_assoc (withdraw db t.from t.amount) (deposit db t.to t.amount)
          (pay_fee t miner >> pure ExecutionStatus.success) s)
        (rw
          (seq_returned (move t.from t.to t.amount)
            (pay_fee t miner >> pure ExecutionStatus.success) s ended1)
          (rw (seq_returned (pay_fee t miner) (pure ExecutionStatus.success) s1 ended2) (record {
            ended = refl;
            tracked = Tracks-trans db m1.tracked m2.tracked;
            sum = omega (arith, m1.sum, m2.sum);
          })))

  send-Outcome :
      (t : Transaction) (miner : Bytes) (s : Accounts DB) → Outcome db s 0 (send p db t miner s)
  unfolding send Outcome
  send-Outcome t miner s = elim (Bool-cases (Ledger.has_wallet db s.ledger t.from)) [
    | inr missing ↦ rw missing (inr (ExecutionStatus.sender_does_not_exist, λ e. cc, refl))
    | inl there ↦
        rw (there, get_wallet_value-holding db s.ledger t.from there)
          (elim (Bool-cases (ltb (holding db s.ledger t.from) (add64 t.amount t.fee))) [
            | inl low ↦ rw low (inr (ExecutionStatus.balance_too_low, λ e. cc, refl))
            | inr enough ↦ rw enough (inl (transfer-Succeeds t miner s there))
          ])
  ]

  -- Over a reliable ledger, updateLedger never throws; it succeeds with every change recorded
  -- and the sum of changes grown by what the transaction may mint, or returns an error status
  -- and changes nothing.
  pub update_ledger-Outcome :
      (t : Transaction) (miner : Bytes) (block_mining_fee block_id : ℕ) (s : Accounts DB)
      → Outcome db s
          (minted_by t block_mining_fee block_id)
          (update_ledger p db t miner block_mining_fee block_id s)
  unfolding update_ledger Outcome minted_by
  update_ledger-Outcome t miner fee id s =
      elim (Bool-cases
        (not t.is_transaction_fee && (ltb wallet_sig_fork_block id && wallet_mismatch p t))) [
          | inl mismatch ↦
              rw mismatch (inr (ExecutionStatus.wallet_signature_mismatch, λ e. cc, refl))
          | inr fine ↦ rw fine (elim (Bool-cases t.is_transaction_fee) [
            | inl is_fee ↦ simp is_fee (elim (Bool-cases (t.amount == fee)) [
              | inl equal ↦ rw equal (
                  inl (
                    subst
                      (λ x.
                        Succeeds db s x
                          ((deposit db t.to t.amount >> pure ExecutionStatus.success) s))
                      ((==_iff t.amount fee).0 equal) (deposit-Succeeds t.to t.amount s)))
              | inr other ↦ rw other (inr (ExecutionStatus.incorrect_mining_fee, λ e. cc, refl))
            ])
            | inr no_fee ↦ simp no_fee (elim (Bool-cases (id == 1)) [
              | inl genesis ↦ rw genesis (inl (deposit-Succeeds t.to t.amount s))
              | inr later ↦ rw later (send-Outcome t miner s)
            ])
          ])
        ]
