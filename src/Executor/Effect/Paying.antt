-- ===== src/Executor/Effect/Paying.antt =====
-- `UpdateLedger`: a call that returns success pays what the transaction says.
use shifupool.Base.{
  ℕ, ◌≡◌, refl, Bool, true, false, not, ◌&&◌, Bytes, bytes_eq_refl, arith, ltb, ◌==◌, if◌then◌else◌,
  Result, returned, Action, ◌>>◌, pure, Bool-cases, inl, inr,
}
use shifupool.Words.{add64}
use shifupool.Crypto.{Primitives}
use shifupool.Transaction.{Transaction}
use shifupool.DataStore.{LevelDb, IsReliable}
use shifupool.Ledger
use shifupool.Ledger.Balances.{holding, get_wallet_value-holding}
use shifupool.Executor.{
  Accounts, deposit, withdraw, transfer, send, update_ledger, wallet_mismatch,
  wallet_sig_fork_block,
}
use shifupool.Executor.Status.{ExecutionStatus}
use shifupool.Executor.Tracks.{deposit-Credits, withdraw-Debits, seq_returned, >>_assoc}
use shifupool.Executor.Effect.{
  at_wallet, Shifts, Shifts-refl, Shifts-trans, Shifts-as, Credits-Shifts, Debits-Shifts, Pays,
  gain_plain, cost_plain, gain_fee, cost_fee, not_success,
}

clash : {b : Bool} → b ≡ true → b ≡ false → ⊥
clash e f = cc

module _ {DB : Type 0} (p : Primitives) (db : LevelDb DB Bytes) (reliable : IsReliable db) where
  -- A withdrawal and the deposit of the same amount.
  record Moved (s : Accounts DB) (from to : Bytes) (x : ℕ) (r : Result (Unit {0}) × Accounts DB)
      : Type 0 where
    ended : r.0 ≡ returned tt
    shifts : Shifts db s.ledger r.1.ledger (at_wallet to x) (at_wallet from x)
    paid : Ledger.has_wallet db r.1.ledger to ≡ true

  move-Moved :
      (from to : Bytes) (x : ℕ) (s : Accounts DB)
      → Ledger.has_wallet db s.ledger from ≡ true
      → Moved s from to x ((withdraw db from x >> deposit db to x) s)
  move-Moved from to x s there =
      let d = withdraw-Debits db reliable from x s there in
      let s1 = (withdraw db from x s).1 in
      let c = deposit-Credits db reliable to x s1 in
      rw (seq_returned (withdraw db from x) (deposit db to x) s d.ended) (record {
        ended = c.ended;
        shifts =
            Shifts-as db (λ j. omega arith) (λ j. omega arith)
              (Shifts-trans db (Debits-Shifts db s from x _ d) (Credits-Shifts db s1 to x _ c));
        paid = ground (arith, c.has to, bytes_eq_refl to);
      })

  -- the part of a transfer that pays the fee
  pay_fee : Transaction → Bytes → Action (Accounts DB) (Unit {0})
  pay_fee t miner =
      if ltb 0 t.fee then (withdraw db t.from t.fee >> deposit db miner t.fee) else pure tt

  record FeePaid (s : Accounts DB) (t : Transaction) (miner : Bytes)
      (r : Result (Unit {0}) × Accounts DB) : Type 0 where
    ended : r.0 ≡ returned tt
    shifts : Shifts db s.ledger r.1.ledger (at_wallet miner t.fee) (at_wallet t.from t.fee)
    paid : ltb 0 t.fee ≡ true → Ledger.has_wallet db r.1.ledger miner ≡ true

  pay_fee-FeePaid :
      (t : Transaction) (miner : Bytes) (s : Accounts DB)
      → Ledger.has_wallet db s.ledger t.from ≡ true
      → FeePaid s t miner (pay_fee t miner s)
  unfolding pay_fee
  pay_fee-FeePaid t miner s there = elim (Bool-cases (ltb 0 t.fee)) [
    | inl some_fee ↦
        let m = move-Moved t.from miner t.fee s there in
        rw some_fee (record { ended = m.ended; shifts = m.shifts; paid = λ h. m.paid })
    | inr no_fee ↦ rw no_fee (record {
      ended = refl;
      shifts = Shifts-as db (λ j. ground arith) (λ j. ground arith) (Shifts-refl db s.ledger);
      paid = λ h. cc;
    })
  ]

  transfer-Pays :
      (t : Transaction) (miner : Bytes) (s : Accounts DB)
      → t.is_transaction_fee ≡ false
      → Ledger.has_wallet db s.ledger t.from ≡ true
      → Pays db s t miner (transfer p db t miner s)
  unfolding transfer pay_fee
  transfer-Pays t miner s plain there =
      let m = move-Moved t.from t.to t.amount s there in
      let s1 = ((withdraw db t.from t.amount >> deposit db t.to t.amount) s).1 in
      let f = pay_fee-FeePaid t miner s1 (m.shifts.kept t.from there) in
      rw
        (>>_assoc (withdraw db t.from t.amount) (deposit db t.to t.amount)
          (pay_fee t miner >> pure ExecutionStatus.success) s)
        (rw
          (seq_returned (withdraw db t.from t.amount >> deposit db t.to t.amount)
            (pay_fee t miner >> pure ExecutionStatus.success) s m.ended)
          (rw (seq_returned (pay_fee t miner) (pure ExecutionStatus.success) s1 f.ended) (record {
            ended = refl;
            shifts =
                Shifts-as db (gain_plain t miner plain) (cost_plain t plain)
                  (Shifts-trans db m.shifts f.shifts);
            known = record {
              to = f.shifts.kept t.to m.paid;
              from = λ h. f.shifts.kept t.from (m.shifts.kept t.from there);
              to_miner = λ h fee. f.paid fee;
            };
          })))

  deposit-Pays :
      (t : Transaction) (miner : Bytes) (s : Accounts DB)
      → t.is_transaction_fee ≡ true
      → Pays db s t miner ((deposit db t.to t.amount >> pure ExecutionStatus.success) s)
  deposit-Pays t miner s fee =
      let c = deposit-Credits db reliable t.to t.amount s in
      rw (seq_returned (deposit db t.to t.amount) (pure ExecutionStatus.success) s c.ended)
        (record {
          ended = refl;
          shifts =
              Shifts-as db (gain_fee t miner fee) (cost_fee t fee)
                (Credits-Shifts db s t.to t.amount _ c);
          known = record {
            to = ground (arith, c.has t.to, bytes_eq_refl t.to);
            from = λ h. absurd (clash fee h);
            to_miner = λ h _. absurd (clash fee h);
          };
        })

  send-Pays :
      (t : Transaction) (miner : Bytes) (s : Accounts DB)
      → t.is_transaction_fee ≡ false
      → (send p db t miner s).0 ≡ returned ExecutionStatus.success
      → Pays db s t miner (send p db t miner s)
  unfolding send
  send-Pays t miner s plain e = elim (Bool-cases (Ledger.has_wallet db s.ledger t.from)) [
    | inr missing ↦ absurd (not_success (λ h. cc) (rw missing at e))
    | inl there ↦
        let value = get_wallet_value-holding db s.ledger t.from there in
        elim (Bool-cases (ltb (holding db s.ledger t.from) (add64 t.amount t.fee))) [
          | inl low ↦ absurd (not_success (λ h. cc) (rw low at rw (there, value) at e))
          | inr enough ↦ rw (there, value) (rw enough (transfer-Pays t miner s plain there))
        ]
  ]

  pub update_ledger-Pays :
      (t : Transaction) (miner : Bytes) (block_mining_fee id : ℕ) (s : Accounts DB)
      → (id == 1) ≡ false
      → (update_ledger p db t miner block_mining_fee id s).0 ≡ returned ExecutionStatus.success
      → Pays db s t miner (update_ledger p db t miner block_mining_fee id s)
  unfolding update_ledger
  update_ledger-Pays t miner block_mining_fee id s later e =
      elim (Bool-cases
        (not t.is_transaction_fee && (ltb wallet_sig_fork_block id && wallet_mismatch p t))) [
          | inl mismatch ↦ absurd (not_success (λ h. cc) (rw mismatch at e))
          | inr fine ↦ elim (Bool-cases t.is_transaction_fee) [
            | inl fee ↦ elim (Bool-cases (t.amount == block_mining_fee)) [
              | inl equal ↦ rw fine (simp fee (rw equal (deposit-Pays t miner s fee)))
              | inr other ↦ absurd (not_success (λ h. cc) (rw other at simp fee at rw fine at e))
            ]
            | inr plain ↦ rw fine (
                simp plain
                  (rw later (send-Pays t miner s plain (rw later at simp plain at rw fine at e))))
          ]
        ]
