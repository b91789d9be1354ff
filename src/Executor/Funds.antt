-- ===== src/Executor/Funds.antt =====
-- Who can pay: the test of `updateLedger` on the sender's balance, with and without wrap-around.
use shifupool.Base.{
  ◌+◌, ◌-◌, ◌≤◌, ◌<◌, ◌≡◌, ◌↔◌, refl, true, Bytes, arith, ltb, returned, Bool-cases, inl, inr,
  tests,
}
use shifupool.Words.{u64_mod, add64}
use shifupool.Crypto.{Primitives}
use shifupool.Transaction.{Transaction}
use shifupool.DataStore.{LevelDb, IsReliable}
use shifupool.Ledger
use shifupool.Ledger.Balances.{holding, get_wallet_value-holding}
use shifupool.Executor.{Accounts, send}
use shifupool.Executor.Status.{ExecutionStatus}
use shifupool.Executor.Update.{transfer-Succeeds}

module _ {DB : Type 0} (p : Primitives) (db : LevelDb DB Bytes) (reliable : IsReliable db) where
  -- Over a reliable ledger, a transfer goes through exactly if the sender has a wallet that
  -- holds at least amount plus fee modulo 2^64.
  pub send-success :
      (t : Transaction) (miner : Bytes) (s : Accounts DB)
      → ((send p db t miner s).0 ≡ returned ExecutionStatus.success) ↔ (
          (Ledger.has_wallet db s.ledger t.from ≡ true)
          × (add64 t.amount t.fee ≤ holding db s.ledger t.from))
  unfolding send
  send-success t miner s = elim (Bool-cases (Ledger.has_wallet db s.ledger t.from)) [
    | inr missing ↦ rw missing (λ e. cc, λ h. cc)
    | inl there ↦
        let paid = transfer-Succeeds p db reliable t miner s there in
        rw (there, get_wallet_value-holding db s.ledger t.from there)
          (elim (Bool-cases (ltb (holding db s.ledger t.from) (add64 t.amount t.fee))) [
            | inl low ↦ rw low (λ e. cc, λ h. absurd (omega (tests, low, h.1)))
            | inr enough ↦ rw enough (λ e. (refl, omega (tests, enough)), λ h. paid.ended)
          ])
  ]

  -- Over a reliable ledger, where amount plus fee passes 2^64, a sender who holds only the rest
  -- of the sum modulo 2^64 passes the check although the balance is less than the amount.
  pub send-overflow :
      (t : Transaction) (miner : Bytes) (s : Accounts DB)
      → t.amount < u64_mod
      → t.fee < u64_mod
      → u64_mod ≤ t.amount + t.fee
      → Ledger.has_wallet db s.ledger t.from ≡ true
      → holding db s.ledger t.from ≡ t.amount + t.fee - u64_mod
      → ((send p db t miner s).0 ≡ returned ExecutionStatus.success)
        × (holding db s.ledger t.from < t.amount)
  send-overflow t miner s small_amount small_fee over there left =
      let (needs, suffices) = send-success t miner s in (suffices (there, omega arith), omega arith)
