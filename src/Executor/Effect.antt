-- ===== src/Executor/Effect.antt =====
-- What a transaction of a block after the genesis block adds to a wallet and takes from it.
pub mod Paying
pub mod Executed
use shifupool.Base.{
  ℕ, ◌+◌, ◌%◌, ◌≡◌, ◌≢◌, refl, sym, ap, ◌∙◌, subst, Bool, true, false, not, ◌&&◌, ◌||◌, List, [],
  ◌∷◌, Bytes, bytes_eq, bytes_eq_iff, bytes_eq_refl, All, arith, ltb, ◌==◌, ==_iff, if◌then◌else◌,
  Result, returned, returned_eq, Action, ◌>>=◌, ◌>>◌, pure, Bool-cases, inl, inr,
}
use shifupool.Words.{u64_mod, add64}
use shifupool.Crypto.{Primitives}
use shifupool.Transaction.{Transaction, signature_valid}
use shifupool.DataStore.{LevelDb, IsReliable}
use shifupool.Ledger
use shifupool.Ledger.Balances.{holding, get_wallet_value-holding}
use shifupool.Executor.{
  Accounts, deposit, withdraw, transfer, send, update_ledger, wallet_mismatch, execute_all,
  wallet_sig_fork_block,
}
use shifupool.Executor.Status.{ExecutionStatus, is_success}
use shifupool.Executor.Tracks.{
  Credits, Debits, deposit-Credits, withdraw-Debits, seq_returned, >>_assoc,
}

-- `x` for the wallet `w`
abbrev pub at_wallet : Bytes → ℕ → Bytes → ℕ
at_wallet w x j = if bytes_eq w j then x else 0

unfoldable pub gain : Transaction → Bytes → Bytes → ℕ
gain t miner j =
    at_wallet t.to t.amount j + (if t.is_transaction_fee then 0 else at_wallet miner t.fee j)

unfoldable pub cost : Transaction → Bytes → ℕ
cost t j =
    if t.is_transaction_fee then 0 else at_wallet t.from t.amount j + at_wallet t.from t.fee j

unfoldable pub gains : List Transaction → Bytes → Bytes → ℕ
gains [] miner j = 0
gains (t ∷ ts) miner j = gain t miner j + gains ts miner j

unfoldable pub costs : List Transaction → Bytes → ℕ
costs [] j = 0
costs (t ∷ ts) j = cost t j + costs ts j

module _ {DB : Type 0} (db : LevelDb DB Bytes) where
  -- From `l` to `l'` each wallet gained and lost amounts, and none was lost.
  pub record Shifts (l l' : DB) (plus minus : Bytes → ℕ) : Type 0 where
    pub drift :
        (j : Bytes) → (holding db l' j + minus j) % u64_mod ≡ (holding db l j + plus j) % u64_mod
    pub kept : (w : Bytes) → Ledger.has_wallet db l w ≡ true → Ledger.has_wallet db l' w ≡ true

  pub Shifts-refl : (l : DB) → Shifts l l (λ j. 0) (λ j. 0)
  Shifts-refl l = record { drift = λ j. refl; kept = λ w h. h }

  pub Shifts-trans :
      {l1 l2 l3 : DB} {p1 m1 p2 m2 : Bytes → ℕ}
      → Shifts l1 l2 p1 m1
      → Shifts l2 l3 p2 m2
      → Shifts l1 l3 (λ j. p1 j + p2 j) (λ j. m1 j + m2 j)
  Shifts-trans a b = record {
    drift = λ j. omega (arith, a.drift j, b.drift j);
    kept = λ w h. b.kept w (a.kept w h);
  }

  -- The same amounts, written in another way.
  pub Shifts-as :
      {l l' : DB} {p m p' m' : Bytes → ℕ}
      → ((j : Bytes) → p j ≡ p' j)
      → ((j : Bytes) → m j ≡ m' j)
      → Shifts l l' p m
      → Shifts l l' p' m'
  Shifts-as e f a = record { drift = λ j. omega (arith, a.drift j, e j, f j); kept = a.kept }

  -- The wallets that a transaction pays from and to exist.
  pub record Known (l : DB) (t : Transaction) (miner : Bytes) : Type 0 where
    pub to : Ledger.has_wallet db l t.to ≡ true
    pub from : t.is_transaction_fee ≡ false → Ledger.has_wallet db l t.from ≡ true
    pub to_miner :
        t.is_transaction_fee ≡ false → ltb 0 t.fee ≡ true → Ledger.has_wallet db l miner ≡ true

  pub Known-kept :
      {l l' : DB} (t : Transaction) (miner : Bytes)
      → ((w : Bytes) → Ledger.has_wallet db l w ≡ true → Ledger.has_wallet db l' w ≡ true)
      → Known l t miner
      → Known l' t miner
  Known-kept t miner kept k = record {
    to = kept t.to k.to;
    from = λ h. kept t.from (k.from h);
    to_miner = λ h fee. kept miner (k.to_miner h fee);
  }

  pub Credits-Shifts :
      (s : Accounts DB) (w : Bytes) (x : ℕ) (r : Result (Unit {0}) × Accounts DB)
      → Credits db s w x r
      → Shifts s.ledger r.1.ledger (at_wallet w x) (λ j. 0)
  Credits-Shifts s w x r c = record {
    drift = λ j. ground (arith, c.holds j);
    kept = λ v h. ground (arith, c.has v);
  }

  pub Debits-Shifts :
      (s : Accounts DB) (w : Bytes) (x : ℕ) (r : Result (Unit {0}) × Accounts DB)
      → Debits db s w x r
      → Shifts s.ledger r.1.ledger (λ j. 0) (at_wallet w x)
  Debits-Shifts s w x r c = record {
    drift = λ j. ground (arith, c.holds j);
    kept = λ v h. ground (arith, c.has v);
  }

  -- A call that succeeded, with these gains and costs.
  pub record Pays (s : Accounts DB) (t : Transaction) (miner : Bytes)
      (r : Result ExecutionStatus × Accounts DB) : Type 0 where
    pub ended : r.0 ≡ returned ExecutionStatus.success
    pub shifts : Shifts s.ledger r.1.ledger (gain t miner) (cost t)
    pub known : Known r.1.ledger t miner

pub gain_plain :
    (t : Transaction) (miner : Bytes)
    → t.is_transaction_fee ≡ false
    → (j : Bytes) → at_wallet t.to t.amount j + at_wallet miner t.fee j ≡ gain t miner j
unfolding gain
gain_plain t miner plain j = simp plain refl

pub cost_plain :
    (t : Transaction)
    → t.is_transaction_fee ≡ false
    → (j : Bytes) → at_wallet t.from t.amount j + at_wallet t.from t.fee j ≡ cost t j
unfolding cost
cost_plain t plain j = simp plain refl

pub gain_fee :
    (t : Transaction) (miner : Bytes)
    → t.is_transaction_fee ≡ true
    → (j : Bytes) → at_wallet t.to t.amount j ≡ gain t miner j
unfolding gain
gain_fee t miner fee j = simp fee (omega arith)

pub cost_fee : (t : Transaction) → t.is_transaction_fee ≡ true → (j : Bytes) → 0 ≡ cost t j
unfolding cost
cost_fee t fee j = simp fee refl

pub not_success :
    {status : ExecutionStatus}
    → status ≢ ExecutionStatus.success
    → ◌≡◌ {A = Result ExecutionStatus} (returned status) (returned ExecutionStatus.success)
    → ⊥
not_success bad e = bad (returned_eq e)
