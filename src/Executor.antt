-- ===== src/Executor.antt =====
-- c++/src/server/executor.hpp and executor.cpp: what a transaction and a block do to the ledger, and
-- how it is undone. The ledger and the record of the changes made so far (`deltas`) are the state of
-- an action; what was written before an error or an exception stays written.
pub mod Status
pub mod Deltas
pub mod Tracks
pub mod Update
pub mod Execute
pub mod Funds
pub mod Rollback
pub mod Effect
pub mod Undo
use mathlib.Core.List.{reverse}
use shifupool.Base.{
  ℕ, ◌+◌, ◌≡◌, Bool, true, false, not, ◌&&◌, Option, none, some, List, [], ◌∷◌, Bytes, bytes_eq,
  ltb, ◌==◌, if◌then◌else◌, ◌⊎◌, inl, inr, Result, returned, threw, Exception, Action, ◌>>=◌, ◌>>◌,
  pure, throw,
}
use shifupool.Words.{add64}
use shifupool.Helpers.{bmb_halves}
use shifupool.Crypto.{Primitives, null_address, wallet_address_from_public_key}
use shifupool.Transaction.{Transaction, signature_valid}
use shifupool.Block.{Block}
use shifupool.DataStore.{LevelDb}
use shifupool.Ledger
use shifupool.TxStore.{has_transaction, remove_transaction}
use Status.{ExecutionStatus, is_success}
use Deltas.{LedgerState, credit_delta, debit_delta}

-- `WALLET_SIG_FORK_BLOCK`
abbrev pub wallet_sig_fork_block : ℕ
wallet_sig_fork_block = 11500

pub record Accounts (DB : Type 0) : Type 0 where
  pub ledger : DB
  pub deltas : LedgerState

-- A call on the ledger alone.
abbrev pub on_ledger : {DB A : Type 0} → Action DB A → Action (Accounts DB) A
on_ledger m s = let (r, l) = m s.ledger in (r, record s { ledger = l })

-- A loop that ends at the first exception.
abbrev pub for_each : {S A : Type 0} → (A → Action S (Unit {0})) → List A → Action S (Unit {0})
for_each body [] = pure tt
for_each body (x ∷ xs) = body x >> for_each body xs

module _ {DB : Type 0} (db : LevelDb DB Bytes) where
  note_credit : Bytes → ℕ → Action (Accounts DB) (Unit {0})
  note_credit to amt s = (returned tt, record s { deltas = credit_delta to amt s.deltas })

  note_debit : Bytes → ℕ → Action (Accounts DB) (Unit {0})
  note_debit from amt s = (returned tt, record s { deltas = debit_delta from amt s.deltas })

  create_if_missing : Bytes → Action (Accounts DB) (Unit {0})
  create_if_missing to s =
      if not (Ledger.has_wallet db s.ledger to)
      then on_ledger (Ledger.create_wallet db to) s
      else pure tt s

  unfoldable pub deposit : Bytes → ℕ → Action (Accounts DB) (Unit {0})
  unfolding create_if_missing note_credit
  deposit to amt = do create_if_missing to; on_ledger (Ledger.deposit db to amt); note_credit to amt

  unfoldable pub withdraw : Bytes → ℕ → Action (Accounts DB) (Unit {0})
  unfolding note_debit
  withdraw from amt s =
      if Ledger.has_wallet db s.ledger from
      then (on_ledger (Ledger.withdraw db from amt) >> note_debit from amt) s
      else throw Exception.withdraw_from_nonexistent s

  -- `Rollback` takes the change of each wallet back.
  unfoldable pub rollback : LedgerState → Action DB (Unit {0})
  rollback deltas = for_each (λ e. Ledger.withdraw db e.0 e.1) deltas

  unfoldable pub rollback_ledger : Transaction → Bytes → Action DB (Unit {0})
  rollback_ledger t miner =
      if t.is_transaction_fee then Ledger.revert_deposit db t.to t.amount else (do
        Ledger.revert_deposit db t.to t.amount
        Ledger.revert_send db t.from t.amount
        if ltb 0 t.fee
            then (Ledger.revert_deposit db miner t.fee >> Ledger.revert_send db t.from t.fee)
            else pure tt)

-- The key of a transaction is not the one that its sender's address was made from.
module _ (p : Primitives) where
  unfoldable pub wallet_mismatch : Transaction → Bool
  wallet_mismatch t = not (bytes_eq (wallet_address_from_public_key p t.signing_key) t.from)

module _ {DB : Type 0} (p : Primitives) (db : LevelDb DB Bytes) where
  -- the transfer itself, once the sender is known to be able to pay
  unfoldable pub transfer : Transaction → Bytes → Action (Accounts DB) ExecutionStatus
  transfer t miner = do
    withdraw db t.from t.amount
    deposit db t.to t.amount
    if ltb 0 t.fee then (withdraw db t.from t.fee >> deposit db miner t.fee) else pure tt
    pure ExecutionStatus.success

  -- the checks on the sender
  unfoldable pub send : Transaction → Bytes → Action (Accounts DB) ExecutionStatus
  send t miner s =
      if not (Ledger.has_wallet db s.ledger t.from)
      then pure ExecutionStatus.sender_does_not_exist s
      else elim (Ledger.get_wallet_value db s.ledger t.from) [
        | threw e ↦ throw e s
        | returned total ↦
            if ltb total (add64 t.amount t.fee)
            then pure ExecutionStatus.balance_too_low s
            else transfer t miner s
      ]

  unfoldable pub update_ledger : Transaction → Bytes → ℕ → ℕ → Action (Accounts DB) ExecutionStatus
  update_ledger t miner block_mining_fee block_id =
      if not t.is_transaction_fee && (ltb wallet_sig_fork_block block_id && wallet_mismatch p t)
      then pure ExecutionStatus.wallet_signature_mismatch
      else if t.is_transaction_fee
      then (if t.amount == block_mining_fee
          then (deposit db t.to t.amount >> pure ExecutionStatus.success)
          else pure ExecutionStatus.incorrect_mining_fee)
      else if block_id == 1
      then (deposit db t.to t.amount >> pure ExecutionStatus.success)
      else send t miner

  unfoldable pub execute_transaction : Transaction → Action (Accounts DB) ExecutionStatus
  execute_transaction t =
      if not t.is_transaction_fee && not (signature_valid p t)
      then pure ExecutionStatus.invalid_signature
      else if not t.is_transaction_fee && wallet_mismatch p t
      then pure ExecutionStatus.wallet_signature_mismatch
      else update_ledger t null_address (bmb_halves 0) 0

-- The variables of the first loop of `ExecuteBlock`; the last two are read only once a fee was found.
pub record FeeSearch : Type 0 where
  pub found_fee : Bool
  pub miner : Bytes
  pub mining_fee : ℕ

module _ {DB TB : Type 0} (p : Primitives) (db : LevelDb DB Bytes) (tdb : LevelDb TB Bytes) where
  -- One round of that loop: an early return on the left, the loop's variables on the right.
  unfoldable pub scan_step : ℕ → TB → Transaction → FeeSearch → ExecutionStatus ⊎ FeeSearch
  scan_step id txdb t f =
      let signed = λ (f' : FeeSearch).
        if not t.is_transaction_fee && (ltb wallet_sig_fork_block id && wallet_mismatch p t)
        then inl ExecutionStatus.wallet_signature_mismatch
        else inr f' in
      if t.is_transaction_fee
      then (if f.found_fee
          then inl ExecutionStatus.extra_mining_fee
          else signed (record { found_fee = true; miner = t.to; mining_fee = t.amount }))
      else if has_transaction p tdb txdb t && not (id == 1)
      then inl ExecutionStatus.expired_transaction
      else signed f

  unfoldable pub scan : ℕ → TB → List Transaction → FeeSearch → ExecutionStatus ⊎ FeeSearch
  scan id txdb [] f = inr f
  scan id txdb (t ∷ ts) f = elim (scan_step id txdb t f) [
    | inl status ↦ inl status
    | inr f' ↦ scan id txdb ts f'
  ]

  -- The second loop.
  unfoldable pub execute_all :
      ℕ → ℕ → Bytes → List Transaction → Action (Accounts DB) ExecutionStatus
  execute_all id block_mining_fee miner [] = pure ExecutionStatus.success
  execute_all id block_mining_fee miner (t ∷ ts) =
      let rest = execute_all id block_mining_fee miner ts in
      if not t.is_transaction_fee && (not (signature_valid p t) && not (id == 1))
      then pure ExecutionStatus.invalid_signature
      else (do
        status ← update_ledger p db t miner block_mining_fee id
        if is_success status then rest else pure status)

  unfoldable pub execute_block : Block → TB → ℕ → Action (Accounts DB) ExecutionStatus
  execute_block curr txdb block_mining_fee =
      elim (scan curr.id txdb curr.transactions
        (record { found_fee = false; miner = null_address; mining_fee = 0 })) [
          | inl status ↦ pure status
          | inr f ↦
              if not f.found_fee
              then pure ExecutionStatus.no_mining_fee
              else if not (f.mining_fee == block_mining_fee)
              then pure ExecutionStatus.incorrect_mining_fee
              else execute_all curr.id block_mining_fee f.miner curr.transactions
        ]

-- The stores that `RollbackBlock` changes.
pub record Stores (DB TB : Type 0) : Type 0 where
  pub ledger : DB
  pub txdb : TB

module _ {DB TB : Type 0} (p : Primitives) (db : LevelDb DB Bytes) (tdb : LevelDb TB Bytes) where
  -- The first mining fee names the miner; with none the variable is uninitialised.
  unfoldable pub find_miner : Bytes → List Transaction → Bytes
  find_miner stale [] = stale
  find_miner stale (t ∷ ts) = if t.is_transaction_fee then t.to else find_miner stale ts

  unfoldable pub rollback_one : Bytes → Transaction → Action (Stores DB TB) (Unit {0})
  rollback_one miner t s =
      let (r, l) = rollback_ledger db t miner s.ledger in
      elim r [
        | threw e ↦ (threw e, record s { ledger = l })
        | returned _ ↦
            if not t.is_transaction_fee
            then (let (r', d) = remove_transaction p tdb t s.txdb in
                (r', record { ledger = l; txdb = d }))
            else (returned tt, record s { ledger = l })
      ]

  -- from the last transaction to the first
  unfoldable pub rollback_block : Bytes → Block → Action (Stores DB TB) (Unit {0})
  rollback_block stale curr =
      for_each (rollback_one (find_miner stale curr.transactions)) (reverse curr.transactions)
