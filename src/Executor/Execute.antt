-- ===== src/Executor/Execute.antt =====
-- `Executor::ExecuteBlock` and `Executor::ExecuteTransaction`: on every outcome the record of changes
-- is exact, so that `Rollback` restores the balances; and a block mints exactly its mining fee.
use shifupool.Base.{
  ℕ, ◌+◌, ◌%◌, ◌≡◌, ◌≢◌, refl, ap, subst, true, false, not, ◌&&◌, ◌⊎◌, inl, inr, List, [], ◌∷◌,
  Bytes, arith, ◌==◌, if◌then◌else◌, Result, returned, ◌>>=◌, Bool-cases,
}
use shifupool.Words.{u64_mod}
use shifupool.Helpers.{bmb_halves}
use shifupool.Crypto.{Primitives, null_address}
use shifupool.Transaction.{Transaction, signature_valid}
use shifupool.Block.{Block}
use shifupool.DataStore.{LevelDb, IsReliable}
use shifupool.Ledger
use shifupool.Ledger.Balances.{holding}
use shifupool.Executor.{
  Accounts, FeeSearch, update_ledger, execute_transaction, scan_step, scan, execute_all,
  execute_block, rollback, wallet_mismatch,
}
use shifupool.Executor.Status.{ExecutionStatus, is_success}
use shifupool.Executor.Deltas.{total}
use shifupool.Executor.Tracks.{Tracks, Tracks-refl, Tracks-trans}
use shifupool.Executor.Update.{Outcome, minted_by, update_ledger-Outcome, Outcome-Tracks}
use shifupool.Executor.Rollback.{rollback-Tracks}

-- What the transactions of a block add to the sum of all balances.
unfoldable pub minted : List Transaction → ℕ → ℕ → ℕ
minted [] fee id = 0
minted (t ∷ ts) fee id = minted_by t fee id + minted ts fee id

is_success-ne :
    (status : ExecutionStatus) → status ≢ ExecutionStatus.success → is_success status ≡ false
unfolding is_success
is_success-ne ExecutionStatus.success h = absurd (h refl)
is_success-ne _ h = refl

module _ {DB TB : Type 0} (p : Primitives) (db : LevelDb DB Bytes) (tdb : LevelDb TB Bytes) where
  scan_step-minted :
      (id fee : ℕ) (txdb : TB) (t : Transaction) (f f' : FeeSearch)
      → (id == 1) ≡ false
      → scan_step p db tdb id txdb t f ≡ inr f'
      → minted_by t fee id + (if f.found_fee then fee else 0) ≡ (if f'.found_fee then fee else 0)
  unfolding scan_step minted_by
  scan_step-minted id fee txdb t f f' later e = ground arith

  -- A list that passes the first loop has a mining fee exactly if one was found.
  scan-minted :
      (id fee : ℕ) (txdb : TB) (ts : List Transaction) (f f' : FeeSearch)
      → (id == 1) ≡ false
      → scan p db tdb id txdb ts f ≡ inr f'
      → minted ts fee id + (if f.found_fee then fee else 0) ≡ (if f'.found_fee then fee else 0)
  unfolding scan minted
  scan-minted id fee txdb [] f f' later e = ground arith
  scan-minted id fee txdb (t ∷ ts) f f' later e =
      go (scan_step p db tdb id txdb t f) refl (λ f1. scan-minted id fee txdb ts f1 f' later)
    where
      go :
          (r : ExecutionStatus ⊎ FeeSearch)
          → scan_step p db tdb id txdb t f ≡ r
          → ((f1 : FeeSearch)
              → scan p db tdb id txdb ts f1 ≡ inr f'
              → minted ts fee id + (if f1.found_fee then fee else 0)
                ≡ (if f'.found_fee then fee else 0))
          → minted_by t fee id + minted ts fee id + (if f.found_fee then fee else 0)
            ≡ (if f'.found_fee then fee else 0)
      go (inl status) q ih = ground arith
      go (inr f1) q ih =
          ground (arith, scan_step-minted id fee txdb t f f1 later q, ih f1 (rw (q, scan) at e))

  -- An early return of the first loop is an error.
  scan_step-ne :
      (id : ℕ) (txdb : TB) (t : Transaction) (f : FeeSearch) (status : ExecutionStatus)
      → scan_step p db tdb id txdb t f ≡ inl status
      → status ≢ ExecutionStatus.success
  unfolding scan_step
  scan_step-ne id txdb t f status e good = ground arith

  pub scan-ne :
      (id : ℕ) (txdb : TB) (ts : List Transaction) (f : FeeSearch) (status : ExecutionStatus)
      → scan p db tdb id txdb ts f ≡ inl status
      → status ≢ ExecutionStatus.success
  unfolding scan
  scan-ne id txdb [] f status e = cc
  scan-ne id txdb (t ∷ ts) f status e =
      go (scan_step p db tdb id txdb t f) refl (λ f1. scan-ne id txdb ts f1 status)
    where
      go :
          (r : ExecutionStatus ⊎ FeeSearch)
          → scan_step p db tdb id txdb t f ≡ r
          → ((f1 : FeeSearch)
              → scan p db tdb id txdb ts f1 ≡ inl status
              → status ≢ ExecutionStatus.success)
          → status ≢ ExecutionStatus.success
      go (inl early) q ih =
          let same : ◌≡◌ {A = ExecutionStatus ⊎ FeeSearch} (inl early) (inl status) =
            rw (q, scan) at e in
          scan_step-ne id txdb t f status (rw q same)
      go (inr f1) q ih = ih f1 (rw (q, scan) at e)

  -- A call that returned a status, kept the record exact, and on success minted `amount`.
  pub record Executes (s : Accounts DB) (amount : ℕ) (r : Result ExecutionStatus × Accounts DB)
      : Type 0 where
    pub status : ExecutionStatus
    pub ended : r.0 ≡ returned status
    pub tracked : Tracks db s r.1
    pub sum :
        status ≡ ExecutionStatus.success
        → total r.1.deltas % u64_mod ≡ (total s.deltas + amount) % u64_mod

  stops :
      (status : ExecutionStatus) (s : Accounts DB) (amount : ℕ)
      → status ≢ ExecutionStatus.success
      → Executes s amount (returned status, s)
  stops status s amount h = record {
    status = status;
    ended = refl;
    tracked = Tracks-refl db s;
    sum = λ e. absurd (h e);
  }

  start : FeeSearch
  start = record { found_fee = false; miner = null_address; mining_fee = 0 }

  module _ (reliable : IsReliable db) where
    execute_transaction-Tracks :
        (t : Transaction) (s : Accounts DB) → Tracks db s (execute_transaction p db t s).1
    unfolding execute_transaction Outcome
    execute_transaction-Tracks t s =
        elim (Bool-cases (not t.is_transaction_fee && not (signature_valid p t))) [
          | inl unsigned ↦ rw unsigned (Tracks-refl db s)
          | inr signed ↦
              rw signed (elim (Bool-cases (not t.is_transaction_fee && wallet_mismatch p t)) [
                | inl mismatch ↦ rw mismatch (Tracks-refl db s)
                | inr fine ↦ rw fine (
                    Outcome-Tracks db s _ _
                      (update_ledger-Outcome p db reliable t null_address (bmb_halves 0) 0 s))
              ])
        ]

    pub execute_transaction-ended :
        (t : Transaction) (s : Accounts DB)
        → (status : ExecutionStatus) × ((execute_transaction p db t s).0 ≡ returned status)
    unfolding execute_transaction Outcome
    execute_transaction-ended t s =
        elim (Bool-cases (not t.is_transaction_fee && not (signature_valid p t))) [
          | inl unsigned ↦ rw unsigned (ExecutionStatus.invalid_signature, refl)
          | inr signed ↦
              rw signed (elim (Bool-cases (not t.is_transaction_fee && wallet_mismatch p t)) [
                | inl mismatch ↦ rw mismatch (ExecutionStatus.wallet_signature_mismatch, refl)
                | inr fine ↦
                    rw fine
                      (elim (update_ledger-Outcome p db reliable t null_address (bmb_halves 0) 0
                        s) [
                          | inl good ↦ (ExecutionStatus.success, good.ended)
                          | inr (status, bad, same) ↦ (status, ap (λ r. r.0) same)
                        ])
              ])
        ]

    execute_all-Executes :
        (id fee : ℕ) (miner : Bytes) (ts : List Transaction) (s : Accounts DB)
        → Executes s (minted ts fee id) (execute_all p db tdb id fee miner ts s)
    unfolding execute_all minted Outcome is_success
    execute_all-Executes id fee miner [] s = record {
      status = ExecutionStatus.success;
      ended = refl;
      tracked = Tracks-refl db s;
      sum = λ e. omega arith;
    }
    execute_all-Executes id fee miner (t ∷ ts) s =
        elim (Bool-cases
          (not t.is_transaction_fee && (not (signature_valid p t) && not (id == 1)))) [
            | inl unsigned ↦ rw unsigned (stops ExecutionStatus.invalid_signature s _ (λ e. cc))
            | inr signed ↦ rw signed (elim (update_ledger-Outcome p db reliable t miner fee id s) [
              | inl good ↦
                  let s1 = (update_ledger p db t miner fee id s).1 in
                  let rest = execute_all-Executes id fee miner ts s1 in
                  rw (good.ended, ◌>>=◌)
                    (record {
                      status = rest.status;
                      ended = rest.ended;
                      tracked = Tracks-trans db good.tracked rest.tracked;
                      sum = λ e. omega (arith, rest.sum e, good.sum);
                    })
              | inr (status, bad, same) ↦
                  rw (same, ◌>>=◌, is_success-ne status bad) (rw same (stops status s _ bad))
            ])
          ]

    -- the first loop, the tests on the fee that it found, and the second loop
    execute_block_with :
        (curr : Block) (txdb : TB) (fee amount : ℕ) (s : Accounts DB)
        → ((f : FeeSearch)
            → scan p db tdb curr.id txdb curr.transactions start ≡ inr f
            → f.found_fee ≡ true
            → minted curr.transactions fee curr.id ≡ amount)
        → Executes s amount (execute_block p db tdb curr txdb fee s)
    unfolding execute_block start
    execute_block_with curr txdb fee amount s mints =
        go (scan p db tdb curr.id txdb curr.transactions start) refl
      where
        go :
            (r : ExecutionStatus ⊎ FeeSearch)
            → scan p db tdb curr.id txdb curr.transactions start ≡ r
            → Executes s amount (execute_block p db tdb curr txdb fee s)
        go (inl status) e =
            rw (e, execute_block)
              (stops status s amount (scan-ne curr.id txdb curr.transactions start status e))
        go (inr f) e =
            rw (e, execute_block)
              (elim (Bool-cases f.found_fee) [
                | inr none_found ↦
                    simp none_found (stops ExecutionStatus.no_mining_fee s amount (λ e. cc))
                | inl found ↦ simp found (elim (Bool-cases (f.mining_fee == fee)) [
                  | inr other ↦
                      simp other (stops ExecutionStatus.incorrect_mining_fee s amount (λ e. cc))
                  | inl equal ↦ simp equal (
                      subst
                        (λ x.
                          Executes s x
                            (execute_all p db tdb curr.id fee f.miner curr.transactions s))
                        (mints f e found)
                        (execute_all-Executes curr.id fee f.miner curr.transactions s))
                ])
              ])

    -- `ExecuteBlock` of any block
    pub execute_block-Executes :
        (curr : Block) (txdb : TB) (fee : ℕ) (s : Accounts DB)
        → Executes s (minted curr.transactions fee curr.id) (execute_block p db tdb curr txdb fee s)
    execute_block-Executes curr txdb fee s =
        execute_block_with curr txdb fee _ s (λ f e found. refl)

    -- Over a reliable ledger, executing a block after the genesis block never throws, keeps
    -- the record of changes exact on every outcome, and on success adds exactly the mining
    -- fee to the sum of the recorded changes modulo 2^64.
    pub execute_block-mints :
        (curr : Block) (txdb : TB) (fee : ℕ) (s : Accounts DB)
        → (curr.id == 1) ≡ false
        → Executes s fee (execute_block p db tdb curr txdb fee s)
    unfolding start
    execute_block-mints curr txdb fee s later = execute_block_with curr txdb fee fee s (λ f e found.
        ground (arith, scan-minted curr.id fee txdb curr.transactions start f later e))

    -- Over a reliable ledger, executing any block with any outcome and rolling the recorded
    -- changes back does not throw, restores every balance and keeps every wallet.
    pub rollback-execute_block :
        (curr : Block) (txdb : TB) (fee : ℕ) (l : DB)
        → let s = (execute_block p db tdb curr txdb fee (record { ledger = l; deltas = [] })).1 in
          ((rollback db s.deltas s.ledger).0 ≡ returned tt)
          × ((j : Bytes) → holding db (rollback db s.deltas s.ledger).1 j ≡ holding db l j)
          × ((j : Bytes)
              → Ledger.has_wallet db l j ≡ true
              → Ledger.has_wallet db (rollback db s.deltas s.ledger).1 j ≡ true)
    rollback-execute_block curr txdb fee l =
        rollback-Tracks db reliable l _
          (execute_block_with curr txdb fee _ (record { ledger = l; deltas = [] })
            (λ f e found. refl)).tracked

    -- The same for a single transaction, as `BlockChain::verifyTransaction` tries one out.
    pub rollback-execute_transaction :
        (t : Transaction) (l : DB)
        → let s = (execute_transaction p db t (record { ledger = l; deltas = [] })).1 in
          ((rollback db s.deltas s.ledger).0 ≡ returned tt)
          × ((j : Bytes) → holding db (rollback db s.deltas s.ledger).1 j ≡ holding db l j)
          × ((j : Bytes)
              → Ledger.has_wallet db l j ≡ true
              → Ledger.has_wallet db (rollback db s.deltas s.ledger).1 j ≡ true)
    rollback-execute_transaction t l =
        rollback-Tracks db reliable l _
          (execute_transaction-Tracks t (record { ledger = l; deltas = [] }))
