-- ===== src/Executor/Effect/Executed.antt =====
-- `ExecuteBlock`: a block that was executed with success paid what its transactions say.
use shifupool.Base.{
  ℕ, ◌≡◌, refl, ap, ◌∙◌, subst, Bool, true, false, not, ◌&&◌, ◌⊎◌, inl, inr, List, [], ◌∷◌, Bytes,
  All, arith, ◌==◌, if◌then◌else◌, Result, returned, returned_eq, threw-ne-returned, Result-cases,
  ◌>>=◌, Bool-cases,
}
use shifupool.Crypto.{Primitives, null_address}
use shifupool.Transaction.{Transaction, signature_valid}
use shifupool.Block.{Block}
use shifupool.DataStore.{LevelDb, IsReliable}
use shifupool.Executor.{
  Accounts, FeeSearch, update_ledger, execute_all, execute_block, scan, scan_step, find_miner,
}
use shifupool.Executor.Execute.{scan-ne}
use shifupool.Executor.Status.{ExecutionStatus, is_success}
use shifupool.Executor.Effect.Paying.{update_ledger-Pays}
use shifupool.Executor.Effect.{
  not_success, gains, costs, Shifts, Shifts-refl, Shifts-trans, Known, Known-kept,
}

module _ {DB : Type 0} (db : LevelDb DB Bytes) where
  -- A list that was executed, up to the ledger `l'`.
  pub record PaysAll (l l' : DB) (ts : List Transaction) (miner : Bytes) : Type 0 where
    pub shifts : Shifts db l l' (gains ts miner) (costs ts)
    pub known : All (λ t. Known db l' t miner) ts

module _ {DB TB : Type 0} (p : Primitives) (db : LevelDb DB Bytes) (tdb : LevelDb TB Bytes)
    (reliable : IsReliable db) where
  execute_all-PaysAll :
      (id block_mining_fee : ℕ) (miner : Bytes) (ts : List Transaction) (s : Accounts DB)
      → (id == 1) ≡ false
      → (execute_all p db tdb id block_mining_fee miner ts s).0 ≡ returned ExecutionStatus.success
      → PaysAll db s.ledger (execute_all p db tdb id block_mining_fee miner ts s).1.ledger ts miner
  unfolding execute_all gains costs is_success
  execute_all-PaysAll id fee miner [] s later e = record {
    shifts = Shifts-refl db s.ledger;
    known = tt;
  }
  execute_all-PaysAll id fee miner (t ∷ ts) s later e =
      elim (Bool-cases (not t.is_transaction_fee && (not (signature_valid p t) && not (id == 1)))) [
        | inl unsigned ↦ absurd (bad_signature (rw unsigned at e))
        | inr signed ↦ elim (Result-cases (update_ledger p db t miner fee id s).0) [
          | inr (ex, q) ↦ absurd (threw-ne-returned (rw (q, ◌>>=◌) at rw signed at e))
          | inl (status, q) ↦ elim (Bool-cases (is_success status)) [
            | inr failed ↦ absurd (
                clash failed
                  (ap is_success (returned_eq (rw failed at rw (q, ◌>>=◌) at rw signed at e))))
            | inl fine ↦
                let first =
                  update_ledger-Pays p db reliable t miner fee id s later
                    (q ∙ ap returned (is_success_eq status fine)) in
                let rest =
                  execute_all-PaysAll id fee miner ts _ later
                    (rw fine at rw (q, ◌>>=◌) at rw signed at e) in
                rw signed (
                  rw (q, ◌>>=◌)
                    (rw fine (record {
                      shifts = Shifts-trans db first.shifts rest.shifts;
                      known = (Known-kept db t miner rest.shifts.kept first.known, rest.known);
                    })))
          ]
        ]
      ]
    where
      bad_signature :
          ◌≡◌ {A = Result ExecutionStatus}
            (returned ExecutionStatus.invalid_signature)
            (returned ExecutionStatus.success)
          → ⊥
      bad_signature h = cc

      clash : {b : Bool} → b ≡ false → b ≡ true → ⊥
      clash f g = cc

      is_success_eq :
          (status : ExecutionStatus) → is_success status ≡ true → status ≡ ExecutionStatus.success
      is_success_eq status h = ground arith

  scan_step-find_miner :
      (id : ℕ) (txdb : TB) (t : Transaction) (f0 f1 : FeeSearch) (m : Bytes)
      → scan_step p db tdb id txdb t f0 ≡ inr f1
      → (if f1.found_fee then f1.miner else m)
        ≡ (if f0.found_fee then f0.miner else if t.is_transaction_fee then t.to else m)
  unfolding scan_step
  scan_step-find_miner id txdb t f0 f1 m e = ground arith

  -- The miner of the first loop is the one that the rollback finds.
  scan-find_miner :
      (stale : Bytes) (id : ℕ) (txdb : TB) (ts : List Transaction) (f0 f : FeeSearch)
      → scan p db tdb id txdb ts f0 ≡ inr f
      → f.found_fee ≡ true
      → f.miner ≡ (if f0.found_fee then f0.miner else find_miner p db tdb stale ts)
  unfolding scan find_miner
  scan-find_miner stale id txdb [] f0 f e found = ground arith
  scan-find_miner stale id txdb (t ∷ ts) f0 f e found =
      go (scan_step p db tdb id txdb t f0) refl
        (λ f1 h. scan-find_miner stale id txdb ts f1 f h found)
    where
      go :
          (r : ExecutionStatus ⊎ FeeSearch)
          → scan_step p db tdb id txdb t f0 ≡ r
          → ((f1 : FeeSearch)
              → scan p db tdb id txdb ts f1 ≡ inr f
              → f.miner ≡ (if f1.found_fee then f1.miner else find_miner p db tdb stale ts))
          → f.miner ≡ (
              if f0.found_fee
              then f0.miner
              else if t.is_transaction_fee
              then t.to
              else find_miner p db tdb stale ts)
      go (inl status) q ih = absurd (no_search (rw (q, scan) at e))
        where
          no_search : ◌≡◌ {A = ExecutionStatus ⊎ FeeSearch} (inl status) (inr f) → ⊥
          no_search h = cc
      go (inr f1) q ih = ih f1 (rw (q, scan) at e) ∙ scan_step-find_miner id txdb t f0 f1 _ q

  pub execute_block-PaysAll :
      (stale : Bytes) (curr : Block) (txdb : TB) (fee : ℕ) (s : Accounts DB)
      → (curr.id == 1) ≡ false
      → (execute_block p db tdb curr txdb fee s).0 ≡ returned ExecutionStatus.success
      → PaysAll db s.ledger
          (execute_block p db tdb curr txdb fee s).1.ledger
          curr.transactions
          (find_miner p db tdb stale curr.transactions)
  unfolding execute_block
  execute_block-PaysAll stale curr txdb fee s later e =
      go (scan p db tdb curr.id txdb curr.transactions start) refl
    where
      start : FeeSearch
      start = record { found_fee = false; miner = null_address; mining_fee = 0 }

      go :
          (r : ExecutionStatus ⊎ FeeSearch)
          → scan p db tdb curr.id txdb curr.transactions start ≡ r
          → PaysAll db s.ledger
              (execute_block p db tdb curr txdb fee s).1.ledger
              curr.transactions
              (find_miner p db tdb stale curr.transactions)
      go (inl status) q = absurd (
          not_success (scan-ne p db tdb curr.id txdb curr.transactions start status q)
            (rw (q, execute_block) at e))
      go (inr f) q = elim (Bool-cases f.found_fee) [
        | inr none_found ↦
            absurd (not_success (λ h. cc) (simp none_found at rw (q, execute_block) at e))
        | inl found ↦ elim (Bool-cases (f.mining_fee == fee)) [
          | inr other ↦
              absurd (not_success (λ h. cc) (rw other at simp found at rw (q, execute_block) at e))
          | inl equal ↦
              let ran = rw equal at simp found at rw (q, execute_block) at e in
              rw (q, execute_block)
                (simp found (
                  rw equal (
                    subst
                      (λ m.
                        PaysAll db s.ledger
                          (execute_all p db tdb curr.id fee f.miner curr.transactions s).1.ledger
                          curr.transactions m)
                      (scan-find_miner stale curr.id txdb curr.transactions start f q found)
                      (execute_all-PaysAll curr.id fee f.miner curr.transactions s later ran))))
        ]
      ]
