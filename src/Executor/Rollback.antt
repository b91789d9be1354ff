-- ===== src/Executor/Rollback.antt =====
-- `Executor::Rollback`: it takes the recorded changes back, so that every balance is as it was.
use shifupool.Base.{◌≡◌, refl, true, false, [], ◌∷◌, Bytes, bytes_eq_iff, arith, returned}
use shifupool.Words.{sub64}
use shifupool.DataStore.{LevelDb, IsReliable}
use shifupool.Ledger
use shifupool.Ledger.Balances.{holding, holding-lt, withdraw-Sets}
use shifupool.Executor.{Accounts, rollback}
use shifupool.Executor.Deltas.{LedgerState, delta, touched, IsMap}
use shifupool.Executor.Tracks.{Tracks, seq_returned}

delta_untouched : (d : LedgerState) (j : Bytes) → touched d j ≡ false → delta d j ≡ 0
unfolding delta touched
delta_untouched [] j h = refl
delta_untouched ((w, x) ∷ d) j h = ground (arith, delta_untouched d j)

module _ {DB : Type 0} (db : LevelDb DB Bytes) (reliable : IsReliable db) where
  -- `Rollback` returns, subtracts from each balance its change, and removes no wallet.
  record TakesBack (d : LedgerState) (l : DB) : Type 0 where
    ended : (rollback db d l).0 ≡ returned tt
    holds : (j : Bytes) → holding db (rollback db d l).1 j ≡ sub64 (holding db l j) (delta d j)
    kept :
        (j : Bytes)
        → Ledger.has_wallet db l j ≡ true
        → Ledger.has_wallet db (rollback db d l).1 j ≡ true

  rollback-TakesBack :
      (d : LedgerState) (l : DB)
      → IsMap d
      → ((j : Bytes) → touched d j ≡ true → Ledger.has_wallet db l j ≡ true)
      → TakesBack d l
  unfolding rollback IsMap delta touched
  rollback-TakesBack [] l m known = record {
    ended = refl;
    holds = λ j. omega (arith, holding-lt db l j);
    kept = λ j h. h;
  }
  rollback-TakesBack ((w, x) ∷ d) l m known =
      let c = withdraw-Sets db reliable l w x (known w (ground (arith, bytes_eq_iff w w))) in
      let l1 = (Ledger.withdraw db w x l).1 in
      let rest = rollback-TakesBack d l1 m.1 (λ j h. ground (arith, c.has j, known j)) in
      let e = seq_returned (Ledger.withdraw db w x) (rollback db d) l c.ended in
      record {
        ended = rw e rest.ended;
        holds = λ j. rw e (
            ground (
              arith,
              rest.holds j,
              c.holds j,
              bytes_eq_iff w j,
              delta_untouched d w m.0,
              holding-lt db l j,
            ));
        kept = λ j h. rw e (rest.kept j (ground (arith, c.has j)));
      }

  -- After any work that kept the record exact, starting from an empty record.
  pub rollback-Tracks :
      (l : DB) (s : Accounts DB)
      → Tracks db (record { ledger = l; deltas = [] }) s
      → ((rollback db s.deltas s.ledger).0 ≡ returned tt)
        × ((j : Bytes) → holding db (rollback db s.deltas s.ledger).1 j ≡ holding db l j)
        × ((j : Bytes)
            → Ledger.has_wallet db l j ≡ true
            → Ledger.has_wallet db (rollback db s.deltas s.ledger).1 j ≡ true)
  unfolding IsMap delta touched
  rollback-Tracks l s tr =
      let b =
        rollback-TakesBack s.deltas s.ledger (tr.unique tt) (λ j h. (tr.at j).known (λ e. cc) h) in
      (
        b.ended,
        λ j. omega (arith, b.holds j, (tr.at j).drift, holding-lt db l j, holding-lt db s.ledger j),
        λ j h. b.kept j ((tr.at j).kept h),
      )
