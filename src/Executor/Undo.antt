-- ===== src/Executor/Undo.antt =====
-- `RollbackBlock` after `ExecuteBlock`: every balance is as it was.
use mathlib.Core.List.{reverse, reverse-cons}
use shifupool.Base.{
  ℕ, ◌+◌, ◌≡◌, refl, true, false, inl, inr, List, [], ◌∷◌, ◌++◌, Bytes, bytes_eq_iff, All, All-map,
  All-reverse, arith, ltb, ◌==◌, if◌then◌else◌, Result, returned, Action, ◌>>◌, pure, Bool-cases,
}
use shifupool.Words.{add64, sub64}
use shifupool.Crypto.{Primitives}
use shifupool.Transaction.{Transaction}
use shifupool.Block.{Block}
use shifupool.DataStore.{LevelDb, IsReliable}
use shifupool.Ledger
use shifupool.Ledger.Balances.{Sets, holding, holding-lt, revert_deposit-Sets, revert_send-Sets}
use shifupool.TxStore.{remove_transaction_ended}
use shifupool.Executor.{
  Accounts, Stores, execute_block, for_each, rollback_ledger, rollback_one, rollback_block,
  find_miner,
}
use shifupool.Executor.Status.{ExecutionStatus}
use shifupool.Executor.Tracks.{seq_returned, >>_assoc}
use shifupool.Executor.Effect.Executed.{execute_block-PaysAll}
use shifupool.Executor.Effect.{
  gain, cost, gains, costs, at_wallet, Shifts, Shifts-refl, Shifts-trans, Shifts-as, Known,
  Known-kept, gain_plain, cost_plain, gain_fee, cost_fee,
}

gains_append :
    (ts us : List Transaction) (miner j : Bytes)
    → gains (ts ++ us) miner j ≡ gains ts miner j + gains us miner j
unfolding gains
gains_append [] us miner j = omega arith
gains_append (t ∷ ts) us miner j = omega (arith, gains_append ts us miner j)

costs_append : (ts us : List Transaction) (j : Bytes) → costs (ts ++ us) j ≡ costs ts j + costs us j
unfolding costs
costs_append [] us j = omega arith
costs_append (t ∷ ts) us j = omega (arith, costs_append ts us j)

gains-reverse :
    (ts : List Transaction) (miner j : Bytes) → gains (reverse ts) miner j ≡ gains ts miner j
unfolding gains
gains-reverse [] miner j = refl
gains-reverse (t ∷ ts) miner j =
    rw (reverse-cons t ts)
      (omega (arith, gains_append (reverse ts) (t ∷ []) miner j, gains-reverse ts miner j))

costs-reverse : (ts : List Transaction) (j : Bytes) → costs (reverse ts) j ≡ costs ts j
unfolding costs
costs-reverse [] j = refl
costs-reverse (t ∷ ts) j =
    rw (reverse-cons t ts) (omega (arith, costs_append (reverse ts) (t ∷ []) j, costs-reverse ts j))

module _ {DB TB : Type 0} (p : Primitives) (db : LevelDb DB Bytes) (tdb : LevelDb TB Bytes)
    (reliable : IsReliable db) where
  lowered :
      (l : DB) (w : Bytes) (x : ℕ) (r : Result (Unit {0}) × DB)
      → Sets db l w (sub64 (holding db l w) x) r
      → Shifts db l r.1 (λ j. 0) (at_wallet w x)
  lowered l w x r c = record {
    drift = λ j. ground (arith, c.holds j, bytes_eq_iff w j);
    kept = λ v h. ground (arith, c.has v);
  }

  raised :
      (l : DB) (w : Bytes) (x : ℕ) (r : Result (Unit {0}) × DB)
      → Sets db l w (add64 (holding db l w) x) r
      → Shifts db l r.1 (at_wallet w x) (λ j. 0)
  raised l w x r c = record {
    drift = λ j. ground (arith, c.holds j, bytes_eq_iff w j);
    kept = λ v h. ground (arith, c.has v);
  }

  -- What `rollbackLedger` does to a ledger that knows the wallets.
  record Reverts (l : DB) (t : Transaction) (miner : Bytes) (r : Result (Unit {0}) × DB)
      : Type 0 where
    ended : r.0 ≡ returned tt
    shifts : Shifts db l r.1 (cost t) (gain t miner)

  -- the part that gives the fee back
  revert_fee : Transaction → Bytes → Action DB (Unit {0})
  revert_fee t miner =
      if ltb 0 t.fee
      then (Ledger.revert_deposit db miner t.fee >> Ledger.revert_send db t.from t.fee)
      else pure tt

  record GivenBack (l : DB) (from to : Bytes) (x : ℕ) (r : Result (Unit {0}) × DB) : Type 0 where
    ended : r.0 ≡ returned tt
    shifts : Shifts db l r.1 (at_wallet from x) (at_wallet to x)

  move_back-GivenBack :
      (from to : Bytes) (x : ℕ) (l : DB)
      → Ledger.has_wallet db l from ≡ true
      → Ledger.has_wallet db l to ≡ true
      → GivenBack l from to x ((Ledger.revert_deposit db to x >> Ledger.revert_send db from x) l)
  move_back-GivenBack from to x l there paid =
      let a = revert_deposit-Sets db reliable l to x paid in
      let down = lowered l to x _ a in
      let b =
        revert_send-Sets db reliable (Ledger.revert_deposit db to x l).1 from x
          (down.kept from there) in
      rw (seq_returned (Ledger.revert_deposit db to x) (Ledger.revert_send db from x) l a.ended)
        (record {
          ended = b.ended;
          shifts =
              Shifts-as db (λ j. omega arith) (λ j. omega arith)
                (Shifts-trans db down (raised _ from x _ b));
        })

  revert_fee-GivenBack :
      (t : Transaction) (miner : Bytes) (l : DB)
      → Ledger.has_wallet db l t.from ≡ true
      → (ltb 0 t.fee ≡ true → Ledger.has_wallet db l miner ≡ true)
      → GivenBack l t.from miner t.fee (revert_fee t miner l)
  unfolding revert_fee
  revert_fee-GivenBack t miner l there paid = elim (Bool-cases (ltb 0 t.fee)) [
    | inl some_fee ↦ rw some_fee (move_back-GivenBack t.from miner t.fee l there (paid some_fee))
    | inr no_fee ↦ rw no_fee (record {
      ended = refl;
      shifts = Shifts-as db (λ j. ground arith) (λ j. ground arith) (Shifts-refl db l);
    })
  ]

  revert_plain-Reverts :
      (t : Transaction) (miner : Bytes) (l : DB)
      → t.is_transaction_fee ≡ false
      → Known db l t miner
      → Reverts l t miner (
          (Ledger.revert_deposit db t.to t.amount
              >> (Ledger.revert_send db t.from t.amount >> revert_fee t miner))
            l)
  revert_plain-Reverts t miner l plain known =
      let a = move_back-GivenBack t.from t.to t.amount l (known.from plain) known.to in
      let l1 =
        ((Ledger.revert_deposit db t.to t.amount >> Ledger.revert_send db t.from t.amount) l).1 in
      let f =
        revert_fee-GivenBack t miner l1 (a.shifts.kept t.from (known.from plain))
          (λ h. a.shifts.kept miner (known.to_miner plain h)) in
      rw
        (>>_assoc (Ledger.revert_deposit db t.to t.amount) (Ledger.revert_send db t.from t.amount)
          (revert_fee t miner) l)
        (rw
          (seq_returned
            (Ledger.revert_deposit db t.to t.amount >> Ledger.revert_send db t.from t.amount)
            (revert_fee t miner) l a.ended)
          (record {
            ended = f.ended;
            shifts =
                Shifts-as db (cost_plain t plain) (gain_plain t miner plain)
                  (Shifts-trans db a.shifts f.shifts);
          }))

  rollback_ledger-Reverts :
      (t : Transaction) (miner : Bytes) (l : DB)
      → Known db l t miner
      → Reverts l t miner (rollback_ledger db t miner l)
  unfolding rollback_ledger revert_fee
  rollback_ledger-Reverts t miner l known = elim (Bool-cases t.is_transaction_fee) [
    | inl fee ↦
        let c = revert_deposit-Sets db reliable l t.to t.amount known.to in
        simp fee (record {
          ended = c.ended;
          shifts =
              Shifts-as db (cost_fee t fee) (gain_fee t miner fee) (lowered l t.to t.amount _ c);
        })
    | inr plain ↦ simp plain (revert_plain-Reverts t miner l plain known)
  ]

  module _ (tdb_reliable : IsReliable tdb) where
    -- What undoing transactions does to the ledger.
    record Undoes (s : Stores DB TB) (ts : List Transaction) (miner : Bytes)
        (r : Result (Unit {0}) × Stores DB TB) : Type 0 where
      ended : r.0 ≡ returned tt
      shifts : Shifts db s.ledger r.1.ledger (costs ts) (gains ts miner)

    rollback_one-Reverts :
        (t : Transaction) (miner : Bytes) (s : Stores DB TB)
        → Known db s.ledger t miner
        → ((rollback_one p db tdb miner t s).0 ≡ returned tt)
          × Shifts db s.ledger (rollback_one p db tdb miner t s).1.ledger (cost t) (gain t miner)
    unfolding rollback_one
    rollback_one-Reverts t miner s known =
        let back = rollback_ledger-Reverts t miner s.ledger known in
        rw (back.ended, rollback_one)
          (elim (Bool-cases t.is_transaction_fee) [
            | inl fee ↦ simp fee (refl, back.shifts)
            | inr plain ↦
                simp plain (remove_transaction_ended p tdb tdb_reliable s.txdb t, back.shifts)
          ])

    rollbacks-Undoes :
        (ts : List Transaction) (miner : Bytes) (s : Stores DB TB)
        → All (λ t. Known db s.ledger t miner) ts
        → Undoes s ts miner (for_each (rollback_one p db tdb miner) ts s)
    unfolding costs gains
    rollbacks-Undoes [] miner s known = record { ended = refl; shifts = Shifts-refl db s.ledger }
    rollbacks-Undoes (t ∷ ts) miner s (k, ks) =
        let first = rollback_one-Reverts t miner s k in
        let s1 = (rollback_one p db tdb miner t s).1 in
        let rest =
          rollbacks-Undoes ts miner s1 (All-map ts (λ u. Known-kept db u miner first.1.kept) ks) in
        rw
          (seq_returned (rollback_one p db tdb miner t) (for_each (rollback_one p db tdb miner) ts)
            s first.0)
          (record { ended = rest.ended; shifts = Shifts-trans db first.1 rest.shifts })

    -- The rollback of a block whose gains and costs stand between two ledgers.
    pub rollback_block-restores :
        (stale : Bytes) (curr : Block) (l : DB) (s : Stores DB TB)
        → All
            (λ t. Known db s.ledger t (find_miner p db tdb stale curr.transactions))
            curr.transactions
        → Shifts db l s.ledger
            (gains curr.transactions (find_miner p db tdb stale curr.transactions))
            (costs curr.transactions)
        → ((rollback_block p db tdb stale curr s).0 ≡ returned tt)
          × ((w : Bytes)
              → holding db (rollback_block p db tdb stale curr s).1.ledger w ≡ holding db l w)
    unfolding rollback_block
    rollback_block-restores stale curr l s known shifts =
        let miner = find_miner p db tdb stale curr.transactions in
        let undone =
          rollbacks-Undoes (reverse curr.transactions) miner s
            (All-reverse _ curr.transactions known) in
        (
          undone.ended,
          λ w. omega (
            arith,
            shifts.drift w,
            undone.shifts.drift w,
            gains-reverse curr.transactions miner w,
            costs-reverse curr.transactions w,
            holding-lt db l w,
            holding-lt db _ w,
          ),
        )

    -- Over reliable databases, when executeBlock returns success on a block other than the
    -- first, rollbackBlock of that block on the ledger it left, with any transaction
    -- database, returns and every balance is what it was before.
    pub rollback_block-execute_block :
        (stale : Bytes) (curr : Block) (txdb txdb' : TB) (fee : ℕ) (s : Accounts DB)
        → (curr.id == 1) ≡ false
        → (execute_block p db tdb curr txdb fee s).0 ≡ returned ExecutionStatus.success
        → ((rollback_block p db tdb stale curr (record {
          ledger = (execute_block p db tdb curr txdb fee s).1.ledger;
          txdb = txdb';
        })).0
            ≡ returned tt)
          × ((w : Bytes)
              → holding db
                  (rollback_block p db tdb stale curr (record {
                    ledger = (execute_block p db tdb curr txdb fee s).1.ledger;
                    txdb = txdb';
                  })).1.ledger
                  w
                ≡ holding db s.ledger w)
    rollback_block-execute_block stale curr txdb txdb' fee s later e =
        let paid = execute_block-PaysAll p db tdb reliable stale curr txdb fee s later e in
        rollback_block-restores stale curr s.ledger _ paid.known paid.shifts
