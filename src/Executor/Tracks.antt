-- ===== src/Executor/Tracks.antt =====
-- The record of changes is exact: whatever the executor does to a wallet's balance, the entry of that
-- wallet in `deltas` changes by as much, modulo 2^64.
use shifupool.Base.{
  ℕ, ◌+◌, ◌%◌, ◌≡◌, refl, true, ◌||◌, Bytes, bytes_eq, bytes_eq_iff, arith, ap, if◌then◌else◌,
  Result, returned, Action, ◌>>=◌, ◌>>◌, Bool-cases, inl, inr,
}
use shifupool.Words.{u64_mod, add64, sub64}
use shifupool.DataStore.{LevelDb, IsReliable}
use shifupool.Ledger
use shifupool.Ledger.Balances.{
  holding, Sets, create_wallet-Sets, deposit-Sets, withdraw-Sets, get_wallet_value-missing,
}
use shifupool.Executor.{
  Accounts, on_ledger, create_if_missing, note_credit, note_debit, deposit, withdraw,
}
use shifupool.Executor.Deltas.{
  delta, touched, IsMap, credit_delta, debit_delta, touched-credit_delta, touched-debit_delta,
  credit_delta-IsMap, debit_delta-IsMap, delta-credit_delta, delta-debit_delta,
}

-- A step that returns is followed by the rest.
pub seq_returned :
    {S B : Type 0} (m : Action S (Unit {0})) (k : Action S B) (s : S)
    → (m s).0 ≡ returned tt
    → (m >> k) s ≡ k (m s).1
seq_returned m k s h = rw (h, ◌>>=◌)

pub >>_assoc :
    {S A B C : Type 0} (m : Action S A) (k : Action S B) (n : Action S C) (s : S)
    → (m >> (k >> n)) s ≡ ((m >> k) >> n) s
>>_assoc m k n s = ground arith

module _ {DB : Type 0} (db : LevelDb DB Bytes) where
  pub record TracksAt (s s' : Accounts DB) (j : Bytes) : Type 0 where
    pub drift :
        (holding db s'.ledger j + delta s.deltas j) % u64_mod
        ≡ (holding db s.ledger j + delta s'.deltas j) % u64_mod
    pub kept : Ledger.has_wallet db s.ledger j ≡ true → Ledger.has_wallet db s'.ledger j ≡ true
    pub known :
        (touched s.deltas j ≡ true → Ledger.has_wallet db s.ledger j ≡ true)
        → touched s'.deltas j ≡ true
        → Ledger.has_wallet db s'.ledger j ≡ true

  pub record Tracks (s s' : Accounts DB) : Type 0 where
    pub at : (j : Bytes) → TracksAt s s' j
    pub unique : IsMap s.deltas → IsMap s'.deltas

  pub Tracks-refl : (s : Accounts DB) → Tracks s s
  Tracks-refl s = record {
    at = λ j. record { drift = omega arith; kept = λ h. h; known = λ h. h };
    unique = λ h. h;
  }

  pub Tracks-trans : {s t u : Accounts DB} → Tracks s t → Tracks t u → Tracks s u
  Tracks-trans {s} {t} {u} a b = record {
    at = λ j. record {
      drift = omega (arith, (a.at j).drift, (b.at j).drift);
      kept = λ h. (b.at j).kept ((a.at j).kept h);
      known = λ h. (b.at j).known ((a.at j).known h);
    };
    unique = λ h. b.unique (a.unique h);
  }

  module _ (reliable : IsReliable db) where
    create_if_missing-Sets :
        (to : Bytes) (s : Accounts DB)
        → Sets db s.ledger to
            (holding db s.ledger to)
            ((create_if_missing db to s).0, (create_if_missing db to s).1.ledger)
          × ((create_if_missing db to s).1.deltas ≡ s.deltas)
    unfolding create_if_missing
    create_if_missing-Sets to s = elim (Bool-cases (Ledger.has_wallet db s.ledger to)) [
      | inl there ↦ rw there (
        record {
          ended = refl;
          holds = λ j. ground (arith, bytes_eq_iff to j);
          has = λ j. ground (arith, bytes_eq_iff to j);
        },
        refl,
      )
      | inr missing ↦
          let c = create_wallet-Sets db reliable s.ledger to missing in
          rw (missing, (get_wallet_value-missing db s.ledger to missing).1) (c, refl)
    ]

  -- A call that ended well and added `x` to the balance of `w` and to its change.
  pub record Credits (s : Accounts DB) (w : Bytes) (x : ℕ) (r : Result (Unit {0}) × Accounts DB)
      : Type 0 where
    pub ended : r.0 ≡ returned tt
    pub holds :
        (j : Bytes)
        → holding db r.1.ledger j
          ≡ (if bytes_eq w j then add64 (holding db s.ledger j) x else holding db s.ledger j)
    pub has :
        (j : Bytes)
        → Ledger.has_wallet db r.1.ledger j ≡ (bytes_eq w j || Ledger.has_wallet db s.ledger j)
    pub changed : r.1.deltas ≡ credit_delta w x s.deltas

  -- The same for a withdrawal.
  pub record Debits (s : Accounts DB) (w : Bytes) (x : ℕ) (r : Result (Unit {0}) × Accounts DB)
      : Type 0 where
    pub ended : r.0 ≡ returned tt
    pub holds :
        (j : Bytes)
        → holding db r.1.ledger j
          ≡ (if bytes_eq w j then sub64 (holding db s.ledger j) x else holding db s.ledger j)
    pub has :
        (j : Bytes)
        → Ledger.has_wallet db r.1.ledger j ≡ (bytes_eq w j || Ledger.has_wallet db s.ledger j)
    pub changed : r.1.deltas ≡ debit_delta w x s.deltas

  pub Credits-Tracks :
      (s : Accounts DB) (w : Bytes) (x : ℕ) (r : Result (Unit {0}) × Accounts DB)
      → Credits s w x r
      → Tracks s r.1
  Credits-Tracks s w x r c = record {
    at = λ j. record {
      drift = rw (c.changed) (ground (arith, c.holds j, delta-credit_delta w x s.deltas j));
      kept = λ h. ground (arith, c.has j);
      known = λ h. rw (c.changed, touched-credit_delta w x s.deltas j) (ground (arith, c.has j));
    };
    unique = λ h. rw c.changed (credit_delta-IsMap w x s.deltas h);
  }

  pub Debits-Tracks :
      (s : Accounts DB) (w : Bytes) (x : ℕ) (r : Result (Unit {0}) × Accounts DB)
      → Debits s w x r
      → Tracks s r.1
  Debits-Tracks s w x r c = record {
    at = λ j. record {
      drift = rw (c.changed) (ground (arith, c.holds j, delta-debit_delta w x s.deltas j));
      kept = λ h. ground (arith, c.has j);
      known = λ h. rw (c.changed, touched-debit_delta w x s.deltas j) (ground (arith, c.has j));
    };
    unique = λ h. rw c.changed (debit_delta-IsMap w x s.deltas h);
  }

  module _ (reliable : IsReliable db) where
    pub deposit-Credits :
        (to : Bytes) (amt : ℕ) (s : Accounts DB) → Credits s to amt (deposit db to amt s)
    unfolding deposit
    deposit-Credits to amt s =
        let (c, same) = create_if_missing-Sets reliable to s in
        let s1 = (create_if_missing db to s).1 in
        let there : Ledger.has_wallet db s1.ledger to ≡ true =
          ground (arith, c.has to, bytes_eq_iff to to) in
        let d = deposit-Sets db reliable s1.ledger to amt there in
        rw
          (seq_returned (create_if_missing db to)
            (on_ledger (Ledger.deposit db to amt) >> note_credit db to amt) s c.ended)
          (rw
            (seq_returned (on_ledger (Ledger.deposit db to amt)) (note_credit db to amt) s1 d.ended)
            (record {
              ended = refl;
              holds = λ j.
                  ground (
                    arith,
                    d.holds j,
                    c.holds j,
                    c.holds to,
                    bytes_eq_iff to j,
                    bytes_eq_iff to to,
                  );
              has = λ j. ground (arith, d.has j, c.has j);
              changed = ap (credit_delta to amt) same;
            }))

    pub withdraw-Debits :
        (from : Bytes) (amt : ℕ) (s : Accounts DB)
        → Ledger.has_wallet db s.ledger from ≡ true
        → Debits s from amt (withdraw db from amt s)
    unfolding withdraw
    withdraw-Debits from amt s there =
        let d = withdraw-Sets db reliable s.ledger from amt there in
        rw there (
          rw
            (seq_returned (on_ledger (Ledger.withdraw db from amt)) (note_debit db from amt) s
              d.ended)
            (record {
              ended = refl;
              holds = λ j. ground (arith, d.holds j, bytes_eq_iff from j);
              has = λ j. ground (arith, d.has j);
              changed = refl;
            }))
