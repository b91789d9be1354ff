-- ===== src/Ledger/Balances.antt =====
-- What the ledger's operations do to the balances, over a database that does not fail.
use shifupool.Base.{
  ℕ, ◌%◌, ◌≡◌, ◌<◌, refl, true, false, ◌||◌, none, some, [], Bytes, bytes_eq, arith, Result,
  returned, threw, Exception, ◌>>=◌, if◌then◌else◌, append-nil, Option-cases, inl, inr,
}
use shifupool.Words.{u64_mod, le_bytes, of_le, add64, sub64, of_le-le_bytes8, of_le-lt8}
use shifupool.DataStore.{LevelDb, IsReliable}
use shifupool.Ledger.{
  has_wallet, set_wallet_value, create_wallet, get_wallet_value, withdraw, revert_send, deposit,
  revert_deposit,
}

stored : (x : ℕ) → of_le 8 (le_bytes 8 x) ≡ x % u64_mod
stored x = simp append-nil at (of_le-le_bytes8 x [])

module _ {DB : Type 0} (db : LevelDb DB Bytes) where
  -- A wallet that does not exist holds nothing.
  unfoldable pub holding : DB → Bytes → ℕ
  holding l w = elim (db.get l w) [ none ↦ 0 | some value ↦ of_le 8 value ]

  pub holding-lt : (l : DB) (w : Bytes) → holding l w < u64_mod
  unfolding holding
  holding-lt l w = elim (Option-cases (db.get l w)) [
    | inl e ↦ rw (e, holding) (omega arith)
    | inr (v, e) ↦ rw (e, holding) (of_le-lt8 v)
  ]

  pub get_wallet_value-holding :
      (l : DB) (w : Bytes)
      → has_wallet db l w ≡ true
      → get_wallet_value db l w ≡ returned (holding l w)
  unfolding has_wallet get_wallet_value holding
  get_wallet_value-holding l w h = ground arith

  pub get_wallet_value-missing :
      (l : DB) (w : Bytes)
      → has_wallet db l w ≡ false
      → (get_wallet_value db l w ≡ threw Exception.wallet_not_found) × (holding l w ≡ 0)
  unfolding has_wallet get_wallet_value holding
  get_wallet_value-missing l w h = ground arith

  -- A call that ended well and made wallet `w` hold `v`, and left the other wallets alone.
  pub record Sets (l : DB) (w : Bytes) (v : ℕ) (r : Result (Unit {0}) × DB) : Type 0 where
    pub ended : r.0 ≡ returned tt
    pub holds : (j : Bytes) → holding r.1 j ≡ (if bytes_eq w j then v else holding l j)
    pub has : (j : Bytes) → has_wallet db r.1 j ≡ (bytes_eq w j || has_wallet db l j)

  module _ (reliable : IsReliable db) where
    set_wallet_value-Sets :
        (l : DB) (w : Bytes) (x v : ℕ) → x % u64_mod ≡ v → Sets l w v (set_wallet_value db w x l)
    unfolding set_wallet_value holding has_wallet
    set_wallet_value-Sets l w x v e = record {
      ended = ground (arith, reliable.put_ok l w (le_bytes 8 x));
      holds = λ j. ground (arith, reliable.get_put l w j (le_bytes 8 x), stored x);
      has = λ j. ground (arith, reliable.get_put l w j (le_bytes 8 x));
    }

    pub create_wallet-Sets :
        (l : DB) (w : Bytes) → has_wallet db l w ≡ false → Sets l w 0 (create_wallet db w l)
    unfolding create_wallet
    create_wallet-Sets l w h = rw h (set_wallet_value-Sets l w 0 0 refl)

    pub withdraw-Sets :
        (l : DB) (w : Bytes) (amt : ℕ)
        → has_wallet db l w ≡ true
        → Sets l w (sub64 (holding l w) amt) (withdraw db w amt l)
    unfolding withdraw
    withdraw-Sets l w amt h =
        rw (get_wallet_value-holding l w h, ◌>>=◌)
          (set_wallet_value-Sets l w _ (sub64 (holding l w) amt) (omega arith))

    pub revert_deposit-Sets :
        (l : DB) (w : Bytes) (amt : ℕ)
        → has_wallet db l w ≡ true
        → Sets l w (sub64 (holding l w) amt) (revert_deposit db w amt l)
    unfolding revert_deposit
    revert_deposit-Sets l w amt h =
        rw (get_wallet_value-holding l w h, ◌>>=◌)
          (set_wallet_value-Sets l w _ (sub64 (holding l w) amt) (omega arith))

    pub deposit-Sets :
        (l : DB) (w : Bytes) (amt : ℕ)
        → has_wallet db l w ≡ true
        → Sets l w (add64 (holding l w) amt) (deposit db w amt l)
    unfolding deposit
    deposit-Sets l w amt h =
        rw (get_wallet_value-holding l w h, ◌>>=◌)
          (set_wallet_value-Sets l w _ (add64 (holding l w) amt) (omega arith))

    pub revert_send-Sets :
        (l : DB) (w : Bytes) (amt : ℕ)
        → has_wallet db l w ≡ true
        → Sets l w (add64 (holding l w) amt) (revert_send db w amt l)
    unfolding revert_send
    revert_send-Sets l w amt h =
        rw (get_wallet_value-holding l w h, ◌>>=◌)
          (set_wallet_value-Sets l w _ (add64 (holding l w) amt) (omega arith))
