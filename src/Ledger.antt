-- ===== src/Ledger.antt =====
-- c++/src/server/ledger.cpp: the balances, one LevelDB entry for each wallet, whose value is the
-- image of a `uint64_t` in memory.
pub mod Balances
use shifupool.Base.{
  ℕ, ◌≡◌, Bool, true, false, Option, none, some, Bytes, Result, returned, threw, Exception, Action,
  ◌>>=◌, reads, throw, if◌then◌else◌,
}
use shifupool.Words.{le_bytes, of_le, add64, sub64}
use shifupool.DataStore.{LevelDb, checked}

module _ {DB : Type 0} (db : LevelDb DB Bytes) where
  open db use {get, put}

  unfoldable pub has_wallet : DB → Bytes → Bool
  has_wallet l wallet = elim (get l wallet) [ none ↦ false | some value ↦ true ]

  -- `setWalletValue`, with `amountToSlice`
  unfoldable pub set_wallet_value : Bytes → ℕ → Action DB (Unit {0})
  set_wallet_value wallet amount l = checked (put l wallet (le_bytes 8 amount))

  unfoldable pub create_wallet : Bytes → Action DB (Unit {0})
  create_wallet wallet l =
      if has_wallet l wallet then throw Exception.wallet_exists l else set_wallet_value wallet 0 l

  unfoldable pub get_wallet_value : DB → Bytes → Result ℕ
  get_wallet_value l wallet = elim (get l wallet) [
    | none ↦ threw Exception.wallet_not_found
    | some value ↦ returned (of_le 8 value)
  ]

  unfoldable pub withdraw : Bytes → ℕ → Action DB (Unit {0})
  withdraw wallet amt = do
    value ← reads (λ l. get_wallet_value l wallet)
    set_wallet_value wallet (sub64 value amt)

  unfoldable pub revert_send : Bytes → ℕ → Action DB (Unit {0})
  revert_send wallet amt = do
    value ← reads (λ l. get_wallet_value l wallet)
    set_wallet_value wallet (add64 value amt)

  unfoldable pub deposit : Bytes → ℕ → Action DB (Unit {0})
  deposit wallet amt = do
    value ← reads (λ l. get_wallet_value l wallet)
    set_wallet_value wallet (add64 value amt)

  unfoldable pub revert_deposit : Bytes → ℕ → Action DB (Unit {0})
  revert_deposit to amt = do
    value ← reads (λ l. get_wallet_value l to)
    set_wallet_value to (sub64 value amt)
