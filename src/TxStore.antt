-- ===== src/TxStore.antt =====
-- c++/src/server/tx_store.cpp: which block a transaction is in, by the hash of its contents.
use shifupool.Base.{
  ℕ, ◌≡◌, Bool, true, false, none, some, [], Bytes, bytes_eq, Result, returned, threw, Exception,
  Action, arith, ◌%◌, append-nil, if◌then◌else◌,
}
use shifupool.Words.{u32_mod, le_bytes, of_le, of_le-le_bytes4}
use shifupool.Crypto.{Primitives}
use shifupool.Transaction.{Transaction, hash_contents}
use shifupool.DataStore.{LevelDb, IsReliable, checked}

module _ {DB : Type 0} (p : Primitives) (db : LevelDb DB Bytes) where
  open db use {get, put, delete}

  unfoldable pub has_transaction : DB → Transaction → Bool
  has_transaction d t = elim (get d (hash_contents p t)) [ none ↦ false | some value ↦ true ]

  unfoldable pub block_for_transaction : DB → Transaction → Result ℕ
  block_for_transaction d t = elim (get d (hash_contents p t)) [
    | none ↦ threw Exception.transaction_not_found
    | some value ↦ returned (of_le 4 value)
  ]

  unfoldable pub insert_transaction : Transaction → ℕ → Action DB (Unit {0})
  insert_transaction t block_id d = checked (put d (hash_contents p t) (le_bytes 4 block_id))

  unfoldable pub remove_transaction : Transaction → Action DB (Unit {0})
  remove_transaction t d = checked (delete d (hash_contents p t))

  stored : (x : ℕ) → of_le 4 (le_bytes 4 x) ≡ x % u32_mod
  stored x = simp append-nil at (of_le-le_bytes4 x [])

  module _ (reliable : IsReliable db) where
    -- Over a reliable database, insertTransaction returns, the block is then found for every
    -- transaction with the same content hash, and what was known of others is as before.
    pub block_for_transaction-insert_transaction :
        (d : DB) (t u : Transaction) (block_id : ℕ)
        → (insert_transaction t block_id d).0 ≡ returned tt
          × (block_for_transaction (insert_transaction t block_id d).1 u ≡ (
              if bytes_eq (hash_contents p t) (hash_contents p u)
              then returned (block_id % u32_mod)
              else block_for_transaction d u))
          × (has_transaction (insert_transaction t block_id d).1 u ≡ (
              if bytes_eq (hash_contents p t) (hash_contents p u)
              then true
              else has_transaction d u))
    unfolding insert_transaction block_for_transaction has_transaction
    block_for_transaction-insert_transaction d t u n = (
      ground (arith, reliable.put_ok d (hash_contents p t) (le_bytes 4 n)),
      ground (
        arith,
        reliable.get_put d (hash_contents p t) (hash_contents p u) (le_bytes 4 n),
        stored n,
      ),
      ground (arith, reliable.get_put d (hash_contents p t) (hash_contents p u) (le_bytes 4 n)),
    )

    pub remove_transaction_ended :
        (d : DB) (t : Transaction) → (remove_transaction t d).0 ≡ returned tt
    unfolding remove_transaction
    remove_transaction_ended d t = ground (arith, reliable.delete_ok d (hash_contents p t))

    -- Over a reliable database, after removeTransaction no transaction with the same content
    -- hash is known, and the others are as before.
    pub has_transaction-remove_transaction :
        (d : DB) (t u : Transaction)
        → has_transaction (remove_transaction t d).1 u ≡ (
            if bytes_eq (hash_contents p t) (hash_contents p u) then false else has_transaction d u)
    unfolding remove_transaction has_transaction
    has_transaction-remove_transaction d t u =
        ground (arith, reliable.get_delete d (hash_contents p t) (hash_contents p u))
