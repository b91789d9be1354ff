-- ===== src/MemPool/Bounds.antt =====
-- The queue of the pool is a set that is never longer than a block, and a block's transactions leave it.
use shifupool.Base.{
  ℕ, suc, ◌≡◌, ◌≤◌, refl, true, false, List, [], ◌∷◌, arith, All, length, Result, returned, threw,
  Bool-cases, ◌⊎◌, inl, inr,
}
use shifupool.Transaction.{Transaction, transaction_lt}
use shifupool.Transaction.Order.{bytes_lt_irrefl, bytes_lt_trans, bytes_lt_connex}
use shifupool.Block.{Block}
use shifupool.Executor.Status.{ExecutionStatus, is_success}
use shifupool.MemPool.{
  MemPool, Chain, Node, max_transactions_per_block, equivalent, queued, insert, erase, enqueue,
  admit, add_transaction, finish_transaction, finish_all, finish_block, has_transaction, size,
}

lt_trans :
    (t u v : Transaction)
    → transaction_lt t u ≡ true
    → transaction_lt u v ≡ true
    → transaction_lt t v ≡ true
unfolding transaction_lt
lt_trans t u v h k = bytes_lt_trans t.signature u.signature v.signature h k

lt_irrefl : (t : Transaction) → transaction_lt t t ≡ false
unfolding transaction_lt
lt_irrefl t = bytes_lt_irrefl t.signature

-- What is equivalent to `t` compares as `t` does.
equivalent_same : (t u : Transaction) → equivalent t u ≡ true → t.signature ≡ u.signature
unfolding transaction_lt
equivalent_same t u e = ground (arith, bytes_lt_connex t.signature u.signature)

lt_respects :
    (t u v : Transaction) → equivalent t u ≡ true → transaction_lt t v ≡ transaction_lt u v
unfolding transaction_lt
lt_respects t u v e = rw (equivalent_same t u e) refl

-- Strictly increasing: a `std::set`.
unfoldable pub IsSorted : List Transaction → Type 0
IsSorted [] = Unit
IsSorted (t ∷ ts) = All (λ u. transaction_lt t u ≡ true) ts × IsSorted ts

All-below :
    (t u : Transaction) (ts : List Transaction)
    → transaction_lt t u ≡ true
    → All (λ v. transaction_lt u v ≡ true) ts
    → All (λ v. transaction_lt t v ≡ true) ts
All-below t u [] h a = tt
All-below t u (v ∷ ts) h a = (lt_trans t u v h a.0, All-below t u ts h a.1)

All-insert :
    (s t : Transaction) (ts : List Transaction)
    → transaction_lt s t ≡ true
    → All (λ v. transaction_lt s v ≡ true) ts
    → All (λ v. transaction_lt s v ≡ true) (insert t ts)
unfolding insert
All-insert s t [] h a = (h, tt)
All-insert s t (u ∷ ts) h a = ground (arith, All-insert s t ts h a.1)

insert-IsSorted :
    (t : Transaction) (ts : List Transaction)
    → queued t ts ≡ false
    → IsSorted ts
    → IsSorted (insert t ts)
unfolding insert queued IsSorted
insert-IsSorted t [] new s = (tt, tt)
insert-IsSorted t (u ∷ ts) new s =
    ground (arith, insert-IsSorted t ts, All-below t u ts, All-insert u t ts)

All-erase :
    (s t : Transaction) (ts : List Transaction)
    → All (λ v. transaction_lt s v ≡ true) ts
    → All (λ v. transaction_lt s v ≡ true) (erase t ts)
unfolding erase
All-erase s t [] a = tt
All-erase s t (u ∷ ts) a = ground (arith, All-erase s t ts a.1)

erase-IsSorted : (t : Transaction) (ts : List Transaction) → IsSorted ts → IsSorted (erase t ts)
unfolding erase IsSorted
erase-IsSorted t [] s = tt
erase-IsSorted t (u ∷ ts) s = ground (arith, erase-IsSorted t ts s.1, All-erase u t ts s.0)

length-insert : (t : Transaction) (ts : List Transaction) → length (insert t ts) ≡ suc (length ts)
unfolding insert
length-insert t [] = refl
length-insert t (u ∷ ts) = ground (arith, length-insert t ts)

length-erase : (t : Transaction) (ts : List Transaction) → length (erase t ts) ≤ length ts
unfolding erase
length-erase t [] = omega arith
length-erase t (u ∷ ts) = ground (arith, length-erase t ts)

-- A set of at most as many transactions as a block takes.
pub record IsPool (m : MemPool) : Type 0 where
  pub sorted : IsSorted m.transaction_queue
  pub small : size m ≤ max_transactions_per_block

-- After `admit` the queue is as before, or has the transaction in it and is no longer than allowed.
admit_queue :
    (t : Transaction) (balance : Result ℕ) (m : MemPool)
    → ((admit t balance m).1.transaction_queue ≡ m.transaction_queue)
      ⊎ (((admit t balance m).1.transaction_queue ≡ insert t m.transaction_queue)
          × (suc (length m.transaction_queue) ≤ max_transactions_per_block))
unfolding admit enqueue
admit_queue t balance m = ground arith

admit-IsPool :
    (t : Transaction) (balance : Result ℕ) (m : MemPool)
    → queued t m.transaction_queue ≡ false
    → IsPool m
    → IsPool (admit t balance m).1
unfolding size
admit-IsPool t balance m new good = elim (admit_queue t balance m) [
  | inl same ↦ record { sorted = rw same good.sorted; small = rw same good.small }
  | inr (more, room) ↦ record {
    sorted = rw more (insert-IsSorted t m.transaction_queue new good.sorted);
    small = rw more (omega (arith, length-insert t m.transaction_queue));
  }
]

module _ {S : Type 0} (c : Chain S) where
  -- AddTransaction keeps the pool a set that fits into one block, whatever the chain answers.
  pub add_transaction-IsPool :
      (t : Transaction) (n : Node S) → IsPool n.pool → IsPool (add_transaction c t n).1.pool
  unfolding add_transaction
  add_transaction-IsPool t n good = elim (Bool-cases (queued t n.pool.transaction_queue)) [
    | inl there ↦ rw there good
    | inr new ↦ go (c.verify_transaction t n.chain).0 refl new
  ]
    where
      go :
          (r : Result ExecutionStatus)
          → (c.verify_transaction t n.chain).0 ≡ r
          → queued t n.pool.transaction_queue ≡ false
          → IsPool (add_transaction c t n).1.pool
      go (threw ex) q new = rw new (rw (q, add_transaction) good)
      go (returned status) q new = elim (Bool-cases (is_success status)) [
        | inr failed ↦ rw (new, add_transaction) (rw (q, add_transaction) (rw failed good))
        | inl fine ↦
            rw (new, add_transaction)
              (rw (q, add_transaction) (rw fine (admit-IsPool t _ n.pool new good)))
      ]

finish_transaction-IsPool :
    (t : Transaction) (m : MemPool) → IsPool m → IsPool (finish_transaction t m)
unfolding finish_transaction size
finish_transaction-IsPool t m good = elim (Bool-cases (queued t m.transaction_queue)) [
  | inr absent ↦ rw absent good
  | inl there ↦ rw there (record {
    sorted = erase-IsSorted t m.transaction_queue good.sorted;
    small = omega (arith, length-erase t m.transaction_queue, good.small);
  })
]

-- A transaction that was taken out of a set is not in it.
queued-below :
    (t u : Transaction) (ts : List Transaction)
    → equivalent t u ≡ true
    → All (λ v. transaction_lt u v ≡ true) ts
    → queued t ts ≡ false
unfolding queued
queued-below t u [] e a = refl
queued-below t u (v ∷ ts) e a = ground (arith, lt_respects t u v e, queued-below t u ts e a.1)

queued-erase :
    (t : Transaction) (ts : List Transaction) → IsSorted ts → queued t (erase t ts) ≡ false
unfolding queued erase IsSorted
queued-erase t [] s = refl
queued-erase t (u ∷ ts) s = elim (Bool-cases (equivalent t u)) [
  | inl same ↦ rw same (queued-below t u ts same s.0)
  | inr other ↦ rw other (rw other (queued-erase t ts s.1))
]

-- Taking another one out brings none in.
queued-erase_other :
    (t u : Transaction) (ts : List Transaction)
    → queued t ts ≡ false
    → queued t (erase u ts) ≡ false
unfolding queued erase
queued-erase_other t u [] h = refl
queued-erase_other t u (v ∷ ts) h = ground (arith, queued-erase_other t u ts)

finish_transaction-gone :
    (t : Transaction) (m : MemPool)
    → IsPool m
    → queued t (finish_transaction t m).transaction_queue ≡ false
unfolding finish_transaction
finish_transaction-gone t m good = elim (Bool-cases (queued t m.transaction_queue)) [
  | inr absent ↦ rw absent absent
  | inl there ↦ rw there (queued-erase t m.transaction_queue good.sorted)
]

finish_transaction-absent :
    (t u : Transaction) (m : MemPool)
    → queued t m.transaction_queue ≡ false
    → queued t (finish_transaction u m).transaction_queue ≡ false
unfolding finish_transaction
finish_transaction-absent t u m h = ground (arith, queued-erase_other t u m.transaction_queue)

finish_all-absent :
    (t : Transaction) (ts : List Transaction) (m : MemPool)
    → queued t m.transaction_queue ≡ false
    → queued t (finish_all ts m).transaction_queue ≡ false
unfolding finish_all
finish_all-absent t [] m h = h
finish_all-absent t (u ∷ ts) m h =
    finish_all-absent t ts (finish_transaction u m) (finish_transaction-absent t u m h)

finish_all-IsPool :
    (ts : List Transaction) (m : MemPool)
    → IsPool m
    → IsPool (finish_all ts m) × All (λ t. queued t (finish_all ts m).transaction_queue ≡ false) ts
unfolding finish_all
finish_all-IsPool [] m good = (good, tt)
finish_all-IsPool (t ∷ ts) m good =
    let rest = finish_all-IsPool ts (finish_transaction t m) (finish_transaction-IsPool t m good) in
    (
      rest.0,
      (finish_all-absent t ts (finish_transaction t m) (finish_transaction-gone t m good), rest.1),
    )

-- FinishBlock keeps the pool a set that fits into one block, and no transaction of the block is
-- left in it.
pub finish_block-IsPool :
    (b : Block) (m : MemPool)
    → IsPool m
    → IsPool (finish_block b m)
      × All (λ t. has_transaction (finish_block b m) t ≡ false) b.transactions
unfolding finish_block has_transaction
finish_block-IsPool b m good = finish_all-IsPool b.transactions m good
