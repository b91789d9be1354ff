-- ===== src/MemPool.antt =====
-- c++/src/server/mempool.hpp and mempool.cpp: the transactions that wait for a block. The set of
-- transactions is a list in the order of `operator<` of Transaction (signatures), in which two
-- elements are the same when neither comes first; `mempoolOutgoing` is an association list. The
-- thread that sends `toSend` to other hosts is not modelled; the locks make each call one step.
pub mod Bounds
use shifupool.Base.{
  ℕ, ◌+◌, ◌*◌, Bool, true, false, not, ◌&&◌, Option, none, some, List, [], ◌∷◌, ◌++◌, Bytes,
  bytes_eq, ltb, ◌==◌, if◌then◌else◌, length, Result, returned, threw, Exception, Action, ◌>>=◌,
  ◌>>◌, pure,
}
use shifupool.Words.{add64}
use shifupool.Transaction.{Transaction, transaction_lt, transaction_info_to_buffer, serialize}
use shifupool.Block.{Block}
use shifupool.Executor.Status.{ExecutionStatus, is_success}
use shifupool.Executor.Deltas.{LedgerState, credit_delta, debit_delta, delta, touched}

-- `MAX_TRANSACTIONS_PER_BLOCK`
abbrev pub max_transactions_per_block : ℕ
max_transactions_per_block = 25000

pub record MemPool : Type 0 where
  pub mempool_outgoing : LedgerState
  pub to_send : List Transaction
  pub transaction_queue : List Transaction

-- what `transactionQueue.find` takes for the same transaction
abbrev pub equivalent : Transaction → Transaction → Bool
equivalent t u = not (transaction_lt t u) && not (transaction_lt u t)

unfoldable pub queued : Transaction → List Transaction → Bool
queued t [] = false
queued t (u ∷ us) = let rest = queued t us in if equivalent t u then true else rest

-- `transactionQueue.insert` of a transaction that was not found
unfoldable pub insert : Transaction → List Transaction → List Transaction
insert t [] = t ∷ []
insert t (u ∷ us) = let rest = insert t us in if transaction_lt t u then t ∷ u ∷ us else u ∷ rest

-- `transactionQueue.erase` of the transaction that was found
unfoldable pub erase : Transaction → List Transaction → List Transaction
erase t [] = []
erase t (u ∷ us) = let rest = erase t us in if equivalent t u then us else u ∷ rest

-- `mempoolOutgoing[wallet]` inserts a zero where there is no entry.
unfoldable pub subscript : Bytes → LedgerState → LedgerState
subscript w d = if touched d w then d else d ++ ((w, 0) ∷ [])

unfoldable pub erase_key : Bytes → LedgerState → LedgerState
erase_key w [] = []
erase_key w ((v, x) ∷ d) = let rest = erase_key w d in if bytes_eq w v then d else (v, x) ∷ rest

-- `MemPool::hasTransaction`, `size`, `getTransactions`
unfoldable pub has_transaction : MemPool → Transaction → Bool
has_transaction m t = queued t m.transaction_queue

unfoldable pub size : MemPool → ℕ
size m = length m.transaction_queue

unfoldable pub get_transactions : MemPool → List Transaction
get_transactions m = m.transaction_queue

-- `MemPool::getRaw`: the queue as it is sent to a miner
unfoldable pub raw_from : List Transaction → Bytes → Bytes
raw_from [] buf = buf
raw_from (t ∷ ts) buf = raw_from ts (transaction_info_to_buffer (serialize t) buf)

unfoldable pub get_raw : MemPool → Bytes
unfolding raw_from
get_raw m = raw_from m.transaction_queue []

-- What the pool asks of the block chain, whose state is `S`.
pub record Chain (S : Type 0) : Type 0 where
  pub verify_transaction : Transaction → Action S ExecutionStatus
  pub get_wallet_value : S → Bytes → Result ℕ

-- The pool and the chain that it asks.
pub record Node (S : Type 0) : Type 0 where
  pub pool : MemPool
  pub chain : S

-- the insertion into the queue, the outgoing amounts and the list to send
unfoldable pub enqueue : Transaction → MemPool → MemPool
enqueue t m = record {
  mempool_outgoing = credit_delta t.from t.amount m.mempool_outgoing;
  to_send = m.to_send ++ (t ∷ []);
  transaction_queue = insert t m.transaction_queue;
}

-- the tests on a transaction that the chain would execute
unfoldable pub admit : Transaction → Result ℕ → MemPool → Result ExecutionStatus × MemPool
admit t balance m =
    let looked =
      if not t.is_transaction_fee
      then record m { mempool_outgoing = subscript t.from m.mempool_outgoing }
      else m in
    let insertion =
      if ltb (length m.transaction_queue) max_transactions_per_block
      then (Result.returned ExecutionStatus.success, enqueue t looked)
      else (Result.returned ExecutionStatus.queue_full, looked) in
    if t.is_transaction_fee then insertion else elim balance [
      | threw e ↦ (Result.threw e, looked)
      | returned value ↦
          if ltb value (add64 (delta m.mempool_outgoing t.from) t.amount)
          then (Result.returned ExecutionStatus.balance_too_low, looked)
          else insertion
    ]

module _ {S : Type 0} (c : Chain S) where
  -- `MemPool::addTransaction`
  unfoldable pub add_transaction : Transaction → Action (Node S) ExecutionStatus
  add_transaction t n =
      if queued t n.pool.transaction_queue
      then (returned ExecutionStatus.already_in_queue, n)
      else (let (r, s) = c.verify_transaction t n.chain in
          elim r [
            | threw e ↦ (threw e, record { pool = n.pool; chain = s })
            | returned status ↦
                if is_success status
                then (let (r', m) = admit t (c.get_wallet_value s t.from) n.pool in
                    (r', record { pool = m; chain = s }))
                else (returned status, record { pool = n.pool; chain = s })
          ])

-- what `finishBlock` does with the outgoing amount of a transaction that it took out
unfoldable pub settle : Transaction → LedgerState → LedgerState
settle t d =
    if t.is_transaction_fee
    then d
    else (let d' = debit_delta t.from t.amount d in
        if delta d' t.from == 0 then erase_key t.from d' else d')

unfoldable pub finish_transaction : Transaction → MemPool → MemPool
finish_transaction t m =
    if queued t m.transaction_queue
    then record m {
      mempool_outgoing = settle t m.mempool_outgoing;
      transaction_queue = erase t m.transaction_queue;
    }
    else m

finish_all : List Transaction → MemPool → MemPool
finish_all [] m = m
finish_all (t ∷ ts) m = finish_all ts (finish_transaction t m)

-- `MemPool::finishBlock`
unfoldable pub finish_block : Block → MemPool → MemPool
unfolding finish_all
finish_block b m = finish_all b.transactions m
