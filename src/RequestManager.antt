-- ===== src/RequestManager.antt =====
-- c++/src/server/request_manager.hpp and request_manager.cpp: what a node answers to requests. An answer
-- is a value instead of the JSON that it is written to. The pool is the one that the chain points to.
-- Times, random samples of hosts and the text of numbers are parameters. The destructor, `deleteDB` and
-- the forwarding threads are not modelled: `submitProofOfWork` gives the hosts and bytes to forward.
pub mod Keeping
pub mod Submitting
use Prim.Native.String.{String}
use shifupool.Base.{
  ℕ, ◌+◌, ◌*◌, ◌-◌, ◌==◌, Bool, true, false, not, Option, none, some, List, [], ◌∷◌, map, Bytes,
  bytes_eq, ltb, leb, length, if◌then◌else◌, Result, returned, threw, Exception, Action, ◌>>=◌,
  pure, throw, reads,
}
use shifupool.Words.{add64}
use shifupool.Int.{ℤ, pos, sub_ℕ, int32, pos_part, neg_part, div_ℤ}
use shifupool.Transaction.{Transaction}
use shifupool.Block.{Block, BlockHeader, get_difficulty}
use shifupool.Ledger
use shifupool.Executor.Status.{ExecutionStatus, is_success}
use shifupool.MerkleTree.{HashTree, set_items}
use shifupool.MerkleTree.Proof.{get_merkle_proof}
use shifupool.MemPool.{MemPool, Chain, get_transactions, size}
use shifupool.MemPool
use shifupool.RateLimiter.{RateLimiter, limit}
use shifupool.HostManager.{HostManager, get_hosts, add_peer}
use shifupool.Api.{block_to_buffer}
use shifupool.BlockChain.{
  BlockChain, Setup, get_block, get_block_header, get_raw, get_wallet_value,
  find_block_for_transaction, verify_transaction, get_current_mining_fee,
}
use shifupool.BlockChain.Changes.{sorted_block, add_block}

pub record RequestManager (L B T : Type 0) : Type 0 where
  pub blockchain : BlockChain L B T
  pub hosts : HostManager
  pub rate_limiter : RateLimiter
  pub limit_requests : Bool

-- The members of the answers.
pub record ProofOfWork : Type 0 where
  pub last_hash : Bytes
  pub challenge_size : ℕ
  pub chain_length : ℕ
  pub mining_fee : ℕ
  pub last_timestamp : ℕ

pub record MineStatus : Type 0 where
  pub miner_wallet : Bytes
  pub mint_fee : ℕ
  pub tx_fees : ℕ
  pub timestamp : ℕ

-- `transactions_per_second` is the quotient of the number of transactions and `last_block_time`, as a
-- `double`, and is left out.
pub record Stats : Type 0 where
  pub num_coins : ℤ
  pub pending_transactions : ℕ
  pub transactions : List Transaction
  pub transaction_volume : ℤ
  pub avg_transaction_size : ℤ
  pub avg_transaction_fee : ℤ
  pub difficulty : ℕ
  pub current_block : ℕ
  pub last_block_time : ℤ

-- An answer, or the text of its member `error`.
pub data Reply (A : Type 0) : Type 0 where
  ok : A → Reply A
  error : String → Reply A

-- What `submitProofOfWork` sends to its neighbors, and its status.
pub record Submission : Type 0 where
  pub status : ExecutionStatus
  pub forwarded : List (Bytes × Bytes)

-- `totalSent += t.getAmount()`: an `int` and a `uint64_t`
unfoldable pub add_amount : ℤ → ℕ → ℤ
add_amount a amount = int32 (sub_ℕ (pos_part a + amount) (neg_part a))

-- the loop of `getMineStatus`
unfoldable pub mine_status_of : List Transaction → MineStatus → MineStatus
mine_status_of [] s = s
mine_status_of (t ∷ ts) s =
    if t.is_transaction_fee
    then mine_status_of ts (record s { miner_wallet = t.to; mint_fee = t.amount })
    else mine_status_of ts (record s { tx_fees = add64 s.tx_fees t.fee })

-- the sums of the loop of `getStats`
unfoldable pub sum_amounts : List Transaction → ℤ → ℤ
sum_amounts [] a = a
sum_amounts (t ∷ ts) a = sum_amounts ts (add_amount a t.amount)

unfoldable pub sum_fees : List Transaction → ℤ → ℤ
sum_fees [] a = a
sum_fees (t ∷ ts) a = sum_fees ts (add_amount a t.fee)

module _ {L B T : Type 0} (setup : Setup L B T) where
  open setup use {primitives, ledger_db, stale}

  -- An action of the chain.
  abbrev pub on_chain : {A : Type 0} → Action (BlockChain L B T) A → Action (RequestManager L B T) A
  on_chain m s = let (r, c) = m s.blockchain in (r, record s { blockchain = c })

  -- What the pool asks the chain for.
  abbrev pub pool_chain : Chain (BlockChain L B T)
  pool_chain = record {
    verify_transaction = verify_transaction setup;
    get_wallet_value = get_wallet_value setup;
  }

  unfoldable pub enable_rate_limiting : Bool → RequestManager L B T → RequestManager L B T
  enable_rate_limiting enabled s = record s { limit_requests = enabled }

  unfoldable pub accept_request : Bytes → ℕ → RequestManager L B T → Bool × RequestManager L B T
  accept_request ip now s =
      if not s.limit_requests
      then (true, s)
      else (let (passed, r) = limit s.rate_limiter ip now in
          (passed, record s { rate_limiter = r }))

  -- The manager always has a pool; a null pointer is undefined.
  unfoldable pub add_transaction : Transaction → Action (RequestManager L B T) ExecutionStatus
  add_transaction t s = elim s.blockchain.mem_pool [
    | none ↦ throw Exception.undefined_behaviour s
    | some pool ↦
        let (r, n) =
          MemPool.add_transaction pool_chain t (record { pool = pool; chain = s.blockchain }) in
        (r, record s { blockchain = record n.chain { mem_pool = some n.pool } })
  ]

  -- `submitProofOfWork` at the network time `network_time`, with the sample that `sampleFreshHosts` draws.
  -- The block that is forwarded is the one that `addBlock` has sorted in place.
  unfoldable pub submit_proof_of_work :
      ℕ → List Bytes → Block → Action (RequestManager L B T) Submission
  submit_proof_of_work network_time neighbors new_block s =
      if leb new_block.id s.blockchain.num_blocks
      then pure (record { status = ExecutionStatus.invalid_block_id; forwarded = [] }) s
      else (let (r, c) = add_block setup network_time new_block s.blockchain in
          elim r [
            | threw e ↦ (threw e, record s { blockchain = c })
            | returned status ↦ (
              Result.returned (record {
                status = status;
                forwarded =
                    if is_success status
                    then map (λ n. (n, block_to_buffer (sorted_block setup new_block))) neighbors
                    else [];
              }),
              record s { blockchain = c },
            )
          ])

  -- An exception on the way ends in an error text.
  unfoldable pub verify_transaction_proof : Transaction → RequestManager L B T → Reply HashTree
  verify_transaction_proof t s = elim (find_block_for_transaction setup s.blockchain t) [
    | threw e ↦ error "Could not find block"
    | returned block_id ↦ elim (get_block setup s.blockchain block_id) [
      | threw e ↦ error "Could not find block"
      | returned b ↦
          let (items, tree) = set_items primitives b.transactions in
          elim tree [
            | none ↦ error "Could not find transaction in block"
            | some root ↦ elim (get_merkle_proof primitives items root t) [
              | none ↦ error "Could not find transaction in block"
              | some proof ↦ ok proof
            ]
          ]
    ]
  ]

  -- `through_json` is what a block is after a way through its JSON.
  unfoldable pub get_mine_status : (Block → Block) → ℕ → RequestManager L B T → Result MineStatus
  get_mine_status through_json block_id s = elim (get_block setup s.blockchain block_id) [
    | threw e ↦ threw e
    | returned b0 ↦
        let b = through_json b0 in
        returned (
          mine_status_of b.transactions
            (record { miner_wallet = stale; mint_fee = 0; tx_fees = 0; timestamp = b.timestamp }))
  ]

  unfoldable pub get_proof_of_work : RequestManager L B T → Result ProofOfWork
  get_proof_of_work s =
      let c = s.blockchain in
      elim (get_block_header setup c c.num_blocks) [
        | threw e ↦ threw e
        | returned last ↦ returned (record {
          last_hash = c.last_hash;
          challenge_size = c.difficulty;
          chain_length = c.num_blocks;
          mining_fee = get_current_mining_fee c;
          last_timestamp = last.timestamp;
        })
      ]

  unfoldable pub get_transaction_queue : RequestManager L B T → Result (List Transaction)
  get_transaction_queue s = elim s.blockchain.mem_pool [
    | none ↦ threw Exception.undefined_behaviour
    | some pool ↦ returned (get_transactions pool)
  ]

  unfoldable pub get_raw_block_data : ℕ → RequestManager L B T → Result Bytes
  get_raw_block_data block_id s = get_raw setup s.blockchain block_id

  unfoldable pub get_block_header_of : ℕ → RequestManager L B T → Result BlockHeader
  get_block_header_of block_id s = get_block_header setup s.blockchain block_id

  unfoldable pub get_raw_transaction_data : RequestManager L B T → Result Bytes
  get_raw_transaction_data s = elim s.blockchain.mem_pool [
    | none ↦ threw Exception.undefined_behaviour
    | some pool ↦ returned (MemPool.get_raw pool)
  ]

  unfoldable pub get_block_of : ℕ → RequestManager L B T → Result Block
  get_block_of block_id s = get_block setup s.blockchain block_id

  unfoldable pub get_peers : ℕ → RequestManager L B T → List Bytes
  get_peers now s = get_hosts now true s.hosts

  unfoldable pub add_peer_at :
      ℕ
      → Bool
      → Bytes
      → Bytes
      → ℕ
      → Bytes
      → RequestManager L B T
      → ExecutionStatus × RequestManager L B T
  add_peer_at now reachable check_point address time version s = (
    ExecutionStatus.success,
    record s { hosts = add_peer now reachable check_point address time version s.hosts },
  )

  unfoldable pub get_ledger : Bytes → RequestManager L B T → Result (Reply ℕ)
  get_ledger w s =
      if not (Ledger.has_wallet ledger_db s.blockchain.ledger w)
      then returned (error "Wallet not found")
      else elim (Ledger.get_wallet_value ledger_db s.blockchain.ledger w) [
        | threw e ↦ threw e
        | returned value ↦ returned (ok value)
      ]

  unfoldable pub get_block_count : RequestManager L B T → ℕ
  get_block_count s = s.blockchain.num_blocks

  unfoldable pub get_total_work : RequestManager L B T → ℕ
  get_total_work s = s.blockchain.total_work

  -- A division by zero is undefined.
  unfoldable pub stats_of : Block → Block → ℕ → ℕ → Result (Reply Stats)
  stats_of a b num_blocks pending =
      let count = length a.transactions in
      let total_sent = sum_amounts a.transactions (pos 0) in
      let fees = sum_fees a.transactions (pos 0) in
      if count == 0
      then threw Exception.undefined_behaviour
      else returned (
          ok (record {
            num_coins = int32 (pos (num_blocks * 50));
            pending_transactions = pending;
            transactions = a.transactions;
            transaction_volume = total_sent;
            avg_transaction_size = div_ℤ total_sent (pos count);
            avg_transaction_fee = div_ℤ fees (pos count);
            difficulty = get_difficulty a;
            current_block = a.id;
            last_block_time = int32 (sub_ℕ a.timestamp b.timestamp);
          }))

  unfoldable pub get_stats : RequestManager L B T → Result (Reply Stats)
  get_stats s =
      let c = s.blockchain in
      if c.num_blocks == 1 then returned (error "Need more data") else elim c.mem_pool [
        | none ↦ threw Exception.undefined_behaviour
        | some pool ↦ elim (get_block setup c c.num_blocks) [
          | threw e ↦ threw e
          | returned a ↦ elim (get_block setup c (c.num_blocks - 1)) [
            | threw e ↦ threw e
            | returned b ↦ stats_of a b c.num_blocks (size pool)
          ]
        ]
      ]
