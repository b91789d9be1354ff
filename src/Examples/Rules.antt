-- ===== src/Examples/Rules.antt =====
-- The theorems on difficulty, request limits, header chains, peers and stores, applied.
use shifupool.Base.{
  ℕ, ◌+◌, ◌*◌, ◌%◌, ◌≡◌, ◌≤◌, refl, true, false, Option, some, List, [], ◌∷◌, Bytes, arith,
  replicate, bytes_eq, if◌then◌else◌, returned,
}
use shifupool.Words.{u32_mod}
use shifupool.Int.{pos}
use shifupool.Crypto.{null_sha256_hash}
use shifupool.Transaction.{hash_contents}
use shifupool.Block.{BlockHeader, of_block_header, get_hash}
use shifupool.Difficulty.{
  settled, divided_by_zero, lower, distance, double, is_zero, compute_difficulty,
}
use shifupool.Difficulty.Settled.{Settles, compute_difficulty-Settles}
use shifupool.Difficulty.Bounds.{Ends, compute_difficulty-Ends, compute_difficulty-zero}
use shifupool.RateLimiter.{RateLimiter, find, nanoseconds, share, accepted}
use shifupool.RateLimiter.Bound.{requests, accepted_bound, accepted-requests}
use shifupool.HeaderChain.{HeaderChain, LoadVars, new_header_chain, load, add_headers}
use shifupool.HeaderChain.Linked.{IsValid, load-IsValid}
use shifupool.HeaderChain.Checkpoints.{load-new_header_chain}
use shifupool.HostManager.{HostManager, better, best_of, get_best_work}
use shifupool.HostManager.Best.{IsBest, get_good_host-IsBest}
use shifupool.HeaderChain
use shifupool.TxStore.{
  has_transaction, block_for_transaction, insert_transaction,
  block_for_transaction-insert_transaction,
}
use shifupool.DataStore.Table.{table, table-IsReliable}
use shifupool.Examples.{toy, alice, bob, fee, payment}

compute_difficulty-Ends_example : Ends 16 254 (compute_difficulty 60 (pos 1) (pos 0))
compute_difficulty-Ends_example =
    compute_difficulty-Ends 60 (pos 1) (pos 0) (omega arith) (omega arith)

-- Without an expected time, `k` becomes zero and is divided by.
no_expected_time : compute_difficulty 60 (pos 1) (pos 0) ≡ divided_by_zero
unfolding compute_difficulty lower distance double is_zero
no_expected_time = refl

compute_difficulty-Settles_example : Settles 60 (compute_difficulty 60 (pos 20000) (pos 9000))
compute_difficulty-Settles_example =
    compute_difficulty-Settles 60 (pos 20000) 9000 (omega arith) (omega arith) (omega arith)

compute_difficulty-zero_example : compute_difficulty 30 (pos 0) (pos 9000) ≡ settled 254
compute_difficulty-zero_example = compute_difficulty-zero 30 9000 (omega arith)

-- 10 requests in 20 seconds
abbrev slow : RateLimiter
slow = record { n = 10; seconds = 20; c = [] }

accepted_bound_example :
    accepted slow alice ((alice, 30000000000) ∷ (alice, 31000000000) ∷ []) * share slow
      + 30000000000
    ≤ 40000000000 + nanoseconds 20 + share slow
unfolding find
accepted_bound_example =
    accepted_bound slow alice 30000000000 40000000000 ((alice, 31000000000) ∷ []) refl (omega arith)
      (omega arith) (omega arith, tt)

accepted-requests_example :
    accepted (record { n = 30; seconds = 5; c = [] }) alice ((alice, 7) ∷ (alice, 7) ∷ [])
    ≡ requests alice ((alice, 7) ∷ (alice, 7) ∷ [])
accepted-requests_example =
    accepted-requests 30 5 alice ((alice, 7) ∷ (alice, 7) ∷ []) (omega arith)
      (omega arith, (omega arith, tt))

-- the header of a first block
abbrev first : BlockHeader
first = record {
  id = 1;
  timestamp = 20;
  difficulty = 16;
  num_transactions = 1;
  last_block_hash = null_sha256_hash;
  merkle_root = replicate 32 2;
  nonce = replicate 32 3;
}

abbrev answer : ℕ → ℕ → Option (List BlockHeader)
answer i end = some (first ∷ [])

new_header_chain-IsValid : IsValid toy false (new_header_chain alice (replicate 32 8))
unfolding new_header_chain shifupool.HeaderChain.Linked.Linked shifupool.HeaderChain.Linked.hashes
    shifupool.HeaderChain.Linked.work
new_header_chain-IsValid = record {
  headers = [];
  linked = tt;
  listed = refl;
  summed = refl;
  counted = refl;
}

load-IsValid_example :
    IsValid toy false (load toy false (some 1) answer (new_header_chain alice (replicate 32 8)))
    × ((load toy false (some 1) answer (new_header_chain alice (replicate 32 8))).failed ≡ false)
load-IsValid_example =
    load-IsValid toy false (some 1) answer (new_header_chain alice (replicate 32 8))
      new_header_chain-IsValid

load-new_header_chain_example :
    ((load toy false (some 1) answer (new_header_chain alice (replicate 32 8))).block_hashes
      ≡ (load toy false (some 1) answer (new_header_chain alice (replicate 32 9))).block_hashes)
    × ((load toy false (some 1) answer (new_header_chain alice (replicate 32 8))).total_work
        ≡ (load toy false (some 1) answer (new_header_chain alice (replicate 32 9))).total_work)
load-new_header_chain_example =
    load-new_header_chain toy false alice (replicate 32 8) (replicate 32 9) (some 1) answer

abbrev first_hash : Bytes
first_hash = get_hash toy (of_block_header first [])

abbrev peer : Bytes → ℕ → HeaderChain
peer host work = record {
  host = host;
  block_hashes = first_hash ∷ [];
  total_work = work;
  chain_length = 1;
  offset = 0;
  failed = false;
  check_points = [];
}

abbrev network : HostManager
network = record {
  curr_peers = peer alice 5 ∷ peer bob 9 ∷ [];
  host_ping_times = [];
  peer_clock_deltas = [];
  hosts = alice ∷ bob ∷ [];
  blacklist = [];
  whitelist = [];
  address = [];
  version = [];
}

get_good_host-IsBest_example : (h : HeaderChain) × IsBest network h
unfolding get_best_work best_of better HeaderChain.get_total_work
get_good_host-IsBest_example = get_good_host-IsBest network (omega arith)

block_for_transaction-insert_transaction_example :
    ((insert_transaction toy (table Bytes) payment 3 []).0 ≡ returned tt)
    × (block_for_transaction toy
          (table Bytes)
          (insert_transaction toy (table Bytes) payment 3 []).1
          fee
        ≡ (if bytes_eq (hash_contents toy payment) (hash_contents toy fee)
            then returned (3 % u32_mod)
            else block_for_transaction toy (table Bytes) [] fee))
    × (has_transaction toy (table Bytes) (insert_transaction toy (table Bytes) payment 3 []).1 fee
        ≡ (if bytes_eq (hash_contents toy payment) (hash_contents toy fee)
            then true
            else has_transaction toy (table Bytes) [] fee))
block_for_transaction-insert_transaction_example =
    block_for_transaction-insert_transaction toy (table Bytes) (table-IsReliable Bytes) [] payment
      fee 3
