-- ===== src/Examples/Server.antt =====
-- The theorems on the stores, the executor, the pool and the chain, applied.
use shifupool.Base.{
  ◌≡◌, ◌≤◌, ◌<◌, ◌↔◌, refl, true, [], ◌∷◌, Bytes, arith, replicate, bytes_eq, returned, map,
}
use shifupool.Words.{u32_mod, u64_mod, le_bytes, of_le, add64, sub64}
use shifupool.Crypto.{null_sha256_hash}
use shifupool.TxStore.{has_transaction}
use shifupool.Transaction.{
  signature_valid, hash_contents, Transaction, TransactionInfo, IsTransactionInfo,
}
use shifupool.Transaction
use shifupool.Block.{Block, BlockHeader, IsBlockHeader}
use shifupool.Block
use shifupool.BlockStore.{get_block, set_block, has_block}
use shifupool.BlockStore.Blocks.{IsStorable, reread, get_block-set_block}
use shifupool.DataStore.Table.{table, table-IsReliable}
use shifupool.Ledger
use shifupool.Ledger.Balances.{holding}
use shifupool.Executor.{
  Accounts, Stores, execute_block, rollback, update_ledger, send, scan, scan_step, execute_all,
  transfer, rollback_block,
}
use shifupool.Executor
use shifupool.Executor.Status.{ExecutionStatus, is_success}
use shifupool.Executor.Update.{Outcome, minted_by, update_ledger-Outcome}
use shifupool.Executor.Execute.{Executes, execute_block-mints, rollback-execute_block}
use shifupool.Executor.Undo.{rollback_block-execute_block}
use shifupool.Executor.Funds.{send-success, send-overflow}
use shifupool.Examples.{toy, flat, block_of, replicate-IsBytes, alice, bob, fee, payment, Db}

abbrev stored : Block
stored = record {
  id = 1;
  timestamp = 20;
  difficulty = 16;
  transactions = fee ∷ payment ∷ [];
  merkle_root = replicate 32 2;
  last_block_hash = null_sha256_hash;
  nonce = null_sha256_hash;
}

stored-IsBlockHeader : IsBlockHeader (Block.serialize stored)
unfolding Block.serialize
stored-IsBlockHeader = record {
  id_small = omega arith;
  timestamp_small = omega arith;
  difficulty_small = omega arith;
  count_small = omega arith;
  last_block_hash_size = replicate-IsBytes 32 0 (omega arith);
  merkle_root_size = replicate-IsBytes 32 2 (omega arith);
  nonce_size = replicate-IsBytes 32 0 (omega arith);
}

pub fee-IsStorable : IsStorable fee
unfolding Transaction.serialize
fee-IsStorable = record {
  info = record {
    signature_size = replicate-IsBytes 64 0 (omega arith);
    key_size = replicate-IsBytes 32 0 (omega arith);
    to_size = replicate-IsBytes 25 1 (omega arith);
    timestamp_small = omega arith;
    amount_small = omega arith;
    fee_small = omega arith;
  };
  from_size = refl;
}

pub payment-IsStorable : IsStorable payment
unfolding Transaction.serialize
payment-IsStorable = record {
  info = record {
    signature_size = replicate-IsBytes 64 7 (omega arith);
    key_size = replicate-IsBytes 32 3 (omega arith);
    to_size = replicate-IsBytes 25 2 (omega arith);
    timestamp_small = omega arith;
    amount_small = omega arith;
    fee_small = omega arith;
  };
  from_size = refl;
}

get_block-set_block_example :
    ((set_block (table Bytes) stored []).0 ≡ returned tt)
    × (has_block (table Bytes) (set_block (table Bytes) stored []).1 1 ≡ true)
    × (get_block (table Bytes) bob (set_block (table Bytes) stored []).1 1
        ≡ returned (record stored {
          transactions =
              map (reread (table Bytes) (table-IsReliable Bytes) bob) (fee ∷ payment ∷ []);
        }))
get_block-set_block_example =
    get_block-set_block (table Bytes) (table-IsReliable Bytes) bob stored [] stored-IsBlockHeader
      (omega arith) (fee-IsStorable, (payment-IsStorable, tt))

abbrev start : Accounts Db
start = record { ledger = (alice, le_bytes 8 50000) ∷ []; deltas = [] }

rollback-execute_block_example :
    let s =
      (execute_block toy
        (table Bytes)
        (table Bytes)
        stored
        []
        500000
        (record { ledger = start.ledger; deltas = [] })).1 in
    ((rollback (table Bytes) s.deltas s.ledger).0 ≡ returned tt)
    × ((j : Bytes)
        → holding (table Bytes) (rollback (table Bytes) s.deltas s.ledger).1 j
          ≡ holding (table Bytes) start.ledger j)
    × ((j : Bytes)
        → Ledger.has_wallet (table Bytes) start.ledger j ≡ true
        → Ledger.has_wallet (table Bytes) (rollback (table Bytes) s.deltas s.ledger).1 j ≡ true)
rollback-execute_block_example =
    rollback-execute_block toy (table Bytes) (table Bytes) (table-IsReliable Bytes) stored [] 500000
      start.ledger

-- a block with the fee and the payment, and what executing it leaves
abbrev paying : Block
paying = block_of 2 (fee ∷ payment ∷ [])

abbrev paid : Accounts Db
paid = (execute_block flat (table Bytes) (table Bytes) paying [] 500000 start).1

rollback_block-execute_block_example :
    let s : Stores Db Db = record { ledger = paid.ledger; txdb = [] } in
    ((rollback_block flat (table Bytes) (table Bytes) bob paying s).0 ≡ returned tt)
    × ((w : Bytes)
        → holding
            (table Bytes)
            (rollback_block flat (table Bytes) (table Bytes) bob paying s).1.ledger
            w
          ≡ holding (table Bytes) start.ledger w)
unfolding execute_block scan scan_step execute_all update_ledger send transfer is_success bytes_eq
    Executor.deposit Executor.withdraw Ledger.deposit Ledger.withdraw Ledger.has_wallet
    Ledger.create_wallet Ledger.get_wallet_value Ledger.set_wallet_value le_bytes of_le add64 sub64
    signature_valid has_transaction shifupool.Crypto.check_signature hash_contents
rollback_block-execute_block_example =
    rollback_block-execute_block flat (table Bytes) (table Bytes) (table-IsReliable Bytes)
      (table-IsReliable Bytes) bob paying [] [] 500000 start refl refl

execute_block-mints_example :
    Executes toy
      (table Bytes)
      (table Bytes)
      start
      500000
      (execute_block toy (table Bytes) (table Bytes) (record stored { id = 2 }) [] 500000 start)
execute_block-mints_example =
    execute_block-mints toy (table Bytes) (table Bytes) (table-IsReliable Bytes)
      (record stored { id = 2 }) [] 500000 start refl

update_ledger-Outcome_example :
    Outcome
      (table Bytes)
      start
      (minted_by payment 500000 2)
      (update_ledger toy (table Bytes) payment bob 500000 2 start)
update_ledger-Outcome_example =
    update_ledger-Outcome toy (table Bytes) (table-IsReliable Bytes) payment bob 500000 2 start

send-success_example :
    ((send toy (table Bytes) payment bob start).0 ≡ returned ExecutionStatus.success) ↔ (
      (Ledger.has_wallet (table Bytes) start.ledger alice ≡ true)
      × (add64 30000 10 ≤ holding (table Bytes) start.ledger alice))
send-success_example = send-success toy (table Bytes) (table-IsReliable Bytes) payment bob start

-- an amount of all but five of 2^64, with a fee of 50005
abbrev huge : Transaction
huge = record payment { amount = 18446744073709551611; fee = 50005 }

send-overflow_example :
    ((send toy (table Bytes) huge bob start).0 ≡ returned ExecutionStatus.success)
    × (holding (table Bytes) start.ledger alice < 18446744073709551611)
unfolding Ledger.has_wallet bytes_eq holding le_bytes shifupool.Words.of_le
send-overflow_example =
    send-overflow toy (table Bytes) (table-IsReliable Bytes) huge bob start (omega arith)
      (omega arith) (omega arith) refl refl
