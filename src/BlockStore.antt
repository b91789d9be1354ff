-- ===== src/BlockStore.antt =====
-- c++/src/server/block_store.cpp: the blocks on disk, one LevelDB entry for the header of a block
-- (its key is the image of the number of the block) and one for each of its transactions (number and
-- index), an entry for the count of blocks and one for the total work. The values are images of
-- structures in memory; their padding, which holds anything, is written as zeros.
pub mod Layout
pub mod Blocks
pub mod Kept
use mathlib.Core.List.{reverse}
use shifupool.Base.{
  ℕ, zero, suc, ◌+◌, ◌%◌, Bool, true, false, Option, none, some, List, [], ◌∷◌, ◌++◌, map, Bytes,
  length, Result, returned, threw, Exception, Action, ◌>>=◌, ◌>>◌, pure, if◌then◌else◌,
}
use shifupool.Words.{u32_mod, u64_mod, le_bytes, of_le}
use shifupool.Transaction.{
  Transaction, TransactionInfo, of_transaction_info, transaction_info_to_buffer,
}
use shifupool.Transaction
use shifupool.Block.{Block, BlockHeader, of_block_header, block_header_to_buffer}
use shifupool.Block
use shifupool.DataStore.{LevelDb, checked}
use Layout.{header_image, header_of_image, info_image, info_of_image}

-- `BLOCK_COUNT_KEY`, `TOTAL_WORK_KEY`, in ASCII
abbrev pub block_count_key : Bytes
block_count_key = 66 ∷ 76 ∷ 79 ∷ 67 ∷ 75 ∷ 95 ∷ 67 ∷ 79 ∷ 85 ∷ 78 ∷ 84 ∷ []

abbrev pub total_work_key : Bytes
total_work_key = 84 ∷ 79 ∷ 84 ∷ 65 ∷ 76 ∷ 95 ∷ 87 ∷ 79 ∷ 82 ∷ 75 ∷ []

abbrev pub block_key : ℕ → Bytes
block_key block_id = le_bytes 4 block_id

abbrev pub transaction_key : ℕ → ℕ → Bytes
transaction_key block_id i = le_bytes 4 block_id ++ le_bytes 4 i

-- The decimal text of the big integers of c++/src/external.
pub record BigintText : Type 0 where
  pub to_text : ℕ → Bytes
  pub of_text : Bytes → ℕ

module _ {DB : Type 0} (db : LevelDb DB Bytes) where
  open db use {get, put}

  -- A read whose status is checked.
  abbrev pub fetch : DB → Bytes → Result Bytes
  fetch d key = elim (get d key) [
    | none ↦ threw Exception.key_not_found
    | some value ↦ returned value
  ]

  unfoldable pub set_block_count : ℕ → Action DB (Unit {0})
  set_block_count count d = checked (put d block_count_key (le_bytes 8 count))

  unfoldable pub get_block_count : DB → Result ℕ
  get_block_count d = elim (fetch d block_count_key) [
    | threw e ↦ threw e
    | returned value ↦ returned (of_le 8 value)
  ]

  unfoldable pub has_block_count : DB → Bool
  has_block_count d = elim (get d block_count_key) [ none ↦ false | some value ↦ true ]

  unfoldable pub has_block : DB → ℕ → Bool
  has_block d block_id = elim (get d (block_key block_id)) [ none ↦ false | some value ↦ true ]

  unfoldable pub get_block_header : DB → ℕ → Result BlockHeader
  get_block_header d block_id = elim (fetch d (block_key block_id)) [
    | threw e ↦ threw e
    | returned value ↦ returned (header_of_image value)
  ]

  -- The transactions of the block `id` from the index `i` on, `count` of them.
  unfoldable pub read_transactions : DB → ℕ → ℕ → ℕ → Result (List TransactionInfo)
  read_transactions d id i zero = returned []
  read_transactions d id i (suc count) =
      let rest = read_transactions d id (suc i) count in
      elim (fetch d (transaction_key id i)) [
        | threw e ↦ threw e
        | returned value ↦ elim rest [
          | threw e ↦ threw e
          | returned ts ↦ returned (info_of_image value ∷ ts)
        ]
      ]

  unfoldable pub get_block_transactions : DB → BlockHeader → Result (List TransactionInfo)
  unfolding read_transactions
  get_block_transactions d block = read_transactions d block.id 0 block.num_transactions

  -- The entries of `getRawData` behind the header, written one after the other.
  unfoldable pub read_raw : DB → ℕ → ℕ → ℕ → Bytes → Result Bytes
  read_raw d id i zero buffer = returned buffer
  read_raw d id i (suc count) buffer = elim (fetch d (transaction_key id i)) [
    | threw e ↦ threw e
    | returned value ↦
        read_raw d id (suc i) count (transaction_info_to_buffer (info_of_image value) buffer)
  ]

  unfoldable pub get_raw_data : DB → ℕ → Result Bytes
  unfolding read_raw
  get_raw_data d block_id = elim (get_block_header d block_id) [
    | threw e ↦ threw e
    | returned block ↦
        read_raw d block_id 0 block.num_transactions (block_header_to_buffer block [])
  ]

  -- `stale` is the sender that the transactions of a mining fee are left with.
  unfoldable pub get_block : Bytes → DB → ℕ → Result Block
  get_block stale d block_id = elim (get_block_header d block_id) [
    | threw e ↦ threw e
    | returned block ↦ elim (get_block_transactions d block) [
      | threw e ↦ threw e
      | returned infos ↦ returned (of_block_header block (map (of_transaction_info stale) infos))
    ]
  ]

  -- the loop of `setBlock`
  pub write_transactions : ℕ → ℕ → List Transaction → Action DB (Unit {0})
  write_transactions id i [] = pure tt
  write_transactions id i (t ∷ ts) =
      (λ d. checked (put d (transaction_key id i) (info_image (Transaction.serialize t))))
      >> write_transactions id (suc i) ts

  unfoldable pub set_block : Block → Action DB (Unit {0})
  unfolding write_transactions
  set_block block =
      (λ d. checked (put d (block_key block.id) (header_image (Block.serialize block))))
      >> write_transactions block.id 0 block.transactions

  module _ (text : BigintText) where
    open text use {to_text, of_text}

    unfoldable pub set_total_work : ℕ → Action DB (Unit {0})
    set_total_work count d = checked (put d total_work_key (to_text count))

    unfoldable pub get_total_work : DB → Result ℕ
    get_total_work d = elim (fetch d total_work_key) [
      | threw e ↦ threw e
      | returned value ↦ returned (of_text value)
    ]
