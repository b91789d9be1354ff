-- ===== src/Api.antt =====
-- c++/src/core/api.cpp: what a node asks other hosts for, and how it reads their answers. The requests
-- themselves and JSON are parameters: an answer is a body, or an exception. Sizes are below 2^31, where
-- `int` and `size_t` agree. `pingPeer`, which builds a JSON object, is not modelled.
pub mod Wire
use shifupool.Base.{
  ℕ, zero, suc, ◌+◌, ◌/◌, ◌==◌, List, [], ◌∷◌, Bytes, drop, length, ltb, if◌then◌else◌, Result,
  returned, threw, Exception,
}
use shifupool.Crypto.{Primitives}
use shifupool.Transaction.{
  Transaction, transaction_info_from_buffer, of_transaction_info, transaction_info_to_buffer,
  transactioninfo_buffer_size,
}
use shifupool.Transaction
use shifupool.Block.{
  Block, BlockHeader, block_header_from_buffer, block_header_to_buffer, blockheader_buffer_size,
  of_block_header,
}
use shifupool.Block
use shifupool.BlockStore.Layout.{info_image}

-- The paths that are asked for.
pub data Route : Type 0 where
  block_count total_work name mine gettx submit add_transaction verify_transaction : Route
  block : ℕ → Route
  sync block_headers : ℕ → ℕ → Route

-- The HTTP library, the text of numbers and JSON.
pub record Http (Json : Type 0) : Type 0 where
  pub get : Bytes → Route → Result Bytes
  pub post : Bytes → Route → Bytes → Result Bytes
  pub stoi : Bytes → Result ℕ
  pub bigint : Bytes → ℕ
  pub parse : Bytes → Result Json

-- the loop of `submitBlock` and of `sendTransactions`
unfoldable pub transactions_to_buffer : List Transaction → Bytes → Bytes
transactions_to_buffer [] buffer = buffer
transactions_to_buffer (t ∷ ts) buffer =
    transactions_to_buffer ts (transaction_info_to_buffer (Transaction.serialize t) buffer)

-- the bytes that `submitBlock` sends
unfoldable pub block_to_buffer : Block → Bytes
block_to_buffer b =
    transactions_to_buffer b.transactions (block_header_to_buffer (Block.serialize b) [])

module _ {Json : Type 0} (http : Http Json) where
  open http use {get, post, stoi, bigint, parse}

  -- An answer read as JSON.
  unfoldable pub parsed : Result Bytes → Result Json
  parsed (threw e) = threw e
  parsed (returned body) = parse body

  unfoldable pub get_current_block_count : Bytes → Result ℕ
  get_current_block_count host_url = elim (get host_url block_count) [
    | threw e ↦ threw e
    | returned body ↦ stoi body
  ]

  unfoldable pub get_total_work : Bytes → Result ℕ
  get_total_work host_url = elim (get host_url total_work) [
    | threw e ↦ threw e
    | returned body ↦ returned (bigint body)
  ]

  unfoldable pub get_name : Bytes → Result Bytes
  get_name host_url = get host_url name

  unfoldable pub get_block_data : Bytes → ℕ → Result Json
  get_block_data host_url idx = parsed (get host_url (block idx))

  unfoldable pub get_mining_problem : Bytes → Result Json
  get_mining_problem host_url = parsed (get host_url mine)

  unfoldable pub submit_block : Bytes → Block → Result Json
  submit_block host_url b = parsed (post host_url submit (block_to_buffer b))

  unfoldable pub send_transaction : Bytes → Transaction → Result Json
  send_transaction host_url t =
      parsed
        (post host_url add_transaction (transaction_info_to_buffer (Transaction.serialize t) []))

  unfoldable pub send_transactions : Bytes → List Transaction → Result Json
  send_transactions host_url ts =
      parsed (post host_url add_transaction (transactions_to_buffer ts []))

  -- The structure in memory is sent, not its image on the wire.
  unfoldable pub verify_transaction_at : Bytes → Transaction → Result Json
  verify_transaction_at host_url t =
      parsed (post host_url verify_transaction (info_image (Transaction.serialize t)))

-- `stale` is what the sender of a mining fee is left with. A read behind the end of the answer is
-- undefined.
module _ (p : Primitives) (stale : Bytes) where
  -- `count` transactions, and the bytes behind them
  unfoldable pub read_transactions : ℕ → Bytes → Result (List Transaction × Bytes)
  read_transactions zero curr = returned ([], curr)
  read_transactions (suc count) curr =
      let rest = read_transactions count (drop transactioninfo_buffer_size curr) in
      if ltb (length curr) transactioninfo_buffer_size
      then threw Exception.undefined_behaviour
      else elim rest [
        | threw e ↦ threw e
        | returned (ts, left) ↦
            returned (of_transaction_info stale (transaction_info_from_buffer p curr) ∷ ts, left)
      ]

  unfoldable pub parse_raw_transactions : Bytes → Result (List Transaction)
  parse_raw_transactions bytes =
      elim (read_transactions (length bytes / transactioninfo_buffer_size) bytes) [
        | threw e ↦ threw e
        | returned (ts, left) ↦ returned ts
      ]

  unfoldable pub read_headers : ℕ → Bytes → Result (List BlockHeader)
  read_headers zero curr = returned []
  read_headers (suc count) curr =
      let rest = read_headers count (drop blockheader_buffer_size curr) in
      if ltb (length curr) blockheader_buffer_size
      then threw Exception.undefined_behaviour
      else elim rest [
        | threw e ↦ threw e
        | returned headers ↦ returned (block_header_from_buffer curr ∷ headers)
      ]

  unfoldable pub parse_raw_headers : Bytes → Result (List BlockHeader)
  parse_raw_headers bytes = read_headers (length bytes / blockheader_buffer_size) bytes

  -- One round of the loop of `readRawBlocks`: a block, and the bytes behind it.
  unfoldable pub read_block : Bytes → Result (Block × Bytes)
  read_block curr =
      let b = block_header_from_buffer curr in
      if ltb (length curr) blockheader_buffer_size
      then threw Exception.undefined_behaviour
      else elim (read_transactions b.num_transactions (drop blockheader_buffer_size curr)) [
        | threw e ↦ threw e
        | returned (ts, left) ↦ returned (of_block_header b ts, left)
      ]

  -- `while (true)`: a block is read before the end is tested. The fuel is the number of blocks; each
  -- takes more than one byte.
  unfoldable pub read_blocks : ℕ → Bytes → Result (List Block)
  read_blocks zero curr = threw Exception.undefined_behaviour
  read_blocks (suc fuel) curr = elim (read_block curr) [
    | threw e ↦ threw e
    | returned (b, left) ↦
        let rest = read_blocks fuel left in
        if length left == 0
        then returned (b ∷ [])
        else elim rest [ threw e ↦ threw e | returned blocks ↦ returned (b ∷ blocks) ]
  ]

  unfoldable pub parse_raw_blocks : Bytes → Result (List Block)
  parse_raw_blocks bytes = read_blocks (length bytes + 1) bytes

  module _ {Json : Type 0} (http : Http Json) where
    unfoldable pub read_raw_headers : Bytes → ℕ → ℕ → Result (List BlockHeader)
    read_raw_headers host_url start_id end_id =
        elim (http.get host_url (block_headers start_id end_id)) [
          | threw e ↦ threw e
          | returned body ↦ parse_raw_headers body
        ]

    unfoldable pub read_raw_blocks : Bytes → ℕ → ℕ → Result (List Block)
    read_raw_blocks host_url start_id end_id = elim (http.get host_url (sync start_id end_id)) [
      | threw e ↦ threw e
      | returned body ↦ parse_raw_blocks body
    ]

    unfoldable pub read_raw_transactions : Bytes → Result (List Transaction)
    read_raw_transactions host_url = elim (http.get host_url gettx) [
      | threw e ↦ threw e
      | returned body ↦ parse_raw_transactions body
    ]
