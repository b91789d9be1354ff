-- ===== src/Api/Wire.antt =====
-- What is sent is read back: transactions, headers and blocks on the wire.
pub mod Served
use shifupool.Base.{
  ℕ, zero, suc, ◌+◌, ◌*◌, ◌/◌, ◌%◌, ◌≡◌, ◌≤◌, ◌<◌, refl, sym, ap, ◌∙◌, false, List, [], ◌∷◌, ◌++◌,
  map, Bytes, arith, All, length, append-nil, length-append, drop, length-drop, ltb, ◌==◌,
  if◌then◌else◌, Result, returned, Bool-cases, inl, inr, Bool,
}
use shifupool.Words.{u32_mod}
use shifupool.Crypto.{Primitives}
use shifupool.Transaction.{
  Transaction, TransactionInfo, IsTransactionInfo, of_transaction_info, derived_from,
  transactioninfo_buffer_size, transaction_info_to_buffer, transaction_info_from_buffer,
}
use shifupool.Transaction
use shifupool.Transaction.Codec as TxCodec
use shifupool.Block.{
  Block, BlockHeader, IsBlockHeader, of_block_header, blockheader_buffer_size,
  block_header_to_buffer, block_header_from_buffer,
}
use shifupool.Block
use shifupool.Block.Codec.{of_block_header_lem}
use shifupool.Block.Codec as BlockCodec
use shifupool.Api.{
  transactions_to_buffer, block_to_buffer, read_transactions, parse_raw_transactions, read_headers,
  parse_raw_headers, read_block, read_blocks, parse_raw_blocks,
}

-- A transaction as the receiver has it: the sender is computed from the key.
unfoldable pub received : Primitives → Bytes → Transaction → Transaction
received p stale t =
    let info = Transaction.serialize t in
    of_transaction_info stale
      (record info { from = derived_from p info.signing_key info.is_transaction_fee })

abbrev pub IsSent : Transaction → Type 0
IsSent t = IsTransactionInfo (Transaction.serialize t)

-- A block whose members have the sizes of their C++ types, as they are sent.
pub record IsSentBlock (b : Block) : Type 0 where
  pub header : IsBlockHeader (Block.serialize b)
  pub count : length b.transactions < u32_mod
  pub transactions : All IsSent b.transactions

-- Blocks as a host sends them, one behind the other.
unfoldable pub blocks_to_buffer : List Block → Bytes
blocks_to_buffer [] = []
blocks_to_buffer (b ∷ bs) = block_to_buffer b ++ blocks_to_buffer bs

-- the images of some transactions, before `rest`
images : List Transaction → Bytes → Bytes
images [] rest = rest
images (t ∷ ts) rest = TxCodec.image (Transaction.serialize t) (images ts rest)

transactions_to_buffer-images :
    (ts : List Transaction) (b rest : Bytes)
    → All IsSent ts
    → transactions_to_buffer ts b ++ rest ≡ b ++ images ts rest
unfolding transactions_to_buffer images
transactions_to_buffer-images [] b rest sent = refl
transactions_to_buffer-images (t ∷ ts) b rest sent =
    transactions_to_buffer-images ts (transaction_info_to_buffer (Transaction.serialize t) b) rest
      sent.1
    ∙ TxCodec.to_buffer-image (Transaction.serialize t) b (images ts rest) sent.0

length-images :
    (ts : List Transaction) (rest : Bytes)
    → All IsSent ts
    → length (images ts rest) ≡ transactioninfo_buffer_size * length ts + length rest
unfolding images
length-images [] rest sent = omega arith
length-images (t ∷ ts) rest sent = omega (
  arith,
  TxCodec.length-image (Transaction.serialize t) (images ts rest) sent.0,
  length-images ts rest sent.1,
)

transactions_of :
    (ts : List Transaction) → All IsSent ts → transactions_to_buffer ts [] ≡ images ts []
transactions_of ts sent =
    sym (append-nil (transactions_to_buffer ts [])) ∙ transactions_to_buffer-images ts [] [] sent

not_short : (n m : ℕ) → m ≤ n → ltb n m ≡ false
not_short n m h = ground arith

module _ (p : Primitives) (stale : Bytes) where
  read_transactions-images :
      (ts : List Transaction) (rest : Bytes)
      → All IsSent ts
      → read_transactions p stale (length ts) (images ts rest)
        ≡ returned (map (received p stale) ts, rest)
  unfolding read_transactions images received
  read_transactions-images [] rest sent = refl
  read_transactions-images (t ∷ ts) rest sent =
      let info = Transaction.serialize t in
      let enough =
        not_short (length (TxCodec.image info (images ts rest))) transactioninfo_buffer_size
          (omega (arith, TxCodec.length-image info (images ts rest) sent.0)) in
      rw (enough) (
        rw
          (
            TxCodec.drop-image info (images ts rest) sent.0,
            read_transactions-images ts rest sent.1,
            TxCodec.from_buffer-image p info (images ts rest) sent.0,
          )
          refl)

  pub parse_raw_transactions-to_buffer :
      (ts : List Transaction)
      → All IsSent ts
      → parse_raw_transactions p stale (transactions_to_buffer ts [])
        ≡ returned (map (received p stale) ts)
  unfolding parse_raw_transactions
  parse_raw_transactions-to_buffer ts sent = rw (transactions_of ts sent) (
      rw (count, parse_raw_transactions)
        (rw (read_transactions-images ts [] sent, parse_raw_transactions) refl))
    where
      count : length (images ts []) / transactioninfo_buffer_size ≡ length ts
      count = omega (arith, length-images ts [] sent)

  -- Whatever the answer is, no transaction is read behind its end.
  read_transactions_all :
      (count : ℕ) (curr : Bytes)
      → transactioninfo_buffer_size * count ≤ length curr
      → (ts : List Transaction) × (left : Bytes) × (read_transactions p stale count curr
          ≡ returned (ts, left))
        × (length ts ≡ count)
  unfolding read_transactions
  read_transactions_all zero curr enough = ([], curr, refl, refl)
  read_transactions_all (suc count) curr enough =
      let (ts, left, e, n) =
        read_transactions_all count (drop transactioninfo_buffer_size curr)
          (omega (arith, length-drop transactioninfo_buffer_size curr)) in
      let first = of_transaction_info stale (transaction_info_from_buffer p curr) in
      (
        first ∷ ts,
        left,
        rw (not_short (length curr) transactioninfo_buffer_size (omega arith))
            (rw (e, read_transactions) refl),
        ap suc n,
      )

  -- ReadRawTransactions reads no byte behind the end of any answer, and gives as many
  -- transactions as fit into it.
  pub parse_raw_transactions_total :
      (bytes : Bytes)
      → (ts : List Transaction) × (parse_raw_transactions p stale bytes ≡ returned ts)
        × (length ts ≡ length bytes / transactioninfo_buffer_size)
  unfolding parse_raw_transactions
  parse_raw_transactions_total bytes =
      let (ts, left, e, n) =
        read_transactions_all (length bytes / transactioninfo_buffer_size) bytes (omega arith) in
      (ts, rw (e, parse_raw_transactions) refl, n)

  -- A block as the receiver has it.
  unfoldable pub received_block : Block → Block
  received_block b = record b { transactions = map (received p stale) b.transactions }

  block_to_buffer-image :
      (b : Block) (rest : Bytes)
      → IsSentBlock b
      → block_to_buffer b ++ rest
        ≡ BlockCodec.image (Block.serialize b) (images b.transactions rest)
  unfolding block_to_buffer
  block_to_buffer-image b rest sent =
      transactions_to_buffer-images b.transactions (block_header_to_buffer (Block.serialize b) [])
        rest sent.transactions
      ∙ BlockCodec.to_buffer-image (Block.serialize b) [] (images b.transactions rest)

  read_block-step :
      (curr left : Bytes) (ts : List Transaction)
      → ltb (length curr) blockheader_buffer_size ≡ false
      → read_transactions p stale
          (block_header_from_buffer curr).num_transactions
          (drop blockheader_buffer_size curr)
        ≡ returned (ts, left)
      → read_block p stale curr
        ≡ returned (of_block_header (block_header_from_buffer curr) ts, left)
  unfolding read_block
  read_block-step curr left ts long found = rw (long, read_block) (rw (found, read_block) refl)

  read_block-image :
      (b : Block) (rest : Bytes)
      → IsSentBlock b
      → read_block p stale (block_to_buffer b ++ rest) ≡ returned (received_block b, rest)
  unfolding received_block
  read_block-image b rest sent =
      let header = Block.serialize b in
      let behind = images b.transactions rest in
      let read = BlockCodec.from_buffer-image header behind sent.header in
      rw (block_to_buffer-image b rest sent) (
        read_block-step (BlockCodec.image header behind) rest
          (map (received p stale) b.transactions)
          (not_short _ blockheader_buffer_size
            (omega (arith, BlockCodec.length-image header behind sent.header)))
          (rw (read, BlockCodec.drop-image header behind sent.header, counted b sent.count)
            (read_transactions-images b.transactions rest sent.transactions))
        ∙ ap (λ h. returned (of_block_header h (map (received p stale) b.transactions), rest)) read
        ∙ ap (λ c. returned (c, rest))
            (of_block_header_lem b (map (received p stale) b.transactions)))
    where
      counted :
          (b : Block)
          → length b.transactions < u32_mod
          → (Block.serialize b).num_transactions ≡ length b.transactions
      counted b small = unfold Block.serialize in omega arith

  length-block_to_buffer :
      (b : Block) (rest : Bytes) → IsSentBlock b → 0 < length (block_to_buffer b ++ rest)
  length-block_to_buffer b rest sent = rw (block_to_buffer-image b rest sent) (
      omega (
        arith,
        BlockCodec.length-image (Block.serialize b) (images b.transactions rest) sent.header,
      ))

  read_blocks-to_buffer :
      (fuel : ℕ) (b : Block) (bs : List Block)
      → length bs < fuel
      → IsSentBlock b
      → All IsSentBlock bs
      → read_blocks p stale fuel (blocks_to_buffer (b ∷ bs))
        ≡ returned (map received_block (b ∷ bs))
  unfolding read_blocks blocks_to_buffer
  read_blocks-to_buffer zero b bs enough sent all = absurd (omega arith)
  read_blocks-to_buffer (suc fuel) b [] enough sent all =
      rw (read_block-image b [] sent, read_blocks) refl
  read_blocks-to_buffer (suc fuel) b (c ∷ bs) enough sent all =
      rw (read_block-image b (blocks_to_buffer (c ∷ bs)) sent, read_blocks)
        (rw
          (
            goes_on (length-block_to_buffer c (blocks_to_buffer bs) all.0),
            read_blocks-to_buffer fuel c bs (omega arith) all.0 all.1,
          )
          refl)
    where
      goes_on : {n : ℕ} → 0 < n → (n == 0) ≡ false
      goes_on pos = ground arith

  length-blocks_to_buffer :
      (bs : List Block) → All IsSentBlock bs → length bs ≤ length (blocks_to_buffer bs)
  unfolding blocks_to_buffer
  length-blocks_to_buffer [] all = omega arith
  length-blocks_to_buffer (b ∷ bs) all = omega (
    arith,
    length-append (block_to_buffer b) (blocks_to_buffer bs),
    length-append (block_to_buffer b) [],
    length-block_to_buffer b [] all.0,
    length-blocks_to_buffer bs all.1,
  )

  -- ReadRawBlocks reads one or more blocks, whose members have the sizes of their types and
  -- which were sent one behind the other, as these blocks in order, with the senders computed
  -- from the keys; the rounds that the size of the answer allows are enough.
  pub parse_raw_blocks-blocks_to_buffer :
      (b : Block) (bs : List Block)
      → IsSentBlock b
      → All IsSentBlock bs
      → parse_raw_blocks p stale (blocks_to_buffer (b ∷ bs))
        ≡ returned (map received_block (b ∷ bs))
  unfolding parse_raw_blocks
  parse_raw_blocks-blocks_to_buffer b bs sent all =
      read_blocks-to_buffer _ b bs (omega (arith, length-blocks_to_buffer (b ∷ bs) (sent, all)))
        sent all
