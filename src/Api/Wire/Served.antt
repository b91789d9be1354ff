-- ===== src/Api/Wire/Served.antt =====
-- What a node serves, from its pool and from its block store, is what another node reads.
use shifupool.Base.{
  ℕ, suc, ◌≡◌, ◌<◌, refl, sym, ap, ◌∙◌, Option-cases, Result-cases, some, List, [], ◌∷◌, append-nil,
  map, Bytes, All, length, arith, returned, returned_eq, threw-ne-returned, inl, inr,
}
use shifupool.Words.{u32_mod}
use shifupool.Crypto.{Primitives}
use shifupool.Transaction.{Transaction, TransactionInfo, transaction_info_to_buffer}
use shifupool.Transaction
use shifupool.Block.{Block, IsBlockHeader, block_header_to_buffer}
use shifupool.Block
use shifupool.DataStore.{LevelDb, IsReliable}
use shifupool.MemPool.{MemPool, raw_from, get_raw}
use shifupool.BlockStore.{transaction_key, read_transactions, read_raw, get_raw_data, set_block}
use shifupool.BlockStore.Layout.{info_of_image}
use shifupool.BlockStore.Blocks.{IsStorable, set_block-found}
use shifupool.Api.{
  transactions_to_buffer, block_to_buffer, parse_raw_transactions, parse_raw_blocks,
}
use shifupool.Api.Wire.{
  received, IsSent, received_block, parse_raw_transactions-to_buffer,
  parse_raw_blocks-blocks_to_buffer, blocks_to_buffer,
}

raw_from-to_buffer :
    (ts : List Transaction) (buf : Bytes) → raw_from ts buf ≡ transactions_to_buffer ts buf
unfolding raw_from transactions_to_buffer
raw_from-to_buffer [] buf = refl
raw_from-to_buffer (t ∷ ts) buf =
    raw_from-to_buffer ts (transaction_info_to_buffer (Transaction.serialize t) buf)

-- What getRaw of a pool gives is read by readRawTransactions as the waiting transactions in
-- order, with the senders computed from the keys, where their members have the sizes of their
-- types.
pub parse_raw_transactions-get_raw :
    (p : Primitives) (stale : Bytes) (m : MemPool)
    → All IsSent m.transaction_queue
    → parse_raw_transactions p stale (get_raw m)
      ≡ returned (map (received p stale) m.transaction_queue)
unfolding get_raw
parse_raw_transactions-get_raw p stale m sent =
    ap (parse_raw_transactions p stale) (raw_from-to_buffer m.transaction_queue [])
    ∙ parse_raw_transactions-to_buffer p stale m.transaction_queue sent

head_eq : {A : Type 0} {x y : A} {xs ys : List A} → ◌≡◌ {A = List A} (x ∷ xs) (y ∷ ys) → x ≡ y
head_eq e = cc

tail_eq : {A : Type 0} {x y : A} {xs ys : List A} → ◌≡◌ {A = List A} (x ∷ xs) (y ∷ ys) → xs ≡ ys
tail_eq e = cc

module _ {DB : Type 0} (db : LevelDb DB Bytes) where
  -- One entry of a list that was read.
  read_transactions-first :
      (d : DB) (id i n : ℕ) (info : TransactionInfo) (infos : List TransactionInfo)
      → read_transactions db d id i (suc n) ≡ returned (info ∷ infos)
      → (v : Bytes) × (db.get d (transaction_key id i) ≡ some v)
        × (info_of_image v ≡ info)
        × (read_transactions db d id (suc i) n ≡ returned infos)
  unfolding read_transactions
  read_transactions-first d id i n info infos e =
      elim (Option-cases (db.get d (transaction_key id i))) [
        | inl missing ↦ absurd (threw-ne-returned (rw (missing, read_transactions) at e))
        | inr (v, there) ↦ elim (Result-cases (read_transactions db d id (suc i) n)) [
          | inr (ex, q) ↦
              absurd (
                threw-ne-returned (rw (q, read_transactions) at rw (there, read_transactions) at e))
          | inl (rest, q) ↦
              let same =
                returned_eq (rw (q, read_transactions) at rw (there, read_transactions) at e) in
              (v, there, head_eq same, q ∙ ap returned (tail_eq same))
        ]
      ]

  read_raw-to_buffer :
      (d : DB) (id i : ℕ) (ts : List Transaction) (buf : Bytes)
      → read_transactions db d id i (length ts) ≡ returned (map Transaction.serialize ts)
      → read_raw db d id i (length ts) buf ≡ returned (transactions_to_buffer ts buf)
  unfolding read_raw transactions_to_buffer
  read_raw-to_buffer d id i [] buf found = refl
  read_raw-to_buffer d id i (t ∷ ts) buf found =
      let (v, there, same, rest) = read_transactions-first d id i (length ts) _ _ found in
      rw (there, read_raw) (rw same (read_raw-to_buffer d id (suc i) ts _ rest))

  -- Over a reliable database, the bytes that getRawData gives for a block that was stored,
  -- whose members have the sizes of their types, are read by readRawBlocks as exactly this
  -- block, with the senders computed from the keys.
  pub parse_raw_blocks-get_raw_data :
      (reliable : IsReliable db) (p : Primitives) (stale : Bytes) (b : Block) (d : DB)
      → IsBlockHeader (Block.serialize b)
      → length b.transactions < u32_mod
      → All IsStorable b.transactions
      → (bytes : Bytes) × (get_raw_data db (set_block db b d).1 b.id ≡ returned bytes)
        × (parse_raw_blocks p stale bytes ≡ returned (received_block p stale b ∷ []))
  unfolding get_raw_data block_to_buffer blocks_to_buffer
  parse_raw_blocks-get_raw_data reliable p stale b d header room good =
      let (there, found) = set_block-found db reliable b d header room good in
      (
        block_to_buffer b,
        rw (there, get_raw_data)
            (rw (counted b room) (read_raw-to_buffer _ b.id 0 b.transactions _ found)),
        ap (parse_raw_blocks p stale) (sym (append-nil (block_to_buffer b)))
            ∙ parse_raw_blocks-blocks_to_buffer p stale b []
                (record { header = header; count = room; transactions = sent b.transactions good })
                tt,
      )
    where
      counted :
          (b : Block)
          → length b.transactions < u32_mod
          → (Block.serialize b).num_transactions ≡ length b.transactions
      counted b small = unfold Block.serialize in omega arith

      sent : (ts : List Transaction) → All IsStorable ts → All IsSent ts
      sent [] all = tt
      sent (t ∷ ts) all = (all.0.info, sent ts all.1)
