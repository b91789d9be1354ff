-- ===== src/BlockStore/Blocks.antt =====
-- Blocks written to the store are read back.
use shifupool.Base.{
  ℕ, suc, ◌+◌, ◌%◌, ◌≡◌, ◌≢◌, ◌≤◌, ◌<◌, refl, ap, ◌∙◌, Bool, true, false, not, some, List, [], ◌∷◌,
  ◌++◌, map, Bytes, bytes_eq, bytes_eq_iff, bytes_eq_refl, length-append, arith, All, length, drop,
  if◌then◌else◌, returned, ◌>>=◌, Bool-cases, inl, inr,
}
use shifupool.Words.{u32_mod, le_bytes, of_le, of_le-le_bytes4, length-le_bytes}
use shifupool.Transaction.{Transaction, TransactionInfo, IsTransactionInfo, of_transaction_info}
use shifupool.Transaction
use shifupool.Block.{Block, BlockHeader, IsBlockHeader, of_block_header}
use shifupool.Block
use shifupool.Block.Codec.{of_block_header_lem}
use shifupool.DataStore.{LevelDb, IsReliable}
use shifupool.BlockStore.{
  block_key, transaction_key, has_block, get_block_header, read_transactions,
  get_block_transactions, get_block, write_transactions, set_block,
}
use shifupool.BlockStore.Layout.{
  header_image, info_image, info_of_image, header_of_image-header_image, info_of_image-info_image,
}

-- A transaction whose members have the sizes of their types.
pub record IsStorable (t : Transaction) : Type 0 where
  pub info : IsTransactionInfo (Transaction.serialize t)
  pub from_size : length t.from ≡ 25

pub le_bytes_eq : (x y : ℕ) → x < u32_mod → y < u32_mod → le_bytes 4 x ≡ le_bytes 4 y → x ≡ y
le_bytes_eq x y hx hy e =
    omega (arith, of_le-le_bytes4 x [], of_le-le_bytes4 y [], ap (λ b. of_le 4 (b ++ [])) e)

key_index : (id i j : ℕ) → transaction_key id i ≡ transaction_key id j → le_bytes 4 i ≡ le_bytes 4 j
unfolding le_bytes
key_index id i j e = ap (drop 4) e

if_true : {A : Type 0} {b : Bool} {x : A} (y : A) → b ≡ true → (if b then x else y) ≡ x
if_true y e = rw e refl

if_false : {A : Type 0} {b : Bool} (x : A) {y : A} → b ≡ false → (if b then x else y) ≡ y
if_false x e = rw e refl

from_length : (t : Transaction) → IsStorable t → length (Transaction.serialize t).from ≡ 25
unfolding Transaction.serialize
from_length t good = good.from_size

-- The keys of two transactions of one block differ.
transaction_key_ne :
    (id i j : ℕ)
    → i < u32_mod
    → j < u32_mod
    → i ≢ j
    → bytes_eq (transaction_key id i) (transaction_key id j) ≡ false
transaction_key_ne id i j hi hj ne =
    elim (Bool-cases (bytes_eq (transaction_key id i) (transaction_key id j))) [
      | inr e ↦ e
      | inl e ↦ absurd (ne (le_bytes_eq i j hi hj (key_index id i j ((bytes_eq_iff _ _).0 e))))
    ]

-- The key of a transaction is not the key of a block.
block_key_ne : (id i : ℕ) → bytes_eq (transaction_key id i) (block_key id) ≡ false
block_key_ne id i = elim (Bool-cases (bytes_eq (transaction_key id i) (block_key id))) [
  | inr e ↦ e
  | inl e ↦ absurd (
      omega (
        arith,
        ap length ((bytes_eq_iff (transaction_key id i) (block_key id)).0 e),
        length-append (le_bytes 4 id) (le_bytes 4 i),
        length-le_bytes 4 id,
        length-le_bytes 4 i,
      ))
]

module _ {DB : Type 0} (db : LevelDb DB Bytes) (reliable : IsReliable db) where
  -- The transactions `ts` were written at the indices from `i` on, and nothing else was touched.
  pub record Wrote (id i : ℕ) (ts : List Transaction) (d : DB) : Type 0 where
    pub ended : (write_transactions db id i ts d).0 ≡ returned tt
    pub kept :
        (k : Bytes)
        → ((j : ℕ) → i ≤ j → j < i + length ts → bytes_eq (transaction_key id j) k ≡ false)
        → db.get (write_transactions db id i ts d).1 k ≡ db.get d k
    pub found :
        read_transactions db (write_transactions db id i ts d).1 id i (length ts)
        ≡ returned (map Transaction.serialize ts)

  write_transactions-step :
      (id i : ℕ) (t : Transaction) (ts : List Transaction) (d : DB)
      → write_transactions db id i (t ∷ ts) d
        ≡ write_transactions db id
            (suc i)
            ts
            (db.put d (transaction_key id i) (info_image (Transaction.serialize t))).0
  unfolding write_transactions
  write_transactions-step id i t ts d =
      rw (reliable.put_ok d (transaction_key id i) (info_image (Transaction.serialize t)), ◌>>=◌)
        refl

  read_transactions-step :
      (d : DB) (id i n : ℕ) (value : Bytes) (infos : List TransactionInfo)
      → db.get d (transaction_key id i) ≡ some value
      → read_transactions db d id (suc i) n ≡ returned infos
      → read_transactions db d id i (suc n) ≡ returned (info_of_image value ∷ infos)
  unfolding read_transactions
  read_transactions-step d id i n value infos there rest =
      rw (there, read_transactions) (rw rest refl)

  nothing-Wrote : (id i : ℕ) (d : DB) → Wrote id i [] d
  unfolding write_transactions read_transactions
  nothing-Wrote id i d = record { ended = refl; kept = λ k h. refl; found = refl }

  pub write_transactions-Wrote :
      (id i : ℕ) (ts : List Transaction) (d : DB)
      → i + length ts < u32_mod
      → All IsStorable ts
      → Wrote id i ts d
  write_transactions-Wrote id i [] d room good = nothing-Wrote id i d
  write_transactions-Wrote id i (t ∷ ts) d room good =
      let key = transaction_key id i in
      let image = info_image (Transaction.serialize t) in
      let d1 = (db.put d key image).0 in
      let rest = write_transactions-Wrote id (suc i) ts d1 (omega (arith, room)) good.1 in
      let first : db.get (write_transactions db id (suc i) ts d1).1 key ≡ some image =
        rest.kept key (λ j low high.
          transaction_key_ne id j i (omega (arith, room, high)) (omega (arith, room))
            (λ e. omega (arith, e, low)))
        ∙ reliable.get_put d key key image
        ∙ if_true _ (bytes_eq_refl key) in
      let step = write_transactions-step id i t ts d in
      record {
        ended = rw step rest.ended;
        kept = λ k h. rw step (
            rest.kept k (λ j low high. h j (omega arith) (omega (arith, high)))
            ∙ reliable.get_put d key k image
            ∙ if_false _ (h i (omega arith) (omega arith)));
        found = rw step (
            read_transactions-step _ id i (length ts) image _ first rest.found
            ∙ ap (λ x. returned (x ∷ map Transaction.serialize ts))
                (info_of_image-info_image (Transaction.serialize t) good.0.info
                  (from_length t good.0)));
      }

  -- A transaction as it is read back: the sender of a mining fee is not restored.
  unfoldable pub reread : Bytes → Transaction → Transaction
  reread stale t = record t { from = if not t.is_transaction_fee then t.from else stale }

  reread_all :
      (stale : Bytes) (ts : List Transaction)
      → map (of_transaction_info stale) (map Transaction.serialize ts) ≡ map (reread stale) ts
  unfolding reread of_transaction_info Transaction.serialize
  reread_all stale [] = refl
  reread_all stale (t ∷ ts) = ap (◌∷◌ (reread stale t)) (reread_all stale ts)

  pub set_block-step :
      (b : Block) (d : DB)
      → set_block db b d
        ≡ write_transactions db b.id 0 b.transactions
            (db.put d (block_key b.id) (header_image (Block.serialize b))).0
  unfolding set_block
  set_block-step b d =
      rw (reliable.put_ok d (block_key b.id) (header_image (Block.serialize b)), ◌>>=◌) refl

  get_block-step :
      (stale : Bytes) (d : DB) (id : ℕ) (header : BlockHeader) (infos : List TransactionInfo)
      → get_block_header db d id ≡ returned header
      → get_block_transactions db d header ≡ returned infos
      → get_block db stale d id
        ≡ returned (of_block_header header (map (of_transaction_info stale) infos))
  unfolding get_block
  get_block-step stale d id header infos there found =
      rw (there, get_block) (rw (found, get_block) refl)

  get_block_header-image :
      (d : DB) (b : Block)
      → IsBlockHeader (Block.serialize b)
      → db.get d (block_key b.id) ≡ some (header_image (Block.serialize b))
      → get_block_header db d b.id ≡ returned (Block.serialize b)
  unfolding get_block_header
  get_block_header-image d b good there =
      rw (there, get_block_header)
        (ap returned (header_of_image-header_image (Block.serialize b) good))

  has_block-there :
      (d : DB) (id : ℕ) (image : Bytes)
      → db.get d (block_key id) ≡ some image
      → has_block db d id ≡ true
  unfolding has_block
  has_block-there d id image there = rw (there, has_block) refl

  transactions-found :
      (d : DB) (b : Block)
      → length b.transactions < u32_mod
      → read_transactions db d b.id 0 (length b.transactions)
        ≡ returned (map Transaction.serialize b.transactions)
      → get_block_transactions db d (Block.serialize b)
        ≡ returned (map Transaction.serialize b.transactions)
  unfolding get_block_transactions Block.serialize
  transactions-found d b room found =
      ap (read_transactions db d b.id 0) (fits (length b.transactions) room) ∙ found
    where
      fits : (n : ℕ) → n < u32_mod → n % u32_mod ≡ n
      fits n h = omega arith

  -- The entries of a block that was written.
  pub set_block-found :
      (b : Block) (d : DB)
      → IsBlockHeader (Block.serialize b)
      → length b.transactions < u32_mod
      → All IsStorable b.transactions
      → (get_block_header db (set_block db b d).1 b.id ≡ returned (Block.serialize b))
        × (read_transactions db (set_block db b d).1 b.id 0 (length b.transactions)
            ≡ returned (map Transaction.serialize b.transactions))
  set_block-found b d header room good =
      let wrote = write_transactions-Wrote b.id 0 b.transactions _ (omega arith) good in
      let there =
        wrote.kept (block_key b.id) (λ j low high. block_key_ne b.id j)
        ∙ reliable.get_put d (block_key b.id) (block_key b.id) (header_image (Block.serialize b))
        ∙ if_true _ (bytes_eq_refl (block_key b.id)) in
      rw (set_block-step b d) (get_block_header-image _ b header there, wrote.found)

  -- Over a reliable database, setBlock of a block whose members have the sizes of their types
  -- returns, and then hasBlock holds and getBlock gives the block with its transactions in
  -- order, where only the sender of a mining fee is not restored.
  pub get_block-set_block :
      (stale : Bytes) (b : Block) (d : DB)
      → IsBlockHeader (Block.serialize b)
      → length b.transactions < u32_mod
      → All IsStorable b.transactions
      → ((set_block db b d).0 ≡ returned tt)
        × (has_block db (set_block db b d).1 b.id ≡ true)
        × (get_block db stale (set_block db b d).1 b.id
            ≡ returned (record b { transactions = map (reread stale) b.transactions }))
  get_block-set_block stale b d header room good =
      let d1 = (db.put d (block_key b.id) (header_image (Block.serialize b))).0 in
      let wrote = write_transactions-Wrote b.id 0 b.transactions d1 (omega arith) good in
      let there =
        wrote.kept (block_key b.id) (λ j low high. block_key_ne b.id j)
        ∙ reliable.get_put d (block_key b.id) (block_key b.id) (header_image (Block.serialize b))
        ∙ if_true _ (bytes_eq_refl (block_key b.id)) in
      rw (set_block-step b d) (
        wrote.ended,
        has_block-there _ b.id _ there,
        get_block-step stale _ b.id _ _ (get_block_header-image _ b header there)
              (transactions-found _ b room wrote.found)
            ∙ ap returned (
                ap (of_block_header (Block.serialize b)) (reread_all stale b.transactions)
                ∙ of_block_header_lem b (map (reread stale) b.transactions)),
      )
