-- ===== src/BlockStore/Kept.antt =====
-- Writing a block leaves the other blocks of the store and its two numbers alone.
use shifupool.Base.{
  ℕ, zero, suc, ◌≡◌, ◌≢◌, ◌<◌, refl, sym, ap, ◌∙◌, false, some, List, ◌∷◌, map, Bytes, bytes_eq,
  bytes_eq_iff, length-append, arith, All, length, take, if◌then◌else◌, Result, Exception, none,
  returned, threw, returned_eq, threw-ne-returned, Bool-cases, inl, inr,
}
use shifupool.Words.{u32_mod, le_bytes, length-le_bytes}
use shifupool.Transaction.{TransactionInfo, of_transaction_info}
use shifupool.Block.{Block, BlockHeader, IsBlockHeader, of_block_header}
use shifupool.Block
use shifupool.Block.Codec.{id-of_block_header}
use shifupool.DataStore.{LevelDb, IsReliable}
use shifupool.BlockStore.{
  block_key, transaction_key, fetch, get_block_header, read_transactions, get_block_transactions,
  get_block, set_block,
}
use shifupool.BlockStore.Layout.{header_image, info_of_image}
use shifupool.BlockStore.Blocks.{IsStorable, le_bytes_eq, set_block-step, write_transactions-Wrote}

pub bytes_ne : {a b : Bytes} → a ≢ b → bytes_eq a b ≡ false
bytes_ne {a} {b} ne = elim (Bool-cases (bytes_eq a b)) [
  | inr e ↦ e
  | inl e ↦ absurd (ne ((bytes_eq_iff a b).0 e))
]

-- Keys of different lengths differ, and so do the keys of different blocks.
sizes_ne : {a b : Bytes} → length a ≢ length b → a ≢ b
sizes_ne ne e = ne (ap length e)

length-transaction_key : (id i : ℕ) → length (transaction_key id i) ≡ 8
length-transaction_key id i =
    omega (
      arith,
      length-append (le_bytes 4 id) (le_bytes 4 i),
      length-le_bytes 4 id,
      length-le_bytes 4 i,
    )

key_block :
    (id id' i j : ℕ) → transaction_key id i ≡ transaction_key id' j → le_bytes 4 id ≡ le_bytes 4 id'
unfolding le_bytes
key_block id id' i j e = ap (take 4) e

module _ {DB : Type 0} (db : LevelDb DB Bytes) where
  -- What `getBlock` has read when it returns.
  pub record Reads (stale : Bytes) (d : DB) (id : ℕ) (b : Block) : Type 0 where
    pub header : BlockHeader
    pub infos : List TransactionInfo
    pub header_there : get_block_header db d id ≡ returned header
    pub infos_there : get_block_transactions db d header ≡ returned infos
    pub made : b ≡ of_block_header header (map (of_transaction_info stale) infos)

  get_block-Reads :
      (stale : Bytes) (d : DB) (id : ℕ) (b : Block)
      → get_block db stale d id ≡ returned b
      → Reads stale d id b
  unfolding get_block
  get_block-Reads stale d id b e = with_header (get_block_header db d id) refl
    where
      with_infos :
          (h : BlockHeader)
          → get_block_header db d id ≡ returned h
          → (r : Result (List TransactionInfo)) → get_block_transactions db d h ≡ r
          → Reads stale d id b
      with_infos h p (threw ex) q =
          absurd (threw-ne-returned (rw (q, get_block) at rw (p, get_block) at e))
      with_infos h p (returned infos) q = record {
        header = h;
        infos = infos;
        header_there = p;
        infos_there = q;
        made = sym (returned_eq (rw (q, get_block) at rw (p, get_block) at e));
      }

      with_header : (r : Result BlockHeader) → get_block_header db d id ≡ r → Reads stale d id b
      with_header (threw ex) q = absurd (threw-ne-returned (rw (q, get_block) at e))
      with_header (returned h) q = with_infos h q (get_block_transactions db d h) refl

  -- One round of the reading loop.
  read_step : Result Bytes → Result (List TransactionInfo) → Result (List TransactionInfo)
  read_step r rest = elim r [
    | threw e ↦ threw e
    | returned value ↦ elim rest [
      | threw e ↦ threw e
      | returned ts ↦ returned (info_of_image value ∷ ts)
    ]
  ]

  read_transactions-agree :
      (d d' : DB) (id i n : ℕ)
      → ((j : ℕ) → db.get d' (transaction_key id j) ≡ db.get d (transaction_key id j))
      → read_transactions db d' id i n ≡ read_transactions db d id i n
  unfolding read_transactions read_step
  read_transactions-agree d d' id i zero same = refl
  read_transactions-agree d d' id i (suc n) same =
      ap (read_step (fetch db d' (transaction_key id i)))
        (read_transactions-agree d d' id (suc i) n same)
      ∙ ap
          (λ o.
            read_step (elim o [ none ↦ threw Exception.key_not_found | some v ↦ returned v ])
              (read_transactions db d id (suc i) n))
          (same i)

  get_block_header-agree :
      (d d' : DB) (id : ℕ)
      → db.get d' (block_key id) ≡ db.get d (block_key id)
      → get_block_header db d' id ≡ get_block_header db d id
  unfolding get_block_header
  get_block_header-agree d d' id same = rw (same, get_block_header) refl

  get_block_transactions-agree :
      (d d' : DB) (h : BlockHeader)
      → ((j : ℕ) → db.get d' (transaction_key h.id j) ≡ db.get d (transaction_key h.id j))
      → get_block_transactions db d' h ≡ get_block_transactions db d h
  unfolding get_block_transactions
  get_block_transactions-agree d d' h same =
      read_transactions-agree d d' h.id 0 h.num_transactions same

  -- A block that is read is also read from a store that has the same entries under its keys.
  pub get_block-agree :
      (stale : Bytes) (d d' : DB) (id : ℕ) (b : Block)
      → get_block db stale d id ≡ returned b
      → b.id ≡ id
      → db.get d' (block_key id) ≡ db.get d (block_key id)
      → ((j : ℕ) → db.get d' (transaction_key id j) ≡ db.get d (transaction_key id j))
      → get_block db stale d' id ≡ returned b
  unfolding get_block
  get_block-agree stale d d' id b e named same_block same =
      let found = get_block-Reads stale d id b e in
      let header : get_block_header db d' id ≡ returned found.header =
        get_block_header-agree d d' id same_block ∙ found.header_there in
      let own : found.header.id ≡ id =
        sym (id-of_block_header found.header _) ∙ ap (λ c. c.id) (sym found.made) ∙ named in
      rw (header, get_block)
        (rw
          (
            get_block_transactions-agree d d' found.header (λ j. rw own (same j))
                ∙ found.infos_there,
            get_block,
          )
          (ap returned (sym found.made)))

if_ne : {A : Type 0} {a b : Bytes} (x : A) {y : A} → a ≢ b → (if bytes_eq a b then x else y) ≡ y
if_ne x ne = rw (bytes_ne ne) refl

module _ {DB : Type 0} (db : LevelDb DB Bytes) (reliable : IsReliable db) where
  pub set_block-returned :
      (b : Block) (d : DB)
      → length b.transactions < u32_mod
      → All IsStorable b.transactions
      → (set_block db b d).0 ≡ returned tt
  set_block-returned b d room good =
      rw (set_block-step db reliable b d)
        (write_transactions-Wrote db reliable b.id 0 b.transactions _ (omega arith) good).ended

  set_block-kept :
      (b : Block) (d : DB) (k : Bytes)
      → length b.transactions < u32_mod
      → All IsStorable b.transactions
      → block_key b.id ≢ k
      → ((j : ℕ) → transaction_key b.id j ≢ k)
      → db.get (set_block db b d).1 k ≡ db.get d k
  set_block-kept b d k room good other others =
      let image = header_image (Block.serialize b) in
      rw (set_block-step db reliable b d) (
        (write_transactions-Wrote db reliable b.id 0 b.transactions _ (omega arith) good).kept k
          (λ j low high. bytes_ne (others j))
        ∙ reliable.get_put d (block_key b.id) k image
        ∙ if_ne _ other)

  -- Writing block `b` does not change what is read of another block.
  pub get_block-set_block_other :
      (stale : Bytes) (b : Block) (d : DB) (id : ℕ) (c : Block)
      → length b.transactions < u32_mod
      → All IsStorable b.transactions
      → get_block db stale d id ≡ returned c
      → c.id ≡ id
      → id < b.id
      → b.id < u32_mod
      → get_block db stale (set_block db b d).1 id ≡ returned c
  get_block-set_block_other stale b d id c room good e named before small =
      get_block-agree db stale d (set_block db b d).1 id c e named
        (set_block-kept b d (block_key id) room good (λ q. apart q)
          (λ j.
            sizes_ne (λ q. omega (arith, q, length-transaction_key b.id j, length-le_bytes 4 id))))
        (λ j.
          set_block-kept b d (transaction_key id j) room good
            (sizes_ne (λ q. omega (arith, q, length-transaction_key id j, length-le_bytes 4 b.id)))
            (λ i q. apart (key_block b.id id i j q)))
    where
      apart : le_bytes 4 b.id ≢ le_bytes 4 id
      apart q = omega (arith, le_bytes_eq b.id id small (omega arith) q)

  -- Nor does writing an entry whose key is longer than those of blocks.
  pub get_block-put_other :
      (stale : Bytes) (d : DB) (k v : Bytes) (id : ℕ) (c : Block)
      → 8 < length k
      → get_block db stale d id ≡ returned c
      → c.id ≡ id
      → get_block db stale (db.put d k v).0 id ≡ returned c
  get_block-put_other stale d k v id c long e named =
      get_block-agree db stale d (db.put d k v).0 id c e named
        (untouched (block_key id) (sizes_ne (λ q. omega (arith, q, length-le_bytes 4 id))))
        (λ j.
          untouched (transaction_key id j)
            (sizes_ne (λ q. omega (arith, q, length-transaction_key id j))))
    where
      untouched : (j : Bytes) → k ≢ j → db.get (db.put d k v).0 j ≡ db.get d j
      untouched j ne = reliable.get_put d k j v ∙ if_ne _ ne
