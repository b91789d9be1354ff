-- ===== src/BlockChain/Stored.antt =====
-- The chain that the stores hold: block upon block, each one readable, linked to the one below and with
-- the work for its difficulty.
pub mod Totals
pub mod Adding
pub mod Popping
pub mod Restart
pub mod Steps
use shifupool.Base.{
  ℕ, zero, suc, ◌+◌, ◌-◌, ◌^◌, ◌≡◌, ◌≢◌, ◌≤◌, ◌<◌, refl, sym, ap, ◌∙◌, subst, Bool, true, false,
  some, List, [], ◌∷◌, map, Bytes, arith, All, length, Result, returned, threw,
}
use shifupool.Words.{u32_mod, le_bytes}
use shifupool.Crypto.{null_sha256_hash}
use shifupool.Crypto.Work.{add_work}
use shifupool.Transaction.{Transaction}
use shifupool.Block.{Block, IsBlockHeader, verify_nonce, get_difficulty}
use shifupool.Block
use shifupool.DataStore.{LevelDb, IsReliable}
use shifupool.BlockStore
use shifupool.BlockStore.Blocks.{IsStorable, reread}
use shifupool.BlockStore.Kept.{get_block-set_block_other, get_block-put_other}
use shifupool.BlockChain.{BlockChain, Setup}

-- A block whose members have the sizes of their C++ types.
pub record IsSized (b : Block) : Type 0 where
  pub header : IsBlockHeader (Block.serialize b)
  pub transactions : All IsStorable b.transactions

less_one : (n : ℕ) → suc n - 1 ≡ n
less_one n = omega arith

module _ {L B T : Type 0} (setup : Setup L B T) where
  open setup use {primitives, blocks_db, text, use_pufferfish, stale}

  -- The store `d` holds a chain of `n` blocks whose last one has this hash, with this work in all.
  pub data Linked (d : B) : ℕ → Bytes → ℕ → Type 0 where
    nothing : Linked d 0 null_sha256_hash 0
    on_top :
        {n work : ℕ} {hash : Bytes} (b : Block)
        → Linked d n hash work
        → BlockStore.get_block blocks_db stale d (suc n) ≡ returned b
        → b.id ≡ suc n
        → b.last_block_hash ≡ hash
        → verify_nonce primitives b use_pufferfish ≡ true
        → Linked d (suc n) (Block.get_hash primitives b) (add_work work (get_difficulty b))

  -- The stores and the members of the chain agree. The two numbers are on disk once there is a block.
  pub record IsChain (d : B) (n : ℕ) (hash : Bytes) (work : ℕ) : Type 0 where
    pub linked : Linked d n hash work
    pub small : n < u32_mod
    pub count_kept : 0 < n → BlockStore.get_block_count blocks_db d ≡ returned n
    pub work_kept : 0 < n → BlockStore.get_total_work blocks_db text d ≡ returned work

  abbrev pub IsConsistent : BlockChain L B T → Type 0
  IsConsistent c = IsChain c.block_store c.num_blocks c.last_hash c.total_work

  -- A chain is held by any store from which its blocks are read.
  pub Linked-agree :
      (d d' : B) {n work : ℕ} {hash : Bytes}
      → ((id : ℕ) (b : Block)
          → id ≤ n
          → BlockStore.get_block blocks_db stale d id ≡ returned b
          → b.id ≡ id
          → BlockStore.get_block blocks_db stale d' id ≡ returned b)
      → Linked d n hash work
      → Linked d' n hash work
  Linked-agree d d' same nothing = nothing
  Linked-agree d d' same (on_top {n} b below found named link worked) =
      on_top b (Linked-agree d d' (λ id c le. same id c (omega arith)) below)
        (same (suc n) b (omega arith) found named) named link worked

  -- `block` is the last block of a chain, with the chain below it.
  pub record Top (block : Block) (d : B) (n : ℕ) (hash : Bytes) (work : ℕ) : Type 0 where
    pub below_hash : Bytes
    pub below_work : ℕ
    pub below : Linked d (n - 1) below_hash below_work
    pub found : BlockStore.get_block blocks_db stale d n ≡ returned block
    pub named : block.id ≡ n
    pub link : block.last_block_hash ≡ below_hash
    pub tip : hash ≡ Block.get_hash primitives block
    pub total : work ≡ add_work below_work (get_difficulty block)

  pub Linked-Top :
      (d : B) {n work : ℕ} {hash : Bytes}
      → Linked d n hash work
      → 0 < n
      → (b : Block) × Top b d n hash work
  Linked-Top d nothing pos = absurd (omega arith)
  Linked-Top d (on_top {n} {work} {hash} b below found named link worked) pos = (
    b,
    record {
      below_hash = hash;
      below_work = work;
      below = rw (less_one n) below;
      found = found;
      named = named;
      link = link;
      tip = refl;
      total = refl;
    },
  )
