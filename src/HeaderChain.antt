-- ===== src/HeaderChain.antt =====
-- c++/src/core/header_chain.cpp: the chain of block hashes that a peer claims to have, checked header
-- by header. What the peer answers is a parameter: `block_count` (`getCurrentBlockCount`) and
-- `headers i end` (`readRawHeaders`), each `none` where the request throws. The thread that calls
-- `load` again and again is left out; `load` is one of its rounds.
pub mod Linked
pub mod Checkpoints
use shifupool.Base.{
  ℕ, zero, suc, ◌+◌, ◌-◌, Bool, true, false, not, ◌&&◌, Option, none, some, List, [], ◌∷◌, ◌++◌,
  Bytes, bytes_eq, ltb, leb, ◌==◌, if◌then◌else◌, length, get_or, min,
}
use shifupool.Crypto.{Primitives, null_sha256_hash}
use shifupool.Crypto.Work.{add_work}
use shifupool.Block.{BlockHeader, Block, of_block_header, get_hash, get_difficulty, verify_nonce}

pub record HeaderChain : Type 0 where
  pub host : Bytes
  pub block_hashes : List Bytes
  pub total_work : ℕ
  pub chain_length : ℕ
  pub offset : ℕ
  pub failed : Bool
  pub check_points : List (ℕ × Bytes)

-- `BLOCK_HEADERS_PER_FETCH`
abbrev pub block_headers_per_fetch : ℕ
block_headers_per_fetch = 2000

-- `checkPoints.find(id)`
unfoldable pub find_check_point : ℕ → List (ℕ × Bytes) → Option Bytes
find_check_point id [] = none
find_check_point id ((k, h) ∷ rest) = if k == id then some h else find_check_point id rest

-- the constructor, with the checkpoint at block 2
unfoldable pub new_header_chain : Bytes → Bytes → HeaderChain
new_header_chain host check_point = record {
  host = host;
  block_hashes = [];
  total_work = 0;
  chain_length = 0;
  offset = 0;
  failed = false;
  check_points = (2, check_point) ∷ [];
}

unfoldable pub reset : HeaderChain → HeaderChain
reset c = record c {
  failed = false;
  offset = 0;
  total_work = 0;
  chain_length = 0;
  block_hashes = [];
}

unfoldable pub valid : HeaderChain → Bool
valid c = not c.failed && ltb 0 c.total_work

unfoldable pub get_total_work : HeaderChain → ℕ
get_total_work c = if c.failed then 0 else c.total_work

unfoldable pub get_chain_length : HeaderChain → ℕ
get_chain_length c = if c.failed then 0 else c.chain_length

-- `getHash(blockId)`; at block 0 the source reads in front of the vector, which is undefined.
unfoldable pub get_block_hash : HeaderChain → ℕ → Bytes
get_block_hash c block_id =
    if leb (length c.block_hashes) block_id
    then null_sha256_hash
    else get_or c.block_hashes (block_id - 1) null_sha256_hash

-- `blockHashes.back()`, or the null hash of an empty chain
unfoldable pub last_hash_of : List Bytes → Bytes
last_hash_of [] = null_sha256_hash
last_hash_of (h ∷ []) = h
last_hash_of (h ∷ k ∷ hs) = last_hash_of (k ∷ hs)

-- The variables of `load`; `block_hashes` is the member, which the loop appends to.
pub record LoadVars : Type 0 where
  pub block_hashes : List Bytes
  pub last_hash : Bytes
  pub total_work : ℕ
  pub num_blocks : ℕ

module _ (p : Primitives) (use_pufferfish : Bool) (check_points : List (ℕ × Bytes)) where
  check_point_failed : ℕ → Bytes → Bool
  check_point_failed curr hash = elim (find_check_point curr check_points) [
    | none ↦ false
    | some expected ↦ not (bytes_eq hash expected)
  ]

  -- The loop over the headers of a batch that begins at `i`; `none` is `failure = true`.
  unfoldable pub add_headers : ℕ → List BlockHeader → LoadVars → Option LoadVars
  unfolding check_point_failed
  add_headers i [] v = some v
  add_headers i (b ∷ bs) v =
      let block = of_block_header b [] in
      let hash = get_hash p block in
      let rest = add_headers i bs (record {
        block_hashes = v.block_hashes ++ (hash ∷ []);
        last_hash = hash;
        total_work = add_work v.total_work (get_difficulty block);
        num_blocks = v.num_blocks + 1;
      }) in
      if check_point_failed i hash
      then none
      else if not (verify_nonce p block use_pufferfish)
      then none
      else if not (bytes_eq block.last_block_hash v.last_hash)
      then none
      else rest

  -- One batch: its headers are fetched and added; `none` is a failure or an exception.
  unfoldable pub add_batch :
      (ℕ → ℕ → Option (List BlockHeader)) → ℕ → ℕ → LoadVars → Option LoadVars
  add_batch headers target i v = elim (headers i (min target (i + block_headers_per_fetch - 1))) [
    | none ↦ none
    | some bs ↦ add_headers i bs v
  ]

  -- The loop over the batches. A batch moves `i` on, so `target` rounds are enough.
  unfoldable pub add_batches :
      (ℕ → ℕ → Option (List BlockHeader)) → ℕ → ℕ → ℕ → LoadVars → Option LoadVars
  add_batches headers target zero i v = some v
  add_batches headers target (suc fuel) i v =
      let round : Option LoadVars = elim (add_batch headers target i v) [
        | none ↦ none
        | some v' ↦ add_batches headers target fuel (i + block_headers_per_fetch) v'
      ] in
      if leb i target then round else some v

module _ (p : Primitives) (use_pufferfish : Bool) where
  unfoldable pub load : Option ℕ → (ℕ → ℕ → Option (List BlockHeader)) → HeaderChain → HeaderChain
  load block_count headers c = elim block_count [
    | none ↦ record c { failed = true }
    | some target ↦
        elim (add_batches p use_pufferfish c.check_points headers target target
          (length c.block_hashes + 1)
          (record {
            block_hashes = c.block_hashes;
            last_hash = last_hash_of c.block_hashes;
            total_work = c.total_work;
            num_blocks = length c.block_hashes;
          })) [
            | none ↦ reset (record c { failed = true })
            | some v ↦ record c {
              block_hashes = v.block_hashes;
              chain_length = v.num_blocks;
              total_work = v.total_work;
              failed = false;
            }
          ]
  ]
