-- ===== src/MerkleTree.antt =====
-- c++/src/core/merkle_tree.cpp: the tree of hashes over the transactions of a block, built from a
-- queue: the first two trees are joined and put at its end until one is left. `std::sort` is modelled
-- by insertion; `getMerkleProof` is in MerkleTree/Proof.
pub mod Order
pub mod Proof
use shifupool.Base.{
  ℕ, zero, suc, ◌%◌, Bool, true, false, Option, none, some, List, [], ◌∷◌, ◌++◌, map, Bytes, ◌==◌,
  if◌then◌else◌, length,
}
use shifupool.Crypto.{Primitives, null_sha256_hash, concat_hashes}
use shifupool.Crypto.Hex.{sha256_to_string}
use shifupool.Transaction.{Transaction, get_hash, bytes_lt}

pub data HashTree : Type 0 where
  leaf : Bytes → HashTree
  node : Bytes → HashTree → HashTree → HashTree

unfoldable pub hash_of : HashTree → Bytes
hash_of (leaf h) = h
hash_of (node h l r) = h

-- `SHA256toString(a) > SHA256toString(b)`: does the hash `a` come before `b`?
unfoldable pub before : Bytes → Bytes → Bool
before a b = bytes_lt (sha256_to_string b) (sha256_to_string a)

-- `q.back()`
last_of : List HashTree → Option HashTree
last_of [] = none
last_of (t ∷ []) = some t
last_of (t ∷ u ∷ ts) = last_of (u ∷ ts)

-- An odd queue gets a copy of its last leaf.
unfoldable pub pad_queue : List HashTree → List HashTree
unfolding last_of
pad_queue q =
    if length q % 2 == 1
    then elim (last_of q) [ none ↦ q | some t ↦ q ++ (leaf (hash_of t) ∷ []) ]
    else q

module _ (p : Primitives) where
  insert_item : Transaction → List Transaction → List Transaction
  insert_item t [] = t ∷ []
  insert_item t (u ∷ us) =
      if before (get_hash p u) (get_hash p t) then u ∷ insert_item t us else t ∷ u ∷ us

  unfoldable pub sort_items : List Transaction → List Transaction
  unfolding insert_item
  sort_items [] = []
  sort_items (t ∷ ts) = insert_item t (sort_items ts)

  join : HashTree → HashTree → HashTree
  join a b = node (concat_hashes p (hash_of a) (hash_of b) false) a b

  -- `while (q.size() > 1)`: each round makes the queue shorter by one.
  unfoldable pub merge_queue : ℕ → List HashTree → Option HashTree
  unfolding join
  merge_queue fuel [] = none
  merge_queue fuel (t ∷ []) = some t
  merge_queue zero (a ∷ b ∷ rest) = none
  merge_queue (suc fuel) (a ∷ b ∷ rest) = merge_queue fuel (rest ++ (join a b ∷ []))

  -- `setItems`: the items in their new order, and the root; with no items there is none, and the source
  -- reads the front of an empty queue.
  unfoldable pub set_items : List Transaction → List Transaction × Option HashTree
  set_items items =
      let sorted = sort_items items in
      let q = pad_queue (map (λ t. leaf (get_hash p t)) sorted) in
      (sorted, merge_queue (length q) q)
