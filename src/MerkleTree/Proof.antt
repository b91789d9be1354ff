-- ===== src/MerkleTree/Proof.antt =====
-- `getMerkleProof` and `getProof` of c++/src/core/merkle_tree.cpp. The parent pointers of a node are the
-- list of the trees that it hangs below, the nearest first, each with its side. A result without
-- children is a leaf.
pub mod Whole
use shifupool.Base.{
  Bool, true, false, Option, none, some, List, [], ◌∷◌, ◌++◌, Bytes, bytes_eq, if◌then◌else◌,
}
use shifupool.Crypto.{Primitives}
use shifupool.Transaction.{Transaction, get_hash}
use shifupool.MerkleTree.{HashTree, leaf, node, hash_of}

-- The pointer of its parent that leads to a node.
pub data Side : Type 0 where
  left right : Side

abbrev pub Above : Type 0
Above = List (HashTree × Side)

-- The new node for `fringe`, whose child `previous` was climbed from: the child on the other side is
-- put beside it.
unfoldable pub proof_node : HashTree → Option (HashTree × Side) → HashTree
proof_node fringe none = leaf (hash_of fringe)
proof_node (leaf h) (some (previous, side)) = leaf h
proof_node (node h l r) (some (previous, right)) = node h l previous
proof_node (node h l r) (some (previous, left)) = node h previous r

-- The node that is made in a round is dropped unless there is no parent.
unfoldable pub get_proof : HashTree → Option (HashTree × Side) → Above → HashTree
get_proof fringe previous [] = proof_node fringe previous
get_proof fringe previous ((parent, side) ∷ above) = get_proof parent (some (fringe, side)) above

-- The way up from a leaf with this hash. Where several have it, the source takes the one that was put
-- into its map last.
unfoldable pub above_leaf : Bytes → HashTree → Option Above
above_leaf h (leaf k) = if bytes_eq k h then some [] else none
above_leaf h (node k l r) = elim (above_leaf h l) [
  | some up ↦ some (up ++ ((node k l r, left) ∷ []))
  | none ↦ elim (above_leaf h r) [ some up ↦ some (up ++ ((node k l r, right) ∷ [])) | none ↦ none ]
]

module _ (p : Primitives) where
  -- `fringeNodes.find(hash)`, as whether there is an entry
  unfoldable pub is_fringe : Bytes → List Transaction → Bool
  is_fringe h [] = false
  is_fringe h (t ∷ ts) =
      let rest = is_fringe h ts in if bytes_eq (get_hash p t) h then true else rest

  -- `none` for a null pointer
  unfoldable pub get_merkle_proof : List Transaction → HashTree → Transaction → Option HashTree
  get_merkle_proof items root t =
      let hash = get_hash p t in
      if is_fringe hash items
      then elim (above_leaf hash root) [
        | none ↦ none
        | some up ↦ some (get_proof (leaf hash) none up)
      ]
      else none
