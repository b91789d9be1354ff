-- ===== src/MerkleTree/Proof/Whole.antt =====
-- The answer of `getMerkleProof` is the whole tree.
use shifupool.Base.{
  ℕ, zero, suc, ◌≡◌, refl, sym, ap, ◌∙◌, Bool, true, false, ◌||◌, Option, none, some, List, [], ◌∷◌,
  ◌++◌, map, Bytes, bytes_eq, bytes_eq_iff, if◌then◌else◌, length, ◌%◌, ◌==◌, Option-cases,
  Bool-cases, inl, inr, some_eq, none-ne-some, append_assoc, append-nil, arith,
}
use shifupool.Crypto.{Primitives}
use shifupool.Transaction.{Transaction, get_hash}
use shifupool.MerkleTree.{
  HashTree, leaf, node, hash_of, merge_queue, pad_queue, set_items, join, sort_items, last_of,
}
use shifupool.MerkleTree.Proof.{
  Side, left, right, Above, proof_node, get_proof, above_leaf, is_fringe, get_merkle_proof,
}

-- The way `up` leads to the tree `t`, through the child of it that lies on the way.
record Climbs (h : Bytes) (t : HashTree) (up : Above) : Type 0 where
  previous : Option (HashTree × Side)
  reaches : (above : Above) → get_proof (leaf h) none (up ++ above) ≡ get_proof t previous above
  same : proof_node t previous ≡ t

leaf-Climbs : (h k : Bytes) (up : Above) → above_leaf h (leaf k) ≡ some up → Climbs h (leaf k) up
unfolding above_leaf proof_node hash_of
leaf-Climbs h k up e = elim (Bool-cases (bytes_eq k h)) [
  | inr other ↦ absurd (none-ne-some (rw other at e))
  | inl equal ↦ record {
    previous = none;
    reaches = λ above.
        ap (λ u. get_proof (leaf h) none (u ++ above)) (sym (some_eq (rw equal at e)))
        ∙ ap (λ x. get_proof (leaf x) none above) (sym ((bytes_eq_iff k h).0 equal));
    same = refl;
  }
]

above_leaf-Climbs :
    (h : Bytes) (t : HashTree) (up : Above) → above_leaf h t ≡ some up → Climbs h t up
unfolding above_leaf proof_node get_proof
above_leaf-Climbs h (leaf k) up e = leaf-Climbs h k up e
above_leaf-Climbs h (node k l r) up e = elim (Option-cases (above_leaf h l)) [
  | inr (u, there) ↦
      let below = above_leaf-Climbs h l u there in
      record {
        previous = some (l, left);
        reaches = λ above.
            ap (λ x. get_proof (leaf h) none (x ++ above))
              (sym (some_eq (rw (there, above_leaf) at e)))
            ∙ ap (get_proof (leaf h) none) (append_assoc u ((node k l r, left) ∷ []) above)
            ∙ below.reaches ((node k l r, left) ∷ above);
        same = refl;
      }
  | inl missing ↦ elim (Option-cases (above_leaf h r)) [
    | inl nowhere ↦
        absurd (none-ne-some (rw (nowhere, above_leaf) at rw (missing, above_leaf) at e))
    | inr (u, there) ↦
        let below = above_leaf-Climbs h r u there in
        record {
          previous = some (r, right);
          reaches = λ above.
              ap (λ x. get_proof (leaf h) none (x ++ above))
                (sym (some_eq (rw (there, above_leaf) at rw (missing, above_leaf) at e)))
              ∙ ap (get_proof (leaf h) none) (append_assoc u ((node k l r, right) ∷ []) above)
              ∙ below.reaches ((node k l r, right) ∷ above);
          same = refl;
        }
  ]
]

get_proof-root :
    (h : Bytes) (t : HashTree) (up : Above)
    → above_leaf h t ≡ some up
    → get_proof (leaf h) none up ≡ t
unfolding get_proof
get_proof-root h t up e =
    let c = above_leaf-Climbs h t up e in
    ap (get_proof (leaf h) none) (sym (append-nil up)) ∙ c.reaches [] ∙ c.same

-- Does a leaf of the tree, or of a queue of trees, have this hash?
has_leaf : Bytes → HashTree → Bool
has_leaf h (leaf k) = bytes_eq k h
has_leaf h (node k l r) = has_leaf h l || has_leaf h r

queue_has : Bytes → List HashTree → Bool
queue_has h [] = false
queue_has h (t ∷ q) = has_leaf h t || queue_has h q

above_leaf-has_leaf :
    (h : Bytes) (t : HashTree) → has_leaf h t ≡ true → (up : Above) × (above_leaf h t ≡ some up)
unfolding has_leaf above_leaf
above_leaf-has_leaf h (leaf k) e = ([], rw e refl)
above_leaf-has_leaf h (node k l r) e = elim (Option-cases (above_leaf h l)) [
  | inr (u, there) ↦ (u ++ ((node k l r, left) ∷ []), rw (there, above_leaf) refl)
  | inl missing ↦ elim (Bool-cases (has_leaf h l)) [
    | inl found ↦ absurd (none-ne-some (sym missing ∙ (above_leaf-has_leaf h l found).1))
    | inr other ↦
        let (u, there) = above_leaf-has_leaf h r (rw other at e) in
        (u ++ ((node k l r, right) ∷ []), rw (missing, above_leaf) (rw (there, above_leaf) refl))
  ]
]

queue_has-append :
    (h : Bytes) (q r : List HashTree) → queue_has h (q ++ r) ≡ (queue_has h q || queue_has h r)
unfolding queue_has
queue_has-append h [] r = refl
queue_has-append h (t ∷ q) r = ground (arith, queue_has-append h q r)

module _ (p : Primitives) where
  merge_queue-has_leaf :
      (h : Bytes) (fuel : ℕ) (q : List HashTree) (root : HashTree)
      → merge_queue p fuel q ≡ some root
      → queue_has h q ≡ true
      → has_leaf h root ≡ true
  unfolding merge_queue queue_has join has_leaf
  merge_queue-has_leaf h fuel [] root e found = absurd (none-ne-some e)
  merge_queue-has_leaf h fuel (t ∷ []) root e found =
      ap (has_leaf h) (sym (some_eq e)) ∙ ground arith
  merge_queue-has_leaf h zero (a ∷ b ∷ q) root e found = absurd (none-ne-some e)
  merge_queue-has_leaf h (suc fuel) (a ∷ b ∷ q) root e found =
      merge_queue-has_leaf h fuel (q ++ (join p a b ∷ [])) root e
        (queue_has-append h q (join p a b ∷ []) ∙ ground arith)

  queue_has-pad_queue :
      (h : Bytes) (q : List HashTree) → queue_has h q ≡ true → queue_has h (pad_queue q) ≡ true
  unfolding pad_queue
  queue_has-pad_queue h q found = elim (Bool-cases (length q % 2 == 1)) [
    | inr even ↦ rw even found
    | inl odd ↦ elim (Option-cases (last_of q)) [
      | inl nothing ↦ rw odd (rw (nothing, pad_queue) found)
      | inr (t, last) ↦
          rw odd
            (rw (last, pad_queue) (queue_has-append h q (leaf (hash_of t) ∷ []) ∙ ground arith))
    ]
  ]

  queue_has-leaves :
      (h : Bytes) (ts : List Transaction)
      → queue_has h (map (λ t. leaf (get_hash p t)) ts) ≡ is_fringe p h ts
  unfolding queue_has is_fringe has_leaf
  queue_has-leaves h [] = refl
  queue_has-leaves h (t ∷ ts) = ground (arith, queue_has-leaves h ts)

  -- With the root that setItems found, getMerkleProof gives the whole tree for a transaction
  -- whose hash is that of an item, and nothing for another.
  pub get_merkle_proof-root :
      (items : List Transaction) (root : HashTree) (t : Transaction)
      → (set_items p items).1 ≡ some root
      → get_merkle_proof p (set_items p items).0 root t
        ≡ (if is_fringe p (get_hash p t) (set_items p items).0 then some root else none)
  unfolding get_merkle_proof set_items
  get_merkle_proof-root items root t e =
      elim (Bool-cases (is_fringe p (get_hash p t) (sort_items p items))) [
        | inr missing ↦ rw missing refl
        | inl found ↦
            let sorted = sort_items p items in
            let q = map (λ t. leaf (get_hash p t)) sorted in
            let there = merge_queue-has_leaf (get_hash p t) _ _ root e (
              queue_has-pad_queue (get_hash p t) q
                (queue_has-leaves (get_hash p t) sorted ∙ found)) in
            let (up, way) = above_leaf-has_leaf (get_hash p t) root there in
            rw found
              (rw (way, get_merkle_proof) (ap some (get_proof-root (get_hash p t) root up way)))
      ]
