-- ===== src/MerkleTree/Order.antt =====
-- The Merkle root does not depend on the order of the transactions, and it is always found.
use mathlib.Core.List.{Permᴰ}
use mathlib.Core.Path.{ap₂}
use shifupool.Base.{
  ℕ, zero, suc, ◌≤◌, ◌<◌, ◌≡◌, refl, sym, ap, ◌∙◌, true, false, Option, some, List, [], ◌∷◌, ◌++◌,
  map, Bytes, arith, All, if◌then◌else◌, length, length-append, ◌==◌, inl, inr, Bool-cases,
  Option-cases, length-map, ◌%◌,
}
use shifupool.Crypto.{Primitives, PrimitiveSizes}
use shifupool.Crypto.Hex.{hex_decode, hex_decode-hex_encode, sha256_to_string}
use shifupool.Transaction.{Transaction, get_hash}
use shifupool.Transaction.Order.{bytes_lt_irrefl, bytes_lt_trans, bytes_lt_connex}
use shifupool.MerkleTree.{
  HashTree, leaf, before, insert_item, sort_items, merge_queue, pad_queue, set_items, hash_of,
  last_of, join,
}

before_trans : (a b c : Bytes) → before a b ≡ true → before b c ≡ true → before a c ≡ true
unfolding before
before_trans a b c h k = bytes_lt_trans _ (sha256_to_string b) _ k h

before_asym : (a b : Bytes) → before a b ≡ true → before b a ≡ false
unfolding before
before_asym a b h = ground (
  arith,
  bytes_lt_trans (sha256_to_string a) (sha256_to_string b) (sha256_to_string a),
  bytes_lt_irrefl (sha256_to_string a),
)

-- Hashes of which neither comes first are the same, for their text determines them.
before_connex :
    (a b : Bytes)
    → All (λ x. x < 256) a
    → All (λ x. x < 256) b
    → before a b ≡ false
    → before b a ≡ false
    → a ≡ b
unfolding before sha256_to_string
before_connex a b small_a small_b h k =
    sym (hex_decode-hex_encode a small_a)
    ∙ ap hex_decode (bytes_lt_connex _ _ k h)
    ∙ hex_decode-hex_encode b small_b

insert_hash : Bytes → List Bytes → List Bytes
insert_hash h [] = h ∷ []
insert_hash h (k ∷ ks) = if before k h then k ∷ insert_hash h ks else h ∷ k ∷ ks

sort_hashes : List Bytes → List Bytes
sort_hashes [] = []
sort_hashes (h ∷ hs) = insert_hash h (sort_hashes hs)

abbrev Small : List Bytes → Type 0
Small hs = All (λ h. All (λ x. x < 256) h) hs

insert_hash-Small :
    (h : Bytes) (ks : List Bytes) → All (λ x. x < 256) h → Small ks → Small (insert_hash h ks)
unfolding insert_hash
insert_hash-Small h [] s t = (s, tt)
insert_hash-Small h (k ∷ ks) s t = ground (arith, insert_hash-Small h ks s t.1)

sort_hashes-Small : (hs : List Bytes) → Small hs → Small (sort_hashes hs)
unfolding sort_hashes
sort_hashes-Small [] s = tt
sort_hashes-Small (h ∷ hs) s = insert_hash-Small h (sort_hashes hs) s.0 (sort_hashes-Small hs s.1)

insert_hash_comm :
    (h k : Bytes) (l : List Bytes)
    → All (λ x. x < 256) h
    → All (λ x. x < 256) k
    → Small l
    → insert_hash h (insert_hash k l) ≡ insert_hash k (insert_hash h l)
unfolding insert_hash
insert_hash_comm h k [] s t sl =
    ground (arith, before_asym h k, before_asym k h, before_connex h k s t)
insert_hash_comm h k (z ∷ l) s t sl = ground (
  arith,
  before_asym h k,
  before_asym k h,
  before_connex h k s t,
  before_trans h k z,
  before_trans z h k,
  before_trans z k h,
  before_trans h z k,
  before_trans k z h,
  before_trans k h z,
  before_connex h z s sl.0,
  before_connex k z t sl.0,
  insert_hash_comm h k l s t sl.1,
)

module _ (p : Primitives) where
  hashes : List Transaction → List Bytes
  hashes = map (get_hash p)

  hashes-insert_item :
      (t : Transaction) (us : List Transaction)
      → hashes (insert_item p t us) ≡ insert_hash (get_hash p t) (hashes us)
  unfolding hashes insert_item insert_hash
  hashes-insert_item t [] = refl
  hashes-insert_item t (u ∷ us) = ground (arith, hashes-insert_item t us)

  hashes-sort_items : (ts : List Transaction) → hashes (sort_items p ts) ≡ sort_hashes (hashes ts)
  unfolding sort_items sort_hashes hashes
  hashes-sort_items [] = refl
  hashes-sort_items (t ∷ ts) =
      hashes-insert_item t (sort_items p ts)
      ∙ ap (insert_hash (get_hash p t)) (hashes-sort_items ts)

  hashes-Small : PrimitiveSizes p → (ts : List Transaction) → Small (hashes ts)
  unfolding hashes get_hash
  hashes-Small sizes [] = tt
  hashes-Small sizes (t ∷ ts) = ((sizes.sha256_size _).small, hashes-Small sizes ts)

  sort_hashes-perm :
      PrimitiveSizes p
      → {ts us : List Transaction} → Permᴰ ts us
      → sort_hashes (hashes ts) ≡ sort_hashes (hashes us)
  unfolding sort_hashes hashes get_hash
  sort_hashes-perm sizes Permᴰ.nil = refl
  sort_hashes-perm sizes (Permᴰ.cons {b = b} e d) =
      ap₂ insert_hash (ap (get_hash p) e) (sort_hashes-perm sizes d)
  sort_hashes-perm sizes (Permᴰ.swap {a = a} {b = b} {l = l} e f) =
      insert_hash_comm (get_hash p a) (get_hash p b) (sort_hashes (hashes l))
        (sizes.sha256_size _).small (sizes.sha256_size _).small
        (sort_hashes-Small (hashes l) (hashes-Small sizes l))
      ∙ ap₂ (λ x y. insert_hash x (insert_hash y (sort_hashes (hashes l)))) (ap (get_hash p) f)
          (ap (get_hash p) e)
  sort_hashes-perm sizes (Permᴰ.trans d e) = sort_hashes-perm sizes d ∙ sort_hashes-perm sizes e

  -- the root over a list of leaf hashes
  root_of : List Bytes → Option HashTree
  root_of hs = let q = pad_queue (map leaf hs) in merge_queue p (length q) q

  map-leaf : (ts : List Transaction) → map (λ t. leaf (get_hash p t)) ts ≡ map leaf (hashes ts)
  unfolding hashes
  map-leaf [] = refl
  map-leaf (t ∷ ts) = ap (◌∷◌ (leaf (get_hash p t))) (map-leaf ts)

  set_items-root_of :
      (ts : List Transaction) → (set_items p ts).1 ≡ root_of (sort_hashes (hashes ts))
  unfolding set_items root_of
  set_items-root_of ts = rw (map-leaf (sort_items p ts), hashes-sort_items ts) refl

  -- With hashes of 32 bytes, the Merkle tree of the same transactions in any order is the same.
  pub set_items-perm :
      PrimitiveSizes p
      → {ts us : List Transaction} → Permᴰ ts us
      → (set_items p ts).1 ≡ (set_items p us).1
  set_items-perm sizes {ts} {us} d =
      set_items-root_of ts ∙ ap root_of (sort_hashes-perm sizes d) ∙ sym (set_items-root_of us)

  merge_queue_total :
      (fuel : ℕ) (t : HashTree) (ts : List HashTree)
      → length ts ≤ fuel
      → (root : HashTree) × (merge_queue p fuel (t ∷ ts) ≡ some root)
  unfolding merge_queue
  merge_queue_total zero t [] h = (t, refl)
  merge_queue_total (suc fuel) t [] h = (t, refl)
  merge_queue_total zero t (u ∷ ts) h = absurd (omega arith)
  merge_queue_total (suc fuel) t (u ∷ []) h = merge_queue_total fuel (join p t u) [] (omega arith)
  merge_queue_total (suc fuel) t (u ∷ v ∷ ts) h =
      merge_queue_total fuel v (ts ++ (join p t u ∷ []))
        (omega (arith, length-append ts (join p t u ∷ [])))

  length-insert_item :
      (t : Transaction) (us : List Transaction) → length (insert_item p t us) ≡ suc (length us)
  unfolding insert_item
  length-insert_item t [] = refl
  length-insert_item t (u ∷ us) = ground (arith, length-insert_item t us)

  pub length-sort_items : (ts : List Transaction) → length (sort_items p ts) ≡ length ts
  unfolding sort_items
  length-sort_items [] = refl
  length-sort_items (t ∷ ts) =
      length-insert_item t (sort_items p ts) ∙ ap suc (length-sort_items ts)

  All-insert_item :
      (P : Transaction → Type 0) (t : Transaction) (ts : List Transaction)
      → P t
      → All P ts
      → All P (insert_item p t ts)
  unfolding insert_item
  All-insert_item P t [] h hs = (h, tt)
  All-insert_item P t (u ∷ us) h hs = elim (Bool-cases (before (get_hash p u) (get_hash p t))) [
    | inl first ↦ rw first (hs.0, All-insert_item P t us h hs.1)
    | inr later ↦ rw later (h, hs)
  ]

  pub All-sort_items :
      (P : Transaction → Type 0) (ts : List Transaction) → All P ts → All P (sort_items p ts)
  unfolding sort_items
  All-sort_items P [] hs = tt
  All-sort_items P (t ∷ ts) hs =
      All-insert_item P t (sort_items p ts) hs.0 (All-sort_items P ts hs.1)

  length-pad_queue : (q : List HashTree) → length q ≤ length (pad_queue q)
  unfolding pad_queue
  length-pad_queue q = elim (Bool-cases (length q % 2 == 1)) [
    | inr e ↦ rw e (omega arith)
    | inl e ↦ elim (Option-cases (last_of q)) [
      | inl f ↦ rw (e, f) (omega arith)
      | inr (t, f) ↦ rw (e, f) (omega (arith, length-append q (leaf (hash_of t) ∷ [])))
    ]
  ]

  merge_queue_all :
      (q : List HashTree)
      → 0 < length q
      → (root : HashTree) × (merge_queue p (length q) q ≡ some root)
  merge_queue_all [] h = absurd (omega arith)
  merge_queue_all (t ∷ ts) h = merge_queue_total (suc (length ts)) t ts (omega arith)

  -- SetItems of at least one transaction gives a root: the rounds that the length of the queue
  -- allows are enough.
  pub set_items-total :
      (ts : List Transaction) → 0 < length ts → (root : HashTree) × ((set_items p ts).1 ≡ some root)
  unfolding set_items
  set_items-total ts h =
      merge_queue_all (pad_queue (map (λ t. leaf (get_hash p t)) (sort_items p ts))) (
        omega (
          arith,
          length-pad_queue (map (λ t. leaf (get_hash p t)) (sort_items p ts)),
          length-map (sort_items p ts) (λ t. leaf (get_hash p t)),
          length-sort_items ts,
          h,
        ))
