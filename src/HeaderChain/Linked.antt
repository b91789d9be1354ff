-- ===== src/HeaderChain/Linked.antt =====
-- The claimed chain is always one that headers justify: each header passes the proof-of-work test
-- and names the hash of the one before, and the total work is the sum over the headers.
use shifupool.Base.{
  ℕ, zero, suc, ◌+◌, ◌-◌, ◌^◌, ◌≡◌, refl, ap, subst, ◌∙◌, sym, Bool, true, false, Option, none,
  some, List, [], ◌∷◌, ◌++◌, Bytes, bytes_eq, bytes_eq_iff, leb, length, length-append, min, arith,
  Option-cases, inl, inr, Bool-cases, some_eq, none-ne-some,
}
use shifupool.Crypto.{Primitives, null_sha256_hash}
use shifupool.Crypto.Work.{add_work}
use shifupool.Block.{BlockHeader, Block, of_block_header, get_hash, get_difficulty, verify_nonce}
use shifupool.HeaderChain.{
  HeaderChain, LoadVars, add_headers, add_batch, add_batches, load, reset, last_hash_of,
  block_headers_per_fetch, check_point_failed,
}

module _ (p : Primitives) (use_pufferfish : Bool) where
  -- The block of a header alone.
  abbrev bare : BlockHeader → Block
  bare b = of_block_header b []

  -- Headers that follow one another from the hash `h` on.
  unfoldable pub Linked : Bytes → List BlockHeader → Type 0
  Linked h [] = Unit
  Linked h (b ∷ bs) =
      ((bare b).last_block_hash ≡ h)
      × (verify_nonce p (bare b) use_pufferfish ≡ true)
      × Linked (get_hash p (bare b)) bs

  unfoldable pub hashes : List BlockHeader → List Bytes
  hashes [] = []
  hashes (b ∷ bs) = get_hash p (bare b) ∷ hashes bs

  -- The hash that the next header has to name.
  unfoldable pub tip : Bytes → List BlockHeader → Bytes
  tip h [] = h
  tip h (b ∷ bs) = tip (get_hash p (bare b)) bs

  unfoldable pub work : List BlockHeader → ℕ
  work [] = 0
  work (b ∷ bs) = 2 ^ get_difficulty (bare b) + work bs

  pub record Justifies (hs : List BlockHeader) (v : LoadVars) : Type 0 where
    pub linked : Linked null_sha256_hash hs
    pub listed : v.block_hashes ≡ hashes hs
    pub at_tip : v.last_hash ≡ tip null_sha256_hash hs
    pub summed : v.total_work ≡ work hs
    pub counted : v.num_blocks ≡ length v.block_hashes

  Linked-append :
      (h : Bytes) (hs : List BlockHeader) (b : BlockHeader)
      → Linked h hs
      → (bare b).last_block_hash ≡ tip h hs
      → verify_nonce p (bare b) use_pufferfish ≡ true
      → Linked h (hs ++ (b ∷ []))
  unfolding Linked tip
  Linked-append h [] b l e v = (e, v, tt)
  Linked-append h (x ∷ hs) b l e v = (l.0, l.1, Linked-append (get_hash p (bare x)) hs b l.2 e v)

  hashes-append :
      (hs : List BlockHeader) (b : BlockHeader)
      → hashes (hs ++ (b ∷ [])) ≡ hashes hs ++ (get_hash p (bare b) ∷ [])
  unfolding hashes
  hashes-append [] b = refl
  hashes-append (x ∷ hs) b = ap (◌∷◌ (get_hash p (bare x))) (hashes-append hs b)

  tip-append :
      (h : Bytes) (hs : List BlockHeader) (b : BlockHeader)
      → tip h (hs ++ (b ∷ [])) ≡ get_hash p (bare b)
  unfolding tip
  tip-append h [] b = refl
  tip-append h (x ∷ hs) b = tip-append (get_hash p (bare x)) hs b

  work-append :
      (hs : List BlockHeader) (b : BlockHeader)
      → work (hs ++ (b ∷ [])) ≡ work hs + 2 ^ get_difficulty (bare b)
  unfolding work
  work-append [] b = omega arith
  work-append (x ∷ hs) b = omega (arith, work-append hs b)

  -- Some headers justify the variables.
  abbrev IsJustified : LoadVars → Type 0
  IsJustified v = (hs : List BlockHeader) × Justifies hs v

  push : BlockHeader → LoadVars → LoadVars
  push b v = record {
    block_hashes = v.block_hashes ++ (get_hash p (bare b) ∷ []);
    last_hash = get_hash p (bare b);
    total_work = add_work v.total_work (get_difficulty (bare b));
    num_blocks = v.num_blocks + 1;
  }

  push-IsJustified :
      (b : BlockHeader) (v : LoadVars)
      → IsJustified v
      → verify_nonce p (bare b) use_pufferfish ≡ true
      → bytes_eq (bare b).last_block_hash v.last_hash ≡ true
      → IsJustified (push b v)
  unfolding push add_work
  push-IsJustified b v (hs, j) nonce link = (
    hs ++ (b ∷ []),
    record {
      linked =
          Linked-append null_sha256_hash hs b j.linked ((bytes_eq_iff _ _).0 link ∙ j.at_tip) nonce;
      listed = ap (λ x. x ++ (get_hash p (bare b) ∷ [])) j.listed ∙ sym (hashes-append hs b);
      at_tip = sym (tip-append null_sha256_hash hs b);
      summed = omega (arith, j.summed, work-append hs b);
      counted = omega (arith, j.counted, length-append v.block_hashes (get_hash p (bare b) ∷ []));
    },
  )

  add_headers-IsJustified :
      (cps : List (ℕ × Bytes)) (i : ℕ) (bs : List BlockHeader) (v v' : LoadVars)
      → IsJustified v
      → add_headers p use_pufferfish cps i bs v ≡ some v'
      → IsJustified v'
  unfolding add_headers push
  add_headers-IsJustified cps i [] v v' j e = subst IsJustified (some_eq e) j
  add_headers-IsJustified cps i (b ∷ bs) v v' j e =
      elim (Bool-cases (check_point_failed p use_pufferfish cps i (get_hash p (bare b)))) [
        | inl wrong ↦ absurd (none-ne-some (rw wrong at e))
        | inr right ↦ elim (Bool-cases (verify_nonce p (bare b) use_pufferfish)) [
          | inr bad ↦ absurd (none-ne-some (rw (right, bad) at e))
          | inl nonce ↦ elim (Bool-cases (bytes_eq (bare b).last_block_hash v.last_hash)) [
            | inr apart ↦ absurd (none-ne-some (rw (right, nonce, apart) at e))
            | inl link ↦
                add_headers-IsJustified cps i bs (push b v) v' (push-IsJustified b v j nonce link)
                  (rw (right, nonce, link) at e)
          ]
        ]
      ]

  add_batch-IsJustified :
      (cps : List (ℕ × Bytes)) (headers : ℕ → ℕ → Option (List BlockHeader)) (target i : ℕ)
      (v v' : LoadVars)
      → IsJustified v
      → add_batch p use_pufferfish cps headers target i v ≡ some v'
      → IsJustified v'
  unfolding add_batch
  add_batch-IsJustified cps headers target i v v' j e =
      elim (Option-cases (headers i (min target (i + block_headers_per_fetch - 1)))) [
        | inl fails ↦ absurd (none-ne-some (rw (fails, add_batch) at e))
        | inr (bs, got) ↦ add_headers-IsJustified cps i bs v v' j (rw (got, add_batch) at e)
      ]

  add_batches-IsJustified :
      (cps : List (ℕ × Bytes)) (headers : ℕ → ℕ → Option (List BlockHeader)) (target fuel i : ℕ)
      (v v' : LoadVars)
      → IsJustified v
      → add_batches p use_pufferfish cps headers target fuel i v ≡ some v'
      → IsJustified v'
  unfolding add_batches
  add_batches-IsJustified cps headers target zero i v v' j e = subst IsJustified (some_eq e) j
  add_batches-IsJustified cps headers target (suc fuel) i v v' j e =
      elim (Bool-cases (leb i target)) [
        | inr past ↦ subst IsJustified (some_eq (rw past at e)) j
        | inl more ↦ elim (Option-cases (add_batch p use_pufferfish cps headers target i v)) [
          | inl fails ↦ absurd (none-ne-some (rw (more, fails) at e))
          | inr (w, done) ↦
              add_batches-IsJustified cps headers target fuel (i + block_headers_per_fetch) w v'
                (add_batch-IsJustified cps headers target i v w j done) (rw (more, done) at e)
        ]
      ]

  last_hash_of-hashes : (hs : List BlockHeader) → last_hash_of (hashes hs) ≡ tip null_sha256_hash hs
  unfolding last_hash_of hashes tip
  last_hash_of-hashes [] = refl
  last_hash_of-hashes (b ∷ []) = refl
  last_hash_of-hashes (b ∷ c ∷ hs) = last_hash_of-hashes (c ∷ hs)

  -- What holds of a header chain between two calls: headers that follow one another from the null
  -- hash on and that all pass the proof-of-work test have the listed hashes and the total work, and
  -- the chain length is their number.
  pub record IsValid (c : HeaderChain) : Type 0 where
    pub headers : List BlockHeader
    pub linked : Linked null_sha256_hash headers
    pub listed : c.block_hashes ≡ hashes headers
    pub summed : c.total_work ≡ work headers
    pub counted : c.chain_length ≡ length c.block_hashes

  reset-IsValid : (c : HeaderChain) → IsValid (reset c)
  unfolding reset Linked hashes work
  reset-IsValid c = record {
    headers = [];
    linked = tt;
    listed = refl;
    summed = refl;
    counted = refl;
  }

  -- Load keeps a peer's chain the hashes and the work of linked headers that pass the proof-of-
  -- work test, whatever the peer answers, and it ends in a failed state exactly if the block
  -- count could not be fetched.
  pub load-IsValid :
      (block_count : Option ℕ) (headers : ℕ → ℕ → Option (List BlockHeader)) (c : HeaderChain)
      → IsValid c
      → IsValid (load p use_pufferfish block_count headers c)
        × ((load p use_pufferfish block_count headers c).failed
            ≡ (elim block_count as (λ _. Bool) [ none ↦ true | some n ↦ false ]))
  unfolding load
  load-IsValid none headers c v = (
    record {
      headers = v.headers;
      linked = v.linked;
      listed = v.listed;
      summed = v.summed;
      counted = v.counted;
    },
    refl,
  )
  load-IsValid (some target) headers c v =
      elim (Option-cases (
        add_batches p use_pufferfish c.check_points headers target target
          (length c.block_hashes + 1) before)) [
            | inl fails ↦ rw (fails, load) (reset-IsValid _, unfold reset in refl)
            | inr (w, done) ↦
                let (hs, j) =
                  add_batches-IsJustified c.check_points headers target target
                    (length c.block_hashes + 1) before w start done in
                rw (done, load)
                  (
                    record {
                      headers = hs;
                      linked = j.linked;
                      listed = j.listed;
                      summed = j.summed;
                      counted = j.counted;
                    },
                    refl,
                  )
          ]
    where
      before : LoadVars
      before = record {
        block_hashes = c.block_hashes;
        last_hash = last_hash_of c.block_hashes;
        total_work = c.total_work;
        num_blocks = length c.block_hashes;
      }

      start : IsJustified before
      start = (
        v.headers,
        record {
          linked = v.linked;
          listed = v.listed;
          at_tip = ap last_hash_of v.listed ∙ last_hash_of-hashes v.headers;
          summed = v.summed;
          counted = refl;
        },
      )
