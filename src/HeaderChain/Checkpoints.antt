-- ===== src/HeaderChain/Checkpoints.antt =====
-- The checkpoint is compared by the number of the first block of a batch, not by that of the block.
use shifupool.Base.{
  ℕ, zero, suc, ◌+◌, ◌-◌, ◌%◌, ◌≡◌, refl, ap, Bool, false, not, Option, none, some, List, [], ◌∷◌,
  Bytes, bytes_eq, bytes_eq_iff, leb, ◌==◌, if◌then◌else◌, min, arith, All, Option-cases,
  Bool-cases, inl, inr, none-ne-some,
}
use shifupool.Crypto.{Primitives}
use shifupool.Block.{BlockHeader, of_block_header, get_hash, verify_nonce}
use shifupool.HeaderChain.{
  LoadVars, new_header_chain, find_check_point, check_point_failed, add_headers, add_batch,
  add_batches, load, reset, last_hash_of, block_headers_per_fetch,
}

module _ (p : Primitives) (use_pufferfish : Bool) where
  -- A batch that does not begin at the checkpoint's block is not compared with it.
  add_headers-elsewhere :
      (cp cp' : Bytes) (i : ℕ) (bs : List BlockHeader) (v : LoadVars)
      → (2 == i) ≡ false
      → add_headers p use_pufferfish ((2, cp) ∷ []) i bs v
        ≡ add_headers p use_pufferfish ((2, cp') ∷ []) i bs v
  unfolding add_headers find_check_point
  add_headers-elsewhere cp cp' i [] v e = refl
  add_headers-elsewhere cp cp' i (b ∷ bs) v e =
      rw (e, check_point_failed)
        (ap
          (λ (r : Option LoadVars).
            if not (verify_nonce p (of_block_header b []) use_pufferfish)
            then none
            else if not (bytes_eq (of_block_header b []).last_block_hash v.last_hash)
            then none
            else r)
          (add_headers-elsewhere cp cp' i bs _ e))

  add_batch-elsewhere :
      (cp cp' : Bytes) (headers : ℕ → ℕ → Option (List BlockHeader)) (target i : ℕ) (v : LoadVars)
      → (2 == i) ≡ false
      → add_batch p use_pufferfish ((2, cp) ∷ []) headers target i v
        ≡ add_batch p use_pufferfish ((2, cp') ∷ []) headers target i v
  unfolding add_batch
  add_batch-elsewhere cp cp' headers target i v e =
      elim (Option-cases (headers i (min target (i + block_headers_per_fetch - 1)))) [
        | inl fails ↦ rw (fails, add_batch) refl
        | inr (bs, got) ↦ rw (got, add_batch) (add_headers-elsewhere cp cp' i bs v e)
      ]

  add_batches-elsewhere :
      (cp cp' : Bytes) (headers : ℕ → ℕ → Option (List BlockHeader)) (target fuel i : ℕ)
      (v : LoadVars)
      → i % 2000 ≡ 1
      → add_batches p use_pufferfish ((2, cp) ∷ []) headers target fuel i v
        ≡ add_batches p use_pufferfish ((2, cp') ∷ []) headers target fuel i v
  unfolding add_batches
  add_batches-elsewhere cp cp' headers target zero i v e = refl
  add_batches-elsewhere cp cp' headers target (suc fuel) i v e =
      rw (add_batch-elsewhere cp cp' headers target i v (ground arith))
        (elim (Bool-cases (leb i target)) [
          | inr past ↦ rw past refl
          | inl more ↦
              elim (Option-cases (add_batch p use_pufferfish ((2, cp') ∷ []) headers target i v)) [
                | inl fails ↦ rw (more, fails) refl
                | inr (w, done) ↦
                    rw (more, done)
                      (add_batches-elsewhere cp cp' headers target fuel
                        (i + block_headers_per_fetch) w (omega arith))
              ]
        ])

  -- A chain loaded from its beginning has the same hashes and work for every checkpoint at
  -- block 2, since batches begin at the blocks 1, 2001, 4001 and so on.
  pub load-new_header_chain :
      (host cp cp' : Bytes) (block_count : Option ℕ) (headers : ℕ → ℕ → Option (List BlockHeader))
      → ((load p use_pufferfish block_count headers (new_header_chain host cp)).block_hashes
          ≡ (load p use_pufferfish block_count headers (new_header_chain host cp')).block_hashes)
        × ((load p use_pufferfish block_count headers (new_header_chain host cp)).total_work
            ≡ (load p use_pufferfish block_count headers (new_header_chain host cp')).total_work)
  unfolding load new_header_chain reset
  load-new_header_chain host cp cp' none headers = (refl, refl)
  load-new_header_chain host cp cp' (some target) headers =
      rw (add_batches-elsewhere cp cp' headers target target 1 start refl, load)
        (elim (Option-cases
          (add_batches p use_pufferfish ((2, cp') ∷ []) headers target target 1 start)) [
            | inl fails ↦ rw (fails, load) (refl, refl)
            | inr (w, done) ↦ rw (done, load) (refl, refl)
          ])
    where
      start : LoadVars
      start = record {
        block_hashes = [];
        last_hash = last_hash_of [];
        total_work = 0;
        num_blocks = 0;
      }

  -- A batch that begins at block 2 is refused unless all its blocks have the checkpoint's hash.
  pub add_headers-at_check_point :
      (cp : Bytes) (bs : List BlockHeader) (v v' : LoadVars)
      → add_headers p use_pufferfish ((2, cp) ∷ []) 2 bs v ≡ some v'
      → All (λ b. get_hash p (of_block_header b []) ≡ cp) bs
  unfolding add_headers find_check_point
  add_headers-at_check_point cp [] v v' e = tt
  add_headers-at_check_point cp (b ∷ bs) v v' e =
      elim (Bool-cases (bytes_eq (get_hash p (of_block_header b [])) cp)) [
        | inr wrong ↦ absurd (none-ne-some (rw (wrong, check_point_failed) at e))
        | inl right ↦ elim (Bool-cases (verify_nonce p (of_block_header b []) use_pufferfish)) [
          | inr bad ↦ absurd (none-ne-some (rw (right, bad, check_point_failed) at e))
          | inl nonce ↦
              elim (Bool-cases (bytes_eq (of_block_header b []).last_block_hash v.last_hash)) [
                | inr apart ↦
                    absurd (none-ne-some (rw (right, nonce, apart, check_point_failed) at e))
                | inl link ↦ (
                  (bytes_eq_iff _ _).0 right,
                  add_headers-at_check_point cp bs _ v'
                      (rw (right, nonce, link, check_point_failed) at e),
                )
              ]
        ]
      ]
