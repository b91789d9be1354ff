-- ===== src/RequestManager/Submitting.antt =====
-- What `submitProofOfWork` answers and forwards.
use shifupool.Base.{
  ℕ, ◌≡◌, ◌≢◌, refl, sym, ap, ◌∙◌, subst, Bool, Exception, true, false, List, [], map, Bytes, leb,
  returned, threw, Result-cases, returned_eq, threw-ne-returned, Bool-cases, inl, inr, ◌⊎◌,
  if◌then◌else◌,
}
use shifupool.Block.{Block}
use shifupool.DataStore.{IsReliable}
use shifupool.Executor.Status.{ExecutionStatus, is_success}
use shifupool.Api.{block_to_buffer}
use shifupool.BlockChain.{BlockChain, Setup}
use shifupool.BlockChain.Changes.{add_block, sorted_block}
use shifupool.MerkleTree.{sort_items, set_items}
use shifupool.BlockChain.Accept.{
  LeavesNoTrace, LeavesNoTrace-refl, add_block-rejected, is_success-eq,
}
use shifupool.BlockChain.Linkage.{Fits, Extends, add_block-accepted}
use shifupool.RequestManager.{RequestManager, Submission, submit_proof_of_work}

module _ {L B T : Type 0} (setup : Setup L B T) where
  -- The block was appended, and all neighbors get its bytes, with the transactions in the order of the
  -- Merkle tree.
  pub record IsForwarded (neighbors : List Bytes) (block : Block) (c c' : BlockChain L B T)
      (sub : Submission) : Type 0 where
    pub status : sub.status ≡ ExecutionStatus.success
    pub forwarded :
        sub.forwarded
        ≡ map
            (λ n. (
              n,
              block_to_buffer
                  (record block { transactions = sort_items setup.primitives block.transactions }),
            ))
            neighbors
    pub fits : Fits setup block c
    pub extends : Extends setup block c c'

  -- The block left no trace, and nobody hears of it.
  pub record IsRefused (c c' : BlockChain L B T) (sub : Submission) : Type 0 where
    pub status : sub.status ≢ ExecutionStatus.success
    pub forwarded : sub.forwarded ≡ []
    pub trace : LeavesNoTrace setup c c'

  module _ (reliable : IsReliable setup.ledger_db) (network_time : ℕ) (neighbors : List Bytes)
      (block : Block) where
    submission : ExecutionStatus → Submission
    submission status = record {
      status = status;
      forwarded =
          if is_success status
          then map (λ n. (n, block_to_buffer (sorted_block setup block))) neighbors
          else [];
    }

    Outcome : BlockChain L B T → BlockChain L B T → Submission → Type 0
    Outcome c c' sub = IsForwarded neighbors block c c' sub ⊎ IsRefused c c' sub

    old_block :
        (s : RequestManager L B T)
        → leb block.id s.blockchain.num_blocks ≡ true
        → submit_proof_of_work setup network_time neighbors block s
          ≡ (returned (record { status = ExecutionStatus.invalid_block_id; forwarded = [] }), s)
    unfolding submit_proof_of_work
    old_block s old = rw old refl

    new_block :
        (s : RequestManager L B T) (status : ExecutionStatus)
        → leb block.id s.blockchain.num_blocks ≡ false
        → (add_block setup network_time block s.blockchain).0 ≡ returned status
        → submit_proof_of_work setup network_time neighbors block s ≡ (
          returned (submission status),
          record s { blockchain = (add_block setup network_time block s.blockchain).1 },
        )
    unfolding submit_proof_of_work submission
    new_block s status new q = rw new (rw (q, submit_proof_of_work) refl)

    new_block_threw :
        (s : RequestManager L B T) (ex : Exception)
        → leb block.id s.blockchain.num_blocks ≡ false
        → (add_block setup network_time block s.blockchain).0 ≡ threw ex
        → (submit_proof_of_work setup network_time neighbors block s).0 ≡ threw ex
    unfolding submit_proof_of_work
    new_block_threw s ex new q = rw new (rw (q, submit_proof_of_work) refl)

    added-Outcome :
        (c : BlockChain L B T) (status : ExecutionStatus)
        → (add_block setup network_time block c).0 ≡ returned status
        → Outcome c (add_block setup network_time block c).1 (submission status)
    unfolding Outcome submission sorted_block set_items
    added-Outcome c status q = elim (Bool-cases (is_success status)) [
      | inl fine ↦
          let good = is_success-eq status fine in
          let accepted = add_block-accepted setup network_time block c (q ∙ ap returned good) in
          inl (record {
            status = good;
            forwarded = rw fine refl;
            fits = accepted.0;
            extends = accepted.2;
          })
      | inr failed ↦
          let bad : status ≢ ExecutionStatus.success = λ e. clash failed (ap is_success e) in
          inr (record {
            status = bad;
            forwarded = rw failed refl;
            trace = add_block-rejected setup reliable network_time block c status q bad;
          })
    ]
      where
        clash : {b : Bool} → b ≡ false → b ≡ is_success ExecutionStatus.success → ⊥
        clash f t = unfold is_success in cc

    -- Over a reliable ledger, when submitProofOfWork answers with a status, then either the
    -- status is success, the block fits onto the chain and is its new last block, and every
    -- neighbor is sent its bytes, with the transactions in the order of the Merkle tree, or
    -- the status is an error, nothing is sent, and no member, no other store and no balance
    -- of the chain is changed.
    pub submit_proof_of_work-IsForwarded :
        (s : RequestManager L B T) (sub : Submission)
        → (submit_proof_of_work setup network_time neighbors block s).0 ≡ returned sub
        → IsForwarded neighbors block s.blockchain
            (submit_proof_of_work setup network_time neighbors block s).1.blockchain
            sub
          ⊎ IsRefused s.blockchain
              (submit_proof_of_work setup network_time neighbors block s).1.blockchain
              sub
    unfolding Outcome
    submit_proof_of_work-IsForwarded s sub e =
        elim (Bool-cases (leb block.id s.blockchain.num_blocks)) [
          | inl old ↦
              let ran = old_block s old in
              rw ran (
                subst (λ x. Outcome s.blockchain s.blockchain x)
                  (returned_eq (sym (ap (λ r. r.0) ran) ∙ e))
                  (inr (record {
                    status = λ h. cc;
                    forwarded = refl;
                    trace = LeavesNoTrace-refl setup s.blockchain;
                  })))
          | inr new ↦ elim (Result-cases (add_block setup network_time block s.blockchain).0) [
            | inr (ex, q) ↦ absurd (threw-ne-returned (sym (new_block_threw s ex new q) ∙ e))
            | inl (status, q) ↦
                let ran = new_block s status new q in
                rw ran (
                  subst
                    (λ x.
                      Outcome s.blockchain (add_block setup network_time block s.blockchain).1 x)
                    (returned_eq (sym (ap (λ r. r.0) ran) ∙ e))
                    (added-Outcome s.blockchain status q))
          ]
        ]
