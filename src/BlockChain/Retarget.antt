-- ===== src/BlockChain/Retarget.antt =====
-- `updateDifficulty` on a chain that agrees with its stores.
use shifupool.Base.{
  ℕ, suc, ◌-◌, ◌*◌, ◌%◌, ◌^◌, ◌≡◌, ◌≤◌, ◌<◌, refl, arith, Bytes, not, leb, ◌==◌, Bool-cases, inl,
  inr, Result, returned,
}
use native.Mathlib.Decide.{dec_le}
use shifupool.Int.{ℤ, int32, pos_part, sub_ℕ}
use shifupool.Block.{Block, get_difficulty}
use shifupool.BlockStore
use shifupool.Difficulty.Settled.{compute_difficulty-Settles}
use shifupool.BlockChain.{
  BlockChain, Setup, get_block, update_difficulty, difficulty_lookback, desired_block_time_sec,
}
use shifupool.BlockChain.Stored.{Linked, nothing, on_top, IsConsistent}
use shifupool.BlockChain.Stored.Popping.{get_block-found}

int32_range : (a : ℤ) → pos_part (int32 a) < 2 ^ 31
int32_range a = ground arith

module _ {L B T : Type 0} (setup : Setup L B T) where
  open setup use {blocks_db, stale}

  -- Every block of the chain can be read.
  Linked-found :
      (d : B) {n work : ℕ} {hash : Bytes}
      → Linked setup d n hash work
      → (id : ℕ) → 0 < id
      → id ≤ n
      → (b : Block) × (BlockStore.get_block blocks_db stale d id ≡ returned b)
  Linked-found d nothing id above le = absurd (omega arith)
  Linked-found d (on_top {n} b below found named link worked) id above le = elim (dec_le id n) [
    | yes lower ↦ Linked-found d below id above lower
    | no top ↦ let here : id ≡ suc n = omega arith in rw here (b, found)
  ]

  IsConsistent-read :
      (c : BlockChain L B T)
      → IsConsistent setup c
      → (id : ℕ) → 0 < id
      → id ≤ c.num_blocks
      → (b : Block) × (get_block setup c id ≡ returned b)
  IsConsistent-read c h id above le =
      let (b, found) = Linked-found c.block_store h.linked id above le in
      (b, get_block-found setup c id b above le found)

  -- The step has ended, and the difficulty still fits into the byte that a block has for it.
  pub record IsRetargeted (c : BlockChain L B T) (r : Result (Unit {0}) × BlockChain L B T)
      : Type 0 where
    pub ended : r.0 ≡ returned tt
    pub byte : c.difficulty < 256 → r.1.difficulty < 256

  -- On a chain that is consistent with its stores, updateDifficulty always returns, whatever
  -- the timestamps of its blocks, and a difficulty that fits into the byte that a block has for
  -- it is followed by one that does.
  pub update_difficulty-IsRetargeted :
      (c : BlockChain L B T) → IsConsistent setup c → IsRetargeted c (update_difficulty setup c)
  unfolding update_difficulty
  update_difficulty-IsRetargeted c h =
      elim (Bool-cases (leb c.num_blocks (difficulty_lookback * 2))) [
        | inl early ↦ rw early (record { ended = refl; byte = λ e. e })
        | inr late ↦ elim (Bool-cases (not (c.num_blocks % difficulty_lookback == 0))) [
          | inl between ↦ rw late (rw between (record { ended = refl; byte = λ e. e }))
          | inr due ↦
              let (first, first_read) =
                IsConsistent-read c h (c.num_blocks - difficulty_lookback) (ground arith)
                  (omega arith) in
              let (last, last_read) =
                IsConsistent-read c h c.num_blocks (ground arith) (omega arith) in
              let elapsed = int32 (sub_ℕ last.timestamp first.timestamp) in
              let s =
                compute_difficulty-Settles (get_difficulty last) elapsed
                  (difficulty_lookback * desired_block_time_sec) (omega arith) (omega arith)
                  (int32_range (sub_ℕ last.timestamp first.timestamp)) in
              rw late (
                rw due (
                  rw (first_read, update_difficulty)
                    (rw (last_read, update_difficulty)
                      (rw (s.ends, update_difficulty)
                        (record {
                          ended = refl;
                          byte = λ e. unfold get_difficulty in omega (arith, s.high);
                        })))))
        ]
      ]
