-- ===== src/BlockChain/Agreement.antt =====
-- How many blocks `startChainSync` pops: what is left agrees with the trusted host.
use shifupool.Base.{
  ℕ, zero, suc, ◌+◌, ◌-◌, ◌≡◌, ◌≤◌, ◌<◌, refl, sym, subst, bytes_eq, bytes_eq_iff, arith, ◌==◌,
  ==_iff, ==_ne, Result, returned, returned_eq, threw, Bool-cases, inl, inr,
}
use shifupool.Block.{Block}
use shifupool.Block
use shifupool.BlockChain.{BlockChain, Setup, get_block}
use shifupool.BlockChain.Sync.{Hosts, to_pop}

module _ {L B T : Type 0} (setup : Setup L B T) (hosts : Hosts) where
  -- The trusted host has the same hash for the block `i`.
  pub record Agrees (c : BlockChain L B T) (i : ℕ) : Type 0 where
    pub block : Block
    pub stored : get_block setup c i ≡ returned block
    pub hash : hosts.block_hash hosts.good_host i ≡ Block.get_hash setup.primitives block

  Agrees-before :
      (c : BlockChain L B T) (rounds i n : ℕ)
      → i + rounds ≡ c.num_blocks + 1
      → to_pop setup hosts c rounds i ≡ returned n
      → (n ≤ rounds) × ((j : ℕ) → i ≤ j → j < i + (rounds - n) → Agrees c j)
  unfolding to_pop
  Agrees-before c zero i n size e = (ground arith, λ j low high. absurd (omega arith))
  Agrees-before c (suc rounds) i n size e =
      go (get_block setup c i) refl (λ e'. Agrees-before c rounds (i + 1) n (omega arith) e')
    where
      go :
          (r : Result Block)
          → get_block setup c i ≡ r
          → (to_pop setup hosts c rounds (i + 1) ≡ returned n
              → (n ≤ rounds) × ((j : ℕ) → i + 1 ≤ j → j < i + 1 + (rounds - n) → Agrees c j))
          → (n ≤ suc rounds) × ((j : ℕ) → i ≤ j → j < i + (suc rounds - n) → Agrees c j)
      go (threw ex) q ih = absurd (refuse (rw (q, to_pop) at e))
        where
          refuse : ◌≡◌ {A = Result ℕ} (threw ex) (returned n) → ⊥
          refuse h = cc
      go (returned b) q ih =
          elim (Bool-cases
            (bytes_eq (hosts.block_hash hosts.good_host i) (Block.get_hash setup.primitives b))) [
              | inr other ↦
                  let e' = returned_eq (rw other at rw (q, to_pop) at e) in
                  (
                    omega (arith, e', size),
                    λ j low high. absurd (omega (arith, e', size, low, high)),
                  )
              | inl same ↦
                  let rest = ih (rw same at rw (q, to_pop) at e) in
                  let here : Agrees c i = record {
                    block = b;
                    stored = q;
                    hash = (bytes_eq_iff _ _).0 same;
                  } in
                  (
                    omega (arith, rest.0),
                    λ j low high. elim (Bool-cases (j == i)) [
                      | inl now ↦ subst (λ x. Agrees c x) (sym ((==_iff j i).0 now)) here
                      | inr later ↦
                          rest.1 j (omega (arith, low, ==_ne j i later))
                            (omega (arith, high, rest.0))
                    ],
                  )
            ]

  -- When startChainSync finds n blocks to pop, n is at most the number of blocks, and the
  -- trusted host has the same hash as the chain for every block up to the number of blocks less
  -- n.
  pub to_pop-Agrees :
      (c : BlockChain L B T) (n : ℕ)
      → to_pop setup hosts c c.num_blocks 1 ≡ returned n
      → (n ≤ c.num_blocks) × ((j : ℕ) → 1 ≤ j → j ≤ c.num_blocks - n → Agrees c j)
  to_pop-Agrees c n e =
      let found = Agrees-before c c.num_blocks 1 n (omega arith) e in
      (found.0, λ j low high. found.1 j low (omega (arith, high)))
