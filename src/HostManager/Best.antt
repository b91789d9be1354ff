-- ===== src/HostManager/Best.antt =====
-- The best peer: the three questions about it are answered for the same one.
use shifupool.Base.{
  ◌≡◌, ◌≤◌, ◌<◌, refl, sym, ap, ◌∙◌, List, [], ◌∷◌, arith, All, ltb, Bool-cases, inl, inr, ◌⊎◌,
  ltb→lt, ltb_false→le,
}
use shifupool.HeaderChain.{HeaderChain, get_total_work, get_chain_length}
use shifupool.HostManager.{
  HostManager, BestPeer, better, best_of, get_good_host, get_block_count, get_best_work,
}

-- `c` is one of the list.
unfoldable pub In : HeaderChain → List HeaderChain → Type 0
In c [] = ⊥
In c (d ∷ ds) = (c ≡ d) ⊎ In c ds

unfoldable pub answers : HeaderChain → BestPeer
answers h = record { work = get_total_work h; host = h.host; count = get_chain_length h }

better-cases :
    (h : HeaderChain) (b : BestPeer)
    → ((better h b ≡ b) × (get_total_work h ≤ b.work))
      ⊎ ((better h b ≡ answers h) × (b.work < get_total_work h))
unfolding better answers
better-cases h b = elim (Bool-cases (ltb b.work (get_total_work h))) [
  | inl more ↦ rw more (inr (refl, ltb→lt _ _ more))
  | inr less ↦ rw less (inl (refl, ltb_false→le _ _ less))
]

le-best_of : (hs : List HeaderChain) (b : BestPeer) → b.work ≤ (best_of hs b).work
unfolding best_of answers
le-best_of [] b = omega arith
le-best_of (h ∷ hs) b =
    let rest = le-best_of hs (better h b) in
    elim (better-cases h b) [
      | inl (same, _) ↦ omega (arith, rest, ap (λ x. x.work) same)
      | inr (new, more) ↦ omega (arith, rest, ap (λ x. x.work) new, more)
    ]

All-best_of :
    (hs : List HeaderChain) (b : BestPeer) → All (λ h. get_total_work h ≤ (best_of hs b).work) hs
unfolding best_of answers
All-best_of [] b = tt
All-best_of (h ∷ hs) b =
    let rest = le-best_of hs (better h b) in
    (
      elim (better-cases h b) [
        | inl (same, less) ↦ omega (arith, rest, ap (λ x. x.work) same, less)
        | inr (new, more) ↦ omega (arith, rest, ap (λ x. x.work) new)
      ],
      All-best_of hs (better h b),
    )

-- From two starts with the same work the loop ends with what it began with, or with the same peer.
same_best :
    (hs : List HeaderChain) (b b' : BestPeer)
    → b.work ≡ b'.work
    → ((best_of hs b ≡ b) × (best_of hs b' ≡ b'))
      ⊎ ((h : HeaderChain) × In h hs × (best_of hs b ≡ answers h) × (best_of hs b' ≡ answers h))
unfolding best_of In answers
same_best [] b b' e = inl (refl, refl)
same_best (h ∷ hs) b b' e = elim (better-cases h b) [
  | inl (same, less) ↦ elim (better-cases h b') [
    | inl (same', less') ↦ elim (same_best hs b b' e) [
      | inl both ↦ inl (ap (best_of hs) same ∙ both.0, ap (best_of hs) same' ∙ both.1)
      | inr (g, there, one, two) ↦
          inr (g, inr there, ap (best_of hs) same ∙ one, ap (best_of hs) same' ∙ two)
    ]
    | inr (new', more') ↦ absurd (omega (arith, e, less, more'))
  ]
  | inr (new, more) ↦ elim (better-cases h b') [
    | inl (same', less') ↦ absurd (omega (arith, e, more, less'))
    | inr (new', more') ↦ elim (same_best hs (answers h) (answers h) refl) [
      | inl both ↦ inr (h, inl refl, ap (best_of hs) new ∙ both.0, ap (best_of hs) new' ∙ both.1)
      | inr (g, there, one, two) ↦
          inr (g, inr there, ap (best_of hs) new ∙ one, ap (best_of hs) new' ∙ two)
    ]
  ]
]

good_host_of :
    (hm : HostManager) (p : HeaderChain) (ps : List HeaderChain)
    → hm.curr_peers ≡ p ∷ ps
    → get_good_host hm
      ≡ (best_of hm.curr_peers (record { work = 0; host = p.host; count = 0 })).host
unfolding get_good_host
good_host_of hm p ps e = rw (e, get_good_host) refl

nothing : (hm : HostManager) → hm.curr_peers ≡ [] → 0 < get_best_work hm → ⊥
unfolding get_best_work best_of
nothing hm e positive = zero_lt (rw e at positive)
  where
    zero_lt : 0 < 0 → ⊥
    zero_lt h = omega arith

-- `h` is in the list, the loop finds it from either start, and nothing has more work.
record Finds (ps : List HeaderChain) (b b' : BestPeer) (h : HeaderChain) : Type 0 where
  inside : In h ps
  first : best_of ps b ≡ answers h
  second : best_of ps b' ≡ answers h

best_of-Finds :
    (ps : List HeaderChain) (b b' : BestPeer)
    → b.work ≡ 0
    → b'.work ≡ 0
    → 0 < (best_of ps b').work
    → (h : HeaderChain) × Finds ps b b' h
best_of-Finds ps b b' e e' positive = elim (same_best ps b b' (e ∙ sym e')) [
  | inl both ↦ absurd (omega (arith, ap (λ x. x.work) both.1, e', positive))
  | inr (h, there, one, two) ↦ (h, record { inside = there; first = one; second = two })
]

-- The peer `h` is the one that the three questions are answered for.
pub record IsBest (hm : HostManager) (h : HeaderChain) : Type 0 where
  pub known : In h hm.curr_peers
  pub host : get_good_host hm ≡ h.host
  pub count : get_block_count hm ≡ get_chain_length h
  pub work : get_best_work hm ≡ get_total_work h
  pub most : All (λ g. get_total_work g ≤ get_best_work hm) hm.curr_peers

-- When some peer has done work, getGoodHost, getBlockCount and getTotalWork answer for one peer
-- of the list, and no peer of the list has more work.
pub get_good_host-IsBest :
    (hm : HostManager) → 0 < get_best_work hm → (h : HeaderChain) × IsBest hm h
unfolding get_good_host get_block_count get_best_work answers
get_good_host-IsBest hm positive = go hm.curr_peers refl
  where
    go : (ps : List HeaderChain) → hm.curr_peers ≡ ps → (h : HeaderChain) × IsBest hm h
    go [] e = absurd (nothing hm e positive)
    go (p ∷ ps) e =
        let (h, found) =
          best_of-Finds hm.curr_peers (record { work = 0; host = p.host; count = 0 })
            (record { work = 0; host = []; count = 0 }) refl refl positive in
        (
          h,
          record {
            known = found.inside;
            host = good_host_of hm p ps e ∙ ap (λ x. x.host) found.first;
            count = ap (λ x. x.count) found.second;
            work = ap (λ x. x.work) found.second;
            most = All-best_of hm.curr_peers (record { work = 0; host = []; count = 0 });
          },
        )
