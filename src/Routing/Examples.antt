-- ===== src/Routing/Examples.antt =====
-- Runs of the relays of crates/ndn-sim-studies/src/routing.rs on a star of two arms.
use ndn_sim.Prelude.{ℕ, ◌≡◌, refl, [], ◌∷◌, some, ◌>>=◌, arith, All, In, Returns}
use ndn_sim.Routing.{
  TopologyView, neighbours, from_links, push_links, push_edge, two_hop, relays, mpr_set,
}
use ndn_sim.Routing.Cover.{IsTwoHop, mpr_set-Covers}

-- 0 has the neighbours 1 and 2; 1 reaches 3 and 4, 2 reaches 4 only.
abbrev arms : TopologyView
arms = record {
  n = 5;
  adj =
      ((1, 1) ∷ (2, 1) ∷ [])
      ∷ ((0, 1) ∷ (3, 1) ∷ (4, 1) ∷ [])
      ∷ ((0, 1) ∷ (4, 1) ∷ [])
      ∷ ((1, 1) ∷ [])
      ∷ ((1, 1) ∷ (2, 1) ∷ [])
      ∷ [];
}

arms_links : from_links 5 ((0, 1) ∷ (0, 2) ∷ (1, 3) ∷ (1, 4) ∷ (2, 4) ∷ []) ≡ some arms
unfolding from_links push_links push_edge
arms_links = refl

-- One relay is enough for 0; 4 needs 1 to reach 3, which also reaches 0.
arms_relays : (mpr_set arms 0 ≡ some (1 ∷ [])) × (mpr_set arms 4 ≡ some (1 ∷ []))
unfolding mpr_set relays two_hop
arms_relays = (refl, refl)

-- 3 is taken first, and then 1 and 2 are needed all the same; they alone reach every node.
crossed_relays :
    (from_links 10 (
        (0, 1)
        ∷ (0, 2)
        ∷ (0, 3)
        ∷ (1, 4)
        ∷ (1, 5)
        ∷ (1, 6)
        ∷ (2, 7)
        ∷ (2, 8)
        ∷ (2, 9)
        ∷ (3, 5)
        ∷ (3, 6)
        ∷ (3, 7)
        ∷ (3, 8)
        ∷ [])
      >>= λ view. mpr_set view 0)
    ≡ some (3 ∷ 1 ∷ 2 ∷ [])
unfolding from_links push_links push_edge mpr_set relays two_hop
crossed_relays = refl

mpr_set-Covers_example :
    Returns
      (λ mprs.
        All (λ m. In m (neighbours arms.adj 0)) mprs
        × ((w : ℕ)
            → IsTwoHop arms.adj 0 (neighbours arms.adj 0) w
            → (m : ℕ) × In m mprs × In w (neighbours arms.adj m)))
      (mpr_set arms 0)
mpr_set-Covers_example = mpr_set-Covers arms 0 (omega arith) (omega arith, (omega arith, tt))
