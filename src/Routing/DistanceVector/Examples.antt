-- ===== src/Routing/DistanceVector/Examples.antt =====
-- Runs of `DistanceVector::compute` of crates/ndn-sim-studies/src/routing.rs.
use ndn_sim.Prelude.{◌≡◌, refl, [], ◌∷◌, some, arith, Returns}
use ndn_sim.Routing.{TopologyView}
use ndn_sim.Routing.View.{IsView-of}
use ndn_sim.Routing.Dijkstra.{compute}
use ndn_sim.Routing.DistanceVector.{consider, neighbour, node_round, round, rounds, distance_vector}
use ndn_sim.Routing.DistanceVector.Sound.{IsSized}
use ndn_sim.Routing.DistanceVector.Agree.{Agree, distance_vector-compute}

-- From 0 the link to 1 costs 10, the way over 2 costs 3.
abbrev triangle : TopologyView
triangle = record {
  n = 3;
  adj = ((1, 10) ∷ (2, 1) ∷ []) ∷ ((0, 10) ∷ (2, 2) ∷ []) ∷ ((0, 1) ∷ (1, 2) ∷ []) ∷ [];
}

triangle_tables :
    distance_vector 16 triangle
    ≡ some (
        (record { dest = 1; next_hop = 2; metric = 3 }
          ∷ record { dest = 2; next_hop = 2; metric = 1 }
          ∷ [])
        ∷ (record { dest = 0; next_hop = 2; metric = 3 }
            ∷ record { dest = 2; next_hop = 2; metric = 2 }
            ∷ [])
        ∷ (record { dest = 0; next_hop = 0; metric = 1 }
            ∷ record { dest = 1; next_hop = 1; metric = 2 }
            ∷ [])
        ∷ [])
unfolding distance_vector rounds round node_round neighbour consider
triangle_tables = refl

-- With an infinity of 3 the cost 3 is out of reach.
small_infinity :
    distance_vector 3 triangle
    ≡ some (
        (record { dest = 2; next_hop = 2; metric = 1 } ∷ [])
        ∷ (record { dest = 2; next_hop = 2; metric = 2 } ∷ [])
        ∷ (record { dest = 0; next_hop = 0; metric = 1 }
            ∷ record { dest = 1; next_hop = 1; metric = 2 }
            ∷ [])
        ∷ [])
unfolding distance_vector rounds round node_round neighbour consider
small_infinity = refl

triangle-IsSized : IsSized 16 triangle
triangle-IsSized = record {
  good = IsView-of triangle (
    refl,
    (
      (omega arith, (omega arith, tt)),
      ((omega arith, (omega arith, tt)), ((omega arith, (omega arith, tt)), tt)),
    ),
  );
  metric = omega arith;
  nodes = omega arith;
}

distance_vector-compute_example :
    Returns (λ vectors. Returns (Agree 16 vectors) (compute triangle)) (distance_vector 16 triangle)
distance_vector-compute_example = distance_vector-compute 16 triangle triangle-IsSized
