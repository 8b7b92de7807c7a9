-- ===== src/Routing/Dijkstra/Examples.antt =====
-- Runs of `dijkstra_table` of crates/ndn-sim-studies/src/routing.rs.
use ndn_sim.Prelude.{◌≡◌, refl, [], ◌∷◌, some, arith, Returns}
use ndn_sim.Routing.{TopologyView}
use ndn_sim.Routing.Dijkstra.{improve, relax, run, dijkstra_table}
use ndn_sim.Routing.View.{IsView, IsView-of}
use ndn_sim.Routing.Dijkstra.Shortest.{IsShortest, dijkstra_table-IsShortest}

-- From 0 the link to 1 costs 10, the way over 2 costs 3; 3 is on its own.
abbrev detour : TopologyView
detour = record {
  n = 4;
  adj = ((1, 10) ∷ (2, 1) ∷ []) ∷ ((0, 10) ∷ (2, 2) ∷ []) ∷ ((0, 1) ∷ (1, 2) ∷ []) ∷ [] ∷ [];
}

detour_table :
    dijkstra_table detour 0
    ≡ some (
        record { dest = 1; next_hop = 2; metric = 3 }
        ∷ record { dest = 2; next_hop = 2; metric = 1 }
        ∷ [])
unfolding dijkstra_table run relax improve
detour_table = refl

detour-IsView : IsView detour
detour-IsView = IsView-of detour (
  refl,
  (
    (omega arith, (omega arith, tt)),
    ((omega arith, (omega arith, tt)), ((omega arith, (omega arith, tt)), (tt, tt))),
  ),
)

dijkstra_table-IsShortest_example : Returns (IsShortest detour 0) (dijkstra_table detour 0)
dijkstra_table-IsShortest_example = dijkstra_table-IsShortest detour 0 detour-IsView (omega arith)
