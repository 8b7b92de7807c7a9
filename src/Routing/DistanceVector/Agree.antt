-- ===== src/Routing/DistanceVector/Agree.antt =====
-- The protocols DistanceVector and ShortestPath of crates/ndn-sim-studies/src/routing.rs agree.
use ndn_sim.Prelude.{
  ℕ, ◌+◌, ◌≤◌, ◌<◌, ◌≡◌, sym, ◌∙◌, subst, List, some, arith, length, get_elem?, In, Returns,
  Returns-mono,
}
use ndn_sim.Routing.{TopologyView}
use ndn_sim.Routing.Dijkstra.{RouteEntry, u32_max, compute}
use ndn_sim.Routing.Dijkstra.State.{Walk, Via-Walk}
use ndn_sim.Routing.Dijkstra.Shortest.{IsShortest}
use ndn_sim.Routing.Dijkstra.Tables.{Filled, compute-Filled}
use ndn_sim.Routing.DistanceVector.{distance_vector}
use ndn_sim.Routing.DistanceVector.Sound.{IsSized}
use ndn_sim.Routing.DistanceVector.Least.{IsConverged, AllConverged, distance_vector-AllConverged}

-- The entry for the same destination at the same cost.
pub Same : RouteEntry → List RouteEntry → Type 0
Same r rows = (q : RouteEntry) × In q rows × (q.dest ≡ r.dest) × (q.metric ≡ r.metric)

-- Two lists of tables with the same destinations at the same costs, but for those at the infinity.
pub record Agree (max_metric : ℕ) (vectors paths : List (List RouteEntry)) : Type 0 where
  pub count : length vectors ≡ length paths
  pub forth :
      (u : ℕ) (rows es : List RouteEntry)
      → get_elem? vectors u ≡ some rows
      → get_elem? paths u ≡ some es
      → (r : RouteEntry) → In r rows
      → Same r es
  pub back :
      (u : ℕ) (rows es : List RouteEntry)
      → get_elem? vectors u ≡ some rows
      → get_elem? paths u ≡ some es
      → (r : RouteEntry) → In r es
      → r.metric < max_metric
      → Same r rows

rows-Agree :
    (max_metric : ℕ) (view : TopologyView) (u : ℕ) (rows es : List RouteEntry)
    → max_metric ≤ u32_max
    → IsConverged max_metric view u rows
    → IsShortest view u es
    → ((r : RouteEntry) → In r rows → Same r es)
      × ((r : RouteEntry) → In r es → r.metric < max_metric → Same r rows)
unfolding Same
rows-Agree max_metric view u rows es l h k = (
  λ r m.
      let walk = Via-Walk view.adj u r.next_hop r.dest r.metric (h.walks r m) in
      let (q, p, e) =
        k.complete r.dest r.metric (h.others r m).1 walk (omega (arith, l, (h.others r m).2)) in
      let walk' = Via-Walk view.adj u q.next_hop q.dest q.metric (k.walks q p) in
      (
        q,
        p,
        e,
        omega (
          arith,
          k.least q p r.metric (subst (λ z. Walk view.adj u z r.metric) (sym e) walk),
          h.least r m q.metric (subst (λ z. Walk view.adj u z q.metric) e walk'),
        ),
      ),
  λ r m few.
      let walk = Via-Walk view.adj u r.next_hop r.dest r.metric (k.walks r m) in
      let (q, p, e) = h.complete r.dest r.metric (k.others r m).0 (k.others r m).1 walk few in
      let walk' = Via-Walk view.adj u q.next_hop q.dest q.metric (h.walks q p) in
      (
        q,
        p,
        e,
        omega (
          arith,
          h.least q p r.metric (subst (λ z. Walk view.adj u z r.metric) (sym e) walk),
          k.least r m q.metric (subst (λ z. Walk view.adj u z q.metric) e walk'),
        ),
      ),
)

-- For a view whose links lead to nodes, and an infinity and a number of nodes that the machine can
-- hold, both protocols end, and their tables agree: each destination that the distance vectors have,
-- the shortest paths have at the same cost, and each that the shortest paths have at a cost below the
-- infinity, the distance vectors have at the same cost.
pub distance_vector-compute :
    (max_metric : ℕ) (view : TopologyView)
    → IsSized max_metric view
    → Returns
        (λ vectors. Returns (Agree max_metric vectors) (compute view))
        (distance_vector max_metric view)
distance_vector-compute max_metric view sized =
    Returns-mono (AllConverged max_metric view 0 view.n)
      (λ vectors. Returns (Agree max_metric vectors) (compute view))
      (distance_vector max_metric view)
      (λ vectors h.
        Returns-mono (Filled view 0 view.n) (Agree max_metric vectors) (compute view)
          (λ paths k. record {
            count = h.count ∙ sym k.count;
            forth = λ u rows es e f.
                (rows-Agree max_metric view (0 + u) rows es sized.metric (h.each u rows e)
                  (k.at u es f)).0;
            back = λ u rows es e f.
                (rows-Agree max_metric view (0 + u) rows es sized.metric (h.each u rows e)
                  (k.at u es f)).1;
          })
          (compute-Filled view sized.good))
      (distance_vector-AllConverged max_metric view sized)
