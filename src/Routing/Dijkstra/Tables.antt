-- ===== src/Routing/Dijkstra/Tables.antt =====
-- The tables that `ShortestPath::compute` of crates/ndn-sim-studies/src/routing.rs makes for all nodes.
use ndn_sim.Prelude.{
  ℕ, zero, suc, ◌+◌, ◌≤◌, ◌≡◌, refl, ap, subst, List, ◌∷◌, some, arith, length, get_elem?, range,
  Returns, Returns->>=,
}
use ndn_sim.Routing.{TopologyView}
use ndn_sim.Routing.View.{IsView}
use ndn_sim.Routing.Dijkstra.{RouteEntry, dijkstra_table, tables_of, compute}
use ndn_sim.Routing.Dijkstra.Shortest.{IsShortest, dijkstra_table-IsShortest}

some_eq : {A : Type 0} {a b : A} → some a ≡ some b → a ≡ b
some_eq e = cc

-- The tables that are made for the nodes from `lo` on.
pub record Filled (view : TopologyView) (lo k : ℕ) (tables : List (List RouteEntry)) : Type 0 where
  pub count : length tables ≡ k
  pub at :
      (i : ℕ) (es : List RouteEntry) → get_elem? tables i ≡ some es → IsShortest view (lo + i) es

tables_of-Filled :
    (view : TopologyView)
    → IsView view
    → (lo k : ℕ) → lo + k ≤ view.n
    → Returns (Filled view lo k) (tables_of view (range lo k))
unfolding tables_of
tables_of-Filled view good lo zero l = record { count = refl; at = λ i es e. absurd (cc) }
tables_of-Filled view good lo (suc k) l =
    Returns->>= (IsShortest view lo) _ (dijkstra_table view lo) _
      (dijkstra_table-IsShortest view lo good (omega arith))
      λ row h.
        Returns->>= (Filled view (suc lo) k) _ (tables_of view (range (suc lo) k)) _
          (tables_of-Filled view good (suc lo) k (omega arith))
          λ rows r. record { count = ap suc r.count; at = at_row row rows h r }
  where
    at_row :
        (row : List RouteEntry) (rows : List (List RouteEntry))
        → IsShortest view lo row
        → Filled view (suc lo) k rows
        → (i : ℕ) (es : List RouteEntry) → get_elem? (row ∷ rows) i ≡ some es
        → IsShortest view (lo + i) es
    at_row row rows h r zero es e =
        let this : lo ≡ lo + 0 = omega arith in
        subst (λ z. IsShortest view z es) this (subst (IsShortest view lo) (some_eq e) h)
    at_row row rows h r (suc i) es e =
        let this : suc lo + i ≡ lo + suc i = omega arith in
        subst (λ z. IsShortest view z es) this (r.at i es e)

pub compute-Filled :
    (view : TopologyView) → IsView view → Returns (Filled view 0 view.n) (compute view)
unfolding compute
compute-Filled view good = tables_of-Filled view good 0 view.n (omega arith)
