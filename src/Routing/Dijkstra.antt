-- ===== src/Routing/Dijkstra.antt =====
-- `dijkstra_table` of crates/ndn-sim-studies/src/routing.rs. An index out of range, a panic there, is
-- `none`, and so is fuel that has run out. A binary heap is the list of its entries.
pub mod State
mod Relax
mod Pop
mod Loop
mod Start
pub mod Shortest
pub mod Tables
mod Examples
use Prim.Native.Nat.{compare, Ordering}
use ndn_sim.Prelude.{
  ℕ, zero, suc, ◌+◌, min, Bool, true, false, not, ◌&&◌, List, [], ◌∷◌, Option, none, some, ◌>>=◌,
  if◌then◌else◌, ◌==◌, ltb, length, get_elem?, set, lex, is_lt, range,
}
use ndn_sim.Routing.{TopologyView}

-- u32::MAX, and the sum that stops there.
abbrev pub u32_max : ℕ
u32_max = 4294967295

abbrev pub sat_add32 : ℕ → ℕ → ℕ
sat_add32 a b = min (a + b) u32_max

-- usize::MAX, the first hop of a node that has none.
abbrev pub no_hop : ℕ
no_hop = 18446744073709551615

pub record RouteEntry : Type 0 where
  pub dest : ℕ
  pub next_hop : ℕ
  pub metric : ℕ

pub record Tree : Type 0 where
  pub dist : List ℕ
  pub first_hop : List ℕ
  pub heap : List (ℕ × ℕ)

abbrev pub replicate : ℕ → ℕ → List ℕ
replicate zero x = []
replicate (suc n) x = x ∷ replicate n x

-- The order of the entries, cost first.
abbrev pub compare_entries : ℕ × ℕ → ℕ × ℕ → Ordering
compare_entries (d, u) (e, v) = lex (compare d e) (compare u v)

-- `heap.pop()` under `Reverse`: a least entry, and the others.
abbrev pub pop_from : ℕ × ℕ → List (ℕ × ℕ) → (ℕ × ℕ) × List (ℕ × ℕ)
pop_from x [] = (x, [])
pop_from x (y ∷ ys) =
    let later = pop_from y ys in
    if is_lt (compare_entries later.0 x) then (later.0, x ∷ later.1) else (x, y ∷ ys)

-- `dist[v] = nd`, its first hop, and its entry.
unfoldable pub improve : ℕ → ℕ → ℕ → ℕ → Tree → Option Tree
improve src u v nd t = do
  hop ← if u == src then some v else get_elem? t.first_hop u
  some (record {
    dist = set t.dist v nd;
    first_hop = set t.first_hop v hop;
    heap = (nd, v) ∷ t.heap;
  })

-- The loop over the links out of `u`, which is at distance `d`.
unfoldable pub relax : ℕ → ℕ → ℕ → List (ℕ × ℕ) → Tree → Option Tree
relax src d u [] t = some t
relax src d u ((v, w) ∷ es) t = elim (get_elem? t.dist v) [
  | none ↦ none
  | some dv ↦ elim (ltb (sat_add32 d w) dv) [
    | false ↦ relax src d u es t
    | true ↦ improve src u v (sat_add32 d w) t >>= λ t'. relax src d u es t'
  ]
]

unfoldable pub run : ℕ → List (List (ℕ × ℕ)) → ℕ → Tree → Option Tree
run zero adj src t = none
run (suc fuel) adj src t = elim t.heap [
  | [] ↦ some t
  | x ∷ xs ↦
      let ((d, u), rest) = pop_from x xs in
      elim (get_elem? t.dist u) [
        | none ↦ none
        | some du ↦ elim (ltb du d) [
          | true ↦ run fuel adj src (record t { heap = rest })
          | false ↦ elim (get_elem? adj u) [
            | none ↦ none
            | some row ↦ relax src d u row (record t { heap = rest }) >>= λ t'. run fuel adj src t'
          ]
        ]
      ]
]

-- How many links the rows hold.
abbrev pub edges : List (List (ℕ × ℕ)) → ℕ
edges [] = 0
edges (row ∷ rows) = length row + edges rows

-- The entries of the nodes that are reached, but for the source.
abbrev pub table : ℕ → Tree → List ℕ → Option (List RouteEntry)
table src t [] = some []
table src t (d ∷ ds) = do
  metric ← get_elem? t.dist d
  hop ← get_elem? t.first_hop d
  later ← table src t ds
  some (
      if not (d == src) && not (metric == u32_max)
      then record { dest = d; next_hop = hop; metric = metric } ∷ later
      else later)

abbrev pub start_tree : ℕ → ℕ → Tree
start_tree n src = record {
  dist = set (replicate n u32_max) src 0;
  first_hop = replicate n no_hop;
  heap = (0, src) ∷ [];
}

unfoldable pub dijkstra_table : TopologyView → ℕ → Option (List RouteEntry)
dijkstra_table view src = elim (ltb src view.n) [
  | false ↦ none
  | true ↦ do
    t ← run (suc (suc (edges view.adj))) view.adj src (start_tree view.n src)
    table src t (range 0 view.n)
]

-- The tables of all nodes.
unfoldable pub tables_of : TopologyView → List ℕ → Option (List (List RouteEntry))
tables_of view [] = some []
tables_of view (u ∷ us) = do
  row ← dijkstra_table view u
  rows ← tables_of view us
  some (row ∷ rows)

-- `ShortestPath::compute`, and that of the protocols that converge to shortest paths.
unfoldable pub compute : TopologyView → Option (List (List RouteEntry))
compute view = tables_of view (range 0 view.n)
