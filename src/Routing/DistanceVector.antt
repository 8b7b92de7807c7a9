-- ===== src/Routing/DistanceVector.antt =====
-- `DistanceVector::compute` of crates/ndn-sim-studies/src/routing.rs. An index out of range, a panic
-- there, is `none`.
mod Grid
mod Sound
mod Rounds
mod Simple
mod Known
mod Least
mod Agree
mod Examples
use ndn_sim.Prelude.{
  ℕ, zero, suc, Bool, true, false, not, ◌&&◌, List, [], ◌∷◌, map, Option, none, some, ◌>>=◌,
  if◌then◌else◌, ◌==◌, ltb, get_elem?, set, range,
}
use ndn_sim.Routing.{TopologyView}
use ndn_sim.Routing.Dijkstra.{u32_max, sat_add32, no_hop, replicate, RouteEntry}

pub record Vectors : Type 0 where
  pub dist : List (List ℕ)
  pub next : List (List ℕ)
  pub changed : Bool

-- `m[u][d]`, and `m[u][d] = x`.
abbrev pub cell : List (List ℕ) → ℕ → ℕ → Option ℕ
cell m u d = get_elem? m u >>= λ row. get_elem? row d

abbrev pub put : List (List ℕ) → ℕ → ℕ → ℕ → Option (List (List ℕ))
put m u d x = do row ← get_elem? m u; old ← get_elem? row d; some (set m u (set row d x))

abbrev pub loop_over {ℓ κ} : {A : Type ℓ} {S : Type κ} → (A → S → Option S) → List A → S → Option S
loop_over f [] s = some s
loop_over f (x ∷ xs) s = f x s >>= λ s'. loop_over f xs s'

-- The way from `u` to `d` by the neighbour `v`.
unfoldable pub consider : ℕ → ℕ → ℕ → ℕ → ℕ → Vectors → Option Vectors
consider max_metric u v w d s = do
  dv ← cell s.dist v d
  elim (dv == u32_max) [
    | true ↦ some s
    | false ↦ cell s.dist u d >>= λ du.
        elim (ltb (sat_add32 w dv) max_metric && ltb (sat_add32 w dv) du) [
          | false ↦ some s
          | true ↦ put s.dist u d (sat_add32 w dv) >>= λ dist. put s.next u d v >>= λ next.
              some (record { dist = dist; next = next; changed = true })
        ]
  ]

unfoldable pub neighbour : ℕ → ℕ → ℕ → ℕ × ℕ → Vectors → Option Vectors
neighbour max_metric n u e s = loop_over (λ d. consider max_metric u e.0 e.1 d) (range 0 n) s

unfoldable pub node_round : ℕ → TopologyView → ℕ → Vectors → Option Vectors
node_round max_metric view u s =
    get_elem? view.adj u >>= λ row. loop_over (neighbour max_metric view.n u) row s

unfoldable pub round : ℕ → TopologyView → Vectors → Option Vectors
round max_metric view s =
    loop_over (node_round max_metric view) (range 0 view.n) (record s { changed = false })

-- `for _ in 0..n`.
unfoldable pub rounds : ℕ → ℕ → TopologyView → Vectors → Option Vectors
rounds zero max_metric view s = some s
rounds (suc k) max_metric view s = round max_metric view s >>= λ s'. elim s'.changed [
  | false ↦ some s'
  | true ↦ rounds k max_metric view s'
]

abbrev pub start_vectors : ℕ → Vectors
start_vectors n = record {
  dist = map (λ u. set (replicate n u32_max) u 0) (range 0 n);
  next = map (λ u. replicate n no_hop) (range 0 n);
  changed = false;
}

-- The rows of node `u` for the nodes `ds`.
abbrev pub vector_row : Vectors → ℕ → List ℕ → Option (List RouteEntry)
vector_row s u [] = some []
vector_row s u (d ∷ ds) = do
  hop ← cell s.next u d
  metric ← cell s.dist u d
  later ← vector_row s u ds
  some (
      if not (d == u) && not (hop == no_hop)
      then record { dest = d; next_hop = hop; metric = metric } ∷ later
      else later)

abbrev pub vector_rows : Vectors → ℕ → List ℕ → Option (List (List RouteEntry))
vector_rows s n [] = some []
vector_rows s n (u ∷ us) = do
  row ← vector_row s u (range 0 n)
  rows ← vector_rows s n us
  some (row ∷ rows)

unfoldable pub distance_vector : ℕ → TopologyView → Option (List (List RouteEntry))
distance_vector max_metric view = do
  s ← rounds view.n max_metric view (start_vectors view.n)
  vector_rows s view.n (range 0 view.n)
