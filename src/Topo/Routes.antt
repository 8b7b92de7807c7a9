-- ===== src/Topo/Routes.antt =====
-- `add_routes_toward` of crates/ndn-sim/src/topo.rs: a breadth-first search from the destination
-- that installs a route at every node it reaches. An index out of range, a panic there, is `none`,
-- and so is fuel that has run out.
mod Search
mod Reach
mod Loop
mod Shortest
mod Examples
use Prim.Native.Nat.{compare}
use ndn_sim.Prelude.{
  ℕ, zero, suc, Bool, true, false, List, [], ◌∷◌, ◌++◌, map, Option, none, some, ◌>>=◌,
  if◌then◌else◌, ◌==◌, leb, length, get_elem?, set, sort_by, lex,
}
use Prim.Native.Nat.{Ordering}
use ndn_sim.Topo.{Link, Scenario, Route}

-- What a link adds to `adj[u]`.
abbrev pub ends : Link → ℕ → List ℕ
ends l u = (if l.a == u then l.b ∷ [] else []) ++ (if l.b == u then l.a ∷ [] else [])

-- `adj[u]`: the other ends of the links at `u`, in the order of the links.
abbrev pub adjacency : List Link → ℕ → List ℕ
adjacency [] u = []
adjacency (l ∷ ls) u = ends l u ++ adjacency ls u

pub record Bfs : Type 0 where
  pub seen : List Bool
  pub next_hop : List (ℕ × ℕ)
  pub queue : List ℕ

-- `vec![false; n]`.
abbrev pub replicate : ℕ → List Bool
replicate zero = []
replicate (suc n) = false ∷ replicate n

abbrev pub begin : ℕ → ℕ → Bfs
begin n dest = record { seen = set (replicate n) dest true; next_hop = []; queue = dest ∷ [] }

-- A node that is seen for the first time, from `u`.
abbrev pub reach : ℕ → ℕ → Bfs → Bfs
reach u w b = record {
  seen = set b.seen w true;
  next_hop = b.next_hop ++ (w, u) ∷ [];
  queue = b.queue ++ w ∷ [];
}

-- The loop over the neighbours of `u`.
unfoldable pub visit : ℕ → List ℕ → Bfs → Option Bfs
visit u [] b = some b
visit u (w ∷ ws) b = elim (get_elem? b.seen w) [
  | none ↦ none
  | some true ↦ visit u ws b
  | some false ↦ visit u ws (reach u w b)
]

unfoldable pub search : ℕ → List Link → Bfs → Option Bfs
search zero links b = none
search (suc fuel) links b = elim b.queue [
  | [] ↦ some b
  | u ∷ rest ↦ do b' ← visit u (adjacency links u) (record b { queue = rest }); search fuel links b'
]

-- The key of the sort.
abbrev pub compare_routes : Route → Route → Ordering
compare_routes r q = lex (compare r.node q.node) (compare r.nexthop q.nexthop)

abbrev pub route : List ℕ → ℕ × ℕ → Route
route prefix (v, u) = record { node = v; prefix = prefix; nexthop = u }

-- The map `next_hop` gives its entries in an order that is not specified, `iterate`.
unfoldable pub add_routes_toward :
    (List (ℕ × ℕ) → List (ℕ × ℕ)) → Scenario → List ℕ → ℕ → Option Scenario
add_routes_toward iterate s prefix dest =
    let n = length s.nodes in
    if leb n dest
    then some s
    else search (suc (suc n)) s.links (begin n dest) >>= λ b. some (record s {
      routes = sort_by compare_routes (s.routes ++ map (route prefix) (iterate b.next_hop));
    })
