-- ===== src/Routing.antt =====
-- crates/ndn-sim-studies/src/routing.rs: the view of a topology and the multipoint relays, `mpr_set`;
-- Dijkstra and DistanceVector have the protocols of those names. An index out of range, a panic
-- there, is `none`, and so is fuel that has run out. A hash set is the list of its members.
mod Choice
mod TwoHop
mod Cover
mod Examples
pub mod View
pub mod Dijkstra
pub mod DistanceVector
use Prim.Native.Nat.{compare, Ordering}
use ndn_sim.Prelude.{
  ℕ, zero, suc, Bool, true, false, not, ◌&&◌, ◌||◌, List, [], ◌∷◌, ◌++◌, map, Option, none, some,
  ◌>>=◌, if◌then◌else◌, ◌==◌, length, get_elem?, set, lex,
}

-- A row is the neighbours of a node with the cost of the link to each.
pub record TopologyView : Type 0 where
  pub n : ℕ
  pub adj : List (List (ℕ × ℕ))

-- `adj[a].push(e)`.
unfoldable pub push_edge : ℕ → ℕ × ℕ → List (List (ℕ × ℕ)) → Option (List (List (ℕ × ℕ)))
push_edge a e adj = do row ← get_elem? adj a; some (set adj a (row ++ e ∷ []))

unfoldable pub push_links : List (ℕ × ℕ) → List (List (ℕ × ℕ)) → Option (List (List (ℕ × ℕ)))
push_links [] adj = some adj
push_links ((a, b) ∷ links) adj = do
  adj1 ← push_edge a (b, 1) adj
  adj2 ← push_edge b (a, 1) adj1
  push_links links adj2

abbrev pub empty_rows : ℕ → List (List (ℕ × ℕ))
empty_rows zero = []
empty_rows (suc n) = [] ∷ empty_rows n

unfoldable pub from_links : ℕ → List (ℕ × ℕ) → Option TopologyView
from_links n links = do adj ← push_links links (empty_rows n); some (record { n = n; adj = adj })

abbrev pub in_set : ℕ → List ℕ → Bool
in_set w [] = false
in_set w (x ∷ xs) = (x == w) || in_set w xs

-- `HashSet::insert`.
abbrev pub insert_set : ℕ → List ℕ → List ℕ
insert_set w s = if in_set w s then s else w ∷ s

abbrev pub filter : (ℕ → Bool) → List ℕ → List ℕ
filter f [] = []
filter f (x ∷ xs) = if f x then x ∷ filter f xs else filter f xs

-- `HashSet::remove`, for each of a list.
abbrev pub remove_all : List ℕ → List ℕ → List ℕ
remove_all ws s = filter (λ x. not (in_set x ws)) s

-- The neighbours of a node whose row has been read before.
abbrev pub neighbours : List (List (ℕ × ℕ)) → ℕ → List ℕ
neighbours adj v = elim (get_elem? adj v) [ none ↦ [] | some row ↦ map (λ e. e.0) row ]

-- The two-hop neighbours that one row adds.
abbrev pub add_two_hop : ℕ → List ℕ → List ℕ → List ℕ → List ℕ
add_two_hop u n1 [] n2 = n2
add_two_hop u n1 (w ∷ ws) n2 =
    add_two_hop u n1 ws (if not (w == u) && not (in_set w n1) then insert_set w n2 else n2)

unfoldable pub two_hop : List (List (ℕ × ℕ)) → ℕ → List ℕ → List ℕ → List ℕ → Option (List ℕ)
two_hop adj u n1 [] n2 = some n2
two_hop adj u n1 (v ∷ vs) n2 = elim (get_elem? adj v) [
  | none ↦ none
  | some row ↦ two_hop adj u n1 vs (add_two_hop u n1 (map (λ e. e.0) row) n2)
]

abbrev pub covers : List (List (ℕ × ℕ)) → List ℕ → ℕ → ℕ
covers adj target v = length (filter (λ w. in_set w target) (neighbours adj v))

-- `max_by`: of two that compare equal the later one.
abbrev pub max_from : (ℕ → ℕ → Ordering) → ℕ → List ℕ → ℕ
max_from cmp x [] = x
max_from cmp x (y ∷ ys) = max_from cmp (elim (cmp x y) [ Ordering.gt ↦ x | _ ↦ y ]) ys

abbrev pub max_by : (ℕ → ℕ → Ordering) → List ℕ → Option ℕ
max_by cmp [] = none
max_by cmp (x ∷ xs) = some (max_from cmp x xs)

abbrev pub compare_cover : List (List (ℕ × ℕ)) → List ℕ → ℕ → ℕ → Ordering
compare_cover adj uncovered a b =
    lex (compare (covers adj uncovered a) (covers adj uncovered b)) (compare b a)

-- The greedy loop.
unfoldable pub relays : ℕ → List (List (ℕ × ℕ)) → List ℕ → List ℕ → List ℕ → Option (List ℕ)
relays zero adj n1 uncovered mprs = none
relays (suc fuel) adj n1 [] mprs = some mprs
relays (suc fuel) adj n1 (w ∷ ws) mprs =
    elim (max_by (compare_cover adj (w ∷ ws)) (filter (λ v. not (in_set v mprs)) n1)) [
      | none ↦ some mprs
      | some best ↦ elim (covers adj (w ∷ ws) best) [
        | zero ↦ some mprs
        | suc k ↦ relays fuel adj n1 (remove_all (neighbours adj best) (w ∷ ws)) (mprs ++ best ∷ [])
      ]
    ]

unfoldable pub mpr_set : TopologyView → ℕ → Option (List ℕ)
mpr_set view u = do
  row ← get_elem? view.adj u
  n2 ← two_hop view.adj u (map (λ e. e.0) row) (map (λ e. e.0) row) []
  relays (suc (length n2)) view.adj (map (λ e. e.0) row) n2 []
