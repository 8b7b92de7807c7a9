-- ===== src/Topo/Shape.antt =====
-- Every link that a generator makes joins two different nodes of the scenario.
use native.Mathlib.Nat.{div-le_self}
use ndn_sim.Prelude.{
  ℕ, ◌+◌, ◌-◌, ◌*◌, ◌/◌, ◌<◌, ◌≡◌, ◌∙◌, ◌≢◌, map, All, All-append, All-map-range,
  All-for_each-range, length, length-map, length-range, range, arith, leb, max, Bool-cases, inl,
  inr,
}
use ndn_sim.Topo.{Link, Scenario, nodes, link, line, ring, star, grid, grid_cell, full_mesh, tree}

-- A link between two different nodes below `n`.
abbrev pub Joins : ℕ → Link → Type 0
Joins n l = (l.a < n) × (l.b < n) × (l.a ≢ l.b)

abbrev pub IsSound : Scenario → Type 0
IsSound s = All (Joins (length s.nodes)) s.links

pub length-nodes : (n : ℕ) → length (nodes n).nodes ≡ n
unfolding nodes
length-nodes n = length-map (range 0 n) _ ∙ length-range 0 n

line-Joins : (n : ℕ) → All (Joins n) (line n).links
unfolding line
line-Joins n =
    All-map-range (Joins n) _ 1 (n - 1) (λ i l u. (omega arith, omega arith, omega arith))

ring-Joins : (n : ℕ) → All (Joins n) (ring n).links
unfolding ring
ring-Joins n = elim (Bool-cases (leb 3 n)) [
  | inl e ↦ rw e (
      All-append (Joins n) (line n).links _ (line-Joins n)
        ((ground arith, ground arith, ground arith), tt))
  | inr e ↦ rw e (line-Joins n)
]

star-Joins : (n : ℕ) → All (Joins n) (star n).links
unfolding star
star-Joins n =
    All-map-range (Joins n) _ 1 (n - 1) (λ i l u. (omega arith, omega arith, omega arith))

pub cell_below : (r c rows cols : ℕ) → r < rows → c < cols → r * cols + c < rows * cols
cell_below r c rows cols h k = grind arith

next_row : (r c cols : ℕ) → c < cols → r * cols + c < (r + 1) * cols + c
next_row r c cols k = grind arith

grid_cell-Joins :
    (rows cols r c : ℕ) → r < rows → c < cols → All (Joins (rows * cols)) (grid_cell rows cols r c)
unfolding grid_cell
grid_cell-Joins rows cols r c h k = ground (
  arith,
  cell_below r c rows cols h k,
  cell_below r (c + 1) rows cols h,
  cell_below (r + 1) c rows cols,
  next_row r c cols k,
)

full_mesh-Joins : (n : ℕ) → All (Joins n) (full_mesh n).links
unfolding full_mesh
full_mesh-Joins n = All-for_each-range (Joins n) _ 0 n λ a _ h.
    All-map-range (Joins n) (link a) (a + 1) (n - (a + 1))
      λ b l u. (omega arith, omega arith, omega arith)

-- The parent of a node comes before it.
pub parent_lt : (c k : ℕ) → 0 < c → (c - 1) / max k 1 < c
parent_lt c k h = omega (arith, div-le_self (c - 1) (max k 1))

pub length-ring : (n : ℕ) → length (ring n).nodes ≡ n
unfolding ring line
length-ring n = ground (arith, length-nodes n)

IsSound-of : (n : ℕ) (s : Scenario) → length s.nodes ≡ n → All (Joins n) s.links → IsSound s
IsSound-of n s e h = rw e h

tree-Joins : (n k : ℕ) → All (Joins n) (map (λ c. link ((c - 1) / max k 1) c) (range 1 (n - 1)))
tree-Joins n k =
    All-map-range (Joins n) _ 1 (n - 1)
      λ c l u. let p = parent_lt c k l in (omega arith, omega arith, omega arith)

-- No generator makes a link to a node that is not there, or from a node to itself.
pub generators-IsSound :
    (n rows cols branching depth : ℕ)
    → IsSound (line n)
      × IsSound (ring n)
      × IsSound (star n)
      × IsSound (grid rows cols)
      × IsSound (full_mesh n)
      × IsSound (tree branching depth)
unfolding line star grid full_mesh tree
generators-IsSound n rows cols branching depth = (
  IsSound-of n (line n) (length-nodes n) (line-Joins n),
  IsSound-of n (ring n) (length-ring n) (ring-Joins n),
  IsSound-of n (star n) (length-nodes n) (star-Joins n),
  IsSound-of (rows * cols) (grid rows cols) (length-nodes _) (
      All-for_each-range (Joins (rows * cols)) _ 0 rows λ r _ h.
        All-for_each-range (Joins (rows * cols)) (grid_cell rows cols r) 0 cols
          λ c _ k. grid_cell-Joins rows cols r c (omega arith) (omega arith)),
  IsSound-of n (full_mesh n) (length-nodes n) (full_mesh-Joins n),
  IsSound-of _ (tree branching depth) (length-nodes _) (tree-Joins _ branching),
)
