-- ===== src/Topo/Connected.antt =====
-- Every generator makes a connected network.
use native.Mathlib.Nat.{div-add-mod', div-lt_iff_lt-mul, mod-lt}
use ndn_sim.Prelude.{
  ℕ, zero, suc, ◌+◌, ◌-◌, ◌*◌, ◌/◌, ◌%◌, ◌<◌, ◌≡◌, refl, subst, ◌⊎◌, inl, inr, List, [], ◌∷◌, In,
  here, In-append_left, In-append_right, In-map, In-range, In-for_each, range, length, arith,
  Bool-cases, leb, lt→ltb, ltb, if◌then◌else◌, max,
}
use ndn_sim.Topo.{Link, Scenario, link, line, ring, star, grid, grid_cell, full_mesh, tree}
use ndn_sim.Topo.Shape.{length-nodes, length-ring, parent_lt}

-- The link joins the two nodes, in either direction.
abbrev pub Touches : Link → ℕ → ℕ → Type 0
Touches l x y = ((l.a ≡ x) × (l.b ≡ y)) ⊎ ((l.a ≡ y) × (l.b ≡ x))

-- Nodes that a path of links joins to `x`.
pub data Reaches (ls : List Link) (x : ℕ) : ℕ → Type 0 where
  self : Reaches ls x x
  hop : {y z : ℕ} (l : Link) → Reaches ls x y → In l ls → Touches l y z → Reaches ls x z

abbrev pub IsConnected : Scenario → Type 0
IsConnected s = (v : ℕ) → v < length s.nodes → Reaches s.links 0 v

-- A network in which every node but the first has a link to an earlier one is connected.
from_parents :
    (ls : List Link) (n : ℕ) (p : ℕ → ℕ)
    → ((c : ℕ) → 0 < c → c < n → (p c < c) × (l : Link) × In l ls × Touches l (p c) c)
    → (k v : ℕ) → v < k
    → v < n
    → Reaches ls 0 v
from_parents ls n p up zero v h b = absurd (omega arith)
from_parents ls n p up (suc k) zero h b = self
from_parents ls n p up (suc k) (suc v) h b =
    let (lt, l, m, t) = up (suc v) (omega arith) b in
    hop l (from_parents ls n p up k (p (suc v)) (omega arith) (omega arith)) m t

-- The network is connected if every node but the first has a link to an earlier one.
IsConnected-of :
    (s : Scenario) (n : ℕ) (p : ℕ → ℕ)
    → length s.nodes ≡ n
    → ((c : ℕ) → 0 < c → c < n → (p c < c) × (l : Link) × In l s.links × Touches l (p c) c)
    → IsConnected s
IsConnected-of s n p e up v h = from_parents s.links n p up (suc v) v (omega arith) (omega arith)

line_up :
    (n c : ℕ) → 0 < c → c < n → (c - 1 < c) × (l : Link) × In l (line n).links × Touches l (c - 1) c
unfolding line
line_up n c h k = (
  omega arith,
  link (c - 1) c,
  In-map (λ i. link (i - 1) i) _ (In-range 1 (n - 1) c h (omega arith)),
  inl (refl, refl),
)

line-IsConnected : (n : ℕ) → IsConnected (line n)
unfolding line
line-IsConnected n = IsConnected-of (line n) n (λ c. c - 1) (length-nodes n) (line_up n)

ring-IsConnected : (n : ℕ) → IsConnected (ring n)
unfolding ring
ring-IsConnected n = elim (Bool-cases (leb 3 n)) [
  | inl e ↦
      IsConnected-of (ring n) n (λ c. c - 1) (length-ring n)
        λ c h k.
          let (lt, l, m, t) = line_up n c h k in
          (lt, l, rw e (In-append_left (line n).links _ m), t)
  | inr e ↦
      IsConnected-of (ring n) n (λ c. c - 1) (length-ring n)
        λ c h k. let (lt, l, m, t) = line_up n c h k in (lt, l, rw e m, t)
]

star-IsConnected : (n : ℕ) → IsConnected (star n)
unfolding star
star-IsConnected n =
    IsConnected-of (star n) n (λ c. 0) (length-nodes n)
      λ c h k. (
        h,
        link 0 c,
        In-map (λ i. link 0 i) _ (In-range 1 (n - 1) c h (omega arith)),
        inl (refl, refl),
      )

mesh-IsConnected : (n : ℕ) → IsConnected (full_mesh n)
unfolding full_mesh
mesh-IsConnected n =
    IsConnected-of (full_mesh n) n (λ c. 0) (length-nodes n)
      λ c h k. (
        h,
        link 0 c,
        In-for_each (range 0 n) _ (In-range 0 n 0 (omega arith) (omega arith))
            (In-map (link 0) _ (In-range (0 + 1) (n - (0 + 1)) c (omega arith) (omega arith))),
        inl (refl, refl),
      )

tree-IsConnected : (branching depth : ℕ) → IsConnected (tree branching depth)
unfolding tree
tree-IsConnected branching depth =
    IsConnected-of (tree branching depth) _ (λ c. (c - 1) / max branching 1) (length-nodes _)
      λ c h k. (
        parent_lt c branching h,
        link ((c - 1) / max branching 1) c,
        In-map (λ c. link ((c - 1) / max branching 1) c) _ (In-range 1 _ c h (omega arith)),
        inl (refl, refl),
      )

-- The cell before in the row, or the one above in the first column.
above : ℕ → ℕ → ℕ → ℕ
above cols zero zero = 0
above cols (suc r) zero = r * cols
above cols r (suc j) = r * cols + j

cell_right :
    (rows cols r c : ℕ)
    → c + 1 < cols
    → In (link (r * cols + c) (r * cols + (c + 1))) (grid_cell rows cols r c)
unfolding grid_cell
cell_right rows cols r c h = rw (lt→ltb _ _ h) (here refl)

cell_down :
    (rows cols r c : ℕ)
    → r + 1 < rows
    → In (link (r * cols + c) ((r + 1) * cols + c)) (grid_cell rows cols r c)
unfolding grid_cell
cell_down rows cols r c h = rw (lt→ltb _ _ h) (
    In-append_right (if ltb (c + 1) cols then link _ (r * cols + (c + 1)) ∷ [] else []) _
      (here refl))

grid_up :
    (rows cols r j : ℕ)
    → r < rows
    → j < cols
    → 0 < r * cols + j
    → (above cols r j < r * cols + j)
      × (l : Link) × In l (grid rows cols).links
      × Touches l (above cols r j) (r * cols + j)
unfolding grid above
grid_up rows cols zero zero h k pos = absurd (omega arith)
grid_up rows cols (suc r) zero h k pos = (
  omega arith,
  link (r * cols + 0) ((r + 1) * cols + 0),
  In-for_each (range 0 rows) _ (In-range 0 rows r (omega arith) (omega arith)) (
      In-for_each (range 0 cols) _ (In-range 0 cols 0 (omega arith) (omega arith))
        (cell_down rows cols r 0 (omega arith))),
  inl (omega arith, omega arith),
)
grid_up rows cols r (suc j) h k pos = (
  omega arith,
  link (r * cols + j) (r * cols + (j + 1)),
  In-for_each (range 0 rows) _ (In-range 0 rows r (omega arith) (omega arith)) (
      In-for_each (range 0 cols) _ (In-range 0 cols j (omega arith) (omega arith))
        (cell_right rows cols r j (omega arith))),
  inl (refl, omega arith),
)

grid-IsConnected : (rows cols : ℕ) → IsConnected (grid rows cols)
unfolding grid
grid-IsConnected rows cols =
    IsConnected-of (grid rows cols) (rows * cols) (λ c. above cols (c / cols) (c % cols))
      (length-nodes _)
      λ c h k.
        let wide : 0 < cols = grind arith in
        let split : c / cols * cols + c % cols ≡ c = div-add-mod' c cols in
        let row : c / cols < rows = (div-lt_iff_lt-mul wide).1 k in
        subst
          (λ x.
            (above cols (c / cols) (c % cols) < x)
            × (l : Link) × In l (grid rows cols).links
            × Touches l (above cols (c / cols) (c % cols)) x)
          split (grid_up rows cols (c / cols) (c % cols) row (mod-lt c wide) (rw split h))

-- Every node of a generated network can be reached from node 0 over its links.
pub generators-IsConnected :
    (n rows cols branching depth : ℕ)
    → IsConnected (line n)
      × IsConnected (ring n)
      × IsConnected (star n)
      × IsConnected (grid rows cols)
      × IsConnected (full_mesh n)
      × IsConnected (tree branching depth)
generators-IsConnected n rows cols branching depth = (
  line-IsConnected n,
  ring-IsConnected n,
  star-IsConnected n,
  grid-IsConnected rows cols,
  mesh-IsConnected n,
  tree-IsConnected branching depth,
)
