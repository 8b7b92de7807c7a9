-- ===== src/Topo.antt =====
-- The topology generators of crates/ndn-sim/src/topo.rs.
--
-- Of a `Scenario` the generators write the kernel, the nodes, the links and the routes; the rest
-- is its default. A node's label `n{i}` is given by its number `i`. Indices are unbounded, but the
-- node count of a tree, which is computed by doubling, wraps and saturates at 64 bits.
pub mod Shape
pub mod Count
pub mod Connected
pub mod Routes
pub mod Random
mod Examples
use ndn_sim.Prelude.{
  ℕ, zero, suc, ◌+◌, ◌-◌, ◌*◌, ◌/◌, List, [], ◌∷◌, ◌++◌, map, Option, none, some, if◌then◌else◌,
  ltb, leb, max, range, for_each, u64, sat_mul,
}

-- The kernel a scenario runs on; the generators choose the deterministic one.
pub data Kernel : Type 0 where
  des : Option ℕ → Kernel
  other_kernel : Kernel

pub record Node : Type 0 where
  pub label : Option ℕ

pub record Link : Type 0 where
  pub a : ℕ
  pub b : ℕ
  pub delay_ms : ℕ

-- A prefix is the code points of its text.
pub record Route : Type 0 where
  pub node : ℕ
  pub prefix : List ℕ
  pub nexthop : ℕ

pub record Scenario : Type 0 where
  pub kernel : Kernel
  pub nodes : List Node
  pub links : List Link
  pub routes : List Route

pub nodes : ℕ → Scenario
nodes n = record {
  kernel = des none;
  nodes = map (λ i. record { label = some i }) (range 0 n);
  links = [];
  routes = [];
}

-- A 1 ms wired link.
abbrev pub link : ℕ → ℕ → Link
link a b = record { a = a; b = b; delay_ms = 1 }

pub line : ℕ → Scenario
line n = record (nodes n) { links = map (λ i. link (i - 1) i) (range 1 (n - 1)) }

pub ring : ℕ → Scenario
ring n =
    let s = line n in if leb 3 n then record s { links = s.links ++ link (n - 1) 0 ∷ [] } else s

pub star : ℕ → Scenario
star n = record (nodes n) { links = map (λ i. link 0 i) (range 1 (n - 1)) }

-- The links that the inner loop of `grid` pushes at row `r` and column `c`.
pub grid_cell : ℕ → ℕ → ℕ → ℕ → List Link
grid_cell rows cols r c =
    (if ltb (c + 1) cols then link (r * cols + c) (r * cols + (c + 1)) ∷ [] else [])
    ++ (if ltb (r + 1) rows then link (r * cols + c) ((r + 1) * cols + c) ∷ [] else [])

pub grid : ℕ → ℕ → Scenario
grid rows cols = record (nodes (rows * cols)) {
  links = for_each (range 0 rows) (λ r. for_each (range 0 cols) (grid_cell rows cols r));
}

pub full_mesh : ℕ → Scenario
full_mesh n = record (nodes n) {
  links = for_each (range 0 n) (λ a. map (link a) (range (a + 1) (n - (a + 1))));
}

-- The loop of `tree` over its levels: the nodes so far, and the size of the next level.
pub tree_count : ℕ → ℕ → ℕ → ℕ → ℕ
tree_count branching zero count level = count
tree_count branching (suc levels) count level =
    tree_count branching levels (u64 (count + level)) (sat_mul level branching)

pub tree : ℕ → ℕ → Scenario
tree branching depth =
    let k = max branching 1 in
    let count = tree_count k (suc depth) 0 1 in
    record (nodes count) { links = map (λ c. link ((c - 1) / k) c) (range 1 (count - 1)) }
