-- ===== src/Topo/Count.antt =====
-- How many nodes and links the generators make.
use native.Mathlib.Numerals.{sub-one}
use ndn_sim.Prelude.{
  ℕ, zero, suc, ◌+◌, ◌-◌, ◌*◌, ◌/◌, ◌≤◌, ◌≡◌, ap, ◌∙◌, [], ◌∷◌, map, length, length-append,
  length-map, length-range, range, for_each, arith, ltb, if◌then◌else◌, max, u64_max, u64, sat_mul,
  Bool-cases, inl, inr,
}
use ndn_sim.Topo.{link, line, ring, star, grid, grid_cell, full_mesh, tree, tree_count}
use ndn_sim.Topo.Shape.{length-nodes}

length-line : (n : ℕ) → length (line n).links ≡ n - 1
unfolding line
length-line n = length-map (range 1 (n - 1)) _ ∙ length-range 1 (n - 1)

length-ring : (n : ℕ) → 3 ≤ n → length (ring n).links ≡ n
unfolding ring
length-ring n h = ground (arith, length-line n, length-append (line n).links (link (n - 1) 0 ∷ []))

length-star : (n : ℕ) → length (star n).links ≡ n - 1
unfolding star
length-star n = length-map (range 1 (n - 1)) _ ∙ length-range 1 (n - 1)

-- The links that one row of `grid` pushes.
grid_row :
    (rows cols r : ℕ) (k c : ℕ)
    → c + k ≡ cols
    → length (for_each (range c k) (grid_cell rows cols r))
      ≡ (k - 1) + (if ltb (r + 1) rows then k else 0)
unfolding grid_cell
grid_row rows cols r zero c h = ground arith
grid_row rows cols r (suc k) c h = ground (
  arith,
  grid_row rows cols r k (suc c),
  length-append (grid_cell rows cols r c) (for_each (range (suc c) k) (grid_cell rows cols r)),
)

grid_sum :
    (rows cols k r : ℕ)
    → r + suc k ≡ rows
    → cols - 1 + (if ltb (r + 1) rows then cols else 0) + (k * (cols - 1) + (k - 1) * cols)
      ≡ suc k * (cols - 1) + (suc k - 1) * cols
grid_sum rows cols zero r h = elim (Bool-cases (ltb (r + 1) rows)) [
  | inl e ↦ absurd (ground arith)
  | inr e ↦ rw e (simp sub-one (omega arith))
]
grid_sum rows cols (suc k) r h = elim (Bool-cases (ltb (r + 1) rows)) [
  | inl e ↦ rw e (simp sub-one (omega arith))
  | inr e ↦ absurd (ground arith)
]

grid_rows :
    (rows cols k r : ℕ)
    → r + k ≡ rows
    → length (for_each (range r k) (λ r. for_each (range 0 cols) (grid_cell rows cols r)))
      ≡ k * (cols - 1) + (k - 1) * cols
grid_rows rows cols zero r h = omega arith
grid_rows rows cols (suc k) r h =
    let row = for_each (range 0 cols) (grid_cell rows cols r) in
    let rest = for_each (range (suc r) k) (λ r. for_each (range 0 cols) (grid_cell rows cols r)) in
    rw (length-append row rest) (
      rw (grid_row rows cols r cols 0 (omega arith), grid_rows rows cols k (suc r) (omega arith))
        (grid_sum rows cols k r h))

mesh_sum :
    (k row rest : ℕ) {both : ℕ}
    → row ≡ k
    → 2 * rest ≡ k * (k - 1)
    → both ≡ row + rest
    → 2 * both ≡ suc k * (suc k - 1)
mesh_sum zero row rest e h b = omega arith
mesh_sum (suc k) row rest e h b =
    let h' : 2 * rest ≡ suc k * k = simp sub-one at h in simp sub-one (omega arith)

-- Twice the links of the rows from `a` on.
mesh_rows :
    (n k a : ℕ)
    → a + k ≡ n
    → 2 * length (for_each (range a k) (λ a. map (link a) (range (a + 1) (n - (a + 1)))))
      ≡ k * (k - 1)
mesh_rows n zero a h = omega arith
mesh_rows n (suc k) a h =
    let row = map (link a) (range (a + 1) (n - (a + 1))) in
    let rest = for_each (range (suc a) k) (λ a. map (link a) (range (a + 1) (n - (a + 1)))) in
    let size : length row ≡ k =
      length-map (range (a + 1) (n - (a + 1))) (link a) ∙ length-range (a + 1) _ ∙ omega arith in
    mesh_sum k (length row) (length rest) size (mesh_rows n k (suc a) (omega arith))
      (length-append row rest)

-- 1 + b + b ^ 2 + … with `k` terms.
abbrev pub geometric : ℕ → ℕ → ℕ
geometric b zero = 0
geometric b (suc k) = 1 + b * geometric b k

-- The next level does not saturate, unless the loop has ended.
saturation :
    (b k count level : ℕ)
    → count + level * geometric b (suc k) ≤ u64_max
    → sat_mul level b * geometric b k ≡ level * b * geometric b k
saturation b zero count level h = omega arith
saturation b (suc k) count level h =
    let fits : level * b ≤ u64_max = grind arith in
    let same : sat_mul level b ≡ level * b = omega arith in rw same

tree_count-geometric :
    (b k count level : ℕ)
    → count + level * geometric b k ≤ u64_max
    → tree_count b k count level ≡ count + level * geometric b k
unfolding tree_count
tree_count-geometric b zero count level h = omega arith
tree_count-geometric b (suc k) count level h =
    let sum : u64 (count + level) ≡ count + level = grind arith in
    let next = saturation b k count level h in
    rw sum (
      tree_count-geometric b k (count + level) (sat_mul level b) (rw next (grind arith))
      ∙ ap (λ (t : ℕ). count + level + t) next
      ∙ grind arith)

-- The counts of the generators: a chain and a star of n nodes have n - 1 links, a ring of three or
-- more has n, a grid has its rows' and its columns' links, a full mesh has n (n - 1) / 2, and a
-- complete tree has 1 + b + … + b^depth nodes and one link fewer, while its node count fits 64 bits.
pub generators_count :
    (n rows cols branching depth : ℕ)
    → 3 ≤ n
    → geometric (max branching 1) (suc depth) ≤ u64_max
    → (length (line n).links ≡ n - 1)
      × (length (ring n).links ≡ n)
      × (length (star n).links ≡ n - 1)
      × (length (grid rows cols).links ≡ rows * (cols - 1) + (rows - 1) * cols)
      × (2 * length (full_mesh n).links ≡ n * (n - 1))
      × (length (tree branching depth).nodes ≡ geometric (max branching 1) (suc depth))
      × (length (tree branching depth).links + 1 ≡ length (tree branching depth).nodes)
unfolding grid full_mesh tree
generators_count n rows cols branching depth h fits =
    let size = tree_count-geometric (max branching 1) (suc depth) 0 1 (omega arith) in
    let count = length-nodes (tree_count (max branching 1) (suc depth) 0 1) in
    (
      length-line n,
      length-ring n h,
      length-star n,
      grid_rows rows cols rows 0 (omega arith),
      mesh_rows n n 0 (omega arith),
      omega (arith, size, count),
      omega (
        arith,
        size,
        count,
        length-map (range 1 (tree_count (max branching 1) (suc depth) 0 1 - 1))
            (λ c. link ((c - 1) / max branching 1) c),
        length-range 1 (tree_count (max branching 1) (suc depth) 0 1 - 1),
      ),
    )
