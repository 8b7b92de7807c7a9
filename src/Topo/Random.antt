-- ===== src/Topo/Random.antt =====
-- `random` of crates/ndn-sim/src/topo.rs with its generator of numbers and its union-find. An index
-- out of range, a panic there, is `none`, and so is fuel that has run out.
mod Forest
mod Find
mod Joined
mod Examples
use Prim.Native.Nat.{bit_xor}
use ndn_sim.Prelude.{
  ℕ, zero, suc, ◌+◌, ◌-◌, ◌*◌, ◌/◌, Bool, true, false, List, [], ◌∷◌, ◌++◌, map, Option, none, some,
  ◌>>=◌, ◌==◌, length, get_elem?, set, range, for_each, u64,
}
use ndn_sim.Topo.{Link, Scenario, nodes, link}

abbrev golden : ℕ
golden = 0x9e3779b97f4a7c15

-- `SplitMix64::next_u64`: the state after it and the number.
unfoldable pub next_u64 : ℕ → ℕ × ℕ
next_u64 state =
    let s = u64 (state + golden) in
    let y = u64 (bit_xor s (s / 1073741824) * 0xbf58476d1ce4e5b9) in
    let z = u64 (bit_xor y (y / 134217728) * 0x94d049bb133111eb) in (s, bit_xor z (z / 2147483648))

-- The first loop of `find`.
unfoldable pub root : ℕ → List ℕ → ℕ → Option ℕ
root zero parent r = none
root (suc fuel) parent r = elim (get_elem? parent r) [
  | none ↦ none
  | some q ↦ elim (q == r) [ true ↦ some r | false ↦ root fuel parent q ]
]

-- The second loop of `find`, from `c` to the root `r`.
unfoldable pub compress : ℕ → List ℕ → ℕ → ℕ → Option (List ℕ)
compress zero parent r c = none
compress (suc fuel) parent r c = elim (get_elem? parent c) [
  | none ↦ none
  | some next ↦ elim (next == r) [
    | true ↦ some parent
    | false ↦ compress fuel (set parent c r) r next
  ]
]

unfoldable pub find : List ℕ → ℕ → Option (ℕ × List ℕ)
find parent x = do
  r ← root (suc (length parent)) parent x
  parent' ← compress (suc (length parent)) parent r x
  some (r, parent')

unfoldable pub union : List ℕ → ℕ → ℕ → Option (List ℕ)
union parent a b = do
  (ra, parent1) ← find parent a
  (rb, parent2) ← find parent1 b
  elim (ra == rb) [ true ↦ some parent2 | false ↦ some (set parent2 ra rb) ]

pub record Growing : Type 0 where
  pub rng : ℕ
  pub links : List Link
  pub parent : List ℕ

-- A draw is the 53 bits of `next_f64`; `below` is its comparison with the probability, in floating
-- point.
unfoldable pub try_edge : (ℕ → Bool) → ℕ × ℕ → Growing → Option Growing
try_edge below (a, b) g =
    let (state, z) = next_u64 g.rng in
    elim (below (z / 2048)) [
      | false ↦ some (record g { rng = state })
      | true ↦ union g.parent a b >>= λ parent.
          some (record { rng = state; links = g.links ++ link a b ∷ []; parent = parent })
    ]

unfoldable pub try_edges : (ℕ → Bool) → List (ℕ × ℕ) → Growing → Option Growing
try_edges below [] g = some g
try_edges below (e ∷ es) g = do g' ← try_edge below e g; try_edges below es g'

-- `for a in 0..n { for b in (a + 1)..n`.
abbrev pub pairs : ℕ → List (ℕ × ℕ)
pairs n = for_each (range 0 n) (λ a. map (λ b. (a, b)) (range (a + 1) (n - (a + 1))))

unfoldable pub join : ℕ → Growing → Option Growing
join v g = do
  (rv, parent1) ← find g.parent v
  (r0, parent2) ← find parent1 0
  elim (rv == r0) [
    | true ↦ some (record g { parent = parent2 })
    | false ↦ union parent2 0 v >>= λ parent3.
        some (record g { links = g.links ++ link 0 v ∷ []; parent = parent3 })
  ]

unfoldable pub join_all : List ℕ → Growing → Option Growing
join_all [] g = some g
join_all (v ∷ vs) g = do g' ← join v g; join_all vs g'

unfoldable pub random : (ℕ → Bool) → ℕ → ℕ → Option Scenario
random below n seed = do
  g ←
      try_edges below (pairs n)
        (record { rng = bit_xor seed golden; links = []; parent = range 0 n })
  g' ← join_all (range 1 (n - 1)) g
  some (record (nodes n) { links = g'.links })
