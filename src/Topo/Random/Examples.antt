-- ===== src/Topo/Random/Examples.antt =====
-- Runs of `random` of crates/ndn-sim/src/topo.rs.
use ndn_sim.Prelude.{ℕ, ◌≡◌, refl, Bool, [], ◌∷◌, some, length, ltb, Returns}
use ndn_sim.Topo.Connected.{IsConnected}
use ndn_sim.Topo.Random.{next_u64, root, compress, find, union, random}
use ndn_sim.Topo.Random.Joined.{random-IsConnected}

-- A draw below a half.
abbrev half : ℕ → Bool
half k = ltb k 4503599627370496

-- Depth 3 is compressed, and its root found.
find_deep : find (0 ∷ 0 ∷ 1 ∷ 2 ∷ []) 3 ≡ some (0, 0 ∷ 0 ∷ 0 ∷ 0 ∷ [])
unfolding find root compress
find_deep = refl

union_roots : union (0 ∷ 1 ∷ 1 ∷ []) 0 2 ≡ some (1 ∷ 1 ∷ 1 ∷ [])
unfolding union find root compress
union_roots = refl

-- The first number of the generator at seed 0.
first_number : (next_u64 0).1 ≡ 0xe220a8397b1dcdaf
unfolding next_u64
first_number = refl

random-IsConnected_example : Returns (λ s. (length s.nodes ≡ 4) × IsConnected s) (random half 4 7)
random-IsConnected_example = random-IsConnected half 4 7
