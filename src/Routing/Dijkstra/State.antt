-- ===== src/Routing/Dijkstra/State.antt =====
-- Where the search of `dijkstra_table` in crates/ndn-sim-studies/src/routing.rs stands: walks, and
-- what holds of the distances, the first hops and the heap.
use ndn_sim.Prelude.{
  ℕ, zero, suc, ◌+◌, ◌≤◌, ◌<◌, ◌≡◌, ◌≢◌, refl, sym, ◌∙◌, ap, ◌⊎◌, inl, inr, Bool, true, false, List,
  [], ◌∷◌, some, arith, length, get_elem?, set, In, Bool-cases, ◌==◌, ==_iff, false≢true,
}
use ndn_sim.Routing.View.{Edge}
use ndn_sim.Routing.Dijkstra.{Tree, u32_max}

-- A walk with the sum of its costs.
pub data Walk (adj : List (List (ℕ × ℕ))) : ℕ → ℕ → ℕ → Type 0 where
  stay : {x : ℕ} → Walk adj x x 0
  along : {x y z w c e : ℕ} → Edge adj x y w → Walk adj y z c → e ≡ w + c → Walk adj x z e

-- A walk that starts with the link to `f`.
abbrev pub Via : List (List (ℕ × ℕ)) → ℕ → ℕ → ℕ → ℕ → Type 0
Via adj x f z e = (w : ℕ) × (c : ℕ) × Edge adj x f w × Walk adj f z c × (e ≡ w + c)

pub Walk-snoc :
    {adj : List (List (ℕ × ℕ))} {x y z c w e : ℕ}
    → Walk adj x y c
    → Edge adj y z w
    → e ≡ c + w
    → Walk adj x z e
Walk-snoc stay l e = along l stay (omega (arith, e))
Walk-snoc {w = w} (along {w = w'} {c = c} l rest f) k e =
    along l (Walk-snoc {e = c + w} rest k refl) (omega (arith, e, f))

pub Via-snoc :
    (adj : List (List (ℕ × ℕ))) (x f y z c w e : ℕ)
    → Via adj x f y c
    → Edge adj y z w
    → e ≡ c + w
    → Via adj x f z e
Via-snoc adj x f y z c w e (w', c', l, rest, g) k h =
    (w', c' + w, l, Walk-snoc rest k refl, omega (arith, g, h))

pub Via-Walk : (adj : List (List (ℕ × ℕ))) (x f z e : ℕ) → Via adj x f z e → Walk adj x z e
Via-Walk adj x f z e (w, c, l, rest, g) = along l rest g

-- The number at an index, and u32::MAX out of range.
abbrev pub at : List ℕ → ℕ → ℕ
at [] i = u32_max
at (x ∷ xs) zero = x
at (x ∷ xs) (suc i) = at xs i

pub get_elem?-at : (xs : List ℕ) (i : ℕ) → i < length xs → get_elem? xs i ≡ some (at xs i)
get_elem?-at [] i l = absurd (omega arith)
get_elem?-at (x ∷ xs) zero l = refl
get_elem?-at (x ∷ xs) (suc i) l = get_elem?-at xs i (omega arith)

pub at-set_self : (xs : List ℕ) (i x : ℕ) → i < length xs → at (set xs i x) i ≡ x
at-set_self [] i x l = absurd (omega arith)
at-set_self (y ∷ ys) zero x l = refl
at-set_self (y ∷ ys) (suc i) x l = at-set_self ys i x (omega arith)

pub at-set_ne : (xs : List ℕ) (i j x : ℕ) → i ≢ j → at (set xs i x) j ≡ at xs j
at-set_ne [] i j x ne = refl
at-set_ne (y ∷ ys) zero zero x ne = absurd (ne refl)
at-set_ne (y ∷ ys) zero (suc j) x ne = refl
at-set_ne (y ∷ ys) (suc i) zero x ne = refl
at-set_ne (y ∷ ys) (suc i) (suc j) x ne = at-set_ne ys i j x (λ e. ne (ap suc e))

pub same_node : (x y : ℕ) → (x ≡ y) ⊎ (x ≢ y)
same_node x y = elim (Bool-cases (x == y)) [
  | inl e ↦ inl ((==_iff x y).0 e)
  | inr e ↦ inr (λ f. false≢true (sym e ∙ (==_iff x y).1 f))
]

-- All entries are different.
abbrev pub Distinct : List (ℕ × ℕ) → Type 0
Distinct [] = Unit
Distinct (x ∷ xs) = (In x xs → ⊥) × Distinct xs

-- The node has been taken from the heap.
abbrev pub Settled : List Bool → ℕ → Type 0
Settled s v = get_elem? s v ≡ some true

-- Where a search from `src` over `n` nodes stands: no later distance is below `floor`; of the links of
-- `u`, which is settled, those in `todo` are still to do.
pub record Stands (adj : List (List (ℕ × ℕ))) (src n u floor : ℕ) (todo : List (ℕ × ℕ))
    (s : List Bool) (t : Tree) : Type 0 where
  pub sizes : (length t.dist ≡ n) × (length t.first_hop ≡ n) × (length s ≡ n)
  pub source : at t.dist src ≡ 0
  pub capped : (v : ℕ) → at t.dist v ≤ u32_max
  pub real :
      (v : ℕ)
      → v < n
      → at t.dist v < u32_max
      → (v ≡ src) ⊎ Via adj src (at t.first_hop v) v (at t.dist v)
  pub entries : (d v : ℕ) → In (d, v) t.heap → (v < n) × (at t.dist v ≤ d) × (floor ≤ d)
  pub distinct : Distinct t.heap
  pub low : (v : ℕ) → Settled s v → (at t.dist v ≤ floor) × (In (at t.dist v, v) t.heap → ⊥)
  pub relaxed :
      (v x w : ℕ)
      → Settled s v
      → Edge adj v x w
      → ((v ≡ u) × In (x, w) todo) ⊎ (at t.dist x ≤ at t.dist v + w)
  pub waiting :
      (v : ℕ) → get_elem? s v ≡ some false → at t.dist v < u32_max → In (at t.dist v, v) t.heap
