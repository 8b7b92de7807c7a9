-- ===== src/Routing/DistanceVector/Simple.antt =====
-- Walks with at most as many links as there are nodes are enough for
-- `DistanceVector::compute` of crates/ndn-sim-studies/src/routing.rs.
use ndn_sim.Prelude.{
  ℕ, zero, suc, ◌+◌, ◌≤◌, ◌<◌, ◌≡◌, ◌≢◌, refl, sym, ◌∙◌, subst, ◌⊎◌, inl, inr, List, [], ◌∷◌, arith,
  Bool-cases, ◌==◌, ==_iff, false≢true, length, length-range, In, here, there, range, In-range,
  if◌then◌else◌,
}
use ndn_sim.Routing.{TopologyView}
use ndn_sim.Routing.View.{Edge, IsView}
use ndn_sim.Routing.Dijkstra.State.{Walk, stay, along, same_node}

-- A walk of `j` links and cost `c`.
pub data Hops (adj : List (List (ℕ × ℕ))) : ℕ → ℕ → ℕ → ℕ → Type 0 where
  arrived : {x : ℕ} → Hops adj x x 0 0
  hop :
      {x y z w j c e i : ℕ}
      → Edge adj x y w
      → Hops adj y z j c
      → e ≡ w + c
      → i ≡ suc j
      → Hops adj x z i e

-- A walk that departs from nodes of a list alone.
data Departs (adj : List (List (ℕ × ℕ))) (ss : List ℕ) : ℕ → ℕ → ℕ → Type 0 where
  rest_here : {x : ℕ} → Departs adj ss x x 0
  depart :
      {x y z w c e : ℕ}
      → In x ss
      → Edge adj x y w
      → Departs adj ss y z c
      → e ≡ w + c
      → Departs adj ss x z e

without : ℕ → List ℕ → List ℕ
without u [] = []
without u (x ∷ xs) = if x == u then without u xs else x ∷ without u xs

In-without : (u x : ℕ) (xs : List ℕ) → In x xs → x ≢ u → In x (without u xs)
unfolding without
In-without u x [] m ne = elim m [ ]
In-without u x (y ∷ ys) m ne = elim (Bool-cases (y == u)) [
  | inl e ↦ elim m [
    | here f ↦ absurd (ne (sym f ∙ (==_iff y u).0 e))
    | there k ↦ rw e (In-without u x ys k ne)
  ]
  | inr e ↦ elim m [ here f ↦ rw e (here f) | there k ↦ rw e (there (In-without u x ys k ne)) ]
]

length-without : (u : ℕ) (xs : List ℕ) → length (without u xs) ≤ length xs
unfolding without
length-without u [] = omega arith
length-without u (y ∷ ys) = elim (Bool-cases (y == u)) [
  | inl e ↦ rw e (omega (arith, length-without u ys))
  | inr e ↦ rw e (omega (arith, length-without u ys))
]

length-without_in : (u : ℕ) (xs : List ℕ) → In u xs → length (without u xs) < length xs
unfolding without
length-without_in u [] m = elim m [ ]
length-without_in u (y ∷ ys) m = elim (Bool-cases (y == u)) [
  | inl e ↦ rw e (omega (arith, length-without u ys))
  | inr e ↦ elim m [
    | here f ↦ absurd (false≢true (sym e ∙ (==_iff y u).1 f))
    | there k ↦ rw e (omega (arith, length-without_in u ys k))
  ]
]

-- What is left of a walk after the last departure from `u`.
Departs-cut :
    (adj : List (List (ℕ × ℕ))) (ss : List ℕ) (u : ℕ) {x z c : ℕ}
    → Departs adj ss x z c
    → Departs adj (without u ss) x z c
      ⊎ ((y : ℕ) × (w : ℕ) × (c' : ℕ) × Edge adj u y w
          × Departs adj (without u ss) y z c'
          × (w + c' ≤ c))
Departs-cut adj ss u rest_here = inl rest_here
Departs-cut adj ss u (depart {x} {y} {w = w} {c = c} m link rest e) =
    elim (Departs-cut adj ss u rest) [
      | inr (y', w', c', link', rest', le) ↦ inr (y', w', c', link', rest', omega (arith, le, e))
      | inl k ↦ elim (same_node x u) [
        | inl f ↦ inr (y, w, c, subst (λ q. Edge adj q y w) f link, k, omega (arith, e))
        | inr ne ↦ inl (depart (In-without u x ss m ne) link k e)
      ]
    ]

Departs-simple :
    (adj : List (List (ℕ × ℕ))) (k : ℕ) (ss : List ℕ) {x z c : ℕ}
    → length ss ≤ k
    → Departs adj ss x z c
    → (j : ℕ) × (c' : ℕ) × Hops adj x z j c' × (j ≤ k) × (c' ≤ c)
Departs-simple adj k ss l rest_here = (0, 0, arrived, omega arith, omega arith)
Departs-simple adj zero ss l (depart {x} m link rest e) =
    absurd (omega (arith, l, length-without_in x ss m))
Departs-simple adj (suc k) ss l (depart {x} {y} {w = w} {c = c} m link rest e) =
    let small : length (without x ss) ≤ k = omega (arith, l, length-without_in x ss m) in
    elim (Departs-cut adj ss x rest) [
      | inl r ↦
          let (j, c', h, a, b) = Departs-simple adj k (without x ss) small r in
          (suc j, w + c', hop link h refl refl, omega (arith, a), omega (arith, b, e))
      | inr (y', w', c0, link', r, le) ↦
          let (j, c', h, a, b) = Departs-simple adj k (without x ss) small r in
          (suc j, w' + c', hop link' h refl refl, omega (arith, a), omega (arith, b, e, le))
    ]

Walk-Departs :
    (view : TopologyView)
    → IsView view
    → {x z c : ℕ} → Walk view.adj x z c
    → x < view.n
    → Departs view.adj (range 0 view.n) x z c
Walk-Departs view good stay l = rest_here
Walk-Departs view good (along {x} {y} {w = w} link rest e) l =
    depart (In-range 0 view.n x (omega arith) (omega (arith, l))) link
      (Walk-Departs view good rest (good.ends x y w link)) e

-- A walk between nodes has a walk of at most as many links as there are nodes that costs no more.
pub Hops-simple :
    (view : TopologyView)
    → IsView view
    → {x z c : ℕ} → Walk view.adj x z c
    → x < view.n
    → (j : ℕ) × (c' : ℕ) × Hops view.adj x z j c' × (j ≤ view.n) × (c' ≤ c)
Hops-simple view good walk l =
    let size : length (range 0 view.n) ≤ view.n = omega (arith, length-range 0 view.n) in
    Departs-simple view.adj view.n (range 0 view.n) size (Walk-Departs view good walk l)
