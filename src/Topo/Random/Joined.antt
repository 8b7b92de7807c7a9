-- ===== src/Topo/Random/Joined.antt =====
-- `random` of crates/ndn-sim/src/topo.rs ends with a connected network whatever its draws are.
use ndn_sim.Prelude.{
  ℕ, zero, suc, ◌+◌, ◌-◌, ◌≤◌, ◌<◌, ◌≡◌, refl, sym, ap, subst, ◌∙◌, inl, inr, ◌/◌, Bool, List, [],
  ◌∷◌, ◌++◌, some, arith, ==_iff, Bool-cases, length, length-range, get_elem?, get_elem?-lt, All,
  All-map-range, All-for_each-range, In, here, there, In-append_right, In-range, Returns,
  Returns->>=, Returns-mono, range,
}
use ndn_sim.Topo.{Link, link}
use ndn_sim.Topo.Shape.{length-nodes}
use ndn_sim.Topo.Connected.{Reaches, self, hop, IsConnected}
use ndn_sim.Topo.Random.{
  next_u64, find, union, Growing, try_edge, try_edges, pairs, join, join_all, random,
}
use ndn_sim.Topo.Random.Forest.{top, same_node, ==-ne, roots}
use ndn_sim.Topo.Random.Find.{
  Joins, Found, Joins-more, union-Joins, find-Found, Reaches-trans, Reaches-sym, Reaches-more,
}

-- The links of a growing network are what its forest says.
abbrev IsGood : ℕ → Growing → Type 0
IsGood n g = (j : ℕ) × Joins g.links n j g.parent

new_link : (ls : List Link) (a b : ℕ) → Reaches (ls ++ link a b ∷ []) a b
new_link ls a b = hop (link a b) self (In-append_right ls _ (here refl)) (inl (refl, refl))

try_edge-IsGood :
    (below : ℕ → Bool) (n a b : ℕ) (g : Growing)
    → a < n
    → b < n
    → IsGood n g
    → Returns (IsGood n) (try_edge below (a, b) g)
unfolding try_edge
try_edge-IsGood below n a b g la lb (j, h) = elim (Bool-cases (below ((next_u64 g.rng).1 / 2048))) [
  | inr e ↦ rw (e, try_edge) (j, h)
  | inl e ↦
      rw (e, try_edge)
        (Returns->>= (λ p. (i : ℕ) × Joins (g.links ++ link a b ∷ []) n i p) (IsGood n)
          (union g.parent a b) _
          (union-Joins (g.links ++ link a b ∷ []) n j g.parent a b
            (Joins-more g.links (link a b ∷ []) n j g.parent h) la lb (new_link g.links a b))
          λ p v. v)
]

try_edges-IsGood :
    (below : ℕ → Bool) (n : ℕ) (es : List (ℕ × ℕ)) (g : Growing)
    → All (λ e. (e.0 < n) × (e.1 < n)) es
    → IsGood n g
    → Returns (IsGood n) (try_edges below es g)
unfolding try_edges
try_edges-IsGood below n [] g l h = h
try_edges-IsGood below n ((a, b) ∷ es) g l h =
    Returns->>= (IsGood n) (IsGood n) (try_edge below (a, b) g) _
      (try_edge-IsGood below n a b g l.0.0 l.0.1 h) λ g' h'. try_edges-IsGood below n es g' l.1 h'

-- What joining leaves: the old links are kept, and `v` is in reach of 0.
abbrev Joined : ℕ → ℕ → Growing → Growing → Type 0
Joined n v g g' =
    IsGood n g' × ((x y : ℕ) → Reaches g.links x y → Reaches g'.links x y) × Reaches g'.links 0 v

join-Joined :
    (n v : ℕ) (g : Growing) → 0 < n → v < n → IsGood n g → Returns (Joined n v g) (join v g)
unfolding join
join-Joined n v g l0 lv (j, h) =
    Returns->>= (Found g.links n j g.parent v) _ (find g.parent v) _
      (find-Found g.links n j g.parent v h lv)
      λ (rv, p1) (h1, keep1, top1, below1, reach1).
        Returns->>= (Found g.links n j p1 0) _ (find p1 0) _ (find-Found g.links n j p1 0 h1 l0)
          λ (r0, p2) (h2, keep2, top2, below2, reach2). elim (same_node rv r0) [
            | inl e ↦ rw ((==_iff rv r0).1 e) (
              (j, h2),
              λ x y r. r,
              Reaches-trans g.links reach2
                  (Reaches-sym g.links (subst (Reaches g.links v) e reach1)),
            )
            | inr ne ↦ rw (==-ne rv r0 ne) (
                Returns->>= (λ p. (i : ℕ) × Joins (g.links ++ link 0 v ∷ []) n i p) (Joined n v g)
                  (union p2 0 v) _
                  (union-Joins (g.links ++ link 0 v ∷ []) n j p2 0 v
                    (Joins-more g.links (link 0 v ∷ []) n j p2 h2) l0 lv (new_link g.links 0 v))
                  λ p good. (good, λ x y r. Reaches-more g.links _ r, new_link g.links 0 v))
          ]

join_all-Joined :
    (n : ℕ) (vs : List ℕ) (g : Growing)
    → 0 < n
    → All (λ v. v < n) vs
    → IsGood n g
    → Returns
        (λ g'.
          ((x y : ℕ) → Reaches g.links x y → Reaches g'.links x y)
          × ((v : ℕ) → In v vs → Reaches g'.links 0 v))
        (join_all vs g)
unfolding join_all
join_all-Joined n [] g l a h = (λ x y r. r, λ v m. elim m [ ])
join_all-Joined n (v ∷ vs) g l a h =
    Returns->>= (Joined n v g) _ (join v g) _ (join-Joined n v g l a.0 h) λ g1 (h1, kept1, reach1).
      Returns-mono _ _ (join_all vs g1)
        (λ g'
            (v2 : ((x y : ℕ) → Reaches g1.links x y → Reaches g'.links x y)
              × ((w : ℕ) → In w vs → Reaches g'.links 0 w)).
          (λ x y r. v2.0 x y (kept1 x y r), λ w m. first_or w g' (v2.0 0 v reach1) v2.1 m))
        (join_all-Joined n vs g1 l a.1 h1)
  where
    first_or :
        (w : ℕ) (g' : Growing)
        → Reaches g'.links 0 v
        → ((w : ℕ) → In w vs → Reaches g'.links 0 w)
        → In w (v ∷ vs)
        → Reaches g'.links 0 w
    first_or w g' r f (here e) = subst (Reaches g'.links 0) e r
    first_or w g' r f (there m) = f w m

-- At the start every node is a root.
get_elem?-range : (lo k i : ℕ) → i < k → get_elem? (range lo k) i ≡ some (lo + i)
get_elem?-range lo zero i l = absurd (omega arith)
get_elem?-range lo (suc k) zero l = ap some (omega arith)
get_elem?-range lo (suc k) (suc i) l =
    get_elem?-range (suc lo) k i (omega arith) ∙ ap some (omega arith)

roots-range : (lo k : ℕ) → roots lo (range lo k) ≡ k
roots-range lo zero = refl
roots-range lo (suc k) = rw ((==_iff lo lo).1 refl) (omega (arith, roots-range (suc lo) k))

start-Joins : (n : ℕ) → Joins [] n 0 (range 0 n)
start-Joins n =
    let at : (x : ℕ) → x < n → get_elem? (range 0 n) x ≡ some x =
      λ x l. get_elem?-range 0 n x l ∙ ap some (omega arith) in
    record {
      size = length-range 0 n;
      joined = λ x y e.
          let l : x < n = omega (arith, get_elem?-lt (range 0 n) x e, length-range 0 n) in
          let f : x ≡ y = let g : some x ≡ some y = sym (at x l) ∙ e in cc in
          (subst (λ z. z < n) f l, subst (Reaches [] x) f self);
      deep = λ x l. (x, 0, top (at x l), omega arith);
      count = omega (arith, roots-range 0 n);
    }

pairs-below : (n : ℕ) → All (λ e. (e.0 < n) × (e.1 < n)) (pairs n)
pairs-below n =
    All-for_each-range (λ e. (e.0 < n) × (e.1 < n)) _ 0 n
      λ a la ua.
        All-map-range (λ e. (e.0 < n) × (e.1 < n)) (λ b. (a, b)) (a + 1) (n - (a + 1))
          λ b lb ub. (omega arith, omega arith)

range-below : (lo k n : ℕ) → lo + k ≤ n → All (λ v. v < n) (range lo k)
range-below lo zero n l = tt
range-below lo (suc k) n l = (omega arith, range-below (suc lo) k n (omega arith))

-- Whatever the seed and the outcomes of the draws are, `random` ends, with a connected network of `n`
-- nodes.
pub random-IsConnected :
    (below : ℕ → Bool) (n seed : ℕ)
    → Returns (λ s. (length s.nodes ≡ n) × IsConnected s) (random below n seed)
unfolding random try_edges join_all
random-IsConnected below zero seed =
    (length-nodes 0, λ v l. absurd (omega (arith, l, length-nodes 0)))
random-IsConnected below (suc m) seed =
    let n = suc m in
    Returns->>= (IsGood n) _ (try_edges below (pairs n) _) _
      (try_edges-IsGood below n (pairs n) _ (pairs-below n) (0, start-Joins n))
      λ g h.
        Returns->>=
          (λ g'.
            ((x y : ℕ) → Reaches g.links x y → Reaches g'.links x y)
            × ((v : ℕ) → In v (range 1 (n - 1)) → Reaches g'.links 0 v))
          _ (join_all (range 1 (n - 1)) g) _
          (join_all-Joined n (range 1 (n - 1)) g (omega arith)
            (range-below 1 (n - 1) n (omega arith)) h)
          λ g' r. (length-nodes n, λ v l. every g' r.1 v (omega (arith, l, length-nodes n)))
  where
    every :
        (g' : Growing)
        → ((v : ℕ) → In v (range 1 (suc m - 1)) → Reaches g'.links 0 v)
        → (v : ℕ) → v < suc m
        → Reaches g'.links 0 v
    every g' f zero l = self
    every g' f (suc v) l = f (suc v) (In-range 1 (suc m - 1) (suc v) (omega arith) (omega arith))
