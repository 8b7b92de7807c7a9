-- ===== src/Routing/View.antt =====
-- The views of crates/ndn-sim-studies/src/routing.rs whose links lead to nodes, and that `from_links`
-- makes such ones.
use ndn_sim.Prelude.{
  ℕ, zero, suc, ◌<◌, ◌≡◌, refl, sym, ◌∙◌, ap, subst, ◌⊎◌, List, [], ◌∷◌, ◌++◌, none, some, arith,
  here, there, length, length-set, get_elem?, set, All, All-In, All-append, In, Returns,
  Returns->>=, inr, inl, Option-cases, Bool-cases, false≢true, ◌==◌, ==_iff, get_elem?-set_self,
  get_elem?-set_ne, get_elem?-lt, In-append, In-append_left, In-append_right,
}
use ndn_sim.Routing.{TopologyView, push_edge, push_links, empty_rows, from_links}

-- A link with its cost.
abbrev pub Edge : List (List (ℕ × ℕ)) → ℕ → ℕ → ℕ → Type 0
Edge adj u v w = (row : List (ℕ × ℕ)) × (get_elem? adj u ≡ some row) × In {A = ℕ × ℕ} (v, w) row

-- A view with a row for each node, whose links lead to nodes.
pub record IsView (view : TopologyView) : Type 0 where
  pub rows : length view.adj ≡ view.n
  pub ends : (u v w : ℕ) → Edge view.adj u v w → v < view.n

-- The rows and the links in them, as lists.
abbrev pub IsLinked : ℕ → (ℕ × ℕ → Type 0) → List (List (ℕ × ℕ)) → Type 0
IsLinked n P adj = (length adj ≡ n) × All (All P) adj

get_elem?-All :
    (P : List (ℕ × ℕ) → Type 0) (adj : List (List (ℕ × ℕ))) (u : ℕ) (row : List (ℕ × ℕ))
    → All P adj
    → get_elem? adj u ≡ some row
    → P row
get_elem?-All P [] u row h e = absurd (cc)
get_elem?-All P (r ∷ rs) zero row h e = let f : r ≡ row = cc in subst P f h.0
get_elem?-All P (r ∷ rs) (suc u) row h e = get_elem?-All P rs u row h.1 e

pub Edge-All :
    (P : ℕ × ℕ → Type 0) (adj : List (List (ℕ × ℕ))) (u v w : ℕ)
    → All (All P) adj
    → Edge adj u v w
    → P (v, w)
Edge-All P adj u v w h (row, e, m) = All-In P row (v, w) (get_elem?-All (All P) adj u row h e) m

pub IsView-of : (view : TopologyView) → IsLinked view.n (λ e. e.0 < view.n) view.adj → IsView view
IsView-of view h = record {
  rows = h.0;
  ends = λ u v w e. Edge-All (λ q. q.0 < view.n) view.adj u v w h.1 e;
}

All-set :
    (P : List (ℕ × ℕ) → Type 0) (adj : List (List (ℕ × ℕ))) (u : ℕ) (row : List (ℕ × ℕ))
    → All P adj
    → P row
    → All P (set adj u row)
All-set P [] u row h k = tt
All-set P (r ∷ rs) zero row h k = (k, h.1)
All-set P (r ∷ rs) (suc u) row h k = (h.0, All-set P rs u row h.1 k)

pub row_at :
    (adj : List (List (ℕ × ℕ))) (u : ℕ)
    → u < length adj
    → (row : List (ℕ × ℕ)) × (get_elem? adj u ≡ some row)
row_at [] u l = absurd (omega arith)
row_at (row ∷ adj) zero l = (row, refl)
row_at (row ∷ adj) (suc u) l = row_at adj u (omega arith)

-- A link of cost 1 between nodes.
abbrev pub IsUnit : ℕ → ℕ × ℕ → Type 0
IsUnit n e = (e.0 < n) × (e.1 ≡ 1)

push_edge-IsLinked :
    (n a b : ℕ) (adj : List (List (ℕ × ℕ)))
    → a < n
    → b < n
    → IsLinked n (IsUnit n) adj
    → Returns (IsLinked n (IsUnit n)) (push_edge a (b, 1) adj)
unfolding push_edge
push_edge-IsLinked n a b adj la lb h =
    let (row, e) = row_at adj a (omega (arith, la, h.0)) in
    rw e (
      length-set adj a (row ++ (b, 1) ∷ []) ∙ h.0,
      All-set (All (IsUnit n)) adj a (row ++ (b, 1) ∷ []) h.1 (
          All-append (IsUnit n) row ((b, 1) ∷ []) (get_elem?-All (All (IsUnit n)) adj a row h.1 e)
            ((lb, refl), tt)),
    )

push_links-IsLinked :
    (n : ℕ) (links : List (ℕ × ℕ)) (adj : List (List (ℕ × ℕ)))
    → All (λ l. (l.0 < n) × (l.1 < n)) links
    → IsLinked n (IsUnit n) adj
    → Returns (IsLinked n (IsUnit n)) (push_links links adj)
unfolding push_links
push_links-IsLinked n [] adj l h = h
push_links-IsLinked n ((a, b) ∷ links) adj l h =
    Returns->>= _ _ (push_edge a (b, 1) adj) _ (push_edge-IsLinked n a b adj l.0.0 l.0.1 h)
      λ adj1 h1.
        Returns->>= _ _ (push_edge b (a, 1) adj1) _ (push_edge-IsLinked n b a adj1 l.0.1 l.0.0 h1)
          λ adj2 h2. push_links-IsLinked n links adj2 l.1 h2

empty_rows-IsLinked : (n k : ℕ) → (length (empty_rows k) ≡ k) × All (All (IsUnit n)) (empty_rows k)
empty_rows-IsLinked n zero = (refl, tt)
empty_rows-IsLinked n (suc k) = let (e, h) = empty_rows-IsLinked n k in (ap suc e, (tt, h))

-- Links between nodes make a view whose links have cost 1.
pub from_links-IsView :
    (n : ℕ) (links : List (ℕ × ℕ))
    → All (λ l. (l.0 < n) × (l.1 < n)) links
    → Returns
        (λ view. IsView view × (view.n ≡ n) × ((u v w : ℕ) → Edge view.adj u v w → w ≡ 1))
        (from_links n links)
unfolding from_links
from_links-IsView n links l =
    Returns->>= (IsLinked n (IsUnit n)) _ (push_links links (empty_rows n)) _
      (push_links-IsLinked n links (empty_rows n) l (empty_rows-IsLinked n n))
      λ adj h. (
        record { rows = h.0; ends = λ u v w e. (Edge-All (IsUnit n) adj u v w h.1 e).0 },
        refl,
        λ u v w e. (Edge-All (IsUnit n) adj u v w h.1 e).1,
      )

-- A new link is there, the old ones stay, and there is no other one.
push_edge-Edge :
    (a b : ℕ) (adj adj' : List (List (ℕ × ℕ)))
    → push_edge a (b, 1) adj ≡ some adj'
    → Edge adj' a b 1
      × ((u v w : ℕ) → Edge adj u v w → Edge adj' u v w)
      × ((u v w : ℕ) → Edge adj' u v w → Edge adj u v w ⊎ ((u ≡ a) × (v ≡ b) × (w ≡ 1)))
unfolding push_edge
push_edge-Edge a b adj adj' p = elim (Option-cases (get_elem? adj a)) [
  | inl e ↦ let q : none ≡ some adj' = rw e at p in absurd (cc)
  | inr (row, e) ↦
      let q : some (set adj a (row ++ (b, 1) ∷ [])) ≡ some adj' = rw e at p in
      let made : set adj a (row ++ (b, 1) ∷ []) ≡ adj' = cc in
      subst
        (λ z.
          Edge z a b 1
          × ((u v w : ℕ) → Edge adj u v w → Edge z u v w)
          × ((u v w : ℕ) → Edge z u v w → Edge adj u v w ⊎ ((u ≡ a) × (v ≡ b) × (w ≡ 1))))
        made (fresh row e, older row e, no_other row e)
]
  where
    fresh :
        (row : List (ℕ × ℕ))
        → get_elem? adj a ≡ some row
        → Edge (set adj a (row ++ (b, 1) ∷ [])) a b 1
    fresh row e = (
      row ++ (b, 1) ∷ [],
      get_elem?-set_self adj a _ (get_elem?-lt adj a e),
      In-append_right row _ (here refl),
    )

    older :
        (row : List (ℕ × ℕ))
        → get_elem? adj a ≡ some row
        → (u v w : ℕ) → Edge adj u v w
        → Edge (set adj a (row ++ (b, 1) ∷ [])) u v w
    older row e u v w (r, f, m) = elim (Bool-cases (a == u)) [
      | inl y ↦
          let same : a ≡ u = (==_iff a u).0 y in
          let this : some r ≡ some row = sym f ∙ ap (get_elem? adj) (sym same) ∙ e in
          let k : r ≡ row = cc in
          subst (λ z. Edge (set adj a (row ++ (b, 1) ∷ [])) z v w) same
            (
              row ++ (b, 1) ∷ [],
              get_elem?-set_self adj a _ (get_elem?-lt adj a e),
              In-append_left row _ (subst (In (v, w)) k m),
            )
      | inr y ↦ (r, get_elem?-set_ne adj a u _ (λ g. false≢true (sym y ∙ (==_iff a u).1 g)) ∙ f, m)
    ]

    no_other :
        (row : List (ℕ × ℕ))
        → get_elem? adj a ≡ some row
        → (u v w : ℕ) → Edge (set adj a (row ++ (b, 1) ∷ [])) u v w
        → Edge adj u v w ⊎ ((u ≡ a) × (v ≡ b) × (w ≡ 1))
    no_other row e u v w (r, f, m) = elim (Bool-cases (a == u)) [
      | inl y ↦
          let same : a ≡ u = (==_iff a u).0 y in
          let this : some (row ++ (b, 1) ∷ []) ≡ some r =
            sym (get_elem?-set_self adj a _ (get_elem?-lt adj a e))
            ∙ ap (get_elem? (set adj a (row ++ (b, 1) ∷ []))) same
            ∙ f in
          let k : row ++ (b, 1) ∷ [] ≡ r = cc in
          elim (In-append row ((b, 1) ∷ []) (subst (In (v, w)) (sym k) m)) [
            | inl old ↦ inl (row, ap (get_elem? adj) (sym same) ∙ e, old)
            | inr new ↦ elim new [
              | here g ↦ inr (sym same, sym (ap (λ z. z.0) g), sym (ap (λ z. z.1) g))
              | there z ↦ elim z [ ]
            ]
          ]
      | inr y ↦
          inl (
            r,
            sym (get_elem?-set_ne adj a u _ (λ g. false≢true (sym y ∙ (==_iff a u).1 g))) ∙ f,
            m,
          )
    ]

-- Every link leads both ways.
abbrev pub IsSymmetric : List (List (ℕ × ℕ)) → Type 0
IsSymmetric adj = (u v w : ℕ) → Edge adj u v w → Edge adj v u w

pub push_links-IsSymmetric :
    (links : List (ℕ × ℕ)) (adj adj' : List (List (ℕ × ℕ)))
    → IsSymmetric adj
    → push_links links adj ≡ some adj'
    → IsSymmetric adj'
unfolding push_links
push_links-IsSymmetric [] adj adj' h e = let f : adj ≡ adj' = cc in subst IsSymmetric f h
push_links-IsSymmetric ((a, b) ∷ links) adj adj' h e =
    elim (Option-cases (push_edge a (b, 1) adj)) [
      | inl f ↦ let q : none ≡ some adj' = rw f at e in absurd (cc)
      | inr (adj1, f) ↦ elim (Option-cases (push_edge b (a, 1) adj1)) [
        | inl g ↦ let q : none ≡ some adj' = rw (f, g) at e in absurd (cc)
        | inr (adj2, g) ↦
            let q : push_links links adj2 ≡ some adj' = rw (f, g) at e in
            push_links-IsSymmetric links adj2 adj'
              (both adj1 adj2 (push_edge-Edge a b adj adj1 f) (push_edge-Edge b a adj1 adj2 g)) q
      ]
    ]
  where
    both :
        (adj1 adj2 : List (List (ℕ × ℕ)))
        → Edge adj1 a b 1
          × ((u v w : ℕ) → Edge adj u v w → Edge adj1 u v w)
          × ((u v w : ℕ) → Edge adj1 u v w → Edge adj u v w ⊎ ((u ≡ a) × (v ≡ b) × (w ≡ 1)))
        → Edge adj2 b a 1
          × ((u v w : ℕ) → Edge adj1 u v w → Edge adj2 u v w)
          × ((u v w : ℕ) → Edge adj2 u v w → Edge adj1 u v w ⊎ ((u ≡ b) × (v ≡ a) × (w ≡ 1)))
        → IsSymmetric adj2
    both adj1 adj2 (p, keep1, split1) (q, keep2, split2) u v w k = elim (split2 u v w k) [
      | inr (eu, ev, ew) ↦ rw (eu, ev, ew) (keep2 a b 1 p)
      | inl k1 ↦ elim (split1 u v w k1) [
        | inr (eu, ev, ew) ↦ rw (eu, ev, ew) q
        | inl k0 ↦ keep2 v u w (keep1 v u w (h u v w k0))
      ]
    ]
