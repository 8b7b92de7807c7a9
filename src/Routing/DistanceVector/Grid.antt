-- ===== src/Routing/DistanceVector/Grid.antt =====
-- The square tables of `DistanceVector::compute` in crates/ndn-sim-studies/src/routing.rs.
use ndn_sim.Prelude.{
  ℕ, zero, suc, ◌+◌, ◌<◌, ◌≡◌, ◌≢◌, refl, sym, ◌∙◌, ap, subst, ◌⊎◌, inl, inr, List, [], ◌∷◌, map,
  some, arith, length, length-set, get_elem?, get_elem?-lt, get_elem?-set_self, get_elem?-set_ne,
  set, range, Returns,
}
use ndn_sim.Routing.Dijkstra.{u32_max, replicate}
use ndn_sim.Routing.Dijkstra.State.{at, get_elem?-at, at-set_self, at-set_ne, same_node}
use ndn_sim.Routing.DistanceVector.{cell, put}

-- `n` rows of `n` numbers.
pub record IsGrid (n : ℕ) (m : List (List ℕ)) : Type 0 where
  pub rows : length m ≡ n
  pub row : (u : ℕ) (r : List ℕ) → get_elem? m u ≡ some r → length r ≡ n

-- The number in a row and a column, and u32::MAX out of range.
abbrev pub at2 : List (List ℕ) → ℕ → ℕ → ℕ
at2 [] u d = u32_max
at2 (r ∷ rs) zero d = at r d
at2 (r ∷ rs) (suc u) d = at2 rs u d

row_of : (m : List (List ℕ)) (u : ℕ) → u < length m → (r : List ℕ) × (get_elem? m u ≡ some r)
row_of [] u l = absurd (omega arith)
row_of (r ∷ m) zero l = (r, refl)
row_of (r ∷ m) (suc u) l = row_of m u (omega arith)

at2-row : (m : List (List ℕ)) (u d : ℕ) (r : List ℕ) → get_elem? m u ≡ some r → at2 m u d ≡ at r d
at2-row [] u d r e = absurd (cc)
at2-row (x ∷ m) zero d r e = let f : x ≡ r = cc in ap (λ z. at z d) f
at2-row (x ∷ m) (suc u) d r e = at2-row m u d r e

pub cell-at2 :
    (n : ℕ) (m : List (List ℕ)) (u d : ℕ)
    → IsGrid n m
    → u < n
    → d < n
    → cell m u d ≡ some (at2 m u d)
cell-at2 n m u d h l k =
    let (r, e) = row_of m u (omega (arith, l, h.rows)) in
    rw (e, at2-row m u d r e) (get_elem?-at r d (omega (arith, k, h.row u r e)))

-- One number is replaced.
pub record Put (n : ℕ) (m : List (List ℕ)) (u d x : ℕ) (m' : List (List ℕ)) : Type 0 where
  pub grid : IsGrid n m'
  pub self : at2 m' u d ≡ x
  pub others : (a b : ℕ) → (a ≢ u) ⊎ (b ≢ d) → at2 m' a b ≡ at2 m a b

pub put-Put :
    (n : ℕ) (m : List (List ℕ)) (u d x : ℕ)
    → IsGrid n m
    → u < n
    → d < n
    → Returns (Put n m u d x) (put m u d x)
put-Put n m u d x h l k =
    let (r, e) = row_of m u (omega (arith, l, h.rows)) in
    let wide : length r ≡ n = h.row u r e in
    let here : get_elem? (set m u (set r d x)) u ≡ some (set r d x) =
      get_elem?-set_self m u (set r d x) (get_elem?-lt m u e) in
    rw (e, get_elem?-at r d (omega (arith, k, wide)))
      (record {
        grid = record {
          rows = length-set m u (set r d x) ∙ h.rows;
          row = λ a q f. elim (same_node u a) [
            | inl same ↦
                let g : some (set r d x) ≡ some q =
                  sym here ∙ ap (get_elem? (set m u (set r d x))) same ∙ f in
                let this : set r d x ≡ q = cc in ap length (sym this) ∙ length-set r d x ∙ wide
            | inr ne ↦ h.row a q (sym (get_elem?-set_ne m u a (set r d x) ne) ∙ f)
          ];
        };
        self =
            at2-row (set m u (set r d x)) u d (set r d x) here
            ∙ at-set_self r d x (omega (arith, k, wide));
        others = λ a b ne. elim (same_node u a) [
          | inl same ↦
              let apart : d ≢ b = λ z. elim ne [ inl p ↦ p (sym same) | inr p ↦ p (sym z) ] in
              subst (λ z. at2 (set m u (set r d x)) z b ≡ at2 m z b) same
                (at2-row (set m u (set r d x)) u b (set r d x) here
                  ∙ at-set_ne r d b x apart
                  ∙ sym (at2-row m u b r e))
          | inr far ↦ other_row m u a b (set r d x) far
        ];
      })
  where
    other_row :
        (m : List (List ℕ)) (u a b : ℕ) (r : List ℕ) → u ≢ a → at2 (set m u r) a b ≡ at2 m a b
    other_row [] u a b r ne = refl
    other_row (y ∷ ys) zero zero b r ne = absurd (ne refl)
    other_row (y ∷ ys) zero (suc a) b r ne = refl
    other_row (y ∷ ys) (suc u) zero b r ne = refl
    other_row (y ∷ ys) (suc u) (suc a) b r ne = other_row ys u a b r (λ e. ne (ap suc e))

-- A table that is made row by row.
pub map_range-IsGrid :
    (f : ℕ → List ℕ) (n lo k : ℕ)
    → ((u : ℕ) → length (f u) ≡ n)
    → (length (map f (range lo k)) ≡ k)
      × ((u : ℕ) (r : List ℕ) → get_elem? (map f (range lo k)) u ≡ some r → length r ≡ n)
      × ((u d : ℕ) → u < k → at2 (map f (range lo k)) u d ≡ at (f (lo + u)) d)
map_range-IsGrid f n lo zero h = (refl, λ u r e. absurd (cc), λ u d l. absurd (omega arith))
map_range-IsGrid f n lo (suc k) h =
    let (a, b, c) = map_range-IsGrid f n (suc lo) k h in (ap suc a, rows b, cells c)
  where
    rows :
        ((u : ℕ) (r : List ℕ) → get_elem? (map f (range (suc lo) k)) u ≡ some r → length r ≡ n)
        → (u : ℕ) (r : List ℕ) → get_elem? (f lo ∷ map f (range (suc lo) k)) u ≡ some r
        → length r ≡ n
    rows b zero r e = let g : f lo ≡ r = cc in ap length (sym g) ∙ h lo
    rows b (suc u) r e = b u r e

    cells :
        ((u d : ℕ) → u < k → at2 (map f (range (suc lo) k)) u d ≡ at (f (suc lo + u)) d)
        → (u d : ℕ) → u < suc k
        → at2 (f lo ∷ map f (range (suc lo) k)) u d ≡ at (f (lo + u)) d
    cells c zero d l = let g : lo ≡ lo + 0 = omega arith in ap (λ z. at (f z) d) g
    cells c (suc u) d l =
        let g : suc lo + u ≡ lo + suc u = omega arith in
        c u d (omega arith) ∙ ap (λ z. at (f z) d) g

pub length-replicate : (n x : ℕ) → length (replicate n x) ≡ n
length-replicate zero x = refl
length-replicate (suc n) x = ap suc (length-replicate n x)

pub at-replicate : (n x d : ℕ) → d < n → at (replicate n x) d ≡ x
at-replicate zero x d l = absurd (omega arith)
at-replicate (suc n) x zero l = refl
at-replicate (suc n) x (suc d) l = at-replicate n x d (omega arith)
