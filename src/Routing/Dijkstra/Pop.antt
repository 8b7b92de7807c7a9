-- ===== src/Routing/Dijkstra/Pop.antt =====
-- The heap and the loop of `dijkstra_table` in crates/ndn-sim-studies/src/routing.rs.
use ndn_sim.Prelude.{
  ℕ, zero, suc, ◌+◌, ◌≤◌, ◌<◌, ◌≡◌, ◌≢◌, refl, sym, ◌∙◌, ap, subst, ◌⊎◌, inl, inr, Bool, true,
  false, List, [], ◌∷◌, some, arith, length, length-set, get_elem?, get_elem?-lt,
  get_elem?-set_self, get_elem?-set_ne, set, In, here, there, is_lt,
}
use ndn_sim.Routing.Dijkstra.{Tree, compare_entries, pop_from}
use ndn_sim.Routing.View.{Edge}
use ndn_sim.Routing.Dijkstra.State.{Distinct, at, same_node, Settled, Stands}
use ndn_sim.Routing.Dijkstra.Relax.{pending}

-- What a pop gives: an entry of least cost, and the others.
pub record Popped (xs : List (ℕ × ℕ)) (top : ℕ × ℕ) (rest : List (ℕ × ℕ)) : Type 0 where
  pub least : (e : ℕ × ℕ) → In e xs → top.0 ≤ e.0
  pub among : In top xs
  pub others : (e : ℕ × ℕ) → In e rest → In e xs
  pub all : (e : ℕ × ℕ) → In e xs → (top ≡ e) ⊎ In e rest
  pub apart : Distinct xs → (In top rest → ⊥) × Distinct rest
  pub count : length xs ≡ suc (length rest)

is_lt_cases :
    (p x : ℕ × ℕ)
    → ((is_lt (compare_entries p x) ≡ true) × (p.0 ≤ x.0))
      ⊎ ((is_lt (compare_entries p x) ≡ false) × (x.0 ≤ p.0))
is_lt_cases (d, u) (e, v) = ground arith

pub pop_from-Popped :
    (x : ℕ × ℕ) (xs : List (ℕ × ℕ)) → Popped (x ∷ xs) (pop_from x xs).0 (pop_from x xs).1
pop_from-Popped x [] = record {
  least = λ e m. one e m;
  among = here refl;
  others = λ e m. elim m [ ];
  all = λ e m. only e m;
  apart = λ k. (λ m. elim m [ ], tt);
  count = refl;
}
  where
    one : (e : ℕ × ℕ) → In e (x ∷ []) → x.0 ≤ e.0
    one e (here f) = rw f (omega arith)
    one e (there m) = elim m [ ]

    only : (e : ℕ × ℕ) → In e (x ∷ []) → (x ≡ e) ⊎ In e []
    only e (here f) = inl f
    only e (there m) = inr m
pop_from-Popped x (y ∷ ys) =
    let ih = pop_from-Popped y ys in
    elim (is_lt_cases (pop_from y ys).0 x) [
      | inl (e, le) ↦
          rw (e, pop_from)
            (record {
              least = λ z m. elim m [ here f ↦ rw (← f) le | there m' ↦ ih.least z m' ];
              among = there ih.among;
              others = λ z m. elim m [ here f ↦ here f | there m' ↦ there (ih.others z m') ];
              all = λ z m. elim m [
                | here f ↦ inr (here f)
                | there m' ↦ elim (ih.all z m') [ inl f ↦ inl f | inr k ↦ inr (there k) ]
              ];
              apart = λ k. (
                λ m. elim m [
                  | here f ↦ k.0 (subst (λ z. In z (y ∷ ys)) (sym f) ih.among)
                  | there m' ↦ (ih.apart k.1).0 m'
                ],
                (λ m. k.0 (ih.others x m), (ih.apart k.1).1),
              );
              count = ap suc ih.count;
            })
      | inr (e, le) ↦
          rw (e, pop_from)
            (record {
              least = λ z m. elim m [
                | here f ↦ rw (← f) (omega arith)
                | there m' ↦ omega (arith, le, ih.least z m')
              ];
              among = here refl;
              others = λ z m. there m;
              all = λ z m. elim m [ here f ↦ inl f | there m' ↦ inr m' ];
              apart = λ k. k;
              count = refl;
            })
    ]

pub pending-set :
    (s : List Bool) (adj : List (List (ℕ × ℕ))) (u : ℕ) (row : List (ℕ × ℕ))
    → get_elem? s u ≡ some false
    → get_elem? adj u ≡ some row
    → length row + pending (set s u true) adj ≡ pending s adj
pending-set [] adj u row e f = absurd (cc)
pending-set (b ∷ bs) [] u row e f = absurd (cc)
pending-set (true ∷ bs) (r ∷ rs) zero row e f = absurd (cc)
pending-set (false ∷ bs) (r ∷ rs) zero row e f = let g : r ≡ row = cc in rw g refl
pending-set (true ∷ bs) (r ∷ rs) (suc u) row e f = pending-set bs rs u row e f
pending-set (false ∷ bs) (r ∷ rs) (suc u) row e f = omega (arith, pending-set bs rs u row e f)

pub flag_cases : (s : List Bool) (u : ℕ) → u < length s → Settled s u ⊎ (get_elem? s u ≡ some false)
flag_cases [] u l = absurd (omega arith)
flag_cases (true ∷ s) zero l = inl refl
flag_cases (false ∷ s) zero l = inr refl
flag_cases (b ∷ s) (suc u) l = flag_cases s u (omega arith)

module _ (adj : List (List (ℕ × ℕ))) (src n : ℕ) where
  module _ (u floor d v : ℕ) (s : List Bool) (t : Tree) (rest : List (ℕ × ℕ))
      (h : Stands adj src n u floor [] s t) (p : Popped t.heap (d, v) rest) where
    rises : floor ≤ d
    rises = (h.entries d v p.among).2

    entries_left : (e x : ℕ) → In (e, x) rest → (x < n) × (at t.dist x ≤ e) × (d ≤ e)
    entries_left e x m =
        let (a, b, c) = h.entries e x (p.others (e, x) m) in
        (a, b, p.least (e, x) (p.others (e, x) m))

    -- An entry that is out of date is dropped.
    pub Stands-stale : at t.dist v < d → Stands adj src n u d [] s (record t { heap = rest })
    Stands-stale stale = record {
      sizes = h.sizes;
      source = h.source;
      capped = h.capped;
      real = h.real;
      entries = entries_left;
      distinct = (p.apart h.distinct).1;
      low = λ x k. (omega (arith, (h.low x k).0, rises), λ m. (h.low x k).1 (p.others _ m));
      relaxed = h.relaxed;
      waiting = λ x k l. elim (p.all _ (h.waiting x k l)) [
        | inr m ↦ m
        | inl f ↦
            let cost : d ≡ at t.dist x = ap (λ e. e.0) f in
            let node : at t.dist v ≡ at t.dist x = ap (λ e. at t.dist e.1) f in
            absurd (omega (arith, stale, cost, node))
      ];
    }

    -- The node of an entry that is up to date has not been settled.
    pub fresh : d ≤ at t.dist v → (at t.dist v ≡ d) × (get_elem? s v ≡ some false)
    fresh up_to_date =
        let (below, le, low) = h.entries d v p.among in
        let same : at t.dist v ≡ d = omega (arith, up_to_date, le) in
        (
          same,
          elim (flag_cases s v (omega (arith, below, h.sizes.2))) [
            | inr f ↦ f
            | inl k ↦ absurd ((h.low v k).1 (subst (λ z. In (z, v) t.heap) (sym same) p.among))
          ],
        )

    -- It is settled with all its links to do.
    pub Stands-settle :
        (row : List (ℕ × ℕ))
        → at t.dist v ≡ d
        → get_elem? s v ≡ some false
        → get_elem? adj v ≡ some row
        → Stands adj src n v d row (set s v true) (record t { heap = rest })
    Stands-settle row same is_new links = record {
      sizes = (h.sizes.0, h.sizes.1, length-set s v true ∙ h.sizes.2);
      source = h.source;
      capped = h.capped;
      real = h.real;
      entries = entries_left;
      distinct = (p.apart h.distinct).1;
      low = λ x k. elim (same_node v x) [
        | inl e ↦
            let at_x : at t.dist x ≡ d = ap (at t.dist) (sym e) ∙ same in
            (
              omega (arith, at_x),
              λ m.
                  (p.apart h.distinct).0
                    (subst (λ z. In (d, z) rest) (sym e) (subst (λ z. In (z, x) rest) at_x m)),
            )
        | inr ne ↦
            let k' = old x ne k in
            (omega (arith, (h.low x k').0, rises), λ m. (h.low x k').1 (p.others _ m))
      ];
      relaxed = λ x y w k l. elim (same_node v x) [
        | inl e ↦ inl (sym e, in_row x y w e l)
        | inr ne ↦ elim (h.relaxed x y w (old x ne k) l) [ inl (f, m) ↦ elim m [ ] | inr r ↦ inr r ]
      ];
      waiting = λ x k l.
          let ne : v ≢ x = λ e. is_open x e k in
          elim (p.all _ (h.waiting x (sym (get_elem?-set_ne s v x true ne) ∙ k) l)) [
            | inr m ↦ m
            | inl f ↦ absurd (ne (ap (λ e. e.1) f))
          ];
    }
      where
        old : (x : ℕ) → v ≢ x → Settled (set s v true) x → Settled s x
        old x ne k = sym (get_elem?-set_ne s v x true ne) ∙ k

        in_row : (x y w : ℕ) → v ≡ x → Edge adj x y w → In (y, w) row
        in_row x y w e (row', f, m) =
            let g : row' ≡ row =
              let q : some row' ≡ some row = sym f ∙ ap (get_elem? adj) (sym e) ∙ links in cc in
            subst (In (y, w)) g m

        is_open : (x : ℕ) → v ≡ x → get_elem? (set s v true) x ≢ some false
        is_open x e k =
            let q : some true ≡ some false =
              sym (get_elem?-set_self s v true (get_elem?-lt s v is_new))
              ∙ ap (get_elem? (set s v true)) e
              ∙ k in
            cc
