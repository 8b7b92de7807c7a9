-- ===== src/Routing/Dijkstra/Loop.antt =====
-- The loop of `dijkstra_table` in crates/ndn-sim-studies/src/routing.rs ends.
use ndn_sim.Prelude.{
  ℕ, zero, suc, ◌+◌, ◌<◌, ◌≡◌, refl, sym, subst, ◌⊎◌, inl, inr, Bool, true, List, [], ◌∷◌, arith,
  ltb, length, get_elem?-lt, get_elem?-set_self, set, All, In, here, there, Bool-cases, Returns,
  Returns->>=,
}
use ndn_sim.Routing.{TopologyView}
use ndn_sim.Routing.Dijkstra.{Tree, pop_from, relax, run}
use ndn_sim.Routing.View.{Edge, IsView, row_at}
use ndn_sim.Routing.Dijkstra.State.{at, get_elem?-at, Stands}
use ndn_sim.Routing.Dijkstra.Relax.{pending, Relaxed, relax-Relaxed}
use ndn_sim.Routing.Dijkstra.Pop.{
  Popped, pop_from-Popped, pending-set, Stands-stale, fresh, Stands-settle,
}

-- A search that has come to its end.
abbrev pub Ends : List (List (ℕ × ℕ)) → ℕ → ℕ → Tree → Type 0
Ends adj src n t =
    (u : ℕ) × (floor : ℕ) × (s : List Bool) × Stands adj src n u floor [] s t × (t.heap ≡ [])

all_In : (P : ℕ × ℕ → Type 0) (es : List (ℕ × ℕ)) → ((e : ℕ × ℕ) → In e es → P e) → All P es
all_In P [] f = tt
all_In P (e ∷ es) f = (f e (here refl), all_In P es (λ x m. f x (there m)))

heap_cases : (xs : List (ℕ × ℕ)) → (xs ≡ []) ⊎ ((y : ℕ × ℕ) × (ys : List (ℕ × ℕ)) × (xs ≡ y ∷ ys))
heap_cases [] = inl refl
heap_cases (y ∷ ys) = inr (y, ys, refl)

-- With fuel above the entries of the heap and the links of the nodes that are not settled the loop
-- ends.
pub run-Ends :
    (view : TopologyView) (src : ℕ)
    → IsView view
    → (fuel u floor : ℕ) (s : List Bool) (t : Tree) → Stands view.adj src view.n u floor [] s t
    → length t.heap + pending s view.adj < fuel
    → Returns (Ends view.adj src view.n) (run fuel view.adj src t)
unfolding run
run-Ends view src good zero u floor s t h l = absurd (omega arith)
run-Ends view src good (suc fuel) u floor s t h l = elim (heap_cases t.heap) [
  | inl e ↦ rw (e, run) (u, floor, s, h, e)
  | inr (y, ys, e) ↦
      let d = (pop_from y ys).0.0 in
      let v = (pop_from y ys).0.1 in
      let rest = (pop_from y ys).1 in
      let p : Popped t.heap (d, v) rest =
        subst (λ z. Popped z (d, v) rest) (sym e) (pop_from-Popped y ys) in
      let t1 : Tree = record t { heap = rest } in
      let below = (h.entries d v p.among).0 in
      let read = get_elem?-at t.dist v (omega (arith, below, h.sizes.0)) in
      elim (Bool-cases (ltb (at t.dist v) d)) [
        | inl stale ↦
            rw (e, run, read, stale)
              (run-Ends view src good fuel u d s t1
                (Stands-stale view.adj src view.n u floor d v s t rest h p (ground arith))
                (omega (arith, l, p.count)))
        | inr up_to_date ↦
            let (same, new) = fresh view.adj src view.n u floor d v s t rest h p (ground arith) in
            let (row, links) = row_at view.adj v (omega (arith, below, good.rows)) in
            let h1 =
              Stands-settle view.adj src view.n u floor d v s t rest h p row same new links in
            let todo =
              all_In (λ q. (q.0 < view.n) × Edge view.adj v q.0 q.1) row
                (λ q m. (good.ends v q.0 q.1 (row, links, m), (row, links, m))) in
            rw (e, run, read, up_to_date, links)
              (Returns->>= (Relaxed view.adj src view.n v d row (set s v true) t1) _
                (relax src d v row t1) _
                (relax-Relaxed view.adj src view.n v d row (set s v true) t1
                  (get_elem?-set_self s v true (get_elem?-lt s v new)) todo h1 same)
                λ t2 (h2, more).
                  run-Ends view src good fuel v d (set s v true) t2 h2
                    (omega (arith, l, p.count, more, pending-set s view.adj v row new links)))
      ]
]
