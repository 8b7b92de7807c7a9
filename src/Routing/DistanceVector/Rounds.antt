-- ===== src/Routing/DistanceVector/Rounds.antt =====
-- The rounds of `DistanceVector::compute` in crates/ndn-sim-studies/src/routing.rs: each takes the
-- distances at least one link further.
use ndn_sim.Prelude.{
  ℕ, ◌+◌, ◌≤◌, ◌<◌, ◌≡◌, ◌≢◌, refl, sym, ◌∙◌, subst, ◌⊎◌, inl, inr, true, false, ◌&&◌, List, some,
  ◌>>=◌, arith, Bool-cases, ◌==◌, ==_iff, false≢true, ltb, In, range, In-range, Returns,
  Returns->>=, Returns-mono,
}
use ndn_sim.Routing.{TopologyView}
use ndn_sim.Routing.View.{Edge, row_at}
use ndn_sim.Routing.Dijkstra.{u32_max, sat_add32, no_hop}
use ndn_sim.Routing.Dijkstra.State.{Walk, stay, Via, Via-Walk, same_node}
use ndn_sim.Routing.Dijkstra.Shortest.{range-below}
use ndn_sim.Routing.DistanceVector.{
  Vectors, cell, put, loop_over, consider, neighbour, node_round, round,
}
use ndn_sim.Routing.DistanceVector.Grid.{at2, cell-at2, Put, put-Put}
use ndn_sim.Routing.DistanceVector.Sound.{
  IsSized, Sound, Onto, Near, Onto-refl, Near-within, loop_over-Sound,
}

passed_over :
    (w dv du max_metric : ℕ)
    → (ltb (sat_add32 w dv) max_metric && ltb (sat_add32 w dv) du) ≡ false
    → max_metric ≤ u32_max
    → w + dv < max_metric
    → du ≤ w + dv
passed_over w dv du max_metric e l k = ground arith

taken :
    (w dv du max_metric : ℕ)
    → (ltb (sat_add32 w dv) max_metric && ltb (sat_add32 w dv) du) ≡ true
    → max_metric ≤ u32_max
    → (sat_add32 w dv ≡ w + dv) × (w + dv < max_metric) × (w + dv < du)
taken w dv du max_metric e l = (ground arith, ground arith, ground arith)

-- A distance that is known is that of a walk.
Sound-Walk :
    (max_metric : ℕ) (view : TopologyView) (s : Vectors) (v d : ℕ)
    → Sound max_metric view s
    → v < view.n
    → d < view.n
    → at2 s.dist v d ≢ u32_max
    → Walk view.adj v d (at2 s.dist v d)
Sound-Walk max_metric view s v d h lv ld ne = elim (same_node v d) [
  | inl e ↦
      let zero_there : at2 s.dist v d ≡ 0 = subst (λ z. at2 s.dist v z ≡ 0) e (h.home v lv) in
      rw zero_there (subst (λ z. Walk view.adj v z 0) e stay)
  | inr far ↦ elim (same_node (at2 s.next v d) no_hop) [
    | inl f ↦ absurd (ne (h.idle v d lv ld far f))
    | inr f ↦ Via-Walk view.adj v (at2 s.next v d) d (at2 s.dist v d) (h.way v d lv ld f).0
  ]
]

Sound-Put :
    (max_metric : ℕ) (view : TopologyView) (s : Vectors) (u v w d c : ℕ) (dist next : List (List ℕ))
    → IsSized max_metric view
    → Sound max_metric view s
    → u < view.n
    → v < view.n
    → Via view.adj u v d c
    → c < max_metric
    → c < at2 s.dist u d
    → Put view.n s.dist u d c dist
    → Put view.n s.next u d v next
    → Sound max_metric view (record { dist = dist; next = next; changed = true })
Sound-Put max_metric view s u v w d c dist next sized h lu lv via few fall p q = record {
  dist = p.grid;
  next = q.grid;
  home = λ a l. elim (here_or_not a a) [
    | inl (e, f) ↦
        absurd (omega (arith, fall, subst (λ z. at2 s.dist u z ≡ 0) (sym e ∙ f) (h.home u lu)))
    | inr ne ↦ p.others a a ne ∙ h.home a l
  ];
  way = λ a b la lb some_hop. elim (here_or_not a b) [
    | inl (e, f) ↦ rw (e, f, p.self, q.self) (via, few)
    | inr ne ↦
        let x = q.others a b ne in rw (x, p.others a b ne) (h.way a b la lb (λ z. some_hop (x ∙ z)))
  ];
  idle = λ a b la lb apart no. elim (here_or_not a b) [
    | inl (e, f) ↦
        let x : at2 next u d ≡ no_hop =
          subst (λ z. at2 next z d ≡ no_hop) e (subst (λ z. at2 next a z ≡ no_hop) f no) in
        absurd (omega (arith, lv, sized.nodes, q.self, x))
    | inr ne ↦ p.others a b ne ∙ h.idle a b la lb apart (sym (q.others a b ne) ∙ no)
  ];
}
  where
    here_or_not : (a b : ℕ) → ((a ≡ u) × (b ≡ d)) ⊎ ((a ≢ u) ⊎ (b ≢ d))
    here_or_not a b = elim (same_node a u) [
      | inr ne ↦ inr (inl ne)
      | inl e ↦ elim (same_node b d) [ inl f ↦ inl (e, f) | inr ne ↦ inr (inr ne) ]
    ]

consider-Near :
    (max_metric : ℕ) (view : TopologyView) (u v w d : ℕ)
    → IsSized max_metric view
    → u < view.n
    → d < view.n
    → Edge view.adj u v w
    → (s : Vectors) → Sound max_metric view s
    → Returns
        (λ s'. Sound max_metric view s' × Onto s s' × Near max_metric u v w d s s')
        (consider max_metric u v w d s)
unfolding consider Near
consider-Near max_metric view u v w d sized lu ld link s h =
    let n = view.n in
    let lv : v < n = sized.good.ends u v w link in
    let dv = at2 s.dist v d in
    let du = at2 s.dist u d in
    let see_v : cell s.dist v d ≡ some dv = cell-at2 n s.dist v d h.dist lv ld in
    let see_u : cell s.dist u d ≡ some du = cell-at2 n s.dist u d h.dist lu ld in
    elim (Bool-cases (dv == u32_max)) [
      | inl y ↦
          rw (see_v, ◌>>=◌, y, consider)
            (h, Onto-refl s, λ l. absurd (omega (arith, l, (==_iff dv u32_max).0 y, sized.metric)))
      | inr y ↦ elim (Bool-cases (ltb (sat_add32 w dv) max_metric && ltb (sat_add32 w dv) du)) [
        | inr f ↦
            rw (see_v, ◌>>=◌, y, see_u, ◌>>=◌, f, consider)
              (h, Onto-refl s, λ l. passed_over w dv du max_metric f sized.metric l)
        | inl f ↦
            let (sum, few, fall) = taken w dv du max_metric f sized.metric in
            let walk =
              Sound-Walk max_metric view s v d h lv ld
                (λ z. false≢true (sym y ∙ (==_iff dv u32_max).1 z)) in
            rw (see_v, ◌>>=◌, y, see_u, ◌>>=◌, f, sum, consider)
              (Returns->>= (Put n s.dist u d (w + dv)) _ (put s.dist u d (w + dv)) _
                (put-Put n s.dist u d (w + dv) h.dist lu ld)
                λ dist p.
                  Returns->>= (Put n s.next u d v) _ (put s.next u d v) _
                    (put-Put n s.next u d v h.next lu ld)
                    λ next q. (
                      Sound-Put max_metric view s u v w d (w + dv) dist next sized h lu lv
                          (w, dv, link, walk, refl) few fall p q,
                      record {
                        lower = λ a b. falls a b dist p fall;
                        still = λ e. absurd (false≢true (sym e));
                      },
                      λ l. omega (arith, p.self),
                    ))
      ]
    ]
  where
    falls :
        (a b : ℕ) (dist : List (List ℕ))
        → Put view.n s.dist u d (w + at2 s.dist v d) dist
        → w + at2 s.dist v d < at2 s.dist u d
        → at2 dist a b ≤ at2 s.dist a b
    falls a b dist p fall = elim (same_node a u) [
      | inr ne ↦ omega (arith, p.others a b (inl ne))
      | inl e ↦ elim (same_node b d) [
        | inr ne ↦ omega (arith, p.others a b (inr ne))
        | inl f ↦ rw (e, f) (omega (arith, p.self, fall))
      ]
    ]

-- A round looks at every way by one link.
pub round-Near :
    (max_metric : ℕ) (view : TopologyView)
    → IsSized max_metric view
    → (s : Vectors) → Sound max_metric view s
    → Returns
        (λ s'.
          Sound max_metric view s'
          × Onto (record s { changed = false }) s'
          × ((u v w d : ℕ)
              → u < view.n
              → d < view.n
              → Edge view.adj u v w
              → Near max_metric u v w d s s'))
        (round max_metric view s)
unfolding round node_round neighbour Near
round-Near max_metric view sized s h =
    Returns-mono _ _ (round max_metric view s)
      (λ s' q. (
        q.0,
        q.1,
        λ u v w d lu ld e. q.2 u (In-range 0 n u (omega arith) (omega (arith, lu))) v w d ld e,
      ))
      (loop_over-Sound max_metric view (node_round max_metric view)
        (λ u s s'. (v w d : ℕ) → d < n → Edge view.adj u v w → Near max_metric u v w d s s')
        (λ u s0 s s' s2 a b g v w d l e.
          Near-within max_metric u v w d s0 s s' s2 a b (g v w d l e))
        (range 0 n)
        (λ u m t k.
          let lu : u < n = range-below 0 n n (omega arith) u m in
          let (row, at_u) = row_at view.adj u (omega (arith, lu, sized.good.rows)) in
          rw (at_u, node_round)
            (Returns-mono _ _ (loop_over (neighbour max_metric n u) row t)
              (λ s' q. (
                q.0,
                q.1,
                λ v w d l (r, f, p).
                    let same : some r ≡ some row = sym f in
                    let this : r ≡ row = cc in q.2 (v, w) (subst (In (v, w)) this p) d l,
              ))
              (loop_over-Sound max_metric view (neighbour max_metric n u)
                (λ e s s'. (d : ℕ) → d < n → Near max_metric u e.0 e.1 d s s')
                (λ e s0 s s' s2 a b g d l.
                  Near-within max_metric u e.0 e.1 d s0 s s' s2 a b (g d l))
                row
                (λ (v, w) p t' k'.
                  Returns-mono _ _ (neighbour max_metric n u (v, w) t')
                    (λ s' q.
                      (q.0, q.1, λ d l. q.2 d (In-range 0 n d (omega arith) (omega (arith, l)))))
                    (loop_over-Sound max_metric view (λ d. consider max_metric u v w d)
                      (λ d s s'. Near max_metric u v w d s s')
                      (λ d s0 s s' s2 a b g. Near-within max_metric u v w d s0 s s' s2 a b g)
                      (range 0 n)
                      (λ d z t'' k''.
                        consider-Near max_metric view u v w d sized lu
                          (range-below 0 n n (omega arith) d z) (row, at_u, p) t'' k'')
                      t' k'))
                t k)))
        (record s { changed = false })
        (record { dist = h.dist; next = h.next; home = h.home; way = h.way; idle = h.idle }))
  where
    n : ℕ
    n = view.n
