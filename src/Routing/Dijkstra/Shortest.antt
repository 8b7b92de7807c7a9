-- ===== src/Routing/Dijkstra/Shortest.antt =====
-- The table of `dijkstra_table` in crates/ndn-sim-studies/src/routing.rs holds shortest walks.
use ndn_sim.Prelude.{
  ℕ, zero, suc, ◌+◌, ◌≤◌, ◌<◌, ◌≡◌, ◌≢◌, refl, sym, ◌∙◌, ap, subst, inl, inr, Bool, true, false,
  not, ◌&&◌, List, [], ◌∷◌, arith, ltb, lt→ltb, length, All, In, here, there, Bool-cases, ◌==◌,
  Returns, Returns->>=, Returns-mono, range, In-range,
}
use ndn_sim.Routing.{TopologyView}
use ndn_sim.Routing.Dijkstra.{
  Tree, RouteEntry, u32_max, run, edges, table, start_tree, dijkstra_table,
}
use ndn_sim.Routing.View.{Edge, IsView}
use ndn_sim.Routing.Dijkstra.State.{Walk, stay, along, Via, at, get_elem?-at, Settled, Stands}
use ndn_sim.Routing.Dijkstra.Pop.{flag_cases}
use ndn_sim.Routing.Dijkstra.Loop.{Ends, run-Ends}
use ndn_sim.Routing.Dijkstra.Start.{none_settled, pending-none_settled, start-Stands}

-- No walk from a settled node is shorter than the distances say.
Ends-least :
    (adj : List (List (ℕ × ℕ))) (src n : ℕ) (t : Tree) (u floor : ℕ) (s : List Bool)
    → Stands adj src n u floor [] s t
    → t.heap ≡ []
    → ((v w x : ℕ) → Edge adj v x w → x < n)
    → {x y c : ℕ} → Walk adj x y c
    → Settled s x
    → at t.dist x + c < u32_max
    → (at t.dist y ≤ at t.dist x + c) × Settled s y
Ends-least adj src n t u floor s h idle ends stay k l = (omega arith, k)
Ends-least adj src n t u floor s h idle ends (along {x} {y} {w = w} {c = c} link rest e) k l =
    elim (h.relaxed x y w k link) [
      | inl (f, m) ↦ elim m [ ]
      | inr near ↦
          let settled : Settled s y =
            elim (flag_cases s y (omega (arith, ends x w y link, h.sizes.2))) [
              | inl f ↦ f
              | inr f ↦ absurd (nothing (h.waiting y f (omega (arith, near, e, l))))
            ] in
          let (le, last) =
            Ends-least adj src n t u floor s h idle ends rest settled (omega (arith, near, e, l)) in
          (omega (arith, le, near, e), last)
    ]
  where
    nothing : {q : ℕ × ℕ} → In q t.heap → ⊥
    nothing {q} m = elim (subst (In q) idle m) [ ]

-- What the filter and the map over the nodes `ds` give.
record Rows (src : ℕ) (t : Tree) (ds : List ℕ) (rows : List RouteEntry) : Type 0 where
  sound :
      (r : RouteEntry)
      → In r rows
      → In r.dest ds
        × (r.dest ≢ src)
        × (r.metric ≢ u32_max)
        × (r.metric ≡ at t.dist r.dest)
        × (r.next_hop ≡ at t.first_hop r.dest)
  complete :
      (v : ℕ)
      → In v ds
      → v ≢ src
      → at t.dist v ≢ u32_max
      → (r : RouteEntry) × In r rows × (r.dest ≡ v)

table-Rows :
    (src : ℕ) (t : Tree) (ds : List ℕ)
    → All (λ d. (d < length t.dist) × (d < length t.first_hop)) ds
    → Returns (Rows src t ds) (table src t ds)
table-Rows src t [] h = record { sound = λ r m. elim m [ ]; complete = λ v m. elim m [ ] }
table-Rows src t (d ∷ ds) h =
    rw (get_elem?-at t.dist d h.0.0, get_elem?-at t.first_hop d h.0.1)
      (Returns->>= (Rows src t ds) _ (table src t ds) _ (table-Rows src t ds h.1) λ rows k.
        elim (Bool-cases (not (d == src) && not (at t.dist d == u32_max))) [
          | inr skip ↦ rw skip (record {
            sound = λ r m. let q = k.sound r m in (there q.0, q.1, q.2, q.3, q.4);
            complete = λ v m ne fin. elim m [
              | there m' ↦ k.complete v m' ne fin
              | here e ↦
                  absurd (kept d (λ f. ne (sym e ∙ f)) (λ f. fin (ap (at t.dist) (sym e) ∙ f)) skip)
            ];
          })
          | inl keep ↦ rw keep (record {
            sound = λ r m. elim m [
              | there m' ↦ let q = k.sound r m' in (there q.0, q.1, q.2, q.3, q.4)
              | here e ↦ rw (← e) (here refl, (tests d keep).0, (tests d keep).1, refl, refl)
            ];
            complete = λ v m ne fin. elim m [
              | here e ↦ (_, here refl, e)
              | there m' ↦ let (r, q, f) = k.complete v m' ne fin in (r, there q, f)
            ];
          })
        ])
  where
    kept :
        (d : ℕ)
        → d ≢ src
        → at t.dist d ≢ u32_max
        → (not (d == src) && not (at t.dist d == u32_max)) ≡ false
        → ⊥
    kept d a b e = ground arith

    tests :
        (d : ℕ)
        → (not (d == src) && not (at t.dist d == u32_max)) ≡ true
        → (d ≢ src) × (at t.dist d ≢ u32_max)
    tests d e = ground arith

-- A table of shortest walks from `src`: each entry has the least cost of a walk to its destination
-- and the first node of such a walk, and each other node that a walk of cost below u32::MAX reaches
-- has an entry.
pub record IsShortest (view : TopologyView) (src : ℕ) (rows : List RouteEntry) : Type 0 where
  pub others :
      (r : RouteEntry) → In r rows → (r.dest < view.n) × (r.dest ≢ src) × (r.metric < u32_max)
  pub walks : (r : RouteEntry) → In r rows → Via view.adj src r.next_hop r.dest r.metric
  pub least : (r : RouteEntry) → In r rows → (c : ℕ) → Walk view.adj src r.dest c → r.metric ≤ c
  pub complete :
      (v c : ℕ)
      → v ≢ src
      → Walk view.adj src v c
      → c < u32_max
      → (r : RouteEntry) × In r rows × (r.dest ≡ v)

pub range-below : (lo k n : ℕ) → lo + k ≤ n → (v : ℕ) → In v (range lo k) → v < n
range-below lo zero n l v m = elim m [ ]
range-below lo (suc k) n l v m = elim m [
  | here e ↦ omega (arith, e)
  | there m' ↦ range-below (suc lo) k n (omega arith) v m'
]

all_range : (P : ℕ → Type 0) (lo k : ℕ) → ((v : ℕ) → v < lo + k → P v) → All P (range lo k)
all_range P lo zero f = tt
all_range P lo (suc k) f = (f lo (omega arith), all_range P (suc lo) k (λ v l. f v (omega arith)))

pub Walk-below :
    (view : TopologyView)
    → IsView view
    → {x v c : ℕ} → Walk view.adj x v c
    → x < view.n
    → v < view.n
Walk-below view good stay l = l
Walk-below view good (along {x} {y} {w = w} k rest e) l =
    Walk-below view good rest (good.ends x y w k)

Rows-IsShortest :
    (view : TopologyView) (src : ℕ) (t : Tree) (rows : List RouteEntry)
    → IsView view
    → src < view.n
    → Ends view.adj src view.n t
    → Rows src t (range 0 view.n) rows
    → IsShortest view src rows
Rows-IsShortest view src t rows good l (u, floor, s, h, idle) k =
    let settled : Settled s src = elim (flag_cases s src (omega (arith, l, h.sizes.2))) [
      | inl f ↦ f
      | inr f ↦ absurd (nothing (h.waiting src f (omega (arith, h.source))))
    ] in
    let below : (v : ℕ) → In v (range 0 view.n) → v < view.n =
      range-below 0 view.n view.n (omega arith) in
    let bound : (v c : ℕ) → Walk view.adj src v c → c < u32_max → at t.dist v ≤ c = λ v c w f.
      omega (
        arith,
        h.source,
        (Ends-least view.adj src view.n t u floor s h idle (λ a b x e. good.ends a x b e) w settled
            (omega (arith, h.source, f))).0,
      ) in
    let finite : (r : RouteEntry) → In r rows → at t.dist r.dest < u32_max =
      λ r m. omega (arith, (k.sound r m).2, (k.sound r m).3, h.capped r.dest) in
    record {
      others =
          λ r m. let q = k.sound r m in (below r.dest q.0, q.1, omega (arith, q.3, finite r m));
      walks = λ r m.
          let q = k.sound r m in
          elim (h.real r.dest (below r.dest q.0) (finite r m)) [
            | inl e ↦ absurd (q.1 e)
            | inr v ↦ rw (q.3, q.4) v
          ];
      least = λ r m c w. elim (Bool-cases (ltb c u32_max)) [
        | inl e ↦ omega (arith, (k.sound r m).3, bound r.dest c w (ground arith))
        | inr e ↦ omega (arith, (k.sound r m).3, h.capped r.dest, big c e)
      ];
      complete = λ v c ne w f.
          k.complete v (In-range 0 view.n v (omega arith) (omega (arith, Walk-below view good w l)))
            ne (λ e. absurd (omega (arith, e, bound v c w f, f)));
    }
  where
    nothing : {q : ℕ × ℕ} → In q t.heap → ⊥
    nothing {q} m = elim (subst (In q) idle m) [ ]

    big : (c : ℕ) → ltb c u32_max ≡ false → u32_max ≤ c
    big c e = ground arith

-- For a view whose links lead to nodes the search from a node ends, with a table of shortest walks.
pub dijkstra_table-IsShortest :
    (view : TopologyView) (src : ℕ)
    → IsView view
    → src < view.n
    → Returns (IsShortest view src) (dijkstra_table view src)
unfolding dijkstra_table
dijkstra_table-IsShortest view src good l =
    rw (lt→ltb src view.n l, dijkstra_table)
      (Returns->>= (Ends view.adj src view.n) _
        (run (suc (suc (edges view.adj))) view.adj src (start_tree view.n src)) _
        (run-Ends view src good (suc (suc (edges view.adj))) src 0 (none_settled view.n)
          (start_tree view.n src) (start-Stands view.adj src view.n l)
          (omega (arith, pending-none_settled view.adj view.n)))
        λ t end.
          Returns-mono (Rows src t (range 0 view.n)) (IsShortest view src)
            (table src t (range 0 view.n)) (λ rows k. Rows-IsShortest view src t rows good l end k)
            (table-Rows src t (range 0 view.n) (
              all_range _ 0 view.n
                (λ v f. (omega (arith, f, end.3.sizes.0), omega (arith, f, end.3.sizes.1))))))
