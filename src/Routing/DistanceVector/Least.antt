-- ===== src/Routing/DistanceVector/Least.antt =====
-- What `DistanceVector::compute` of crates/ndn-sim-studies/src/routing.rs finds.
use ndn_sim.Prelude.{
  ℕ, zero, suc, ◌+◌, ◌≤◌, ◌<◌, ◌≡◌, ◌≢◌, refl, sym, ◌∙◌, ap, subst, inl, inr, true, false, not,
  ◌&&◌, List, [], ◌∷◌, some, ◌>>=◌, arith, Bool-cases, ◌==◌, ltb, length, get_elem?, In, here,
  there, range, In-range, Returns, Returns->>=,
}
use ndn_sim.Routing.{TopologyView}
use ndn_sim.Routing.Dijkstra.{no_hop, RouteEntry}
use ndn_sim.Routing.Dijkstra.State.{Walk, Via}
use ndn_sim.Routing.Dijkstra.Shortest.{range-below}
use ndn_sim.Routing.DistanceVector.{
  Vectors, rounds, start_vectors, vector_row, vector_rows, distance_vector,
}
use ndn_sim.Routing.DistanceVector.Grid.{at2, cell-at2}
use ndn_sim.Routing.DistanceVector.Simple.{Hops-simple}
use ndn_sim.Routing.DistanceVector.Sound.{IsSized, Sound}
use ndn_sim.Routing.DistanceVector.Known.{Known, rounds-Known, start-Sound, start-Known}

-- What a table has for the nodes `ds`.
record Listed (n : ℕ) (s : Vectors) (u : ℕ) (ds : List ℕ) (rows : List RouteEntry) : Type 0 where
  sound :
      (r : RouteEntry)
      → In r rows
      → In r.dest ds
        × (r.dest ≢ u)
        × (r.next_hop ≢ no_hop)
        × (r.next_hop ≡ at2 s.next u r.dest)
        × (r.metric ≡ at2 s.dist u r.dest)
  complete :
      (d : ℕ)
      → In d ds
      → d ≢ u
      → at2 s.next u d ≢ no_hop
      → (r : RouteEntry) × In r rows × (r.dest ≡ d)

vector_row-Listed :
    (max_metric : ℕ) (view : TopologyView) (s : Vectors) (u : ℕ)
    → Sound max_metric view s
    → u < view.n
    → (ds : List ℕ) → ((d : ℕ) → In d ds → d < view.n)
    → Returns (Listed view.n s u ds) (vector_row s u ds)
vector_row-Listed max_metric view s u h lu [] below = record {
  sound = λ r m. elim m [ ];
  complete = λ d m. elim m [ ];
}
vector_row-Listed max_metric view s u h lu (d ∷ ds) below =
    let ld = below d (here refl) in
    let see_next = cell-at2 view.n s.next u d h.next lu ld in
    let see_dist = cell-at2 view.n s.dist u d h.dist lu ld in
    rw (see_next, ◌>>=◌, see_dist, ◌>>=◌)
      (Returns->>= (Listed view.n s u ds) _ (vector_row s u ds) _
        (vector_row-Listed max_metric view s u h lu ds (λ x m. below x (there m)))
        λ rows k. elim (Bool-cases (not (d == u) && not (at2 s.next u d == no_hop))) [
          | inr skip ↦ rw skip (record {
            sound = λ r m. let q = k.sound r m in (there q.0, q.1, q.2, q.3, q.4);
            complete = λ x m ne some_hop. elim m [
              | there m' ↦ k.complete x m' ne some_hop
              | here e ↦ absurd (
                  kept d (λ f. ne (sym e ∙ f)) (λ f. some_hop (ap (at2 s.next u) (sym e) ∙ f)) skip)
            ];
          })
          | inl keep ↦ rw keep (record {
            sound = λ r m. elim m [
              | there m' ↦ let q = k.sound r m' in (there q.0, q.1, q.2, q.3, q.4)
              | here e ↦ rw (← e) (here refl, (tests d keep).0, (tests d keep).1, refl, refl)
            ];
            complete = λ x m ne some_hop. elim m [
              | here e ↦ (_, here refl, e)
              | there m' ↦ let (r, q, f) = k.complete x m' ne some_hop in (r, there q, f)
            ];
          })
        ])
  where
    kept :
        (d : ℕ)
        → d ≢ u
        → at2 s.next u d ≢ no_hop
        → (not (d == u) && not (at2 s.next u d == no_hop)) ≡ false
        → ⊥
    kept d a b e = ground arith

    tests :
        (d : ℕ)
        → (not (d == u) && not (at2 s.next u d == no_hop)) ≡ true
        → (d ≢ u) × (at2 s.next u d ≢ no_hop)
    tests d e = ((λ f. ground arith), (λ f. ground arith))

-- A table of the shortest walks of cost below the infinity.
pub record IsConverged (max_metric : ℕ) (view : TopologyView) (u : ℕ) (rows : List RouteEntry)
    : Type 0 where
  pub others :
      (r : RouteEntry) → In r rows → (r.dest < view.n) × (r.dest ≢ u) × (r.metric < max_metric)
  pub walks : (r : RouteEntry) → In r rows → Via view.adj u r.next_hop r.dest r.metric
  pub least : (r : RouteEntry) → In r rows → (c : ℕ) → Walk view.adj u r.dest c → r.metric ≤ c
  pub complete :
      (d c : ℕ)
      → d < view.n
      → d ≢ u
      → Walk view.adj u d c
      → c < max_metric
      → (r : RouteEntry) × In r rows × (r.dest ≡ d)

Listed-IsConverged :
    (max_metric : ℕ) (view : TopologyView) (s : Vectors) (u : ℕ) (rows : List RouteEntry)
    → IsSized max_metric view
    → Sound max_metric view s
    → Known max_metric view view.n s
    → u < view.n
    → Listed view.n s u (range 0 view.n) rows
    → IsConverged max_metric view u rows
unfolding Known
Listed-IsConverged max_metric view s u rows sized h known lu k =
    let below : (d : ℕ) → In d (range 0 view.n) → d < view.n =
      range-below 0 view.n view.n (omega arith) in
    let way : (r : RouteEntry)
        → In r rows
        → Via view.adj u (at2 s.next u r.dest) r.dest (at2 s.dist u r.dest)
          × (at2 s.dist u r.dest < max_metric) =
      λ r m. let q = k.sound r m in h.way u r.dest lu (below r.dest q.0) (λ e. q.2 (q.3 ∙ e)) in
    record {
      others =
          λ r m. let q = k.sound r m in (below r.dest q.0, q.1, omega (arith, q.4, (way r m).1));
      walks = λ r m. let q = k.sound r m in rw (q.3, q.4) (way r m).0;
      least = λ r m c0 walk0.
          let q = k.sound r m in
          let (j, c, walk, le, cheap) = Hops-simple view sized.good walk0 lu in
          elim (Bool-cases (ltb c max_metric)) [
            | inl y ↦
                omega (
                  arith,
                  q.4,
                  cheap,
                  known u r.dest j c walk le lu (below r.dest q.0) (ground arith),
                )
            | inr y ↦ omega (arith, q.4, cheap, (way r m).1, big c y)
          ];
      complete = λ d c0 ld ne walk0 few0.
          let (j, c, walk, le, cheap) = Hops-simple view sized.good walk0 lu in
          let few : c < max_metric = omega (arith, few0, cheap) in
          k.complete d (In-range 0 view.n d (omega arith) (omega (arith, ld))) ne (λ e. absurd (
            omega (
              arith,
              known u d j c walk le lu ld few,
              h.idle u d lu ld (λ f. ne (sym f)) e,
              few,
              sized.metric,
            )));
    }
  where
    big : (c : ℕ) → ltb c max_metric ≡ false → max_metric ≤ c
    big c e = ground arith

-- The tables of the nodes from `lo` on.
pub record AllConverged (max_metric : ℕ) (view : TopologyView) (lo k : ℕ)
    (tables : List (List RouteEntry)) : Type 0 where
  pub count : length tables ≡ k
  pub each :
      (i : ℕ) (rows : List RouteEntry)
      → get_elem? tables i ≡ some rows
      → IsConverged max_metric view (lo + i) rows

vector_rows-AllConverged :
    (max_metric : ℕ) (view : TopologyView) (s : Vectors)
    → IsSized max_metric view
    → Sound max_metric view s
    → Known max_metric view view.n s
    → (lo k : ℕ) → lo + k ≤ view.n
    → Returns (AllConverged max_metric view lo k) (vector_rows s view.n (range lo k))
vector_rows-AllConverged max_metric view s sized h known lo zero l = record {
  count = refl;
  each = λ i rows e. absurd (cc);
}
vector_rows-AllConverged max_metric view s sized h known lo (suc k) l =
    Returns->>= (Listed view.n s lo (range 0 view.n)) _ (vector_row s lo (range 0 view.n)) _
      (vector_row-Listed max_metric view s lo h (omega arith) (range 0 view.n)
        (range-below 0 view.n view.n (omega arith)))
      λ row r.
        Returns->>= (AllConverged max_metric view (suc lo) k) _
          (vector_rows s view.n (range (suc lo) k)) _
          (vector_rows-AllConverged max_metric view s sized h known (suc lo) k (omega arith))
          λ rows q. record {
            count = ap suc q.count;
            each =
                each row rows
                  (Listed-IsConverged max_metric view s lo row sized h known (omega arith) r) q;
          }
  where
    each :
        (row : List RouteEntry) (rows : List (List RouteEntry))
        → IsConverged max_metric view lo row
        → AllConverged max_metric view (suc lo) k rows
        → (i : ℕ) (x : List RouteEntry) → get_elem? (row ∷ rows) i ≡ some x
        → IsConverged max_metric view (lo + i) x
    each row rows r q zero x e =
        let this : lo ≡ lo + 0 = omega arith in
        let same : row ≡ x = cc in
        subst (λ z. IsConverged max_metric view z x) this
          (subst (IsConverged max_metric view lo) same r)
    each row rows r q (suc i) x e =
        let this : suc lo + i ≡ lo + suc i = omega arith in
        subst (λ z. IsConverged max_metric view z x) this (q.each i x e)

-- For a view whose links lead to nodes, and an infinity and a number of nodes that the machine can
-- hold, there is a table for each node, of the shortest walks of cost below the infinity.
pub distance_vector-AllConverged :
    (max_metric : ℕ) (view : TopologyView)
    → IsSized max_metric view
    → Returns (AllConverged max_metric view 0 view.n) (distance_vector max_metric view)
unfolding distance_vector
distance_vector-AllConverged max_metric view sized =
    Returns->>= (λ s. Sound max_metric view s × Known max_metric view (view.n + 0) s) _
      (rounds view.n max_metric view (start_vectors view.n)) _
      (rounds-Known max_metric view view.n 0 (start_vectors view.n) sized
        (start-Sound max_metric view) (start-Known max_metric view))
      λ s (h, known).
        let this : view.n + 0 ≡ view.n = omega arith in
        vector_rows-AllConverged max_metric view s sized h
          (subst (λ z. Known max_metric view z s) this known) 0 view.n (omega arith)
