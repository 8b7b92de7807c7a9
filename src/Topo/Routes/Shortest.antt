-- ===== src/Topo/Routes/Shortest.antt =====
-- The routes that `add_routes_toward` of crates/ndn-sim/src/topo.rs installs follow shortest paths.
use Prim.Native.Nat.{Ordering}
use ndn_sim.Prelude.{
  All-In, ℕ, zero, suc, ◌≤◌, ◌<◌, ◌≡◌, refl, sym, subst, ◌⊎◌, inl, inr, ◌↔◌, List, [], ◌∷◌, ◌++◌,
  map, arith, Bool-cases, lt→leb_false, length, In, here, there, In-append, In-append_left,
  In-append_right, In-map, Returns, Returns->>=, sort_by, sort_into, is_lt,
}
use ndn_sim.Topo.{Link, Scenario, Route}
use ndn_sim.Topo.Routes.{Bfs, begin, search, route, compare_routes, add_routes_toward}
use ndn_sim.Topo.Routes.Search.{Linked, Linked-sym, InRange, Seen, At}
use ndn_sim.Topo.Routes.Loop.{Done, begin-Done, In-nil}

-- A walk of `k` links.
pub data Walk (ls : List Link) : ℕ → ℕ → ℕ → Type 0 where
  stay : {x : ℕ} → Walk ls x x 0
  along : {x y z k : ℕ} → Linked ls x y → Walk ls y z k → Walk ls x z (suc k)

module _ {K : Type 0} (cmp : K → K → Ordering) where
  sort_into_iff : (x : K) (xs : List K) (y : K) → In y (sort_into cmp x xs) ↔ In y (x ∷ xs)
  unfolding sort_into
  sort_into_iff x [] y = (λ m. m, λ m. m)
  sort_into_iff x (z ∷ zs) y = elim (Bool-cases (is_lt (cmp z x))) [
    | inr e ↦ rw (e, sort_into) (λ m. m, λ m. m)
    | inl e ↦
        let ih = sort_into_iff x zs y in
        rw (e, sort_into)
          (
            λ m. swapped z x zs y (under z (sort_into cmp x zs) (x ∷ zs) y ih.0 m),
            λ m. under z (x ∷ zs) (sort_into cmp x zs) y ih.1 (swapped x z zs y m),
          )
  ]
    where
      under : (a : K) (xs ys : List K) (y : K) → (In y xs → In y ys) → In y (a ∷ xs) → In y (a ∷ ys)
      under a xs ys y f (here e) = here e
      under a xs ys y f (there m) = there (f m)

      swapped : (a b : K) (xs : List K) (y : K) → In y (a ∷ b ∷ xs) → In y (b ∷ a ∷ xs)
      swapped a b xs y (here e) = there (here e)
      swapped a b xs y (there (here e)) = here e
      swapped a b xs y (there (there m)) = there (there m)

  -- A sort keeps the elements.
  sort_by_iff : (xs : List K) (y : K) → In y (sort_by cmp xs) ↔ In y xs
  unfolding sort_by
  sort_by_iff [] y = (λ m. m, λ m. m)
  sort_by_iff (x ∷ xs) y =
      let ih = sort_by_iff xs y in
      let at_x = sort_into_iff x (sort_by cmp xs) y in
      (λ m. kept ih.0 (at_x.0 m), λ m. at_x.1 (kept' ih.1 m))
    where
      kept : (In y (sort_by cmp xs) → In y xs) → In y (x ∷ sort_by cmp xs) → In y (x ∷ xs)
      kept f (here e) = here e
      kept f (there m) = there (f m)

      kept' : (In y xs → In y (sort_by cmp xs)) → In y (x ∷ xs) → In y (x ∷ sort_by cmp xs)
      kept' f (here e) = here e
      kept' f (there m) = there (f m)

In-map_inv :
    (prefix : List ℕ) (es : List (ℕ × ℕ)) (r : Route)
    → In r (map (route prefix) es)
    → (e : ℕ × ℕ) × In e es × (r ≡ route prefix e)
In-map_inv prefix [] r m = elim m [ ]
In-map_inv prefix (e ∷ es) r (here f) = (e, here refl, sym f)
In-map_inv prefix (e ∷ es) r (there m) =
    let (e', k, f) = In-map_inv prefix es r m in (e', there k, f)

module _ (links : List Link) (dest n u : ℕ) (d : ℕ → ℕ) (b : Bfs) (h : At links dest n u d [] [] b)
    (idle : b.queue ≡ []) where
  -- What walks to the destination is seen, and no walk is shorter than its hops.
  Walk-Seen : {x k : ℕ} → Walk links x dest k → Seen b x × (d x ≤ k)
  Walk-Seen stay = (h.root.0, omega (arith, h.root.1))
  Walk-Seen (along {x} {y} l w) =
      let ih = Walk-Seen w in
      elim (h.looked y ih.0) [
        | inl m ↦ absurd (In-nil (subst (In y) idle m))
        | inr k ↦ elim (k x (Linked-sym links x y l)) [
          | inl (e, m) ↦ absurd (In-nil m)
          | inr (s, le) ↦ (s, omega (arith, le, ih.1))
        ]
      ]

  -- An entry of the map is one link, to a node that is one hop nearer.
  entry_nearer :
      (v x : ℕ)
      → In (v, x) b.next_hop
      → (Seen b v × Seen b x) × Linked links v x × (d v ≡ suc (d x))
  entry_nearer v x m = All-In _ b.next_hop (v, x) h.hops m

  at_dest : (v : ℕ) → v ≡ dest → Walk links v dest (d v)
  at_dest v e =
      subst (λ z. Walk links z dest (d z)) (sym e)
        (subst (λ z. Walk links dest dest z) (sym h.root.1) stay)

  -- The hops of a node that is seen are the length of a walk.
  towards : (k v : ℕ) → Seen b v → d v < k → Walk links v dest (d v)
  towards zero v s l = absurd (omega arith)
  towards (suc k) v s l = elim (h.found v s) [
    | inl e ↦ at_dest v e
    | inr (x, m) ↦
        let (seen, linked, e) = entry_nearer v x m in
        subst (Walk links v dest) (sym e) (along linked (towards k x seen.1 (omega arith)))
  ]

-- What installing routes for `prefix` toward `dest` promises: `hops` is the least length of a walk to
-- `dest`, every node with a walk has a route to a neighbour that is one hop nearer, and a route is
-- an old one or such a one.
pub record Routed (s : Scenario) (prefix : List ℕ) (dest : ℕ) (hops : ℕ → ℕ) (s' : Scenario)
    : Type 0 where
  pub least : (v k : ℕ) → Walk s.links v dest k → Walk s.links v dest (hops v) × (hops v ≤ k)
  pub covered :
      (v k : ℕ)
      → Walk s.links v dest k
      → (v ≡ dest)
        ⊎ ((x : ℕ) × In (route prefix (v, x)) s'.routes
            × Linked s.links v x
            × (hops v ≡ suc (hops x)))
  pub sound :
      (r : Route)
      → In r s'.routes
      → In r s.routes
        ⊎ ((r.prefix ≡ prefix)
            × Linked s.links r.node r.nexthop
            × Walk s.links r.nexthop dest (hops r.nexthop)
            × (hops r.node ≡ suc (hops r.nexthop)))
  pub kept : (r : Route) → In r s.routes → In r s'.routes
  pub nodes : s'.nodes ≡ s.nodes
  pub links : s'.links ≡ s.links

-- The routes that the end of a search gives.
Done-Routed :
    (iterate : List (ℕ × ℕ) → List (ℕ × ℕ))
    → ((es : List (ℕ × ℕ)) (e : ℕ × ℕ) → In e (iterate es) ↔ In e es)
    → (s : Scenario) (prefix : List ℕ) (dest n : ℕ) (b : Bfs) (u : ℕ) (d : ℕ → ℕ)
    → At s.links dest n u d [] [] b
    → b.queue ≡ []
    → Routed s prefix dest d (record s {
      routes = sort_by compare_routes (s.routes ++ map (route prefix) (iterate b.next_hop));
    })
Done-Routed iterate all s prefix dest n b u d h idle =
    let near = entry_nearer s.links dest n u d b h idle in
    let seen : (v k : ℕ) → Walk s.links v dest k → Seen b v × (d v ≤ k) =
      λ v k w. Walk-Seen s.links dest n u d b h idle w in
    let to : (v : ℕ) → Seen b v → Walk s.links v dest (d v) =
      λ v p. towards s.links dest n u d b h idle (suc (d v)) v p (omega arith) in
    let sorts = sort_by_iff compare_routes (s.routes ++ map (route prefix) (iterate b.next_hop)) in
    record {
      least = λ v k w. (to v (seen v k w).0, (seen v k w).1);
      covered = λ v k w. elim (h.found v (seen v k w).0) [
        | inl e ↦ inl e
        | inr (x, m) ↦ inr (
          x,
          (sorts (route prefix (v, x))).1
              (In-append_right s.routes _ (In-map (route prefix) _ ((all b.next_hop (v, x)).1 m))),
          (near v x m).1,
          (near v x m).2,
        )
      ];
      sound = λ r m. elim (In-append s.routes _ ((sorts r).0 m)) [
        | inl old ↦ inl old
        | inr new ↦
            let (e, k, f) = In-map_inv prefix (iterate b.next_hop) r new in
            let p = near e.0 e.1 ((all b.next_hop e).0 k) in
            inr (rw f (refl, p.1, to e.1 p.0.1, p.2))
      ];
      kept = λ r m. (sorts r).1 (In-append_left s.routes _ m);
      nodes = refl;
      links = refl;
    }

-- For links between nodes of the scenario the routes are installed, and following them from any node
-- that is joined to `dest` is a shortest walk there, in whatever order the map gives its entries.
pub add_routes_toward-Routed :
    (iterate : List (ℕ × ℕ) → List (ℕ × ℕ))
    → ((es : List (ℕ × ℕ)) (e : ℕ × ℕ) → In e (iterate es) ↔ In e es)
    → (s : Scenario) (prefix : List ℕ) (dest : ℕ) → dest < length s.nodes
    → InRange (length s.nodes) s.links
    → Returns
        (λ s'. (hops : ℕ → ℕ) × Routed s prefix dest hops s')
        (add_routes_toward iterate s prefix dest)
unfolding add_routes_toward
add_routes_toward-Routed iterate all s prefix dest l r =
    let n = length s.nodes in
    rw (lt→leb_false n dest l) (
      Returns->>= (Done s.links dest n) _ (search (suc (suc n)) s.links (begin n dest)) _
        (begin-Done s.links dest n l r)
        λ b (u, d, h, idle). (d, Done-Routed iterate all s prefix dest n b u d h idle))
