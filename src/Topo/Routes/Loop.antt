-- ===== src/Topo/Routes/Loop.antt =====
-- The loop of the breadth-first search of `add_routes_toward` in crates/ndn-sim/src/topo.rs.
use ndn_sim.Prelude.{
  ℕ, zero, suc, ◌+◌, ◌≤◌, ◌<◌, ◌≡◌, ◌≢◌, refl, sym, ap, subst, ◌∙◌, ◌⊎◌, inl, inr, true, false≢true,
  List, [], ◌∷◌, some, arith, ◌==◌, ==_iff, Bool-cases, length, length-set, get_elem?,
  get_elem?-set_self, get_elem?-set_ne, All, All-both, In, here, there, Returns, Returns->>=,
}
use ndn_sim.Topo.{Link}
use ndn_sim.Topo.Routes.{adjacency, Bfs, replicate, begin, visit, search}
use ndn_sim.Topo.Routes.Search.{
  Linked, InRange, In-adjacency, adjacency-Linked, adjacency-below, Seen, Rising, At, unseen,
}
use ndn_sim.Topo.Routes.Reach.{Visited, visit-Visited}

-- A search that has come to its end.
abbrev pub Done : List Link → ℕ → ℕ → Bfs → Type 0
Done links dest n b = (u : ℕ) × (d : ℕ → ℕ) × At links dest n u d [] [] b × (b.queue ≡ [])

pub In-nil : {x : ℕ} → In x [] → ⊥
In-nil m = elim m [ ]

-- The front of the queue is taken out, with all its neighbours to look at.
At-pop :
    (links : List Link) (dest n t u : ℕ) (d : ℕ → ℕ) (rest : List ℕ) (b : Bfs)
    → At links dest n t d [] b.queue b
    → b.queue ≡ u ∷ rest
    → At links dest n u d (adjacency links u) (u ∷ rest) (record b { queue = rest })
At-pop links dest n t u d rest b h e = record {
  size = h.size;
  root = h.root;
  hops = h.hops;
  found = h.found;
  queued = subst (All (Seen b)) e h.queued;
  rising = subst (Rising d) e h.rising;
  near = λ v s. subst (All (λ q. d v ≤ suc (d q))) e (h.near v s);
  looked = λ v s. elim (h.looked v s) [
    | inl m ↦ elim (subst (In v) e m) [
      | here f ↦ inr λ x (l, k, t).
          inl (sym f, subst (λ z. In x (adjacency links z)) (sym f) (In-adjacency links l v x k t))
      | there m' ↦ inl m'
    ]
    | inr k ↦ inr λ x l. elim (k x l) [ inl (f, m) ↦ absurd (In-nil m) | inr r ↦ inr r ]
  ];
}

-- All neighbours of the front are looked at.
At-done :
    (links : List Link) (dest n u : ℕ) (d : ℕ → ℕ) (b : Bfs)
    → At links dest n u d [] (u ∷ b.queue) b
    → At links dest n u d [] b.queue b
At-done links dest n u d b h = record {
  size = h.size;
  root = h.root;
  hops = h.hops;
  found = h.found;
  queued = h.queued.1;
  rising = h.rising.1;
  near = λ v s. (h.near v s).1;
  looked = h.looked;
}

list_cases : (q : List ℕ) → (q ≡ []) ⊎ ((u : ℕ) × (rest : List ℕ) × (q ≡ u ∷ rest))
list_cases [] = inl refl
list_cases (u ∷ rest) = inr (u, rest, refl)

all_In : (xs : List ℕ) (P : ℕ → Type 0) → ((x : ℕ) → In x xs → P x) → All P xs
all_In [] P f = tt
all_In (x ∷ xs) P f = (f x (here refl), all_In xs P (λ y m. f y (there m)))

-- A node enters the queue once, so that fuel above the nodes not seen and the queue is enough.
search-Done :
    (fuel : ℕ) (links : List Link) (dest n t : ℕ) (d : ℕ → ℕ) (b : Bfs)
    → InRange n links
    → At links dest n t d [] b.queue b
    → unseen b.seen + length b.queue < fuel
    → Returns (Done links dest n) (search fuel links b)
unfolding search
search-Done zero links dest n t d b r h k = absurd (omega arith)
search-Done (suc fuel) links dest n t d b r h k = elim (list_cases b.queue) [
  | inl e ↦ rw (e, search) (t, d, subst (λ z. At links dest n t d [] z b) e h, e)
  | inr (u, rest, e) ↦
      let b1 : Bfs = record b { queue = rest } in
      let todo =
        All-both (λ w. w < n) (Linked links u) (adjacency links u) (adjacency-below n links u r)
          (all_In (adjacency links u) (Linked links u) (λ w m. adjacency-Linked links u w m)) in
      let shorter : length b.queue ≡ suc (length rest) = rw e refl in
      rw (e, search)
        (Returns->>= (Visited links dest n u b1) (Done links dest n)
          (visit u (adjacency links u) b1) _
          (visit-Visited links dest n u (adjacency links u) d b1
            (At-pop links dest n t u d rest b h e) todo)
          λ b' v.
            search-Done fuel links dest n u v.0.0 b' r (At-done links dest n u v.0.0 b' v.0.1)
              (omega (arith, v.1, shorter)))
]

-- The start: only the destination is seen.
begin-At :
    (links : List Link) (dest n : ℕ)
    → dest < n
    → At links dest n dest (λ v. 0) [] (dest ∷ []) (begin n dest)
begin-At links dest n l = record {
  size = length-set (replicate n) dest true ∙ length-replicate n;
  root = (root, refl);
  hops = tt;
  found = λ v s. inl (only v s);
  queued = (root, tt);
  rising = (tt, tt);
  near = λ v s. (omega arith, tt);
  looked = λ v s. inl (here (sym (only v s)));
}
  where
    length-replicate : (k : ℕ) → length (replicate k) ≡ k
    length-replicate zero = refl
    length-replicate (suc k) = ap suc (length-replicate k)

    unseen_replicate : (k v : ℕ) → get_elem? (replicate k) v ≢ some true
    unseen_replicate zero v e = cc
    unseen_replicate (suc k) zero e = cc
    unseen_replicate (suc k) (suc v) e = unseen_replicate k v e

    root : Seen (begin n dest) dest
    root = get_elem?-set_self (replicate n) dest true (omega (arith, length-replicate n))

    only : (v : ℕ) → Seen (begin n dest) v → v ≡ dest
    only v s = elim (Bool-cases (v == dest)) [
      | inl e ↦ (==_iff v dest).0 e
      | inr e ↦ absurd (
          unseen_replicate n v (
            sym (
              get_elem?-set_ne (replicate n) dest v true
                (λ f. false≢true (sym e ∙ (==_iff v dest).1 (sym f))))
            ∙ s))
    ]

unseen_begin : (n dest : ℕ) → unseen (begin n dest).seen ≤ n
unseen_begin zero dest = omega arith
unseen_begin (suc n) zero = omega (arith, full n)
  where
    full : (k : ℕ) → unseen (replicate k) ≡ k
    full zero = refl
    full (suc k) = ap suc (full k)
unseen_begin (suc n) (suc dest) = omega (arith, unseen_begin n dest)

-- For links between the nodes the search with a unit of fuel a node and one more ends.
pub begin-Done :
    (links : List Link) (dest n : ℕ)
    → dest < n
    → InRange n links
    → Returns (Done links dest n) (search (suc (suc n)) links (begin n dest))
begin-Done links dest n l r =
    search-Done (suc (suc n)) links dest n dest (λ v. 0) (begin n dest) r (begin-At links dest n l)
      (omega (arith, unseen_begin n dest))
