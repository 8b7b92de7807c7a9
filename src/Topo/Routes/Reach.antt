-- ===== src/Topo/Routes/Reach.antt =====
-- One neighbour, and all neighbours of a node, in the breadth-first search of `add_routes_toward` in
-- crates/ndn-sim/src/topo.rs.
use ndn_sim.Prelude.{
  ℕ, zero, suc, ◌+◌, ◌≤◌, ◌<◌, ◌≡◌, ◌≢◌, refl, sym, ap, subst, ◌∙◌, ◌⊎◌, inl, inr, Bool, true,
  false, false≢true, List, [], ◌∷◌, ◌++◌, none, some, arith, if◌then◌else◌, ◌==◌, ==_iff,
  Bool-cases, Option-cases, length, length-append, length-set, get_elem?, get_elem?-set_self,
  get_elem?-set_ne, get_elem?-lt, All, All-append, All-mono, All-both, In, here, there,
  In-append_left, In-append_right, Returns, Returns-mono,
}
use ndn_sim.Topo.{Link}
use ndn_sim.Topo.Routes.{Bfs, reach, visit}
use ndn_sim.Topo.Routes.Search.{
  Linked, Linked-sym, Seen, Rising, At, unseen, unseen-set, Rising-snoc,
}

Rising-ext : (d d' : ℕ → ℕ) (xs : List ℕ) → All (λ x. d' x ≡ d x) xs → Rising d xs → Rising d' xs
Rising-ext d d' [] e r = tt
Rising-ext d d' (x ∷ xs) e r = (
  All-mono (λ y p. omega (arith, p.0, p.1, e.0)) xs
      (All-both (λ y. d' y ≡ d y) (λ y. d x ≤ d y) xs e.1 r.0),
  Rising-ext d d' xs e.1 r.1,
)

-- A neighbour that was seen before is no nearer than the queue says.
At-seen :
    (links : List Link) (dest n u : ℕ) (d : ℕ → ℕ) (w : ℕ) (ws : List ℕ) (b : Bfs)
    → At links dest n u d (w ∷ ws) (u ∷ b.queue) b
    → Seen b w
    → At links dest n u d ws (u ∷ b.queue) b
At-seen links dest n u d w ws b h old = record {
  size = h.size;
  root = h.root;
  hops = h.hops;
  found = h.found;
  queued = h.queued;
  rising = h.rising;
  near = h.near;
  looked = λ v s. elim (h.looked v s) [
    | inl m ↦ inl m
    | inr k ↦ inr λ x l. elim (k x l) [
      | inr r ↦ inr r
      | inl (e, there m) ↦ inl (e, m)
      | inl (e, here f) ↦ inr (rw (← f) old, rw (← f, e) (h.near w old).0)
    ]
  ];
}

module _ (links : List Link) (dest n u : ℕ) (d : ℕ → ℕ) (w : ℕ) (ws : List ℕ) (b : Bfs)
    (h : At links dest n u d (w ∷ ws) (u ∷ b.queue) b) (new : get_elem? b.seen w ≡ some false)
    (linked : Linked links u w) where
  -- The number of hops with the new node's.
  hops_with : ℕ → ℕ
  hops_with v = if v == w then suc (d u) else d v

  differs : (v : ℕ) → Seen b v → v ≢ w
  differs v s e = let p : get_elem? b.seen w ≡ some true = subst (λ z. Seen b z) e s in absurd (cc)

  kept : (v : ℕ) → Seen b v → Seen (reach u w b) v × (hops_with v ≡ d v)
  unfolding hops_with
  kept v s = (
    get_elem?-set_ne b.seen w v true (λ e. differs v s (sym e)) ∙ s,
    elim (Bool-cases (v == w)) [
      | inl e ↦ absurd (differs v s ((==_iff v w).0 e))
      | inr e ↦ rw e refl
    ],
  )

  added : Seen (reach u w b) w × (hops_with w ≡ suc (d u))
  unfolding hops_with
  added =
      (get_elem?-set_self b.seen w true (get_elem?-lt b.seen w new), rw ((==_iff w w).1 refl) refl)

  old_or_new : (v : ℕ) → Seen (reach u w b) v → (v ≡ w) ⊎ Seen b v
  old_or_new v s = elim (Bool-cases (v == w)) [
    | inl e ↦ inl ((==_iff v w).0 e)
    | inr e ↦ inr (
        sym (get_elem?-set_ne b.seen w v true (λ f. false≢true (sym e ∙ (==_iff v w).1 (sym f))))
        ∙ s)
  ]

  -- All of the line lies between `u` and the new node.
  within : All (λ q. (hops_with q ≡ d q) × (d u ≤ d q) × (d q ≤ suc (d u))) (u ∷ b.queue)
  within =
      All-mono (λ q p. ((kept q p.0).1, p.1, (h.near q p.0).0)) (u ∷ b.queue)
        (All-both (Seen b) (λ q. d u ≤ d q) (u ∷ b.queue) h.queued (omega arith, h.rising.0))

  near_after :
      (v : ℕ)
      → Seen (reach u w b) v
      → All (λ q. hops_with v ≤ suc (hops_with q)) (u ∷ b.queue ++ w ∷ [])
  near_after v s = elim (old_or_new v s) [
    | inl e ↦
        let at_w : hops_with v ≡ suc (d u) = rw e added.1 in
        All-append _ (u ∷ b.queue) _
          (All-mono (λ q p. omega (arith, p.0, p.1, at_w)) (u ∷ b.queue) within)
          (omega (arith, at_w, added.1), tt)
    | inr o ↦
        All-append _ (u ∷ b.queue) _
          (All-mono (λ q p. omega (arith, p.0, p.1, (kept v o).1)) (u ∷ b.queue)
            (All-both _ (λ q. d v ≤ suc (d q)) (u ∷ b.queue) within (h.near v o)))
          (omega (arith, (kept v o).1, added.1, (h.near v o).0), tt)
  ]

  looked_after :
      (v : ℕ)
      → Seen (reach u w b) v
      → In v (b.queue ++ w ∷ [])
        ⊎ ((x : ℕ)
            → Linked links v x
            → ((v ≡ u) × In x ws) ⊎ (Seen (reach u w b) x × (hops_with x ≤ suc (hops_with v))))
  looked_after v s = elim (old_or_new v s) [
    | inl e ↦ inl (In-append_right b.queue _ (here (sym e)))
    | inr o ↦ elim (h.looked v o) [
      | inl m ↦ inl (In-append_left b.queue _ m)
      | inr k ↦ inr λ x l. elim (k x l) [
        | inl (e, there m) ↦ inl (e, m)
        | inl (e, here f) ↦
            let at_u : hops_with v ≡ d u = (kept v o).1 ∙ ap d e in
            inr (rw (← f) added.0, rw (← f) (omega (arith, added.1, at_u)))
        | inr (old, le) ↦ inr ((kept x old).0, omega (arith, (kept x old).1, (kept v o).1, le))
      ]
    ]
  ]

  -- A neighbour that is new is one hop further than `u`.
  At-reach : At links dest n u hops_with ws (u ∷ b.queue ++ w ∷ []) (reach u w b)
  At-reach = record {
    size = length-set b.seen w true ∙ h.size;
    root = ((kept dest h.root.0).0, (kept dest h.root.0).1 ∙ h.root.1);
    hops =
        All-append _ b.next_hop _
          (All-mono
            (λ e p. (
              ((kept e.0 p.0.0).0, (kept e.1 p.0.1).0),
              p.1,
              omega (arith, p.2, (kept e.0 p.0.0).1, (kept e.1 p.0.1).1),
            ))
            b.next_hop h.hops)
          (
            (
              (added.0, (kept u h.queued.0).0),
              Linked-sym links u w linked,
              omega (arith, added.1, (kept u h.queued.0).1),
            ),
            tt,
          );
    found = λ v s. elim (old_or_new v s) [
      | inl e ↦ inr (u, In-append_right b.next_hop _ (here (rw e refl)))
      | inr o ↦ elim (h.found v o) [
        | inl e ↦ inl e
        | inr (x, m) ↦ inr (x, In-append_left b.next_hop _ m)
      ]
    ];
    queued =
        All-append _ (u ∷ b.queue) _ (All-mono (λ q s. (kept q s).0) (u ∷ b.queue) h.queued)
          (added.0, tt);
    rising =
        Rising-snoc hops_with (u ∷ b.queue) w
          (Rising-ext d hops_with (u ∷ b.queue) (All-mono (λ q p. p.0) (u ∷ b.queue) within)
            h.rising)
          (All-mono (λ q p. omega (arith, p.0, p.2, added.1)) (u ∷ b.queue) within);
    near = near_after;
    looked = looked_after;
  }

-- What visiting all neighbours of `u` leaves: they are all seen, with no more left to do.
abbrev pub Visited : List Link → ℕ → ℕ → ℕ → Bfs → Bfs → Type 0
Visited links dest n u b b' =
    ((d : ℕ → ℕ) × At links dest n u d [] (u ∷ b'.queue) b')
    × (unseen b'.seen + length b'.queue ≡ unseen b.seen + length b.queue)

pub visit-Visited :
    (links : List Link) (dest n u : ℕ) (ws : List ℕ) (d : ℕ → ℕ) (b : Bfs)
    → At links dest n u d ws (u ∷ b.queue) b
    → All (λ w. (w < n) × Linked links u w) ws
    → Returns (Visited links dest n u b) (visit u ws b)
unfolding visit
visit-Visited links dest n u [] d b h k = ((d, h), refl)
visit-Visited links dest n u (w ∷ ws) d b h k = elim (Option-cases (get_elem? b.seen w)) [
  | inl e ↦ absurd (none_below b.seen w e (omega (arith, h.size, k.0.0)))
  | inr (true, e) ↦
      rw (e, visit) (visit-Visited links dest n u ws d b (At-seen links dest n u d w ws b h e) k.1)
  | inr (false, e) ↦
      rw (e, visit)
        (Returns-mono (Visited links dest n u (reach u w b)) _ _
          (λ b' v. (v.0, omega (arith, v.1, unseen-set b.seen w e, length-append b.queue (w ∷ []))))
          (visit-Visited links dest n u ws _ (reach u w b)
            (At-reach links dest n u d w ws b h e k.0.1) k.1))
]
  where
    none_below : (bs : List Bool) (i : ℕ) → get_elem? bs i ≡ none → ¬ (i < length bs)
    none_below [] i e l = absurd (omega arith)
    none_below (x ∷ bs) zero e l = absurd (cc)
    none_below (x ∷ bs) (suc i) e l = none_below bs i e (omega arith)
