-- ===== src/Routing/Dijkstra/Relax.antt =====
-- One link, and all links of a node, in `dijkstra_table` of crates/ndn-sim-studies/src/routing.rs.
use ndn_sim.Prelude.{
  ℕ, ◌+◌, ◌≤◌, ◌<◌, ◌≡◌, ◌≢◌, refl, sym, ◌∙◌, ap, subst, ◌⊎◌, inl, inr, Bool, true, false, List, [],
  ◌∷◌, some, arith, ltb, length, length-set, get_elem?-lt, set, All, In, here, there, Bool-cases,
  ◌==◌, ==_iff, false≢true, Returns, Returns-mono,
}
use ndn_sim.Routing.Dijkstra.{Tree, u32_max, sat_add32, improve, relax}
use ndn_sim.Routing.View.{Edge}
use ndn_sim.Routing.Dijkstra.State.{
  stay, Via, Via-snoc, at, get_elem?-at, at-set_self, at-set_ne, same_node, Settled, Stands,
}

-- A link that does not improve its end is done.
Stands-skip :
    (adj : List (List (ℕ × ℕ))) (src n u d x w : ℕ) (es : List (ℕ × ℕ)) (s : List Bool) (t : Tree)
    → Stands adj src n u d ((x, w) ∷ es) s t
    → at t.dist x ≤ at t.dist u + w
    → Stands adj src n u d es s t
Stands-skip adj src n u d x w es s t h le = record {
  sizes = h.sizes;
  source = h.source;
  capped = h.capped;
  real = h.real;
  entries = h.entries;
  distinct = h.distinct;
  low = h.low;
  waiting = h.waiting;
  relaxed = λ v y c k l. elim (h.relaxed v y c k l) [
    | inr r ↦ inr r
    | inl (e, there m) ↦ inl (e, m)
    | inl (e, here f) ↦ inr (done v y c e f)
  ];
}
  where
    done : (v y c : ℕ) → v ≡ u → ◌≡◌ {A = ℕ × ℕ} (x, w) (y, c) → at t.dist y ≤ at t.dist v + c
    done v y c e f =
        let ex : x ≡ y = ap (λ p. p.0) f in
        let ew : w ≡ c = ap (λ p. p.1) f in rw (← ex, ← ew, e) le

module _ (adj : List (List (ℕ × ℕ))) (src n u d x w : ℕ) (es : List (ℕ × ℕ)) (s : List Bool)
    (t : Tree) (h : Stands adj src n u d ((x, w) ∷ es) s t) (below : x < n) (link : Edge adj u x w)
    (settled : Settled s u) (at_u : at t.dist u ≡ d) (better : sat_add32 d w < at t.dist x)
    (hop : ℕ) (via : Via adj src hop x (d + w)) where
  unfoldable after : Tree
  after = record {
    dist = set t.dist x (d + w);
    first_hop = set t.first_hop x hop;
    heap = (d + w, x) ∷ t.heap;
  }

  less : d + w < at t.dist x
  less = omega (arith, better, h.capped x)

  at_x : at after.dist x ≡ d + w
  unfolding after
  at_x = at-set_self t.dist x (d + w) (omega (arith, h.sizes.0))

  elsewhere : (v : ℕ) → x ≢ v → at after.dist v ≡ at t.dist v
  unfolding after
  elsewhere v ne = at-set_ne t.dist x v (d + w) ne

  -- No distance grows.
  shrinks : (v : ℕ) → at after.dist v ≤ at t.dist v
  shrinks v = elim (same_node x v) [
    | inl e ↦ rw (← e) (omega (arith, at_x, less))
    | inr ne ↦ omega (arith, elsewhere v ne)
  ]

  -- A settled node is another one.
  apart : (v : ℕ) → Settled s v → x ≢ v
  apart v k e =
      let near = (h.low v k).0 in
      let same : at t.dist x ≡ at t.dist v = ap (at t.dist) e in
      absurd (omega (arith, near, same, less))

  Stands-improve : Stands adj src n u d es s after
  unfolding after
  Stands-improve = record {
    sizes = (
      length-set t.dist x (d + w) ∙ h.sizes.0,
      length-set t.first_hop x hop ∙ h.sizes.1,
      h.sizes.2,
    );
    source = omega (arith, shrinks src, h.source);
    capped = λ v. omega (arith, shrinks v, h.capped v);
    real = λ v l k. elim (same_node x v) [
      | inl e ↦
          let hop_there : at (set t.first_hop x hop) x ≡ hop =
            at-set_self t.first_hop x hop (omega (arith, h.sizes.1, below)) in
          inr (rw (← e, hop_there, at_x) via)
      | inr ne ↦
          let same = elsewhere v ne in
          let hop_same : at (set t.first_hop x hop) v ≡ at t.first_hop v =
            at-set_ne t.first_hop x v hop ne in
          elim (h.real v l (omega (arith, same, k))) [
            | inl e ↦ inl e
            | inr r ↦ inr (rw (hop_same, same) r)
          ]
    ];
    entries = λ e v m. elim m [
      | here f ↦
          let ed : d + w ≡ e = ap (λ p. p.0) f in
          let ev : x ≡ v = ap (λ p. p.1) f in
          (rw (← ev) below, rw (← ev) (omega (arith, at_x, ed)), omega (arith, ed))
      | there m' ↦ let (a, b, c) = h.entries e v m' in (a, omega (arith, b, shrinks v), c)
    ];
    distinct = (λ m. absurd (omega (arith, (h.entries (d + w) x m).1, less)), h.distinct);
    low = λ v k. (
      omega (arith, elsewhere v (apart v k), (h.low v k).0),
      λ m. elim m [
        | here f ↦ apart v k (ap (λ p. p.1) f)
        | there m' ↦ (h.low v k).1 (subst (λ z. In (z, v) t.heap) (elsewhere v (apart v k)) m')
      ],
    );
    relaxed = λ v y c k l.
        let same = elsewhere v (apart v k) in
        elim (h.relaxed v y c k l) [
          | inr r ↦ inr (omega (arith, r, same, shrinks y))
          | inl (e, there m) ↦ inl (e, m)
          | inl (e, here f) ↦
              let ex : x ≡ y = ap (λ p. p.0) f in
              let ew : w ≡ c = ap (λ p. p.1) f in
              let at_v : at t.dist v ≡ d = rw e at_u in
              inr (rw (← ex, ← ew) (omega (arith, at_x, same, at_v)))
        ];
    waiting = λ v k l. elim (same_node x v) [
      | inl e ↦ rw (← e) (subst (λ z. In (z, x) ((d + w, x) ∷ t.heap)) (sym at_x) (here refl))
      | inr ne ↦
          let same = elsewhere v ne in there (rw same (h.waiting v k (omega (arith, same, l))))
    ];
  }

-- The first hop of an improved node is one from the source.
improve-Via :
    (adj : List (List (ℕ × ℕ))) (src n u d x w : ℕ) (es : List (ℕ × ℕ)) (s : List Bool) (t : Tree)
    → Stands adj src n u d es s t
    → u < n
    → Edge adj u x w
    → at t.dist u ≡ d
    → d < u32_max
    → (hop : ℕ) × Via adj src hop x (d + w)
      × (improve src u x (d + w) t
          ≡ some (record {
            dist = set t.dist x (d + w);
            first_hop = set t.first_hop x hop;
            heap = (d + w, x) ∷ t.heap;
          }))
unfolding improve
improve-Via adj src n u d x w es s t h below link at_u finite = elim (Bool-cases (u == src)) [
  | inl e ↦
      let same : u ≡ src = (==_iff u src).0 e in
      let none_yet : d ≡ 0 = sym at_u ∙ ap (at t.dist) same ∙ h.source in
      (
        x,
        (w, 0, subst (λ z. Edge adj z x w) same link, stay, omega (arith, none_yet)),
        rw (e, improve) refl,
      )
  | inr e ↦
      let read = get_elem?-at t.first_hop u (omega (arith, below, h.sizes.1)) in
      (
        at t.first_hop u,
        via e (h.real u below (omega (arith, at_u, finite))),
        rw (e, read, improve) refl,
      )
]
  where
    via :
        (u == src) ≡ false
        → (u ≡ src) ⊎ Via adj src (at t.first_hop u) u (at t.dist u)
        → Via adj src (at t.first_hop u) x (d + w)
    via e (inl f) = absurd (false≢true (sym e ∙ (==_iff u src).1 f))
    via e (inr v) =
        Via-snoc adj src (at t.first_hop u) u x (at t.dist u) w (d + w) v link (omega (arith, at_u))

-- What is left to do of the heap and of the nodes that are not settled.
abbrev pub pending : List Bool → List (List (ℕ × ℕ)) → ℕ
pending [] rows = 0
pending (b ∷ bs) [] = 0
pending (true ∷ bs) (row ∷ rows) = pending bs rows
pending (false ∷ bs) (row ∷ rows) = length row + pending bs rows

-- After all links of `u`: no more than one new entry for each.
abbrev pub Relaxed :
    List (List (ℕ × ℕ)) → ℕ → ℕ → ℕ → ℕ → List (ℕ × ℕ) → List Bool → Tree → Tree → Type 0
Relaxed adj src n u d es s t t' =
    Stands adj src n u d [] s t' × (length t'.heap ≤ length t.heap + length es)

pub relax-Relaxed :
    (adj : List (List (ℕ × ℕ))) (src n u d : ℕ) (es : List (ℕ × ℕ)) (s : List Bool) (t : Tree)
    → Settled s u
    → All (λ e. (e.0 < n) × Edge adj u e.0 e.1) es
    → Stands adj src n u d es s t
    → at t.dist u ≡ d
    → Returns (Relaxed adj src n u d es s t) (relax src d u es t)
unfolding relax improve after
relax-Relaxed adj src n u d [] s t k l h at_u = (h, omega arith)
relax-Relaxed adj src n u d ((x, w) ∷ es) s t k l h at_u =
    let here_dist = get_elem?-at t.dist x (omega (arith, l.0.0, h.sizes.0)) in
    elim (Bool-cases (ltb (sat_add32 d w) (at t.dist x))) [
      | inr worse ↦
          rw (here_dist, worse, relax)
            (Returns-mono (Relaxed adj src n u d es s t) _ (relax src d u es t)
              (λ t' r. (r.0, omega (arith, r.1)))
              (relax-Relaxed adj src n u d es s t k l.1
                (Stands-skip adj src n u d x w es s t h (ground (arith, at_u, worse, h.capped x)))
                at_u))
      | inl b ↦
          let better : sat_add32 d w < at t.dist x = ground arith in
          let exact : sat_add32 d w ≡ d + w = omega (arith, better, h.capped x) in
          let finite : d < u32_max = omega (arith, better, h.capped x) in
          let below : u < n = omega (arith, get_elem?-lt s u k, h.sizes.2) in
          let (hop, via, step) =
            improve-Via adj src n u d x w ((x, w) ∷ es) s t h below l.0.1 at_u finite in
          let t1 = after adj src n u d x w es s t h l.0.0 l.0.1 k at_u better hop via in
          let still : at t1.dist u ≡ d =
            elsewhere adj src n u d x w es s t h l.0.0 l.0.1 k at_u better hop via u
              (apart adj src n u d x w es s t h l.0.0 l.0.1 k at_u better hop via u k)
            ∙ at_u in
          rw (here_dist, b, relax, exact, step)
            (Returns-mono (Relaxed adj src n u d es s t1) _ (relax src d u es t1)
              (λ t' r. (r.0, omega (arith, r.1)))
              (relax-Relaxed adj src n u d es s t1 k l.1
                (Stands-improve adj src n u d x w es s t h l.0.0 l.0.1 k at_u better hop via)
                still))
    ]
