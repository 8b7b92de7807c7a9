-- ===== src/Topo/Random/Find.antt =====
-- `find` and `union` of crates/ndn-sim/src/topo.rs keep the forest and end.
use ndn_sim.Prelude.{
  ℕ, zero, suc, ◌+◌, ◌≤◌, ◌<◌, ◌≡◌, ◌≢◌, refl, sym, ap, subst, ◌∙◌, inl, inr, List, ◌++◌, some,
  arith, ==_iff, length, length-set, get_elem?, get_elem?-set_self, get_elem?-set_ne, get_elem?-lt,
  set, In-append_left, Returns, Returns->>=, Returns-mono,
}
use ndn_sim.Topo.{Link}
use ndn_sim.Topo.Connected.{Reaches, self, hop}
use ndn_sim.Topo.Random.{root, compress, find, union}
use ndn_sim.Topo.Random.Forest.{
  Climb, top, up, same_node, Climb-root, Climb-lt, Climb-shortcut, Climb-link, roots,
  roots-shortcut, roots-link, Climb-step, some_eq, ==-ne,
}

-- What is in reach is so by walks in both directions.
pub Reaches-trans : (ls : List Link) {x y z : ℕ} → Reaches ls x y → Reaches ls y z → Reaches ls x z
Reaches-trans ls p self = p
Reaches-trans ls p (hop l q m t) = hop l (Reaches-trans ls p q) m t

pub Reaches-sym : (ls : List Link) {x y : ℕ} → Reaches ls x y → Reaches ls y x
Reaches-sym ls self = self
Reaches-sym ls (hop {y} {z} l q m (inl t)) =
    Reaches-trans ls (hop l self m (inr t)) (Reaches-sym ls q)
Reaches-sym ls (hop {y} {z} l q m (inr t)) =
    Reaches-trans ls (hop l self m (inl t)) (Reaches-sym ls q)

pub Reaches-more : (ls ks : List Link) {x y : ℕ} → Reaches ls x y → Reaches (ls ++ ks) x y
Reaches-more ls ks self = self
Reaches-more ls ks (hop l q m t) = hop l (Reaches-more ls ks q) (In-append_left ls ks m) t

-- The parents of a graph's nodes after `j` unions: a parent is in reach, every node has a root at
-- most `j` steps up, and each union took a root away.
pub record Joins (links : List Link) (n j : ℕ) (p : List ℕ) : Type 0 where
  pub size : length p ≡ n
  pub joined : (x y : ℕ) → get_elem? p x ≡ some y → (y < n) × Reaches links x y
  pub deep : (x : ℕ) → x < n → (r : ℕ) × (k : ℕ) × Climb p x r k × (k ≤ j)
  pub count : roots 0 p + j ≡ n

module _ (links : List Link) (n j : ℕ) where
  Climb-Reaches :
      (p : List ℕ) → Joins links n j p → {x r k : ℕ} → Climb p x r k → (r < n) × Reaches links x r
  Climb-Reaches p h (top {r} e) = ((h.joined r r e).0, self)
  Climb-Reaches p h (up {x} {y} e d c) =
      let (below, rest) = Climb-Reaches p h c in
      (below, Reaches-trans links (h.joined x y e).1 rest)

  Joins-shortcut :
      (p : List ℕ) (c r k : ℕ)
      → Joins links n j p
      → Climb p c r k
      → c ≢ r
      → Joins links n j (set p c r)
  Joins-shortcut p c r k h down ne = record {
    size = length-set p c r ∙ h.size;
    joined = λ x y e. elim (same_node c x) [
      | inl f ↦
          let at_r : r ≡ y = some_eq (
            sym (get_elem?-set_self p c r (Climb-lt down))
            ∙ subst (λ z. get_elem? (set p c r) z ≡ some y) (sym f) e) in
          rw (← at_r, ← f) (Climb-Reaches p h down)
      | inr apart ↦ h.joined x y (sym (get_elem?-set_ne p c x r apart) ∙ e)
    ];
    deep = λ x l.
        let (s, i, climb, le) = h.deep x l in
        let (i', climb', le') = Climb-shortcut down ne climb in
        (s, i', climb', omega (arith, le, le'));
    count =
        let (q, i, e, d, rest, f) = Climb-step down ne in
        omega (arith, roots-shortcut p c r q e d ne, h.count);
  }

-- The root above a node is found with fuel above the way there.
root-Climb : (p : List ℕ) (fuel x r k : ℕ) → Climb p x r k → k < fuel → root fuel p x ≡ some r
unfolding root
root-Climb p zero x r k c l = absurd (omega arith)
root-Climb p (suc fuel) x r k c l = elim (same_node x r) [
  | inl e ↦
      let at_x : get_elem? p x ≡ some x =
        subst (λ z. get_elem? p z ≡ some z) (sym e) (Climb-root c) in
      rw (at_x, root, (==_iff x x).1 refl) (ap some e)
  | inr ne ↦
      let (q, i, e, d, rest, f) = Climb-step c ne in
      rw (e, root, ==-ne q x (λ g. d (sym g))) (root-Climb p fuel q r i rest (omega (arith, f)))
]

-- The roots of one forest are roots of the other.
abbrev pub Keeps : List ℕ → List ℕ → Type 0
Keeps p p' = (y : ℕ) → get_elem? p y ≡ some y → get_elem? p' y ≡ some y

compress-Joins :
    (links : List Link) (n j fuel : ℕ) (p : List ℕ) (r c k : ℕ)
    → Joins links n j p
    → Climb p c r k
    → k < fuel
    → Returns (λ p'. Joins links n j p' × Keeps p p') (compress fuel p r c)
unfolding compress
compress-Joins links n j zero p r c k h down l = absurd (omega arith)
compress-Joins links n j (suc fuel) p r c k h down l = elim (same_node c r) [
  | inl e ↦
      let at_c : get_elem? p c ≡ some r =
        subst (λ z. get_elem? p z ≡ some r) (sym e) (Climb-root down) in
      rw (at_c, compress, (==_iff r r).1 refl) (h, λ y f. f)
  | inr ne ↦
      let (q, i, e, d, rest, f) = Climb-step down ne in
      elim (same_node q r) [
        | inl g ↦ rw (e, compress, (==_iff q r).1 g) (h, λ y m. m)
        | inr ne' ↦
            let (i', rest', le) = Climb-shortcut down ne rest in
            rw (e, compress, ==-ne q r ne')
              (Returns-mono _ _ (compress fuel (set p c r) r q)
                (λ p' (v : Joins links n j p' × Keeps (set p c r) p'). (
                  v.0,
                  λ y m. v.1 y (
                      get_elem?-set_ne p c y r
                        (λ g. d (some_eq (sym (subst (λ z. get_elem? p z ≡ some z) (sym g) m) ∙ e)))
                      ∙ m),
                ))
                (compress-Joins links n j fuel (set p c r) r q i'
                  (Joins-shortcut links n j p c r k h down ne) rest' (omega (arith, f, le))))
      ]
]

-- What `find` gives of `x`: its root, with the roots of before, in a forest as good as before.
abbrev pub Found : List Link → ℕ → ℕ → List ℕ → ℕ → ℕ × List ℕ → Type 0
Found links n j p x (r, p') =
    Joins links n j p' × Keeps p p' × (get_elem? p' r ≡ some r) × (r < n) × Reaches links x r

pub find-Found :
    (links : List Link) (n j : ℕ) (p : List ℕ) (x : ℕ)
    → Joins links n j p
    → x < n
    → Returns (Found links n j p x) (find p x)
unfolding find
find-Found links n j p x h l =
    let (r, k, climb, le) = h.deep x l in
    let enough : k < suc (length p) = omega (arith, le, h.count, h.size) in
    let (below, reach) = Climb-Reaches links n j p h climb in
    rw (root-Climb p (suc (length p)) x r k climb enough) (
      Returns->>= _ (Found links n j p x) (compress (suc (length p)) p r x) _
        (compress-Joins links n j (suc (length p)) p r x k h climb enough)
        λ p' v. (v.0, v.1, v.1 r (Climb-root climb), below, reach))

-- A link of two roots in reach of each other.
Joins-link :
    (links : List Link) (n j a b : ℕ) (p : List ℕ)
    → Joins links n j p
    → get_elem? p a ≡ some a
    → get_elem? p b ≡ some b
    → a ≢ b
    → b < n
    → Reaches links a b
    → Joins links n (suc j) (set p a b)
Joins-link links n j a b p h ea eb ne below reach = record {
  size = length-set p a b ∙ h.size;
  joined = λ x y e. elim (same_node a x) [
    | inl f ↦
        let at_b : b ≡ y = some_eq (
          sym (get_elem?-set_self p a b (get_elem?-lt p a ea))
          ∙ subst (λ z. get_elem? (set p a b) z ≡ some y) (sym f) e) in
        rw (← at_b, ← f) (below, reach)
    | inr apart ↦ h.joined x y (sym (get_elem?-set_ne p a x b apart) ∙ e)
  ];
  deep = λ x l.
      let (r, k, climb, le) = h.deep x l in
      let (s, i, climb', le') = Climb-link ea eb ne climb in (s, i, climb', omega (arith, le, le'));
  count = omega (arith, roots-link p a b ea ne, h.count);
}

-- With more links a forest is as good.
pub Joins-more :
    (links more : List Link) (n j : ℕ) (p : List ℕ)
    → Joins links n j p
    → Joins (links ++ more) n j p
Joins-more links more n j p h = record {
  size = h.size;
  joined = λ x y e. let (l, r) = h.joined x y e in (l, Reaches-more links more r);
  deep = h.deep;
  count = h.count;
}

-- `union` of two nodes in reach of each other ends, and keeps the forest.
pub union-Joins :
    (links : List Link) (n j : ℕ) (p : List ℕ) (a b : ℕ)
    → Joins links n j p
    → a < n
    → b < n
    → Reaches links a b
    → Returns (λ p'. (i : ℕ) × Joins links n i p') (union p a b)
unfolding union
union-Joins links n j p a b h la lb reach =
    Returns->>= (Found links n j p a) _ (find p a) _ (find-Found links n j p a h la)
      λ (ra, p1) (h1, keep1, top1, below1, reach1).
        Returns->>= (Found links n j p1 b) _ (find p1 b) _ (find-Found links n j p1 b h1 lb)
          λ (rb, p2) (h2, keep2, top2, below2, reach2). elim (same_node ra rb) [
            | inl e ↦ rw ((==_iff ra rb).1 e) (j, h2)
            | inr ne ↦ rw (==-ne ra rb ne) (
              suc j,
              Joins-link links n j ra rb p2 h2 (keep2 ra top1) top2 ne below2 (
                  Reaches-trans links (Reaches-sym links reach1)
                    (Reaches-trans links reach reach2)),
            )
          ]
