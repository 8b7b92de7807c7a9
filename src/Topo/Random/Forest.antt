-- ===== src/Topo/Random/Forest.antt =====
-- The forest of the union-find in crates/ndn-sim/src/topo.rs: paths to a root, and what one write
-- does to them.
use ndn_sim.Prelude.{
  ℕ, zero, suc, ◌+◌, ◌≤◌, ◌<◌, ◌≡◌, ◌≢◌, refl, sym, subst, ◌∙◌, ◌⊎◌, inl, inr, false, false≢true,
  List, [], ◌∷◌, some, arith, if◌then◌else◌, ◌==◌, ==_iff, Bool-cases, length, get_elem?,
  get_elem?-set_self, get_elem?-set_ne, get_elem?-lt, set,
}

-- `k` steps lead from `x` to the root `r`.
pub data Climb (p : List ℕ) : ℕ → ℕ → ℕ → Type 0 where
  top : {r : ℕ} → get_elem? p r ≡ some r → Climb p r r 0
  up : {x y r k : ℕ} → get_elem? p x ≡ some y → x ≢ y → Climb p y r k → Climb p x r (suc k)

pub same_node : (x y : ℕ) → (x ≡ y) ⊎ (x ≢ y)
same_node x y = elim (Bool-cases (x == y)) [
  | inl e ↦ inl ((==_iff x y).0 e)
  | inr e ↦ inr (λ f. false≢true (sym e ∙ (==_iff x y).1 f))
]

pub some_eq : {a b : ℕ} → some a ≡ some b → a ≡ b
some_eq e = cc

pub Climb-root : {p : List ℕ} {x r k : ℕ} → Climb p x r k → get_elem? p r ≡ some r
Climb-root (top e) = e
Climb-root (up e d c) = Climb-root c

pub Climb-lt : {p : List ℕ} {x r k : ℕ} → Climb p x r k → x < length p
Climb-lt {p} {x} (top e) = get_elem?-lt p x e
Climb-lt {p} {x} (up e d c) = get_elem?-lt p x e

-- There is one root above a node.
pub Climb-unique : {p : List ℕ} {x r r' k k' : ℕ} → Climb p x r k → Climb p x r' k' → r ≡ r'
Climb-unique (top e) (top f) = refl
Climb-unique (top e) (up f d c) = absurd (d (some_eq (sym e ∙ f)))
Climb-unique (up e d c) (top f) = absurd (d (some_eq (sym f ∙ e)))
Climb-unique {p} (up e d c) (up {y = y'} {r = s} {k = j} f d' c') =
    Climb-unique c (subst (λ z. Climb p z s j) (some_eq (sym f ∙ e)) c')

-- A node that is not its own root is no root.
pub not_root : {p : List ℕ} {c r k : ℕ} → Climb p c r k → c ≢ r → get_elem? p c ≢ some c
not_root (top e) ne f = ne refl
not_root (up e d c) ne f = d (some_eq (sym f ∙ e))

-- A write of its root at a node shortens paths and keeps roots.
pub Climb-shortcut :
    {p : List ℕ} {c r kc : ℕ}
    → Climb p c r kc
    → c ≢ r
    → {y s k : ℕ} → Climb p y s k
    → (j : ℕ) × Climb (set p c r) y s j × (j ≤ k)
Climb-shortcut {p} {c} {r} down ne (top {r = y} e) =
    let apart : c ≢ y = λ f. not_root down ne (subst (λ z. get_elem? p z ≡ some z) (sym f) e) in
    (0, top (get_elem?-set_ne p c y r apart ∙ e), omega arith)
Climb-shortcut {p} {c} {r} down ne (up {x} {y} {r = s} {k} e d rest) = elim (same_node c x) [
  | inl f ↦
      let at_root : r ≡ s =
        Climb-unique down (subst (λ z. Climb p z s (suc k)) (sym f) (up e d rest)) in
      let root_kept : get_elem? (set p c r) r ≡ some r =
        get_elem?-set_ne p c r r ne ∙ Climb-root down in
      (
        1,
        subst (λ z. Climb (set p c r) x z 1) at_root
            (subst (λ z. Climb (set p c r) z r 1) f
              (up (get_elem?-set_self p c r (Climb-lt down)) ne (top root_kept))),
        omega arith,
      )
  | inr apart ↦
      let (j, climb, le) = Climb-shortcut down ne rest in
      (suc j, up (get_elem?-set_ne p c x r apart ∙ e) d climb, omega (arith, le))
]

-- A write of another root at a root lengthens paths by at most one step.
pub Climb-link :
    {p : List ℕ} {a b : ℕ}
    → get_elem? p a ≡ some a
    → get_elem? p b ≡ some b
    → a ≢ b
    → {y s k : ℕ} → Climb p y s k
    → (s' : ℕ) × (j : ℕ) × Climb (set p a b) y s' j × (j ≤ suc k)
Climb-link {p} {a} {b} ea eb ne (top {r = y} e) = elim (same_node a y) [
  | inl f ↦ (
    b,
    1,
    subst (λ z. Climb (set p a b) z b 1) f
        (up (get_elem?-set_self p a b (get_elem?-lt p a ea)) ne
          (top (get_elem?-set_ne p a b b ne ∙ eb))),
    omega arith,
  )
  | inr apart ↦ (y, 0, top (get_elem?-set_ne p a y b apart ∙ e), omega arith)
]
Climb-link {p} {a} {b} ea eb ne (up {x} {y} e d rest) =
    let apart : a ≢ x = λ f. d (some_eq (sym (subst (λ z. get_elem? p z ≡ some z) f ea) ∙ e)) in
    let (s', j, climb, le) = Climb-link ea eb ne rest in
    (s', suc j, up (get_elem?-set_ne p a x b apart ∙ e) d climb, omega (arith, le))

-- The roots of a forest, its first node numbered `i`.
abbrev pub roots : ℕ → List ℕ → ℕ
roots i [] = 0
roots i (q ∷ qs) = (if q == i then 1 else 0) + roots (suc i) qs

pub roots-le : (i : ℕ) (p : List ℕ) → roots i p ≤ length p
roots-le i [] = omega arith
roots-le i (q ∷ qs) = ground (arith, roots-le (suc i) qs)

pub roots-set :
    (i : ℕ) (p : List ℕ) (c v q : ℕ)
    → get_elem? p c ≡ some q
    → roots i (set p c v) + (if q == c + i then 1 else 0)
      ≡ roots i p + (if v == c + i then 1 else 0)
roots-set i [] c v q e = absurd (cc)
roots-set i (x ∷ xs) zero v q e = let f : x ≡ q = cc in ground arith
roots-set i (x ∷ xs) (suc c) v q e = ground (arith, roots-set (suc i) xs c v q e)

-- The first step from a node that is not its root.
pub Climb-step :
    {p : List ℕ} {c r k : ℕ}
    → Climb p c r k
    → c ≢ r
    → (q : ℕ) × (i : ℕ) × (get_elem? p c ≡ some q) × (c ≢ q) × Climb p q r i × (k ≡ suc i)
Climb-step (top e) ne = absurd (ne refl)
Climb-step (up {y} {k} e d rest) ne = (y, k, e, d, rest, refl)

pub ==-ne : (x y : ℕ) → x ≢ y → (x == y) ≡ false
==-ne x y ne = elim (Bool-cases (x == y)) [ inl e ↦ absurd (ne ((==_iff x y).0 e)) | inr e ↦ e ]

-- A write at a node that is no root, of another node, changes no root.
pub roots-shortcut :
    (p : List ℕ) (c r q : ℕ)
    → get_elem? p c ≡ some q
    → c ≢ q
    → c ≢ r
    → roots 0 (set p c r) ≡ roots 0 p
roots-shortcut p c r q e ne ne' =
    ground (arith, roots-set 0 p c r q e, ==-ne q c (λ f. ne (sym f)), ==-ne r c (λ f. ne' (sym f)))

-- A write of another node at a root takes that root away.
pub roots-link :
    (p : List ℕ) (a b : ℕ) → get_elem? p a ≡ some a → a ≢ b → suc (roots 0 (set p a b)) ≡ roots 0 p
roots-link p a b e ne =
    ground (arith, roots-set 0 p a b a e, (==_iff a a).1 refl, ==-ne b a (λ f. ne (sym f)))
