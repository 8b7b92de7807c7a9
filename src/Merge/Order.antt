-- ===== src/Merge/Order.antt =====
-- The order of the applied versions: there is one, and it puts each after its past.
use Prim.Native.Nat.{Ordering}
use ndn_sim.Prelude.{
  ℕ, zero, suc, ◌+◌, ◌<◌, ◌≡◌, refl, sym, ap, ◌∙◌, subst, Bool, true, false, not, ◌&&◌, List, [],
  ◌∷◌, some, if◌then◌else◌, Bool-cases, inl, inr, length, get_elem?, set, length-set, get_elem?-lt,
  All, All-mono, arith,
}
use ndn_sim.Element.{VersionId}
use ndn_sim.Merge.{Node, flag, all_done, candidates, none_done, min_by, order_loop, order}

-- Each version's past is among the versions before it, from index `i` on.
abbrev pub IsBelow : ℕ → List Node → Type 0
IsBelow i [] = Unit
IsBelow i (n ∷ ns) = All (λ p. p < i) n.past × IsBelow (suc i) ns

abbrev pub IsAcyclic : List Node → Type 0
IsAcyclic nodes = IsBelow 0 nodes

-- Each version once, none that is done, and each when its past is done.
abbrev pub IsOrdered : List Node → List Bool → List ℕ → Type 0
IsOrdered nodes done [] = Unit
IsOrdered nodes done (i ∷ is) =
    ((n : Node) × (get_elem? nodes i ≡ some n) × (all_done done n.past ≡ true))
    × (flag done i ≡ false)
    × IsOrdered nodes (set done i true) is

count : List Bool → ℕ
count [] = 0
count (b ∷ bs) = (if b then 1 else 0) + count bs

count-set :
    (done : List Bool) (i : ℕ)
    → i < length done
    → flag done i ≡ false
    → count (set done i true) ≡ suc (count done)
unfolding count
count-set [] i h f = elim h [ ]
count-set (b ∷ bs) zero h f = rw f (omega arith)
count-set (b ∷ bs) (suc i) h f = omega (arith, count-set bs i (omega arith) f)

-- The first version that is not done.
first_open :
    (done : List Bool)
    → count done < length done
    → (i : ℕ) × (i < length done) × (flag done i ≡ false) × ((j : ℕ) → j < i → flag done j ≡ true)
unfolding count
first_open [] h = elim h [ ]
first_open (false ∷ bs) h = (zero, omega arith, refl, λ j l. absurd (omega arith))
first_open (true ∷ bs) h =
    let (i, l, f, below) = first_open bs (omega arith) in (suc i, omega arith, f, cases i below)
  where
    cases :
        (i : ℕ)
        → ((j : ℕ) → j < i → flag bs j ≡ true)
        → (j : ℕ) → j < suc i
        → flag (true ∷ bs) j ≡ true
    cases i below zero l = refl
    cases i below (suc j) l = below j (omega arith)

all_done_below :
    (done : List Bool) (i : ℕ) (ps : List ℕ)
    → ((j : ℕ) → j < i → flag done j ≡ true)
    → All (λ p. p < i) ps
    → all_done done ps ≡ true
all_done_below done i [] below h = refl
all_done_below done i (p ∷ ps) below h = rw (below p h.0) (all_done_below done i ps below h.1)

past_below :
    (nodes : List Node) (k i : ℕ)
    → IsBelow k nodes
    → i < length nodes
    → (n : Node) × (get_elem? nodes i ≡ some n) × All (λ p. p < k + i) n.past
past_below [] k i h l = elim l [ ]
past_below (n ∷ ns) k zero h l =
    let e : k ≡ k + 0 = omega arith in (n, refl, subst (λ m. All (λ p. p < m) n.past) e h.0)
past_below (n ∷ ns) k (suc i) h l =
    let (m, e, b) = past_below ns (suc k) i h.1 (omega arith) in
    let shift : suc k + i ≡ k + suc i = omega arith in
    (m, e, subst (λ t. All (λ p. p < t) m.past) shift b)

some_candidate :
    (done : List Bool) (k i : ℕ) (nodes : List Node) (n : Node)
    → get_elem? nodes i ≡ some n
    → flag done (k + i) ≡ false
    → all_done done n.past ≡ true
    → (c : ℕ × VersionId) × (cs : List (ℕ × VersionId)) × (candidates done k nodes ≡ c ∷ cs)
some_candidate done k i [] n e f a = absurd (cc)
some_candidate done k zero (m ∷ ms) n e f a =
    let at : k + 0 ≡ k = omega arith in
    let f' : flag done k ≡ false = ap (flag done) (sym at) ∙ f in
    let a' : all_done done m.past ≡ true = ground (arith, e, a) in
    ((k, m.id), candidates done (suc k) ms, rw (f', a') refl)
some_candidate done k (suc i) (m ∷ ms) n e f a =
    let shift : k + suc i ≡ suc k + i = omega arith in
    let (c, cs, h) = some_candidate done (suc k) i ms n e (ap (flag done) (sym shift) ∙ f) a in
    elim (Bool-cases (not (flag done k) && all_done done m.past)) [
      | inl t ↦ ((k, m.id), candidates done (suc k) ms, rw t refl)
      | inr t ↦ (c, cs, rw t h)
    ]

-- A candidate's version, by its place from `k` on.
abbrev IsCandidate : List Bool → ℕ → List Node → ℕ × VersionId → Type 0
IsCandidate done k nodes c =
    (j : ℕ) × (c.0 ≡ k + j)
    × (n : Node) × (get_elem? nodes j ≡ some n)
    × (all_done done n.past ≡ true)
    × (flag done c.0 ≡ false)

candidates-IsCandidate :
    (done : List Bool) (k : ℕ) (nodes : List Node)
    → All (IsCandidate done k nodes) (candidates done k nodes)
candidates-IsCandidate done k [] = tt
candidates-IsCandidate done k (n ∷ ns) =
    let rest =
      All-mono later (candidates done (suc k) ns) (candidates-IsCandidate done (suc k) ns) in
    elim (Bool-cases (flag done k)) [
      | inl t ↦ rw t rest
      | inr f ↦ elim (Bool-cases (all_done done n.past)) [
        | inl a ↦ rw (f, a) ((zero, omega arith, n, refl, a, f), rest)
        | inr a ↦ rw (f, a) rest
      ]
    ]
  where
    later : (c : ℕ × VersionId) → IsCandidate done (suc k) ns c → IsCandidate done k (n ∷ ns) c
    later c (j, e, m, g, a, f) = (suc j, omega (arith, e), m, g, a, f)

module _ (id_cmp : VersionId → VersionId → Ordering) where
  All-min_by :
      (P : ℕ × VersionId → Type 0) (best : ℕ × VersionId) (cs : List (ℕ × VersionId))
      → P best
      → All P cs
      → P (min_by id_cmp best cs)
  All-min_by P best [] h hs = h
  All-min_by P best (c ∷ cs) h hs =
      pick (id_cmp c.1 best.1) (All-min_by P c cs hs.0 hs.1) (All-min_by P best cs h hs.1)
    where
      pick :
          (o : Ordering)
          → P (min_by id_cmp c cs)
          → P (min_by id_cmp best cs)
          → P (elim o as (λ _. ℕ × VersionId) [
            | Ordering.lt ↦ min_by id_cmp c cs
            | _ ↦ min_by id_cmp best cs
          ])
      pick Ordering.lt less not_less = less
      pick Ordering.eq less not_less = not_less
      pick Ordering.gt less not_less = not_less

  order_loop_step :
      (left : ℕ) (nodes : List Node) (done : List Bool) (c : ℕ × VersionId)
      (cs : List (ℕ × VersionId)) (out : List ℕ)
      → candidates done 0 nodes ≡ c ∷ cs
      → order_loop id_cmp left nodes (set done (min_by id_cmp c cs).0 true) ≡ some out
      → order_loop id_cmp (suc left) nodes done ≡ some ((min_by id_cmp c cs).0 ∷ out)
  unfolding order_loop
  order_loop_step left nodes done c cs out e f = rw (order_loop, e, f) refl

  order_loop-IsOrdered :
      (left : ℕ) (nodes : List Node) (done : List Bool)
      → IsAcyclic nodes
      → length done ≡ length nodes
      → count done + left ≡ length nodes
      → (out : List ℕ) × (order_loop id_cmp left nodes done ≡ some out)
        × (length out ≡ left)
        × IsOrdered nodes done out
  unfolding order_loop
  order_loop-IsOrdered zero nodes done acyclic size todo = ([], refl, refl, tt)
  order_loop-IsOrdered (suc left) nodes done acyclic size todo =
      let (i, l, f, below) = first_open done (omega (arith, size, todo)) in
      let (n, e, past) = past_below nodes 0 i acyclic (omega (arith, l, size)) in
      let at_i : 0 + i ≡ i = omega arith in
      let past_done =
        all_done_below done i n.past below (subst (λ m. All (λ p. p < m) n.past) at_i past) in
      let (c, cs, some_c) = some_candidate done 0 i nodes n e (ap (flag done) at_i ∙ f) past_done in
      let all_c =
        subst (All (IsCandidate done 0 nodes)) some_c (candidates-IsCandidate done 0 nodes) in
      let next = (min_by id_cmp c cs).0 in
      let (j, at_j, m, get_m, m_done, open') =
        All-min_by (IsCandidate done 0 nodes) c cs all_c.0 all_c.1 in
      let next_lt : next < length done = omega (arith, size, at_j, get_elem?-lt nodes j get_m) in
      let next_j : next ≡ j = omega (arith, at_j) in
      let (out, g, k, ordered) =
        order_loop-IsOrdered left nodes (set done next true) acyclic
          (length-set done next true ∙ size)
          (omega (arith, count-set done next next_lt open', todo)) in
      (
        next ∷ out,
        order_loop_step left nodes done c cs out some_c g,
        omega (arith, k),
        ((m, ap (get_elem? nodes) next_j ∙ get_m, m_done), open', ordered),
      )

  pub length-none_done : (nodes : List Node) → length (none_done nodes) ≡ length nodes
  length-none_done [] = refl
  length-none_done (n ∷ ns) = ap suc (length-none_done ns)

  count-none_done : (nodes : List Node) → count (none_done nodes) ≡ 0
  unfolding count
  count-none_done [] = refl
  count-none_done (n ∷ ns) = omega (arith, count-none_done ns)

  -- Where each version's past is among those applied before it, the versions have an order, so that
  -- the source's `expect` never fails: it has each version exactly once, after its whole past.
  pub order-IsOrdered :
      (nodes : List Node)
      → IsAcyclic nodes
      → (out : List ℕ) × (order id_cmp nodes ≡ some out)
        × (length out ≡ length nodes)
        × IsOrdered nodes (none_done nodes) out
  unfolding order
  order-IsOrdered nodes acyclic =
      order_loop-IsOrdered (length nodes) nodes (none_done nodes) acyclic (length-none_done nodes)
        (omega (arith, count-none_done nodes))
