-- ===== src/Routing/Cover.antt =====
-- The relays of crates/ndn-sim-studies/src/routing.rs reach every two-hop neighbour.
use ndn_sim.Prelude.{
  ℕ, zero, suc, ◌<◌, ◌≡◌, ◌≢◌, refl, sym, subst, ◌∙◌, ◌⊎◌, inl, inr, Bool, true, false, false≢true,
  not, List, [], ◌∷◌, ◌++◌, map, arith, Bool-cases, Option-cases, length, get_elem?, All,
  All-append, In, here, there, In-append, In-append_left, In-append_right, Returns, Returns->>=,
  Returns-mono,
}
use ndn_sim.Routing.{
  TopologyView, in_set, filter, remove_all, neighbours, two_hop, covers, max_from, compare_cover,
  relays, mpr_set,
}
use ndn_sim.Routing.Choice.{
  in_set-In, In-in_set, In-filter, filter-In, filter-lt, covers-pos, covers-some, max_from_lem,
}
use ndn_sim.Routing.TwoHop.{Gathered, in_range, two_hop_lem}

-- Every node of `n2` is reached from some neighbour in `n1`, and either a relay reaches it or it is
-- still uncovered, in which case no relay does.
record Progress (adj : List (List (ℕ × ℕ))) (n1 n2 uncovered mprs : List ℕ) : Type 0 where
  chosen : All (λ m. In m n1) mprs
  reachable : (w : ℕ) → In w uncovered → (v : ℕ) × In v n1 × In w (neighbours adj v)
  untouched : (w m : ℕ) → In w uncovered → In m mprs → In w (neighbours adj m) → ⊥
  covered : (w : ℕ) → In w n2 → In w uncovered ⊎ ((m : ℕ) × In m mprs × In w (neighbours adj m))

-- The relays are neighbours, and reach all of `n2`.
abbrev pub Covers : List (List (ℕ × ℕ)) → List ℕ → List ℕ → List ℕ → Type 0
Covers adj n1 n2 mprs =
    All (λ m. In m n1) mprs × ((w : ℕ) → In w n2 → (m : ℕ) × In m mprs × In w (neighbours adj m))

negated : (b : Bool) → not b ≡ true → b ≡ false
negated true e = absurd (false≢true e)
negated false e = refl

module _ (adj : List (List (ℕ × ℕ))) (n1 n2 : List ℕ) where
  -- A relay takes what it reaches out of what is uncovered.
  Progress-relay :
      (uncovered mprs : List ℕ) (best : ℕ)
      → Progress adj n1 n2 uncovered mprs
      → In best n1
      → Progress adj n1 n2 (remove_all (neighbours adj best) uncovered) (mprs ++ best ∷ [])
  Progress-relay uncovered mprs best h m =
      let keep : (w : ℕ)
          → In w (remove_all (neighbours adj best) uncovered)
          → In w uncovered × (not (in_set w (neighbours adj best)) ≡ true) =
        λ w k. filter-In (λ x. not (in_set x (neighbours adj best))) uncovered w k in
      record {
        chosen = All-append _ mprs _ h.chosen (m, tt);
        reachable = λ w k. h.reachable w (keep w k).0;
        untouched = λ w x k r t. elim (In-append mprs (best ∷ []) r) [
          | inl old ↦ h.untouched w x (keep w k).0 old t
          | inr (here e) ↦ false≢true (
              sym (negated _ (keep w k).1)
              ∙ In-in_set w _ (subst (λ z. In w (neighbours adj z)) (sym e) t))
          | inr (there x) ↦ elim x [ ]
        ];
        covered = λ w k. elim (h.covered w k) [
          | inr (x, r, t) ↦ inr (x, In-append_left mprs _ r, t)
          | inl u ↦ elim (Bool-cases (in_set w (neighbours adj best))) [
            | inl e ↦ inr (best, In-append_right mprs _ (here refl), in_set-In w _ e)
            | inr e ↦ inl (In-filter _ uncovered w u (rw e refl))
          ]
        ];
      }

  relays-Covers :
      (fuel : ℕ) (uncovered mprs : List ℕ)
      → length uncovered < fuel
      → Progress adj n1 n2 uncovered mprs
      → Returns (Covers adj n1 n2) (relays fuel adj n1 uncovered mprs)
  unfolding relays
  relays-Covers zero uncovered mprs l h = absurd (omega arith)
  relays-Covers (suc fuel) [] mprs l h = (h.chosen, λ w m. all_done w (h.covered w m))
    where
      all_done :
          (w : ℕ)
          → In w [] ⊎ ((m : ℕ) × In m mprs × In w (neighbours adj m))
          → (m : ℕ) × In m mprs × In w (neighbours adj m)
      all_done w (inl m) = elim m [ ]
      all_done w (inr r) = r
  relays-Covers (suc fuel) (w ∷ ws) mprs l h =
      let (v, near, reach) = h.reachable w (here refl) in
      let fresh : not (in_set v mprs) ≡ true = elim (Bool-cases (in_set v mprs)) [
        | inl e ↦ absurd (h.untouched w v (here refl) (in_set-In v mprs e) reach)
        | inr e ↦ rw e refl
      ] in
      let among = In-filter (λ x. not (in_set x mprs)) n1 v near fresh in
      let (x, rest, e) = nonempty (filter (λ x. not (in_set x mprs)) n1) v among in
      let best = max_from (compare_cover adj (w ∷ ws)) x rest in
      let (chosen, most) = max_from_lem adj (w ∷ ws) x rest in
      let some_cover : 0 < covers adj (w ∷ ws) best =
        omega
          (arith, most v (subst (In v) e among), covers-pos adj (w ∷ ws) v w reach (here refl)) in
      let (k, c) = positive (covers adj (w ∷ ws) best) some_cover in
      let (y, at, left) = covers-some adj (w ∷ ws) best k c in
      let from_n1 : In best n1 =
        (filter-In (λ x. not (in_set x mprs)) n1 best (subst (In best) (sym e) chosen)).0 in
      let fewer : length (remove_all (neighbours adj best) (w ∷ ws)) < suc (length ws) =
        filter-lt (λ x. not (in_set x (neighbours adj best))) (w ∷ ws) y left
          (rw (In-in_set y _ at) refl) in
      rw (e, relays, c)
        (relays-Covers fuel (remove_all (neighbours adj best) (w ∷ ws)) (mprs ++ best ∷ [])
          (omega (arith, fewer, l)) (Progress-relay (w ∷ ws) mprs best h from_n1))
    where
      nonempty : (xs : List ℕ) (v : ℕ) → In v xs → (x : ℕ) × (rest : List ℕ) × (xs ≡ x ∷ rest)
      nonempty [] v m = elim m [ ]
      nonempty (x ∷ rest) v m = (x, rest, refl)

      positive : (n : ℕ) → 0 < n → (k : ℕ) × (n ≡ suc k)
      positive zero p = absurd (omega arith)
      positive (suc k) p = (k, refl)

-- The two-hop neighbours of `u`: nodes other than it and its neighbours that a neighbour has.
abbrev pub IsTwoHop : List (List (ℕ × ℕ)) → ℕ → List ℕ → ℕ → Type 0
IsTwoHop adj u n1 w = (w ≢ u) × (In w n1 → ⊥) × (v : ℕ) × In v n1 × In w (neighbours adj v)

-- If its neighbours are nodes, the relays of a node are neighbours of it that reach all of its
-- two-hop neighbours.
pub mpr_set-Covers :
    (view : TopologyView) (u : ℕ)
    → u < length view.adj
    → All (λ v. v < length view.adj) (neighbours view.adj u)
    → Returns
        (λ mprs.
          All (λ m. In m (neighbours view.adj u)) mprs
          × ((w : ℕ)
              → IsTwoHop view.adj u (neighbours view.adj u) w
              → (m : ℕ) × In m mprs × In w (neighbours view.adj m)))
        (mpr_set view u)
unfolding mpr_set
mpr_set-Covers view u l h = elim (Option-cases (get_elem? view.adj u)) [
  | inl e ↦ absurd (in_range view.adj u l e)
  | inr (row, e) ↦
      let n1 = map (λ e. e.0) row in
      let ids : neighbours view.adj u ≡ n1 = rw (e, neighbours) refl in
      rw (e, ids)
        (Returns->>= (Gathered view.adj u n1 n1 []) _ (two_hop view.adj u n1 n1 []) _
          (two_hop_lem view.adj u n1 n1 [] (subst (All (λ v. v < length view.adj)) ids h))
          λ n2 g.
            Returns-mono (Covers view.adj n1 n2) _ (relays (suc (length n2)) view.adj n1 n2 [])
              (λ mprs c. (c.0, λ w t. c.1 w (g.all t.2 w t.3 t.4 t.0 t.1)))
              (relays-Covers view.adj n1 n2 (suc (length n2)) n2 [] (omega arith) (record {
                chosen = tt;
                reachable = λ w m. from_row (g.only w m);
                untouched = λ w m k none. elim none [ ];
                covered = λ w m. inl m;
              })))
]
  where
    from_row :
        {n1 : List ℕ} {w : ℕ}
        → In w [] ⊎ ((v : ℕ) × In v n1 × In w (neighbours view.adj v))
        → (v : ℕ) × In v n1 × In w (neighbours view.adj v)
    from_row (inl m) = elim m [ ]
    from_row (inr r) = r
