-- ===== src/Routing/TwoHop.antt =====
-- The two-hop neighbours in crates/ndn-sim-studies/src/routing.rs.
use ndn_sim.Prelude.{
  ℕ, zero, suc, ◌<◌, ◌≡◌, ◌≢◌, refl, sym, subst, ◌⊎◌, inl, inr, true, not, ◌&&◌, List, [], ◌∷◌, map,
  none, arith, if◌then◌else◌, ◌==◌, ==_iff, Bool-cases, Option-cases, length, get_elem?, All, In,
  here, there, Returns, Returns-mono,
}
use ndn_sim.Routing.{in_set, insert_set, neighbours, add_two_hop, two_hop}
use ndn_sim.Routing.Choice.{in_set-In}

module _ (u : ℕ) (n1 : List ℕ) where
  pub In-insert_set : (w x : ℕ) (s : List ℕ) → In x s → In x (insert_set w s)
  In-insert_set w x s m = elim (Bool-cases (in_set w s)) [ inl e ↦ rw e m | inr e ↦ rw e (there m) ]

  insert_set-In : (w : ℕ) (s : List ℕ) → In w (insert_set w s)
  insert_set-In w s = elim (Bool-cases (in_set w s)) [
    | inl e ↦ rw e (in_set-In w s e)
    | inr e ↦ rw e (here refl)
  ]

  insert_set_inv : (w x : ℕ) (s : List ℕ) → In x (insert_set w s) → (x ≡ w) ⊎ In x s
  insert_set_inv w x s m = elim (Bool-cases (in_set w s)) [
    | inl e ↦ inr (rw e at m)
    | inr e ↦ front (rw e at m)
  ]
    where
      front : In x (w ∷ s) → (x ≡ w) ⊎ In x s
      front (here f) = inl (sym f)
      front (there k) = inr k

  -- What is in the set stays, and the nodes of the row that pass the test come in.
  pub add_two_hop-keeps : (ws n2 : List ℕ) (x : ℕ) → In x n2 → In x (add_two_hop u n1 ws n2)
  add_two_hop-keeps [] n2 x m = m
  add_two_hop-keeps (w ∷ ws) n2 x m = elim (Bool-cases (not (w == u) && not (in_set w n1))) [
    | inl e ↦ rw e (add_two_hop-keeps ws (insert_set w n2) x (In-insert_set w x n2 m))
    | inr e ↦ rw e (add_two_hop-keeps ws n2 x m)
  ]

  pub add_two_hop-In :
      (ws n2 : List ℕ) (x : ℕ)
      → In x ws
      → (not (x == u) && not (in_set x n1)) ≡ true
      → In x (add_two_hop u n1 ws n2)
  add_two_hop-In [] n2 x m e = elim m [ ]
  add_two_hop-In (w ∷ ws) n2 x (here f) e =
      let test : (not (w == u) && not (in_set w n1)) ≡ true = rw f e in
      rw test (
        add_two_hop-keeps ws (insert_set w n2) x
          (subst (λ z. In z (insert_set w n2)) f (insert_set-In w n2)))
  add_two_hop-In (w ∷ ws) n2 x (there m) e =
      add_two_hop-In ws (if not (w == u) && not (in_set w n1) then insert_set w n2 else n2) x m e

  pub add_two_hop_inv : (ws n2 : List ℕ) (x : ℕ) → In x (add_two_hop u n1 ws n2) → In x n2 ⊎ In x ws
  add_two_hop_inv [] n2 x m = inl m
  add_two_hop_inv (w ∷ ws) n2 x m = elim (Bool-cases (not (w == u) && not (in_set w n1))) [
    | inr e ↦ later (add_two_hop_inv ws n2 x (rw e at m))
    | inl e ↦ first (add_two_hop_inv ws (insert_set w n2) x (rw e at m))
  ]
    where
      later : In x n2 ⊎ In x ws → In x n2 ⊎ In x (w ∷ ws)
      later (inl k) = inl k
      later (inr k) = inr (there k)

      first : In x (insert_set w n2) ⊎ In x ws → In x n2 ⊎ In x (w ∷ ws)
      first (inr k) = inr (there k)
      first (inl k) = elim (insert_set_inv w x n2 k) [
        | inl e ↦ inr (here (sym e))
        | inr k' ↦ inl k'
      ]

not_eq : (x y : ℕ) → x ≢ y → not (x == y) ≡ true
not_eq x y ne = elim (Bool-cases (x == y)) [
  | inl e ↦ absurd (ne ((==_iff x y).0 e))
  | inr e ↦ rw e refl
]

outside : (x : ℕ) (xs : List ℕ) → (In x xs → ⊥) → not (in_set x xs) ≡ true
outside x xs f = elim (Bool-cases (in_set x xs)) [
  | inl e ↦ absurd (f (in_set-In x xs e))
  | inr e ↦ rw e refl
]

-- What the loop over the neighbours `vs` gathers, from `n2` on.
pub record Gathered (adj : List (List (ℕ × ℕ))) (u : ℕ) (n1 vs n2 r : List ℕ) : Type 0 where
  pub kept : (x : ℕ) → In x n2 → In x r
  pub all : (v x : ℕ) → In v vs → In x (neighbours adj v) → x ≢ u → (In x n1 → ⊥) → In x r
  pub only : (x : ℕ) → In x r → In x n2 ⊎ ((v : ℕ) × In v vs × In x (neighbours adj v))

pub in_range : (adj : List (List (ℕ × ℕ))) (v : ℕ) → v < length adj → get_elem? adj v ≢ none
in_range [] v l e = absurd (omega arith)
in_range (row ∷ adj) zero l e = cc
in_range (row ∷ adj) (suc v) l e = in_range adj v (omega arith) e

pub two_hop_lem :
    (adj : List (List (ℕ × ℕ))) (u : ℕ) (n1 vs n2 : List ℕ)
    → All (λ v. v < length adj) vs
    → Returns (Gathered adj u n1 vs n2) (two_hop adj u n1 vs n2)
unfolding two_hop
two_hop_lem adj u n1 [] n2 h = record {
  kept = λ x m. m;
  all = λ v x m. elim m [ ];
  only = λ x m. inl m;
}
two_hop_lem adj u n1 (v ∷ vs) n2 h = elim (Option-cases (get_elem? adj v)) [
  | inl e ↦ absurd (in_range adj v h.0 e)
  | inr (row, e) ↦
      let ids : neighbours adj v ≡ map (λ e. e.0) row = rw (e, neighbours) refl in
      let n2' = add_two_hop u n1 (map (λ e. e.0) row) n2 in
      rw (e, two_hop)
        (Returns-mono _ _ (two_hop adj u n1 vs n2')
          (λ r (g : Gathered adj u n1 vs n2' r). record {
            kept = λ x m. g.kept x (add_two_hop-keeps u n1 (map (λ e. e.0) row) n2 x m);
            all = λ v' x m near ne out. elim m [
              | here f ↦ g.kept x (
                  add_two_hop-In u n1 (map (λ e. e.0) row) n2 x
                    (subst (In x) ids (subst (λ z. In x (neighbours adj z)) (sym f) near))
                    (rw (not_eq x u ne, outside x n1 out) refl))
              | there m' ↦ g.all v' x m' near ne out
            ];
            only = λ x m. elim (g.only x m) [
              | inr (v', k, near) ↦ inr (v', there k, near)
              | inl k ↦ elim (add_two_hop_inv u n1 (map (λ e. e.0) row) n2 x k) [
                | inl k' ↦ inl k'
                | inr k' ↦ inr (v, here refl, subst (In x) (sym ids) k')
              ]
            ];
          })
          (two_hop_lem adj u n1 vs n2' h.1))
]
