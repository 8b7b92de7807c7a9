-- ===== src/Merge/Rule/Counts.antt =====
-- What applying a version keeps: that each version's past is before it, and that what counts goes on
-- counting.
use Prim.Native.Nat.{Ordering}
use Prim.Native.String.{String}
use ndn_sim.Prelude.{
  ℕ, ◌+◌, ◌<◌, ◌≡◌, refl, ◌⊎◌, inl, inr, Bool, List, [], ◌∷◌, ◌++◌, subst, Option, none,
  Option-cases, All, All-mono, arith, length, length-append, Returns,
}
use ndn_sim.Element.{Operation, VersionId}
use ndn_sim.Merge.{Node, Applied, locks, start, not_counted}
use ndn_sim.Merge.Order.{IsAcyclic, order-IsOrdered}
use ndn_sim.Merge.Rule.{Op, position, past_from, place, answer, apply}
use ndn_sim.Merge.Value.{merged}
use ndn_sim.Merge.Rule.Grow.{All-past_from, IsBelow-append, not_counted-append}

module _ (decode : List ℕ → Option Operation) (parse : String → Option String)
    (has_prefix : String → String → Bool) (id_cmp : VersionId → VersionId → Ordering) where
  answer_nodes :
      (id : VersionId) (i : ℕ) (a : Applied)
      → (answer decode parse has_prefix id_cmp id i a).1.nodes ≡ a.nodes
  unfolding answer
  answer_nodes id i a = elim (Option-cases (not_counted a.nodes i (locks a))) [
    | inl e ↦ rw (answer, e) refl
    | inr (h, e) ↦ rw (answer, e) refl
  ]

  -- An applied version is appended, with its past among those before it, or nothing is.
  apply_nodes :
      (op : Op) (a : Applied)
      → let a' = (apply decode parse has_prefix id_cmp op a).1 in
        (a'.nodes ≡ a.nodes)
        ⊎ ((n : Node) × All (λ p. p < length a.nodes) n.past × (a'.nodes ≡ a.nodes ++ n ∷ []))
  unfolding apply place
  apply_nodes op a = elim (Option-cases (decode op.bytes)) [
    | inl e ↦ rw (apply, e) (inl refl)
    | inr (d, e) ↦ elim (Option-cases (position op.id 0 a.nodes)) [
      | inr (i, f) ↦ rw (apply, e, place, f) (inl (answer_nodes op.id i a))
      | inl f ↦
          let n : Node = record {
            id = op.id;
            digest = op.digest;
            op = d;
            past = past_from op 0 a.nodes;
          } in
          let bound : 0 + length a.nodes ≡ length a.nodes = omega arith in
          rw (apply, e, place, f)
            (inr (
              n,
              subst (λ k. All (λ p. p < k) (past_from op 0 a.nodes)) bound
                  (All-past_from op 0 a.nodes),
              answer_nodes op.id (length a.nodes) (record a { nodes = a.nodes ++ n ∷ [] }),
            ))
    ]
  ]

  abbrev pub apply_all : List Op → Applied → Applied
  apply_all [] a = a
  apply_all (op ∷ ops) a = apply_all ops (apply decode parse has_prefix id_cmp op a).1

  apply-IsAcyclic :
      (op : Op) (a : Applied)
      → IsAcyclic a.nodes
      → IsAcyclic (apply decode parse has_prefix id_cmp op a).1.nodes
  apply-IsAcyclic op a h = elim (apply_nodes op a) [
    | inl e ↦ rw e h
    | inr (n, p, e) ↦
        rw e (IsBelow-append 0 a.nodes n h (All-mono (λ q l. omega (arith, l)) n.past p))
  ]

  -- The version at `i` is applied and counts.
  abbrev pub CountsAt : Applied → ℕ → Type 0
  CountsAt a i = (i < length a.nodes) × (not_counted a.nodes i (locks a) ≡ none)

  apply-CountsAt :
      (op : Op) (a : Applied) (i : ℕ)
      → IsAcyclic a.nodes
      → CountsAt a i
      → CountsAt (apply decode parse has_prefix id_cmp op a).1 i
  unfolding locks
  apply-CountsAt op a i acyclic (l, c) = elim (apply_nodes op a) [
    | inl e ↦ rw e (l, c)
    | inr (n, p, e) ↦ rw e (
      omega (arith, l, length-append a.nodes (n ∷ [])),
      not_counted-append a.nodes n i acyclic l c,
    )
  ]

  apply_all-IsAcyclic :
      (ops : List Op) (a : Applied) → IsAcyclic a.nodes → IsAcyclic (apply_all ops a).nodes
  apply_all-IsAcyclic [] a h = h
  apply_all-IsAcyclic (op ∷ ops) a h =
      apply_all-IsAcyclic ops (apply decode parse has_prefix id_cmp op a).1 (apply-IsAcyclic op a h)

  apply_all_counts :
      (ops : List Op) (a : Applied) (i : ℕ)
      → IsAcyclic a.nodes
      → CountsAt a i
      → CountsAt (apply_all ops a) i
  apply_all_counts [] a i h c = c
  apply_all_counts (op ∷ ops) a i h c =
      apply_all_counts ops (apply decode parse has_prefix id_cmp op a).1 i (apply-IsAcyclic op a h)
        (apply-CountsAt op a i h c)

  -- In a state that the rule reaches from its start, a version that is applied and counts goes on
  -- counting, whatever is applied later: locks taken later do not reach back to it.
  pub apply_all-CountsAt :
      (lax : Bool) (before after : List Op) (i : ℕ)
      → CountsAt (apply_all before (start lax)) i
      → CountsAt (apply_all after (apply_all before (start lax))) i
  unfolding start
  apply_all-CountsAt lax before after i c =
      apply_all_counts after (apply_all before (start lax)) i
        (apply_all-IsAcyclic before (start lax) tt) c

  -- Whatever was applied, and in which order, the merged value exists: the panic in the ordering of
  -- the versions does not happen.
  pub merged-apply_all :
      (key_cmp : String → String → Ordering) (lax : Bool) (ops : List Op)
      → Returns (λ v. Unit) (merged key_cmp id_cmp (apply_all ops (start lax)))
  unfolding start merged
  merged-apply_all key_cmp lax ops =
      let a = apply_all ops (start lax) in
      let (out, e, size, ordered) =
        order-IsOrdered id_cmp a.nodes (apply_all-IsAcyclic ops (start lax) tt) in
      rw (merged, e) tt
