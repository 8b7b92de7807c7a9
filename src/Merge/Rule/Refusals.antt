-- ===== src/Merge/Rule/Refusals.antt =====
-- Exactly which operations the rule lets through.
use Prim.Native.Nat.{Ordering}
use Prim.Native.String.{String}
use ndn_sim.Prelude.{
  ℕ, ◌≤◌, ◌≡◌, refl, sym, ◌∙◌, ◌↔◌, inl, inr, Bool, true, false, ◌&&◌, List, [], ◌∷◌, Option, none,
  some, if◌then◌else◌, Option-cases, Bool-cases, All, arith, length, ltb,
}
use ndn_sim.Element.{Text, Digest, Operation, VersionId, unhex}
use ndn_sim.Merge.{Applied, any}
use ndn_sim.Merge.Rule.{
  Op, OpKind, MergeError, Result, is_checkpoint, kind_of, check_basis, is_nil, check_strict, check,
}

-- The text spells the digest of a version in the operation's past.
abbrev pub IsInPast : Op → Text → Type 0
IsInPast op d =
    (digest : Digest) × (unhex d ≡ some digest)
    × (id : VersionId) × (op.past_by_digest digest ≡ some id)

check_basis-IsInPast :
    (op : Op) (basis : List Text) → (check_basis op basis ≡ none) ↔ All (IsInPast op) basis
unfolding check_basis
check_basis-IsInPast op [] = (λ h. tt, λ h. refl)
check_basis-IsInPast op (d ∷ ds) = elim (Option-cases (unhex d)) [
  | inl e ↦ (
    λ h. let bad = rw (check_basis, e) at h in absurd (cc),
    λ h. let bad = sym e ∙ h.0.1 in absurd (cc),
  )
  | inr (digest, e) ↦ elim (Option-cases (op.past_by_digest digest)) [
    | inl f ↦
        (λ h. let bad = rw (check_basis, e, f) at h in absurd (cc), λ h. outside digest e f h.0)
    | inr (id, f) ↦ (
      λ h. ((digest, e, id, f), (check_basis-IsInPast op ds).0 (rw (check_basis, e, f) at h)),
      λ h. rw (check_basis, e, f) ((check_basis-IsInPast op ds).1 h.1),
    )
  ]
]
  where
    outside :
        (digest : Digest)
        → unhex d ≡ some digest
        → op.past_by_digest digest ≡ none
        → IsInPast op d
        → check_basis op (d ∷ ds) ≡ none
    outside digest e f (digest', e', id, g) = absurd (cc)

module _ (decode : List ℕ → Option Operation) (parse : String → Option String)
    (has_prefix : String → String → Bool) (id_cmp : VersionId → VersionId → Ordering) where
  -- The operation speaks for its own writer, is made over versions in its past only, has an edit, and
  -- has no other beside a checkpoint.
  abbrev pub IsAllowed : Op → Operation → Type 0
  IsAllowed op d =
      ((claimed : String) × (parse d.writer ≡ some claimed)
        × (has_prefix op.id.writer claimed ≡ true))
      × All (IsInPast op) d.basis
      × (1 ≤ length d.edits)
      × (any is_checkpoint d.edits ≡ true → length d.edits ≤ 1)

  edits_ok :
      (checkpoint nil : Bool) (n : ℕ) (k : OpKind)
      → (nil ≡ true) ↔ (n ≡ 0)
      → ◌≡◌ {A = Result OpKind}
          (if nil
            then Result.err MergeError.no_edit
            else if checkpoint && ltb 1 n
            then Result.err MergeError.not_alone
            else Result.ok (kind_of checkpoint))
          (Result.ok k)
        ↔ ((1 ≤ n) × (checkpoint ≡ true → n ≤ 1) × (k ≡ kind_of checkpoint))
  edits_ok checkpoint nil n k h = ground arith

  is_nil-length {ℓ} : {A : Type ℓ} (xs : List A) → (is_nil xs ≡ true) ↔ (length xs ≡ 0)
  is_nil-length [] = (λ h. refl, λ h. refl)
  is_nil-length (x ∷ xs) = ground arith

  check_strict-IsAllowed :
      (op : Op) (d : Operation) (k : OpKind)
      → (check_strict decode parse has_prefix id_cmp op d ≡ Result.ok k)
        ↔ (IsAllowed op d × (k ≡ kind_of (any is_checkpoint d.edits)))
  unfolding check_strict
  check_strict-IsAllowed op d k = elim (Option-cases (parse d.writer)) [
    | inl e ↦ (
      λ h. let bad = rw (check_strict, e) at h in absurd (cc),
      λ h. let bad = sym e ∙ h.0.0.1 in absurd (cc),
    )
    | inr (claimed, e) ↦ elim (Bool-cases (has_prefix op.id.writer claimed)) [
      | inr f ↦ (
        λ h. let bad = rw (check_strict, e, f) at h in absurd (cc),
        λ h. claims claimed e f h.0.0,
      )
      | inl f ↦ elim (Option-cases (check_basis op d.basis)) [
        | inr (err', g) ↦ (
          λ h. let bad = rw (check_strict, e, f, g) at h in absurd (cc),
          λ h. let bad = sym g ∙ (check_basis-IsInPast op d.basis).1 h.0.1 in absurd (cc),
        )
        | inl g ↦
            let tail =
              edits_ok (any is_checkpoint d.edits) (is_nil d.edits) (length d.edits) k
                (is_nil-length d.edits) in
            (
              λ h.
                  let t = tail.0 (rw (check_strict, e, f, g) at h) in
                  (((claimed, e, f), (check_basis-IsInPast op d.basis).0 g, t.0, t.1), t.2),
              λ h. rw (check_strict, e, f, g) (tail.1 (h.0.2, h.0.3, h.1)),
            )
      ]
    ]
  ]
    where
      claims :
          (claimed : String)
          → parse d.writer ≡ some claimed
          → has_prefix op.id.writer claimed ≡ false
          → (c : String) × (parse d.writer ≡ some c) × (has_prefix op.id.writer c ≡ true)
          → check_strict decode parse has_prefix id_cmp op d ≡ Result.ok k
      claims claimed e f (c, e', t) = absurd (cc)

  -- The rule as written lets an operation through exactly when its octets are an operation that claims
  -- its own writer, names only versions of its past as its basis, has an edit, and has nothing beside
  -- a checkpoint; the answer is whether it is a checkpoint.
  pub check-IsAllowed :
      (a : Applied) (op : Op) (k : OpKind)
      → a.lax ≡ false
      → (check decode parse has_prefix id_cmp a op ≡ Result.ok k) ↔ (
          (d : Operation) × (decode op.bytes ≡ some d)
          × IsAllowed op d
          × (k ≡ kind_of (any is_checkpoint d.edits)))
  unfolding check
  check-IsAllowed a op k strict = elim (Option-cases (decode op.bytes)) [
    | inl e ↦ (
      λ h. let bad = rw (check, e) at h in absurd (cc),
      λ h. let bad = sym e ∙ h.1 in absurd (cc),
    )
    | inr (d, e) ↦ (
      λ h.
          let t = (check_strict-IsAllowed op d k).0 (rw (check, e, strict) at h) in
          (d, e, t.0, t.1),
      λ h. back d e h,
    )
  ]
    where
      back :
          (d : Operation)
          → decode op.bytes ≡ some d
          → (d' : Operation) × (decode op.bytes ≡ some d')
            × IsAllowed op d'
            × (k ≡ kind_of (any is_checkpoint d'.edits))
          → check decode parse has_prefix id_cmp a op ≡ Result.ok k
      back d e (d', e', t, u) = rw (check, e', strict) ((check_strict-IsAllowed op d' k).1 (t, u))
