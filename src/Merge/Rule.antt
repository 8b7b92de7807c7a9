-- ===== src/Merge/Rule.antt =====
-- The merge engine's calls of the element rule, crates/ndn-data-conformance/src/element.rs: `check`,
-- `apply` and `now_counted`. A refusal is data where the source formats a text.
pub mod Refusals
mod Grow
pub mod Counts
use Prim.Native.Nat.{Ordering}
use Prim.Native.String.{String}
use ndn_sim.Prelude.{
  ℕ, zero, suc, ◌+◌, Bool, true, false, not, ◌&&◌, List, [], ◌∷◌, ◌++◌, Option, none, some,
  if◌then◌else◌, ltb, ◌==◌, length, set_insert, set_remove,
}
use ndn_sim.Element.{Text, Digest, Edit, Timed, Operation, VersionId, unhex}
use ndn_sim.Merge.{Node, Held, Applied, any, locks, not_counted, same_text}

-- What the engine hands the rule: a version, with what it knows of the version's past.
pub record Op : Type 0 where
  pub id : VersionId
  pub digest : Digest
  pub past_contains : VersionId → Bool
  pub past_by_digest : Digest → Option VersionId
  pub bytes : List ℕ

pub data OpKind : Type 0 where
  edit_kind checkpoint_kind : OpKind

pub data MergeError : Type 0 where
  not_an_operation no_name claims_other no_edit not_alone : MergeError
  no_digest outside_past : Text → MergeError

pub data Counting : Type 0 where
  counted : Counting
  not_counted_for : Held → Counting

pub data Result (A : Type 0) : Type 0 where
  ok : A → Result A
  err : MergeError → Result A

abbrev pub is_checkpoint : Timed → Bool
is_checkpoint t = elim t.edit [ Edit.checkpoint s ↦ true | _ ↦ false ]

abbrev pub kind_of : Bool → OpKind
kind_of checkpoint = if checkpoint then checkpoint_kind else edit_kind

abbrev pub same_id : VersionId → VersionId → Bool
same_id a b = same_text a.writer b.writer && (a.seq == b.seq)

-- The loop over the basis.
pub check_basis : Op → List Text → Option MergeError
check_basis op [] = none
check_basis op (d ∷ ds) =
    let rest = check_basis op ds in
    elim (unhex d) [
      | none ↦ some (no_digest d)
      | some digest ↦ elim (op.past_by_digest digest) [
        | none ↦ some (outside_past d)
        | some id ↦ rest
      ]
    ]

abbrev pub is_nil {ℓ} : {A : Type ℓ} → List A → Bool
is_nil [] = true
is_nil (x ∷ xs) = false

-- `position`.
unfoldable pub position : VersionId → ℕ → List Node → Option ℕ
position id i [] = none
position id i (n ∷ ns) =
    let rest = position id (suc i) ns in if same_id n.id id then some i else rest

-- The indices from `i` on whose versions are in the operation's past.
abbrev pub past_from : Op → ℕ → List Node → List ℕ
past_from op i [] = []
past_from op i (n ∷ ns) =
    let rest = past_from op (suc i) ns in if op.past_contains n.id then i ∷ rest else rest

module _ (decode : List ℕ → Option Operation) (parse : String → Option String)
    (has_prefix : String → String → Bool) (id_cmp : VersionId → VersionId → Ordering) where
  -- The checks after the decoding, of a rule that is not lax.
  pub check_strict : Op → Operation → Result OpKind
  unfolding check_basis
  check_strict op d =
      let checkpoint = any is_checkpoint d.edits in
      elim (parse d.writer) [
        | none ↦ err no_name
        | some claimed ↦
            if not (has_prefix op.id.writer claimed)
            then err claims_other
            else elim (check_basis op d.basis) [
              | some e ↦ err e
              | none ↦
                  if is_nil d.edits
                  then err no_edit
                  else if checkpoint && ltb 1 (length d.edits)
                  then err not_alone
                  else ok (kind_of checkpoint)
            ]
      ]

  pub check : Applied → Op → Result OpKind
  unfolding check_strict
  check a op = elim (decode op.bytes) [
    | none ↦ err not_an_operation
    | some d ↦ if a.lax then ok (kind_of (any is_checkpoint d.edits)) else check_strict op d
  ]

  -- The version's index, and the versions with it.
  unfoldable pub place : Op → Operation → List Node → ℕ × List Node
  unfolding position
  place op d nodes = elim (position op.id 0 nodes) [
    | some i ↦ (i, nodes)
    | none ↦ (
      length nodes,
      nodes ++ record { id = op.id; digest = op.digest; op = d; past = past_from op 0 nodes } ∷ [],
    )
  ]

  -- Whether the version at `i` counts; one that does not is remembered.
  unfoldable pub answer : VersionId → ℕ → Applied → Result Counting × Applied
  answer id i a = elim (not_counted a.nodes i (locks a)) [
    | some h ↦ (ok (not_counted_for h), record a { reported = set_insert id_cmp id a.reported })
    | none ↦ (ok counted, a)
  ]

  unfoldable pub apply : Op → Applied → Result Counting × Applied
  unfolding place answer
  apply op a = elim (decode op.bytes) [
    | none ↦ (err not_an_operation, a)
    | some d ↦ let (i, nodes) = place op d a.nodes in answer op.id i (record a { nodes = nodes })
  ]

  -- The version is applied and counts.
  abbrev pub counts_now : Applied → VersionId → Bool
  counts_now a id = elim (position id 0 a.nodes) [
    | none ↦ false
    | some i ↦ elim (not_counted a.nodes i (locks a)) [ none ↦ true | some h ↦ false ]
  ]

  abbrev pub filter_ids : (VersionId → Bool) → List VersionId → List VersionId
  filter_ids f [] = []
  filter_ids f (id ∷ ids) = let rest = filter_ids f ids in if f id then id ∷ rest else rest

  abbrev pub remove_all : List VersionId → List VersionId → List VersionId
  remove_all [] ids = ids
  remove_all (c ∷ cs) ids = remove_all cs (set_remove id_cmp c ids)

  pub now_counted : Applied → List VersionId × Applied
  now_counted a =
      let counting = filter_ids (counts_now a) a.reported in
      (counting, record a { reported = remove_all counting a.reported })
