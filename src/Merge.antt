-- ===== src/Merge.antt =====
-- The element merge rule, crates/ndn-data-conformance/src/element.rs: the applied versions of one
-- element, the locks among them, their order, and the merged value.
--
-- The order of version ids and of writers' keys, and the parsing of an operation's octets and of a
-- writer's name, are other crates' code and parameters here. The merged value's JSON is not modelled.
pub mod Value
pub mod Order
pub mod Rule
mod Examples
use Prim.Native.Nat.{compare, Ordering}
use Prim.Native.String.{String, compare as compare_text}
use ndn_sim.Prelude.{
  ℕ, zero, suc, ◌+◌, ◌-◌, Bool, true, false, not, ◌&&◌, ◌||◌, List, [], ◌∷◌, ◌++◌, map, Option,
  none, some, if◌then◌else◌, ltb, leb, ◌==◌, length, get_elem?, set, range, lookup, string_key,
  nat_key, adjust, get, set_insert, set_remove, sort_by, lex, compare_lists, Key,
}
use ndn_sim.Element.{
  Text, Digest, Place, Lock, ElementState, Edit, Timed, Operation, Slot, slot_cmp, lock_cmp,
  Written, Alternative, Variant, Head, ElementValue, VersionId, Splice, spliced, hex, unhex,
}

pub record Node : Type 0 where
  pub id : VersionId
  pub digest : Digest
  pub op : Operation
  pub past : List ℕ

pub record Held : Type 0 where
  pub setting : String
  pub by : String
  pub at : ℕ

pub record Applied : Type 0 where
  pub lax : Bool
  pub nodes : List Node
  pub reported : List VersionId

-- `Element::new`, `Element::lax` and `start`.
pub start : Bool → Applied
start lax = record { lax = lax; nodes = []; reported = [] }

abbrev pub same_text : String → String → Bool
same_text a b = string_key.same a b

-- `past.contains`, for the indices of a past.
abbrev pub contains : ℕ → List ℕ → Bool
contains i [] = false
contains i (p ∷ ps) = (p == i) || contains i ps

abbrev pub any {ℓ} : {A : Type ℓ} → (A → Bool) → List A → Bool
any f [] = false
any f (x ∷ xs) = f x || any f xs

-- An operation of one edit that is a checkpoint.
abbrev pub checkpoint_of : List Timed → Option ElementState
checkpoint_of (t ∷ []) = elim t.edit [ Edit.checkpoint s ↦ some s | _ ↦ none ]
checkpoint_of _ = none

abbrev pub node_checkpoint : Node → Option ElementState
node_checkpoint n = checkpoint_of n.op.edits

-- The edit sets or changes the setting.
abbrev pub edit_writes : String → Timed → Bool
edit_writes setting t = elim t.edit [
  | Edit.sets s v ↦ same_text s setting
  | Edit.change s splice ↦ same_text s setting
  | _ ↦ false
]

abbrev pub writes : Node → String → Bool
writes n setting = any (edit_writes setting) n.op.edits

abbrev pub take_lock : Edit → List String → List String
take_lock (Edit.lock s) taken = set_insert compare_text s taken
take_lock (Edit.unlock s) taken = set_remove compare_text s taken
take_lock _ taken = taken

abbrev pub taken_from : List Timed → List String → List String
taken_from [] taken = taken
taken_from (t ∷ ts) taken = taken_from ts (take_lock t.edit taken)

abbrev pub state_locks : ℕ → List Lock → List Held
state_locks i [] = []
state_locks i (l ∷ ls) = record { setting = l.setting; by = l.by; at = i } ∷ state_locks i ls

abbrev pub taken_locks : ℕ → String → List String → List Held
taken_locks i by [] = []
taken_locks i by (s ∷ ss) = record { setting = s; by = by; at = i } ∷ taken_locks i by ss

-- The locks that the version at `i` took: by edits, or in a checkpoint's state.
pub locks_of : ℕ → Node → List Held
locks_of i n = elim (node_checkpoint n) [
  | some s ↦ state_locks i s.locks
  | none ↦ taken_locks i n.id.writer (taken_from n.op.edits [])
]

pub locks_from : ℕ → List Node → List Held
unfolding locks_of
locks_from i [] = []
locks_from i (n ∷ ns) = locks_of i n ++ locks_from (suc i) ns

unfoldable pub locks : Applied → List Held
unfolding locks_from
locks a = locks_from 0 a.nodes

abbrev pub keeps : Held → Lock → Bool
keeps h l = same_text l.setting h.setting && same_text l.by h.by

abbrev pub unlocks : String → Timed → Bool
unlocks setting t = elim t.edit [ Edit.unlock s ↦ same_text s setting | _ ↦ false ]

-- The version lifts the lock.
pub lifts : Held → Node → Bool
lifts h n = contains h.at n.past && elim (node_checkpoint n) [
  | some s ↦ not (any (keeps h) s.locks)
  | none ↦ same_text n.id.writer h.by && any (unlocks h.setting) n.op.edits
]

unfoldable pub lifted : List Node → Held → Bool
unfolding lifts
lifted nodes h = any (lifts h) nodes

-- The lock bars the version: another writer's, in its past, on a setting that it writes, not lifted.
pub bars : List Node → Node → Held → Bool
unfolding lifted
bars nodes n h =
    (not (same_text h.by n.id.writer) && contains h.at n.past)
    && (writes n h.setting && not (lifted nodes h))

abbrev pub find {ℓ} : {A : Type ℓ} → (A → Bool) → List A → Option A
find f [] = none
find f (x ∷ xs) = if f x then some x else find f xs

-- The lock for which the version at `i` does not count; an index out of range panics in the source
-- and counts here.
unfoldable pub not_counted : List Node → ℕ → List Held → Option Held
unfolding bars
not_counted nodes i held = elim (get_elem? nodes i) [
  | none ↦ none
  | some n ↦ find (bars nodes n) held
]

-- `done[p]`, where an index out of range would panic.
abbrev pub flag : List Bool → ℕ → Bool
flag [] p = false
flag (b ∷ bs) zero = b
flag (b ∷ bs) (suc p) = flag bs p

abbrev pub all_done : List Bool → List ℕ → Bool
all_done done [] = true
all_done done (p ∷ ps) = flag done p && all_done done ps

-- The versions not done whose past is.
abbrev pub candidates : List Bool → ℕ → List Node → List (ℕ × VersionId)
candidates done i [] = []
candidates done i (n ∷ ns) =
    let rest = candidates done (suc i) ns in
    if not (flag done i) && all_done done n.past then (i, n.id) ∷ rest else rest

abbrev pub none_done : List Node → List Bool
none_done [] = []
none_done (n ∷ ns) = false ∷ none_done ns

module _ (id_cmp : VersionId → VersionId → Ordering) where
  -- `min_by`: the first of the least.
  abbrev pub min_by : ℕ × VersionId → List (ℕ × VersionId) → ℕ × VersionId
  min_by best [] = best
  min_by best (c ∷ cs) = elim (id_cmp c.1 best.1) [ Ordering.lt ↦ min_by c cs | _ ↦ min_by best cs ]

  -- The loop while `left` versions are not done; `none` is the panic of `expect`.
  pub order_loop : ℕ → List Node → List Bool → Option (List ℕ)
  order_loop zero nodes done = some []
  order_loop (suc left) nodes done = elim (candidates done 0 nodes) [
    | [] ↦ none
    | c ∷ cs ↦
        let next = (min_by c cs).0 in
        elim (order_loop left nodes (set done next true)) [
          | none ↦ none
          | some out ↦ some (next ∷ out)
        ]
  ]

  pub order : List Node → Option (List ℕ)
  unfolding order_loop
  order nodes = order_loop (length nodes) nodes (none_done nodes)
