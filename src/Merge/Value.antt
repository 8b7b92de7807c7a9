-- ===== src/Merge/Value.antt =====
-- `merged` of crates/ndn-data-conformance/src/element.rs: the value of the applied versions.
pub mod Antichain
pub mod Concurrent
use Prim.Native.Nat.{compare, Ordering}
use Prim.Native.String.{String, compare as compare_text}
use ndn_sim.Prelude.{
  ℕ, zero, suc, Bool, true, false, not, ◌&&◌, ◌||◌, List, [], ◌∷◌, ◌++◌, Option, none, some,
  if◌then◌else◌, ltb, ◌==◌, length, get_elem?, adjust, get, sort_by, lex, compare_lists,
}
use ndn_sim.Element.{
  Text, Digest, Place, Lock, ElementState, Edit, Timed, Slot, slot_cmp, lock_cmp, Written,
  Alternative, Variant, Head, ElementValue, VersionId, spliced, hex,
}
use ndn_sim.Merge.{
  Node, Held, Applied, contains, any, node_checkpoint, locks, lifted, not_counted, order, same_text,
}

-- What the versions at these indices wrote into one slot.
abbrev pub Entries : Type 0
Entries = List (ℕ × Written)

abbrev pub Slots : Type 0
Slots = List (Slot × Entries)

abbrev pub entries : Option Entries → Entries
entries none = []
entries (some es) = es

-- `retain`.
abbrev pub retain : (ℕ → Bool) → Entries → Entries
retain f [] = []
retain f (e ∷ es) = let rest = retain f es in if f e.0 then e ∷ rest else rest

-- What version `i`, made over `past`, writes replaces what it and its past wrote.
abbrev pub not_past : List ℕ → ℕ → Bool
not_past past at = not (contains at past)

abbrev pub kept_by : ℕ → List ℕ → ℕ → Bool
kept_by i past at = not (at == i) && not_past past at

unfoldable pub write : ℕ → List ℕ → Slot → Written → Slots → Slots
write i past slot value slots =
    adjust slot_cmp slot (λ es. retain (kept_by i past) (entries es) ++ (i, value) ∷ []) slots

unfoldable pub retain_all : List ℕ → Slots → Slots
retain_all past [] = []
retain_all past ((slot, es) ∷ slots) = (slot, retain (not_past past) es) ∷ retain_all past slots

abbrev pub settings_slots : List (String × Text) → List (Slot × Written)
settings_slots [] = []
settings_slots ((k, v) ∷ m) = (Slot.setting_slot k, Written.text v) ∷ settings_slots m

abbrev pub optional {ℓ κ} : {A : Type ℓ} {B : Type κ} → Option A → (A → B) → List B
optional none f = []
optional (some a) f = f a ∷ []

-- The slots that a checkpoint's state writes.
unfoldable pub state_slots : ElementState → List (Slot × Written)
state_slots s =
    (optional s.kind (λ k. (Slot.kind_slot, Written.text k))
      ++ optional s.place (λ p. (Slot.place_slot, Written.place p)))
    ++ ((if s.removed then (Slot.removed_slot, Written.removed) ∷ [] else [])
        ++ settings_slots s.settings)

unfoldable pub write_all : ℕ → List ℕ → List (Slot × Written) → Slots → Slots
unfolding write
write_all i past [] slots = slots
write_all i past ((slot, value) ∷ more) slots =
    write_all i past more (write i past slot value slots)

abbrev pub text_of : Option Written → Text
text_of (some (Written.text t)) = t
text_of _ = []

abbrev pub first_of {ℓ} : {A : Type ℓ} → List A → Option A
first_of [] = none
first_of (a ∷ as') = some a

module _ (key_cmp : String → String → Ordering) (nodes : List Node) where
  -- `self.nodes[i]`, where an index out of range would panic.
  abbrev pub writer_at : ℕ → String
  writer_at i = elim (get_elem? nodes i) [ none ↦ "" | some n ↦ n.id.writer ]

  abbrev pub digest_at : ℕ → Digest
  digest_at i = elim (get_elem? nodes i) [ none ↦ [] | some n ↦ n.digest ]

  abbrev pub entry_cmp : ℕ × Written → ℕ × Written → Ordering
  entry_cmp a b =
      lex (key_cmp (writer_at a.0) (writer_at b.0)) (compare_lists (digest_at a.0) (digest_at b.0))

  -- By writer, then version digest.
  unfoldable pub sorted : Entries → Entries
  sorted es = sort_by entry_cmp es

  abbrev pub written_of : Option (ℕ × Written) → Option Written
  written_of none = none
  written_of (some e) = some e.1

  -- The alternative that the state shows.
  unfoldable pub first : Entries → Option Written
  unfolding sorted
  first es = written_of (first_of (sorted es))

  abbrev pub first_in : Option Entries → Option Written
  first_in none = none
  first_in (some es) = first es

  unfoldable pub apply_edit : ℕ → List ℕ → Edit → Slots → Slots
  unfolding write first
  apply_edit i past (Edit.create kind) slots = write i past Slot.kind_slot (Written.text kind) slots
  apply_edit i past (Edit.sets s v) slots =
      write i past (Slot.setting_slot s) (Written.text v) slots
  apply_edit i past (Edit.change s splice) slots =
      let base = text_of (first_in (get slot_cmp (Slot.setting_slot s) slots)) in
      write i past (Slot.setting_slot s) (Written.text (spliced base splice)) slots
  apply_edit i past (Edit.places p) slots = write i past Slot.place_slot (Written.place p) slots
  apply_edit i past Edit.remove slots = write i past Slot.removed_slot Written.removed slots
  apply_edit i past (Edit.lock s) slots = slots
  apply_edit i past (Edit.unlock s) slots = slots
  apply_edit i past (Edit.checkpoint s) slots = slots

  unfoldable pub apply_edits : ℕ → List ℕ → List Timed → Slots → Slots
  unfolding apply_edit
  apply_edits i past [] slots = slots
  apply_edits i past (t ∷ ts) slots = apply_edits i past ts (apply_edit i past t.edit slots)

  unfoldable pub apply_version : ℕ → Node → Slots → Slots
  unfolding apply_edits write_all retain_all state_slots
  apply_version i n slots = elim (node_checkpoint n) [
    | some s ↦ write_all i n.past (state_slots s) (retain_all n.past slots)
    | none ↦ apply_edits i n.past n.op.edits slots
  ]

  -- One round of the loop over the order.
  unfoldable pub apply_counted : List Held → ℕ → Slots → Slots
  unfolding apply_version
  apply_counted held i slots = elim (not_counted nodes i held) [
    | some h ↦ slots
    | none ↦ elim (get_elem? nodes i) [ none ↦ slots | some n ↦ apply_version i n slots ]
  ]

  unfoldable pub replay : List Held → List ℕ → Slots → Slots
  unfolding apply_counted
  replay held [] slots = slots
  replay held (i ∷ is) slots = replay held is (apply_counted held i slots)

  abbrev pub show_state : Slot → Written → ElementState → ElementState
  show_state Slot.kind_slot (Written.text k) s = record s { kind = some k }
  show_state Slot.place_slot (Written.place p) s = record s { place = some p }
  show_state Slot.removed_slot w s = record s { removed = true }
  show_state (Slot.setting_slot t) (Written.text v) s = record s {
    settings = adjust compare_text t (λ old. v) s.settings;
  }
  show_state _ _ s = s

  abbrev pub alternatives : Entries → List Alternative
  alternatives [] = []
  alternatives (e ∷ es) =
      record { writer = writer_at e.0; version = hex (digest_at e.0); value = e.1 }
      ∷ alternatives es

  abbrev pub show_variant : Slot → Entries → List Variant
  show_variant slot es =
      if ltb 1 (length es)
      then record { slot = slot; alternatives = alternatives (sorted es) } ∷ []
      else []

  -- The loop over the slots.
  unfoldable pub show_slots : Slots → ElementValue → ElementValue
  unfolding first sorted
  show_slots [] value = value
  show_slots ((slot, es) ∷ slots) value = elim (first es) [
    | none ↦ show_slots slots value
    | some shown ↦ show_slots slots (record value {
      state = show_state slot shown value.state;
      variants = value.variants ++ show_variant slot es;
    })
  ]

abbrev pub same_lock : Lock → Lock → Bool
same_lock a b = same_text a.setting b.setting && same_text a.by b.by

-- `dedup`: of equal neighbours the first stays.
abbrev pub dedup_after : Lock → List Lock → List Lock
dedup_after l [] = []
dedup_after l (k ∷ ks) =
    let rest = dedup_after l ks in if same_lock l k then rest else k ∷ dedup_after k ks

abbrev pub dedup : List Lock → List Lock
dedup [] = []
dedup (l ∷ ls) = l ∷ dedup_after l ls

abbrev pub head_cmp : Head → Head → Ordering
head_cmp a b =
    lex (compare_text a.writer b.writer)
      (lex (compare a.seq b.seq) (compare_lists a.digest b.digest))

module _ (nodes : List Node) where
  -- The locks in force.
  abbrev pub in_force : List Held → List Lock
  in_force [] = []
  in_force (h ∷ hs) =
      let rest = in_force hs in
      if lifted nodes h then rest else record { setting = h.setting; by = h.by } ∷ rest

  -- The versions from index `i` on that no other is made over.
  unfoldable pub heads_from : ℕ → List Node → List Head
  heads_from i [] = []
  heads_from i (n ∷ ns) =
      let rest = heads_from (suc i) ns in
      if any (λ m. contains i m.past) nodes
      then rest
      else record { writer = n.id.writer; seq = n.id.seq; digest = hex n.digest } ∷ rest

abbrev pub empty_value : ElementValue
empty_value = record {
  state = record { kind = none; place = none; settings = []; removed = false; locks = [] };
  variants = [];
  heads = [];
}

-- `none` is the panic in `order`.
unfoldable pub merged :
    (String → String → Ordering)
    → (VersionId → VersionId → Ordering)
    → Applied
    → Option ElementValue
unfolding replay show_slots heads_from
merged key_cmp id_cmp a =
    let held = locks a in
    elim (order id_cmp a.nodes) [
      | none ↦ none
      | some out ↦
          let value = show_slots key_cmp a.nodes (replay key_cmp a.nodes held out []) empty_value in
          some (record value {
            state = record value.state { locks = dedup (sort_by lock_cmp (in_force a.nodes held)) };
            heads = sort_by head_cmp (heads_from a.nodes 0 a.nodes);
          })
    ]
