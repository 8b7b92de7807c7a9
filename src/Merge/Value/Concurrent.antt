-- ===== src/Merge/Value/Concurrent.antt =====
-- The alternatives of a slot come from versions none of which is in another's past.
use Prim.Native.Nat.{Ordering}
use Prim.Native.String.{String}
use ndn_sim.Prelude.{
  ℕ, zero, suc, ◌<◌, ◌≡◌, refl, sym, ap, ◌∙◌, subst, Bool, true, false, false≢true, List, [], ◌∷◌,
  ◌++◌, some, Bool-cases, Option-cases, inl, inr, ◌==◌, ==_iff, length, get_elem?, get_elem?-lt,
  set, length-set, All, All-mono, All-both, All-append, arith,
}
use ndn_sim.Element.{Edit, Timed, Slot, Written, VersionId}
use ndn_sim.Merge.{Node, Held, flag, all_done, none_done, node_checkpoint, not_counted, order}
use ndn_sim.Merge.Value.{
  Entries, Slots, entries, retain, not_past, kept_by, write, retain_all, write_all, state_slots,
  apply_edit, apply_edits, apply_version, apply_counted, replay,
}
use ndn_sim.Merge.Order.{IsAcyclic, IsOrdered, order-IsOrdered, length-none_done}
use ndn_sim.Merge.Value.Antichain.{
  flag-set_self, flag-set_mono, flag-set_back, all_done_mono, contains-flag, past_at, AreConcurrent,
  IsAntichain, IsGood, All-retain, retain-true, IsAntichain-retain, IsAntichain-append, All-adjust,
}

module _ (nodes : List Node) where
  -- The past of what is done is done.
  abbrev IsClosed : List Bool → Type 0
  IsClosed done = (j : ℕ) → flag done j ≡ true → all_done done (past_at nodes j) ≡ true

  module _ (done : List Bool) (closed : IsClosed done) (i : ℕ) (todo : flag done i ≡ false)
      (in_range : i < length done) where
    abbrev now : List Bool
    now = set done i true

    concurrent :
        (e : ℕ × Written)
        → (flag now e.0 ≡ true) × (kept_by i (past_at nodes i) e.0 ≡ true)
        → AreConcurrent nodes e.0 i
    concurrent e h =
        let apart : (e.0 == i) ≡ false = ground (arith, h.1) in
        let before = flag-set_back done i e.0 apart h.0 in
        (
          apart,
          ground (arith, h.1),
          contains-flag done i (past_at nodes e.0) (closed e.0 before) todo,
        )

    added :
        (es : Entries) (value : Written)
        → IsGood nodes now (Slot.kind_slot, es)
        → IsGood nodes now
            (Slot.kind_slot, retain (kept_by i (past_at nodes i)) es ++ (i, value) ∷ [])
    added es value h =
        let keep = kept_by i (past_at nodes i) in
        let flags = All-retain nodes (λ w. flag now w.0 ≡ true) keep es h.0 in
        (
          All-append (λ w. flag now w.0 ≡ true) (retain keep es) ((i, value) ∷ []) flags
              (flag-set_self done i in_range, tt),
          IsAntichain-append nodes (retain keep es) (i, value)
              (IsAntichain-retain nodes keep es h.1)
              (All-mono concurrent (retain keep es) (
                All-both (λ w. flag now w.0 ≡ true) (λ w. keep w.0 ≡ true) (retain keep es) flags
                  (retain-true nodes keep es))),
        )

    write-IsGood :
        (slot : Slot) (value : Written) (slots : Slots)
        → All (IsGood nodes now) slots
        → All (IsGood nodes now) (write i (past_at nodes i) slot value slots)
    unfolding write
    write-IsGood slot value slots h =
        All-adjust nodes (λ es. IsGood nodes now (Slot.kind_slot, es)) slot
          (λ es. retain (kept_by i (past_at nodes i)) (entries es) ++ (i, value) ∷ []) slots
          (added [] value (tt, tt)) (λ es k. added es value k) h

    write_all-IsGood :
        (more : List (Slot × Written)) (slots : Slots)
        → All (IsGood nodes now) slots
        → All (IsGood nodes now) (write_all i (past_at nodes i) more slots)
    unfolding write_all
    write_all-IsGood [] slots h = h
    write_all-IsGood ((slot, value) ∷ more) slots h =
        write_all-IsGood more (write i (past_at nodes i) slot value slots)
          (write-IsGood slot value slots h)

    retain_all-IsGood :
        (past : List ℕ) (slots : Slots)
        → All (IsGood nodes now) slots
        → All (IsGood nodes now) (retain_all past slots)
    unfolding retain_all
    retain_all-IsGood past [] h = tt
    retain_all-IsGood past ((slot, es) ∷ slots) h = (
      (
        All-retain nodes (λ w. flag now w.0 ≡ true) (not_past past) es h.0.0,
        IsAntichain-retain nodes (not_past past) es h.0.1,
      ),
      retain_all-IsGood past slots h.1,
    )

    module _ (key_cmp : String → String → Ordering) where
      apply_edit-IsGood :
          (edit : Edit) (slots : Slots)
          → All (IsGood nodes now) slots
          → All (IsGood nodes now) (apply_edit key_cmp nodes i (past_at nodes i) edit slots)
      unfolding apply_edit
      apply_edit-IsGood (Edit.create kind) slots h = write-IsGood _ _ slots h
      apply_edit-IsGood (Edit.sets s v) slots h = write-IsGood _ _ slots h
      apply_edit-IsGood (Edit.change s splice) slots h = write-IsGood _ _ slots h
      apply_edit-IsGood (Edit.places p) slots h = write-IsGood _ _ slots h
      apply_edit-IsGood Edit.remove slots h = write-IsGood _ _ slots h
      apply_edit-IsGood (Edit.lock s) slots h = h
      apply_edit-IsGood (Edit.unlock s) slots h = h
      apply_edit-IsGood (Edit.checkpoint s) slots h = h

      apply_edits-IsGood :
          (ts : List Timed) (slots : Slots)
          → All (IsGood nodes now) slots
          → All (IsGood nodes now) (apply_edits key_cmp nodes i (past_at nodes i) ts slots)
      unfolding apply_edits
      apply_edits-IsGood [] slots h = h
      apply_edits-IsGood (t ∷ ts) slots h =
          apply_edits-IsGood ts (apply_edit key_cmp nodes i (past_at nodes i) t.edit slots)
            (apply_edit-IsGood t.edit slots h)

      apply_version-IsGood :
          (n : Node) (slots : Slots)
          → n.past ≡ past_at nodes i
          → All (IsGood nodes now) slots
          → All (IsGood nodes now) (apply_version key_cmp nodes i n slots)
      unfolding apply_version
      apply_version-IsGood n slots e h = elim (Option-cases (node_checkpoint n)) [
        | inl c ↦ rw (apply_version, c, e) (apply_edits-IsGood n.op.edits slots h)
        | inr (s, c) ↦
            rw (apply_version, c, e)
              (write_all-IsGood (state_slots s) (retain_all (past_at nodes i) slots)
                (retain_all-IsGood (past_at nodes i) slots h))
      ]

      apply_counted-IsGood :
          (held : List Held) (n : Node) (slots : Slots)
          → get_elem? nodes i ≡ some n
          → All (IsGood nodes now) slots
          → All (IsGood nodes now) (apply_counted key_cmp nodes held i slots)
      unfolding apply_counted
      apply_counted-IsGood held n slots e h = elim (Option-cases (not_counted nodes i held)) [
        | inr (l, c) ↦ rw (apply_counted, c) h
        | inl c ↦ rw (apply_counted, c, e) (apply_version-IsGood n slots (sym (past_of n e)) h)
      ]
        where
          past_of : (n : Node) → get_elem? nodes i ≡ some n → past_at nodes i ≡ n.past
          past_of n e = rw (past_at, e) refl

  IsClosed-set :
      (done : List Bool) (i : ℕ) (n : Node)
      → IsClosed done
      → get_elem? nodes i ≡ some n
      → all_done done n.past ≡ true
      → IsClosed (set done i true)
  IsClosed-set done i n closed e past j f = elim (Bool-cases (j == i)) [
    | inl same ↦
        let at_i : j ≡ i = (==_iff j i).0 same in
        let past_i : past_at nodes i ≡ n.past = rw (past_at, e) refl in
        all_done_mono done i (past_at nodes j)
          (ap (λ m. all_done done (past_at nodes m)) at_i ∙ ap (all_done done) past_i ∙ past)
    | inr other ↦ all_done_mono done i (past_at nodes j) (closed j (flag-set_back done i j other f))
  ]

  IsGood-mono :
      (done : List Bool) (i : ℕ) (slots : Slots)
      → All (IsGood nodes done) slots
      → All (IsGood nodes (set done i true)) slots
  IsGood-mono done i slots h =
      All-mono (λ e k. (All-mono (λ w f. flag-set_mono done i w.0 f) e.1 k.0, k.1)) slots h

  replay-IsAntichain :
      (key_cmp : String → String → Ordering) (held : List Held) (out : List ℕ) (done : List Bool)
      (slots : Slots)
      → length done ≡ length nodes
      → IsClosed done
      → IsOrdered nodes done out
      → All (IsGood nodes done) slots
      → All (λ e. IsAntichain nodes e.1) (replay key_cmp nodes held out slots)
  unfolding replay
  replay-IsAntichain key_cmp held [] done slots size closed ordered h =
      All-mono (λ e k. k.1) slots h
  replay-IsAntichain key_cmp held (i ∷ is) done slots size closed (of_i, todo, rest) h =
      let (n, e, past) = of_i in
      replay-IsAntichain key_cmp held is (set done i true)
        (apply_counted key_cmp nodes held i slots) (length-set done i true ∙ size)
        (IsClosed-set done i n closed e past) rest
        (apply_counted-IsGood done closed i todo (rw size (get_elem?-lt nodes i e)) key_cmp held n
          slots e (IsGood-mono done i slots h))

flag-none_done : (nodes : List Node) (j : ℕ) → flag (none_done nodes) j ≡ false
flag-none_done [] j = refl
flag-none_done (n ∷ ns) zero = refl
flag-none_done (n ∷ ns) (suc j) = flag-none_done ns j

-- In the slots of the merged value, the alternatives of one slot come from versions of which none is
-- in another's past, whatever the locks and the edits, checkpoints and splices among them.
pub replay-AreConcurrent :
    (key_cmp : String → String → Ordering) (id_cmp : VersionId → VersionId → Ordering)
    (nodes : List Node) (held : List Held) (out : List ℕ)
    → IsAcyclic nodes
    → order id_cmp nodes ≡ some out
    → All (λ e. IsAntichain nodes e.1) (replay key_cmp nodes held out [])
replay-AreConcurrent key_cmp id_cmp nodes held out acyclic e =
    let (out', e', size, ordered) = order-IsOrdered id_cmp nodes acyclic in
    let both : some out' ≡ some out = sym e' ∙ e in
    let same : out' ≡ out = cc in
    replay-IsAntichain nodes key_cmp held out (none_done nodes) [] (length-none_done id_cmp nodes)
      (λ j f. absurd (false≢true (sym (flag-none_done nodes j) ∙ f)))
      (subst (IsOrdered nodes (none_done nodes)) same ordered) tt
