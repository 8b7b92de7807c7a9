-- ===== src/Merge/Examples.antt =====
-- One element and three versions, as in the source's tests: alice creates it, then alice and bob set
-- its title without knowing of each other.
use Prim.Native.Nat.{compare, Ordering}
use Prim.Native.String.{String, compare as compare_text}
use ndn_sim.Prelude.{
  ℕ, ◌≡◌, refl, ◌↔◌, Bool, true, false, List, [], ◌∷◌, Option, none, some, All, Returns, length,
  get_elem?, arith, adjust, get, sort_by, sort_into, lex, set_insert, set_remove,
}
use ndn_sim.Element.{Edit, Operation, VersionId, hex, spliced}
use ndn_sim.Merge.{
  Node, Applied, start, any, locks, locks_from, locks_of, lifts, lifted, bars, not_counted,
  none_done, order, order_loop,
}
use ndn_sim.Merge.Order.{IsAcyclic, IsOrdered, order-IsOrdered}
use ndn_sim.Merge.Value.{
  merged, replay, apply_counted, apply_version, apply_edits, apply_edit, write, write_all,
  retain_all, state_slots, sorted, first, show_slots, heads_from,
}
use ndn_sim.Merge.Value.Antichain.{IsAntichain}
use ndn_sim.Merge.Value.Concurrent.{replay-AreConcurrent}
use ndn_sim.Merge.Rule.{
  Op, OpKind, Result, check, position, place, answer, apply, kind_of, is_checkpoint, same_id,
}
use ndn_sim.Merge.Rule.Refusals.{IsAllowed, check-IsAllowed}
use ndn_sim.Merge.Rule.Counts.{apply_all, CountsAt, apply_all-CountsAt, merged-apply_all}

abbrev id_cmp : VersionId → VersionId → Ordering
id_cmp a b = lex (compare_text a.writer b.writer) (compare a.seq b.seq)

abbrev edits : Edit → Operation
edits e = record { writer = "w"; basis = []; edits = record { after_ms = 10; edit = e } ∷ [] }

-- An operation's octets are its number in this table.
abbrev table : List Operation
table =
    edits (Edit.create (99 ∷ []))
    ∷ edits (Edit.sets "title" (97 ∷ []))
    ∷ edits (Edit.sets "title" (98 ∷ []))
    ∷ []

abbrev decode : List ℕ → Option Operation
decode [] = none
decode (k ∷ ks) = get_elem? table k

abbrev parse : String → Option String
parse name = some name

abbrev any_prefix : String → String → Bool
any_prefix key claimed = true

abbrev id : String → ℕ → VersionId
id writer seq = record { writer = writer; seq = seq }

abbrev version : VersionId → ℕ → List VersionId → Op
version v k past = record {
  id = v;
  digest = k ∷ [];
  past_contains = λ p. any (same_id p) past;
  past_by_digest = λ d. none;
  bytes = k ∷ [];
}

abbrev created : Op
created = version (id "alice" 1) 0 []

abbrev by_alice : Op
by_alice = version (id "alice" 2) 1 (id "alice" 1 ∷ [])

abbrev by_bob : Op
by_bob = version (id "bob" 1) 2 (id "alice" 1 ∷ [])

abbrev run : List Op → Applied
run ops = apply_all decode parse any_prefix id_cmp ops (start false)

-- The title has two alternatives, alice's is shown, and two versions are heads, in either order of
-- arrival.
arrival_order :
    merged compare_text id_cmp (run (created ∷ by_alice ∷ by_bob ∷ []))
    ≡ merged compare_text id_cmp (run (created ∷ by_bob ∷ by_alice ∷ []))
unfolding start apply place position answer not_counted locks locks_from locks_of bars lifted lifts
    merged order order_loop replay apply_counted apply_version apply_edits apply_edit write
    write_all retain_all state_slots sorted first show_slots heads_from adjust get sort_by sort_into
    set_insert set_remove hex spliced
arrival_order = refl

abbrev node : VersionId → ℕ → Operation → List ℕ → Node
node v k op past = record { id = v; digest = k ∷ []; op = op; past = past }

abbrev nodes : List Node
nodes =
    node (id "alice" 1) 0 (edits (Edit.create (99 ∷ []))) []
    ∷ node (id "bob" 1) 2 (edits (Edit.sets "title" (98 ∷ []))) (0 ∷ [])
    ∷ node (id "alice" 2) 1 (edits (Edit.sets "title" (97 ∷ []))) (0 ∷ [])
    ∷ []

nodes-IsAcyclic : IsAcyclic nodes
nodes-IsAcyclic = (tt, ((omega arith, tt), ((omega arith, tt), tt)))

order-IsOrdered_example :
    (out : List ℕ) × (order id_cmp nodes ≡ some out)
    × (length out ≡ length nodes)
    × IsOrdered nodes (none_done nodes) out
order-IsOrdered_example = order-IsOrdered id_cmp nodes nodes-IsAcyclic

ordered : order id_cmp nodes ≡ some (0 ∷ 2 ∷ 1 ∷ [])
unfolding order order_loop
ordered = refl

replay-AreConcurrent_example :
    All (λ e. IsAntichain nodes e.1) (replay compare_text nodes [] (0 ∷ 2 ∷ 1 ∷ []) [])
replay-AreConcurrent_example =
    replay-AreConcurrent compare_text id_cmp nodes [] (0 ∷ 2 ∷ 1 ∷ []) nodes-IsAcyclic ordered

check-IsAllowed_example :
    (check decode parse any_prefix id_cmp (start false) by_bob ≡ Result.ok OpKind.edit_kind) ↔ (
      (d : Operation) × (decode by_bob.bytes ≡ some d)
      × IsAllowed decode parse any_prefix id_cmp by_bob d
      × (OpKind.edit_kind ≡ kind_of (any is_checkpoint d.edits)))
unfolding start
check-IsAllowed_example =
    check-IsAllowed decode parse any_prefix id_cmp (start false) by_bob OpKind.edit_kind refl

bob_counts : CountsAt decode parse any_prefix id_cmp (run (created ∷ by_bob ∷ [])) 1
unfolding start apply place position answer not_counted locks locks_from locks_of bars lifted lifts
bob_counts = (omega arith, refl)

apply_all-CountsAt_example :
    CountsAt decode parse any_prefix id_cmp
      (apply_all decode parse any_prefix id_cmp (by_alice ∷ []) (run (created ∷ by_bob ∷ [])))
      1
apply_all-CountsAt_example =
    apply_all-CountsAt decode parse any_prefix id_cmp false (created ∷ by_bob ∷ []) (by_alice ∷ [])
      1 bob_counts

merged-apply_all_example :
    Returns (λ v. Unit) (merged compare_text id_cmp (run (created ∷ by_alice ∷ by_bob ∷ [])))
merged-apply_all_example =
    merged-apply_all decode parse any_prefix id_cmp compare_text false
      (created ∷ by_alice ∷ by_bob ∷ [])
