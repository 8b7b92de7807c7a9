-- ===== src/Ledger/Examples.antt =====
-- Ledgers of a cell of two replicas.
use Prim.Native.String.{String}
use ndn_sim.Prelude.{
  suc, ◌≡◌, refl, ◌↔◌, ◌⊎◌, true, false, List, [], ◌∷◌, some, All, here, has, lookup, insert,
  nat_key, string_key, pair_key,
}
use ndn_sim.Ledger.{
  Ledger, new, record_published, record_stored, stored_count, reported_count, backlog, Violation,
  invariants, poisoned, unreported,
}
use ndn_sim.Ledger.Backlog.{record_stored-backlog}
use ndn_sim.Ledger.Poison.{IsAuthentic, IsReported, invariants_lem, Call, apply_all, stored_first}

abbrev replicas : List String
replicas = "alice" ∷ "bob" ∷ []

-- Alice published one block and both replicas lack it.
abbrev authored : Ledger
authored = record {
  published = (("alice", 1), 1 ∷ 2 ∷ []) ∷ [];
  stored = [];
  reported = [];
  acks = 0;
}

-- Bob stored other bytes under its name.
abbrev mispaired : Ledger
mispaired = record authored { stored = (("bob", ("alice", 1)), 9 ∷ []) ∷ [] }

authored_run : record_published "alice" 1 (1 ∷ 2 ∷ []) new ≡ authored
unfolding record_published new insert
authored_run = refl

mispaired_run : record_stored "bob" "alice" 1 (9 ∷ []) authored ≡ (true, mispaired)
unfolding record_stored has lookup insert
mispaired_run = refl

mispaired_report : invariants replicas mispaired ≡ record {
  poison_free = false;
  event_integrity = false;
  violations = Violation.wrong_bytes ("bob", ("alice", 1)) ∷ Violation.events_lost "bob" 1 0 ∷ [];
}
unfolding invariants poisoned unreported stored_count reported_count lookup
mispaired_report = refl

record_stored-backlog_example :
    let (newly, l) = record_stored "alice" "alice" 1 (1 ∷ 2 ∷ []) mispaired in
    ((newly ≡ true) × (backlog replicas mispaired ≡ suc (backlog replicas l)))
    ⊎ ((newly ≡ false) × (has ("alice", ("alice", 1)) mispaired.stored ≡ true) × (l ≡ mispaired))
unfolding has lookup
record_stored-backlog_example =
    record_stored-backlog replicas "alice" "alice" 1 (1 ∷ 2 ∷ []) mispaired (tt, tt) refl
      ((refl, tt), (tt, tt)) (here refl)

invariants_lem_example :
    let v = invariants replicas mispaired in
    ((v.poison_free ≡ true) ↔ All (IsAuthentic mispaired.published) mispaired.stored)
    × ((v.event_integrity ≡ true) ↔ All (IsReported mispaired) replicas)
    × ((v.violations ≡ []) ↔ ((v.poison_free ≡ true) × (v.event_integrity ≡ true)))
invariants_lem_example = invariants_lem replicas mispaired

abbrev later : List Call
later = Call.stored "bob" "alice" 1 (1 ∷ 2 ∷ []) ∷ Call.acked ∷ Call.reported "bob" ∷ []

stored_first_example :
    lookup ("bob", ("alice", 1)) (apply_all later mispaired).stored ≡ some (9 ∷ [])
unfolding lookup
stored_first_example = stored_first later mispaired ("bob", ("alice", 1)) (9 ∷ []) refl
