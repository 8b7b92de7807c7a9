-- ===== src/Catchup/Examples.antt =====
-- Runs of the consumer: by windows, past a deadline that loses an event, and on a mispaired reply.
use ndn_sim.Prelude.{
  arith, u64_max, ℕ, zero, suc, ◌+◌, ◌-◌, ◌≡◌, refl, List, [], ◌∷◌, map, Option, none, some, range,
  lookup, has, insert, nat_key, string_key, pair_key, u64,
}
use ndn_sim.Ledger.{
  Ledger, Bytes, Publication, record_stored, record_ack, record_reported, stored_count,
  reported_count,
}
use ndn_sim.Ledger.Pure.{IsPure}
use ndn_sim.Catchup.{
  FetchMode, StepBound, CatchupOpts, SyncUpdate, Outcome, wedge, ingest_waits, ingest_one,
  after_fetch, serial, ingest_chunk, windowed, Network, process_update, Arrival, report_all,
  after_step, step_events, ledgered_catchup,
}
use ndn_sim.Catchup.Tasks.{Ends, Returned}
use ndn_sim.Catchup.Windows.{process_update-windowed}
use ndn_sim.Catchup.Reports.{ledgered_catchup-Even}
use ndn_sim.Catchup.Authentic.{AnswersHonestly, SlotsHonest, IsHonest, ledgered_catchup-IsPure}

-- Alice authored three blocks; the fourth is a gap.
abbrev authored : List (Publication × Bytes)
authored = (("alice", 1), 1 ∷ []) ∷ (("alice", 2), 2 ∷ []) ∷ (("alice", 3), 3 ∷ []) ∷ []

abbrev cell : Ledger
cell = record { published = authored; stored = []; reported = []; acks = 0 }

abbrev delivers : SyncUpdate → ℕ → Option Bytes
delivers u seq = lookup (u.publisher, seq) authored

-- Replies by name; replies paired by arrival are one block late.
abbrev net : Network
net = record {
  fetch = delivers;
  fetch_arrival_paired = λ u seq. delivers u (seq - 1);
  fetch_window = λ u lo hi w. map (delivers u) (range lo (suc hi - lo));
}

abbrev update : SyncUpdate
update = record { publisher = "alice"; low_seq = 1; high_seq = 4 }

abbrev opts : CatchupOpts
opts = record {
  fetch = FetchMode.stock;
  step = StepBound.bounded_wait 1000;
  per_seq_delay = 15;
  per_stored_delay = 0;
  wedge_after = none;
  window = 2;
}

abbrev caught_up : Ledger
caught_up = record cell {
  stored =
      (("bob", ("alice", 1)), 1 ∷ [])
      ∷ (("bob", ("alice", 2)), 2 ∷ [])
      ∷ (("bob", ("alice", 3)), 3 ∷ [])
      ∷ [];
  reported = ("bob", 3) ∷ [];
  acks = 3;
}

catches_up :
    ledgered_catchup net opts "bob" (Arrival.arrived update 0 ∷ Arrival.silent ∷ []) cell
    ≡ Outcome.returns tt none caught_up
unfolding ledgered_catchup step_events after_step report_all process_update windowed ingest_chunk
    ingest_one ingest_waits wedge record_stored record_ack record_reported lookup has insert
catches_up = refl

-- The deadline of the whole step falls after the first block's store: it is stored and never
-- reported.
loses_an_event :
    ledgered_catchup net
      (record opts { step = StepBound.whole_step 10; window = 1 })
      "bob"
      (Arrival.arrived update 1 ∷ [])
      cell
    ≡ Outcome.returns tt none (record cell { stored = (("bob", ("alice", 1)), 1 ∷ []) ∷ [] })
unfolding ledgered_catchup step_events after_step report_all process_update serial after_fetch
    ingest_one ingest_waits wedge record_stored record_ack record_reported lookup has insert
loses_an_event = refl

-- The second block's reply is the first block.
mispairs :
    process_update net
      (record opts { fetch = FetchMode.arrival_paired })
      "bob"
      (record update { low_seq = 2; high_seq = 2 })
      none
      cell
    ≡ Outcome.returns
        (("alice", 2) ∷ [])
        none
        (record cell { stored = (("bob", ("alice", 2)), 1 ∷ []) ∷ []; acks = 1 })
unfolding process_update serial after_fetch ingest_one ingest_waits wedge record_stored record_ack
    record_reported lookup has insert
mispairs = refl

-- At the last sequence number of 64 bits the window's end overflows; the serial loop gets by.
overflows :
    process_update net opts "bob"
      (record update { low_seq = u64_max; high_seq = u64_max })
      none
      cell
    ≡ Outcome.panicked cell
unfolding process_update windowed
overflows = refl

no_overflow :
    process_update net
      (record opts { window = 1 })
      "bob"
      (record update { low_seq = u64_max; high_seq = u64_max })
      none
      cell
    ≡ Outcome.returns [] none cell
unfolding process_update serial after_fetch lookup
no_overflow = refl

process_update-windowed_example :
    process_update net opts "bob" update none cell
    ≡ serial opts "bob" update (net.fetch update) (range 1 (suc 4 - 1)) [] none cell
process_update-windowed_example =
    process_update-windowed net opts "bob" update cell refl (omega arith) (λ lo hi h. refl)

abbrev arrivals : List Arrival
arrivals =
    Arrival.arrived update 0 ∷ Arrival.silent ∷ Arrival.arrived update 0 ∷ Arrival.closed ∷ []

ledgered_catchup-Even_example :
    Returned
      (λ a l.
        u64 (reported_count "bob" l + stored_count "bob" cell)
        ≡ u64 (reported_count "bob" cell + stored_count "bob" l))
      (ledgered_catchup net opts "bob" arrivals cell)
ledgered_catchup-Even_example =
    ledgered_catchup-Even net opts "bob" arrivals cell (λ n. refl) refl
      (omega arith, (tt, (omega arith, (tt, tt))))

answers :
    (u : SyncUpdate) (seq : ℕ) (o : Option Bytes)
    → delivers u seq ≡ o
    → AnswersHonestly authored u.publisher seq o
answers u seq none e = tt
answers u seq (some b) e = e

slots :
    (u : SyncUpdate) (k lo : ℕ)
    → SlotsHonest authored u.publisher lo (map (delivers u) (range lo k))
slots u zero lo = tt
slots u (suc k) lo = (answers u lo (delivers u lo) refl, slots u k (suc lo))

honest : IsHonest authored net
honest = record {
  one = λ u seq. answers u seq (delivers u seq) refl;
  window = λ u lo hi w. slots u (suc hi - lo) lo;
}

ledgered_catchup-IsPure_example :
    Ends (IsPure authored) (ledgered_catchup net opts "bob" arrivals cell)
ledgered_catchup-IsPure_example =
    ledgered_catchup-IsPure authored net opts "bob" arrivals cell honest refl (refl, tt)
