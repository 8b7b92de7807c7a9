-- ===== src/Catchup.antt =====
-- The instrumented consumer of crates/ndn-sim/src/liveness.rs: one update fetched, stored and acked
-- block by block, serially or by windows, and the loop that reports what each step stored.
--
-- The network is code outside this file: what it delivers of an update is a parameter. A deadline
-- may cancel a step at any of its awaits; `patience` is the number of awaits that complete before it,
-- `none` where there is no deadline. Only the consumer's own calls on the ledger are modelled, not
-- those of other tasks between two of its awaits. A sum of sequence numbers that 64 bits do not hold
-- is a panic, as in a build with overflow checks. The loop over the windows takes fuel, one unit a
-- window, and gets two more than the last block's number.
pub mod Tasks
pub mod Uncut
pub mod Windows
pub mod Reports
pub mod Authentic
mod Examples
use Prim.Native.String.{String}
use ndn_sim.Prelude.{
  ℕ, zero, suc, ◌+◌, ◌-◌, Bool, true, false, ◌&&◌, List, [], ◌∷◌, ◌++◌, Option, none, some,
  if◌then◌else◌, ltb, leb, min, range, u64_max,
}
use ndn_sim.Ledger.{
  Ledger, Bytes, Publication, record_stored, record_ack, record_reported, stored_count,
}

pub data FetchMode : Type 0 where
  stock arrival_paired : FetchMode

pub data StepBound : Type 0 where
  no_bound : StepBound
  bounded_wait whole_step : ℕ → StepBound

pub record CatchupOpts : Type 0 where
  pub fetch : FetchMode
  pub step : StepBound
  pub per_seq_delay : ℕ
  pub per_stored_delay : ℕ
  pub wedge_after : Option ℕ
  pub window : ℕ

pub default_opts : CatchupOpts
default_opts = record {
  fetch = FetchMode.stock;
  step = StepBound.no_bound;
  per_seq_delay = 0;
  per_stored_delay = 0;
  wedge_after = none;
  window = 1;
}

-- The fields of `ndn_sync::SyncUpdate` that the consumer reads; its name is the publisher's.
pub record SyncUpdate : Type 0 where
  pub publisher : String
  pub low_seq : ℕ
  pub high_seq : ℕ

-- How a piece of the consumer ends: with a result and what is left of the patience, cancelled by
-- the deadline, parked for ever, in a panic, or out of the model's fuel.
pub data Outcome (A : Type 0) : Type 0 where
  returns : A → Option ℕ → Ledger → Outcome A
  cut parked panicked fuel_out : Ledger → Outcome A

infixl 5 ◌>>>◌
abbrev pub ◌>>>◌ : {A B : Type 0} → Outcome A → (A → Option ℕ → Ledger → Outcome B) → Outcome B
Outcome.returns a p l >>> f = f a p l
Outcome.cut l >>> f = Outcome.cut l
Outcome.parked l >>> f = Outcome.parked l
Outcome.fuel_out l >>> f = Outcome.fuel_out l
Outcome.panicked l >>> f = Outcome.panicked l

abbrev pub await : Bool → Option ℕ → Ledger → Outcome Unit
await false p l = Outcome.returns tt p l
await true none l = Outcome.returns tt none l
await true (some zero) l = Outcome.cut l
await true (some (suc n)) l = Outcome.returns tt (some n) l

-- `pending().await` past the cap: for ever, or until the deadline.
abbrev pub forever : Option ℕ → Ledger → Outcome Unit
forever none l = Outcome.parked l
forever (some n) l = Outcome.cut l

abbrev pub is_stock : FetchMode → Bool
is_stock FetchMode.stock = true
is_stock FetchMode.arrival_paired = false

abbrev pub take : ℕ → List (Option Bytes) → List (Option Bytes)
take zero xs = []
take (suc n) [] = []
take (suc n) (x ∷ xs) = x ∷ take n xs

module _ (opts : CatchupOpts) (replica : String) (update : SyncUpdate) where
  pub wedge : Option ℕ → Ledger → Outcome Unit
  wedge p l = elim opts.wedge_after [
    | none ↦ Outcome.returns tt p l
    | some cap ↦ if leb cap (stored_count replica l) then forever p l else Outcome.returns tt p l
  ]

  -- The awaits of `ingest_one` after the store: the costs of a new block, the wedge, the ack.
  pub ingest_waits : Bool → Option ℕ → Ledger → Outcome Unit
  unfolding wedge
  ingest_waits newly p l =
      await (newly && ltb 0 opts.per_seq_delay) p l
      >>> (λ _ p2 l2. await (newly && ltb 0 opts.per_stored_delay) p2 l2)
      >>> (λ _ p3 l3. wedge p3 l3)
      >>> (λ _ p4 l4. await true p4 l4)

  pub ingest_one : ℕ → Bytes → List Publication → Option ℕ → Ledger → Outcome (List Publication)
  unfolding ingest_waits
  ingest_one seq bytes events p l =
      let (newly, l1) = record_stored replica update.publisher seq bytes l in
      ingest_waits newly p l1 >>> (λ _ p2 l2.
        Outcome.returns (if newly then events ++ (update.publisher, seq) ∷ [] else events) p2
          (record_ack l2))

  -- The serial loop's body after its fetch, with the loop over the rest as `rest`.
  pub after_fetch :
      Option Bytes
      → ℕ
      → List Publication
      → (List Publication → Option ℕ → Ledger → Outcome (List Publication))
      → Option ℕ
      → Ledger
      → Outcome (List Publication)
  after_fetch none seq events rest p l =
      if is_stock opts.fetch then Outcome.returns events p l else rest events p l
  after_fetch (some bytes) seq events rest p l = ingest_one seq bytes events p l >>> rest

  -- `fetched` is what `fetch` or `fetch_arrival_paired` answers.
  pub serial :
      (ℕ → Option Bytes)
      → List ℕ
      → List Publication
      → Option ℕ
      → Ledger
      → Outcome (List Publication)
  unfolding after_fetch
  serial fetched [] events p l = Outcome.returns events p l
  serial fetched (seq ∷ seqs) events p l = await true p l >>> (λ _ p2 l2.
      after_fetch (fetched seq) seq events (λ es p3 l3. serial fetched seqs es p3 l3) p2 l2)

  -- One window's slots from `seq` on: whether none was missing, and the events.
  pub ingest_chunk :
      List (Option Bytes)
      → ℕ
      → List Publication
      → Option ℕ
      → Ledger
      → Outcome (Bool × List Publication)
  ingest_chunk [] seq events p l = Outcome.returns (true, events) p l
  ingest_chunk (none ∷ slots) seq events p l = Outcome.returns (false, events) p l
  ingest_chunk (some bytes ∷ slots) seq events p l =
      ingest_one seq bytes events p l
      >>> (λ events' p2 l2. ingest_chunk slots (suc seq) events' p2 l2)

  pub windowed :
      (ℕ → ℕ → ℕ → List (Option Bytes))
      → ℕ
      → ℕ
      → List Publication
      → Option ℕ
      → Ledger
      → Outcome (List Publication)
  windowed fetch_window zero next events p l = Outcome.fuel_out l
  windowed fetch_window (suc fuel) next events p l =
      let hi = min (next + opts.window - 1) update.high_seq in
      if leb next update.high_seq
      then (if leb (next + opts.window) u64_max
          then (await true p l
              >>> (λ _ p2 l2.
                  ingest_chunk (take (hi - next + 1) (fetch_window next hi opts.window)) next events
                    p2 l2)
              >>> (λ r p3 l3.
                  if r.0
                  then (if leb (hi + 1) u64_max
                      then windowed fetch_window fuel (hi + 1) r.1 p3 l3
                      else Outcome.panicked l3)
                  else Outcome.returns r.1 p3 l3))
          else Outcome.panicked l)
      else Outcome.returns events p l

-- What the network delivers of an update: `fetch` and `fetch_arrival_paired` of one block, and
-- `fetch_window` of a range.
pub record Network : Type 0 where
  pub fetch : SyncUpdate → ℕ → Option Bytes
  pub fetch_arrival_paired : SyncUpdate → ℕ → Option Bytes
  pub fetch_window : SyncUpdate → ℕ → ℕ → ℕ → List (Option Bytes)

-- What a step waits for: an update, with the awaits that complete before the deadline of a whole
-- step; nothing before the deadline; the end of the channel.
pub data Arrival : Type 0 where
  arrived : SyncUpdate → ℕ → Arrival
  silent closed : Arrival

-- A cancelled step has no events.
abbrev pub or_cut : Outcome (List Publication) → Outcome (Option (List Publication))
or_cut (Outcome.returns events p l) = Outcome.returns (some events) p l
or_cut (Outcome.cut l) = Outcome.returns (some []) none l
or_cut (Outcome.parked l) = Outcome.parked l
or_cut (Outcome.fuel_out l) = Outcome.fuel_out l
or_cut (Outcome.panicked l) = Outcome.panicked l

abbrev pub patience : StepBound → ℕ → Option ℕ
patience StepBound.no_bound n = none
patience (StepBound.bounded_wait d) n = none
patience (StepBound.whole_step d) n = some n

pub report_all : String → List Publication → Ledger → Ledger
report_all replica [] l = l
report_all replica (e ∷ es) l = report_all replica es (record_reported replica l)

-- The end of the loop's body, with the loop as `rest`: the step's events are reported, or the
-- channel is closed.
pub after_step :
    String → Option (List Publication) → (Ledger → Outcome Unit) → Ledger → Outcome Unit
unfolding report_all
after_step replica none rest l = Outcome.returns tt none l
after_step replica (some events) rest l = rest (report_all replica events l)

module _ (net : Network) (opts : CatchupOpts) (replica : String) where
  pub process_update : SyncUpdate → Option ℕ → Ledger → Outcome (List Publication)
  unfolding serial windowed
  process_update update p l =
      if ltb 1 opts.window && is_stock opts.fetch
      then windowed opts replica update (net.fetch_window update) (update.high_seq + 2)
          update.low_seq [] p l
      else serial opts replica update
          (if is_stock opts.fetch then net.fetch update else net.fetch_arrival_paired update)
          (range update.low_seq (suc update.high_seq - update.low_seq)) [] p l

  pub step_events : Arrival → Ledger → Outcome (Option (List Publication))
  unfolding process_update
  step_events (Arrival.arrived update n) l = or_cut (process_update update (patience opts.step n) l)
  step_events Arrival.silent l = Outcome.returns (some []) none l
  step_events Arrival.closed l = Outcome.returns none none l

  -- The consumer over all that arrives; at the end of the list it waits for more.
  pub ledgered_catchup : List Arrival → Ledger → Outcome Unit
  unfolding step_events after_step
  ledgered_catchup [] l = Outcome.returns tt none l
  ledgered_catchup (a ∷ as') l =
      step_events a l >>> (λ r p l2. after_step replica r (λ l3. ledgered_catchup as' l3) l2)
