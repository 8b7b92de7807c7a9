-- ===== src/Catchup/Authentic.antt =====
-- What an honest network delivers is stored under its own name, however a step ends.
use Prim.Native.String.{String}
use ndn_sim.Prelude.{
  ℕ, zero, suc, ◌+◌, ◌-◌, ◌≡◌, Bool, true, false, List, [], ◌∷◌, Option, none, some, Option-cases,
  Bool-cases, inl, inr, ltb, leb, min, range, u64_max,
}
use ndn_sim.Ledger.{Ledger, Bytes, Publication, record_stored, record_reported, stored_count}
use ndn_sim.Ledger.Poison.{IsAuthentic}
use ndn_sim.Ledger.Pure.{IsPure, IsPure-record_stored, IsPure-record_ack, IsPure-record_reported}
use ndn_sim.Catchup.{
  CatchupOpts, SyncUpdate, Outcome, ◌>>>◌, await, forever, wedge, ingest_waits, ingest_one,
  after_fetch, serial, ingest_chunk, take, windowed, is_stock, Network, process_update, Arrival,
  or_cut, patience, report_all, after_step, step_events, ledgered_catchup,
}
use ndn_sim.Catchup.Tasks.{Ends, Ends->>>}

-- The bytes under a publication are the authored ones.
abbrev pub IsAuthored : List (Publication × Bytes) → String → ℕ → Bytes → Type 0
IsAuthored authored publisher seq b = IsAuthentic authored (("", (publisher, seq)), b)

abbrev pub AnswersHonestly : List (Publication × Bytes) → String → ℕ → Option Bytes → Type 0
AnswersHonestly authored publisher seq none = Unit
AnswersHonestly authored publisher seq (some b) = IsAuthored authored publisher seq b

abbrev pub SlotsHonest : List (Publication × Bytes) → String → ℕ → List (Option Bytes) → Type 0
SlotsHonest authored publisher seq [] = Unit
SlotsHonest authored publisher seq (o ∷ slots) =
    AnswersHonestly authored publisher seq o × SlotsHonest authored publisher (suc seq) slots

-- Whatever `fetch` and `fetch_window` deliver under a name was authored under that name.
pub record IsHonest (authored : List (Publication × Bytes)) (net : Network) : Type 0 where
  pub one : (u : SyncUpdate) (seq : ℕ) → AnswersHonestly authored u.publisher seq (net.fetch u seq)
  pub window :
      (u : SyncUpdate) (lo hi w : ℕ)
      → SlotsHonest authored u.publisher lo (net.fetch_window u lo hi w)

module _ (authored : List (Publication × Bytes)) where
  await-Ends :
      (b : Bool) (p : Option ℕ) (l : Ledger)
      → IsPure authored l
      → Ends (IsPure authored) (await b p l)
  await-Ends false p l h = h
  await-Ends true none l h = h
  await-Ends true (some zero) l h = h
  await-Ends true (some (suc n)) l h = h

  forever-Ends :
      (p : Option ℕ) (l : Ledger) → IsPure authored l → Ends (IsPure authored) (forever p l)
  forever-Ends none l h = h
  forever-Ends (some n) l h = h

  module _ (opts : CatchupOpts) (replica : String) (update : SyncUpdate) where
    wedge-Ends :
        (p : Option ℕ) (l : Ledger)
        → IsPure authored l
        → Ends (IsPure authored) (wedge opts replica update p l)
    unfolding wedge
    wedge-Ends p l k = elim (Option-cases opts.wedge_after) [
      | inl e ↦ rw (wedge, e) k
      | inr (cap, e) ↦ elim (Bool-cases (leb cap (stored_count replica l))) [
        | inl h ↦ rw (wedge, e, h) (forever-Ends p l k)
        | inr h ↦ rw (wedge, e, h) k
      ]
    ]

    waits-Ends :
        (newly : Bool) (p : Option ℕ) (l : Ledger)
        → IsPure authored l
        → Ends (IsPure authored) (ingest_waits opts replica update newly p l)
    unfolding ingest_waits
    waits-Ends newly p l h = search (Ends->>>, await-Ends, wedge-Ends)

    ingest_one-Ends :
        (seq : ℕ) (b : Bytes) (events : List Publication) (p : Option ℕ) (l : Ledger)
        → IsAuthored authored update.publisher seq b
        → IsPure authored l
        → Ends (IsPure authored) (ingest_one opts replica update seq b events p l)
    unfolding ingest_one
    ingest_one-Ends seq b events p l a h =
        let (newly, l1) = record_stored replica update.publisher seq b l in
        Ends->>> (IsPure authored) (ingest_waits opts replica update newly p l1) _
          (waits-Ends newly p l1
            (IsPure-record_stored authored replica update.publisher seq b l a h))
          (λ x p2 l2 k. IsPure-record_ack authored l2 k)

    after_fetch-Ends :
        (o : Option Bytes) (seq : ℕ) (events : List Publication)
        (rest : List Publication → Option ℕ → Ledger → Outcome (List Publication)) (p : Option ℕ)
        (l : Ledger)
        → AnswersHonestly authored update.publisher seq o
        → IsPure authored l
        → ((es : List Publication) (p' : Option ℕ) (l' : Ledger)
            → IsPure authored l'
            → Ends (IsPure authored) (rest es p' l'))
        → Ends (IsPure authored) (after_fetch opts replica update o seq events rest p l)
    unfolding after_fetch
    after_fetch-Ends none seq events rest p l a h k = elim (Bool-cases (is_stock opts.fetch)) [
      | inl e ↦ rw (after_fetch, e) h
      | inr e ↦ rw (after_fetch, e) (k events p l h)
    ]
    after_fetch-Ends (some b) seq events rest p l a h k =
        Ends->>> (IsPure authored) (ingest_one opts replica update seq b events p l) rest
          (ingest_one-Ends seq b events p l a h) k

    serial-Ends :
        (fetched : ℕ → Option Bytes) (seqs : List ℕ) (events : List Publication) (p : Option ℕ)
        (l : Ledger)
        → ((seq : ℕ) → AnswersHonestly authored update.publisher seq (fetched seq))
        → IsPure authored l
        → Ends (IsPure authored) (serial opts replica update fetched seqs events p l)
    unfolding serial
    serial-Ends fetched [] events p l a h = h
    serial-Ends fetched (seq ∷ seqs) events p l a h =
        Ends->>> (IsPure authored) (await true p l) _ (await-Ends true p l h) (λ x p2 l2 k.
          after_fetch-Ends (fetched seq) seq events _ p2 l2 (a seq) k
            (λ es p3 l3 k3. serial-Ends fetched seqs es p3 l3 a k3))

    chunk-Ends :
        (slots : List (Option Bytes)) (seq : ℕ) (events : List Publication) (p : Option ℕ)
        (l : Ledger)
        → SlotsHonest authored update.publisher seq slots
        → IsPure authored l
        → Ends (IsPure authored) (ingest_chunk opts replica update slots seq events p l)
    unfolding ingest_chunk
    chunk-Ends [] seq events p l a h = h
    chunk-Ends (none ∷ slots) seq events p l a h = h
    chunk-Ends (some b ∷ slots) seq events p l a h =
        Ends->>> (IsPure authored) (ingest_one opts replica update seq b events p l) _
          (ingest_one-Ends seq b events p l a.0 h)
          (λ es p2 l2 k. chunk-Ends slots (suc seq) es p2 l2 a.1 k)

    SlotsHonest-take :
        (n seq : ℕ) (slots : List (Option Bytes))
        → SlotsHonest authored update.publisher seq slots
        → SlotsHonest authored update.publisher seq (take n slots)
    SlotsHonest-take zero seq slots h = tt
    SlotsHonest-take (suc n) seq [] h = tt
    SlotsHonest-take (suc n) seq (o ∷ slots) h = (h.0, SlotsHonest-take n (suc seq) slots h.1)

    windowed-Ends :
        (fetch_window : ℕ → ℕ → ℕ → List (Option Bytes)) (fuel next : ℕ) (events : List Publication)
        (p : Option ℕ) (l : Ledger)
        → ((lo hi w : ℕ) → SlotsHonest authored update.publisher lo (fetch_window lo hi w))
        → IsPure authored l
        → Ends (IsPure authored) (windowed opts replica update fetch_window fuel next events p l)
    unfolding windowed
    windowed-Ends fetch_window zero next events p l a h = h
    windowed-Ends fetch_window (suc fuel) next events p l a h =
        let hi = min (next + opts.window - 1) update.high_seq in
        let got = fetch_window next hi opts.window in
        let slots = take (hi - next + 1) got in
        let honest = SlotsHonest-take (hi - next + 1) next got (a next hi opts.window) in
        elim (Bool-cases (leb next update.high_seq)) [
          | inr e ↦ rw (windowed, e) h
          | inl e ↦ elim (Bool-cases (leb (next + opts.window) u64_max)) [
            | inr f ↦ rw (windowed, e, f) h
            | inl f ↦
                rw (windowed, e, f)
                  (Ends->>> (IsPure authored)
                    (await true p l
                      >>> (λ x p2 l2. ingest_chunk opts replica update slots next events p2 l2))
                    _
                    (Ends->>> (IsPure authored) (await true p l) _ (await-Ends true p l h)
                      (λ x p2 l2 k. chunk-Ends slots next events p2 l2 honest k))
                    (λ r p3 l3 k. elim (Bool-cases r.0) [
                      | inr g ↦ rw g k
                      | inl t ↦ elim (Bool-cases (leb (hi + 1) u64_max)) [
                        | inl g ↦ rw (t, g) (windowed-Ends fetch_window fuel (hi + 1) r.1 p3 l3 a k)
                        | inr g ↦ rw (t, g) k
                      ]
                    ]))
          ]
        ]

  module _ (net : Network) (honest : IsHonest authored net) (opts : CatchupOpts)
      (stock : is_stock opts.fetch ≡ true) (replica : String) where
    process_update-Ends :
        (update : SyncUpdate) (p : Option ℕ) (l : Ledger)
        → IsPure authored l
        → Ends (IsPure authored) (process_update net opts replica update p l)
    unfolding process_update
    process_update-Ends update p l h = elim (Bool-cases (ltb 1 opts.window)) [
      | inl e ↦
          rw (process_update, stock, e)
            (windowed-Ends opts replica update (net.fetch_window update) (update.high_seq + 2)
              update.low_seq [] p l (honest.window update) h)
      | inr e ↦
          rw (process_update, stock, e)
            (serial-Ends opts replica update (net.fetch update)
              (range update.low_seq (suc update.high_seq - update.low_seq)) [] p l
              (honest.one update) h)
    ]

    or_cut-Ends :
        (o : Outcome (List Publication))
        → Ends (IsPure authored) o
        → Ends (IsPure authored) (or_cut o)
    or_cut-Ends (Outcome.returns events p l) h = h
    or_cut-Ends (Outcome.cut l) h = h
    or_cut-Ends (Outcome.parked l) h = h
    or_cut-Ends (Outcome.fuel_out l) h = h
    or_cut-Ends (Outcome.panicked l) h = h

    step_events-Ends :
        (a : Arrival) (l : Ledger)
        → IsPure authored l
        → Ends (IsPure authored) (step_events net opts replica a l)
    unfolding step_events
    step_events-Ends (Arrival.arrived update n) l h =
        or_cut-Ends (process_update net opts replica update (patience opts.step n) l)
          (process_update-Ends update (patience opts.step n) l h)
    step_events-Ends Arrival.silent l h = h
    step_events-Ends Arrival.closed l h = h

    report_all-IsPure :
        (events : List Publication) (l : Ledger)
        → IsPure authored l
        → IsPure authored (report_all replica events l)
    unfolding report_all
    report_all-IsPure [] l h = h
    report_all-IsPure (e ∷ es) l h =
        report_all-IsPure es (record_reported replica l)
          (IsPure-record_reported authored replica l h)

    after_step-Ends :
        (r : Option (List Publication)) (rest : Ledger → Outcome Unit) (l : Ledger)
        → IsPure authored l
        → ((l2 : Ledger) → IsPure authored l2 → Ends (IsPure authored) (rest l2))
        → Ends (IsPure authored) (after_step replica r rest l)
    unfolding after_step
    after_step-Ends none rest l h k = h
    after_step-Ends (some events) rest l h k =
        k (report_all replica events l) (report_all-IsPure events l h)

    catchup-Ends :
        (arrivals : List Arrival) (l : Ledger)
        → IsPure authored l
        → Ends (IsPure authored) (ledgered_catchup net opts replica arrivals l)
    unfolding ledgered_catchup
    catchup-Ends [] l h = h
    catchup-Ends (a ∷ as') l h =
        Ends->>> (IsPure authored) (step_events net opts replica a l) _ (step_events-Ends a l h)
          (λ r p l2 k. after_step-Ends r _ l2 k (λ l3 k3. catchup-Ends as' l3 k3))

-- On a network that delivers under a name only what was authored under it, the stock consumer keeps
-- the ledger free of poison: serially or by windows, under any step bound, wherever a deadline cuts
-- it or a wedge parks it, each stored copy still has its publisher's bytes.
pub ledgered_catchup-IsPure :
    (authored : List (Publication × Bytes)) (net : Network) (opts : CatchupOpts) (replica : String)
    (arrivals : List Arrival) (l : Ledger)
    → IsHonest authored net
    → is_stock opts.fetch ≡ true
    → IsPure authored l
    → Ends (IsPure authored) (ledgered_catchup net opts replica arrivals l)
ledgered_catchup-IsPure authored net opts replica arrivals l honest stock h =
    catchup-Ends authored net honest opts stock replica arrivals l h
