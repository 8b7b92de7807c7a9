-- ===== src/Catchup/Reports.antt =====
-- Every block that a step stores is reported once, unless the step's deadline also covers its work.
use Prim.Native.String.{String}
use ndn_sim.Prelude.{
  ℕ, zero, suc, ◌+◌, ◌-◌, ◌≡◌, refl, ◌∙◌, Bool, true, false, List, [], ◌∷◌, ◌++◌, ◌&&◌, Option,
  none, some, if◌then◌else◌, Option-cases, Bool-cases, inl, inr, ltb, leb, min, range, arith,
  length, length-append, u64, u64_max, All,
}
use ndn_sim.Ledger.{
  Ledger, Bytes, Publication, record_stored, record_reported, stored_count, reported_count,
}
use ndn_sim.Ledger.Stored.{
  stored_count-record_stored, reported_count-record_stored, stored_count-record_ack,
  reported_count-record_ack, stored_count-record_reported, reported_count-record_reported,
}
use ndn_sim.Catchup.{
  CatchupOpts, SyncUpdate, Outcome, ◌>>>◌, await, forever, wedge, ingest_waits, ingest_one,
  after_fetch, serial, ingest_chunk, take, windowed, is_stock, Network, process_update, Arrival,
  or_cut, patience, report_all, after_step, step_events, ledgered_catchup,
}
use ndn_sim.Catchup.Uncut.{Fits, process_update-IsUncut, ledgered_catchup-IsUncut}
use ndn_sim.Catchup.Tasks.{
  IsUncut, Returned, uncut_returns, OnReturn, OnReturn->>>, IsStill, IsStill->>>, OnReturn-mono,
  still_then,
}

pub await-IsStill : (b : Bool) (p : Option ℕ) (l : Ledger) → IsStill l (await b p l)
await-IsStill false p l = refl
await-IsStill true none l = refl
await-IsStill true (some zero) l = tt
await-IsStill true (some (suc n)) l = refl

forever-IsStill : (p : Option ℕ) (l : Ledger) → IsStill l (forever p l)
forever-IsStill none l = tt
forever-IsStill (some n) l = tt

module _ (opts : CatchupOpts) (replica : String) (update : SyncUpdate) where
  pub wedge-IsStill : (p : Option ℕ) (l : Ledger) → IsStill l (wedge opts replica update p l)
  unfolding wedge
  wedge-IsStill p l = elim (Option-cases opts.wedge_after) [
    | inl e ↦ rw (wedge, e) refl
    | inr (cap, e) ↦ elim (Bool-cases (leb cap (stored_count replica l))) [
      | inl h ↦ rw (wedge, e, h) (forever-IsStill p l)
      | inr h ↦ rw (wedge, e, h) refl
    ]
  ]

  pub ingest_waits-IsStill :
      (newly : Bool) (p : Option ℕ) (l : Ledger)
      → IsStill l (ingest_waits opts replica update newly p l)
  unfolding ingest_waits
  ingest_waits-IsStill newly p l = search (IsStill->>>, await-IsStill, wedge-IsStill)

  -- From `events` and `l` on, each block stored is one more event, and nothing was reported.
  abbrev pub Told : List Publication → Ledger → List Publication → Ledger → Type 0
  Told events l events' l' =
      (stored_count replica l' + length events ≡ stored_count replica l + length events')
      × (reported_count replica l' ≡ reported_count replica l)

  told_more :
      (newly : Bool) (events : List Publication) (e : Publication)
      → length (if newly then events ++ e ∷ [] else events)
        ≡ length events + (if newly then 1 else 0)
  told_more true events e = omega (arith, length-append events (e ∷ []))
  told_more false events e = omega arith

  ingest_one-Told :
      (seq : ℕ) (bytes : Bytes) (events : List Publication) (p : Option ℕ) (l : Ledger)
      → OnReturn (Told events l) (ingest_one opts replica update seq bytes events p l)
  unfolding ingest_one
  ingest_one-Told seq bytes events p l =
      let (newly, l1) = record_stored replica update.publisher seq bytes l in
      OnReturn->>> (λ (a : Unit) l5. l5 ≡ l1) (Told events l)
        (ingest_waits opts replica update newly p l1) _ (ingest_waits-IsStill newly p l1)
        (λ a p5 l5 same. rw same (
          omega (
            arith,
            stored_count-record_ack replica l1,
            stored_count-record_stored replica update.publisher seq bytes l,
            told_more newly events (update.publisher, seq),
          ),
          reported_count-record_ack replica l1
              ∙ reported_count-record_stored replica update.publisher seq bytes l,
        ))

  Told-then :
      {A : Type 0} (as_events : A → List Publication) (events : List Publication) (l : Ledger)
      (o : Outcome A) (f : A → Option ℕ → Ledger → Outcome (List Publication))
      → OnReturn (λ a. Told events l (as_events a)) o
      → ((a : A) (p : Option ℕ) (l' : Ledger) → OnReturn (Told (as_events a) l') (f a p l'))
      → OnReturn (Told events l) (o >>> f)
  Told-then as_events events l o f h k =
      OnReturn->>> (λ a. Told events l (as_events a)) (Told events l) o f h
        (λ a p l' t.
          OnReturn-mono (Told (as_events a) l') (Told events l) (f a p l') (k a p l')
            (λ e2 l2 t2. (omega (arith, t.0, t2.0), t2.1 ∙ t.1)))

  Told-self : (events : List Publication) (l : Ledger) → Told events l events l
  Told-self events l = (refl, refl)

  after_fetch-Told :
      (o : Option Bytes) (seq : ℕ) (events : List Publication)
      (rest : List Publication → Option ℕ → Ledger → Outcome (List Publication)) (p : Option ℕ)
      (l : Ledger)
      → ((es : List Publication) (p' : Option ℕ) (l' : Ledger)
          → OnReturn (Told es l') (rest es p' l'))
      → OnReturn (Told events l) (after_fetch opts replica update o seq events rest p l)
  unfolding after_fetch
  after_fetch-Told none seq events rest p l h = elim (Bool-cases (is_stock opts.fetch)) [
    | inl e ↦ rw (after_fetch, e) (Told-self events l)
    | inr e ↦ rw (after_fetch, e) (h events p l)
  ]
  after_fetch-Told (some bytes) seq events rest p l h =
      Told-then (λ es. es) events l (ingest_one opts replica update seq bytes events p l) rest
        (ingest_one-Told seq bytes events p l) h

  serial-Told :
      (fetched : ℕ → Option Bytes) (seqs : List ℕ) (events : List Publication) (p : Option ℕ)
      (l : Ledger)
      → OnReturn (Told events l) (serial opts replica update fetched seqs events p l)
  unfolding serial
  serial-Told fetched [] events p l = Told-self events l
  serial-Told fetched (seq ∷ seqs) events p l =
      let rest : List Publication → Option ℕ → Ledger → Outcome (List Publication) =
        λ es p' l'. serial opts replica update fetched seqs es p' l' in
      still_then (Told events l) l (await true p l)
        (λ a p2 l2. after_fetch opts replica update (fetched seq) seq events rest p2 l2)
        (await-IsStill true p l)
        (λ a p2.
          after_fetch-Told (fetched seq) seq events rest p2 l
            (λ es p' l'. serial-Told fetched seqs es p' l'))

  chunk-Told :
      (slots : List (Option Bytes)) (seq : ℕ) (events : List Publication) (p : Option ℕ)
      (l : Ledger)
      → OnReturn (λ r. Told events l r.1) (ingest_chunk opts replica update slots seq events p l)
  unfolding ingest_chunk
  chunk-Told [] seq events p l = Told-self events l
  chunk-Told (none ∷ slots) seq events p l = Told-self events l
  chunk-Told (some b ∷ slots) seq events p l =
      OnReturn->>> (Told events l) (λ r. Told events l r.1)
        (ingest_one opts replica update seq b events p l)
        (λ es p2 l2. ingest_chunk opts replica update slots (suc seq) es p2 l2)
        (ingest_one-Told seq b events p l)
        (λ es p2 l2 t.
          OnReturn-mono (λ r. Told es l2 r.1) (λ r. Told events l r.1)
            (ingest_chunk opts replica update slots (suc seq) es p2 l2)
            (chunk-Told slots (suc seq) es p2 l2)
            (λ r l3 t3. (omega (arith, t.0, t3.0), t3.1 ∙ t.1)))

  windowed-Told :
      (fetch_window : ℕ → ℕ → ℕ → List (Option Bytes)) (fuel next : ℕ) (events : List Publication)
      (p : Option ℕ) (l : Ledger)
      → OnReturn (Told events l) (windowed opts replica update fetch_window fuel next events p l)
  unfolding windowed
  windowed-Told fetch_window zero next events p l = tt
  windowed-Told fetch_window (suc fuel) next events p l =
      let hi = min (next + opts.window - 1) update.high_seq in
      let slots = take (hi - next + 1) (fetch_window next hi opts.window) in
      elim (Bool-cases (leb next update.high_seq)) [
        | inr e ↦ rw (windowed, e) (Told-self events l)
        | inl e ↦ elim (Bool-cases (leb (next + opts.window) u64_max)) [
          | inr f ↦ rw (windowed, e, f) tt
          | inl f ↦
              rw (windowed, e, f)
                (Told-then (λ r. r.1) events l
                  (await true p l
                    >>> (λ a p2 l2. ingest_chunk opts replica update slots next events p2 l2))
                  (λ r p3 l3.
                    if r.0
                    then (if leb (hi + 1) u64_max
                        then windowed opts replica update fetch_window fuel (hi + 1) r.1 p3 l3
                        else Outcome.panicked l3)
                    else Outcome.returns r.1 p3 l3)
                  (still_then (λ r. Told events l r.1) l (await true p l) _ (await-IsStill true p l)
                    (λ a p2. chunk-Told slots next events p2 l))
                  (λ r p3 l3. elim (Bool-cases r.0) [
                    | inr g ↦ rw g (Told-self r.1 l3)
                    | inl t ↦ elim (Bool-cases (leb (hi + 1) u64_max)) [
                      | inl g ↦ rw (t, g) (windowed-Told fetch_window fuel (hi + 1) r.1 p3 l3)
                      | inr g ↦ rw (t, g) tt
                    ]
                  ]))
        ]
      ]

module _ (net : Network) (opts : CatchupOpts) (replica : String) where
  process_update-Told :
      (update : SyncUpdate) (p : Option ℕ) (l : Ledger)
      → OnReturn (Told opts replica update [] l) (process_update net opts replica update p l)
  unfolding process_update
  process_update-Told update p l = elim (Bool-cases (ltb 1 opts.window && is_stock opts.fetch)) [
    | inl e ↦
        rw (process_update, e)
          (windowed-Told opts replica update (net.fetch_window update) (update.high_seq + 2)
            update.low_seq [] p l)
    | inr e ↦
        rw (process_update, e)
          (serial-Told opts replica update
            (if is_stock opts.fetch then net.fetch update else net.fetch_arrival_paired update)
            (range update.low_seq (suc update.high_seq - update.low_seq)) [] p l)
  ]

  -- What a step did: its events are the blocks it stored.
  abbrev StepTold : Ledger → Option (List Publication) → Ledger → Type 0
  StepTold l none l' = l' ≡ l
  StepTold l (some events) l' =
      (stored_count replica l' ≡ stored_count replica l + length events)
      × (reported_count replica l' ≡ reported_count replica l)

  or_cut-StepTold :
      (update : SyncUpdate) (l : Ledger) (o : Outcome (List Publication))
      → IsUncut Unit o
      → OnReturn (Told opts replica update [] l) o
      → OnReturn (StepTold l) (or_cut o)
  or_cut-StepTold update l (Outcome.returns events p l') u h = (omega (arith, h.0), h.1)
  or_cut-StepTold update l (Outcome.cut l') u h = absurd u
  or_cut-StepTold update l (Outcome.parked l') u h = tt
  or_cut-StepTold update l (Outcome.fuel_out l') u h = tt
  or_cut-StepTold update l (Outcome.panicked l') u h = tt

  step_events-StepTold :
      (a : Arrival) (l : Ledger)
      → ((n : ℕ) → patience opts.step n ≡ none)
      → Fits opts.window a
      → OnReturn (StepTold l) (step_events net opts replica a l)
  unfolding step_events
  step_events-StepTold (Arrival.arrived update n) l h fit = rw (h n) (
      or_cut-StepTold update l (process_update net opts replica update none l)
        (process_update-IsUncut Unit net opts (inr tt) replica update l fit)
        (process_update-Told update none l))
  step_events-StepTold Arrival.silent l h fit = (omega arith, refl)
  step_events-StepTold Arrival.closed l h fit = refl

  report_all_counts :
      (events : List Publication) (l : Ledger)
      → (stored_count replica (report_all replica events l) ≡ stored_count replica l)
        × (u64 (reported_count replica (report_all replica events l))
            ≡ u64 (reported_count replica l + length events))
  unfolding report_all
  report_all_counts [] l = (refl, omega arith)
  report_all_counts (e ∷ es) l =
      let l' = record_reported replica l in
      let rest = report_all_counts es l' in
      (
        rest.0 ∙ stored_count-record_reported replica l,
        omega (arith, rest.1, reported_count-record_reported replica l),
      )

  -- The reports have grown by as much as the copies, to 64 bits.
  abbrev pub Even : Ledger → Ledger → Type 0
  Even l l' =
      u64 (reported_count replica l' + stored_count replica l)
      ≡ u64 (reported_count replica l + stored_count replica l')

  after_step-Even :
      (r : Option (List Publication)) (rest : Ledger → Outcome Unit) (l l2 : Ledger)
      → StepTold l r l2
      → ((l3 : Ledger) → OnReturn (λ a. Even l3) (rest l3))
      → OnReturn (λ a. Even l) (after_step replica r rest l2)
  unfolding after_step
  after_step-Even none rest l l2 t h = rw t refl
  after_step-Even (some events) rest l l2 t h =
      let l3 = report_all replica events l2 in
      let counts = report_all_counts events l2 in
      OnReturn-mono (λ a. Even l3) (λ a. Even l) (rest l3) (h l3)
        (λ a l4 e. omega (arith, e, counts.0, counts.1, t.0, t.1))

  catchup-Even :
      (arrivals : List Arrival) (l : Ledger)
      → ((n : ℕ) → patience opts.step n ≡ none)
      → All (Fits opts.window) arrivals
      → OnReturn (λ a l'. Even l l') (ledgered_catchup net opts replica arrivals l)
  unfolding ledgered_catchup
  catchup-Even [] l h fits = refl
  catchup-Even (a ∷ as') l h fits =
      OnReturn->>> (StepTold l) (λ b l'. Even l l') (step_events net opts replica a l) _
        (step_events-StepTold a l h fits.0)
        (λ r p l2 t. after_step-Even r _ l l2 t (λ l3. catchup-Even as' l3 h fits.1))

-- Where no deadline covers a step's work, no wedge is set, and 64 bits hold the last sequence number
-- of each update and a window more, the consumer gets through whatever arrives, and its reports have
-- then grown by as much as its copies, to 64 bits.
pub ledgered_catchup-Even :
    (net : Network) (opts : CatchupOpts) (replica : String) (arrivals : List Arrival) (l : Ledger)
    → ((n : ℕ) → patience opts.step n ≡ none)
    → opts.wedge_after ≡ none
    → All (Fits opts.window) arrivals
    → Returned
        (λ a l'.
          u64 (reported_count replica l' + stored_count replica l)
          ≡ u64 (reported_count replica l + stored_count replica l'))
        (ledgered_catchup net opts replica arrivals l)
ledgered_catchup-Even net opts replica arrivals l h w fits =
    uncut_returns (λ a l'. Even net opts replica l l')
      (ledgered_catchup net opts replica arrivals l)
      (ledgered_catchup-IsUncut ⊥ net opts (inl w) replica arrivals l h fits)
      (catchup-Even net opts replica arrivals l h fits)
