-- ===== src/Catchup/Uncut.antt =====
-- Without a deadline no piece of the consumer is cut.
use Prim.Native.String.{String}
use ndn_sim.Prelude.{
  u64_max, All, le→leb, ℕ, zero, suc, ◌+◌, ◌-◌, ◌≤◌, ◌<◌, ◌≡◌, refl, sym, ◌∙◌, ◌&&◌, Bool, true,
  false, List, [], ◌∷◌, Option, none, some, if◌then◌else◌, Option-cases, Bool-cases, ◌⊎◌, inl, inr,
  ltb, leb, leb→le, min, range, arith,
}
use ndn_sim.Ledger.{Ledger, Bytes, Publication, stored_count}
use ndn_sim.Catchup.{
  CatchupOpts, SyncUpdate, Outcome, await, wedge, ingest_waits, ingest_one, after_fetch, serial,
  ingest_chunk, take, windowed, is_stock, Network, process_update, Arrival, or_cut, patience,
  report_all, after_step, step_events, ledgered_catchup,
}
use ndn_sim.Catchup.Tasks.{IsUncut, IsUncut->>>}

await-IsUncut : (Parks : Type 0) (b : Bool) (l : Ledger) → IsUncut Parks (await b none l)
await-IsUncut Parks true l = refl
await-IsUncut Parks false l = refl

module _ (Parks : Type 0) (opts : CatchupOpts) (wedged : (opts.wedge_after ≡ none) ⊎ Parks)
    (replica : String) (update : SyncUpdate) where
  wedge-IsUncut : (l : Ledger) → IsUncut Parks (wedge opts replica update none l)
  unfolding wedge
  wedge-IsUncut l = elim (Option-cases opts.wedge_after) [
    | inl e ↦ rw (wedge, e) refl
    | inr (cap, e) ↦ elim (Bool-cases (leb cap (stored_count replica l))) [
      | inl h ↦ rw (wedge, e, h) (parks cap e wedged)
      | inr h ↦ rw (wedge, e, h) refl
    ]
  ]
    where
      parks : (cap : ℕ) → opts.wedge_after ≡ some cap → (opts.wedge_after ≡ none) ⊎ Parks → Parks
      parks cap e (inl n) = let clash = sym n ∙ e in absurd cc
      parks cap e (inr x) = x

  ingest_waits-IsUncut :
      (newly : Bool) (l : Ledger) → IsUncut Parks (ingest_waits opts replica update newly none l)
  unfolding ingest_waits
  ingest_waits-IsUncut newly l = search (IsUncut->>>, await-IsUncut, wedge-IsUncut)

  pub ingest_one-IsUncut :
      (seq : ℕ) (bytes : Bytes) (events : List Publication) (l : Ledger)
      → IsUncut Parks (ingest_one opts replica update seq bytes events none l)
  unfolding ingest_one
  ingest_one-IsUncut seq bytes events l = search (IsUncut->>>, ingest_waits-IsUncut, refl)

  pub chunk-IsUncut :
      (slots : List (Option Bytes)) (lo : ℕ) (events : List Publication) (l : Ledger)
      → IsUncut Parks (ingest_chunk opts replica update slots lo events none l)
  unfolding ingest_chunk
  chunk-IsUncut [] lo events l = refl
  chunk-IsUncut (none ∷ slots) lo events l = refl
  chunk-IsUncut (some b ∷ slots) lo events l =
      IsUncut->>> Parks _ _ (ingest_one-IsUncut lo b events l)
        (λ events' l'. chunk-IsUncut slots (suc lo) events' l')

  after_fetch-IsUncut :
      (o : Option Bytes) (seq : ℕ) (events : List Publication)
      (rest : List Publication → Option ℕ → Ledger → Outcome (List Publication)) (l : Ledger)
      → ((es : List Publication) (l' : Ledger) → IsUncut Parks (rest es none l'))
      → IsUncut Parks (after_fetch opts replica update o seq events rest none l)
  unfolding after_fetch
  after_fetch-IsUncut none seq events rest l h = elim (Bool-cases (is_stock opts.fetch)) [
    | inl e ↦ rw (after_fetch, e) refl
    | inr e ↦ rw (after_fetch, e) (h events l)
  ]
  after_fetch-IsUncut (some bytes) seq events rest l h =
      IsUncut->>> Parks _ rest (ingest_one-IsUncut seq bytes events l) h

  serial-IsUncut :
      (fetched : ℕ → Option Bytes) (seqs : List ℕ) (events : List Publication) (l : Ledger)
      → IsUncut Parks (serial opts replica update fetched seqs events none l)
  unfolding serial
  serial-IsUncut fetched [] events l = refl
  serial-IsUncut fetched (seq ∷ seqs) events l =
      after_fetch-IsUncut (fetched seq) seq events _ l (λ es l'. serial-IsUncut fetched seqs es l')

  windowed-IsUncut :
      (fetch_window : ℕ → ℕ → ℕ → List (Option Bytes)) (fuel next : ℕ) (events : List Publication)
      (l : Ledger)
      → 1 ≤ opts.window
      → update.high_seq + opts.window ≤ u64_max
      → suc update.high_seq - next < fuel
      → IsUncut Parks (windowed opts replica update fetch_window fuel next events none l)
  unfolding windowed
  windowed-IsUncut fetch_window zero next events l pos fit enough = absurd (omega arith)
  windowed-IsUncut fetch_window (suc fuel) next events l pos fit enough =
      let hi = min (next + opts.window - 1) update.high_seq in
      let slots = take (hi - next + 1) (fetch_window next hi opts.window) in
      elim (Bool-cases (leb next update.high_seq)) [
        | inr e ↦ rw (windowed, e) refl
        | inl e ↦
            let left : suc update.high_seq - (hi + 1) < fuel =
              omega (arith, leb→le next update.high_seq e, pos, enough) in
            let near : leb (next + opts.window) u64_max ≡ true =
              le→leb (next + opts.window) u64_max
                (omega (arith, leb→le next update.high_seq e, fit)) in
            let on : leb (hi + 1) u64_max ≡ true =
              le→leb (hi + 1) u64_max (omega (arith, fit, pos)) in
            rw (windowed, e, near)
              (IsUncut->>> Parks (ingest_chunk opts replica update slots next events none l) _
                (chunk-IsUncut slots next events l)
                (λ r l'. elim (Bool-cases r.0) [
                  | inl t ↦
                      rw (t, on) (windowed-IsUncut fetch_window fuel (hi + 1) r.1 l' pos fit left)
                  | inr f ↦ rw f refl
                ]))
      ]

-- 64 bits hold the last sequence number of an update and a window more.
abbrev pub Fits : ℕ → Arrival → Type 0
Fits window (Arrival.arrived update n) = update.high_seq + window ≤ u64_max
Fits window Arrival.silent = Unit
Fits window Arrival.closed = Unit

module _ (Parks : Type 0) (net : Network) (opts : CatchupOpts)
    (wedged : (opts.wedge_after ≡ none) ⊎ Parks) (replica : String) where
  pub process_update-IsUncut :
      (update : SyncUpdate) (l : Ledger)
      → update.high_seq + opts.window ≤ u64_max
      → IsUncut Parks (process_update net opts replica update none l)
  unfolding process_update
  process_update-IsUncut update l fit =
      elim (Bool-cases (ltb 1 opts.window && is_stock opts.fetch)) [
        | inl e ↦
            rw (process_update, e)
              (windowed-IsUncut Parks opts wedged replica update (net.fetch_window update)
                (update.high_seq + 2) update.low_seq [] l (wide e) fit (omega arith))
        | inr e ↦
            rw (process_update, e)
              (serial-IsUncut Parks opts wedged replica update
                (if is_stock opts.fetch then net.fetch update else net.fetch_arrival_paired update)
                (range update.low_seq (suc update.high_seq - update.low_seq)) [] l)
      ]
    where
      wide : (ltb 1 opts.window && is_stock opts.fetch) ≡ true → 1 ≤ opts.window
      wide e = ground arith

  or_cut-IsUncut : (o : Outcome (List Publication)) → IsUncut Parks o → IsUncut Parks (or_cut o)
  or_cut-IsUncut (Outcome.returns events p l) h = h
  or_cut-IsUncut (Outcome.cut l) h = absurd h
  or_cut-IsUncut (Outcome.parked l) h = h
  or_cut-IsUncut (Outcome.fuel_out l) h = h
  or_cut-IsUncut (Outcome.panicked l) h = h

  step_events-IsUncut :
      (a : Arrival) (l : Ledger)
      → ((n : ℕ) → patience opts.step n ≡ none)
      → Fits opts.window a
      → IsUncut Parks (step_events net opts replica a l)
  unfolding step_events
  step_events-IsUncut (Arrival.arrived update n) l h fit = rw (h n) (
      or_cut-IsUncut (process_update net opts replica update none l)
        (process_update-IsUncut update l fit))
  step_events-IsUncut Arrival.silent l h fit = refl
  step_events-IsUncut Arrival.closed l h fit = refl

  after_step-IsUncut :
      (r : Option (List Publication)) (rest : Ledger → Outcome Unit) (l : Ledger)
      → ((l2 : Ledger) → IsUncut Parks (rest l2))
      → IsUncut Parks (after_step replica r rest l)
  unfolding after_step
  after_step-IsUncut none rest l h = refl
  after_step-IsUncut (some events) rest l h = h (report_all replica events l)

  pub ledgered_catchup-IsUncut :
      (arrivals : List Arrival) (l : Ledger)
      → ((n : ℕ) → patience opts.step n ≡ none)
      → All (Fits opts.window) arrivals
      → IsUncut Parks (ledgered_catchup net opts replica arrivals l)
  unfolding ledgered_catchup
  ledgered_catchup-IsUncut [] l h fits = refl
  ledgered_catchup-IsUncut (a ∷ as') l h fits =
      IsUncut->>> Parks (step_events net opts replica a l) _ (step_events-IsUncut a l h fits.0)
        (λ r l2. after_step-IsUncut r _ l2 (λ l3. ledgered_catchup-IsUncut as' l3 h fits.1))
