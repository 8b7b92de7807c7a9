-- ===== src/Catchup/Windows.antt =====
-- Fetching by windows makes the same calls on the ledger as fetching one block at a time.
use Prim.Native.String.{String}
use ndn_sim.Prelude.{
  leb, u64_max, ℕ, zero, suc, ◌+◌, ◌-◌, ◌≤◌, ◌<◌, ◌≡◌, refl, sym, ap, ◌∙◌, Bool, true, false, List,
  [], ◌∷◌, ◌++◌, map, Option, none, some, if◌then◌else◌, Option-cases, Bool-cases, ◌⊎◌, inl, inr,
  ltb, ltb→lt, le→leb, lt→leb_false, min, range, arith, length, length-map, length-range,
}
use ndn_sim.Ledger.{Ledger, Bytes, Publication}
use ndn_sim.Catchup.{
  FetchMode, CatchupOpts, SyncUpdate, Outcome, ◌>>>◌, ingest_one, after_fetch, serial, ingest_chunk,
  take, windowed, is_stock, Network, process_update,
}
use ndn_sim.Catchup.Uncut.{ingest_one-IsUncut, chunk-IsUncut}
use ndn_sim.Catchup.Tasks.{>>>_assoc, uncut_eq}

range_split : (lo a b : ℕ) → range lo (a + b) ≡ range lo a ++ range (lo + a) b
range_split lo zero b = ground arith
range_split lo (suc a) b =
    let rest : range (suc lo) (a + b) ≡ range (suc lo) a ++ range (suc lo + a) b =
      range_split (suc lo) a b in
    let shift : suc lo + a ≡ lo + suc a = omega arith in
    let sum : suc a + b ≡ suc (a + b) = omega arith in
    rw sum (ap (λ xs. lo ∷ xs) (rest ∙ ap (λ m. range (suc lo) a ++ range m b) shift))

take_all : (xs : List (Option Bytes)) → take (length xs) xs ≡ xs
take_all [] = refl
take_all (x ∷ xs) = ap (λ ys. x ∷ ys) (take_all xs)

module _ (opts : CatchupOpts) (replica : String) (update : SyncUpdate) where
  module _ (fetched : ℕ → Option Bytes) (stock : is_stock opts.fetch ≡ true) where
    serial-none :
        (seq : ℕ) (seqs : List ℕ) (events : List Publication) (l : Ledger)
        → fetched seq ≡ none
        → serial opts replica update fetched (seq ∷ seqs) events none l
          ≡ Outcome.returns events none l
    unfolding serial after_fetch
    serial-none seq seqs events l e = rw (serial, after_fetch, e, stock) refl

    serial-some :
        (seq : ℕ) (seqs : List ℕ) (events : List Publication) (l : Ledger) (b : Bytes)
        → fetched seq ≡ some b
        → serial opts replica update fetched (seq ∷ seqs) events none l ≡ (
            ingest_one opts replica update seq b events none l
            >>> (λ events' p2 l2. serial opts replica update fetched seqs events' p2 l2))
    unfolding serial after_fetch
    serial-some seq seqs events l b e = rw (serial, after_fetch, e) refl

    -- What `windowed` does after a chunk, were the rest fetched one at a time.
    abbrev after_chunk :
        List ℕ → Bool × List Publication → Option ℕ → Ledger → Outcome (List Publication)
    after_chunk rest r p l =
        if r.0 then serial opts replica update fetched rest r.1 p l else Outcome.returns r.1 p l

    chunk_some :
        (n lo : ℕ) (rest : List ℕ) (events : List Publication) (l : Ledger) (b : Bytes)
        → fetched lo ≡ some b
        → (ingest_chunk opts replica update (map fetched (range lo (suc n))) lo events none l
            >>> after_chunk rest)
          ≡ (ingest_one opts replica update lo b events none l >>> (λ events' p2 l2.
              ingest_chunk opts replica update
                (map fetched (range (suc lo) n))
                (suc lo)
                events'
                p2
                l2
              >>> after_chunk rest))
    unfolding ingest_chunk
    chunk_some n lo rest events l b e =
        rw e (>>>_assoc (ingest_one opts replica update lo b events none l) _ (after_chunk rest))

    chunk_serial :
        (n lo : ℕ) (rest : List ℕ) (events : List Publication) (l : Ledger)
        → serial opts replica update fetched (range lo n ++ rest) events none l ≡ (
            ingest_chunk opts replica update (map fetched (range lo n)) lo events none l
            >>> after_chunk rest)
    unfolding ingest_chunk
    chunk_serial zero lo rest events l = refl
    chunk_serial (suc n) lo rest events l = elim (Option-cases (fetched lo)) [
      | inl e ↦ serial-none lo (range (suc lo) n ++ rest) events l e ∙ rw e refl
      | inr (b, e) ↦
          serial-some lo (range (suc lo) n ++ rest) events l b e
          ∙ uncut_eq Unit (ingest_one opts replica update lo b events none l)
              (λ events' p2 l2.
                serial opts replica update fetched (range (suc lo) n ++ rest) events' p2 l2)
              (λ events' p2 l2.
                ingest_chunk opts replica update (map fetched (range (suc lo) n)) (suc lo) events'
                  p2 l2
                >>> after_chunk rest)
              (ingest_one-IsUncut Unit opts (inr tt) replica update lo b events l)
              (λ events' l'. chunk_serial n (suc lo) rest events' l')
          ∙ sym (chunk_some n lo rest events l b e)
    ]

    module _ (fetch_window : ℕ → ℕ → ℕ → List (Option Bytes)) (window_pos : 1 ≤ opts.window)
        (fit : update.high_seq + opts.window ≤ u64_max)
        (answers : (lo hi : ℕ)
          → lo ≤ hi
          → fetch_window lo hi opts.window ≡ map fetched (range lo (suc hi - lo))) where
      one_window :
          (fuel next hi : ℕ) (events : List Publication) (l : Ledger)
          → hi ≡ min (next + opts.window - 1) update.high_seq
          → next ≤ update.high_seq
          → windowed opts replica update fetch_window (suc fuel) next events none l ≡ (
              ingest_chunk opts replica update
                (map fetched (range next (suc hi - next)))
                next
                events
                none
                l
              >>> (λ r p3 l3.
                  if r.0
                  then windowed opts replica update fetch_window fuel (hi + 1) r.1 p3 l3
                  else Outcome.returns r.1 p3 l3))
      unfolding windowed
      one_window fuel next hi events l e h =
          rw (windowed, sym e, le→leb next update.high_seq h, near, on, whole) refl
        where
          near : leb (next + opts.window) u64_max ≡ true
          near = le→leb (next + opts.window) u64_max (omega arith)

          on : leb (hi + 1) u64_max ≡ true
          on = le→leb (hi + 1) u64_max (omega arith)

          whole :
              take (hi - next + 1) (fetch_window next hi opts.window)
              ≡ map fetched (range next (suc hi - next))
          whole =
              let size : hi - next + 1 ≡ length (map fetched (range next (suc hi - next))) = omega (
                arith,
                length-map (range next (suc hi - next)) fetched,
                length-range next (suc hi - next),
              ) in
              rw (answers next hi (omega arith), size) (take_all _)

      no_window :
          (fuel next : ℕ) (events : List Publication) (l : Ledger)
          → update.high_seq < next
          → windowed opts replica update fetch_window (suc fuel) next events none l
            ≡ Outcome.returns events none l
      unfolding windowed
      no_window fuel next events l h = rw (windowed, lt→leb_false next update.high_seq h) refl

      no_serial :
          (next : ℕ) (events : List Publication) (l : Ledger)
          → update.high_seq < next
          → serial opts replica update fetched
              (range next (suc update.high_seq - next))
              events
              none
              l
            ≡ Outcome.returns events none l
      unfolding serial
      no_serial next events l h =
          let gone : suc update.high_seq - next ≡ 0 = omega arith in rw gone refl

      go_on :
          (fuel hi : ℕ) (r : Bool × List Publication) (l' : Ledger)
          → ((es : List Publication)
              → windowed opts replica update fetch_window fuel (hi + 1) es none l'
                ≡ serial opts replica update fetched
                    (range (hi + 1) (suc update.high_seq - (hi + 1)))
                    es
                    none
                    l')
          → (if r.0
              then windowed opts replica update fetch_window fuel (hi + 1) r.1 none l'
              else Outcome.returns r.1 none l')
            ≡ after_chunk (range (hi + 1) (suc update.high_seq - (hi + 1))) r none l'
      go_on fuel hi (true, es) l' h = h es
      go_on fuel hi (false, es) l' h = refl

      pub windowed-serial :
          (fuel next : ℕ) (events : List Publication) (l : Ledger)
          → suc update.high_seq - next < fuel
          → windowed opts replica update fetch_window fuel next events none l
            ≡ serial opts replica update fetched
                (range next (suc update.high_seq - next))
                events
                none
                l
      windowed-serial zero next events l h = absurd (omega arith)
      windowed-serial (suc fuel) next events l h = elim (in_range next update.high_seq) [
        | inr out ↦ no_window fuel next events l out ∙ sym (no_serial next events l out)
        | inl in' ↦
            let hi = min (next + opts.window - 1) update.high_seq in
            let chunk =
              ingest_chunk opts replica update (map fetched (range next (suc hi - next))) next
                events none l in
            let rest = range (hi + 1) (suc update.high_seq - (hi + 1)) in
            one_window fuel next hi events l refl in'
            ∙ uncut_eq Unit chunk
                (λ r p3 l3.
                  if r.0
                  then windowed opts replica update fetch_window fuel (hi + 1) r.1 p3 l3
                  else Outcome.returns r.1 p3 l3)
                (after_chunk rest)
                (chunk-IsUncut Unit opts (inr tt) replica update
                  (map fetched (range next (suc hi - next))) next events l)
                (λ r l'.
                  go_on fuel hi r l' (λ es. windowed-serial fuel (hi + 1) es l' (omega arith)))
            ∙ sym (chunk_serial (suc hi - next) next rest events l)
            ∙ ap (λ seqs. serial opts replica update fetched seqs events none l)
                (joined next hi in' refl)
      ]
        where
          in_range : (a b : ℕ) → (a ≤ b) ⊎ (b < a)
          in_range a b = omega arith

          joined :
              (next hi : ℕ)
              → next ≤ update.high_seq
              → hi ≡ min (next + opts.window - 1) update.high_seq
              → range next (suc hi - next) ++ range (hi + 1) (suc update.high_seq - (hi + 1))
                ≡ range next (suc update.high_seq - next)
          joined next hi h e =
              let split = range_split next (suc hi - next) (suc update.high_seq - (hi + 1)) in
              let meet : next + (suc hi - next) ≡ hi + 1 = omega arith in
              let total : (suc hi - next) + (suc update.high_seq - (hi + 1))
                  ≡ suc update.high_seq - next =
                omega arith in
              sym (
                ap (range next) (sym total)
                ∙ split
                ∙ ap (λ m. range next (suc hi - next) ++ range m (suc update.high_seq - (hi + 1)))
                    meet)

-- Where the network answers a window as it answers each block of it, and 64 bits hold the last sequence
-- number and a window more, an update that the stock consumer processes by windows, with no deadline,
-- ends exactly as one processed block by block: the same blocks stored and acked in the same order up
-- to the first gap, the same events and the same ledger.
pub process_update-windowed :
    (net : Network) (opts : CatchupOpts) (replica : String) (update : SyncUpdate) (l : Ledger)
    → opts.fetch ≡ FetchMode.stock
    → update.high_seq + opts.window ≤ u64_max
    → ((lo hi : ℕ)
        → lo ≤ hi
        → net.fetch_window update lo hi opts.window
          ≡ map (net.fetch update) (range lo (suc hi - lo)))
    → process_update net opts replica update none l
      ≡ serial opts replica update
          (net.fetch update)
          (range update.low_seq (suc update.high_seq - update.low_seq))
          []
          none
          l
unfolding process_update
process_update-windowed net opts replica update l stock fit answers =
    let is_stock_opts : is_stock opts.fetch ≡ true = rw stock refl in
    elim (Bool-cases (ltb 1 opts.window)) [
      | inr e ↦ rw (process_update, is_stock_opts, e) refl
      | inl e ↦
          rw (process_update, is_stock_opts, e)
            (windowed-serial opts replica update (net.fetch update) is_stock_opts
              (net.fetch_window update) (omega (arith, ltb→lt 1 opts.window e)) fit answers
              (update.high_seq + 2) update.low_seq [] l (omega arith))
    ]
