-- ===== src/Channel/Airtime.antt =====
-- What the medium promises: one transmission at a time, a bounded wait, and honest counters.
use ndn_sim.Prelude.{
  ℕ, ◌+◌, ◌-◌, ◌≤◌, ◌<◌, ◌≡◌, refl, ◌⊎◌, inl, inr, List, [], ◌∷◌, Option, none, some, max, u64,
  arith, length,
}
use ndn_sim.Channel.{SharedChannel, airtime, start_at, transmit}

-- A datagram offered to the channel.
pub record Offer : Type 0 where
  pub now : ℕ
  pub frames : ℕ
  pub bytes : ℕ

-- The time from which the medium is free.
abbrev pub free_at : SharedChannel → ℕ
free_at c = elim c.busy_until [ none ↦ 0 | some t ↦ t ]

-- One datagram: it is refused exactly when the backlog ahead of it exceeds the limit, and then
-- only the drop counter moves. Otherwise it starts when it is offered or when the medium is free,
-- whichever is later, holds the medium for its airtime, and both counters account for it.
pub transmit_lem :
    (now frames bytes : ℕ) (c : SharedChannel)
    → let (r, c') = transmit now frames bytes c in
      let start = max now (free_at c) in
      ((c.max_backlog < free_at c - now)
        × (r ≡ none)
        × (c' ≡ record c { tail_drops = u64 (c.tail_drops + 1) }))
      ⊎ ((free_at c - now ≤ c.max_backlog)
          × (r ≡ some (start + airtime c frames bytes))
          × (c' ≡ record c {
            busy_until = some (start + airtime c frames bytes);
            frames = u64 (c.frames + u64 frames);
            airtime_ns = u64 (c.airtime_ns + u64 (airtime c frames bytes));
          }))
unfolding transmit start_at
transmit_lem now frames bytes c = ground arith

-- The medium in use from `begin` to `finish`.
pub record Span : Type 0 where
  pub begin : ℕ
  pub finish : ℕ

abbrev pub add_span : Option ℕ → ℕ → List Span → List Span
add_span none air spans = spans
add_span (some t) air spans = record { begin = t - air; finish = t } ∷ spans

-- The transmissions of a sequence of offers, by the instants that `transmit` returns.
unfoldable pub serve : List Offer → SharedChannel → List Span × SharedChannel
serve [] c = ([], c)
serve (o ∷ os) c =
    let (r, c') = transmit o.now o.frames o.bytes c in
    let (spans, end) = serve os c' in (add_span r (airtime c o.frames o.bytes) spans, end)

-- One after the other, the first not before `t`, the last ending by `u`.
abbrev pub Serial : ℕ → List Span → ℕ → Type 0
Serial t [] u = t ≤ u
Serial t (s ∷ ss) u = (t ≤ s.begin) × (s.begin ≤ s.finish) × Serial s.finish ss u

abbrev pub used : List Span → ℕ
used [] = 0
used (s ∷ ss) = (s.finish - s.begin) + used ss

serve-cons :
    (o : Offer) (os : List Offer) (c : SharedChannel)
    → let (r, c') = transmit o.now o.frames o.bytes c in
      serve (o ∷ os) c ≡ (add_span r (airtime c o.frames o.bytes) (serve os c').0, (serve os c').1)
unfolding serve
serve-cons o os c = refl

serve-nil : (c : SharedChannel) → serve [] c ≡ ([], c)
unfolding serve
serve-nil c = refl

-- Whatever is offered, and whenever, no two transmissions overlap: they follow one another in the
-- order of the offers, and the channel is free again when the last has finished.
pub serve-Serial :
    (os : List Offer) (c : SharedChannel)
    → Serial (free_at c) (serve os c).0 (free_at (serve os c).1)
serve-Serial [] c = rw serve-nil (omega arith)
serve-Serial (o ∷ os) c = elim (transmit_lem o.now o.frames o.bytes c) [
  | inl h ↦
      rw (serve-cons o os c, h.1, h.2)
        (serve-Serial os (record c { tail_drops = u64 (c.tail_drops + 1) }))
  | inr h ↦ rw (serve-cons o os c, h.1, h.2) (omega arith, omega arith, serve-Serial os _)
]

-- The counters account for every offer: the airtime is the time that the medium was in use, and
-- each offer was transmitted or is counted as a tail drop.
pub serve_counters :
    (os : List Offer) (c : SharedChannel)
    → let (spans, end) = serve os c in
      (u64 end.airtime_ns ≡ u64 (c.airtime_ns + used spans))
      × (u64 (end.tail_drops + length spans) ≡ u64 (c.tail_drops + length os))
serve_counters [] c = rw serve-nil (omega arith)
serve_counters (o ∷ os) c = elim (transmit_lem o.now o.frames o.bytes c) [
  | inl h ↦
      let c' = record c { tail_drops = u64 (c.tail_drops + 1) } in
      rw (serve-cons o os c, h.1, h.2) (omega (arith, serve_counters os c'))
  | inr h ↦
      let air = airtime c o.frames o.bytes in
      let c' = record c {
        busy_until = some (max o.now (free_at c) + air);
        frames = u64 (c.frames + u64 o.frames);
        airtime_ns = u64 (c.airtime_ns + u64 air);
      } in
      rw (serve-cons o os c, h.1, h.2) (omega (arith, serve_counters os c'))
]

used-le : (t u : ℕ) (ss : List Span) → Serial t ss u → t + used ss ≤ u
used-le t u [] h = omega arith
used-le t u (s ∷ ss) h = omega (arith, used-le s.finish u ss h.2)

-- The medium is never in use for longer than the time that has passed.
pub used-serve :
    (os : List Offer) (c : SharedChannel) → free_at c + used (serve os c).0 ≤ free_at (serve os c).1
used-serve os c = used-le _ _ _ (serve-Serial os c)
