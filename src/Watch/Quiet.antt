-- ===== src/Watch/Quiet.antt =====
-- One look of the watchdog, and the quiet stretches that it measures.
use ndn_sim.Prelude.{
  times_mono, ℕ, zero, suc, ◌+◌, ◌*◌, ◌≤◌, ◌<◌, ◌≡◌, ◌≢◌, sym, ap, ◌∙◌, ◌⊎◌, inl, inr, arith,
}
use ndn_sim.Watch.{Verdict, Watching, Look, tick_of, look, streak}

pub look_cases :
    (window limit blocks acks : ℕ) (w : Watching)
    → let r = look window limit blocks acks w in
      let tick = tick_of window in
      ((r ≡ Look.says Verdict.converged) × (blocks ≡ 0) × (0 < w.zero_streak) × (0 < acks))
      ⊎ ((r ≡ Look.says (Verdict.stalled blocks acks))
          × (acks ≡ w.last_acks)
          × (0 < blocks)
          × (window ≤ w.idle + tick))
      ⊎ ((r ≡ Look.says (Verdict.budget blocks))
          × (limit ≤ w.spent + tick)
          × (((acks ≢ w.last_acks) ⊎ (blocks ≡ 0)) ⊎ (w.idle + tick < window)))
      ⊎ ((r
            ≡ Look.goes_on (record {
              idle = w.idle + tick;
              spent = w.spent + tick;
              last_acks = w.last_acks;
              zero_streak = streak blocks w.zero_streak;
            }))
          × (acks ≡ w.last_acks)
          × (0 < blocks)
          × (w.idle + tick < window)
          × (w.spent + tick < limit))
      ⊎ ((r
            ≡ Look.goes_on (record {
              idle = 0;
              spent = w.spent + tick;
              last_acks = acks;
              zero_streak = streak blocks w.zero_streak;
            }))
          × ((acks ≢ w.last_acks) ⊎ (blocks ≡ 0))
          × (w.spent + tick < limit))
unfolding look
look_cases window limit blocks acks w = ground arith

pub tick_pos : (window : ℕ) → 0 < tick_of window
tick_pos window = ground arith

module _ (acks blocks : ℕ → ℕ) where
  -- From tick `from` on, for `k` more ticks, no ack came and there was a backlog.
  abbrev pub IsQuiet : ℕ → ℕ → ℕ → Type 0
  IsQuiet from k a =
      (acks from ≡ a) × ((j : ℕ) → from < j → j ≤ from + k → (acks j ≡ a) × (0 < blocks j))

  -- No such stretch that ends by tick `n` lasted for the window.
  abbrev pub IsCalm : ℕ → ℕ → Type 0
  IsCalm window n =
      (from k a : ℕ) → from + suc k ≤ n → IsQuiet from (suc k) a → suc k * tick_of window < window

  -- What a verdict at tick `n` says of the ticks so far.
  abbrev pub Means : ℕ → ℕ → ℕ → Verdict → Type 0
  Means window limit n Verdict.converged =
      (m : ℕ) × (n ≡ suc (suc m)) × (blocks (suc m) ≡ 0) × (blocks n ≡ 0) × (0 < acks n)
  Means window limit n (Verdict.stalled b a) =
      (from : ℕ) × (k : ℕ) × (from + suc k ≡ n)
      × (window ≤ suc k * tick_of window)
      × IsQuiet from (suc k) a
      × (b ≡ blocks n)
  Means window limit n (Verdict.budget b) =
      (limit ≤ n * tick_of window) × IsCalm window n × (b ≡ blocks n)

  -- The loop's invariant: the locals and the quiet stretch that ends at tick `n`.
  pub record Watched (window n : ℕ) (w : Watching) : Type 0 where
    pub since : ℕ
    pub k : ℕ
    pub since_k : since + k ≡ n
    pub idle : w.idle ≡ k * tick_of window
    pub spent : w.spent ≡ n * tick_of window
    pub quiet : IsQuiet since k w.last_acks
    pub longest : (from k' a : ℕ) → from + k' ≡ n → IsQuiet from k' a → k' ≤ k
    pub calm : IsCalm window n
    pub zeros : 0 < w.zero_streak → (0 < n) × (blocks n ≡ 0)

  pub IsQuiet-more :
      (from k a : ℕ)
      → IsQuiet from k a
      → acks (suc (from + k)) ≡ a
      → 0 < blocks (suc (from + k))
      → IsQuiet from (suc k) a
  IsQuiet-more from k a q e b =
      (q.0, λ j lo hi. elim (last j hi) [ inl h ↦ q.1 j lo h | inr h ↦ rw h (e, b) ])
    where
      last : (j : ℕ) → j ≤ from + suc k → (j ≤ from + k) ⊎ (j ≡ suc (from + k))
      last j h = ground arith

  IsQuiet-less : (from k a : ℕ) → IsQuiet from (suc k) a → IsQuiet from k a
  IsQuiet-less from k a q = (q.0, λ j lo hi. q.1 j lo (omega arith))

  quiet_end : (from k a : ℕ) → IsQuiet from k a → acks (from + k) ≡ a
  quiet_end from zero a q = rw (zero_add from) q.0
    where
      zero_add : (m : ℕ) → m + 0 ≡ m
      zero_add m = omega arith
  quiet_end from (suc k) a q = (q.1 (from + suc k) (omega arith) (omega arith)).0

  pub IsCalm-more :
      (window n : ℕ)
      → IsCalm window n
      → ((from k a : ℕ)
          → from + suc k ≡ suc n
          → IsQuiet from (suc k) a
          → suc k * tick_of window < window)
      → IsCalm window (suc n)
  IsCalm-more window n c h from k a e q = elim (last (from + suc k) e) [
    | inl l ↦ c from k a l q
    | inr l ↦ h from k a l q
  ]
    where
      last : (j : ℕ) → j ≤ suc n → (j ≤ n) ⊎ (j ≡ suc n)
      last j h = ground arith

  module _ (window n : ℕ) (w : Watching) (i : Watched window n w) where
    -- No stretch that ends one tick later is longer by more than that tick.
    pub longest_suc : (from k' a : ℕ) → from + suc k' ≡ suc n → IsQuiet from (suc k') a → k' ≤ i.k
    longest_suc from k' a e q = i.longest from k' a (omega arith) (IsQuiet-less from k' a q)

    pub calm_quiet :
        (w.idle + tick_of window < window)
        → (from k' a : ℕ) → from + suc k' ≡ suc n
        → IsQuiet from (suc k') a
        → suc k' * tick_of window < window
    calm_quiet h from k' a e q =
        omega (arith, i.idle, h, times_mono k' i.k (tick_of window) (longest_suc from k' a e q))

    pub moving_ends :
        ((acks (suc n) ≢ w.last_acks) ⊎ (blocks (suc n) ≡ 0))
        → (from k' a : ℕ) → from + suc k' ≡ suc n
        → IsQuiet from (suc k') a
        → ⊥
    moving_ends h from k' a e q =
        let at_n : from + k' ≡ n = omega arith in
        let now : from + suc k' ≡ suc n = e in
        let before = quiet_end from k' a (IsQuiet-less from k' a q) in
        let mine = quiet_end i.since i.k w.last_acks i.quiet in
        let same : w.last_acks ≡ a = sym mine ∙ ap acks (i.since_k ∙ sym at_n) ∙ before in
        let here' = q.1 (suc n) (omega arith) (omega arith) in
        elim h [ inl f ↦ f (here'.0 ∙ sym same) | inr z ↦ omega (arith, here'.1, z) ]
