-- ===== src/Progress/Stall.antt =====
-- The progress watchdog always ends, and says the truth.
use ndn_sim.Prelude.{
  ℕ, zero, suc, ◌+◌, ◌-◌, ◌*◌, ◌≤◌, ◌<◌, ◌≡◌, ◌≢◌, refl, sym, ap, ◌∙◌, ◌⊎◌, inl, inr, subst, some,
  arith, times_mono, Returns,
}
use ndn_sim.Watch.{tick_of}
use ndn_sim.Progress.{CatchupOutcome, Look, look, drive_from, drive_until_or_stall}

look_cases :
    (target window now last idle : ℕ)
    → let r = look target window now last idle in
      let idle' = idle + tick_of window in
      ((r ≡ Look.ends (CatchupOutcome.reached now)) × (target ≤ now))
      ⊎ ((r ≡ Look.ends (CatchupOutcome.stalled now))
          × (now < target)
          × (now ≡ last)
          × (window ≤ idle'))
      ⊎ ((r ≡ Look.goes_on last idle') × (now < target) × (now ≡ last) × (idle' < window))
      ⊎ ((r ≡ Look.goes_on now 0) × (now < target) × (now ≢ last))
unfolding look
look_cases target window now last idle = ground arith

module _ (seen : ℕ → ℕ) (target window : ℕ) where
  drive_from-ends :
      (fuel n last idle : ℕ) (o : CatchupOutcome)
      → look target window (seen (suc n)) last idle ≡ Look.ends o
      → drive_from seen target window (suc fuel) n last idle ≡ some o
  unfolding drive_from
  drive_from-ends fuel n last idle o e = rw (drive_from, e) refl

  drive_from-goes_on :
      (fuel n last idle last' idle' : ℕ)
      → look target window (seen (suc n)) last idle ≡ Look.goes_on last' idle'
      → drive_from seen target window (suc fuel) n last idle
        ≡ drive_from seen target window fuel (suc n) last' idle'
  unfolding drive_from
  drive_from-goes_on fuel n last idle last' idle' e = rw (drive_from, e) refl

  -- The counter stood at `a` from tick `from` on, for `k` more ticks.
  abbrev pub IsFrozen : ℕ → ℕ → ℕ → Type 0
  IsFrozen from k a = (j : ℕ) → from ≤ j → j ≤ from + k → seen j ≡ a

  -- What an outcome at tick `n` says.
  abbrev pub Means : ℕ → CatchupOutcome → Type 0
  Means n (CatchupOutcome.reached v) = (v ≡ seen n) × (target ≤ v)
  Means n (CatchupOutcome.stalled a) =
      (a < target)
      × ((from : ℕ) × (k : ℕ) × (from + k ≡ n) × (window ≤ k * tick_of window) × IsFrozen from k a)

  IsFrozen-more :
      (from k a : ℕ) → IsFrozen from k a → seen (suc (from + k)) ≡ a → IsFrozen from (suc k) a
  IsFrozen-more from k a q e j lo hi = elim (last j hi) [ inl h ↦ q j lo h | inr h ↦ rw h e ]
    where
      last : (j : ℕ) → j ≤ from + suc k → (j ≤ from + k) ⊎ (j ≡ suc (from + k))
      last j h = ground arith

  -- `span` ticks last for the window.
  drive_from-Means :
      (span : ℕ)
      → window ≤ span * tick_of window
      → ((n : ℕ) → seen n ≤ seen (suc n))
      → (fuel from k last : ℕ) → k < span
      → IsFrozen from k last
      → last < target
      → (target - last) * span + (span - k) < suc fuel
      → Returns
          (λ o. (n : ℕ) × Means n o)
          (drive_from seen target window fuel (from + k) last (k * tick_of window))
  drive_from-Means span wide up zero from k last h q low enough = absurd (omega arith)
  drive_from-Means span wide up (suc fuel) from k last h q low enough =
      elim (look_cases target window (seen (suc (from + k))) last (k * tick_of window)) [
        | inl (e, r) ↦ rw (drive_from-ends fuel (from + k) last _ _ e) (suc (from + k), (refl, r))
        | inr (inl (e, l, s, w)) ↦ rw (drive_from-ends fuel (from + k) last _ _ e) (
          suc (from + k),
          (
            l,
            (
              from,
              suc k,
              omega arith,
              omega (arith, w),
              IsFrozen-more from k (seen (suc (from + k))) (λ j lo hi. q j lo hi ∙ sym s) refl,
            ),
          ),
        )
        | inr (inr (inl (e, l, s, w))) ↦ rw (drive_from-goes_on fuel (from + k) last _ _ _ e) (
            quiet (
              drive_from-Means span wide up fuel from (suc k) last (still_short w)
                (IsFrozen-more from k last q s) low (omega (arith, enough, h))))
        | inr (inr (inr (e, l, s))) ↦ rw (drive_from-goes_on fuel (from + k) last _ _ _ e) (
            moved (
              drive_from-Means span wide up fuel (suc (from + k)) 0 (seen (suc (from + k)))
                (omega (arith, h)) (λ j lo hi. ap seen (omega (arith, lo, hi))) l
                (fewer s (times_mono (suc (target - seen (suc (from + k)))) (target - last) span))))
      ]
    where
      out : CatchupOutcome → Type 0
      out o = (n : ℕ) × Means n o

      quiet :
          Returns out
            (drive_from seen target window fuel (from + suc k) last (suc k * tick_of window))
          → Returns out (
              drive_from seen target window fuel
                (suc (from + k))
                last
                (k * tick_of window + tick_of window))
      quiet r =
          let n_eq : from + suc k ≡ suc (from + k) = omega arith in
          let t_eq : suc k * tick_of window ≡ k * tick_of window + tick_of window = omega arith in
          rw (sym n_eq, sym t_eq) r

      moved :
          Returns out (
            drive_from seen target window fuel
              (suc (from + k) + 0)
              (seen (suc (from + k)))
              (0 * tick_of window))
          → Returns out
              (drive_from seen target window fuel (suc (from + k)) (seen (suc (from + k))) 0)
      moved r =
          let n_eq : suc (from + k) + 0 ≡ suc (from + k) = omega arith in
          let t_eq : 0 * tick_of window ≡ 0 = omega arith in
          subst (λ m. Returns out (drive_from seen target window fuel m (seen (suc (from + k))) 0))
            n_eq
            (subst
              (λ t.
                Returns out (
                  drive_from seen target window fuel (suc (from + k) + 0) (seen (suc (from + k)))
                    t))
              t_eq r)

      still_short : k * tick_of window + tick_of window < window → suc k < span
      still_short w = elim (order (suc k) span) [
        | inl s ↦ s
        | inr s ↦ absurd (omega (arith, times_mono span (suc k) (tick_of window) s, wide, w))
      ]
        where
          order : (a b : ℕ) → (a < b) ⊎ (b ≤ a)
          order a b = omega arith

      fewer :
          seen (suc (from + k)) ≢ last
          → (suc (target - seen (suc (from + k))) ≤ target - last
              → suc (target - seen (suc (from + k))) * span ≤ (target - last) * span)
          → (target - seen (suc (from + k))) * span + (span - 0) < suc fuel
      fewer s m =
          let before : seen (from + k) ≡ last = q (from + k) (omega arith) (omega arith) in
          let grows : last < seen (suc (from + k)) =
            strictly (seen (from + k)) (seen (suc (from + k))) before (up (from + k)) s in
          omega (arith, enough, h, m (omega (arith, grows, low)))
        where
          strictly : (a b : ℕ) → a ≡ last → a ≤ b → b ≢ last → last < b
          strictly a b e le ne = ground arith

  -- A counter that starts below the target and never falls makes the watchdog end, and its outcome
  -- is true: `reached` with the
  -- counter at that tick, which is at the target; `stalled` below the target, after the counter has
  -- stood still for the window. Where `span` ticks last for the window, the fuel
  -- allows each step of the counter towards the target a whole span.
  pub drive_until_or_stall-Means :
      (span fuel : ℕ)
      → window ≤ span * tick_of window
      → 0 < span
      → ((n : ℕ) → seen n ≤ seen (suc n))
      → seen 0 < target
      → (target - seen 0) * span + span < suc fuel
      → Returns (λ o. (n : ℕ) × Means n o) (drive_until_or_stall seen target window fuel)
  unfolding drive_until_or_stall
  drive_until_or_stall-Means span fuel wide pos up low enough = start (
      drive_from-Means span wide up fuel 0 0 (seen 0) pos (λ j lo hi. ap seen (omega (arith, hi)))
        low (omega (arith, enough)))
    where
      start :
          Returns
            (λ o. (n : ℕ) × Means n o)
            (drive_from seen target window fuel (0 + 0) (seen 0) (0 * tick_of window))
          → Returns (λ o. (n : ℕ) × Means n o) (drive_from seen target window fuel 0 (seen 0) 0)
      start r =
          let t_eq : 0 * tick_of window ≡ 0 = omega arith in
          subst
            (λ t.
              Returns (λ o. (n : ℕ) × Means n o) (drive_from seen target window fuel 0 (seen 0) t))
            t_eq r
