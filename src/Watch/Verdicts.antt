-- ===== src/Watch/Verdicts.antt =====
-- What each verdict of the watchdog means, and that there is one.
use Prim.Native.String.{String}
use ndn_sim.Prelude.{
  ℕ, zero, suc, ◌+◌, ◌*◌, ◌≤◌, ◌<◌, ◌≡◌, ◌≢◌, refl, ◌⊎◌, inl, inr, List, some, arith, Returns,
}
use ndn_sim.Ledger.{Ledger, backlog, acks_total}
use ndn_sim.Watch.{Verdict, Watching, Look, tick_of, look, streak, watch_from, watch}
use ndn_sim.Watch.Quiet.{
  look_cases, IsQuiet, IsCalm, Means, Watched, IsQuiet-more, IsCalm-more, longest_suc, calm_quiet,
  moving_ends,
}

streak_zero : (blocks n : ℕ) → 0 < streak blocks n → blocks ≡ 0
streak_zero blocks n h = ground arith

module _ (acks blocks : ℕ → ℕ) (window n : ℕ) (w : Watching) where
  Watched-quiet :
      Watched acks blocks window n w
      → acks (suc n) ≡ w.last_acks
      → 0 < blocks (suc n)
      → w.idle + tick_of window < window
      → Watched acks blocks window (suc n) (record {
        idle = w.idle + tick_of window;
        spent = w.spent + tick_of window;
        last_acks = w.last_acks;
        zero_streak = streak (blocks (suc n)) w.zero_streak;
      })
  Watched-quiet i e b h = record {
    since = i.since;
    k = suc i.k;
    since_k = omega (arith, i.since_k);
    idle = omega (arith, i.idle);
    spent = omega (arith, i.spent);
    quiet =
        IsQuiet-more acks blocks i.since i.k w.last_acks i.quiet (rw i.since_k e) (rw i.since_k b);
    longest = longest';
    calm = IsCalm-more acks blocks window n i.calm (calm_quiet acks blocks window n w i h);
    zeros = λ z. (omega arith, streak_zero (blocks (suc n)) w.zero_streak z);
  }
    where
      longest' : (from k' a : ℕ) → from + k' ≡ suc n → IsQuiet acks blocks from k' a → k' ≤ suc i.k
      longest' from zero a s q = omega arith
      longest' from (suc k') a s q =
          omega (arith, longest_suc acks blocks window n w i from k' a s q)

  Watched-moving :
      Watched acks blocks window n w
      → ((acks (suc n) ≢ w.last_acks) ⊎ (blocks (suc n) ≡ 0))
      → Watched acks blocks window (suc n) (record {
        idle = 0;
        spent = w.spent + tick_of window;
        last_acks = acks (suc n);
        zero_streak = streak (blocks (suc n)) w.zero_streak;
      })
  Watched-moving i m = record {
    since = suc n;
    k = 0;
    since_k = omega arith;
    idle = omega arith;
    spent = omega (arith, i.spent);
    quiet = (refl, λ j lo hi. absurd (omega arith));
    longest = longest';
    calm =
        IsCalm-more acks blocks window n i.calm
          (λ from k' a s q. absurd (moving_ends acks blocks window n w i m from k' a s q));
    zeros = λ z. (omega arith, streak_zero (blocks (suc n)) w.zero_streak z);
  }
    where
      longest' : (from k' a : ℕ) → from + k' ≡ suc n → IsQuiet acks blocks from k' a → k' ≤ 0
      longest' from zero a s q = omega arith
      longest' from (suc k') a s q = absurd (moving_ends acks blocks window n w i m from k' a s q)

  IsCalm-budget :
      Watched acks blocks window n w
      → (((acks (suc n) ≢ w.last_acks) ⊎ (blocks (suc n) ≡ 0)) ⊎ (w.idle + tick_of window < window))
      → IsCalm acks blocks window (suc n)
  IsCalm-budget i (inl m) =
      IsCalm-more acks blocks window n i.calm
        (λ from k' a s q. absurd (moving_ends acks blocks window n w i m from k' a s q))
  IsCalm-budget i (inr h) =
      IsCalm-more acks blocks window n i.calm (calm_quiet acks blocks window n w i h)

module _ (seen : ℕ → Ledger) (replicas : List String) (window limit : ℕ) where
  abbrev pub acks_at : ℕ → ℕ
  acks_at n = acks_total (seen n)

  abbrev pub backlog_at : ℕ → ℕ
  backlog_at n = backlog replicas (seen n)

  watch_from-says :
      (fuel n : ℕ) (w : Watching) (v : Verdict)
      → look window limit (backlog_at (suc n)) (acks_at (suc n)) w ≡ Look.says v
      → watch_from seen replicas window limit (suc fuel) n w ≡ some v
  unfolding watch_from
  watch_from-says fuel n w v e = rw (watch_from, e) refl

  watch_from-goes_on :
      (fuel n : ℕ) (w w' : Watching)
      → look window limit (backlog_at (suc n)) (acks_at (suc n)) w ≡ Look.goes_on w'
      → watch_from seen replicas window limit (suc fuel) n w
        ≡ watch_from seen replicas window limit fuel (suc n) w'
  unfolding watch_from
  watch_from-goes_on fuel n w w' e = rw (watch_from, e) refl

  watch_from-Means :
      (fuel n : ℕ) (w : Watching)
      → Watched acks_at backlog_at window n w
      → 0 < fuel
      → limit ≤ w.spent + fuel * tick_of window
      → Returns
          (λ v. (m : ℕ) × Means acks_at backlog_at window limit m v)
          (watch_from seen replicas window limit fuel n w)
  watch_from-Means zero n w i pos enough = absurd (omega arith)
  watch_from-Means (suc fuel) n w i pos enough =
      elim (look_cases window limit (backlog_at (suc n)) (acks_at (suc n)) w) [
        | inl (e, z, s, a) ↦ rw (watch_from-says fuel n w _ e) (suc n, converged_at n i.zeros z s a)
        | inr (inl (e, a, b, h)) ↦ rw (watch_from-says fuel n w _ e) (
          suc n,
          (i.since, i.k, omega (arith, i.since_k), omega (arith, i.idle, h), stalled_at a b, refl),
        )
        | inr (inr (inl (e, h, c))) ↦ rw (watch_from-says fuel n w _ e) (
          suc n,
          (omega (arith, i.spent, h), IsCalm-budget acks_at backlog_at window n w i c, refl),
        )
        | inr (inr (inr (inl (e, a, b, h, l)))) ↦ rw (watch_from-goes_on fuel n w _ e) (
            watch_from-Means fuel (suc n) _ (Watched-quiet acks_at backlog_at window n w i a b h)
              (fuel_left fuel l enough) (omega (arith, enough)))
        | inr (inr (inr (inr (e, m, l)))) ↦ rw (watch_from-goes_on fuel n w _ e) (
            watch_from-Means fuel (suc n) _ (Watched-moving acks_at backlog_at window n w i m)
              (fuel_left fuel l enough) (omega (arith, enough)))
      ]
    where
      converged_at :
          (n : ℕ)
          → (0 < w.zero_streak → (0 < n) × (backlog_at n ≡ 0))
          → backlog_at (suc n) ≡ 0
          → 0 < w.zero_streak
          → 0 < acks_at (suc n)
          → Means acks_at backlog_at window limit (suc n) Verdict.converged
      converged_at zero zs z s a = absurd (omega (arith, (zs s).0))
      converged_at (suc m) zs z s a = (m, refl, (zs s).1, z, a)

      stalled_at :
          acks_at (suc n) ≡ w.last_acks
          → 0 < backlog_at (suc n)
          → IsQuiet acks_at backlog_at i.since (suc i.k) (acks_at (suc n))
      stalled_at a b = rw a (
          IsQuiet-more acks_at backlog_at i.since i.k w.last_acks i.quiet (rw i.since_k a)
            (rw i.since_k b))

      fuel_left :
          (f : ℕ)
          → w.spent + tick_of window < limit
          → limit ≤ w.spent + suc f * tick_of window
          → 0 < f
      fuel_left zero l h = absurd (omega (arith, l, h))
      fuel_left (suc f) l h = omega arith

  -- With fuel for its budget of ticks the watchdog always gives a verdict, and the verdict is true:
  -- `converged` after two ticks without a backlog and with some ack; `stalled` after a stretch as
  -- long as the window, up to that tick, with a backlog at each tick and not one ack; `budget` when
  -- the budget is spent and no such stretch has occurred at all.
  pub watch-Means :
      (fuel : ℕ)
      → 0 < fuel
      → limit ≤ fuel * tick_of window
      → Returns
          (λ v. (n : ℕ) × Means acks_at backlog_at window limit n v)
          (watch seen replicas window limit fuel)
  unfolding watch
  watch-Means fuel pos enough = watch_from-Means fuel 0 _ first pos (omega arith)
    where
      first :
          Watched acks_at backlog_at window 0
            (record { idle = 0; spent = 0; last_acks = acks_at 0; zero_streak = 0 })
      first = record {
        since = 0;
        k = 0;
        since_k = refl;
        idle = omega arith;
        spent = omega arith;
        quiet = (refl, λ j lo hi. absurd (omega arith));
        longest = λ from k' a s q. omega arith;
        calm = λ from k a s q. absurd (omega arith);
        zeros = λ z. absurd (omega arith);
      }
