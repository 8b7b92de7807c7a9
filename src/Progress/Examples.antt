-- ===== src/Progress/Examples.antt =====
-- A worker that gets there, and one that freezes.
use ndn_sim.Prelude.{ℕ, suc, ◌≤◌, ◌≡◌, refl, min, some, arith, Returns}
use ndn_sim.Progress.{CatchupOutcome, look, drive_from, drive_until_or_stall}
use ndn_sim.Progress.Stall.{Means, drive_until_or_stall-Means}

-- Counts up to 3 and freezes there.
abbrev worker : ℕ → ℕ
worker n = min n 3

gets_there : drive_until_or_stall worker 3 20_000_000 100 ≡ some (CatchupOutcome.reached 3)
unfolding drive_until_or_stall drive_from look
gets_there = refl

freezes : drive_until_or_stall worker 9 20_000_000 100 ≡ some (CatchupOutcome.stalled 3)
unfolding drive_until_or_stall drive_from look
freezes = refl

worker_up : (n : ℕ) → worker n ≤ worker (suc n)
worker_up n = omega arith

drive_until_or_stall-Means_example :
    Returns
      (λ o. (n : ℕ) × Means worker 9 20_000_000 n o)
      (drive_until_or_stall worker 9 20_000_000 100)
drive_until_or_stall-Means_example =
    drive_until_or_stall-Means worker 9 20_000_000 2 100 (omega arith) (omega arith) worker_up
      (omega arith) (omega arith)
