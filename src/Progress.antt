-- ===== src/Progress.antt =====
-- The progress watchdog of crates/ndn-sim/src/fieldkit.rs.
--
-- The worker runs while the watchdog sleeps: `seen n` is the counter after its n-th sleep. Durations
-- are nanoseconds. The loop takes fuel, one unit a tick, and `none` means that the fuel ran out.
pub mod Stall
mod Examples
use ndn_sim.Prelude.{
  ℕ, zero, suc, ◌+◌, Bool, true, false, Option, none, some, if◌then◌else◌, leb, ◌==◌, u64,
}
use ndn_sim.Watch.{tick_of}

-- The counter that a worker and the watchdog share.
pub new : ℕ
new = 0

pub incr : ℕ → ℕ
incr count = u64 (count + 1)

pub data CatchupOutcome : Type 0 where
  reached : ℕ → CatchupOutcome
  stalled : ℕ → CatchupOutcome

pub is_stalled : CatchupOutcome → Bool
is_stalled (CatchupOutcome.reached n) = false
is_stalled (CatchupOutcome.stalled at) = true

-- One run of the loop's body: an outcome, or `last` and `idle` for the next one.
pub data Look : Type 0 where
  ends : CatchupOutcome → Look
  goes_on : ℕ → ℕ → Look

pub look : ℕ → ℕ → ℕ → ℕ → ℕ → Look
look target stall_window now last idle =
    let idle' = idle + tick_of stall_window in
    if leb target now
    then ends (CatchupOutcome.reached now)
    else if now == last
    then (if leb stall_window idle' then ends (CatchupOutcome.stalled now) else goes_on last idle')
    else goes_on now 0

module _ (seen : ℕ → ℕ) (target stall_window : ℕ) where
  pub drive_from : ℕ → ℕ → ℕ → ℕ → Option CatchupOutcome
  unfolding look
  drive_from zero n last idle = none
  drive_from (suc fuel) n last idle = elim (look target stall_window (seen (suc n)) last idle) [
    | ends outcome ↦ some outcome
    | goes_on last' idle' ↦ drive_from fuel (suc n) last' idle'
  ]

  pub drive_until_or_stall : ℕ → Option CatchupOutcome
  unfolding drive_from
  drive_until_or_stall fuel = drive_from fuel 0 (seen 0) 0
