-- ===== src/Watch.antt =====
-- The liveness watchdog of crates/ndn-sim/src/liveness.rs.
--
-- The other tasks run while the watchdog sleeps, so that the ledger it reads is an input: `seen n`
-- is the ledger after its n-th sleep, `seen 0` the one at the call. Durations are nanoseconds and
-- unbounded, where `Duration` panics beyond 2^64 seconds; the streak wraps at 32 bits. The loop
-- takes fuel, one unit a tick, and `none` means that the fuel ran out.
pub mod Quiet
pub mod Verdicts
mod Examples
use Prim.Native.String.{String}
use ndn_sim.Prelude.{
  ℕ, zero, suc, ◌+◌, ◌/◌, ◌%◌, Bool, true, false, ◌&&◌, List, Option, none, some, if◌then◌else◌,
  ltb, leb, ◌==◌, max,
}
use ndn_sim.Ledger.{Ledger, backlog, acks_total}

pub data Verdict : Type 0 where
  converged : Verdict
  stalled : ℕ → ℕ → Verdict
  budget : ℕ → Verdict

-- The locals of the loop.
pub record Watching : Type 0 where
  pub idle : ℕ
  pub spent : ℕ
  pub last_acks : ℕ
  pub zero_streak : ℕ

-- One run of the loop's body: a verdict, or the locals for the next one.
pub data Look : Type 0 where
  says : Verdict → Look
  goes_on : Watching → Look

-- A tenth of the window, and 10 ms at least.
abbrev pub tick_of : ℕ → ℕ
tick_of stall_window = max (stall_window / 10) 10_000_000

abbrev pub streak : ℕ → ℕ → ℕ
streak blocks n = if blocks == 0 then (n + 1) % 4_294_967_296 else 0

pub look : ℕ → ℕ → ℕ → ℕ → Watching → Look
look stall_window limit blocks acks w =
    let tick = tick_of stall_window in
    let spent = w.spent + tick in
    let zeros = streak blocks w.zero_streak in
    let idle = w.idle + tick in
    if (blocks == 0) && (leb 2 zeros && ltb 0 acks)
    then says converged
    else if (acks == w.last_acks) && ltb 0 blocks
    then (if leb stall_window idle
        then says (stalled blocks acks)
        else if leb limit spent
        then says (budget blocks)
        else goes_on
            (record { idle = idle; spent = spent; last_acks = w.last_acks; zero_streak = zeros }))
    else if leb limit spent
    then says (budget blocks)
    else goes_on (record { idle = 0; spent = spent; last_acks = acks; zero_streak = zeros })

module _ (seen : ℕ → Ledger) (replicas : List String) (stall_window limit : ℕ) where
  -- The loop after `n` sleeps.
  pub watch_from : ℕ → ℕ → Watching → Option Verdict
  watch_from zero n w = none
  watch_from (suc fuel) n w =
      let l = seen (suc n) in
      elim (look stall_window limit (backlog replicas l) (acks_total l) w) [
        | says v ↦ some v
        | goes_on w' ↦ watch_from fuel (suc n) w'
      ]

  pub watch : ℕ → Option Verdict
  unfolding watch_from
  watch fuel =
      watch_from fuel 0
        (record { idle = 0; spent = 0; last_acks = acks_total (seen 0); zero_streak = 0 })
