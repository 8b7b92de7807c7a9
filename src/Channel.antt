-- ===== src/Channel.antt =====
-- The shared, airtime-serialised medium of crates/ndn-sim/src/shared_channel.rs.
--
-- Instants and durations are nanoseconds. `Duration` and `Instant` sums, which panic on overflow
-- in the source, are unbounded here; the 64-bit products and the counters wrap. The mutex and the
-- atomics are the threading of the state: a call of `transmit` is one step.
pub mod Airtime
mod Examples
use ndn_sim.Prelude.{
  ℕ, ◌+◌, ◌-◌, ◌*◌, ◌/◌, ◌%◌, Bool, List, [], ◌∷◌, Option, none, some, if◌then◌else◌, ltb, max, u64,
}

pub record SharedChannel : Type 0 where
  pub rate_bps : ℕ
  pub frame_overhead : ℕ
  pub max_backlog : ℕ
  -- When the medium is next free; `none` until the first frame.
  pub busy_until : Option ℕ
  pub frames : ℕ
  pub airtime_ns : ℕ
  pub tail_drops : ℕ

pub record ChannelStats : Type 0 where
  pub frames : ℕ
  pub airtime_ns : ℕ
  pub tail_drops : ℕ

-- `none` is the failed assertion on the rate.
pub new : ℕ → ℕ → Option SharedChannel
new rate_bps frame_overhead =
    if ltb 0 rate_bps
    then some (record {
      rate_bps = rate_bps;
      frame_overhead = frame_overhead;
      max_backlog = 200_000_000;
      busy_until = none;
      frames = 0;
      airtime_ns = 0;
      tail_drops = 0;
    })
    else none

pub wifi : Option SharedChannel
unfolding new
wifi = new 24_000_000 150_000

pub with_max_backlog : ℕ → SharedChannel → SharedChannel
with_max_backlog max_backlog c = record c { max_backlog = max_backlog }

pub stats : SharedChannel → ChannelStats
stats c = record { frames = c.frames; airtime_ns = c.airtime_ns; tail_drops = c.tail_drops }

-- `frames as u32` and the 64-bit products are cut as the source cuts them.
pub airtime : SharedChannel → ℕ → ℕ → ℕ
airtime c frames bytes =
    let serialisation = u64 (u64 (u64 bytes * 8) * 1_000_000_000) / c.rate_bps in
    c.frame_overhead * (frames % 4_294_967_296) + serialisation

-- When a datagram offered at `now` would start: when the medium is free, or at once.
pub start_at : Option ℕ → ℕ → ℕ
start_at none now = now
start_at (some t) now = if ltb now t then t else now

-- The instant at which the last frame finishes, or `none` for a tail drop.
pub transmit : ℕ → ℕ → ℕ → SharedChannel → Option ℕ × SharedChannel
transmit now frames bytes c =
    let air = airtime c frames bytes in
    let start = start_at c.busy_until now in
    if ltb c.max_backlog (start - now)
    then (none, record c { tail_drops = u64 (c.tail_drops + 1) })
    else (
      some (start + air),
      record c {
        busy_until = some (start + air);
        frames = u64 (c.frames + u64 frames);
        airtime_ns = u64 (c.airtime_ns + u64 air);
      },
    )
