-- ===== src/Channel/Examples.antt =====
-- Runs of the shared channel, the source's own test among them.
use ndn_sim.Prelude.{length, ◌+◌, ◌≡◌, refl, List, [], ◌∷◌, none, some, u64}
use ndn_sim.Channel.{SharedChannel, airtime, start_at, transmit}
use ndn_sim.Channel.Airtime.{Offer, free_at, used, serve, serve_counters, Serial, serve-Serial}

-- 8 Mbit/s, 100 µs a frame, 2 ms of backlog.
abbrev cell : SharedChannel
cell = record {
  rate_bps = 8_000_000;
  frame_overhead = 100_000;
  max_backlog = 2_000_000;
  busy_until = none;
  frames = 0;
  airtime_ns = 0;
  tail_drops = 0;
}

abbrev kilobyte : Offer
kilobyte = record { now = 0; frames = 1; bytes = 1000 }

abbrev offers : List Offer
offers = kilobyte ∷ kilobyte ∷ kilobyte ∷ []

two_then_drop : serve offers cell ≡ (
  record { begin = 0; finish = 1_100_000 } ∷ record { begin = 1_100_000; finish = 2_200_000 } ∷ [],
  record cell { busy_until = some 2_200_000; frames = 2; airtime_ns = 2_200_000; tail_drops = 1 },
)
unfolding serve transmit airtime start_at
two_then_drop = refl

serve_counters_example :
    let (spans, end) = serve offers cell in
    (u64 end.airtime_ns ≡ u64 (cell.airtime_ns + used spans))
    × (u64 (end.tail_drops + length spans) ≡ u64 (cell.tail_drops + length offers))
serve_counters_example = serve_counters offers cell

serve-Serial_example : Serial (free_at cell) (serve offers cell).0 (free_at (serve offers cell).1)
serve-Serial_example = serve-Serial offers cell
