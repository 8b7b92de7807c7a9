-- ===== src/Lib.antt =====
-- A model of the core of ndn-sim, the simulation hub of real NDN forwarders, and its theorems.
--
-- The program. A simulation runs forwarders on a pluggable time kernel. The deterministic kernel is
-- a single-threaded executor with an event queue and a virtual clock (crates/ndn-sim/src/des.rs);
-- links between nodes may share one radio medium (crates/ndn-sim/src/shared_channel.rs); a scenario's
-- graph is written by hand or by a generator (crates/ndn-sim/src/topo.rs).
-- The clock of a node may be wrong (crates/ndn-sim/src/clock_skew.rs), a fabric can be advanced by hand
-- at a prompt (crates/ndn-sim/src/stepper.rs), and its traffic is counted by the prefix of the names
-- (crates/ndn-sim/src/netstat.rs). Routing studies compare protocols on the same graphs
-- (crates/ndn-sim-studies/src/routing.rs), and an IP network on the same links is the baseline to compare
-- with (crates/ndn-sim-studies/src/ip.rs).
-- A conformance suite has a merge rule of its own (crates/ndn-data-conformance/src/element.rs) by
-- which devices merge the concurrent versions of one element.
--
-- The files.
--   Prelude: names and lemmas that the components share; Prelude/Words has Rust's 64-bit arithmetic.
--   Des: crates/ndn-sim/src/des.rs. `Inner` is the executor's state; `spawn`, `wake`, `sleep_poll`,
--     `poll_ready`, `advance_to_next_event`, `drive_until`, `step`, `run_until` and `block_on` are the
--     functions of those names. Its children prove: Timers the order of the queue, Slots the
--     well-formedness of the state, Loop one turn of the polling loop, Clock what a jump does,
--     Deadline when sleeps fire, Work a measure of what is left to do, Session that the loops end.
--   Stepper: crates/ndn-sim/src/stepper.rs and the prompt `cmd_step` of crates/ndn-sim/src/bin/ndn-lab.rs;
--     Clock proves where its commands leave the clock.
--   Skew: crates/ndn-sim/src/clock_skew.rs; Reading proves what a skewed clock can read.
--   Channel: crates/ndn-sim/src/shared_channel.rs; Airtime proves what the medium promises.
--   Ledger: the ledger of crates/ndn-sim/src/liveness.rs, what a cell authored, stored, acked and
--     reported; Backlog and Poison prove what its two readings, `backlog` and `invariants`, say.
--   Watch: the watchdog `watch` of the same file, which reads the ledger tick by tick; Quiet has the
--     stretches without progress, Verdicts what each verdict means.
--   Catchup: the consumer `ledgered_catchup` of the same file, `process_update` and `ingest_one`; Tasks
--     has the ways in which a piece of it ends, Uncut that none is cut without a deadline, Windows
--     that windows change nothing, Reports and Authentic what the ledger then holds.
--   Progress: the counter and `drive_until_or_stall` of crates/ndn-sim/src/fieldkit.rs; Stall proves
--     that it ends and what its outcome means.
--   Element: the data of the element rule in crates/ndn-data-conformance/src/element.rs; Digest has
--     its hexadecimal, Text its splices.
--   Merge: the rule itself: the applied versions, their locks and `order`; Value has `merged`, Rule the
--     engine's calls `check`, `apply` and `now_counted`. Order proves the order, Value/Concurrent what
--     the alternatives of a slot are, Rule/Refusals what passes the check, Rule/Counts what applying
--     keeps.
--   Topo: crates/ndn-sim/src/topo.rs; Shape, Count and Connected prove what the generators
--     make. Topo/Routes is its `add_routes_toward`: Search, Reach and Loop follow the search, Shortest
--     proves the routes. Topo/Random is its `random`: Forest and Find prove its union-find, Joined the
--     network.
--   Routing: crates/ndn-sim-studies/src/routing.rs: the view of a topology and `mpr_set`; Choice and
--     TwoHop have its sets and the choice of a relay, Cover what the relays reach. Routing/Dijkstra is
--     `dijkstra_table` and `compute` of the protocol ShortestPath: State, Relax, Pop and Loop follow the
--     search, Shortest the table; View has the links of a view. Routing/DistanceVector is `compute` of
--     the protocol DistanceVector: Sound, Rounds and Known follow its rounds, Simple has the walks they need,
--     Agree compares the two protocols.
--   Ip: the IP baseline of crates/ndn-sim-studies/src/ip.rs: `in_prefix`, `encode`, `decode`, `lpm`,
--     `send_on` and `handle` are the functions of those names, `IpNode` is `Inner`. Packet, Prefix,
--     Lpm and Handle are about packets, prefixes, lookups and what a node does with a packet. Ip/Network is `from_links_with`, with
--     `relay` for what becomes of a frame and `ping` for one round of `flow_loop`, whose wait is
--     `await_reply`; the links' delay and loss are the parameter `transit`. Wired and Tables follow its
--     faces and its routes, Ready, Steps and Delivery a packet from node to node, Await the wait,
--     Connected puts them together.
--   Netstat: crates/ndn-sim/src/netstat.rs; Bytes is about what its counters add up to.
--
-- Fuel. `poll_ready` takes one unit a turn, and the loops over it one unit a round. A future is code
-- outside the model, the parameter `poll`, and may wake itself for ever; where each poll causes and
-- leaves no more work than its future had (`IsBounded`), the measure of Des/Work falls with every
-- turn and every jump, so that fuel above it is enough. `watch` takes one
-- unit a tick, and its budget divided by the tick is enough; so does `drive_until_or_stall`, which
-- needs at most a whole window for each step of its counter. `process_update` gives its loop over
-- the windows two units more than the last block's number. The search for routes has two units more
-- than the nodes, as a node enters its queue once; the two loops of `find` have one more than the
-- nodes, as the way to a root is no longer than the unions done. The loop of `mpr_set` has one
-- more than the two-hop neighbours, as each relay reaches one of them that the others do not.
-- Dijkstra's search has two units more than the links, as a link adds an entry to the heap once.
-- The rounds of the distance vectors are as many as the nodes, in the source as well.
-- `relay` takes one unit a link, and a request and its reply each go by the links of a shortest walk.
-- `classify` has one more than the length of its packet, as a packet inside it is shorter.
--
-- Not modelled: the forwarder and its packets (the sibling repositories), the async runtime's own
-- kernels, floating-point models of radio, files, sockets and serialisation.
mod Prelude
pub mod Des
pub mod Stepper
pub mod Channel
pub mod Topo
pub mod Routing
pub mod Ip
pub mod Netstat
pub mod Skew
pub mod Ledger
pub mod Watch
pub mod Catchup
pub mod Progress
pub mod Element
pub mod Merge
