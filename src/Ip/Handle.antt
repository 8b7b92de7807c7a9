-- ===== src/Ip/Handle.antt =====
-- What a node of crates/ndn-sim-studies/src/ip.rs does with a packet, on every path of `handle`.
use ndn_sim.Prelude.{
  none, ◌++◌, ℕ, ◌+◌, ◌-◌, ◌≤◌, ◌≡◌, ◌≢◌, Bool, true, false, List, [], ◌∷◌, some, u64, length, All,
}
use ndn_sim.Ip.{IpNode, IpPacket, Sent, encode, lpm}

-- A counter goes up by one, in 64 bits, or stays.
abbrev pub bump : Bool → ℕ → ℕ
bump true x = u64 (x + 1)
bump false x = x

-- Which counters have gone up: packets delivered, passed on, dropped for want of a route, and dropped
-- for their time to live.
abbrev pub Tally : Bool → Bool → Bool → Bool → IpNode → IpNode → Type 0
Tally delivered forwarded no_route ttl node node' =
    (node'.delivered ≡ bump delivered node.delivered)
    × (node'.forwarded ≡ bump forwarded node.forwarded)
    × (node'.dropped_no_route ≡ bump no_route node.dropped_no_route)
    × (node'.dropped_ttl ≡ bump ttl node.dropped_ttl)

-- What sending changes, and the frame it gives to a face, if any.
record IsSent (via : ℕ) (pkt : IpPacket) (node node' : IpNode) (sent : List Sent) : Type 0 where
  addr : node'.addr ≡ node.addr
  faces : node'.faces ≡ node.faces
  routes : node'.routes ≡ node.routes
  replies : node'.replies ≡ node.replies
  count : Tally false false false false node node'
  one : length sent ≤ 1
  frames : All (λ f. (f.via ≡ via) × (f.wire ≡ encode pkt)) sent

-- Each frame is the packet, on the face that the routes have for the address.
abbrev pub GoesTo : IpNode → ℕ → IpPacket → List Sent → Type 0
GoesTo node dst pkt sent =
    All (λ f. (lpm node.routes dst ≡ some f.via) × (f.wire ≡ encode pkt)) sent

-- What handling a packet at the time `now` changes.
pub record IsHandled (now : ℕ) (pkt : IpPacket) (node node' : IpNode) (sent : List Sent)
    : Type 0 where
  pub addr : node'.addr ≡ node.addr
  pub faces : node'.faces ≡ node.faces
  pub routes : node'.routes ≡ node.routes
  pub one : length sent ≤ 1
  -- A reply to this node is kept for its pinger, and a request is echoed.
  pub kept :
      pkt.dst ≡ node.addr
      → pkt.reply ≡ true
      → Tally true false false false node node'
        × (node'.replies ≡ node.replies ++ (pkt.seq, now, length pkt.payload) ∷ [])
        × (sent ≡ [])
  pub echoed :
      pkt.dst ≡ node.addr
      → pkt.reply ≡ false
      → Tally true false false false node node'
        × (node'.replies ≡ node.replies)
        × GoesTo node pkt.src
            (record pkt { src = node.addr; dst = pkt.src; ttl = 64; reply = true })
            sent
  -- A packet to another node is dropped or passed on.
  pub expired :
      pkt.dst ≢ node.addr
      → pkt.ttl ≤ 1
      → Tally false false false true node node' × (node'.replies ≡ node.replies) × (sent ≡ [])
  pub unrouted :
      pkt.dst ≢ node.addr
      → 2 ≤ pkt.ttl
      → lpm node.routes pkt.dst ≡ none
      → Tally false false true false node node' × (node'.replies ≡ node.replies) × (sent ≡ [])
  pub passed_on :
      (via : ℕ)
      → pkt.dst ≢ node.addr
      → 2 ≤ pkt.ttl
      → lpm node.routes pkt.dst ≡ some via
      → Tally false true false false node node'
        × (node'.replies ≡ node.replies)
        × GoesTo node pkt.dst (record pkt { ttl = pkt.ttl - 1 }) sent
