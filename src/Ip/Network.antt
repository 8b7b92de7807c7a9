-- ===== src/Ip/Network.antt =====
-- `IpNetwork::from_links_with` of crates/ndn-sim-studies/src/ip.rs: the nodes, their faces and their
-- routes; and one round of `flow_loop`. What the links do with a frame, its delay and its loss, is a
-- parameter. An index out of range, a panic there, is `none`, and so is fuel that has run out.
mod Wired
mod Tables
mod Ready
mod Kept
mod Steps
mod Await
mod Delivery
mod Connected
mod Examples
use ndn_sim.Prelude.{
  true, ◌-◌, ltb, ℕ, zero, suc, ◌+◌, ◌%◌, Bool, false, List, [], ◌∷◌, ◌++◌, map, Option, none, some,
  ◌>>=◌, if◌then◌else◌, ◌==◌, get_elem?, set, range,
}
use ndn_sim.Routing.{TopologyView, from_links}
use ndn_sim.Routing.Dijkstra.{RouteEntry}
use ndn_sim.Ip.{
  IpNode, IpPacket, LoraTx, Sent, ipv4, new_node, attach, add_route, receive, lpm, send_on,
}

-- The address of node `i`, 10.0.0.(i + 1).
abbrev pub address : ℕ → ℕ
address i = ipv4 10 0 0 ((i + 1) % 256)

-- The nodes so far; for each, its neighbours with the face to each, the newest first; and the node at
-- the other end of each of its faces.
pub record Wiring : Type 0 where
  pub nodes : List IpNode
  pub face_to : List (List (ℕ × ℕ))
  pub ends : List (List ℕ)

-- `face_to[a].insert(b, builders[a].attach(fa))`.
unfoldable pub attach_to : ℕ → ℕ → Wiring → Option Wiring
attach_to a b s = do
  node ← get_elem? s.nodes a
  tos ← get_elem? s.face_to a
  far ← get_elem? s.ends a
  some (record {
    nodes = set s.nodes a (attach node).0;
    face_to = set s.face_to a ((b, (attach node).1) ∷ tos);
    ends = set s.ends a (far ++ b ∷ []);
  })

unfoldable pub wire_links : List (ℕ × ℕ) → Wiring → Option Wiring
wire_links [] s = some s
wire_links ((a, b) ∷ links) s = do s1 ← attach_to a b s; s2 ← attach_to b a s1; wire_links links s2

-- `face_to[u].get(v)`.
abbrev pub face_of : List (ℕ × ℕ) → ℕ → Option ℕ
face_of [] v = none
face_of ((x, i) ∷ tos) v = if x == v then some i else face_of tos v

unfoldable pub install : List (ℕ × ℕ) → List ℕ → List RouteEntry → IpNode → Option IpNode
install tos addrs [] node = some node
install tos addrs (e ∷ es) node = elim (face_of tos e.next_hop) [
  | none ↦ install tos addrs es node
  | some via ↦ elim (get_elem? addrs e.dest) [
    | none ↦ none
    | some addr ↦ install tos addrs es (add_route addr 32 via node)
  ]
]

-- The loop over the tables.
unfoldable pub install_all :
    List (List (ℕ × ℕ)) → List ℕ → List (List RouteEntry) → List IpNode → Option (List IpNode)
install_all face_to addrs [] nodes = some nodes
install_all face_to addrs (table ∷ tables) [] = none
install_all [] addrs (table ∷ tables) (node ∷ nodes) = none
install_all (tos ∷ face_to) addrs (table ∷ tables) (node ∷ nodes) = do
  node' ← install tos addrs table node
  nodes' ← install_all face_to addrs tables nodes
  some (node' ∷ nodes')

abbrev pub start_wiring : ℕ → Wiring
start_wiring n = record {
  nodes = map (λ i. new_node (address i)) (range 0 n);
  face_to = map (λ i. []) (range 0 n);
  ends = map (λ i. []) (range 0 n);
}

unfoldable pub from_links_with :
    (TopologyView → Option (List (List RouteEntry))) → ℕ → List (ℕ × ℕ) → Option Wiring
from_links_with algo n links = do
  s ← wire_links links (start_wiring n)
  view ← from_links n links
  tables ← algo view
  nodes ← install_all s.face_to (map address (range 0 n)) tables s.nodes
  some (record s { nodes = nodes })

abbrev pub request : IpNode → ℕ → ℕ → List ℕ → IpPacket
request node dst seq payload = record {
  src = node.addr;
  dst = dst;
  ttl = 64;
  reply = false;
  seq = seq;
  payload = payload;
}

-- How a request ends: with the time it took and the length of the reply, or without one.
pub data Answer : Type 0 where
  received : ℕ → ℕ → Answer
  lost : Answer

-- A link takes a frame from a node to another: whether it arrives, and the world at that instant.
module _ {W : Type 0} (unix_nanos : W → ℕ) (begin_tx : ℕ → ℕ → W → LoraTx × W) (sleep : ℕ → W → W)
    (resolve : ℕ → ℕ → ℕ → W → Bool × W) (transit : ℕ → ℕ → List ℕ → W → Bool × W) where
  -- A frame that reaches node `u`, and what is sent in answer to it, to the end.
  unfoldable pub relay : ℕ → ℕ → List ℕ → Wiring → W → Option (Wiring × W)
  relay zero u bytes s w = none
  relay (suc fuel) u bytes s w = do
    node ← get_elem? s.nodes u
    let (node', w', sent) = receive unix_nanos begin_tx sleep resolve bytes node w
    let s' = record s { nodes = set s.nodes u node' }
    elim sent [
      | [] ↦ some (s', w')
      | f ∷ fs ↦ get_elem? s.ends u >>= λ far. get_elem? far f.via >>= λ v.
          elim (transit u v f.wire w').0 [
            | false ↦ some (s', (transit u v f.wire w').1)
            | true ↦ relay fuel v f.wire s' (transit u v f.wire w').1
          ]
    ]

  -- The wait for the reply to a request that went out at `t0`, up to the instant `until`.
  -- `tokio::select!` may take either of a reply and a timer of one instant; here it is the timer.
  unfoldable pub await_reply : ℕ → ℕ → ℕ → ℕ → Wiring → W → Option (Answer × Wiring × W)
  await_reply u seq t0 until s w = do
    node ← get_elem? s.nodes u
    elim node.replies [
      | [] ↦ some (lost, s, sleep (until - unix_nanos w) w)
      | (rseq, recv_ns, len) ∷ rest ↦ elim (ltb recv_ns until) [
        | false ↦ some (lost, s, sleep (until - unix_nanos w) w)
        | true ↦ some (
          if rseq == seq then received (recv_ns - t0) len else lost,
          record s { nodes = set s.nodes u (record node { replies = rest }) },
          w,
        )
      ]
    ]

  -- One round of `flow_loop`, when nothing else is on the links: the request and what answers it go
  -- their ways to the end.
  unfoldable pub ping : ℕ → ℕ → ℕ → ℕ → List ℕ → ℕ → Wiring → W → Option (Answer × Wiring × W)
  ping fuel u dst seq payload lifetime s w = do
    node ← get_elem? s.nodes u
    elim (lpm node.routes dst) [
      | none ↦ await_reply u seq (unix_nanos w) (unix_nanos w + lifetime) s w
      | some via ↦
          let (node', w', sent) =
            send_on unix_nanos begin_tx sleep resolve via (request node dst seq payload) node w in
          let s' = record s { nodes = set s.nodes u node' } in
          let until = unix_nanos w' + lifetime in
          elim sent [
            | [] ↦ await_reply u seq (unix_nanos w) until s' w'
            | f ∷ fs ↦ get_elem? s.ends u >>= λ far. get_elem? far f.via >>= λ v.
                elim (transit u v f.wire w').0 [
                  | false ↦ await_reply u seq (unix_nanos w) until s' (transit u v f.wire w').1
                  | true ↦ relay fuel v f.wire s' (transit u v f.wire w').1 >>= λ r.
                      await_reply u seq (unix_nanos w) until r.0 r.1
                ]
          ]
    ]
