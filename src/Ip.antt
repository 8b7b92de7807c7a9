-- ===== src/Ip.antt =====
-- The IP baseline of crates/ndn-sim-studies/src/ip.rs: addresses, packets, and a node that forwards
-- them. An address is its 32 bits, a byte a number below 256.
mod Packet
mod Prefix
mod Lpm
mod Handle
pub mod Network
mod Examples
use Prim.Native.Nat.{bit_and}
use ndn_sim.Prelude.{
  ℕ, zero, suc, ◌+◌, ◌-◌, ◌*◌, ◌/◌, ◌%◌, ◌^◌, Bool, true, false, not, List, [], ◌∷◌, ◌++◌, Option,
  none, some, ◌>>=◌, if◌then◌else◌, ◌==◌, ltb, leb, length, get_elem?, u64,
}

-- `u32::from_be_bytes`, and `u32::to_be_bytes`, which `put_u32` writes.
abbrev pub from_be_bytes : ℕ → ℕ → ℕ → ℕ → ℕ
from_be_bytes a b c d = a * 16777216 + b * 65536 + c * 256 + d

abbrev pub to_be_bytes : ℕ → List ℕ
to_be_bytes x = x / 16777216 % 256 ∷ x / 65536 % 256 ∷ x / 256 % 256 ∷ x % 256 ∷ []

-- `Ipv4::new`.
abbrev pub ipv4 : ℕ → ℕ → ℕ → ℕ → ℕ
ipv4 a b c d = from_be_bytes a b c d

-- The mask of a prefix that is not empty.
abbrev pub prefix_mask : ℕ → ℕ
prefix_mask prefix_len =
    if leb 32 prefix_len then 4294967295 else 4294967295 - (2 ^ (32 - prefix_len) - 1)

unfoldable pub in_prefix : ℕ → ℕ → ℕ → Bool
in_prefix addr net prefix_len =
    if prefix_len == 0
    then true
    else bit_and addr (prefix_mask prefix_len) == bit_and net (prefix_mask prefix_len)

pub record IpPacket : Type 0 where
  pub src : ℕ
  pub dst : ℕ
  pub ttl : ℕ
  pub reply : Bool
  pub seq : ℕ
  pub payload : List ℕ

unfoldable pub encode : IpPacket → List ℕ
encode p =
    to_be_bytes p.src
    ++ to_be_bytes p.dst
    ++ (p.ttl ∷ (if p.reply then 1 else 0) ∷ [])
    ++ to_be_bytes p.seq
    ++ p.payload

-- `bytes[k..]`.
abbrev pub drop : ℕ → List ℕ → List ℕ
drop zero bytes = bytes
drop (suc k) [] = []
drop (suc k) (b ∷ bytes) = drop k bytes

-- `u32::from_be_bytes(bytes[i..i + 4])`.
abbrev pub read_u32 : List ℕ → ℕ → Option ℕ
read_u32 bytes i = do
  a ← get_elem? bytes i
  b ← get_elem? bytes (i + 1)
  c ← get_elem? bytes (i + 2)
  d ← get_elem? bytes (i + 3)
  some (from_be_bytes a b c d)

-- Below 14 bytes nothing is read; above, no read is out of range.
unfoldable pub decode : List ℕ → Option IpPacket
decode bytes = if ltb (length bytes) 14 then none else do
  src ← read_u32 bytes 0
  dst ← read_u32 bytes 4
  ttl ← get_elem? bytes 8
  flags ← get_elem? bytes 9
  seq ← read_u32 bytes 10
  some (record {
    src = src;
    dst = dst;
    ttl = ttl;
    reply = not (bit_and flags 1 == 0);
    seq = seq;
    payload = drop 14 bytes;
  })

pub record IpRoute : Type 0 where
  pub net : ℕ
  pub prefix_len : ℕ
  pub via : ℕ

-- The matching routes, in order, and of them one of the longest prefix: `max_by_key` keeps the last.
abbrev pub matching : ℕ → List IpRoute → List IpRoute
matching dst [] = []
matching dst (r ∷ rs) =
    if in_prefix dst r.net r.prefix_len then r ∷ matching dst rs else matching dst rs

abbrev pub longest : IpRoute → List IpRoute → IpRoute
longest r [] = r
longest r (q ∷ qs) = longest (if ltb q.prefix_len r.prefix_len then r else q) qs

unfoldable pub lpm : List IpRoute → ℕ → Option ℕ
lpm routes dst = elim (matching dst routes) [ [] ↦ none | r ∷ rs ↦ some (longest r rs).via ]

-- What `begin_tx` of the shared LoRa medium answers.
pub data LoraTx : Type 0 where
  gated : LoraTx
  on_air : ℕ → ℕ → LoraTx

pub record LoraHandle : Type 0 where
  pub node : ℕ
  pub face_neighbor : List (Option ℕ)

-- A frame that a face is given.
pub record Sent : Type 0 where
  pub via : ℕ
  pub wire : List ℕ

-- A node: its faces by their number, the counters, and the replies for its pinger.
pub record IpNode : Type 0 where
  pub addr : ℕ
  pub faces : ℕ
  pub routes : List IpRoute
  pub forwarded : ℕ
  pub delivered : ℕ
  pub dropped_no_route : ℕ
  pub dropped_ttl : ℕ
  pub tx_bytes : ℕ
  pub replies : List (ℕ × ℕ × ℕ)
  pub lora : Option LoraHandle

-- `IpNode::new`, started.
abbrev pub new_node : ℕ → IpNode
new_node addr = record {
  addr = addr;
  faces = 0;
  routes = [];
  forwarded = 0;
  delivered = 0;
  dropped_no_route = 0;
  dropped_ttl = 0;
  tx_bytes = 0;
  replies = [];
  lora = none;
}

abbrev pub attach : IpNode → IpNode × ℕ
attach node = (record node { faces = node.faces + 1 }, node.faces)

abbrev pub add_route : ℕ → ℕ → ℕ → IpNode → IpNode
add_route net prefix_len via node = record node {
  routes = node.routes ++ record { net = net; prefix_len = prefix_len; via = via } ∷ [];
}

abbrev pub set_routes : List IpRoute → IpNode → IpNode
set_routes routes node = record node { routes = routes }

-- `fetch_add` wraps.
abbrev pub count_tx : ℕ → IpNode → IpNode
count_tx bytes node = record node { tx_bytes = u64 (node.tx_bytes + bytes) }

-- `face_neighbor.get(via).copied().flatten()` of a node on the LoRa medium.
abbrev pub lora_peer : Option LoraHandle → ℕ → Option (ℕ × ℕ)
lora_peer none via = none
lora_peer (some h) via = elim (get_elem? h.face_neighbor via) [
  | none ↦ none
  | some none ↦ none
  | some (some rx) ↦ some (h.node, rx)
]

-- The clock and the LoRa medium are the world `W`, read and changed by their own functions.
module _ {W : Type 0} (unix_nanos : W → ℕ) (begin_tx : ℕ → ℕ → W → LoraTx × W) (sleep : ℕ → W → W)
    (resolve : ℕ → ℕ → ℕ → W → Bool × W) where
  unfoldable pub send_on : ℕ → IpPacket → IpNode → W → IpNode × W × List Sent
  send_on via pkt node w = elim (ltb via node.faces) [
    | false ↦ (node, w, [])
    | true ↦
        let wire = encode pkt in
        elim (lora_peer node.lora via) [
          | none ↦ (count_tx (length wire) node, w, record { via = via; wire = wire } ∷ [])
          | some (me, rx) ↦
              let (tx, w1) = begin_tx me (unix_nanos w) w in
              elim tx [
                | gated ↦ (node, w1, [])
                | on_air id airtime ↦
                    let (clear, w2) = resolve id me rx (sleep airtime w1) in
                    elim clear [
                      | false ↦ (count_tx (length wire) node, w2, [])
                      | true ↦
                          (count_tx (length wire) node, w2, record { via = via; wire = wire } ∷ [])
                    ]
              ]
        ]
  ]

  -- The echo of a request.
  abbrev pub echo : IpPacket → IpNode → IpPacket
  echo pkt node = record {
    src = node.addr;
    dst = pkt.src;
    ttl = 64;
    reply = true;
    seq = pkt.seq;
    payload = pkt.payload;
  }

  -- A packet for this node.
  abbrev pub deliver : IpPacket → IpNode → W → IpNode × W × List Sent
  deliver pkt node w =
      let node1 = record node { delivered = u64 (node.delivered + 1) } in
      elim pkt.reply [
        | true ↦ (
          record node1 {
            replies = node1.replies ++ (pkt.seq, unix_nanos w, length pkt.payload) ∷ [];
          },
          w,
          [],
        )
        | false ↦ elim (lpm node1.routes pkt.src) [
          | none ↦ (node1, w, [])
          | some via ↦ send_on via (echo pkt node1) node1 w
        ]
      ]

  unfoldable pub handle : IpPacket → IpNode → W → IpNode × W × List Sent
  handle pkt node w = elim (pkt.dst == node.addr) [
    | true ↦ deliver pkt node w
    | false ↦ elim (leb pkt.ttl 1) [
      | true ↦ (record node { dropped_ttl = u64 (node.dropped_ttl + 1) }, w, [])
      | false ↦ elim (lpm node.routes pkt.dst) [
        | none ↦ (record node { dropped_no_route = u64 (node.dropped_no_route + 1) }, w, [])
        | some via ↦
            send_on via (record pkt { ttl = pkt.ttl - 1 })
              (record node { forwarded = u64 (node.forwarded + 1) }) w
      ]
    ]
  ]

  -- The receive loop of a face, for one frame: what does not decode is dropped.
  unfoldable pub receive : List ℕ → IpNode → W → IpNode × W × List Sent
  receive bytes node w = elim (decode bytes) [ none ↦ (node, w, []) | some pkt ↦ handle pkt node w ]
