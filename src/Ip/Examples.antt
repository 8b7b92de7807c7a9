-- ===== src/Ip/Examples.antt =====
-- Runs of the packets and lookups of crates/ndn-sim-studies/src/ip.rs.
use ndn_sim.Prelude.{ℕ, ◌≡◌, ◌↔◌, refl, true, false, List, [], ◌∷◌, some, none, arith}
use ndn_sim.Ip.{
  IpPacket, IpRoute, IpNode, Sent, gated, ipv4, encode, decode, in_prefix, lpm, new_node,
  set_routes, handle,
}
use ndn_sim.Ip.Packet.{IsPacket, decode-encode}
use ndn_sim.Ip.Prefix.{leading, in_prefix_lem}
use ndn_sim.Ip.Lpm.{IsLongest, lpm-IsLongest}

abbrev echo_request : IpPacket
echo_request = record {
  src = ipv4 10 0 0 1;
  dst = ipv4 10 0 0 3;
  ttl = 64;
  reply = false;
  seq = 258;
  payload = 7 ∷ 8 ∷ [];
}

echo_request-IsPacket : IsPacket echo_request
echo_request-IsPacket = record {
  src = omega arith;
  dst = omega arith;
  ttl = omega arith;
  seq = omega arith;
}

request_bytes :
    encode echo_request ≡ 10 ∷ 0 ∷ 0 ∷ 1 ∷ 10 ∷ 0 ∷ 0 ∷ 3 ∷ 64 ∷ 0 ∷ 0 ∷ 0 ∷ 1 ∷ 2 ∷ 7 ∷ 8 ∷ []
unfolding encode
request_bytes = refl

-- Thirteen bytes are too few.
short_frame : decode (10 ∷ 0 ∷ 0 ∷ 1 ∷ 10 ∷ 0 ∷ 0 ∷ 3 ∷ 64 ∷ 0 ∷ 0 ∷ 0 ∷ 1 ∷ []) ≡ none
unfolding decode
short_frame = refl

decode-encode_example : decode (encode echo_request) ≡ some echo_request
decode-encode_example = decode-encode echo_request echo_request-IsPacket

in_prefix_lem_example :
    (in_prefix (ipv4 10 1 255 4) (ipv4 10 1 0 0) 20 ≡ true)
    ↔ (leading 12 (ipv4 10 1 255 4) ≡ leading 12 (ipv4 10 1 0 0))
in_prefix_lem_example =
    in_prefix_lem (ipv4 10 1 255 4) (ipv4 10 1 0 0) 20 (omega arith) (omega arith)

-- A default route, a network and a part of it, and two routes to one host.
abbrev routes : List IpRoute
routes =
    record { net = 0; prefix_len = 0; via = 0 }
    ∷ record { net = ipv4 10 1 0 0; prefix_len = 16; via = 1 }
    ∷ record { net = ipv4 10 1 2 0; prefix_len = 24; via = 2 }
    ∷ record { net = ipv4 10 1 2 3; prefix_len = 32; via = 3 }
    ∷ record { net = ipv4 10 1 2 3; prefix_len = 32; via = 4 }
    ∷ []

-- Of two routes of one length the later one is taken.
last_of_equals : lpm routes (ipv4 10 1 2 3) ≡ some 4
unfolding lpm in_prefix
last_of_equals = refl

default_route : lpm routes (ipv4 192 168 0 1) ≡ some 0
unfolding lpm in_prefix
default_route = refl

lpm-IsLongest_example : IsLongest routes (ipv4 10 1 2 9) (lpm routes (ipv4 10 1 2 9))
lpm-IsLongest_example = lpm-IsLongest routes (ipv4 10 1 2 9)

-- A router with the routes above and five faces.
abbrev router : IpNode
router = record (set_routes routes (new_node (ipv4 10 1 0 1))) { faces = 5 }

abbrev handled_by_router : IpPacket → IpNode × ℕ × List Sent
handled_by_router pkt =
    handle {W = ℕ} (λ w. w) (λ node now w. (gated, w)) (λ t w. w) (λ id me rx w. (true, w)) pkt
      router 5

-- A time to live of one is used up.
used_up : (handled_by_router (record echo_request { ttl = 1 })).2 ≡ []
unfolding handle
used_up = refl
