-- ===== src/Ip/Packet.antt =====
-- Packets of crates/ndn-sim-studies/src/ip.rs are read back as they were written.
use ndn_sim.Prelude.{ℕ, ◌/◌, ◌%◌, ◌<◌, ◌≡◌, refl, Bool, true, false, List, some, arith, length, ltb}
use ndn_sim.Ip.{IpPacket, encode, decode, from_be_bytes}

-- The fields are in the range of their types.
pub record IsPacket (p : IpPacket) : Type 0 where
  pub src : p.src < 4294967296
  pub dst : p.dst < 4294967296
  pub ttl : p.ttl < 256
  pub seq : p.seq < 4294967296

from_be_bytes-to_be_bytes :
    (x : ℕ)
    → x < 4294967296
    → from_be_bytes (x / 16777216 % 256) (x / 65536 % 256) (x / 256 % 256) (x % 256) ≡ x
from_be_bytes-to_be_bytes x l = omega arith

-- A packet of fields in their range is read back as it was written.
pub decode-encode : (p : IpPacket) → IsPacket p → decode (encode p) ≡ some p
unfolding decode encode
decode-encode p h =
    go p.reply p.payload (from_be_bytes-to_be_bytes p.src h.src)
      (from_be_bytes-to_be_bytes p.dst h.dst) (from_be_bytes-to_be_bytes p.seq h.seq)
  where
    go :
        (reply : Bool) (payload : List ℕ)
        → from_be_bytes
            (p.src / 16777216 % 256)
            (p.src / 65536 % 256)
            (p.src / 256 % 256)
            (p.src % 256)
          ≡ p.src
        → from_be_bytes
            (p.dst / 16777216 % 256)
            (p.dst / 65536 % 256)
            (p.dst / 256 % 256)
            (p.dst % 256)
          ≡ p.dst
        → from_be_bytes
            (p.seq / 16777216 % 256)
            (p.seq / 65536 % 256)
            (p.seq / 256 % 256)
            (p.seq % 256)
          ≡ p.seq
        → decode (encode (record p { reply = reply; payload = payload }))
          ≡ some (record p { reply = reply; payload = payload })
    go true payload a b c =
        let long : ltb (length (encode (record p { reply = true; payload = payload }))) 14 ≡ false =
          ground arith in
        rw (long, a, b, c) refl
    go false payload a b c =
        let long : ltb (length (encode (record p { reply = false; payload = payload }))) 14
            ≡ false =
          ground arith in
        rw (long, a, b, c) refl
