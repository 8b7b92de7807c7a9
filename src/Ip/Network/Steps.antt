-- ===== src/Ip/Network/Steps.antt =====
-- The steps of a packet of crates/ndn-sim-studies/src/ip.rs through a network whose nodes have the
-- ways: it is passed on, answered, or delivered.
use ndn_sim.Prelude.{
  ℕ, suc, ◌+◌, ◌-◌, ◌≤◌, ◌<◌, ◌≡◌, ◌≢◌, refl, sym, ◌∙◌, ap, Bool, true, false, List, [], ◌∷◌, ◌++◌,
  Option, none, some, ◌>>=◌, arith, ◌==◌, ==_iff, ltb, leb, u64, length, get_elem?, set,
}
use ndn_sim.Routing.Dijkstra.{u32_max}
use ndn_sim.Ip.{
  IpNode, IpPacket, LoraHandle, LoraTx, Sent, encode, lpm, lora_peer, count_tx, send_on, echo,
  deliver, handle, receive,
}
use ndn_sim.Ip.Packet.{IsPacket, decode-encode}
use ndn_sim.Ip.Network.{Wiring, address, relay}
use ndn_sim.Ip.Network.Ready.{Least, address_inj}
use ndn_sim.Ip.Network.Kept.{Network, Kept, Kept-set}

-- Where a packet is sent to: the next node, one nearer to its destination.
pub record Onward (n : ℕ) (adj : List (List (ℕ × ℕ))) (d m : ℕ) (s : Wiring) (v m' : ℕ)
    (s' : Wiring) : Type 0 where
  pub node_there : v < n
  pub nearer : m ≡ suc m'
  pub least : Least adj v d m'
  pub kept : Kept s s'

module _ {W : Type 0} (unix_nanos : W → ℕ) (begin_tx : ℕ → ℕ → W → LoraTx × W) (sleep : ℕ → W → W)
    (resolve : ℕ → ℕ → ℕ → W → Bool × W) where
  -- Off the LoRa medium a frame is counted and sent.
  pub sent_on :
      (via : ℕ) (pkt : IpPacket) (node : IpNode) (w : W)
      → via < node.faces
      → ◌≡◌ {A = Option LoraHandle} node.lora none
      → send_on unix_nanos begin_tx sleep resolve via pkt node w
        ≡ (count_tx (length (encode pkt)) node, w, record { via = via; wire = encode pkt } ∷ [])
  unfolding send_on
  sent_on via pkt node w l e =
      let there : ltb via node.faces ≡ true = ground arith in
      let wired : lora_peer node.lora via ≡ none = ap (λ z. lora_peer z via) e in
      rw (there, wired, send_on) refl

  received :
      (pkt : IpPacket) (node : IpNode) (w : W)
      → IsPacket pkt
      → receive unix_nanos begin_tx sleep resolve (encode pkt) node w
        ≡ handle unix_nanos begin_tx sleep resolve pkt node w
  unfolding receive
  received pkt node w good = rw (decode-encode pkt good, receive) refl

  handle-passed_on :
      (via : ℕ) (pkt : IpPacket) (node : IpNode) (w : W)
      → pkt.dst ≢ node.addr
      → 2 ≤ pkt.ttl
      → lpm node.routes pkt.dst ≡ some via
      → via < node.faces
      → ◌≡◌ {A = Option LoraHandle} node.lora none
      → handle unix_nanos begin_tx sleep resolve pkt node w ≡ (
        count_tx
            (length (encode (record pkt { ttl = pkt.ttl - 1 })))
            (record node { forwarded = u64 (node.forwarded + 1) }),
        w,
        record { via = via; wire = encode (record pkt { ttl = pkt.ttl - 1 }) } ∷ [],
      )
  unfolding handle
  handle-passed_on via pkt node w ne live way l e =
      let other : (pkt.dst == node.addr) ≡ false = ground arith in
      let alive : leb pkt.ttl 1 ≡ false = ground arith in
      rw (other, alive, way, handle)
        (sent_on via (record pkt { ttl = pkt.ttl - 1 })
          (record node { forwarded = u64 (node.forwarded + 1) }) w l e)

  handle-answered :
      (via : ℕ) (pkt : IpPacket) (node : IpNode) (w : W)
      → pkt.dst ≡ node.addr
      → lpm node.routes pkt.src ≡ some via
      → via < node.faces
      → ◌≡◌ {A = Option LoraHandle} node.lora none
      → handle unix_nanos begin_tx sleep resolve (record pkt { reply = false }) node w ≡ (
        count_tx
            (length (encode (echo unix_nanos begin_tx sleep resolve pkt node)))
            (record node { delivered = u64 (node.delivered + 1) }),
        w,
        record { via = via; wire = encode (echo unix_nanos begin_tx sleep resolve pkt node) } ∷ [],
      )
  unfolding handle
  handle-answered via pkt node w eq way l e =
      let here : (pkt.dst == node.addr) ≡ true = (==_iff _ _).1 eq in
      let node1 : IpNode = record node { delivered = u64 (node.delivered + 1) } in
      rw (here, way, handle, deliver)
        (sent_on via (echo unix_nanos begin_tx sleep resolve pkt node) node1 w l e)

-- Links that lose no frame, and take between `lo` and `hi` for one.
pub record Carries {W : Type 0} (unix_nanos : W → ℕ) (transit : ℕ → ℕ → List ℕ → W → Bool × W)
    (lo hi : ℕ) : Type 0 where
  pub arrives : (u v : ℕ) (bytes : List ℕ) (w : W) → (transit u v bytes w).0 ≡ true
  pub soonest :
      (u v : ℕ) (bytes : List ℕ) (w : W) → unix_nanos w + lo ≤ unix_nanos (transit u v bytes w).1
  pub latest :
      (u v : ℕ) (bytes : List ℕ) (w : W) → unix_nanos (transit u v bytes w).1 ≤ unix_nanos w + hi

-- From `t` to `t'` it takes between `lo` and `hi`.
abbrev pub Took : ℕ → ℕ → ℕ → ℕ → Type 0
Took lo hi t t' = (t + lo ≤ t') × (t' ≤ t + hi)

module _ {W : Type 0} (unix_nanos : W → ℕ) (begin_tx : ℕ → ℕ → W → LoraTx × W) (sleep : ℕ → W → W)
    (resolve : ℕ → ℕ → ℕ → W → Bool × W) (transit : ℕ → ℕ → List ℕ → W → Bool × W) (lo hi : ℕ)
    (carries : Carries unix_nanos transit lo hi) where
  -- A frame that is answered by another one.
  relay-sent :
      (fuel u v : ℕ) (pkt : IpPacket) (s : Wiring) (w : W) (node node' : IpNode) (far : List ℕ)
      (f : Sent)
      → IsPacket pkt
      → get_elem? s.nodes u ≡ some node
      → get_elem? s.ends u ≡ some far
      → get_elem? far f.via ≡ some v
      → handle unix_nanos begin_tx sleep resolve pkt node w ≡ (node', w, f ∷ [])
      → relay unix_nanos begin_tx sleep resolve transit (suc fuel) u (encode pkt) s w
        ≡ relay unix_nanos begin_tx sleep resolve transit fuel v f.wire
            (record s { nodes = set s.nodes u node' })
            (transit u v f.wire w).1
  unfolding relay
  relay-sent fuel u v pkt s w node node' far f good e g leads h =
      let does : receive unix_nanos begin_tx sleep resolve (encode pkt) node w
          ≡ (node', w, f ∷ []) =
        received unix_nanos begin_tx sleep resolve pkt node w good ∙ h in
      rw (e, ◌>>=◌, does, g, leads, does, carries.arrives u v f.wire w, does) refl

  -- A packet for another node is passed on.
  pub relay-passed_on :
      (n : ℕ) (adj : List (List (ℕ × ℕ))) (s : Wiring) (w : W) (u d m : ℕ) (pkt : IpPacket)
      → n ≤ 256
      → Network n adj s
      → u < n
      → d < n
      → d ≢ u
      → Least adj u d m
      → m < u32_max
      → IsPacket pkt
      → pkt.dst ≡ address d
      → 2 ≤ pkt.ttl
      → (v : ℕ) × (m' : ℕ) × (s' : Wiring) × (w' : W) × Onward n adj d m s v m' s'
        × Took lo hi (unix_nanos w) (unix_nanos w')
        × ((fuel : ℕ)
            → relay unix_nanos begin_tx sleep resolve transit (suc fuel) u (encode pkt) s w
              ≡ relay unix_nanos begin_tx sleep resolve transit fuel v
                  (encode (record pkt { ttl = pkt.ttl - 1 }))
                  s'
                  w')
  relay-passed_on n adj s w u d m pkt small h lu ld ne k f good to_d live =
      let (node, far, e, g, r) = h.at u lu in
      let q = r.forwards d m ld ne k f in
      let node1 : IpNode = record node { forwarded = u64 (node.forwarded + 1) } in
      let fwd : IpPacket = record pkt { ttl = pkt.ttl - 1 } in
      let node' : IpNode = count_tx (length (encode fwd)) node1 in
      let other : pkt.dst ≢ node.addr = λ z. ne (
        address_inj d u (omega (arith, small, ld)) (omega (arith, small, lu))
          (sym to_d ∙ z ∙ r.addr)) in
      let does =
        handle-passed_on unix_nanos begin_tx sleep resolve q.via pkt node w other live
          (ap (lpm node.routes) to_d ∙ q.found) q.face r.no_lora in
      (
        q.hop,
        q.rest,
        record s { nodes = set s.nodes u node' },
        (transit u q.hop (encode fwd) w).1,
        record {
          node_there = q.node_there;
          nearer = q.nearer;
          least = q.least;
          kept =
              Kept-set s u node node' e
                (record { addr = refl; faces = refl; routes = refl; lora = refl; replies = refl });
        },
        (carries.soonest u q.hop (encode fwd) w, carries.latest u q.hop (encode fwd) w),
        λ fuel.
            relay-sent fuel u q.hop pkt s w node node' far
              (record { via = q.via; wire = encode fwd }) good e g q.leads does,
      )

  -- A request that arrives is answered.
  pub relay-answered :
      (n : ℕ) (adj : List (List (ℕ × ℕ))) (s : Wiring) (w : W) (u d m : ℕ) (pkt : IpPacket)
      → n ≤ 256
      → Network n adj s
      → u < n
      → d < n
      → u ≢ d
      → Least adj d u m
      → m < u32_max
      → IsPacket pkt
      → pkt.src ≡ address u
      → pkt.dst ≡ address d
      → (v : ℕ) × (m' : ℕ) × (s' : Wiring) × (w' : W) × Onward n adj u m s v m' s'
        × Took lo hi (unix_nanos w) (unix_nanos w')
        × ((fuel : ℕ)
            → relay unix_nanos begin_tx sleep resolve transit
                (suc fuel)
                d
                (encode (record pkt { reply = false }))
                s
                w
              ≡ relay unix_nanos begin_tx sleep resolve transit fuel v
                  (encode (record {
                    src = address d;
                    dst = address u;
                    ttl = 64;
                    reply = true;
                    seq = pkt.seq;
                    payload = pkt.payload;
                  }))
                  s'
                  w')
  relay-answered n adj s w u d m pkt small h lu ld ne k f good from_u to_d =
      let (node, far, e, g, r) = h.at d ld in
      let q = r.forwards u m lu ne k f in
      let node1 : IpNode = record node { delivered = u64 (node.delivered + 1) } in
      let back : IpPacket = echo unix_nanos begin_tx sleep resolve pkt node in
      let node' : IpNode = count_tx (length (encode back)) node1 in
      let does =
        handle-answered unix_nanos begin_tx sleep resolve q.via pkt node w (to_d ∙ sym r.addr)
          (ap (lpm node.routes) from_u ∙ q.found) q.face r.no_lora in
      let answer : back ≡ (record {
        src = address d;
        dst = address u;
        ttl = 64;
        reply = true;
        seq = pkt.seq;
        payload = pkt.payload;
      }) =
        rw (r.addr, from_u) refl in
      let s' : Wiring = record s { nodes = set s.nodes d node' } in
      (
        q.hop,
        q.rest,
        s',
        (transit d q.hop (encode back) w).1,
        record {
          node_there = q.node_there;
          nearer = q.nearer;
          least = q.least;
          kept =
              Kept-set s d node node' e
                (record { addr = refl; faces = refl; routes = refl; lora = refl; replies = refl });
        },
        (carries.soonest d q.hop (encode back) w, carries.latest d q.hop (encode back) w),
        λ fuel.
            relay-sent fuel d q.hop (record pkt { reply = false }) s w node node' far
              (record { via = q.via; wire = encode back })
              (record { src = good.src; dst = good.dst; ttl = good.ttl; seq = good.seq }) e g
              q.leads does
            ∙ ap
                (λ z.
                  relay unix_nanos begin_tx sleep resolve transit fuel q.hop (encode z) s'
                    (transit d q.hop (encode back) w).1)
                answer,
      )

  -- A reply that arrives is kept for the pinger.
  pub relay-delivered :
      (fuel u : ℕ) (s : Wiring) (w : W) (node : IpNode) (pkt : IpPacket)
      → get_elem? s.nodes u ≡ some node
      → IsPacket pkt
      → pkt.dst ≡ node.addr
      → relay unix_nanos begin_tx sleep resolve transit
          (suc fuel)
          u
          (encode (record pkt { reply = true }))
          s
          w
        ≡ some (
          record s {
            nodes = set s.nodes u (record node {
              delivered = u64 (node.delivered + 1);
              replies = node.replies ++ (pkt.seq, unix_nanos w, length pkt.payload) ∷ [];
            });
          },
          w,
        )
  unfolding relay handle
  relay-delivered fuel u s w node pkt e good eq =
      let here : (pkt.dst == node.addr) ≡ true = (==_iff _ _).1 eq in
      let does : receive unix_nanos begin_tx sleep resolve (encode (record pkt { reply = true }))
            node w
          ≡ (
            record node {
              delivered = u64 (node.delivered + 1);
              replies = node.replies ++ (pkt.seq, unix_nanos w, length pkt.payload) ∷ [];
            },
            w,
            [],
          ) =
        received unix_nanos begin_tx sleep resolve (record pkt { reply = true }) node w
          (record { src = good.src; dst = good.dst; ttl = good.ttl; seq = good.seq })
        ∙ rw (here, handle) refl in
      rw (e, ◌>>=◌, does, does) refl
