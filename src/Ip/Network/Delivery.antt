-- ===== src/Ip/Network/Delivery.antt =====
-- A ping of crates/ndn-sim-studies/src/ip.rs, from one node of a network to another and back.
use ndn_sim.Prelude.{
  ◌*◌, ◌++◌, [], ◌∷◌, some, u64, ℕ, zero, suc, ◌+◌, ◌-◌, ◌≤◌, ◌<◌, ◌≡◌, ◌≢◌, refl, sym, ◌∙◌, ap,
  subst, Bool, true, false, List, ◌>>=◌, arith, length, set,
}
use ndn_sim.Routing.View.{Edge}
use ndn_sim.Routing.Dijkstra.{u32_max}
use ndn_sim.Routing.Dijkstra.State.{Walk, stay, along}
use ndn_sim.Ip.{IpNode, IpPacket, LoraTx, encode, count_tx}
use ndn_sim.Ip.Packet.{IsPacket}
use ndn_sim.Ip.Network.{Wiring, address, relay, request, ping, await_reply, received}
use ndn_sim.Ip.Network.Ready.{Least, address_below}
use ndn_sim.Ip.Network.Steps.{
  Carries, Took, Onward, sent_on, relay-passed_on, relay-answered, relay-delivered,
}
use ndn_sim.Ip.Network.Kept.{Network, Network-Kept, Kept, Kept-refl, Kept-trans, Kept-set}
use ndn_sim.Ip.Network.Await.{Replied, Replied-set, Replied-Kept, await_reply-Replied}

-- One link more.
Took-suc :
    (m lo hi t t1 t2 : ℕ)
    → Took lo hi t t1
    → Took (m * lo) (m * hi) t1 t2
    → Took (suc m * lo) (suc m * hi) t t2
Took-suc m lo hi t t1 t2 a b =
    let least : suc m * lo ≡ lo + m * lo = grind arith in
    let most : suc m * hi ≡ hi + m * hi = grind arith in
    (omega (arith, a.0, b.0, least), omega (arith, a.1, b.1, most))

module _ (n : ℕ) (adj : List (List (ℕ × ℕ))) (small : n ≤ 256)
    (unit : (a b w : ℕ) → Edge adj a b w → w ≡ 1) where
  -- A walk of no links ends where it starts.
  Walk-here : {a b c : ℕ} → Walk adj a b c → c ≡ 0 → a ≡ b
  Walk-here stay e = refl
  Walk-here (along {x} {y} {w = w} link rest f) e = absurd (omega (arith, e, f, unit x y w link))

  module _ {W : Type 0} (unix_nanos : W → ℕ) (begin_tx : ℕ → ℕ → W → LoraTx × W) (sleep : ℕ → W → W)
      (resolve : ℕ → ℕ → ℕ → W → Bool × W) (transit : ℕ → ℕ → List ℕ → W → Bool × W) (lo hi : ℕ)
      (carries : Carries unix_nanos transit lo hi) where
    -- A packet gets to its destination, if its time to live is more than the links in between.
    relay-arrives :
        (m : ℕ) (s : Wiring) (w : W) (u d : ℕ) (pkt : IpPacket)
        → Network n adj s
        → u < n
        → d < n
        → Least adj u d m
        → m < u32_max
        → IsPacket pkt
        → pkt.dst ≡ address d
        → m < pkt.ttl
        → (s' : Wiring) × (w' : W) × (t : ℕ) × Kept s s'
          × Took (m * lo) (m * hi) (unix_nanos w) (unix_nanos w')
          × (t < 256)
          × ((fuel : ℕ)
              → relay unix_nanos begin_tx sleep resolve transit (m + fuel) u (encode pkt) s w
                ≡ relay unix_nanos begin_tx sleep resolve transit fuel d
                    (encode (record pkt { ttl = t }))
                    s'
                    w')
    relay-arrives zero s w u d pkt h lu ld k f good to_d live =
        let same : u ≡ d = Walk-here k.walk refl in
        (
          s,
          w,
          pkt.ttl,
          Kept-refl s,
          (omega arith, omega arith),
          good.ttl,
          λ fuel.
              let this : 0 + fuel ≡ fuel = omega arith in
              ap (λ z. relay unix_nanos begin_tx sleep resolve transit z u (encode pkt) s w) this
              ∙ ap (λ z. relay unix_nanos begin_tx sleep resolve transit fuel z (encode pkt) s w)
                  same,
        )
    relay-arrives (suc m) s w u d pkt h lu ld k f good to_d live =
        let ne : d ≢ u =
          λ e. absurd (omega (arith, k.least 0 (subst (λ z. Walk adj z d 0) e stay))) in
        let (v, m', s1, w1, on, took, runs) =
          relay-passed_on unix_nanos begin_tx sleep resolve transit lo hi carries n adj s w u d
            (suc m) pkt small h lu ld ne k f good to_d (omega (arith, live)) in
        let same : m' ≡ m = omega (arith, on.nearer) in
        let (s2, w2, t, kept, took', lt, rest) =
          relay-arrives m s1 w1 v d (record pkt { ttl = pkt.ttl - 1 })
            (Network-Kept n adj s s1 on.kept h) on.node_there ld
            (subst (Least adj v d) same on.least) (omega (arith, f))
            (record {
              src = good.src;
              dst = good.dst;
              ttl = omega (arith, good.ttl);
              seq = good.seq;
            })
            to_d (omega (arith, live)) in
        (
          s2,
          w2,
          t,
          Kept-trans s s1 s2 on.kept kept,
          Took-suc m lo hi _ _ _ took took',
          lt,
          λ fuel.
              let this : suc m + fuel ≡ suc (m + fuel) = omega arith in
              ap (λ z. relay unix_nanos begin_tx sleep resolve transit z u (encode pkt) s w) this
              ∙ runs (m + fuel)
              ∙ rest fuel,
        )

    -- The first hop of a request.
    ping-starts :
        (s : Wiring) (w : W) (u d m seq lifetime : ℕ) (payload : List ℕ)
        → Network n adj s
        → u < n
        → d < n
        → d ≢ u
        → Least adj u d m
        → m < u32_max
        → (v : ℕ) × (m' : ℕ) × (s' : Wiring) × (w' : W) × Onward n adj d m s v m' s'
          × Took lo hi (unix_nanos w) (unix_nanos w')
          × ((fuel : ℕ)
              → ping unix_nanos begin_tx sleep resolve transit fuel u
                  (address d)
                  seq
                  payload
                  lifetime
                  s
                  w
                ≡ (relay unix_nanos begin_tx sleep resolve transit fuel v
                      (encode (record {
                        src = address u;
                        dst = address d;
                        ttl = 64;
                        reply = false;
                        seq = seq;
                        payload = payload;
                      }))
                      s'
                      w'
                    >>= λ r.
                        await_reply unix_nanos begin_tx sleep resolve transit u seq
                          (unix_nanos w)
                          (unix_nanos w + lifetime)
                          r.0
                          r.1))
    unfolding ping
    ping-starts s w u d m seq lifetime payload h lu ld ne k f =
        let (node, far, e, g, r) = h.at u lu in
        let q = r.forwards d m ld ne k f in
        let asks : IpPacket = request node (address d) seq payload in
        let wire : List ℕ = encode asks in
        let node' : IpNode = count_tx (length wire) node in
        let s' : Wiring = record s { nodes = set s.nodes u node' } in
        let sent = sent_on unix_nanos begin_tx sleep resolve q.via asks node w q.face r.no_lora in
        (
          q.hop,
          q.rest,
          s',
          (transit u q.hop wire w).1,
          record {
            node_there = q.node_there;
            nearer = q.nearer;
            least = q.least;
            kept =
                Kept-set s u node node' e (record {
                  addr = refl;
                  faces = refl;
                  routes = refl;
                  lora = refl;
                  replies = refl;
                });
          },
          (carries.soonest u q.hop wire w, carries.latest u q.hop wire w),
          λ fuel.
              rw (e, ◌>>=◌, q.found, sent, g, q.leads, sent, carries.arrives u q.hop wire w, sent)
                (ap
                  (λ z.
                    relay unix_nanos begin_tx sleep resolve transit fuel q.hop
                      (encode (record {
                        src = z;
                        dst = address d;
                        ttl = 64;
                        reply = false;
                        seq = seq;
                        payload = payload;
                      }))
                      s' (transit u q.hop wire w).1
                    >>= λ r.
                        await_reply unix_nanos begin_tx sleep resolve transit u seq (unix_nanos w)
                          (unix_nanos w + lifetime) r.0 r.1)
                  r.addr),
        )

    -- A request that has got there is answered, and the reply gets back.
    relay-Replied :
        (s : Wiring) (w : W) (u d k t seq rest : ℕ) (payload : List ℕ)
        → Network n adj s
        → u < n
        → d < n
        → u ≢ d
        → Least adj d u k
        → k ≤ 64
        → t < 256
        → seq < 4294967296
        → (s' : Wiring) × (w' : W) × Took (k * lo) (k * hi) (unix_nanos w) (unix_nanos w')
          × Replied u seq (unix_nanos w') (length payload) s s'
          × (relay unix_nanos begin_tx sleep resolve transit
                (k + suc rest)
                d
                (encode (record {
                  src = address u;
                  dst = address d;
                  ttl = t;
                  reply = false;
                  seq = seq;
                  payload = payload;
                }))
                s
                w
              ≡ some (s', w'))
    relay-Replied s w u d k t seq rest payload h lu ld ne back few lt ok =
        let asks : IpPacket = record {
          src = address u;
          dst = address d;
          ttl = t;
          reply = false;
          seq = seq;
          payload = payload;
        } in
        let answer : IpPacket = record {
          src = address d;
          dst = address u;
          ttl = 64;
          reply = true;
          seq = seq;
          payload = payload;
        } in
        let (v, k1, s1, w1, on, took, answers) =
          relay-answered unix_nanos begin_tx sleep resolve transit lo hi carries n adj s w u d k
            asks small h lu ld ne back (omega (arith, few))
            (record { src = address_below u; dst = address_below d; ttl = lt; seq = ok }) refl
            refl in
        let h1 = Network-Kept n adj s s1 on.kept h in
        let (s2, w2, t2, kept, took', l2, returns) =
          relay-arrives k1 s1 w1 v u answer h1 on.node_there lu on.least
            (omega (arith, few, on.nearer))
            (record { src = address_below d; dst = address_below u; ttl = omega arith; seq = ok })
            refl (omega (arith, few, on.nearer)) in
        let (node, far, e, g, r) = (Network-Kept n adj s1 s2 kept h1).at u lu in
        let ends =
          relay-delivered unix_nanos begin_tx sleep resolve transit lo hi carries rest u s2 w2 node
            (record answer { ttl = t2 }) e
            (record { src = address_below d; dst = address_below u; ttl = l2; seq = ok })
            (sym r.addr) in
        let split : k + suc rest ≡ suc (k1 + suc rest) = omega (arith, on.nearer) in
        let took_all = Took-suc k1 lo hi _ _ _ took took' in
        (
          _,
          w2,
          subst (λ z. Took (z * lo) (z * hi) (unix_nanos w) (unix_nanos w2)) (sym on.nearer)
              took_all,
          Replied-set u seq (unix_nanos w2) (length payload) s s2 node
              (record node {
                delivered = u64 (node.delivered + 1);
                replies = node.replies ++ (seq, unix_nanos w2, length payload) ∷ [];
              })
              (Kept-trans s s1 s2 on.kept kept) e
              (ap (λ z. z ++ (seq, unix_nanos w2, length payload) ∷ []) r.no_replies)
              (record {
                addr = refl;
                faces = refl;
                routes = refl;
                lora = refl;
                replies = sym r.no_replies;
              }),
          ap (λ z. relay unix_nanos begin_tx sleep resolve transit z d (encode asks) s w) split
              ∙ answers (k1 + suc rest)
              ∙ returns (suc rest)
              ∙ ends,
        )

    -- The request gets there, the reply gets back, and it is taken in time.
    pub ping-received :
        (s : Wiring) (w : W) (u d m k seq fuel lifetime : ℕ) (payload : List ℕ)
        → Network n adj s
        → u < n
        → d < n
        → d ≢ u
        → Least adj u d m
        → Least adj d u k
        → m ≤ 64
        → k ≤ 64
        → seq < 4294967296
        → m + k ≤ fuel
        → m * hi + k * hi < lifetime
        → (rtt : ℕ) × (s' : Wiring) × (w' : W) × (ping unix_nanos begin_tx sleep resolve transit
              fuel u
              (address d)
              seq
              payload
              lifetime
              s
              w
            ≡ some (received rtt (length payload), s', w'))
          × (m * lo + k * lo ≤ rtt)
          × (rtt ≤ m * hi + k * hi)
          × Kept s s'
    ping-received s w u d m k seq fuel lifetime payload h lu ld ne go back few few' ok enough soon =
        let (v, m1, s1, w1, on, took, starts) =
          ping-starts s w u d m seq lifetime payload h lu ld ne go (omega (arith, few)) in
        let asks : IpPacket = record {
          src = address u;
          dst = address d;
          ttl = 64;
          reply = false;
          seq = seq;
          payload = payload;
        } in
        let h1 = Network-Kept n adj s s1 on.kept h in
        let (s2, w2, t, kept, took1, lt, arrives) =
          relay-arrives m1 s1 w1 v d asks h1 on.node_there ld on.least
            (omega (arith, few, on.nearer))
            (record { src = address_below u; dst = address_below d; ttl = omega arith; seq = ok })
            refl (omega (arith, few, on.nearer)) in
        let there =
          subst (λ z. Took (z * lo) (z * hi) (unix_nanos w) (unix_nanos w2)) (sym on.nearer)
            (Took-suc m1 lo hi _ _ _ took took1) in
        let rest : ℕ = fuel - (m + k) in
        let split : fuel ≡ m1 + (k + suc rest) = omega (arith, enough, on.nearer) in
        let (s3, w3, took2, replied, ran) =
          relay-Replied s2 w2 u d k t seq rest payload (Network-Kept n adj s1 s2 kept h1) lu ld
            (λ e. ne (sym e)) back few' lt ok in
        let all_kept =
          Replied-Kept u seq (unix_nanos w3) (length payload) s s2 s3
            (Kept-trans s s1 s2 on.kept kept) replied in
        let until : ℕ = unix_nanos w + lifetime in
        let run =
          ap (λ z. relay unix_nanos begin_tx sleep resolve transit z v (encode asks) s1 w1) split
          ∙ arrives (k + suc rest)
          ∙ ran in
        let waits =
          await_reply-Replied unix_nanos begin_tx sleep resolve transit u seq (unix_nanos w3)
            (length payload) (unix_nanos w) until s s3 w3 all_kept
            (omega (arith, there.1, took2.1, soon)) in
        (
          unix_nanos w3 - unix_nanos w,
          _,
          w3,
          starts fuel
              ∙ ap
                  (λ o. o >>= λ r.
                    await_reply unix_nanos begin_tx sleep resolve transit u seq (unix_nanos w) until
                      r.0 r.1)
                  run
              ∙ waits,
          omega (arith, there.0, took2.0),
          omega (arith, there.1, took2.1),
          all_kept.kept,
        )
