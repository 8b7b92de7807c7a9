-- ===== src/Ip/Network/Connected.antt =====
-- `IpNetwork::from_links_with` of crates/ndn-sim-studies/src/ip.rs with the tables of shortest walks
-- makes networks in which the nodes reach one another.
use ndn_sim.Prelude.{
  ℕ, zero, suc, ◌+◌, ◌*◌, ◌≤◌, ◌<◌, ◌≡◌, ◌≢◌, refl, sym, ◌∙◌, subst, Bool, List, [], map, range,
  some, arith, length, get_elem?, All, In, Returns, Returns->>=, Returns-mono, Returns-some,
}
use ndn_sim.Routing.{TopologyView, from_links, empty_rows}
use ndn_sim.Routing.View.{Edge, IsView, from_links-IsView, IsSymmetric, push_links-IsSymmetric}
use ndn_sim.Routing.Dijkstra.{RouteEntry, u32_max, dijkstra_table, compute}
use ndn_sim.Routing.Dijkstra.State.{Walk, stay, along, Via-Walk, Walk-snoc}
use ndn_sim.Routing.Dijkstra.Shortest.{IsShortest, dijkstra_table-IsShortest, Walk-below}
use ndn_sim.Ip.{IpNode, LoraTx}
use ndn_sim.Ip.Network.{Wiring, address, install_all, start_wiring, from_links_with, ping, received}
use ndn_sim.Ip.Network.Wired.{Wired, read_at, some_eq, wire_links-Wired, start_wiring-Wired}
use ndn_sim.Routing.Dijkstra.Tables.{Filled, compute-Filled}
use ndn_sim.Ip.Network.Tables.{AllInstalled, install_all-AllInstalled}
use ndn_sim.Ip.Network.Ready.{Least, ReadyAt, ReadyAt-of}
use ndn_sim.Ip.Network.Kept.{Network, Kept}
use ndn_sim.Ip.Network.Delivery.{ping-received}
use ndn_sim.Ip.Network.Steps.{Carries}

-- Of the walks from a node to another one is shortest.
nearest :
    (view : TopologyView) (u d c : ℕ)
    → IsView view
    → u < view.n
    → d ≢ u
    → Walk view.adj u d c
    → c < u32_max
    → (m : ℕ) × (m ≤ c) × Least view.adj u d m
nearest view u d c good l ne k f =
    let (rows, _, t) =
      Returns-some (IsShortest view u) (dijkstra_table view u)
        (dijkstra_table-IsShortest view u good l) in
    let (r, listed, at_d) = t.complete d c ne k f in
    (
      r.metric,
      t.least r listed c (subst (λ z. Walk view.adj u z c) (sym at_d) k),
      record {
        walk =
            subst (λ z. Walk view.adj u z r.metric) at_d
              (Via-Walk view.adj u r.next_hop r.dest r.metric (t.walks r listed));
        least = λ b q. t.least r listed b (subst (λ z. Walk view.adj u z b) (sym at_d) q);
      },
    )

Walk-reverse :
    (adj : List (List (ℕ × ℕ))) → IsSymmetric adj → {a b c : ℕ} → Walk adj a b c → Walk adj b a c
Walk-reverse adj h stay = stay
Walk-reverse adj h (along {x} {y} {w = w} {c = c} link rest e) =
    Walk-snoc (Walk-reverse adj h rest) (h x y w link) (omega (arith, e))

empty_rows-IsSymmetric : (n : ℕ) → IsSymmetric (empty_rows n)
empty_rows-IsSymmetric n u v w (row, e, m) = absurd (nothing (subst (In (v, w)) (empty n u e) m))
  where
    empty : (k i : ℕ) {r : List (ℕ × ℕ)} → get_elem? (empty_rows k) i ≡ some r → r ≡ []
    empty zero i e = absurd (cc)
    empty (suc k) zero e = sym (some_eq e)
    empty (suc k) (suc i) e = empty k i e

    nothing : {q : ℕ × ℕ} → In q [] → ⊥
    nothing m = elim m [ ]

-- What becomes of links between the nodes.
record Built (n : ℕ) (links : List (ℕ × ℕ)) (view : TopologyView) : Type 0 where
  good : IsView view
  nodes : view.n ≡ n
  unit : (a b w : ℕ) → Edge view.adj a b w → w ≡ 1
  symmetric : IsSymmetric view.adj
  network : Returns (Network n view.adj) (from_links_with compute n links)

installed :
    (n : ℕ) (adj : List (List (ℕ × ℕ))) (s : Wiring)
    → n ≤ 256
    → IsView (record { n = n; adj = adj })
    → ((a b w : ℕ) → Edge adj a b w → w ≡ 1)
    → Wired n adj s
    → (tables : List (List RouteEntry)) → Filled (record { n = n; adj = adj }) 0 n tables
    → Returns
        (λ nodes. Network n adj (record s { nodes = nodes }))
        (install_all s.face_to (map address (range 0 n)) tables s.nodes)
installed n adj s small good unit wired tables t =
    Returns-mono {A = List IpNode} (AllInstalled s.face_to tables s.nodes)
      (λ nodes. Network n adj (record s { nodes = nodes }))
      (install_all s.face_to (map address (range 0 n)) tables s.nodes)
      (λ nodes h. record { at = λ u l. node_at nodes h u l })
      (install_all-AllInstalled n s.face_to tables s.nodes (omega (arith, wired.tos, t.count))
        (omega (arith, wired.nodes, t.count)) (λ i es e r m. ((t.at i es e).others r m).0))
  where
    node_at :
        (nodes : List IpNode)
        → AllInstalled s.face_to tables s.nodes nodes
        → (u : ℕ) → u < n
        → (node : IpNode) × (far : List ℕ) × (get_elem? nodes u ≡ some node)
          × (get_elem? s.ends u ≡ some far)
          × ReadyAt n adj u far node
    node_at nodes h u l =
        let (row, er) = read_at adj u (omega (arith, l, wired.rows)) in
        let (tos, et) = read_at s.face_to u (omega (arith, l, wired.tos)) in
        let (far, ef) = read_at s.ends u (omega (arith, l, wired.ends)) in
        let (node, en) = read_at s.nodes u (omega (arith, l, wired.nodes)) in
        let (es, ee) = read_at tables u (omega (arith, l, t.count)) in
        let (node', e', q) = h.at u tos es node et ee en in
        let this : 0 + u ≡ u = omega arith in
        (
          node',
          far,
          e',
          ef,
          ReadyAt-of (record { n = n; adj = adj }) u row tos far es node node' small good unit er
              (wired.at u row tos far node er et ef en)
              (subst (λ z. IsShortest (record { n = n; adj = adj }) z es) this (t.at u es ee)) q,
        )

from_links-Built :
    (n : ℕ) (links : List (ℕ × ℕ)) (view : TopologyView)
    → n ≤ 256
    → All (λ l. (l.0 < n) × (l.1 < n)) links
    → from_links n links ≡ some view
    → Built n links view
unfolding from_links from_links_with
from_links-Built n links view small l made =
    let (adj, s, pushed, wires, wired) =
      wire_links-Wired n links (empty_rows n) (start_wiring n) l (start_wiring-Wired n) in
    let here : from_links n links ≡ some (record { n = n; adj = adj }) = rw (pushed) refl in
    let this : record { n = n; adj = adj } ≡ view = some_eq (sym here ∙ made) in
    let (good, count, unit) =
      subst
        (Returns (λ view. IsView view × (view.n ≡ n) × ((u v w : ℕ) → Edge view.adj u v w → w ≡ 1)))
        here (from_links-IsView n links l) in
    subst (Built n links) this (record {
      good = good;
      nodes = refl;
      unit = unit;
      symmetric = push_links-IsSymmetric links (empty_rows n) adj (empty_rows-IsSymmetric n) pushed;
      network =
          rw (wires, here, from_links_with)
            (Returns->>= (Filled (record { n = n; adj = adj }) 0 n) (Network n adj)
              (compute (record { n = n; adj = adj })) _
              (compute-Filled (record { n = n; adj = adj }) good)
              λ tables t.
                Returns->>= (λ nodes. Network n adj (record s { nodes = nodes })) (Network n adj)
                  (install_all s.face_to (map address (range 0 n)) tables s.nodes) _
                  (installed n adj s small good unit wired tables t) λ nodes h. h);
    })

-- Links between up to 256 nodes make a network, with the tables of ShortestPath. Where a walk of up to
-- 64 links joins two of its nodes, no frame is lost, a link takes between `lo` and `hi` for each, and
-- `2 * hi` for each link of the walk is less than the lifetime, a ping from one node to the other, of a
-- sequence number of 32 bits, when nothing else is on the links and with fuel for the walk and back,
-- ends with the reply received: after between `2 * lo` and `2 * hi` for each link of a shortest walk,
-- with the length of the payload. It leaves all nodes as they were but for their counters.
pub from_links_with-received :
    {W : Type 0} (unix_nanos : W → ℕ) (begin_tx : ℕ → ℕ → W → LoraTx × W) (sleep : ℕ → W → W)
    (resolve : ℕ → ℕ → ℕ → W → Bool × W) (transit : ℕ → ℕ → List ℕ → W → Bool × W) (lo hi : ℕ)
    (w : W) (n : ℕ) (links : List (ℕ × ℕ)) (view : TopologyView) (u d c seq fuel lifetime : ℕ)
    (payload : List ℕ)
    → Carries unix_nanos transit lo hi
    → n ≤ 256
    → All (λ l. (l.0 < n) × (l.1 < n)) links
    → from_links n links ≡ some view
    → u < n
    → d ≢ u
    → Walk view.adj u d c
    → c ≤ 64
    → seq < 4294967296
    → 2 * c ≤ fuel
    → c * (2 * hi) < lifetime
    → Returns
        (λ s.
          Returns
            (λ r.
              (rtt : ℕ) × (m : ℕ) × Least view.adj u d m
              × (r.0 ≡ received rtt (length payload))
              × (m * (2 * lo) ≤ rtt)
              × (rtt ≤ m * (2 * hi))
              × Kept s r.1)
            (ping unix_nanos begin_tx sleep resolve transit fuel u
              (address d)
              seq
              payload
              lifetime
              s
              w))
        (from_links_with compute n links)
from_links_with-received unix_nanos begin_tx sleep resolve transit lo hi w n links view u d c seq
      fuel lifetime payload carries small l made lu ne k few ok enough soon =
    let b = from_links-Built n links view small l made in
    let ld : d < n =
      omega (arith, Walk-below view b.good k (omega (arith, lu, b.nodes)), b.nodes) in
    let (m, lm, go) =
      nearest view u d c b.good (omega (arith, lu, b.nodes)) ne k (omega (arith, few)) in
    let (m', lm', back) =
      nearest view d u c b.good (omega (arith, ld, b.nodes)) (λ e. ne (sym e))
        (Walk-reverse view.adj b.symmetric k) (omega (arith, few)) in
    let same : m' ≡ m = omega (
      arith,
      go.least m' (Walk-reverse view.adj b.symmetric back.walk),
      back.least m (Walk-reverse view.adj b.symmetric go.walk),
    ) in
    let back' = subst (Least view.adj d u) same back in
    let twice : (x : ℕ) → m * x + m * x ≡ m * (2 * x) = λ x. grind arith in
    let within : m * (2 * hi) ≤ c * (2 * hi) = mul_mono m c (2 * hi) lm in
    Returns-mono (Network n view.adj) _ (from_links_with compute n links)
      (λ s h.
        let (rtt, s', w', ran, least, most, kept) =
          ping-received n view.adj small b.unit unix_nanos begin_tx sleep resolve transit lo hi
            carries s w u d m m seq fuel lifetime payload h lu ld ne go back'
            (omega (arith, lm, few)) (omega (arith, lm, few)) ok (omega (arith, lm, enough))
            (omega (arith, twice hi, within, soon)) in
        rw ran
          (rtt, m, go, refl, omega (arith, twice lo, least), omega (arith, twice hi, most), kept))
      b.network
  where
    mul_mono : (a b x : ℕ) → a ≤ b → a * x ≤ b * x
    mul_mono a b x l = grind arith
