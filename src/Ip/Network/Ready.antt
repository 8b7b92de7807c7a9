-- ===== src/Ip/Network/Ready.antt =====
-- The nodes that `IpNetwork::from_links_with` of crates/ndn-sim-studies/src/ip.rs starts, with the
-- tables of shortest walks: each has the routes of the walks.
use ndn_sim.Prelude.{
  ℕ, suc, ◌≤◌, ◌<◌, ◌≡◌, ◌≢◌, sym, ◌∙◌, ap, subst, inl, inr, true, List, [], Option, none, some,
  arith, Option-cases, get_elem?, get_elem?-lt, In,
}
use ndn_sim.Routing.{TopologyView}
use ndn_sim.Routing.View.{Edge, IsView}
use ndn_sim.Routing.Dijkstra.{RouteEntry, u32_max}
use ndn_sim.Routing.Dijkstra.State.{Walk, along}
use ndn_sim.Routing.Dijkstra.Shortest.{IsShortest}
use ndn_sim.Ip.{IpNode, IpRoute, LoraHandle, in_prefix, lpm}
use ndn_sim.Ip.Prefix.{in_prefix_lem}
use ndn_sim.Ip.Lpm.{IsLongest, lpm-IsLongest}
use ndn_sim.Ip.Network.{address, face_of}
use ndn_sim.Ip.Network.Wired.{WiredAt, some_eq}
use ndn_sim.Ip.Network.Tables.{Installed, route_for}

-- A walk of cost `m`, and none is shorter.
pub record Least (adj : List (List (ℕ × ℕ))) (u d m : ℕ) : Type 0 where
  pub walk : Walk adj u d m
  pub least : (c : ℕ) → Walk adj u d c → m ≤ c

-- The addresses of up to 256 nodes differ.
pub address_below : (i : ℕ) → address i < 4294967296
address_below i = omega arith

pub address_inj : (i j : ℕ) → i < 256 → j < 256 → address i ≡ address j → i ≡ j
address_inj i j a b e = omega (arith, e, a, b)

-- A route to one host matches that host alone.
in_prefix-address :
    (i j : ℕ)
    → i < 256
    → j < 256
    → (in_prefix (address i) (address j) 32 ≡ true → i ≡ j)
      × (i ≡ j → in_prefix (address i) (address j) 32 ≡ true)
in_prefix-address i j a b =
    let iff = in_prefix_lem (address i) (address j) 32 (address_below i) (address_below j) in
    (λ e. address_inj i j a b (iff.0 e), λ e. iff.1 (ap address e))

-- The way from one node to another: the face and the node there, which is one nearer.
pub record Forwards (n : ℕ) (adj : List (List (ℕ × ℕ))) (far : List ℕ) (node : IpNode) (d m : ℕ)
    : Type 0 where
  pub via : ℕ
  pub hop : ℕ
  pub rest : ℕ
  pub found : lpm node.routes (address d) ≡ some via
  pub face : via < node.faces
  pub leads : get_elem? far via ≡ some hop
  pub node_there : hop < n
  pub nearer : m ≡ suc rest
  pub least : Least adj hop d rest

-- A node that has the way to each node a walk leads to.
pub record ReadyAt (n : ℕ) (adj : List (List (ℕ × ℕ))) (u : ℕ) (far : List ℕ) (node : IpNode)
    : Type 0 where
  pub addr : node.addr ≡ address u
  pub no_lora : ◌≡◌ {A = Option LoraHandle} node.lora none
  pub no_replies : node.replies ≡ []
  pub forwards :
      (d m : ℕ) → d < n → d ≢ u → Least adj u d m → m < u32_max → Forwards n adj far node d m

-- The entry that a lookup goes by.
record Entry (es : List RouteEntry) (tos : List (ℕ × ℕ)) (node : IpNode) (d : ℕ) : Type 0 where
  entry : RouteEntry
  via : ℕ
  listed : In entry es
  dest : entry.dest ≡ d
  known : face_of tos entry.next_hop ≡ some via
  found : lpm node.routes (address d) ≡ some via

looked_up :
    (n : ℕ) (tos : List (ℕ × ℕ)) (es : List RouteEntry) (node node' : IpNode) (d : ℕ)
    → n ≤ 256
    → Installed tos es node node'
    → node.routes ≡ []
    → ((e : RouteEntry) → In e es → e.dest < n)
    → (e : RouteEntry) → In e es
    → e.dest ≡ d
    → (i : ℕ) → face_of tos e.next_hop ≡ some i
    → Entry es tos node' d
looked_up n tos es node node' d small h fresh below e m at_d i known =
    elim (Option-cases (lpm node'.routes (address d))) [
      | inl f ↦ absurd (
          none_there (subst (IsLongest node'.routes (address d)) f longest) (h.has e i m known) (
            (in_prefix-address d e.dest (omega (arith, small, below e m, at_d))
                (omega (arith, small, below e m))).1
              (sym at_d)))
      | inr (via, f) ↦ which via f (subst (IsLongest node'.routes (address d)) f longest)
    ]
  where
    longest : IsLongest node'.routes (address d) (lpm node'.routes (address d))
    longest = lpm-IsLongest node'.routes (address d)

    none_there :
        IsLongest node'.routes (address d) none
        → In (route_for e i) node'.routes
        → in_prefix (address d) (address e.dest) 32 ≡ true
        → ⊥
    none_there k p y = k (route_for e i) p y

    which :
        (via : ℕ)
        → lpm node'.routes (address d) ≡ some via
        → IsLongest node'.routes (address d) (some via)
        → Entry es tos node' d
    which via f (r, p, y, g, _) = elim (h.from r p) [
      | inl old ↦ absurd (nothing (subst (In r) fresh old))
      | inr (q, k, net, len, face) ↦ record {
        entry = q;
        via = via;
        listed = k;
        dest =
            let z : in_prefix (address d) (address q.dest) 32 ≡ true = rw (← net, ← len) y in
            sym (
              (in_prefix-address d q.dest (omega (arith, small, below e m, at_d))
                  (omega (arith, small, below q k))).0
                z);
        known = face ∙ ap some g;
        found = f;
      }
    ]
      where
        nothing : {r : IpRoute} → In r [] → ⊥
        nothing k = elim k [ ]

-- A node that is wired and has the tables installed.
pub ReadyAt-of :
    (view : TopologyView) (u : ℕ) (row tos : List (ℕ × ℕ)) (far : List ℕ) (es : List RouteEntry)
    (node node' : IpNode)
    → view.n ≤ 256
    → IsView view
    → ((a b w : ℕ) → Edge view.adj a b w → w ≡ 1)
    → get_elem? view.adj u ≡ some row
    → WiredAt u row tos far node
    → IsShortest view u es
    → Installed tos es node node'
    → ReadyAt view.n view.adj u far node'
ReadyAt-of view u row tos far es node node' small good unit at_u wired tables h = record {
  addr = h.addr ∙ wired.addr;
  no_lora = h.lora ∙ wired.no_lora;
  no_replies = h.replies ∙ wired.no_replies;
  forwards = λ d m l ne k f.
      let (e, listed, at_d) = tables.complete d m ne k.walk f in
      let (w0, c0, edge0, _, _) = tables.walks e listed in
      let (i, known) = wired.known e.next_hop w0 (in_row e.next_hop w0 edge0) in
      let x =
        looked_up view.n tos es node node' d small h wired.no_routes (λ q p. (tables.others q p).0)
          e listed at_d i known in
      let (w, c, edge, rest, cost) = tables.walks x.entry x.listed in
      let metric : x.entry.metric ≡ m = omega (
        arith,
        tables.least x.entry x.listed m (subst (λ z. Walk view.adj u z m) (sym x.dest) k.walk),
        k.least x.entry.metric
            (subst (λ z. Walk view.adj u z x.entry.metric) x.dest (along edge rest cost)),
      ) in
      let one : w ≡ 1 = unit u x.entry.next_hop w edge in
      let nearer : m ≡ suc c = omega (arith, metric, cost, one) in
      let there_is = wired.right x.entry.next_hop x.via x.known in
      record {
        via = x.via;
        hop = x.entry.next_hop;
        rest = c;
        found = x.found;
        face = omega (arith, get_elem?-lt far x.via there_is, wired.faces, h.faces);
        leads = there_is;
        node_there = good.ends u x.entry.next_hop w edge;
        nearer = nearer;
        least = record {
          walk = subst (λ z. Walk view.adj x.entry.next_hop z c) x.dest rest;
          least =
              λ c' q. omega (arith, nearer, k.least (suc c') (along edge q (omega (arith, one))));
        };
      };
}
  where
    in_row : (v w : ℕ) → Edge view.adj u v w → In {A = ℕ × ℕ} (v, w) row
    in_row v w (r, e, m) = subst (In (v, w)) (some_eq (sym e ∙ at_u)) m
