-- ===== src/Ip/Network/Kept.antt =====
-- What stays of a network while packets of crates/ndn-sim-studies/src/ip.rs go through it.
use ndn_sim.Prelude.{
  ℕ, ◌<◌, ◌≡◌, ◌≢◌, refl, sym, ◌∙◌, ap, subst, inl, inr, List, Option, some, Bool-cases, ◌==◌,
  ==_iff, false≢true, get_elem?, get_elem?-lt, get_elem?-set_self, get_elem?-set_ne, set,
}
use ndn_sim.Ip.{IpNode, LoraHandle, lpm}
use ndn_sim.Ip.Network.{Wiring, address}
use ndn_sim.Ip.Network.Wired.{some_eq}
use ndn_sim.Ip.Network.Ready.{ReadyAt}

-- Every node of the network has the ways.
pub record Network (n : ℕ) (adj : List (List (ℕ × ℕ))) (s : Wiring) : Type 0 where
  pub at :
      (u : ℕ)
      → u < n
      → (node : IpNode) × (far : List ℕ) × (get_elem? s.nodes u ≡ some node)
        × (get_elem? s.ends u ≡ some far)
        × ReadyAt n adj u far node

-- Nodes that differ in their counters alone.
pub record Alike (node node' : IpNode) : Type 0 where
  pub addr : node'.addr ≡ node.addr
  pub faces : node'.faces ≡ node.faces
  pub routes : node'.routes ≡ node.routes
  pub lora : ◌≡◌ {A = Option LoraHandle} node'.lora node.lora
  pub replies : node'.replies ≡ node.replies

pub record Kept (s s' : Wiring) : Type 0 where
  pub ends : s'.ends ≡ s.ends
  pub nodes :
      (u : ℕ) (node : IpNode)
      → get_elem? s.nodes u ≡ some node
      → (node' : IpNode) × (get_elem? s'.nodes u ≡ some node') × Alike node node'

pub Kept-refl : (s : Wiring) → Kept s s
Kept-refl s = record {
  ends = refl;
  nodes = λ u node e.
      (node, e, record { addr = refl; faces = refl; routes = refl; lora = refl; replies = refl });
}

pub Kept-trans : (s s1 s2 : Wiring) → Kept s s1 → Kept s1 s2 → Kept s s2
Kept-trans s s1 s2 h k = record {
  ends = k.ends ∙ h.ends;
  nodes = λ u node e.
      let (node1, e1, a) = h.nodes u node e in
      let (node2, e2, b) = k.nodes u node1 e1 in
      (
        node2,
        e2,
        record {
          addr = b.addr ∙ a.addr;
          faces = b.faces ∙ a.faces;
          routes = b.routes ∙ a.routes;
          lora = b.lora ∙ a.lora;
          replies = b.replies ∙ a.replies;
        },
      );
}

pub Kept-set :
    (s : Wiring) (u : ℕ) (node node' : IpNode)
    → get_elem? s.nodes u ≡ some node
    → Alike node node'
    → Kept s (record s { nodes = set s.nodes u node' })
Kept-set s u node node' e a = record {
  ends = refl;
  nodes = λ v x f. elim (Bool-cases (u == v)) [
    | inl y ↦
        let same : u ≡ v = (==_iff u v).0 y in
        let this : node ≡ x = some_eq (sym e ∙ ap (get_elem? s.nodes) same ∙ f) in
        (
          node',
          ap (get_elem? (set s.nodes u node')) (sym same)
              ∙ get_elem?-set_self s.nodes u node' (get_elem?-lt s.nodes u e),
          subst (λ z. Alike z node') this a,
        )
    | inr y ↦
        let apart : u ≢ v = λ g. false≢true (sym y ∙ (==_iff u v).1 g) in
        (
          x,
          get_elem?-set_ne s.nodes u v node' apart ∙ f,
          record { addr = refl; faces = refl; routes = refl; lora = refl; replies = refl },
        )
  ];
}

ReadyAt-Alike :
    (n : ℕ) (adj : List (List (ℕ × ℕ))) (u : ℕ) (far : List ℕ) (node node' : IpNode)
    → Alike node node'
    → ReadyAt n adj u far node
    → ReadyAt n adj u far node'
ReadyAt-Alike n adj u far node node' a h = record {
  addr = a.addr ∙ h.addr;
  no_lora = a.lora ∙ h.no_lora;
  no_replies = a.replies ∙ h.no_replies;
  forwards = λ d m l ne k f.
      let q = h.forwards d m l ne k f in
      record {
        via = q.via;
        hop = q.hop;
        rest = q.rest;
        found = ap (λ z. lpm z (address d)) a.routes ∙ q.found;
        face = subst (λ z. q.via < z) (sym a.faces) q.face;
        leads = q.leads;
        node_there = q.node_there;
        nearer = q.nearer;
        least = q.least;
      };
}

pub Network-Kept :
    (n : ℕ) (adj : List (List (ℕ × ℕ))) (s s' : Wiring)
    → Kept s s'
    → Network n adj s
    → Network n adj s'
Network-Kept n adj s s' k h = record {
  at = λ u l.
      let (node, far, e, f, r) = h.at u l in
      let (node', e', a) = k.nodes u node e in
      (
        node',
        far,
        e',
        ap (λ z. get_elem? z u) k.ends ∙ f,
        ReadyAt-Alike n adj u far node node' a r,
      );
}
