-- ===== src/Ip/Network/Tables.antt =====
-- The routes that `IpNetwork::from_links_with` of crates/ndn-sim-studies/src/ip.rs installs.
use ndn_sim.Prelude.{
  ℕ, zero, suc, ◌+◌, ◌<◌, ◌≡◌, refl, sym, ◌∙◌, ap, ◌⊎◌, inl, inr, List, [], ◌∷◌, map, Option, none,
  some, arith, Option-cases, length, get_elem?, In, here, there, In-append, In-append_left,
  In-append_right, range, Returns, Returns->>=, Returns-mono,
}
use ndn_sim.Routing.Dijkstra.{RouteEntry}
use ndn_sim.Ip.{IpNode, IpRoute, LoraHandle, add_route}
use ndn_sim.Ip.Network.{address, face_of, install, install_all}
use ndn_sim.Ip.Network.Wired.{get_elem?-map_range, some_eq}

-- The route to the destination of an entry.
abbrev pub route_for : RouteEntry → ℕ → IpRoute
route_for e via = record { net = address e.dest; prefix_len = 32; via = via }

-- What installing a table does to a node.
pub record Installed (tos : List (ℕ × ℕ)) (es : List RouteEntry) (node node' : IpNode)
    : Type 0 where
  pub addr : node'.addr ≡ node.addr
  pub faces : node'.faces ≡ node.faces
  pub lora : ◌≡◌ {A = Option LoraHandle} node'.lora node.lora
  pub replies : node'.replies ≡ node.replies
  pub from :
      (r : IpRoute)
      → In r node'.routes
      → In r node.routes
        ⊎ ((e : RouteEntry) × In e es
            × (r.net ≡ address e.dest)
            × (r.prefix_len ≡ 32)
            × (face_of tos e.next_hop ≡ some r.via))
  pub kept : (r : IpRoute) → In r node.routes → In r node'.routes
  pub has :
      (e : RouteEntry) (via : ℕ)
      → In e es
      → face_of tos e.next_hop ≡ some via
      → In (route_for e via) node'.routes

install-Installed :
    (n : ℕ) (tos : List (ℕ × ℕ)) (es : List RouteEntry) (node : IpNode)
    → ((e : RouteEntry) → In e es → e.dest < n)
    → Returns (Installed tos es node) (install tos (map address (range 0 n)) es node)
unfolding install
install-Installed n tos [] node l = record {
  addr = refl;
  faces = refl;
  lora = refl;
  replies = refl;
  from = λ r m. inl m;
  kept = λ r m. m;
  has = λ e via m. elim m [ ];
}
install-Installed n tos (e ∷ es) node l = elim (Option-cases (face_of tos e.next_hop)) [
  | inl none_there ↦
      rw (none_there, install)
        (Returns-mono (Installed tos es node) _ (install tos (map address (range 0 n)) es node)
          (λ node' k. record {
            addr = k.addr;
            faces = k.faces;
            lora = k.lora;
            replies = k.replies;
            from = λ r m. elim (k.from r m) [
              | inl old ↦ inl old
              | inr (q, p, x, y, z) ↦ inr (q, there p, x, y, z)
            ];
            kept = k.kept;
            has = λ q via m f. elim m [
              | there m' ↦ k.has q via m' f
              | here g ↦ absurd (nothing (sym none_there ∙ ap (λ z. face_of tos z.next_hop) g ∙ f))
            ];
          })
          (install-Installed n tos es node (λ q m. l q (there m))))
  | inr (via, there_is) ↦
      let below = l e (here refl) in
      let this : 0 + e.dest ≡ e.dest = omega arith in
      let read : get_elem? (map address (range 0 n)) e.dest ≡ some (address e.dest) =
        get_elem?-map_range address 0 n e.dest below ∙ ap (λ z. some (address z)) this in
      let node1 : IpNode = add_route (address e.dest) 32 via node in
      rw (there_is, read, install)
        (Returns-mono (Installed tos es node1) _ (install tos (map address (range 0 n)) es node1)
          (λ node' k. record {
            addr = k.addr;
            faces = k.faces;
            lora = k.lora;
            replies = k.replies;
            from = λ r m. elim (k.from r m) [
              | inl old ↦ elim (In-append node.routes _ old) [
                | inl m' ↦ inl m'
                | inr new ↦ elim new [
                  | there k' ↦ elim k' [ ]
                  | here f ↦ inr (
                    e,
                    here refl,
                    sym (ap (λ z. z.net) f),
                    sym (ap (λ z. z.prefix_len) f),
                    there_is ∙ ap (λ z. some z.via) f,
                  )
                ]
              ]
              | inr (q, p, x, y, z) ↦ inr (q, there p, x, y, z)
            ];
            kept = λ r m. k.kept r (In-append_left node.routes _ m);
            has = λ q i m f. elim m [
              | there m' ↦ k.has q i m' f
              | here g ↦
                  let same : via ≡ i =
                    some_eq (sym there_is ∙ ap (λ z. face_of tos z.next_hop) g ∙ f) in
                  k.kept _ (
                    In-append_right node.routes _
                      (here (ap (λ z. route_for z via) g ∙ ap (route_for q) same)))
            ];
          })
          (install-Installed n tos es node1 (λ q m. l q (there m))))
]
  where
    nothing : {i : ℕ} → none ≡ some i → ⊥
    nothing e = cc

-- All tables are installed.
pub record AllInstalled (face_to : List (List (ℕ × ℕ))) (tables : List (List RouteEntry))
    (nodes nodes' : List IpNode) : Type 0 where
  pub count : length nodes' ≡ length nodes
  pub at :
      (u : ℕ) (tos : List (ℕ × ℕ)) (es : List RouteEntry) (node : IpNode)
      → get_elem? face_to u ≡ some tos
      → get_elem? tables u ≡ some es
      → get_elem? nodes u ≡ some node
      → (node' : IpNode) × (get_elem? nodes' u ≡ some node') × Installed tos es node node'

pub install_all-AllInstalled :
    (n : ℕ) (face_to : List (List (ℕ × ℕ))) (tables : List (List RouteEntry)) (nodes : List IpNode)
    → length face_to ≡ length tables
    → length nodes ≡ length tables
    → ((i : ℕ) (es : List RouteEntry)
        → get_elem? tables i ≡ some es
        → (e : RouteEntry) → In e es
        → e.dest < n)
    → Returns
        (AllInstalled face_to tables nodes)
        (install_all face_to (map address (range 0 n)) tables nodes)
unfolding install_all
install_all-AllInstalled n face_to [] nodes a b l = record {
  count = refl;
  at = λ u tos es node e f g. absurd (cc);
}
install_all-AllInstalled n face_to (table ∷ tables) [] a b l = absurd (omega (arith, b))
install_all-AllInstalled n [] (table ∷ tables) (node ∷ nodes) a b l = absurd (omega (arith, a))
install_all-AllInstalled n (tos ∷ face_to) (table ∷ tables) (node ∷ nodes) a b l =
    Returns->>= (Installed tos table node) _ (install tos (map address (range 0 n)) table node) _
      (install-Installed n tos table node (l 0 table refl))
      λ node' h.
        Returns->>= (AllInstalled face_to tables nodes) _
          (install_all face_to (map address (range 0 n)) tables nodes) _
          (install_all-AllInstalled n face_to tables nodes (omega (arith, a)) (omega (arith, b))
            (λ i es e. l (suc i) es e))
          λ nodes' r. record { count = ap suc r.count; at = at_node node' nodes' h r }
  where
    at_node :
        (node' : IpNode) (nodes' : List IpNode)
        → Installed tos table node node'
        → AllInstalled face_to tables nodes nodes'
        → (u : ℕ) (to : List (ℕ × ℕ)) (es : List RouteEntry) (x : IpNode)
        → get_elem? (tos ∷ face_to) u ≡ some to
        → get_elem? (table ∷ tables) u ≡ some es
        → get_elem? (node ∷ nodes) u ≡ some x
        → (y : IpNode) × (get_elem? (node' ∷ nodes') u ≡ some y) × Installed to es x y
    at_node node' nodes' h r zero to es x e f g =
        (node', refl, rw (← some_eq e, ← some_eq f, ← some_eq g) h)
    at_node node' nodes' h r (suc u) to es x e f g = r.at u to es x e f g
