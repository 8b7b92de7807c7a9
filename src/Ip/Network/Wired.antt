-- ===== src/Ip/Network/Wired.antt =====
-- The faces that `IpNetwork::from_links_with` of crates/ndn-sim-studies/src/ip.rs attaches lead where
-- the links do.
use ndn_sim.Prelude.{
  ℕ, zero, suc, ◌+◌, ◌<◌, ◌≡◌, ◌≢◌, refl, sym, ◌∙◌, ap, ◌⊎◌, inl, inr, List, [], ◌∷◌, ◌++◌, map,
  Option, none, some, arith, Bool-cases, ◌==◌, ==_iff, false≢true, length, length-append,
  length-set, length-map, length-range, get_elem?, get_elem?-set_self, get_elem?-set_ne,
  get_elem?-lt, get_elem?-append_left, get_elem?-append_length, set, All, In, here, there,
  In-append, In-append_left, In-append_right, range,
}
use ndn_sim.Routing.{push_edge, push_links, empty_rows}
use ndn_sim.Ip.{IpNode, LoraHandle, new_node, attach}
use ndn_sim.Ip.Network.{Wiring, attach_to, wire_links, face_of, start_wiring, address}

-- Node `u`, with no routes yet: its row of the view, its faces, and their other ends.
pub record WiredAt (u : ℕ) (row tos : List (ℕ × ℕ)) (far : List ℕ) (node : IpNode) : Type 0 where
  pub addr : node.addr ≡ address u
  pub faces : node.faces ≡ length far
  pub no_routes : node.routes ≡ []
  pub no_lora : ◌≡◌ {A = Option LoraHandle} node.lora none
  pub no_replies : node.replies ≡ []
  pub known : (v w : ℕ) → In {A = ℕ × ℕ} (v, w) row → (i : ℕ) × (face_of tos v ≡ some i)
  pub right : (v i : ℕ) → face_of tos v ≡ some i → get_elem? far i ≡ some v
  pub both_ways : (i v : ℕ) → get_elem? far i ≡ some v → (w : ℕ) × In {A = ℕ × ℕ} (v, w) row

-- All nodes of a wiring.
pub record Wired (n : ℕ) (adj : List (List (ℕ × ℕ))) (s : Wiring) : Type 0 where
  pub rows : length adj ≡ n
  pub nodes : length s.nodes ≡ n
  pub tos : length s.face_to ≡ n
  pub ends : length s.ends ≡ n
  pub at :
      (u : ℕ) (row tos : List (ℕ × ℕ)) (far : List ℕ) (node : IpNode)
      → get_elem? adj u ≡ some row
      → get_elem? s.face_to u ≡ some tos
      → get_elem? s.ends u ≡ some far
      → get_elem? s.nodes u ≡ some node
      → WiredAt u row tos far node

pub read_at {ℓ} :
    {A : Type ℓ} (xs : List A) (i : ℕ) → i < length xs → (x : A) × (get_elem? xs i ≡ some x)
read_at [] i l = absurd (omega arith)
read_at (x ∷ xs) zero l = (x, refl)
read_at (x ∷ xs) (suc i) l = read_at xs i (omega arith)

pub some_eq {ℓ} : {A : Type ℓ} {a b : A} → some a ≡ some b → a ≡ b
some_eq e = cc

-- A new face at one node.
WiredAt-attach :
    (u b : ℕ) (row tos : List (ℕ × ℕ)) (far : List ℕ) (node : IpNode)
    → WiredAt u row tos far node
    → WiredAt u (row ++ (b, 1) ∷ []) ((b, (attach node).1) ∷ tos) (far ++ b ∷ []) (attach node).0
WiredAt-attach u b row tos far node h = record {
  addr = h.addr;
  faces = omega (arith, h.faces, length-append far (b ∷ []));
  no_routes = h.no_routes;
  no_lora = h.no_lora;
  no_replies = h.no_replies;
  known = λ v w m. elim (Bool-cases (b == v)) [
    | inl e ↦ (node.faces, rw e refl)
    | inr e ↦ elim (In-append row ((b, 1) ∷ []) m) [
      | inl k ↦ let (i, f) = h.known v w k in (i, rw e f)
      | inr k ↦ elim k [
        | here f ↦ let g : b ≡ v = ap (λ q. q.0) f in absurd (false≢true (sym e ∙ (==_iff b v).1 g))
        | there k' ↦ elim k' [ ]
      ]
    ]
  ];
  right = λ v i f. elim (Bool-cases (b == v)) [
    | inl e ↦
        let g : some node.faces ≡ some i = rw e at f in
        let at_end : i ≡ length far = sym (some_eq g) ∙ h.faces in
        rw (at_end, ← (==_iff b v).0 e) (get_elem?-append_length far b)
    | inr e ↦
        let g = h.right v i (rw e at f) in
        get_elem?-append_left far (b ∷ []) i (get_elem?-lt far i g) ∙ g
  ];
  both_ways = λ i v f. elim (old_or_last i v f) [
    | inl g ↦ let (w, m) = h.both_ways i v g in (w, In-append_left row _ m)
    | inr e ↦ (1, In-append_right row _ (here (ap (λ z. (z, 1)) e)))
  ];
}
  where
    old_or_last :
        (i v : ℕ) → get_elem? (far ++ b ∷ []) i ≡ some v → (get_elem? far i ≡ some v) ⊎ (b ≡ v)
    old_or_last = snoc far
      where
        snoc :
            (xs : List ℕ) (i v : ℕ)
            → get_elem? (xs ++ b ∷ []) i ≡ some v
            → (get_elem? xs i ≡ some v) ⊎ (b ≡ v)
        snoc [] zero v f = inr (some_eq f)
        snoc [] (suc i) v f = absurd (cc)
        snoc (x ∷ xs) zero v f = inl f
        snoc (x ∷ xs) (suc i) v f = snoc xs i v f

-- One end of a link.
Wired-attach :
    (n a b : ℕ) (adj : List (List (ℕ × ℕ))) (s : Wiring)
    → a < n
    → Wired n adj s
    → (adj' : List (List (ℕ × ℕ))) × (s' : Wiring) × (push_edge a (b, 1) adj ≡ some adj')
      × (attach_to a b s ≡ some s')
      × Wired n adj' s'
unfolding push_edge attach_to
Wired-attach n a b adj s l h =
    let (row, er) = read_at adj a (omega (arith, l, h.rows)) in
    let (tos, et) = read_at s.face_to a (omega (arith, l, h.tos)) in
    let (far, ef) = read_at s.ends a (omega (arith, l, h.ends)) in
    let (node, en) = read_at s.nodes a (omega (arith, l, h.nodes)) in
    let row' : List (ℕ × ℕ) = row ++ (b, 1) ∷ [] in
    let tos' : List (ℕ × ℕ) = (b, node.faces) ∷ tos in
    let far' : List ℕ = far ++ b ∷ [] in
    let node' : IpNode = (attach node).0 in
    let new = WiredAt-attach a b row tos far node (h.at a row tos far node er et ef en) in
    (
      set adj a row',
      record {
        nodes = set s.nodes a node';
        face_to = set s.face_to a tos';
        ends = set s.ends a far';
      },
      rw er refl,
      rw (en, et, ef) refl,
      record {
        rows = length-set adj a row' ∙ h.rows;
        nodes = length-set s.nodes a node' ∙ h.nodes;
        tos = length-set s.face_to a tos' ∙ h.tos;
        ends = length-set s.ends a far' ∙ h.ends;
        at = λ u r t f k gr gt gf gk. elim (Bool-cases (a == u)) [
          | inl e ↦
              let same : a ≡ u = (==_iff a u).0 e in
              let qr : row' ≡ r = some_eq (
                sym (get_elem?-set_self adj a row' (get_elem?-lt adj a er))
                ∙ ap (get_elem? (set adj a row')) same
                ∙ gr) in
              let qt : tos' ≡ t = some_eq (
                sym (get_elem?-set_self s.face_to a tos' (get_elem?-lt s.face_to a et))
                ∙ ap (get_elem? (set s.face_to a tos')) same
                ∙ gt) in
              let qf : far' ≡ f = some_eq (
                sym (get_elem?-set_self s.ends a far' (get_elem?-lt s.ends a ef))
                ∙ ap (get_elem? (set s.ends a far')) same
                ∙ gf) in
              let qk : node' ≡ k = some_eq (
                sym (get_elem?-set_self s.nodes a node' (get_elem?-lt s.nodes a en))
                ∙ ap (get_elem? (set s.nodes a node')) same
                ∙ gk) in
              rw (← qr, ← qt, ← qf, ← qk, ← same) new
          | inr e ↦
              let apart : a ≢ u = λ g. false≢true (sym e ∙ (==_iff a u).1 g) in
              h.at u r t f k (sym (get_elem?-set_ne adj a u row' apart) ∙ gr)
                (sym (get_elem?-set_ne s.face_to a u tos' apart) ∙ gt)
                (sym (get_elem?-set_ne s.ends a u far' apart) ∙ gf)
                (sym (get_elem?-set_ne s.nodes a u node' apart) ∙ gk)
        ];
      },
    )

-- The links are wired as the view has them.
pub wire_links-Wired :
    (n : ℕ) (links : List (ℕ × ℕ)) (adj : List (List (ℕ × ℕ))) (s : Wiring)
    → All (λ l. (l.0 < n) × (l.1 < n)) links
    → Wired n adj s
    → (adj' : List (List (ℕ × ℕ))) × (s' : Wiring) × (push_links links adj ≡ some adj')
      × (wire_links links s ≡ some s')
      × Wired n adj' s'
unfolding push_links wire_links
wire_links-Wired n [] adj s l h = (adj, s, refl, refl, h)
wire_links-Wired n ((a, b) ∷ links) adj s l h =
    let (adj1, s1, e1, f1, h1) = Wired-attach n a b adj s l.0.0 h in
    let (adj2, s2, e2, f2, h2) = Wired-attach n b a adj1 s1 l.0.1 h1 in
    let (adj3, s3, e3, f3, h3) = wire_links-Wired n links adj2 s2 l.1 h2 in
    (adj3, s3, rw (e1, e2) e3, rw (f1, f2) f3, h3)

pub get_elem?-map_range {ℓ} :
    {A : Type ℓ} (f : ℕ → A) (lo k i : ℕ)
    → i < k
    → get_elem? (map f (range lo k)) i ≡ some (f (lo + i))
get_elem?-map_range f lo zero i l = absurd (omega arith)
get_elem?-map_range f lo (suc k) zero l =
    let e : lo ≡ lo + 0 = omega arith in ap (λ z. some (f z)) e
get_elem?-map_range f lo (suc k) (suc i) l =
    let e : suc lo + i ≡ lo + suc i = omega arith in
    get_elem?-map_range f (suc lo) k i (omega arith) ∙ ap (λ z. some (f z)) e

length-map_range {ℓ} : {A : Type ℓ} (f : ℕ → A) (lo k : ℕ) → length (map f (range lo k)) ≡ k
length-map_range f lo k = length-map (range lo k) f ∙ length-range lo k

empty_rows_at : (n u : ℕ) (row : List (ℕ × ℕ)) → get_elem? (empty_rows n) u ≡ some row → row ≡ []
empty_rows_at zero u row e = absurd (cc)
empty_rows_at (suc n) zero row e = sym (some_eq e)
empty_rows_at (suc n) (suc u) row e = empty_rows_at n u row e

length-empty_rows : (n : ℕ) → length (empty_rows n) ≡ n
length-empty_rows zero = refl
length-empty_rows (suc n) = ap suc (length-empty_rows n)

-- Before any link.
pub start_wiring-Wired : (n : ℕ) → Wired n (empty_rows n) (start_wiring n)
start_wiring-Wired n = record {
  rows = length-empty_rows n;
  nodes = length-map_range (λ i. new_node (address i)) 0 n;
  tos = length-map_range (λ i. []) 0 n;
  ends = length-map_range (λ i. []) 0 n;
  at = λ u row tos far node er et ef en.
      let l : u < n = omega (arith, get_elem?-lt (empty_rows n) u er, length-empty_rows n) in
      let none_row = empty_rows_at n u row er in
      let none_to : [] ≡ tos = some_eq (sym (get_elem?-map_range (λ i. []) 0 n u l) ∙ et) in
      let none_far : [] ≡ far = some_eq (sym (get_elem?-map_range (λ i. []) 0 n u l) ∙ ef) in
      let fresh : new_node (address (0 + u)) ≡ node =
        some_eq (sym (get_elem?-map_range (λ i. new_node (address i)) 0 n u l) ∙ en) in
      let this : 0 + u ≡ u = omega arith in
      rw (none_row, ← none_to, ← none_far, ← fresh, this) (fresh_at u);
}
  where
    fresh_at : (u : ℕ) → WiredAt u [] [] [] (new_node (address u))
    fresh_at u = record {
      addr = refl;
      faces = refl;
      no_routes = refl;
      no_lora = refl;
      no_replies = refl;
      known = λ v w m. elim m [ ];
      right = λ v i e. absurd (cc);
      both_ways = λ i v e. absurd (cc);
    }
