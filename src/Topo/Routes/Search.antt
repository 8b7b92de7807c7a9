-- ===== src/Topo/Routes/Search.antt =====
-- The breadth-first search of `add_routes_toward` in crates/ndn-sim/src/topo.rs: what its queue and
-- its map hold, and that it ends.
use ndn_sim.Prelude.{
  ℕ, zero, suc, ◌≤◌, ◌<◌, ◌≡◌, refl, sym, ap, subst, ◌⊎◌, inl, inr, Bool, true, false, false≢true,
  List, [], ◌∷◌, ◌++◌, some, if◌then◌else◌, ◌==◌, ==_iff, length, get_elem?, set, All, All-append,
  In, here, there, In-append, In-append_left, In-append_right,
}
use ndn_sim.Topo.{Link}
use ndn_sim.Topo.Connected.{Touches}
use ndn_sim.Topo.Routes.{ends, adjacency, Bfs}

-- Some link joins the two nodes.
abbrev pub Linked : List Link → ℕ → ℕ → Type 0
Linked ls v w = (l : Link) × In l ls × Touches l v w

pub Linked-sym : (ls : List Link) (v w : ℕ) → Linked ls v w → Linked ls w v
Linked-sym ls v w (l, m, inl t) = (l, m, inr t)
Linked-sym ls v w (l, m, inr t) = (l, m, inl t)

-- Every link joins nodes below `n`.
abbrev pub InRange : ℕ → List Link → Type 0
InRange n ls = All (λ l. (l.a < n) × (l.b < n)) ls

In-if : (c : Bool) (x y : ℕ) → In y (if c then x ∷ [] else []) → (c ≡ true) × (y ≡ x)
In-if true x y (here e) = (refl, sym e)
In-if true x y (there m) = elim m [ ]
In-if false x y m = elim m [ ]

pub ends-Touches : (l : Link) (u w : ℕ) → In w (ends l u) → Touches l u w
ends-Touches l u w m = elim (In-append (if l.a == u then l.b ∷ [] else []) _ m) [
  | inl k ↦ let (e, f) = In-if (l.a == u) l.b w k in inl ((==_iff l.a u).0 e, sym f)
  | inr k ↦ let (e, f) = In-if (l.b == u) l.a w k in inr (sym f, (==_iff l.b u).0 e)
]

In-then : (c : Bool) (x y : ℕ) → c ≡ true → y ≡ x → In y (if c then x ∷ [] else [])
In-then true x y e f = here (sym f)
In-then false x y e f = absurd (false≢true e)

In-ends : (l : Link) (u w : ℕ) → Touches l u w → In w (ends l u)
In-ends l u w (inl (e, f)) =
    In-append_left _ _ (In-then (l.a == u) l.b w ((==_iff l.a u).1 e) (sym f))
In-ends l u w (inr (e, f)) =
    In-append_right (if l.a == u then l.b ∷ [] else []) _
      (In-then (l.b == u) l.a w ((==_iff l.b u).1 f) (sym e))

-- The neighbours are the nodes that a link joins to the node.
pub adjacency-Linked : (ls : List Link) (u w : ℕ) → In w (adjacency ls u) → Linked ls u w
adjacency-Linked [] u w m = elim m [ ]
adjacency-Linked (l ∷ ls) u w m = elim (In-append (ends l u) (adjacency ls u) m) [
  | inl k ↦ (l, here refl, ends-Touches l u w k)
  | inr k ↦ let (l', h, t) = adjacency-Linked ls u w k in (l', there h, t)
]

pub In-adjacency :
    (ls : List Link) (l : Link) (u w : ℕ) → In l ls → Touches l u w → In w (adjacency ls u)
In-adjacency [] l u w m t = elim m [ ]
In-adjacency (l' ∷ ls) l u w (here e) t =
    In-append_left _ _ (In-ends l' u w (subst (λ z. Touches z u w) (sym e) t))
In-adjacency (l' ∷ ls) l u w (there m) t = In-append_right (ends l' u) _ (In-adjacency ls l u w m t)

pub adjacency-below :
    (n : ℕ) (ls : List Link) (u : ℕ) → InRange n ls → All (λ w. w < n) (adjacency ls u)
adjacency-below n [] u r = tt
adjacency-below n (l ∷ ls) u r =
    All-append _ (ends l u) _ (go (l.a == u) (l.b == u)) (adjacency-below n ls u r.1)
  where
    go :
        (x y : Bool)
        → All (λ w. w < n) ((if x then l.b ∷ [] else []) ++ (if y then l.a ∷ [] else []))
    go true true = (r.0.1, (r.0.0, tt))
    go true false = (r.0.1, tt)
    go false true = (r.0.0, tt)
    go false false = tt

abbrev pub Seen : Bfs → ℕ → Type 0
Seen b v = get_elem? b.seen v ≡ some true

-- Each number is at least the one before it, by `d`.
abbrev pub Rising : (ℕ → ℕ) → List ℕ → Type 0
Rising d [] = Unit
Rising d (x ∷ xs) = All (λ y. d x ≤ d y) xs × Rising d xs

-- Where a search from `dest` stands: `d` is the number of hops of each node that is seen, `line` the
-- nodes whose neighbours are not all looked at, the first of which is `u` with `todo` still to do.
pub record At (links : List Link) (dest n u : ℕ) (d : ℕ → ℕ) (todo line : List ℕ) (b : Bfs)
    : Type 0 where
  pub size : length b.seen ≡ n
  pub root : Seen b dest × (d dest ≡ 0)
  pub hops :
      All (λ e. (Seen b e.0 × Seen b e.1) × Linked links e.0 e.1 × (d e.0 ≡ suc (d e.1))) b.next_hop
  pub found : (v : ℕ) → Seen b v → (v ≡ dest) ⊎ ((w : ℕ) × In (v, w) b.next_hop)
  pub queued : All (Seen b) line
  pub rising : Rising d line
  pub near : (v : ℕ) → Seen b v → All (λ q. d v ≤ suc (d q)) line
  pub looked :
      (v : ℕ)
      → Seen b v
      → In v b.queue
        ⊎ ((w : ℕ) → Linked links v w → ((v ≡ u) × In w todo) ⊎ (Seen b w × (d w ≤ suc (d v))))

-- How many nodes are not seen.
abbrev pub unseen : List Bool → ℕ
unseen [] = 0
unseen (true ∷ bs) = unseen bs
unseen (false ∷ bs) = suc (unseen bs)

pub unseen-set :
    (bs : List Bool) (w : ℕ)
    → get_elem? bs w ≡ some false
    → suc (unseen (set bs w true)) ≡ unseen bs
unseen-set [] w e = absurd (cc)
unseen-set (true ∷ bs) zero e = absurd (cc)
unseen-set (false ∷ bs) zero e = refl
unseen-set (true ∷ bs) (suc w) e = unseen-set bs w e
unseen-set (false ∷ bs) (suc w) e = ap suc (unseen-set bs w e)

pub Rising-snoc :
    (d : ℕ → ℕ) (xs : List ℕ) (w : ℕ)
    → Rising d xs
    → All (λ x. d x ≤ d w) xs
    → Rising d (xs ++ w ∷ [])
Rising-snoc d [] w r a = (tt, tt)
Rising-snoc d (x ∷ xs) w r a = (All-append _ xs _ r.0 (a.0, tt), Rising-snoc d xs w r.1 a.1)
