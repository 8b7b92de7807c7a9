-- ===== src/Ip/Network/Await.antt =====
-- The wait of a ping of crates/ndn-sim-studies/src/ip.rs for its reply.
use ndn_sim.Prelude.{
  ℕ, zero, suc, ◌-◌, ◌<◌, ◌≡◌, refl, sym, ap, subst, ◌==◌, ==_iff, Bool, true, lt→ltb, List, [],
  ◌∷◌, ◌>>=◌, some, get_elem?, get_elem?-lt, get_elem?-set_self, set,
}
use ndn_sim.Ip.{IpNode, LoraTx}
use ndn_sim.Ip.Network.{Wiring, received, await_reply}
use ndn_sim.Ip.Network.Kept.{Kept, Kept-set, Kept-trans, Alike}

set-set : (xs : List IpNode) (u : ℕ) (a b : IpNode) → set (set xs u a) u b ≡ set xs u b
set-set [] u a b = refl
set-set (x ∷ xs) zero a b = refl
set-set (x ∷ xs) (suc u) a b = ap (λ z. x ∷ z) (set-set xs u a b)

-- A reply that is there in time, the only one, is taken.
pub record Replied (u seq now len : ℕ) (s s' : Wiring) : Type 0 where
  pub node : IpNode
  pub there : get_elem? s'.nodes u ≡ some node
  pub replies : node.replies ≡ (seq, now, len) ∷ []
  pub kept : Kept s (record s' { nodes = set s'.nodes u (record node { replies = [] }) })

pub Replied-set :
    (u seq now len : ℕ) (s s1 : Wiring) (node node' : IpNode)
    → Kept s s1
    → get_elem? s1.nodes u ≡ some node
    → node'.replies ≡ (seq, now, len) ∷ []
    → Alike node (record node' { replies = [] })
    → Replied u seq now len s (record s1 { nodes = set s1.nodes u node' })
Replied-set u seq now len s s1 node node' k e r a = record {
  node = node';
  there = get_elem?-set_self s1.nodes u node' (get_elem?-lt s1.nodes u e);
  replies = r;
  kept =
      subst (λ z. Kept s (record s1 { nodes = z }))
        (sym (set-set s1.nodes u node' (record node' { replies = [] })))
        (Kept-trans s s1 _ k (Kept-set s1 u node (record node' { replies = [] }) e a));
}

pub Replied-Kept :
    (u seq now len : ℕ) (s s1 s2 : Wiring)
    → Kept s s1
    → Replied u seq now len s1 s2
    → Replied u seq now len s s2
Replied-Kept u seq now len s s1 s2 k h = record {
  node = h.node;
  there = h.there;
  replies = h.replies;
  kept = Kept-trans s s1 _ k h.kept;
}

pub await_reply-Replied :
    {W : Type 0} (unix_nanos : W → ℕ) (begin_tx : ℕ → ℕ → W → LoraTx × W) (sleep : ℕ → W → W)
    (resolve : ℕ → ℕ → ℕ → W → Bool × W) (transit : ℕ → ℕ → List ℕ → W → Bool × W)
    (u seq now len t0 until : ℕ) (s s' : Wiring) (w : W) (h : Replied u seq now len s s')
    → now < until
    → await_reply unix_nanos begin_tx sleep resolve transit u seq t0 until s' w
      ≡ some (
        received (now - t0) len,
        record s' { nodes = set s'.nodes u (record h.node { replies = [] }) },
        w,
      )
unfolding await_reply
await_reply-Replied unix_nanos begin_tx sleep resolve transit u seq now len t0 until s s' w h l =
    let mine : (seq == seq) ≡ true = (==_iff seq seq).1 refl in
    rw (h.there, ◌>>=◌, h.replies, lt→ltb now until l, mine, await_reply) refl
