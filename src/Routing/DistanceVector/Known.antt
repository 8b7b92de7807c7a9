-- ===== src/Routing/DistanceVector/Known.antt =====
-- What the rounds of `DistanceVector::compute` in crates/ndn-sim-studies/src/routing.rs know.
use ndn_sim.Prelude.{
  ℕ, zero, suc, ◌+◌, ◌≤◌, ◌<◌, ◌≡◌, ◌∙◌, ap, subst, inl, inr, arith, Bool-cases, length-set, set,
  Returns, Returns->>=,
}
use ndn_sim.Routing.{TopologyView}
use ndn_sim.Routing.View.{Edge}
use ndn_sim.Routing.Dijkstra.{u32_max, no_hop, replicate}
use ndn_sim.Routing.Dijkstra.State.{at, at-set_self, at-set_ne}
use ndn_sim.Routing.DistanceVector.{Vectors, round, rounds, start_vectors}
use ndn_sim.Routing.DistanceVector.Grid.{at2, map_range-IsGrid, length-replicate, at-replicate}
use ndn_sim.Routing.DistanceVector.Simple.{Hops, arrived, hop}
use ndn_sim.Routing.DistanceVector.Sound.{IsSized, Sound, Near}
use ndn_sim.Routing.DistanceVector.Rounds.{round-Near}

-- The distances of all walks of up to `k` links are known.
unfoldable pub Known : ℕ → TopologyView → ℕ → Vectors → Type 0
Known max_metric view k s =
    (u d j c : ℕ)
    → Hops view.adj u d j c
    → j ≤ k
    → u < view.n
    → d < view.n
    → c < max_metric
    → at2 s.dist u d ≤ c

-- All ways by one link have been looked at.
Round : ℕ → TopologyView → Vectors → Vectors → Type 0
Round max_metric view s s' =
    (u v w d : ℕ) → u < view.n → d < view.n → Edge view.adj u v w → Near max_metric u v w d s s'

Known-Round :
    (max_metric : ℕ) (view : TopologyView) (k : ℕ) (s s' : Vectors)
    → IsSized max_metric view
    → Sound max_metric view s'
    → Round max_metric view s s'
    → Known max_metric view k s
    → Known max_metric view (suc k) s'
unfolding Known Round Near
Known-Round max_metric view k s s' sized h near known u d j c arrived le lu ld few =
    omega (arith, h.home u lu)
Known-Round max_metric view k s s' sized h near known u d j c
      (hop {y = y} {w = w} {j = j'} {c = c'} link rest e f) le lu ld few =
    let ih =
      known y d j' c' rest (omega (arith, f, le)) (sized.good.ends u y w link) ld
        (omega (arith, e, few)) in
    omega (arith, e, ih, near u y w d lu ld link (omega (arith, ih, e, few)))

-- After a round that changes nothing all distances are known.
Known-still :
    (max_metric : ℕ) (view : TopologyView) (s : Vectors)
    → IsSized max_metric view
    → Sound max_metric view s
    → Round max_metric view s s
    → (k : ℕ) → Known max_metric view k s
unfolding Known
Known-still max_metric view s sized h near zero u d j c arrived le lu ld few =
    omega (arith, h.home u lu)
Known-still max_metric view s sized h near zero u d j c (hop link rest e f) le lu ld few =
    absurd (omega (arith, f, le))
Known-still max_metric view s sized h near (suc k) u d j c walk le lu ld few =
    Known-Round max_metric view k s s sized h near (Known-still max_metric view s sized h near k) u
      d j c walk le lu ld few

pub rounds-Known :
    (max_metric : ℕ) (view : TopologyView) (k i : ℕ) (s : Vectors)
    → IsSized max_metric view
    → Sound max_metric view s
    → Known max_metric view i s
    → Returns
        (λ s'. Sound max_metric view s' × Known max_metric view (k + i) s')
        (rounds k max_metric view s)
unfolding rounds Round Near
rounds-Known max_metric view zero i s sized h known =
    let this : i ≡ 0 + i = omega arith in (h, subst (λ z. Known max_metric view z s) this known)
rounds-Known max_metric view (suc k) i s sized h known =
    Returns->>= _ (λ s'. Sound max_metric view s' × Known max_metric view (suc k + i) s')
      (round max_metric view s) _ (round-Near max_metric view sized s h)
      λ s1 (h1, onto, near). elim (Bool-cases s1.changed) [
        | inl y ↦
            let this : k + suc i ≡ suc k + i = omega arith in
            rw y (
              subst
                (λ z.
                  Returns (λ s'. Sound max_metric view s' × Known max_metric view z s')
                    (rounds k max_metric view s1))
                this
                (rounds-Known max_metric view k (suc i) s1 sized h1
                  (Known-Round max_metric view i s s1 sized h1 near known)))
        | inr y ↦
            let same : s1.dist ≡ s.dist = (onto.still y).0 in
            rw y (h1, Known-still max_metric view s1 sized h1 (still s1 same near) (suc k + i))
      ]
  where
    still :
        (s1 : Vectors) → s1.dist ≡ s.dist → Round max_metric view s s1 → Round max_metric view s1 s1
    still s1 e near u v w d lu ld link l =
        let same : at2 s1.dist v d ≡ at2 s.dist v d = ap (λ z. at2 z v d) e in
        omega (arith, same, near u v w d lu ld link (omega (arith, same, l)))

pub start-Sound :
    (max_metric : ℕ) (view : TopologyView) → Sound max_metric view (start_vectors view.n)
start-Sound max_metric view =
    let n = view.n in
    let (rows, row, at_dist) =
      map_range-IsGrid (λ u. set (replicate n u32_max) u 0) n 0 n
        (λ u. length-set (replicate n u32_max) u 0 ∙ length-replicate n u32_max) in
    let (rows', row', at_next) =
      map_range-IsGrid (λ u. replicate n no_hop) n 0 n (λ u. length-replicate n no_hop) in
    record {
      dist = record { rows = rows; row = row };
      next = record { rows = rows'; row = row' };
      home = λ u l.
          let this : 0 + u ≡ u = omega arith in
          at_dist u u l
          ∙ ap (λ z. at (set (replicate n u32_max) z 0) u) this
          ∙ at-set_self (replicate n u32_max) u 0 (omega (arith, l, length-replicate n u32_max));
      way = λ u d lu ld ne. absurd (ne (at_next u d lu ∙ at-replicate n no_hop d ld));
      idle = λ u d lu ld ne e.
          let this : 0 + u ≡ u = omega arith in
          at_dist u d lu
          ∙ ap (λ z. at (set (replicate n u32_max) z 0) d) this
          ∙ at-set_ne (replicate n u32_max) u d 0 ne
          ∙ at-replicate n u32_max d ld;
    }

pub start-Known :
    (max_metric : ℕ) (view : TopologyView) → Known max_metric view 0 (start_vectors view.n)
unfolding Known
start-Known max_metric view u d j c arrived le lu ld few =
    omega (arith, (start-Sound max_metric view).home u lu)
start-Known max_metric view u d j c (hop link rest e f) le lu ld few = absurd (omega (arith, f, le))
