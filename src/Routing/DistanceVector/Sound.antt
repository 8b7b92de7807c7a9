-- ===== src/Routing/DistanceVector/Sound.antt =====
-- Where the rounds of `DistanceVector::compute` in crates/ndn-sim-studies/src/routing.rs stand.
use ndn_sim.Prelude.{
  ℕ, ◌+◌, ◌≤◌, ◌<◌, ◌≡◌, ◌≢◌, refl, ◌∙◌, subst, false, List, [], ◌∷◌, Option, arith, In, here,
  there, Returns, Returns->>=, Returns-mono,
}
use ndn_sim.Routing.{TopologyView}
use ndn_sim.Routing.View.{IsView}
use ndn_sim.Routing.Dijkstra.{u32_max, no_hop}
use ndn_sim.Routing.Dijkstra.State.{Via}
use ndn_sim.Routing.DistanceVector.{Vectors, loop_over}
use ndn_sim.Routing.DistanceVector.Grid.{IsGrid, at2}

-- Numbers that the machine can hold.
pub record IsSized (max_metric : ℕ) (view : TopologyView) : Type 0 where
  pub good : IsView view
  pub metric : max_metric ≤ u32_max
  pub nodes : view.n ≤ no_hop

-- Each distance below the infinity is that of a walk by the next hop.
pub record Sound (max_metric : ℕ) (view : TopologyView) (s : Vectors) : Type 0 where
  pub dist : IsGrid view.n s.dist
  pub next : IsGrid view.n s.next
  pub home : (u : ℕ) → u < view.n → at2 s.dist u u ≡ 0
  pub way :
      (u d : ℕ)
      → u < view.n
      → d < view.n
      → at2 s.next u d ≢ no_hop
      → Via view.adj u (at2 s.next u d) d (at2 s.dist u d) × (at2 s.dist u d < max_metric)
  pub idle :
      (u d : ℕ)
      → u < view.n
      → d < view.n
      → u ≢ d
      → at2 s.next u d ≡ no_hop
      → at2 s.dist u d ≡ u32_max

-- Distances fall, and a pass that changes none leaves them.
pub record Onto (s s' : Vectors) : Type 0 where
  pub lower : (u d : ℕ) → at2 s'.dist u d ≤ at2 s.dist u d
  pub still : s'.changed ≡ false → (s'.dist ≡ s.dist) × (s.changed ≡ false)

pub Onto-refl : (s : Vectors) → Onto s s
Onto-refl s = record { lower = λ u d. omega arith; still = λ e. (refl, e) }

pub Onto-trans : (s s1 s2 : Vectors) → Onto s s1 → Onto s1 s2 → Onto s s2
Onto-trans s s1 s2 h k = record {
  lower = λ u d. omega (arith, h.lower u d, k.lower u d);
  still = λ e. let (f, g) = k.still e in let (p, q) = h.still g in (f ∙ p, q);
}

-- The way by a link has been looked at.
unfoldable pub Near : ℕ → ℕ → ℕ → ℕ → ℕ → Vectors → Vectors → Type 0
Near max_metric u v w d s s' =
    w + at2 s.dist v d < max_metric → at2 s'.dist u d ≤ w + at2 s.dist v d

pub Near-within :
    (max_metric u v w d : ℕ) (s0 s s' s2 : Vectors)
    → Onto s0 s
    → Onto s' s2
    → Near max_metric u v w d s s'
    → Near max_metric u v w d s0 s2
unfolding Near
Near-within max_metric u v w d s0 s s' s2 h k near l =
    omega (arith, h.lower v d, k.lower u d, near (omega (arith, h.lower v d, l)))

-- A loop over steps that keep the vectors sound.
pub loop_over-Sound :
    {A : Type 0} (max_metric : ℕ) (view : TopologyView) (f : A → Vectors → Option Vectors)
    (G : A → Vectors → Vectors → Type 0)
    → ((x : A) (s0 s s' s2 : Vectors) → Onto s0 s → Onto s' s2 → G x s s' → G x s0 s2)
    → (xs : List A)
    → ((x : A)
        → In x xs
        → (s : Vectors) → Sound max_metric view s
        → Returns (λ s'. Sound max_metric view s' × Onto s s' × G x s s') (f x s))
    → (s : Vectors) → Sound max_metric view s
    → Returns
        (λ s'. Sound max_metric view s' × Onto s s' × ((x : A) → In x xs → G x s s'))
        (loop_over f xs s)
loop_over-Sound max_metric view f G closed [] step s h = (h, Onto-refl s, λ x m. elim m [ ])
loop_over-Sound {A = A} max_metric view f G closed (x ∷ xs) step s h =
    Returns->>= (λ s'. Sound max_metric view s' × Onto s s' × G x s s')
      (λ s'. Sound max_metric view s' × Onto s s' × ((y : A) → In y (x ∷ xs) → G y s s')) (f x s)
      (λ s'. loop_over f xs s') (step x (here refl) s h)
      λ s1 (h1, k1, g1).
        Returns-mono (λ s'. Sound max_metric view s' × Onto s1 s' × ((y : A) → In y xs → G y s1 s'))
          (λ s'. Sound max_metric view s' × Onto s s' × ((y : A) → In y (x ∷ xs) → G y s s'))
          (loop_over f xs s1)
          (λ s2 q. (
            q.0,
            Onto-trans s s1 s2 k1 q.1,
            λ y m. elim m [
              | here e ↦ subst (λ z. G z s s2) e (closed x s s s1 s2 (Onto-refl s) q.1 g1)
              | there m' ↦ closed y s s1 s2 s2 k1 (Onto-refl s2) (q.2 y m')
            ],
          ))
          (loop_over-Sound max_metric view f G closed xs (λ y m. step y (there m)) s1 h1)
