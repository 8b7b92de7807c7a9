-- ===== src/Topo/Routes/Examples.antt =====
-- Runs of `add_routes_toward` of crates/ndn-sim/src/topo.rs on a square with a tail.
use ndn_sim.Prelude.{ℕ, ◌≡◌, refl, List, [], ◌∷◌, none, some, arith, Returns, sort_by, sort_into}
use ndn_sim.Topo.{Scenario, link, des}
use ndn_sim.Topo.Routes.{route, visit, search, add_routes_toward}
use ndn_sim.Topo.Routes.Search.{InRange}
use ndn_sim.Topo.Routes.Shortest.{Routed, add_routes_toward-Routed}

-- 0 - 1 - 2 - 3 - 0, and 3 - 4; 5 is on its own.
abbrev square : Scenario
square = record {
  kernel = des none;
  nodes =
      record { label = some 0 }
      ∷ record { label = some 1 }
      ∷ record { label = some 2 }
      ∷ record { label = some 3 }
      ∷ record { label = some 4 }
      ∷ record { label = some 5 }
      ∷ [];
  links = link 0 1 ∷ link 1 2 ∷ link 2 3 ∷ link 3 0 ∷ link 3 4 ∷ [];
  routes = [];
}

abbrev as_is : List (ℕ × ℕ) → List (ℕ × ℕ)
as_is es = es

square_routes :
    add_routes_toward as_is square [] 0
    ≡ some (record square {
      routes = route [] (1, 0) ∷ route [] (2, 1) ∷ route [] (3, 0) ∷ route [] (4, 3) ∷ [];
    })
unfolding add_routes_toward search visit sort_by sort_into
square_routes = refl

no_such_destination : add_routes_toward as_is square [] 6 ≡ some square
unfolding add_routes_toward
no_such_destination = refl

square-InRange : InRange 6 square.links
square-InRange = (
  (omega arith, omega arith),
  (
    (omega arith, omega arith),
    ((omega arith, omega arith), ((omega arith, omega arith), ((omega arith, omega arith), tt))),
  ),
)

add_routes_toward-Routed_example :
    Returns
      (λ s'. (hops : ℕ → ℕ) × Routed square [] 0 hops s')
      (add_routes_toward as_is square [] 0)
add_routes_toward-Routed_example =
    add_routes_toward-Routed as_is (λ es e. (λ m. m, λ m. m)) square [] 0 (omega arith)
      square-InRange
