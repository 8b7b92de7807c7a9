-- ===== src/Ip/Network/Examples.antt =====
-- Runs of `IpNetwork::from_links_with` of crates/ndn-sim-studies/src/ip.rs.
use ndn_sim.Prelude.{
  false, ◌*◌, ◌≤◌, ◌==◌, if◌then◌else◌, Bool, ℕ, ◌≡◌, refl, true, List, [], ◌∷◌, Option, some,
  ◌>>=◌, ◌+◌, ◌<◌, All, here, there, Returns, arith,
}
use ndn_sim.Routing.Dijkstra.State.{Walk, stay, along}
use ndn_sim.Ip.Network.Ready.{Least}
use ndn_sim.Ip.Network.Steps.{Carries}
use ndn_sim.Ip.Network.Kept.{Kept}
use ndn_sim.Ip.Network.Connected.{from_links_with-received}
use ndn_sim.Routing.{TopologyView, from_links, push_links, push_edge}
use ndn_sim.Routing.Dijkstra.{compute, tables_of, dijkstra_table, run, relax, improve}
use ndn_sim.Ip.{on_air, encode, decode, in_prefix, lpm, send_on, handle, receive}
use ndn_sim.Ip.Network.{
  Wiring, address, attach_to, wire_links, install, install_all, from_links_with, relay, ping,
  await_reply, Answer, received, lost,
}

-- A line of three nodes.
abbrev line_of_three : Option Wiring
line_of_three = from_links_with compute 3 ((0, 1) ∷ (1, 2) ∷ [])

-- Links that take 2 for a frame; those out of node 2 lose it if `sound` is false.
abbrev links_of : Bool → ℕ → ℕ → List ℕ → ℕ → Bool × ℕ
links_of sound u v bytes w = (if u == 2 then sound else true, w + 2)

-- One ping of `dst` from node 0, at the instant 5.
abbrev answer_of : Bool → ℕ → ℕ → Option (Answer × ℕ)
answer_of sound lifetime dst = do
  s ← line_of_three
  r ←
      ping {W = ℕ} (λ w. w) (λ node now w. (on_air 0 0, w)) (λ t w. w + t) (λ id me rx w. (true, w))
        (links_of sound) 9 0 dst 1 (0 ∷ 0 ∷ []) lifetime s 5
  some (r.0, r.2)

-- Four links, two there and two back.
pinged : answer_of true 100 (address 2) ≡ some (received 8 2, 13)
unfolding from_links_with compute tables_of dijkstra_table run relax improve from_links push_links
    push_edge attach_to wire_links install install_all ping await_reply relay receive handle send_on
    encode decode lpm in_prefix
pinged = refl

-- The reply comes too late for a lifetime of 8.
too_late : answer_of true 8 (address 2) ≡ some (lost, 13)
unfolding from_links_with compute tables_of dijkstra_table run relax improve from_links push_links
    push_edge attach_to wire_links install install_all ping await_reply relay receive handle send_on
    encode decode lpm in_prefix
too_late = refl

-- The reply is lost on its first link; the lifetime runs out.
lost_reply : answer_of false 100 (address 2) ≡ some (lost, 105)
unfolding from_links_with compute tables_of dijkstra_table run relax improve from_links push_links
    push_edge attach_to wire_links install install_all ping await_reply relay receive handle send_on
    encode decode lpm in_prefix
lost_reply = refl

-- There is no way to a node that is not there.
no_answer : answer_of true 100 (address 3) ≡ some (lost, 105)
unfolding from_links_with compute tables_of dijkstra_table run relax improve from_links push_links
    push_edge attach_to wire_links install install_all ping await_reply relay receive handle send_on
    encode decode lpm in_prefix
no_answer = refl

abbrev view_of_three : TopologyView
view_of_three = record { n = 3; adj = ((1, 1) ∷ []) ∷ ((0, 1) ∷ (2, 1) ∷ []) ∷ ((1, 1) ∷ []) ∷ [] }

links_there : All {A = ℕ × ℕ} (λ l. (l.0 < 3) × (l.1 < 3)) ((0, 1) ∷ (1, 2) ∷ [])
links_there = ((omega arith, omega arith), ((omega arith, omega arith), tt))

view_made : from_links 3 ((0, 1) ∷ (1, 2) ∷ []) ≡ some view_of_three
unfolding from_links push_links push_edge
view_made = refl

there_by_two : Walk view_of_three.adj 0 2 2
there_by_two = along (_, refl, here refl) (along (_, refl, there (here refl)) stay refl) refl

-- Links that take 2 for a frame, and 3 for one from node 1.
abbrev uneven : ℕ → ℕ → List ℕ → ℕ → Bool × ℕ
uneven u v bytes w = (true, w + (if u == 1 then 3 else 2))

uneven-Carries : Carries {W = ℕ} (λ w. w + 7) uneven 2 3
uneven-Carries = record {
  arrives = λ u v bytes w. refl;
  soonest = λ u v bytes w. ground arith;
  latest = λ u v bytes w. ground arith;
}

from_links_with-received_example :
    Returns
      (λ s.
        Returns
          (λ r.
            (rtt : ℕ) × (m : ℕ) × Least view_of_three.adj 0 2 m
            × (r.0 ≡ received rtt 2)
            × (m * (2 * 2) ≤ rtt)
            × (rtt ≤ m * (2 * 3))
            × Kept s r.1)
          (ping {W = ℕ}
            (λ w. w + 7)
            (λ node now w. (on_air 0 0, w))
            (λ t w. w + t)
            (λ id me rx w. (true, w))
            uneven
            9
            0
            (address 2)
            1
            (0 ∷ 0 ∷ [])
            100
            s
            4))
      (from_links_with compute 3 ((0, 1) ∷ (1, 2) ∷ []))
from_links_with-received_example =
    from_links_with-received {W = ℕ} (λ w. w + 7) (λ node now w. (on_air 0 0, w)) (λ t w. w + t)
      (λ id me rx w. (true, w)) uneven 2 3 4 3 ((0, 1) ∷ (1, 2) ∷ []) view_of_three 0 2 2 1 9 100
      (0 ∷ 0 ∷ []) uneven-Carries (omega arith) links_there view_made (omega arith) (omega arith)
      there_by_two (omega arith) (omega arith) (omega arith) (omega arith)

-- The 257th node has the address of the first.
shared_address : address 256 ≡ address 0
shared_address = refl
