-- ===== src/Routing/Dijkstra/Start.antt =====
-- The start of `dijkstra_table` in crates/ndn-sim-studies/src/routing.rs.
use ndn_sim.Prelude.{
  ℕ, zero, suc, ◌≤◌, ◌<◌, ◌≡◌, ◌≢◌, refl, sym, ◌∙◌, ap, inl, inr, Bool, true, false, List, [], ◌∷◌,
  some, arith, length, get_elem?, set, length-set, here, there,
}
use ndn_sim.Routing.Dijkstra.{u32_max, no_hop, replicate, edges, start_tree}
use ndn_sim.Routing.Dijkstra.State.{at, at-set_self, at-set_ne, same_node, Stands}
use ndn_sim.Routing.Dijkstra.Relax.{pending}

at-replicate : (n x i : ℕ) → i < n → at (replicate n x) i ≡ x
at-replicate zero x i l = absurd (omega arith)
at-replicate (suc n) x zero l = refl
at-replicate (suc n) x (suc i) l = at-replicate n x i (omega arith)

at_unset : (n i : ℕ) → at (replicate n u32_max) i ≡ u32_max
at_unset zero i = refl
at_unset (suc n) zero = refl
at_unset (suc n) (suc i) = at_unset n i

length-replicate : (n x : ℕ) → length (replicate n x) ≡ n
length-replicate zero x = refl
length-replicate (suc n) x = ap suc (length-replicate n x)

abbrev pub none_settled : ℕ → List Bool
none_settled zero = []
none_settled (suc n) = false ∷ none_settled n

not_settled : (n v : ℕ) → get_elem? (none_settled n) v ≢ some true
not_settled zero v e = cc
not_settled (suc n) zero e = cc
not_settled (suc n) (suc v) e = not_settled n v e

pub length-none_settled : (n : ℕ) → length (none_settled n) ≡ n
length-none_settled zero = refl
length-none_settled (suc n) = ap suc (length-none_settled n)

pub pending-none_settled :
    (adj : List (List (ℕ × ℕ))) (n : ℕ) → pending (none_settled n) adj ≤ edges adj
pending-none_settled adj zero = omega arith
pending-none_settled [] (suc n) = omega arith
pending-none_settled (row ∷ adj) (suc n) = omega (arith, pending-none_settled adj n)

-- At the start only the source has a distance.
pub start-Stands :
    (adj : List (List (ℕ × ℕ))) (src n : ℕ)
    → src < n
    → Stands adj src n src 0 [] (none_settled n) (start_tree n src)
start-Stands adj src n l =
    let source : at (set (replicate n u32_max) src 0) src ≡ 0 =
      at-set_self (replicate n u32_max) src 0 (omega (arith, length-replicate n u32_max)) in
    let others : (v : ℕ) → src ≢ v → at (set (replicate n u32_max) src 0) v ≡ u32_max =
      λ v ne. at-set_ne (replicate n u32_max) src v 0 ne ∙ at_unset n v in
    record {
      sizes = (
        length-set (replicate n u32_max) src 0 ∙ length-replicate n u32_max,
        length-replicate n no_hop,
        length-none_settled n,
      );
      source = source;
      capped = λ v. elim (same_node src v) [
        | inl e ↦ rw (← e) (omega (arith, source))
        | inr ne ↦ omega (arith, others v ne)
      ];
      real = λ v k f. elim (same_node src v) [
        | inl e ↦ inl (sym e)
        | inr ne ↦ absurd (omega (arith, others v ne, f))
      ];
      entries = λ d v m. elim m [
        | here f ↦
            let ed : 0 ≡ d = ap (λ p. p.0) f in
            let ev : src ≡ v = ap (λ p. p.1) f in
            (rw (← ev) l, rw (← ev) (omega (arith, source, ed)), omega arith)
        | there m' ↦ elim m' [ ]
      ];
      distinct = (λ m. elim m [ ], tt);
      low = λ v k. absurd (not_settled n v k);
      relaxed = λ v x w k. absurd (not_settled n v k);
      waiting = λ v k f. elim (same_node src v) [
        | inl e ↦ here (
            ap (λ z. (z, src)) (sym source)
            ∙ ap (λ z. (at (set (replicate n u32_max) src 0) z, z)) e)
        | inr ne ↦ absurd (omega (arith, others v ne, f))
      ];
    }
