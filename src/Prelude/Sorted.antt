-- ===== src/Prelude/Sorted.antt =====
-- `BTreeMap`, `BTreeSet`, `sort` and `dedup` as sorted lists, by a comparison.
use Prim.Native.Nat.{ℕ, compare, Ordering}
use mathlib.Core.Bool.{Bool, true, false}
use mathlib.Core.Option.{Option, none, some}
use mathlib.Core.List.{List, [], ◌∷◌}
use ndn_sim.Prelude.Tests.{if◌then◌else◌}

-- A derived `Ord` compares field by field.
abbrev pub lex : Ordering → Ordering → Ordering
lex Ordering.lt o = Ordering.lt
lex Ordering.eq o = o
lex Ordering.gt o = Ordering.gt

abbrev pub is_lt : Ordering → Bool
is_lt Ordering.lt = true
is_lt Ordering.eq = false
is_lt Ordering.gt = false

-- The order of octet slices.
abbrev pub compare_lists : List ℕ → List ℕ → Ordering
compare_lists [] [] = Ordering.eq
compare_lists [] (b ∷ bs) = Ordering.lt
compare_lists (a ∷ as') [] = Ordering.gt
compare_lists (a ∷ as') (b ∷ bs) = lex (compare a b) (compare_lists as' bs)

module _ {K V : Type 0} (cmp : K → K → Ordering) where
  -- `entry(k)`, changed by `f`.
  unfoldable pub adjust : K → (Option V → V) → List (K × V) → List (K × V)
  adjust k f [] = (k, f none) ∷ []
  adjust k f ((j, v) ∷ m) =
      let rest = adjust k f m in
      elim (cmp k j) [
        | Ordering.lt ↦ (k, f none) ∷ (j, v) ∷ m
        | Ordering.eq ↦ (j, f (some v)) ∷ m
        | Ordering.gt ↦ (j, v) ∷ rest
      ]

  unfoldable pub get : K → List (K × V) → Option V
  get k [] = none
  get k ((j, v) ∷ m) = elim (cmp k j) [ Ordering.eq ↦ some v | _ ↦ get k m ]

module _ {K : Type 0} (cmp : K → K → Ordering) where
  unfoldable pub set_insert : K → List K → List K
  set_insert k [] = k ∷ []
  set_insert k (j ∷ m) =
      let rest = set_insert k m in
      elim (cmp k j) [ Ordering.lt ↦ k ∷ j ∷ m | Ordering.eq ↦ j ∷ m | Ordering.gt ↦ j ∷ rest ]

  unfoldable pub set_remove : K → List K → List K
  set_remove k [] = []
  set_remove k (j ∷ m) =
      let rest = set_remove k m in elim (cmp k j) [ Ordering.eq ↦ m | _ ↦ j ∷ rest ]

  unfoldable pub sort_into : K → List K → List K
  sort_into x [] = x ∷ []
  sort_into x (y ∷ ys) =
      let rest = sort_into x ys in if is_lt (cmp y x) then y ∷ rest else x ∷ y ∷ ys

  -- Stable.
  unfoldable pub sort_by : List K → List K
  unfolding sort_into
  sort_by [] = []
  sort_by (x ∷ xs) = sort_into x (sort_by xs)
