-- ===== src/Prelude/Ranges.antt =====
-- Rust's `lo..hi` as a list, and nested loops over ranges.
use Prim.Native.Nat.{ℕ, zero, suc, ◌+◌, ◌≤◌, ◌<◌}
use mathlib.Core.Path.{◌≡◌, refl, sym, ap, subst}
use mathlib.Core.Logic.{◌⊎◌, inl, inr}
use mathlib.Core.List.{List, [], ◌∷◌, ◌++◌, map}
use native.Mathlib.Omega.{arith}
use ndn_sim.Prelude.Lists.{
  length, All, All-append, In, here, there, In-append_left, In-append_right,
}

-- The `k` numbers from `lo`: the range `lo..lo + k`.
abbrev pub range : ℕ → ℕ → List ℕ
range lo zero = []
range lo (suc k) = lo ∷ range (suc lo) k

pub length-range : (lo k : ℕ) → length (range lo k) ≡ k
length-range lo zero = refl
length-range lo (suc k) = ap suc (length-range (suc lo) k)

pub In-range : (lo k i : ℕ) → lo ≤ i → i < lo + k → In i (range lo k)
In-range lo zero i h l = absurd (omega arith)
In-range lo (suc k) i h l = elim (cases lo i h) [
  | inl e ↦ here e
  | inr m ↦ there (In-range (suc lo) k i m (omega arith))
]
  where
    cases : (lo i : ℕ) → lo ≤ i → (lo ≡ i) ⊎ (suc lo ≤ i)
    cases lo i h = omega arith

-- A loop over a list whose body pushes a list.
abbrev pub for_each {ℓ κ} : {A : Type ℓ} {B : Type κ} → List A → (A → List B) → List B
for_each [] body = []
for_each (x ∷ xs) body = body x ++ for_each xs body

module _ {ℓ} {B : Type ℓ} where
  pub In-map {κ} : {A : Type κ} (f : A → B) (xs : List A) {x : A} → In x xs → In (f x) (map f xs)
  In-map f [] m = elim m [ ]
  In-map f (y ∷ ys) (here e) = here (ap f e)
  In-map f (y ∷ ys) (there m) = there (In-map f ys m)

  pub In-for_each {κ} :
      {A : Type κ} (xs : List A) (body : A → List B) {x : A} {b : B}
      → In x xs
      → In b (body x)
      → In b (for_each xs body)
  In-for_each [] body p m = elim p [ ]
  In-for_each (y ∷ ys) body {x} {b} (here e) m =
      In-append_left (body y) _ (subst (λ z. In b (body z)) (sym e) m)
  In-for_each (y ∷ ys) body (there p) m = In-append_right (body y) _ (In-for_each ys body p m)

  pub All-map-range {κ} :
      (P : B → Type κ) (f : ℕ → B) (lo k : ℕ)
      → ((i : ℕ) → lo ≤ i → i < lo + k → P (f i))
      → All P (map f (range lo k))
  All-map-range P f lo zero h = tt
  All-map-range P f lo (suc k) h = (
    h lo (omega arith) (omega arith),
    All-map-range P f (suc lo) k (λ i l u. h i (omega arith) (omega arith)),
  )

  pub All-for_each-range {κ} :
      (P : B → Type κ) (body : ℕ → List B) (lo k : ℕ)
      → ((i : ℕ) → lo ≤ i → i < lo + k → All P (body i))
      → All P (for_each (range lo k) body)
  All-for_each-range P body lo zero h = tt
  All-for_each-range P body lo (suc k) h =
      All-append P (body lo) _ (h lo (omega arith) (omega arith))
        (All-for_each-range P body (suc lo) k (λ i l u. h i (omega arith) (omega arith)))
