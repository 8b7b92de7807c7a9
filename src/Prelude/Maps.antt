-- ===== src/Prelude/Maps.antt =====
-- Keys with a Boolean equality, and hash maps as association lists in the order of insertion.
use Prim.Native.Nat.{ℕ}
use Prim.Native.String.{String}
use mathlib.Core.Path.{◌≡◌, refl, ap, sym, ◌∙◌, subst}
use mathlib.Core.Logic.{◌↔◌, inl, inr, ◌≢◌}
use mathlib.Core.Bool.{Bool, true, false, ◌&&◌, false≢true}
use mathlib.Core.Option.{Option, none, some}
use mathlib.Core.List.{List, [], ◌∷◌}
use native.Mathlib.Omega.{arith}
use text.Mathlib.Text.{◌==◌ as str_eq}
use text.Mathlib.TextEquality.{eq_iff}
use ndn_sim.Prelude.Tests.{◌==◌, ==_iff, if◌then◌else◌, Bool-cases, Option-cases}
use ndn_sim.Prelude.Lists.{In, here, there, All}

pub record Key {ℓ} (K : Type ℓ) : Type ℓ where
  pub same : K → K → Bool
  pub same_iff : (a b : K) → (same a b ≡ true) ↔ (a ≡ b)

instance abbrev pub nat_key : Key ℕ
nat_key = record { same = ◌==◌; same_iff = ==_iff }

instance abbrev pub string_key : Key String
string_key = record { same = str_eq; same_iff = eq_iff }

module _ {A B : Type 0} ⦃a : Key A⦄ ⦃b : Key B⦄ where
  abbrev pub both : A × B → A × B → Bool
  both p q = a.same p.0 q.0 && b.same p.1 q.1

  pub both_iff : (p q : A × B) → (both p q ≡ true) ↔ (p ≡ q)
  both_iff p q = ground (arith, a.same_iff p.0 q.0, b.same_iff p.1 q.1)

  instance abbrev pub pair_key : Key (A × B)
  pair_key = record { same = both; same_iff = both_iff }

abbrev pub is_some {ℓ} : {A : Type ℓ} → Option A → Bool
is_some none = false
is_some (some a) = true

module _ {K : Type 0} ⦃key : Key K⦄ where
  pub same_self : (k : K) → key.same k k ≡ true
  same_self k = (key.same_iff k k).1 refl

  pub same_sym : (j k : K) → key.same j k ≡ key.same k j
  same_sym j k = ground (arith, key.same_iff j k, key.same_iff k j)

  pub same-eq_false : (j k : K) → key.same j k ≡ false → j ≢ k
  same-eq_false j k e p = false≢true (sym e ∙ (key.same_iff j k).1 p)

module _ {K V : Type 0} ⦃key : Key K⦄ where
  unfoldable pub lookup : K → List (K × V) → Option V
  lookup k [] = none
  lookup k ((j, v) ∷ m) = if key.same j k then some v else lookup k m

  -- `HashMap::insert`: an entry that is there is overwritten in its place.
  unfoldable pub insert : K → V → List (K × V) → List (K × V)
  insert k v [] = (k, v) ∷ []
  insert k v ((j, w) ∷ m) = if key.same j k then (j, v) ∷ m else (j, w) ∷ insert k v m

  -- `contains_key`.
  unfoldable pub has : K → List (K × V) → Bool
  unfolding lookup
  has k m = is_some (lookup k m)

  pub lookup-insert :
      (k j : K) (v : V) (m : List (K × V))
      → lookup j (insert k v m) ≡ (if key.same k j then some v else lookup j m)
  unfolding lookup insert
  lookup-insert k j v [] = refl
  lookup-insert k j v ((i, w) ∷ m) =
      ground (arith, key.same_iff k j, key.same_iff i k, key.same_iff i j, lookup-insert k j v m)

  pub lookup-has : (k : K) (m : List (K × V)) → has k m ≡ false → lookup k m ≡ none
  unfolding has
  lookup-has k m h = elim (Option-cases (lookup k m)) [
    | inl e ↦ e
    | inr e ↦ absurd (false≢true (sym h ∙ ap is_some e.1))
  ]

  -- A new key hides nothing.
  pub lookup-insert_new :
      (k j : K) (v w : V) (m : List (K × V))
      → has k m ≡ false
      → lookup j m ≡ some w
      → lookup j (insert k v m) ≡ some w
  lookup-insert_new k j v w m h e = lookup-insert k j v m ∙ elim (Bool-cases (key.same k j)) [
    | inl same ↦
        let at_j = ap (λ i. lookup i m) ((key.same_iff k j).0 same) in
        let clash = sym (lookup-has k m h) ∙ at_j ∙ e in absurd cc
    | inr other ↦ rw other e
  ]

  pub has-insert :
      (k j : K) (v : V) (m : List (K × V))
      → has j (insert k v m) ≡ (if key.same k j then true else has j m)
  unfolding has
  has-insert k j v m = ground (arith, lookup-insert k j v m)

  pub has-cons :
      (k : K) (e : K × V) (m : List (K × V))
      → has k (e ∷ m) ≡ (if key.same e.0 k then true else has k m)
  unfolding has lookup
  has-cons k e m = ground arith

  pub insert-cons :
      (k : K) (v : V) (e : K × V) (m : List (K × V))
      → insert k v (e ∷ m) ≡ (if key.same e.0 k then (e.0, v) ∷ m else e ∷ insert k v m)
  unfolding insert
  insert-cons k v e m = refl

  -- No key stands twice.
  abbrev pub IsMap : List (K × V) → Type 0
  IsMap [] = Unit
  IsMap (e ∷ m) = All (λ f. key.same e.0 f.0 ≡ false) m × IsMap m

  All-insert :
      (P : K → Type 0) (k : K) (v : V) (m : List (K × V))
      → P k
      → All (λ e. P e.0) m
      → All (λ e. P e.0) (insert k v m)
  unfolding insert
  All-insert P k v [] h hs = (h, tt)
  All-insert P k v ((j, w) ∷ m) h hs = elim (Bool-cases (key.same j k)) [
    | inl e ↦ rw e hs
    | inr e ↦ rw e (hs.0, All-insert P k v m h hs.1)
  ]

  pub insert-IsMap : (k : K) (v : V) (m : List (K × V)) → IsMap m → IsMap (insert k v m)
  unfolding insert
  insert-IsMap k v [] h = (tt, tt)
  insert-IsMap k v ((j, w) ∷ m) h = elim (Bool-cases (key.same j k)) [
    | inl e ↦ rw e h
    | inr e ↦ rw e (All-insert (λ i. key.same j i ≡ false) k v m e h.0, insert-IsMap k v m h.1)
  ]

  pub lookup-In : (k : K) (v : V) (m : List (K × V)) → IsMap m → In (k, v) m → lookup k m ≡ some v
  unfolding lookup
  lookup-In k v [] h i = elim i [ ]
  lookup-In k v ((j, w) ∷ m) h (here e) =
      rw ((key.same_iff j k).1 (ap (λ p. p.0) e)) (ap (λ p. some p.1) e)
  lookup-In k v ((j, w) ∷ m) h (there i) = rw (unlike m h.0 i) (lookup-In k v m h.1 i)
    where
      unlike :
          (l : List (K × V))
          → All (λ f. key.same j f.0 ≡ false) l
          → In (k, v) l
          → key.same j k ≡ false
      unlike [] hs i = elim i [ ]
      unlike (f ∷ l) hs (here e) = subst (λ p. key.same j p.0 ≡ false) e hs.0
      unlike (f ∷ l) hs (there i) = unlike l hs.1 i
