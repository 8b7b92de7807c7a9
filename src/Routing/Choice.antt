-- ===== src/Routing/Choice.antt =====
-- Lists as sets, and the choice of the best relay, in crates/ndn-sim-studies/src/routing.rs.
use Prim.Native.Nat.{compare, Ordering}
use ndn_sim.Prelude.{
  ℕ, suc, ◌≤◌, ◌<◌, ◌≡◌, refl, sym, ap, subst, ◌∙◌, ◌⊎◌, inl, inr, Bool, true, false, false≢true,
  ◌||◌, List, [], ◌∷◌, arith, ◌==◌, ==_iff, Bool-cases, length, In, here, there, lex,
}
use ndn_sim.Routing.{in_set, filter, neighbours, covers, max_from, compare_cover}

pub in_set-In : (w : ℕ) (xs : List ℕ) → in_set w xs ≡ true → In w xs
in_set-In w [] e = absurd (false≢true e)
in_set-In w (x ∷ xs) e = elim (Bool-cases (x == w)) [
  | inl f ↦ here ((==_iff x w).0 f)
  | inr f ↦ there (in_set-In w xs (rw f at e))
]

pub In-in_set : (w : ℕ) (xs : List ℕ) → In w xs → in_set w xs ≡ true
In-in_set w [] m = elim m [ ]
In-in_set w (x ∷ xs) (here e) = rw ((==_iff x w).1 e) refl
In-in_set w (x ∷ xs) (there m) = rw (In-in_set w xs m) (or_true (x == w))
  where
    or_true : (b : Bool) → (b || true) ≡ true
    or_true true = refl
    or_true false = refl

-- What a filter keeps.
pub In-filter : (f : ℕ → Bool) (xs : List ℕ) (x : ℕ) → In x xs → f x ≡ true → In x (filter f xs)
In-filter f [] x m e = elim m [ ]
In-filter f (y ∷ ys) x (here g) e = let at_y : f y ≡ true = rw g e in rw at_y (here g)
In-filter f (y ∷ ys) x (there m) e = elim (Bool-cases (f y)) [
  | inl g ↦ rw g (there (In-filter f ys x m e))
  | inr g ↦ rw g (In-filter f ys x m e)
]

pub filter-In : (f : ℕ → Bool) (xs : List ℕ) (x : ℕ) → In x (filter f xs) → In x xs × (f x ≡ true)
filter-In f [] x m = elim m [ ]
filter-In f (y ∷ ys) x m = elim (Bool-cases (f y)) [
  | inr g ↦ let (k, e) = filter-In f ys x (rw g at m) in (there k, e)
  | inl g ↦ kept (rw g at m) g (filter-In f ys x)
]
  where
    kept :
        In x (y ∷ filter f ys)
        → f y ≡ true
        → (In x (filter f ys) → In x ys × (f x ≡ true))
        → In x (y ∷ ys) × (f x ≡ true)
    kept (here h) g ih = (here h, subst (λ z. f z ≡ true) h g)
    kept (there k) g ih = (there (ih k).0, (ih k).1)

filter-le : (f : ℕ → Bool) (xs : List ℕ) → length (filter f xs) ≤ length xs
filter-le f [] = omega arith
filter-le f (x ∷ xs) = elim (Bool-cases (f x)) [
  | inl e ↦ rw e (omega (arith, filter-le f xs))
  | inr e ↦ rw e (omega (arith, filter-le f xs))
]

pub filter-lt :
    (f : ℕ → Bool) (xs : List ℕ) (x : ℕ) → In x xs → f x ≡ false → length (filter f xs) < length xs
filter-lt f [] x m e = elim m [ ]
filter-lt f (y ∷ ys) x (here g) e =
    let at_y : f y ≡ false = rw g e in rw at_y (omega (arith, filter-le f ys))
filter-lt f (y ∷ ys) x (there m) e = elim (Bool-cases (f y)) [
  | inl g ↦ rw g (omega (arith, filter-lt f ys x m e))
  | inr g ↦ rw g (omega (arith, filter-lt f ys x m e))
]

In-length : (xs : List ℕ) (x : ℕ) → In x xs → 0 < length xs
In-length [] x m = elim m [ ]
In-length (y ∷ ys) x m = omega arith

first_In : (xs : List ℕ) (k : ℕ) → length xs ≡ suc k → (x : ℕ) × In x xs
first_In [] k e = absurd (omega (arith, e))
first_In (x ∷ xs) k e = (x, here refl)

module _ (adj : List (List (ℕ × ℕ))) (target : List ℕ) where
  pub covers-pos : (v w : ℕ) → In w (neighbours adj v) → In w target → 0 < covers adj target v
  covers-pos v w m t =
      In-length _ w (In-filter (λ x. in_set x target) (neighbours adj v) w m (In-in_set w target t))

  pub covers-some :
      (v k : ℕ) → covers adj target v ≡ suc k → (w : ℕ) × In w (neighbours adj v) × In w target
  covers-some v k e =
      let (w, m) = first_In _ k e in
      let (near, f) = filter-In (λ x. in_set x target) (neighbours adj v) w m in
      (w, near, in_set-In w target f)

  -- Of two, the one that covers no less.
  abbrev better : ℕ → ℕ → ℕ
  better x y = elim (compare_cover adj target x y) [ Ordering.gt ↦ x | _ ↦ y ]

  lex_choice :
      (x y p q : ℕ)
      → (((elim (lex (compare p q) (compare y x)) [ Ordering.gt ↦ x | _ ↦ y ]) ≡ x) × (q ≤ p))
        ⊎ (((elim (lex (compare p q) (compare y x)) [ Ordering.gt ↦ x | _ ↦ y ]) ≡ y) × (p ≤ q))
  lex_choice x y p q = ground arith

  pub max_from_lem :
      (x : ℕ) (xs : List ℕ)
      → In (max_from (compare_cover adj target) x xs) (x ∷ xs)
        × ((y : ℕ)
            → In y (x ∷ xs)
            → covers adj target y ≤ covers adj target (max_from (compare_cover adj target) x xs))
  max_from_lem x [] = (here refl, λ y m. only y m)
    where
      only : (y : ℕ) → In y (x ∷ []) → covers adj target y ≤ covers adj target x
      only y (here e) = rw e (omega arith)
      only y (there m) = elim m [ ]
  max_from_lem x (y ∷ ys) =
      let ih = max_from_lem (better x y) ys in
      let best = max_from (compare_cover adj target) (better x y) ys in
      let top = ih.1 (better x y) (here refl) in
      elim (lex_choice x y (covers adj target x) (covers adj target y)) [
        | inl (e, le) ↦ (
          from (better x y) best (λ f. here (sym e ∙ f)) ih.0,
          every (better x y) best (omega (arith, top, ap (covers adj target) e))
              (omega (arith, le, top, ap (covers adj target) e)) ih.1,
        )
        | inr (e, le) ↦ (
          from (better x y) best (λ f. there (here (sym e ∙ f))) ih.0,
          every (better x y) best (omega (arith, le, top, ap (covers adj target) e))
              (omega (arith, top, ap (covers adj target) e)) ih.1,
        )
      ]
    where
      from :
          (z best : ℕ) → (z ≡ best → In best (x ∷ y ∷ ys)) → In best (z ∷ ys) → In best (x ∷ y ∷ ys)
      from z best f (here e) = f e
      from z best f (there m) = there (there m)

      every :
          (z best : ℕ)
          → covers adj target x ≤ covers adj target best
          → covers adj target y ≤ covers adj target best
          → ((v : ℕ) → In v (z ∷ ys) → covers adj target v ≤ covers adj target best)
          → (v : ℕ) → In v (x ∷ y ∷ ys)
          → covers adj target v ≤ covers adj target best
      every z best hx hy f v (here e) = rw (← e) hx
      every z best hx hy f v (there (here e)) = rw (← e) hy
      every z best hx hy f v (there (there m)) = f v (there m)
