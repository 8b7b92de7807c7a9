-- ===== src/Catchup/Tasks.antt =====
-- The pieces of the consumer, one after the other: where they end, and that no deadline cuts them
-- when there is none.
use ndn_sim.Prelude.{subst, sym, ℕ, ◌≡◌, refl, Option, none}
use ndn_sim.Ledger.{Ledger}
use ndn_sim.Catchup.{Outcome, ◌>>>◌}

-- No deadline has cut the piece and none is left for the next one, and the model's fuel did not run
-- out; the piece is parked only if `Parks` allows it.
abbrev pub IsUncut : {A : Type 0} → Type 0 → Outcome A → Type 0
IsUncut Parks (Outcome.returns a p l) = p ≡ none
IsUncut Parks (Outcome.cut l) = ⊥
IsUncut Parks (Outcome.parked l) = Parks
IsUncut Parks (Outcome.fuel_out l) = ⊥
IsUncut Parks (Outcome.panicked l) = ⊥

-- However a piece ends, the ledger is then in `P`.
abbrev pub Ends : {A : Type 0} → (Ledger → Type 0) → Outcome A → Type 0
Ends P (Outcome.returns a p l) = P l
Ends P (Outcome.cut l) = P l
Ends P (Outcome.parked l) = P l
Ends P (Outcome.fuel_out l) = P l
Ends P (Outcome.panicked l) = P l

-- If a piece returns, its result and the ledger are then in `Q`.
abbrev pub OnReturn : {A : Type 0} → (A → Ledger → Type 0) → Outcome A → Type 0
OnReturn Q (Outcome.returns a p l) = Q a l
OnReturn Q (Outcome.cut l) = Unit
OnReturn Q (Outcome.parked l) = Unit
OnReturn Q (Outcome.fuel_out l) = Unit
OnReturn Q (Outcome.panicked l) = Unit

module _ {A B : Type 0} where
  pub >>>_assoc :
      {C : Type 0} (o : Outcome A) (f : A → Option ℕ → Ledger → Outcome B)
      (g : B → Option ℕ → Ledger → Outcome C)
      → ((o >>> f) >>> g) ≡ (o >>> (λ a p l. f a p l >>> g))
  >>>_assoc (Outcome.returns a p l) f g = refl
  >>>_assoc (Outcome.cut l) f g = refl
  >>>_assoc (Outcome.parked l) f g = refl
  >>>_assoc (Outcome.fuel_out l) f g = refl
  >>>_assoc (Outcome.panicked l) f g = refl

  pub IsUncut->>> :
      (Parks : Type 0) (o : Outcome A) (f : A → Option ℕ → Ledger → Outcome B)
      → IsUncut Parks o
      → ((a : A) (l : Ledger) → IsUncut Parks (f a none l))
      → IsUncut Parks (o >>> f)
  IsUncut->>> Parks (Outcome.returns a p l) f h k = rw h (k a l)
  IsUncut->>> Parks (Outcome.cut l) f h k = h
  IsUncut->>> Parks (Outcome.parked l) f h k = h
  IsUncut->>> Parks (Outcome.fuel_out l) f h k = h
  IsUncut->>> Parks (Outcome.panicked l) f h k = h

  pub uncut_eq :
      (Parks : Type 0) (o : Outcome A) (f g : A → Option ℕ → Ledger → Outcome B)
      → IsUncut Parks o
      → ((a : A) (l : Ledger) → f a none l ≡ g a none l)
      → (o >>> f) ≡ (o >>> g)
  uncut_eq Parks (Outcome.returns a p l) f g h k = rw h (k a l)
  uncut_eq Parks (Outcome.cut l) f g h k = refl
  uncut_eq Parks (Outcome.parked l) f g h k = refl
  uncut_eq Parks (Outcome.fuel_out l) f g h k = refl
  uncut_eq Parks (Outcome.panicked l) f g h k = refl

  pub Ends->>> :
      (P : Ledger → Type 0) (o : Outcome A) (f : A → Option ℕ → Ledger → Outcome B)
      → Ends P o
      → ((a : A) (p : Option ℕ) (l : Ledger) → P l → Ends P (f a p l))
      → Ends P (o >>> f)
  Ends->>> P (Outcome.returns a p l) f h k = k a p l h
  Ends->>> P (Outcome.cut l) f h k = h
  Ends->>> P (Outcome.parked l) f h k = h
  Ends->>> P (Outcome.fuel_out l) f h k = h
  Ends->>> P (Outcome.panicked l) f h k = h

  pub OnReturn->>> :
      (P : A → Ledger → Type 0) (Q : B → Ledger → Type 0) (o : Outcome A)
      (f : A → Option ℕ → Ledger → Outcome B)
      → OnReturn P o
      → ((a : A) (p : Option ℕ) (l : Ledger) → P a l → OnReturn Q (f a p l))
      → OnReturn Q (o >>> f)
  OnReturn->>> P Q (Outcome.returns a p l) f h k = k a p l h
  OnReturn->>> P Q (Outcome.cut l) f h k = tt
  OnReturn->>> P Q (Outcome.parked l) f h k = tt
  OnReturn->>> P Q (Outcome.fuel_out l) f h k = tt
  OnReturn->>> P Q (Outcome.panicked l) f h k = tt

-- The piece returns, and its result and the ledger are then in `Q`.
abbrev pub Returned : {A : Type 0} → (A → Ledger → Type 0) → Outcome A → Type 0
Returned Q (Outcome.returns a p l) = Q a l
Returned Q (Outcome.cut l) = ⊥
Returned Q (Outcome.parked l) = ⊥
Returned Q (Outcome.fuel_out l) = ⊥
Returned Q (Outcome.panicked l) = ⊥

pub uncut_returns :
    {A : Type 0} (Q : A → Ledger → Type 0) (o : Outcome A)
    → IsUncut ⊥ o
    → OnReturn Q o
    → Returned Q o
uncut_returns Q (Outcome.returns a p l) h k = k
uncut_returns Q (Outcome.cut l) h k = h
uncut_returns Q (Outcome.parked l) h k = h
uncut_returns Q (Outcome.fuel_out l) h k = h
uncut_returns Q (Outcome.panicked l) h k = h

-- If a piece returns, it has left the ledger as it was.
abbrev pub IsStill : {A : Type 0} → Ledger → Outcome A → Type 0
IsStill l o = OnReturn (λ a l'. l' ≡ l) o

pub IsStill->>> :
    {A B : Type 0} (l : Ledger) (o : Outcome A) (f : A → Option ℕ → Ledger → Outcome B)
    → IsStill l o
    → ((a : A) (p : Option ℕ) → IsStill l (f a p l))
    → IsStill l (o >>> f)
IsStill->>> l o f h k =
    OnReturn->>> (λ a l'. l' ≡ l) (λ b l'. l' ≡ l) o f h
      (λ a p l' e. subst (λ m. IsStill l (f a p m)) (sym e) (k a p))

pub OnReturn-mono :
    {A : Type 0} (P Q : A → Ledger → Type 0) (o : Outcome A)
    → OnReturn P o
    → ((a : A) (l : Ledger) → P a l → Q a l)
    → OnReturn Q o
OnReturn-mono P Q (Outcome.returns a p l) h k = k a l h
OnReturn-mono P Q (Outcome.cut l) h k = tt
OnReturn-mono P Q (Outcome.parked l) h k = tt
OnReturn-mono P Q (Outcome.fuel_out l) h k = tt
OnReturn-mono P Q (Outcome.panicked l) h k = tt

pub still_then :
    {A B : Type 0} (Q : B → Ledger → Type 0) (l : Ledger) (o : Outcome A)
    (f : A → Option ℕ → Ledger → Outcome B)
    → IsStill l o
    → ((a : A) (p : Option ℕ) → OnReturn Q (f a p l))
    → OnReturn Q (o >>> f)
still_then Q l o f h k =
    OnReturn->>> (λ a l'. l' ≡ l) Q o f h
      (λ a p l' e. subst (λ m. OnReturn Q (f a p m)) (sym e) (k a p))
