-- ===== src/Merge/Value/Antichain.antt =====
-- Sets of versions none of which is in another's past, and the flags of the versions done.
use Prim.Native.Nat.{Ordering}
use ndn_sim.Prelude.{
  ℕ, zero, suc, ◌<◌, ◌≡◌, refl, sym, ap, ◌∙◌, Bool, true, false, false≢true, List, [], ◌∷◌, ◌++◌,
  Option, none, some, Bool-cases, inl, inr, ◌==◌, ==_iff, length, get_elem?, set, adjust, All,
  All-append, arith,
}
use ndn_sim.Element.{Slot, slot_cmp, Written}
use ndn_sim.Merge.{Node, contains, flag, all_done}
use ndn_sim.Merge.Value.{Entries, Slots, retain}

pub flag-set_self : (done : List Bool) (i : ℕ) → i < length done → flag (set done i true) i ≡ true
flag-set_self [] i h = elim h [ ]
flag-set_self (b ∷ bs) zero h = refl
flag-set_self (b ∷ bs) (suc i) h = flag-set_self bs i (omega arith)

pub flag-set_mono :
    (done : List Bool) (i j : ℕ) → flag done j ≡ true → flag (set done i true) j ≡ true
flag-set_mono [] i j h = h
flag-set_mono (b ∷ bs) zero zero h = refl
flag-set_mono (b ∷ bs) zero (suc j) h = h
flag-set_mono (b ∷ bs) (suc i) zero h = h
flag-set_mono (b ∷ bs) (suc i) (suc j) h = flag-set_mono bs i j h

pub flag-set_back :
    (done : List Bool) (i j : ℕ)
    → (j == i) ≡ false
    → flag (set done i true) j ≡ true
    → flag done j ≡ true
flag-set_back [] i j e h = h
flag-set_back (b ∷ bs) zero zero e h = absurd (cc)
flag-set_back (b ∷ bs) zero (suc j) e h = h
flag-set_back (b ∷ bs) (suc i) zero e h = h
flag-set_back (b ∷ bs) (suc i) (suc j) e h = flag-set_back bs i j (ground (arith, e)) h

pub all_done_mono :
    (done : List Bool) (i : ℕ) (ps : List ℕ)
    → all_done done ps ≡ true
    → all_done (set done i true) ps ≡ true
all_done_mono done i [] h = refl
all_done_mono done i (p ∷ ps) h = elim (Bool-cases (flag done p)) [
  | inl e ↦ rw (flag-set_mono done i p e) (all_done_mono done i ps (rw e at h))
  | inr e ↦ absurd (false≢true (rw e at h))
]

pub contains-flag :
    (done : List Bool) (i : ℕ) (ps : List ℕ)
    → all_done done ps ≡ true
    → flag done i ≡ false
    → contains i ps ≡ false
contains-flag done i [] h f = refl
contains-flag done i (p ∷ ps) h f = elim (Bool-cases (flag done p)) [
  | inl e ↦ elim (Bool-cases (p == i)) [
    | inl s ↦ absurd (false≢true (sym f ∙ ap (flag done) (sym ((==_iff p i).0 s)) ∙ e))
    | inr s ↦ rw s (contains-flag done i ps (rw e at h) f)
  ]
  | inr e ↦ absurd (false≢true (rw e at h))
]

module _ (nodes : List Node) where
  abbrev pub past_at : ℕ → List ℕ
  past_at i = elim (get_elem? nodes i) [ none ↦ [] | some n ↦ n.past ]

  -- Two versions, neither made over the other.
  abbrev pub AreConcurrent : ℕ → ℕ → Type 0
  AreConcurrent i j =
      ((i == j) ≡ false) × (contains i (past_at j) ≡ false) × (contains j (past_at i) ≡ false)

  abbrev pub IsAntichain : Entries → Type 0
  IsAntichain [] = Unit
  IsAntichain (e ∷ es) = All (λ f. AreConcurrent e.0 f.0) es × IsAntichain es

  abbrev pub IsGood : List Bool → Slot × Entries → Type 0
  IsGood done e = All (λ w. flag done w.0 ≡ true) e.1 × IsAntichain e.1

  pub All-retain :
      (P : ℕ × Written → Type 0) (f : ℕ → Bool) (es : Entries) → All P es → All P (retain f es)
  All-retain P f [] h = tt
  All-retain P f (e ∷ es) h = elim (Bool-cases (f e.0)) [
    | inl t ↦ rw t (h.0, All-retain P f es h.1)
    | inr t ↦ rw t (All-retain P f es h.1)
  ]

  pub retain-true : (f : ℕ → Bool) (es : Entries) → All (λ e. f e.0 ≡ true) (retain f es)
  retain-true f [] = tt
  retain-true f (e ∷ es) = elim (Bool-cases (f e.0)) [
    | inl t ↦ rw t (t, retain-true f es)
    | inr t ↦ rw t (retain-true f es)
  ]

  pub IsAntichain-retain :
      (f : ℕ → Bool) (es : Entries) → IsAntichain es → IsAntichain (retain f es)
  IsAntichain-retain f [] h = tt
  IsAntichain-retain f (e ∷ es) h = elim (Bool-cases (f e.0)) [
    | inl t ↦ rw t (All-retain (λ w. AreConcurrent e.0 w.0) f es h.0, IsAntichain-retain f es h.1)
    | inr t ↦ rw t (IsAntichain-retain f es h.1)
  ]

  pub IsAntichain-append :
      (es : Entries) (e : ℕ × Written)
      → IsAntichain es
      → All (λ f. AreConcurrent f.0 e.0) es
      → IsAntichain (es ++ e ∷ [])
  IsAntichain-append [] e h k = (tt, tt)
  IsAntichain-append (f ∷ fs) e h k = (
    All-append (λ w. AreConcurrent f.0 w.0) fs (e ∷ []) h.0 (k.0, tt),
    IsAntichain-append fs e h.1 k.1,
  )

  pub All-adjust :
      (P : Entries → Type 0) (slot : Slot) (f : Option Entries → Entries) (slots : Slots)
      → P (f none)
      → ((es : Entries) → P es → P (f (some es)))
      → All (λ e. P e.1) slots
      → All (λ e. P e.1) (adjust slot_cmp slot f slots)
  unfolding adjust
  All-adjust P slot f [] new old h = (new, tt)
  All-adjust P slot f ((s, es) ∷ slots) new old h =
      place (slot_cmp slot s) (All-adjust P slot f slots new old h.1)
    where
      place :
          (o : Ordering)
          → All (λ e. P e.1) (adjust slot_cmp slot f slots)
          → All
              (λ e. P e.1)
              (elim o as (λ _. Slots) [
                | Ordering.lt ↦ (slot, f none) ∷ (s, es) ∷ slots
                | Ordering.eq ↦ (s, f (some es)) ∷ slots
                | Ordering.gt ↦ (s, es) ∷ adjust slot_cmp slot f slots
              ])
      place Ordering.lt r = (new, h)
      place Ordering.eq r = (old es h.0, h.1)
      place Ordering.gt r = (h.0, r)
