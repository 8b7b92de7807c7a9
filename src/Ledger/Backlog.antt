-- ===== src/Ledger/Backlog.antt =====
-- The backlog: when it is zero, and how a stored copy lowers it.
use Prim.Native.String.{String}
use ndn_sim.Prelude.{
  ℕ, suc, ◌≡◌, refl, sym, ◌∙◌, ◌↔◌, ◌⊎◌, inl, inr, true, false, false≢true, List, [], ◌∷◌,
  Bool-cases, arith, All, In, here, there, subst, lookup, insert, has, has-insert, same_self,
  same_sym, has-cons, IsMap, nat_key, string_key, pair_key,
}
use ndn_sim.Ledger.{
  Ledger, Bytes, Publication, Copy, missing_of, backlog_of, backlog, record_stored,
}

abbrev HeldBy : List (Copy × Bytes) → Publication → List String → Type 0
HeldBy stored p replicas = All (λ r. has (r, p) stored ≡ true) replicas

missing_of-HeldBy :
    (stored : List (Copy × Bytes)) (p : Publication) (rs : List String)
    → (missing_of stored p rs ≡ 0) ↔ HeldBy stored p rs
unfolding missing_of
missing_of-HeldBy stored p [] = (λ h. tt, λ h. refl)
missing_of-HeldBy stored p (r ∷ rs) = ground (arith, missing_of-HeldBy stored p rs)

backlog_of-HeldBy :
    (published : List (Publication × Bytes)) (stored : List (Copy × Bytes)) (rs : List String)
    → (backlog_of published stored rs ≡ 0) ↔ All (λ e. HeldBy stored e.0 rs) published
unfolding backlog_of
backlog_of-HeldBy [] stored rs = (λ h. tt, λ h. refl)
backlog_of-HeldBy (e ∷ es) stored rs = (
  λ h. (
    (missing_of-HeldBy stored e.0 rs).0 (omega arith),
    (backlog_of-HeldBy es stored rs).0 (omega arith),
  ),
  λ h.
      omega
        (arith, (missing_of-HeldBy stored e.0 rs).1 h.0, (backlog_of-HeldBy es stored rs).1 h.1),
)

-- The backlog is zero exactly when each replica holds a copy of each publication.
pub backlog_zero :
    (rs : List String) (l : Ledger)
    → (backlog rs l ≡ 0) ↔ All (λ e. All (λ r. has (r, e.0) l.stored ≡ true) rs) l.published
unfolding backlog
backlog_zero rs l = backlog_of-HeldBy l.published l.stored rs

-- No replica is named twice.
abbrev pub IsDistinct : List String → Type 0
IsDistinct [] = Unit
IsDistinct (r ∷ rs) = All (λ s. string_key.same r s ≡ false) rs × IsDistinct rs

module _ (r : String) (p : Publication) (b : Bytes) (stored : List (Copy × Bytes)) where
  has_other :
      (s : String) (q : Publication)
      → pair_key.same (r, p) (s, q) ≡ false
      → has (s, q) (insert (r, p) b stored) ≡ has (s, q) stored
  has_other s q h = has-insert (r, p) (s, q) b stored ∙ rw h refl

  has_mine : has (r, p) (insert (r, p) b stored) ≡ true
  has_mine =
      let copy : Copy = (r, p) in has-insert (r, p) (r, p) b stored ∙ rw (same_self copy) refl

  missing_of_other :
      (q : Publication) (rs : List String)
      → pair_key.same p q ≡ false
      → missing_of (insert (r, p) b stored) q rs ≡ missing_of stored q rs
  unfolding missing_of
  missing_of_other q [] h = refl
  missing_of_other q (s ∷ rs) h = ground (arith, has_other s q, missing_of_other q rs h)

  missing_of_apart :
      (rs : List String)
      → All (λ s. string_key.same r s ≡ false) rs
      → missing_of (insert (r, p) b stored) p rs ≡ missing_of stored p rs
  unfolding missing_of
  missing_of_apart [] h = refl
  missing_of_apart (s ∷ rs) h = ground (arith, has_other s p, missing_of_apart rs h.1)

  missing_of_one_less :
      (rs : List String)
      → IsDistinct rs
      → In r rs
      → has (r, p) stored ≡ false
      → missing_of stored p rs ≡ suc (missing_of (insert (r, p) b stored) p rs)
  unfolding missing_of
  missing_of_one_less [] d i h = elim i [ ]
  missing_of_one_less (s ∷ rs) d (here e) h =
      let apart = subst (λ t. All (λ u. string_key.same t u ≡ false) rs) e d.0 in
      rw (e, h, has_mine) (omega (arith, missing_of_apart rs apart))
  missing_of_one_less (s ∷ rs) d (there i) h =
      rw (has_other s p (apart rs d.0 i)) (omega (arith, missing_of_one_less rs d.1 i h))
    where
      apart :
          (l : List String)
          → All (λ u. string_key.same s u ≡ false) l
          → In r l
          → pair_key.same (r, p) (s, p) ≡ false
      apart [] hs i = elim i [ ]
      apart (u ∷ l) hs (here e) =
          rw (same_sym r s, subst (λ v. string_key.same s v ≡ false) e hs.0) refl
      apart (u ∷ l) hs (there i) = apart l hs.1 i

  backlog_of_other :
      (es : List (Publication × Bytes)) (rs : List String)
      → All (λ e. pair_key.same p e.0 ≡ false) es
      → backlog_of es (insert (r, p) b stored) rs ≡ backlog_of es stored rs
  unfolding backlog_of
  backlog_of_other [] rs h = refl
  backlog_of_other (e ∷ es) rs h =
      omega (arith, missing_of_other e.0 rs h.0, backlog_of_other es rs h.1)

  backlog_of_one_less :
      (es : List (Publication × Bytes)) (rs : List String)
      → IsMap es
      → has p es ≡ true
      → IsDistinct rs
      → In r rs
      → has (r, p) stored ≡ false
      → backlog_of es stored rs ≡ suc (backlog_of es (insert (r, p) b stored) rs)
  unfolding backlog_of has lookup
  backlog_of_one_less [] rs m a d i h = absurd (false≢true a)
  backlog_of_one_less (e ∷ es) rs m a d i h = elim (Bool-cases (pair_key.same e.0 p)) [
    | inl same ↦
        let at_p : e.0 ≡ p = (pair_key.same_iff e.0 p).0 same in
        let apart : All (λ f. pair_key.same p f.0 ≡ false) es =
          subst (λ q. All (λ f. pair_key.same q f.0 ≡ false) es) at_p m.0 in
        rw at_p (omega (arith, missing_of_one_less rs d i h, backlog_of_other es rs apart))
    | inr other ↦
        let authored : has p es ≡ true = sym (has-cons p e es ∙ rw other refl) ∙ a in
        omega (
          arith,
          missing_of_other e.0 rs (same_sym p e.0 ∙ other),
          backlog_of_one_less es rs m.1 authored d i h,
        )
  ]

-- Where no publication and no replica is listed twice, a replica of the cell that stores an authored
-- publication for the first time lowers the backlog by exactly one; storing it again changes nothing.
pub record_stored-backlog :
    (rs : List String) (r publisher : String) (seq : ℕ) (b : Bytes) (l : Ledger)
    → IsMap l.published
    → has (publisher, seq) l.published ≡ true
    → IsDistinct rs
    → In r rs
    → let (newly, l') = record_stored r publisher seq b l in
      ((newly ≡ true) × (backlog rs l ≡ suc (backlog rs l')))
      ⊎ ((newly ≡ false) × (has (r, (publisher, seq)) l.stored ≡ true) × (l' ≡ l))
unfolding record_stored backlog
record_stored-backlog rs r publisher seq b l m a d i =
    elim (Bool-cases (has (r, (publisher, seq)) l.stored)) [
      | inl e ↦ rw e (inr (refl, refl, refl))
      | inr e ↦
          rw e
            (inl (refl, backlog_of_one_less r (publisher, seq) b l.stored l.published rs m a d i e))
    ]
