-- ===== src/Ledger/Poison.antt =====
-- What the invariants report of a ledger, and that the first bytes stored under a key stay.
use Prim.Native.String.{String}
use ndn_sim.Prelude.{
  ℕ, ◌≤◌, ◌≡◌, refl, ◌↔◌, inl, inr, true, false≢true, List, [], ◌∷◌, ◌++◌, Option, none, some,
  Bool-cases, arith, All, lookup, lookup-insert_new, has, nat_key, string_key, pair_key,
}
use ndn_sim.Ledger.{
  Ledger, Bytes, Publication, Copy, bytes_same, judge, poisoned, unreported, is_empty, invariants,
  stored_count, reported_count, record_published, record_stored, record_ack, record_reported,
}

bytes_same_iff : (as' bs : Bytes) → (bytes_same as' bs ≡ true) ↔ (as' ≡ bs)
bytes_same_iff [] [] = (λ h. refl, λ h. refl)
bytes_same_iff [] (b ∷ bs) = (λ h. absurd (false≢true h), λ h. absurd (cc))
bytes_same_iff (a ∷ as') [] = (λ h. absurd (false≢true h), λ h. absurd (cc))
bytes_same_iff (a ∷ as') (b ∷ bs) = ground (arith, nat_key.same_iff a b, bytes_same_iff as' bs)

-- The copy has the bytes that its publisher authored.
abbrev pub IsAuthentic : List (Publication × Bytes) → Copy × Bytes → Type 0
IsAuthentic published e = lookup e.0.1 published ≡ some e.1

judge-IsAuthentic : (o : Option Bytes) (e : Copy × Bytes) → (judge o e ≡ []) ↔ (o ≡ some e.1)
judge-IsAuthentic none e = (λ h. absurd (cc), λ h. absurd (cc))
judge-IsAuthentic (some authored) e = ground (arith, bytes_same_iff authored e.1)

append-IsNil {ℓ} : {A : Type ℓ} (xs ys : List A) → (xs ++ ys ≡ []) ↔ ((xs ≡ []) × (ys ≡ []))
append-IsNil [] ys = (λ h. (refl, h), λ h. h.1)
append-IsNil (x ∷ xs) ys = (λ h. absurd (cc), λ h. absurd (cc (h.0)))

is_empty_iff {ℓ} : {A : Type ℓ} (xs : List A) → (is_empty xs ≡ true) ↔ (xs ≡ [])
is_empty_iff [] = (λ h. refl, λ h. refl)
is_empty_iff (x ∷ xs) = (λ h. absurd (false≢true h), λ h. absurd (cc))

poisoned-IsAuthentic :
    (published : List (Publication × Bytes)) (stored : List (Copy × Bytes))
    → (poisoned published stored ≡ []) ↔ All (IsAuthentic published) stored
unfolding poisoned
poisoned-IsAuthentic published [] = (λ h. tt, λ h. refl)
poisoned-IsAuthentic published (e ∷ m) =
    let here' = judge-IsAuthentic (lookup e.0.1 published) e in
    let rest = poisoned-IsAuthentic published m in
    let both = append-IsNil (judge (lookup e.0.1 published) e) (poisoned published m) in
    (λ h. (here'.0 (both.0 h).0, rest.0 (both.0 h).1), λ h. both.1 (here'.1 h.0, rest.1 h.1))

abbrev pub IsReported : Ledger → String → Type 0
IsReported l r = stored_count r l ≤ reported_count r l

unreported-IsReported :
    (l : Ledger) (rs : List String) → (unreported l rs ≡ []) ↔ All (IsReported l) rs
unfolding unreported
unreported-IsReported l [] = (λ h. tt, λ h. refl)
unreported-IsReported l (r ∷ rs) = ground (arith, unreported-IsReported l rs)

-- A ledger is free of poison exactly when each stored copy has its publisher's bytes, it lost no
-- event exactly when each replica reported at least as many blocks as it stores, and there is no
-- violation exactly when both hold.
pub invariants_lem :
    (rs : List String) (l : Ledger)
    → let v = invariants rs l in
      ((v.poison_free ≡ true) ↔ All (IsAuthentic l.published) l.stored)
      × ((v.event_integrity ≡ true) ↔ All (IsReported l) rs)
      × ((v.violations ≡ []) ↔ ((v.poison_free ≡ true) × (v.event_integrity ≡ true)))
unfolding invariants
invariants_lem rs l =
    let bad = poisoned l.published l.stored in
    let lost = unreported l rs in
    let p = poisoned-IsAuthentic l.published l.stored in
    let u = unreported-IsReported l rs in
    let pe = is_empty_iff bad in
    let ue = is_empty_iff lost in
    let both = append-IsNil bad lost in
    (
      (λ h. p.0 (pe.0 h), λ h. pe.1 (p.1 h)),
      (λ h. u.0 (ue.0 h), λ h. ue.1 (u.1 h)),
      (λ h. (pe.1 (both.0 h).0, ue.1 (both.0 h).1), λ h. both.1 (pe.0 h.0, ue.0 h.1)),
    )

-- The calls that change a ledger.
pub data Call : Type 0 where
  published : String → ℕ → Bytes → Call
  stored : String → String → ℕ → Bytes → Call
  acked : Call
  reported : String → Call

abbrev pub apply : Call → Ledger → Ledger
apply (published publisher seq b) l = record_published publisher seq b l
apply (stored replica publisher seq b) l = (record_stored replica publisher seq b l).1
apply acked l = record_ack l
apply (reported replica) l = record_reported replica l

abbrev pub apply_all : List Call → Ledger → Ledger
apply_all [] l = l
apply_all (c ∷ cs) l = apply_all cs (apply c l)

lookup-apply :
    (c : Call) (l : Ledger) (k : Copy) (b : Bytes)
    → lookup k l.stored ≡ some b
    → lookup k (apply c l).stored ≡ some b
unfolding record_published record_stored record_ack record_reported
lookup-apply (published publisher seq b') l k b h = h
lookup-apply acked l k b h = h
lookup-apply (reported replica) l k b h = h
lookup-apply (stored replica publisher seq b') l k b h =
    elim (Bool-cases (has (replica, (publisher, seq)) l.stored)) [
      | inl e ↦ rw (apply, e) h
      | inr e ↦ rw (apply, e) (lookup-insert_new (replica, (publisher, seq)) k b' b l.stored e h)
    ]

-- The first bytes stored under a key stay, whatever is recorded later.
pub stored_first :
    (cs : List Call) (l : Ledger) (k : Copy) (b : Bytes)
    → lookup k l.stored ≡ some b
    → lookup k (apply_all cs l).stored ≡ some b
stored_first [] l k b h = h
stored_first (c ∷ cs) l k b h = stored_first cs (apply c l) k b (lookup-apply c l k b h)
