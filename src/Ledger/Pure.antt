-- ===== src/Ledger/Pure.antt =====
-- Ledgers that hold authentic copies only, and the calls that keep them so.
use Prim.Native.String.{String}
use ndn_sim.Prelude.{
  ℕ, ◌≡◌, sym, subst, inl, inr, List, [], ◌∷◌, Bool-cases, All, insert, has, nat_key, string_key,
  pair_key,
}
use ndn_sim.Ledger.{Ledger, Bytes, Publication, Copy, record_stored, record_ack, record_reported}
use ndn_sim.Ledger.Poison.{IsAuthentic}

-- What was published is `authored`, and each stored copy is authentic.
abbrev pub IsPure : List (Publication × Bytes) → Ledger → Type 0
IsPure authored l = (l.published ≡ authored) × All (IsAuthentic authored) l.stored

module _ (authored : List (Publication × Bytes)) where
  IsAuthentic-insert :
      (k : Copy) (b : Bytes) (m : List (Copy × Bytes))
      → IsAuthentic authored (k, b)
      → All (IsAuthentic authored) m
      → All (IsAuthentic authored) (insert k b m)
  unfolding insert
  IsAuthentic-insert k b [] a h = (a, tt)
  IsAuthentic-insert k b (e ∷ m) a h = elim (Bool-cases (pair_key.same e.0 k)) [
    | inl same ↦
        let same_key : e.0 ≡ k = (pair_key.same_iff e.0 k).0 same in
        rw same (subst (λ j. IsAuthentic authored (j, b)) (sym same_key) a, h.1)
    | inr other ↦ rw other (h.0, IsAuthentic-insert k b m a h.1)
  ]

  pub IsPure-record_stored :
      (replica publisher : String) (seq : ℕ) (b : Bytes) (l : Ledger)
      → IsAuthentic authored ((replica, (publisher, seq)), b)
      → IsPure authored l
      → IsPure authored (record_stored replica publisher seq b l).1
  unfolding record_stored
  IsPure-record_stored replica publisher seq b l a h =
      elim (Bool-cases (has (replica, (publisher, seq)) l.stored)) [
        | inl e ↦ rw (record_stored, e) h
        | inr e ↦
            rw (record_stored, e)
              (h.0, IsAuthentic-insert (replica, (publisher, seq)) b l.stored a h.1)
      ]

  pub IsPure-record_ack : (l : Ledger) → IsPure authored l → IsPure authored (record_ack l)
  unfolding record_ack
  IsPure-record_ack l h = h

  pub IsPure-record_reported :
      (replica : String) (l : Ledger)
      → IsPure authored l
      → IsPure authored (record_reported replica l)
  unfolding record_reported
  IsPure-record_reported replica l h = h
