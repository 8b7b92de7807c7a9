-- ===== src/Ledger/Stored.antt =====
-- What each call on the ledger does to the counts of a replica's copies and reports.
use Prim.Native.String.{String}
use ndn_sim.Prelude.{
  ℕ, suc, ◌+◌, ◌≡◌, refl, sym, ap, ◌∙◌, false≢true, false, List, [], ◌∷◌, some, if◌then◌else◌,
  Bool-cases, inl, inr, arith, length, lookup, lookup-insert, insert, insert-cons, has, has-cons,
  string_key, pair_key, nat_key, u64, same_self,
}
use ndn_sim.Ledger.{
  Ledger, Bytes, Publication, Copy, record_stored, record_ack, record_reported, stored_count,
  reported_count, copies_of, count_of,
}

-- A new key of a replica is one more of its copies.
copies_of-insert :
    (replica : String) (p : Publication) (b : Bytes) (m : List (Copy × Bytes))
    → has (replica, p) m ≡ false
    → length (copies_of replica (insert (replica, p) b m)) ≡ suc (length (copies_of replica m))
unfolding insert
copies_of-insert replica p b [] h = rw (same_self replica) refl
copies_of-insert replica p b (e ∷ m) h =
    let k : Copy = (replica, p) in
    elim (Bool-cases (pair_key.same e.0 k)) [
      | inl same ↦ let clash = sym h ∙ has-cons k e m ∙ rw same refl in absurd (false≢true clash)
      | inr other ↦
          let absent : has k m ≡ false = sym (has-cons k e m ∙ rw other refl) ∙ h in
          let inserted : insert k b (e ∷ m) ≡ e ∷ insert k b m =
            insert-cons k b e m ∙ rw other refl in
          rw inserted (count_one e (insert k b m) m (copies_of-insert replica p b m absent))
    ]
  where
    count_one :
        (e : Copy × Bytes) (m' m : List (Copy × Bytes))
        → length (copies_of replica m') ≡ suc (length (copies_of replica m))
        → length (copies_of replica (e ∷ m')) ≡ suc (length (copies_of replica (e ∷ m)))
    count_one e m' m h = elim (Bool-cases (string_key.same e.0.0 replica)) [
      | inl same ↦ rw (copies_of, same) (omega (arith, h))
      | inr other ↦ rw (copies_of, other) h
    ]

pub stored_count-record_stored :
    (replica publisher : String) (seq : ℕ) (b : Bytes) (l : Ledger)
    → let (newly, l') = record_stored replica publisher seq b l in
      stored_count replica l' ≡ stored_count replica l + (if newly then 1 else 0)
unfolding record_stored stored_count
stored_count-record_stored replica publisher seq b l =
    elim (Bool-cases (has (replica, (publisher, seq)) l.stored)) [
      | inl e ↦ rw (record_stored, e) (omega arith)
      | inr e ↦
          rw (record_stored, e)
            (omega (arith, copies_of-insert replica (publisher, seq) b l.stored e))
    ]

pub reported_count-record_stored :
    (replica publisher : String) (seq : ℕ) (b : Bytes) (l : Ledger)
    → reported_count replica (record_stored replica publisher seq b l).1 ≡ reported_count replica l
unfolding record_stored reported_count
reported_count-record_stored replica publisher seq b l =
    elim (Bool-cases (has (replica, (publisher, seq)) l.stored)) [
      | inl e ↦ rw (record_stored, e) refl
      | inr e ↦ rw (record_stored, e) refl
    ]

pub stored_count-record_ack :
    (replica : String) (l : Ledger) → stored_count replica (record_ack l) ≡ stored_count replica l
unfolding record_ack stored_count
stored_count-record_ack replica l = refl

pub reported_count-record_ack :
    (replica : String) (l : Ledger)
    → reported_count replica (record_ack l) ≡ reported_count replica l
unfolding record_ack reported_count
reported_count-record_ack replica l = refl

pub stored_count-record_reported :
    (replica : String) (l : Ledger)
    → stored_count replica (record_reported replica l) ≡ stored_count replica l
unfolding record_reported stored_count
stored_count-record_reported replica l = refl

pub reported_count-record_reported :
    (replica : String) (l : Ledger)
    → reported_count replica (record_reported replica l) ≡ u64 (reported_count replica l + 1)
unfolding record_reported reported_count
reported_count-record_reported replica l =
    let n = u64 (count_of (lookup replica l.reported) + 1) in
    let looked : lookup replica (insert replica n l.reported) ≡ some n =
      lookup-insert replica replica n l.reported ∙ rw (same_self replica) refl in
    ap count_of looked
