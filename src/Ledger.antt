-- ===== src/Ledger.antt =====
-- The ledger of crates/ndn-sim/src/liveness.rs: what publishers authored, what each replica
-- stored and reported, and the acks, with the backlog and the invariants read from them.
--
-- A hash map is an association list; its order stands for the order of iteration, which no result
-- but the order of the violations depends on. The counter of acks wraps at 64 bits; counts of
-- entries do not. A violation is data where the source formats a text.
mod Backlog
pub mod Poison
pub mod Stored
pub mod Pure
mod Examples
use Prim.Native.String.{String}
use ndn_sim.Prelude.{
  ℕ, zero, suc, ◌+◌, Bool, true, false, ◌&&◌, List, [], ◌∷◌, ◌++◌, Option, none, some,
  if◌then◌else◌, length, ltb, lookup, insert, has, nat_key, string_key, pair_key, u64, Key,
}

abbrev pub Bytes : Type 0
Bytes = List ℕ

-- A publication by its publisher and sequence number, and a replica's copy of one.
abbrev pub Publication : Type 0
Publication = String × ℕ

abbrev pub Copy : Type 0
Copy = String × Publication

pub record Ledger : Type 0 where
  pub published : List (Publication × Bytes)
  pub stored : List (Copy × Bytes)
  pub reported : List (String × ℕ)
  pub acks : ℕ

pub new : Ledger
new = record { published = []; stored = []; reported = []; acks = 0 }

pub record_published : String → ℕ → Bytes → Ledger → Ledger
record_published publisher seq bytes l = record l {
  published = insert (publisher, seq) bytes l.published;
}

-- The first bytes stored under a key stay; the answer is whether these are the first.
unfoldable pub record_stored : String → String → ℕ → Bytes → Ledger → Bool × Ledger
record_stored replica publisher seq bytes l =
    if has (replica, (publisher, seq)) l.stored
    then (false, l)
    else (true, record l { stored = insert (replica, (publisher, seq)) bytes l.stored })

unfoldable pub record_ack : Ledger → Ledger
record_ack l = record l { acks = u64 (l.acks + 1) }

abbrev pub count_of : Option ℕ → ℕ
count_of none = 0
count_of (some n) = n

pub reported_count : String → Ledger → ℕ
reported_count replica l = count_of (lookup replica l.reported)

unfoldable pub record_reported : String → Ledger → Ledger
record_reported replica l = record l {
  reported = insert replica (u64 (count_of (lookup replica l.reported) + 1)) l.reported;
}

unfoldable pub acks_total : Ledger → ℕ
acks_total l = l.acks

-- The copies that a replica holds.
abbrev pub copies_of : String → List (Copy × Bytes) → List (Copy × Bytes)
copies_of replica [] = []
copies_of replica (e ∷ m) =
    let rest = copies_of replica m in if string_key.same e.0.0 replica then e ∷ rest else rest

pub stored_count : String → Ledger → ℕ
stored_count replica l = length (copies_of replica l.stored)

abbrev pub total_length : List (Copy × Bytes) → ℕ
total_length [] = 0
total_length (e ∷ m) = length e.1 + total_length m

pub stored_bytes : String → Ledger → ℕ
stored_bytes replica l = total_length (copies_of replica l.stored)

-- The inner loop of `backlog`: the replicas that lack one publication.
unfoldable pub missing_of : List (Copy × Bytes) → Publication → List String → ℕ
missing_of stored p [] = 0
missing_of stored p (r ∷ rs) = (if has (r, p) stored then 0 else 1) + missing_of stored p rs

unfoldable pub backlog_of : List (Publication × Bytes) → List (Copy × Bytes) → List String → ℕ
unfolding missing_of
backlog_of [] stored replicas = 0
backlog_of (e ∷ es) stored replicas = missing_of stored e.0 replicas + backlog_of es stored replicas

unfoldable pub backlog : List String → Ledger → ℕ
unfolding backlog_of
backlog replicas l = backlog_of l.published l.stored replicas

pub data Violation : Type 0 where
  wrong_bytes never_authored : Copy → Violation
  events_lost : String → ℕ → ℕ → Violation

pub record Invariants : Type 0 where
  pub poison_free : Bool
  pub event_integrity : Bool
  pub violations : List Violation

abbrev pub bytes_same : Bytes → Bytes → Bool
bytes_same [] [] = true
bytes_same (a ∷ as') (b ∷ bs) = nat_key.same a b && bytes_same as' bs
bytes_same _ _ = false

-- The three arms of the loop over the stored copies.
abbrev pub judge : Option Bytes → Copy × Bytes → List Violation
judge none e = never_authored e.0 ∷ []
judge (some authored) e = if bytes_same authored e.1 then [] else wrong_bytes e.0 ∷ []

pub poisoned : List (Publication × Bytes) → List (Copy × Bytes) → List Violation
poisoned published [] = []
poisoned published (e ∷ m) = judge (lookup e.0.1 published) e ++ poisoned published m

pub unreported : Ledger → List String → List Violation
unfolding reported_count stored_count
unreported l [] = []
unreported l (r ∷ rs) =
    (if ltb (reported_count r l) (stored_count r l)
      then events_lost r (stored_count r l) (reported_count r l) ∷ []
      else [])
    ++ unreported l rs

abbrev pub is_empty {ℓ} : {A : Type ℓ} → List A → Bool
is_empty [] = true
is_empty (x ∷ xs) = false

pub invariants : List String → Ledger → Invariants
unfolding poisoned unreported
invariants replicas l =
    let bad = poisoned l.published l.stored in
    let lost = unreported l replicas in
    record { poison_free = is_empty bad; event_integrity = is_empty lost; violations = bad ++ lost }
