-- ===== src/Netstat/Examples.antt =====
-- Runs of crates/ndn-sim/src/netstat.rs with decoders that take what follows the type for a name, and
-- for the fragment of a packet.
use ndn_sim.Prelude.{
  ℕ, ◌+◌, ◌≡◌, refl, ◌<◌, true, false, List, [], ◌∷◌, Option, none, some, arith, length, u64,
  Returns,
}
use ndn_sim.Netstat.{LpPacket, with_grouping, classify, group_prefix, snapshot, kind_nack}
use ndn_sim.Netstat.Bytes.{Frame, total, lengths, observe_all, snapshot-total}

abbrev tail_name : List ℕ → Option (List ℕ)
tail_name [] = none
tail_name (t ∷ ts) = some ts

-- A packet of type 100 is a refusal with the rest as its fragment.
abbrev refusal : List ℕ → Option LpPacket
refusal [] = none
refusal (t ∷ ts) = some (record { frag_index = none; is_nack = true; fragment = some ts })

refusal_smaller :
    (wire inner : List ℕ) (p : LpPacket)
    → refusal wire ≡ some p
    → p.fragment ≡ some inner
    → length inner < length wire
refusal_smaller [] inner p e f = absurd (cc)
refusal_smaller (t ∷ ts) inner p e f = let same : ts ≡ inner = cc in rw same (omega arith)

-- "/a/b/c" and "/".
groups :
    (group_prefix (47 ∷ 97 ∷ 47 ∷ 98 ∷ 47 ∷ 99 ∷ []) 2 ≡ 47 ∷ 97 ∷ 47 ∷ 98 ∷ [])
    × (group_prefix (47 ∷ []) 3 ≡ 47 ∷ [])
unfolding group_prefix
groups = (refl, refl)

-- A refusal is named by the Interest in it, and is none.
refused :
    classify tail_name tail_name refusal 9 (100 ∷ 5 ∷ 47 ∷ 97 ∷ [])
    ≡ some (kind_nack, some (47 ∷ 97 ∷ []))
unfolding classify
refused = refl

abbrev frames : List Frame
frames =
    record { node = 1 ∷ []; max_components = 3; wire = 5 ∷ 47 ∷ 97 ∷ []; outbound = true }
    ∷ record { node = 2 ∷ []; max_components = 3; wire = 100 ∷ 5 ∷ 47 ∷ 97 ∷ []; outbound = false }
    ∷ record { node = 1 ∷ []; max_components = 3; wire = 9 ∷ []; outbound = true }
    ∷ []

snapshot-total_example :
    Returns
      (λ s'. u64 (total (snapshot s')) ≡ u64 (total (snapshot (with_grouping 3)) + lengths frames))
      (observe_all tail_name tail_name refusal frames (with_grouping 3))
snapshot-total_example =
    snapshot-total tail_name tail_name refusal refusal_smaller frames (with_grouping 3)
