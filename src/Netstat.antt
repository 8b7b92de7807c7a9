-- ===== src/Netstat.antt =====
-- crates/ndn-sim/src/netstat.rs: what each node sends and receives, by the prefix of the names. The
-- decoders of the wire format are the parameters `interest`, `data` and `lp`; a text is the list of
-- its code points, and a name in `interest` and `data` is its text.
mod Bytes
mod Examples
use Prim.Native.Nat.{Ordering}
use ndn_sim.Prelude.{
  ℕ, zero, suc, ◌+◌, ◌*◌, ◌≤◌, ◌<◌, max, min, Bool, true, false, List, [], ◌∷◌, ◌++◌, map, Option,
  none, some, if◌then◌else◌, ◌==◌, length, u64, lex, compare_lists, adjust, get, sort_by,
}

pub record PrefixCounters : Type 0 where
  pub out_bytes : ℕ
  pub in_bytes : ℕ
  pub out_interests : ℕ
  pub out_data : ℕ
  pub in_interests : ℕ
  pub in_data : ℕ

abbrev pub no_counts : PrefixCounters
no_counts = record {
  out_bytes = 0;
  in_bytes = 0;
  out_interests = 0;
  out_data = 0;
  in_interests = 0;
  in_data = 0;
}

pub data WireKind : Type 0 where
  kind_interest kind_data kind_nack kind_other : WireKind

-- What the decoder of link-layer packets gives: the index of the fragment, whether it is a refusal,
-- and the fragment.
pub record LpPacket : Type 0 where
  pub frag_index : Option ℕ
  pub is_nack : Bool
  pub fragment : Option (List ℕ)

-- A node and a prefix.
abbrev pub Key : Type 0
Key = List ℕ × List ℕ

abbrev pub compare_keys : Key → Key → Ordering
compare_keys (n, p) (m, q) = lex (compare_lists n m) (compare_lists p q)

pub record PrefixStats : Type 0 where
  pub inner : List (Key × PrefixCounters)
  pub grouping : ℕ

abbrev pub with_grouping : ℕ → PrefixStats
with_grouping max_components = record { inner = []; grouping = max max_components 1 }

-- The counters after a frame of a kind, sent or received. `+=` wraps at 64 bits.
abbrev pub bump : Bool → WireKind → ℕ → PrefixCounters → PrefixCounters
bump true kind bytes c =
    let c' = record c { out_bytes = u64 (c.out_bytes + bytes) } in
    elim kind [
      | kind_interest ↦ record c' { out_interests = u64 (c.out_interests + 1) }
      | kind_data ↦ record c' { out_data = u64 (c.out_data + 1) }
      | kind_nack ↦ c'
      | kind_other ↦ c'
    ]
bump false kind bytes c =
    let c' = record c { in_bytes = u64 (c.in_bytes + bytes) } in
    elim kind [
      | kind_interest ↦ record c' { in_interests = u64 (c.in_interests + 1) }
      | kind_data ↦ record c' { in_data = u64 (c.in_data + 1) }
      | kind_nack ↦ c'
      | kind_other ↦ c'
    ]

-- `or_default`.
abbrev pub or_default : Option PrefixCounters → PrefixCounters
or_default none = no_counts
or_default (some c) = c

unfoldable pub count : List ℕ → List ℕ → Bool → WireKind → ℕ → PrefixStats → PrefixStats
count node prefix outbound kind bytes s = record s {
  inner = adjust compare_keys (node, prefix) (λ o. bump outbound kind bytes (or_default o)) s.inner;
}

abbrev pub compare_rows : Key × PrefixCounters → Key × PrefixCounters → Ordering
compare_rows a b = compare_keys a.0 b.0

unfoldable pub snapshot : PrefixStats → List (Key × PrefixCounters)
snapshot s = sort_by compare_rows s.inner

-- A slash.
abbrev pub slash : ℕ
slash = 47

-- `uri.split('/')`, with `part` read since the last slash.
abbrev pub split : List ℕ → List ℕ → List (List ℕ)
split part [] = part ∷ []
split part (c ∷ cs) = if c == slash then part ∷ split [] cs else split (part ++ c ∷ []) cs

abbrev pub is_empty : List ℕ → Bool
is_empty [] = true
is_empty (c ∷ cs) = false

abbrev pub drop_empty : List (List ℕ) → List (List ℕ)
drop_empty [] = []
drop_empty (c ∷ cs) = if is_empty c then drop_empty cs else c ∷ drop_empty cs

-- The first `k` components, each after a slash.
abbrev pub joined_first : ℕ → List (List ℕ) → List ℕ
joined_first zero cs = []
joined_first (suc k) [] = []
joined_first (suc k) (c ∷ cs) = slash ∷ c ++ joined_first k cs

unfoldable pub group_prefix : List ℕ → ℕ → List ℕ
group_prefix uri max_components = elim (drop_empty (split [] uri)) [
  | [] ↦ slash ∷ []
  | c ∷ cs ↦ joined_first (max max_components 1) (c ∷ cs)
]

-- "(unparsed)".
abbrev pub unparsed : List ℕ
unparsed = 40 ∷ 117 ∷ 110 ∷ 112 ∷ 97 ∷ 114 ∷ 115 ∷ 101 ∷ 100 ∷ 41 ∷ []

-- A packet that decodes, is a first fragment and has one: whether it is a refusal, and the fragment.
abbrev pub first_fragment : Option LpPacket → Option (Bool × List ℕ)
first_fragment none = none
first_fragment (some p) = elim p.frag_index [
  | some (suc i) ↦ none
  | _ ↦ elim p.fragment [ none ↦ none | some inner ↦ some (p.is_nack, inner) ]
]

module _ (interest data_name : List ℕ → Option (List ℕ)) (lp : List ℕ → Option LpPacket) where
  abbrev pub named : WireKind → Option (List ℕ) → WireKind × Option (List ℕ)
  named kind none = (kind_other, none)
  named kind (some name) = (kind, some name)

  -- Fuel that has run out is `none`.
  unfoldable pub classify : ℕ → List ℕ → Option (WireKind × Option (List ℕ))
  classify zero wire = none
  classify (suc fuel) [] = some (kind_other, none)
  classify (suc fuel) (t ∷ ts) = elim (t == 5) [
    | true ↦ some (named kind_interest (interest (t ∷ ts)))
    | false ↦ elim (t == 6) [
      | true ↦ some (named kind_data (data_name (t ∷ ts)))
      | false ↦ elim (t == 100) [
        | false ↦ some (kind_other, none)
        | true ↦ elim (first_fragment (lp (t ∷ ts))) [
          | none ↦ some (kind_other, none)
          | some (nack, inner) ↦ elim (classify fuel inner) [
            | none ↦ none
            | some r ↦ some (if nack then (kind_nack, r.1) else r)
          ]
        ]
      ]
    ]
  ]

  abbrev pub prefix_of : ℕ → Option (List ℕ) → List ℕ
  prefix_of k none = unparsed
  prefix_of k (some name) = group_prefix name k

  -- The tap of one node's face; `wire.len()` bounds the packets inside packets.
  unfoldable pub observe : List ℕ → ℕ → List ℕ → Bool → PrefixStats → Option PrefixStats
  observe node max_components wire outbound s = elim (classify (suc (length wire)) wire) [
    | none ↦ none
    | some (kind, name) ↦
        some (count node (prefix_of (max max_components 1) name) outbound kind (length wire) s)
  ]
