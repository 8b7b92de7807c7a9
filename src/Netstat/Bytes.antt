-- ===== src/Netstat/Bytes.antt =====
-- The counters of crates/ndn-sim/src/netstat.rs lose no byte.
use Prim.Native.Nat.{Ordering}
use ndn_sim.Prelude.{
  ℕ, zero, suc, ◌+◌, ◌<◌, ◌≡◌, refl, sym, ◌∙◌, ap, max, Bool, true, false, List, [], ◌∷◌, Option,
  none, some, ◌>>=◌, inl, inr, Bool-cases, Option-cases, if◌then◌else◌, ◌==◌, length, u64, arith,
  adjust, sort_by, sort_into, is_lt, Returns, Returns->>=, Returns-mono,
}
use ndn_sim.Netstat.{
  PrefixCounters, PrefixStats, Key, WireKind, kind_interest, kind_data, kind_nack, kind_other,
  LpPacket, bump, or_default, count, compare_keys, compare_rows, snapshot, classify, observe,
  prefix_of, first_fragment,
}

-- The bytes of a row and of a table.
abbrev pub bytes_of : PrefixCounters → ℕ
bytes_of c = c.out_bytes + c.in_bytes

abbrev pub total : List (Key × PrefixCounters) → ℕ
total [] = 0
total ((k, c) ∷ rows) = bytes_of c + total rows

bump-bytes :
    (outbound : Bool) (kind : WireKind) (bytes : ℕ) (c : PrefixCounters)
    → u64 (bytes_of (bump outbound kind bytes c)) ≡ u64 (bytes_of c + bytes)
bump-bytes true kind_interest bytes c = omega arith
bump-bytes true kind_data bytes c = omega arith
bump-bytes true kind_nack bytes c = omega arith
bump-bytes true kind_other bytes c = omega arith
bump-bytes false kind_interest bytes c = omega arith
bump-bytes false kind_data bytes c = omega arith
bump-bytes false kind_nack bytes c = omega arith
bump-bytes false kind_other bytes c = omega arith

-- A change of one row that adds `bytes` adds them to the table.
adjust-total :
    (f : Option PrefixCounters → PrefixCounters) (bytes : ℕ)
    → ((o : Option PrefixCounters) → u64 (bytes_of (f o)) ≡ u64 (bytes_of (or_default o) + bytes))
    → (k : Key) (rows : List (Key × PrefixCounters))
    → u64 (total (adjust compare_keys k f rows)) ≡ u64 (total rows + bytes)
unfolding adjust
adjust-total f bytes h k [] = omega (arith, h none)
adjust-total f bytes h k ((j, c) ∷ rows) = go (compare_keys k j) (adjust-total f bytes h k rows)
  where
    go :
        (o : Ordering)
        → u64 (total (adjust compare_keys k f rows)) ≡ u64 (total rows + bytes)
        → u64 (
            total (elim o [
              | Ordering.lt ↦ (k, f none) ∷ (j, c) ∷ rows
              | Ordering.eq ↦ (j, f (some c)) ∷ rows
              | Ordering.gt ↦ (j, c) ∷ adjust compare_keys k f rows
            ]))
          ≡ u64 (bytes_of c + total rows + bytes)
    go Ordering.lt ih = omega (arith, h none)
    go Ordering.eq ih = omega (arith, h (some c))
    go Ordering.gt ih = omega (arith, ih)

sort_into-total :
    (x : Key × PrefixCounters) (rows : List (Key × PrefixCounters))
    → total (sort_into compare_rows x rows) ≡ bytes_of x.1 + total rows
unfolding sort_into
sort_into-total x [] = refl
sort_into-total x (y ∷ rows) = elim (Bool-cases (is_lt (compare_rows y x))) [
  | inl e ↦ rw (e, sort_into) (omega (arith, sort_into-total x rows))
  | inr e ↦ rw (e, sort_into) refl
]

sort_by-total :
    (rows : List (Key × PrefixCounters)) → total (sort_by compare_rows rows) ≡ total rows
unfolding sort_by
sort_by-total [] = refl
sort_by-total (x ∷ rows) =
    omega (arith, sort_into-total x (sort_by compare_rows rows), sort_by-total rows)

-- A frame at the tap of a node's face.
pub record Frame : Type 0 where
  pub node : List ℕ
  pub max_components : ℕ
  pub wire : List ℕ
  pub outbound : Bool

abbrev pub lengths : List Frame → ℕ
lengths [] = 0
lengths (f ∷ fs) = length f.wire + lengths fs

-- Frames one after the other.
module _ (interest data_name : List ℕ → Option (List ℕ)) (lp : List ℕ → Option LpPacket) where
  abbrev pub observe_all : List Frame → PrefixStats → Option PrefixStats
  observe_all [] s = some s
  observe_all (f ∷ fs) s =
      observe interest data_name lp f.node f.max_components f.wire f.outbound s >>= λ s'.
      observe_all fs s'

fragment_of :
    (p : LpPacket) (nack : Bool) (inner : List ℕ)
    → first_fragment (some p) ≡ some (nack, inner)
    → p.fragment ≡ some inner
fragment_of p nack inner e = go p.frag_index p.fragment p.is_nack e
  where
    go :
        (i : Option ℕ) (o : Option (List ℕ)) (b : Bool)
        → first_fragment (some (record { frag_index = i; is_nack = b; fragment = o }))
          ≡ some (nack, inner)
        → o ≡ some inner
    go none none b e = cc
    go none (some x) b e = cc
    go (some zero) none b e = cc
    go (some zero) (some x) b e = cc
    go (some (suc k)) o b e = cc

module _ (interest data_name : List ℕ → Option (List ℕ)) (lp : List ℕ → Option LpPacket)
    (smaller : (wire inner : List ℕ) (p : LpPacket)
      → lp wire ≡ some p
      → p.fragment ≡ some inner
      → length inner < length wire) where
  fragment_shorter :
      (wire : List ℕ) (nack : Bool) (inner : List ℕ)
      → first_fragment (lp wire) ≡ some (nack, inner)
      → length inner < length wire
  fragment_shorter wire nack inner e = elim (Option-cases (lp wire)) [
    | inl none_there ↦ absurd (cc)
    | inr (p, f) ↦ smaller wire inner p f (fragment_of p nack inner (ap first_fragment (sym f) ∙ e))
  ]

  -- With fuel above its length a packet is classified, packets inside packets included.
  classify-Returns :
      (fuel : ℕ) (wire : List ℕ)
      → length wire < fuel
      → Returns (λ r. Unit) (classify interest data_name lp fuel wire)
  unfolding classify
  classify-Returns zero wire l = absurd (omega arith)
  classify-Returns (suc fuel) [] l = tt
  classify-Returns (suc fuel) (t ∷ ts) l = elim (Bool-cases (t == 5)) [
    | inl a ↦ rw (a, classify) tt
    | inr a ↦ elim (Bool-cases (t == 6)) [
      | inl b ↦ rw (a, b, classify) tt
      | inr b ↦ elim (Bool-cases (t == 100)) [
        | inr c ↦ rw (a, b, c, classify) tt
        | inl c ↦ elim (Option-cases (first_fragment (lp (t ∷ ts)))) [
          | inl e ↦ rw (a, b, c, e, classify) tt
          | inr ((nack, inner), e) ↦
              let shorter = fragment_shorter (t ∷ ts) nack inner e in
              let rest = classify-Returns fuel inner (omega (arith, shorter, l)) in
              rw (a, b, c, e, classify)
                (unwrap nack (classify interest data_name lp fuel inner) rest)
        ]
      ]
    ]
  ]
    where
      unwrap :
          (nack : Bool) (o : Option (WireKind × Option (List ℕ)))
          → Returns (λ r. Unit) o
          → Returns
              (λ r. Unit)
              (elim o [ none ↦ none | some r ↦ some (if nack then (kind_nack, r.1) else r) ])
      unwrap nack none h = h
      unwrap nack (some r) h = tt

  observe-total :
      (f : Frame) (s : PrefixStats)
      → Returns
          (λ s'. u64 (total s'.inner) ≡ u64 (total s.inner + length f.wire))
          (observe interest data_name lp f.node f.max_components f.wire f.outbound s)
  unfolding observe count
  observe-total f s =
      go (classify interest data_name lp (suc (length f.wire)) f.wire)
        (classify-Returns (suc (length f.wire)) f.wire (omega arith))
    where
      go :
          (o : Option (WireKind × Option (List ℕ)))
          → Returns (λ r. Unit) o
          → Returns
              (λ s'. u64 (total s'.inner) ≡ u64 (total s.inner + length f.wire))
              (elim o [
                | none ↦ none
                | some (kind, name) ↦ some (
                    count f.node
                      (prefix_of interest data_name lp (max f.max_components 1) name)
                      f.outbound
                      kind
                      (length f.wire)
                      s)
              ])
      go none h = h
      go (some (kind, name)) h =
          adjust-total (λ o. bump f.outbound kind (length f.wire) (or_default o)) (length f.wire)
            (λ o. bump-bytes f.outbound kind (length f.wire) (or_default o)) _ s.inner

  observe_all-total :
      (fs : List Frame) (s : PrefixStats)
      → Returns
          (λ s'. u64 (total s'.inner) ≡ u64 (total s.inner + lengths fs))
          (observe_all interest data_name lp fs s)
  observe_all-total [] s = omega arith
  observe_all-total (f ∷ fs) s =
      Returns->>= _ _ (observe interest data_name lp f.node f.max_components f.wire f.outbound s) _
        (observe-total f s)
        λ s' e.
          Returns-mono _ _ (observe_all interest data_name lp fs s')
            (λ u (k : u64 (total u.inner) ≡ u64 (total s'.inner + lengths fs)). omega (arith, e, k))
            (observe_all-total fs s')

  -- Where the fragment of a packet is shorter than the packet, every frame is counted, and the rows
  -- of a snapshot hold the bytes of all frames, modulo 2^64.
  pub snapshot-total :
      (fs : List Frame) (s : PrefixStats)
      → Returns
          (λ s'. u64 (total (snapshot s')) ≡ u64 (total (snapshot s) + lengths fs))
          (observe_all interest data_name lp fs s)
  unfolding snapshot
  snapshot-total fs s =
      Returns-mono _ _ (observe_all interest data_name lp fs s)
        (λ u (k : u64 (total u.inner) ≡ u64 (total s.inner + lengths fs)).
          omega (arith, k, sort_by-total u.inner, sort_by-total s.inner))
        (observe_all-total fs s)
