-- ===== src/Merge/Rule/Grow.antt =====
-- What another version does to the pasts, the locks and what they bar.
use Prim.Native.String.{String}
use ndn_sim.Prelude.{
  ℕ, zero, suc, ◌+◌, ◌≤◌, ◌<◌, ◌≡◌, refl, sym, ap, ◌∙◌, inl, inr, Bool, false, ◌||◌, List, [], ◌∷◌,
  ◌++◌, append-nil, append_assoc, subst, none, some, Option-cases, Bool-cases, All, All-mono,
  All-append, arith, length, ◌==◌, get_elem?, get_elem?-append_left,
}
use ndn_sim.Element.{Lock}
use ndn_sim.Merge.{
  Node, Held, contains, any, node_checkpoint, locks_of, locks_from, state_locks, taken_locks,
  taken_from, lifts, lifted, bars, find, not_counted,
}
use ndn_sim.Merge.Order.{IsBelow, IsAcyclic}
use ndn_sim.Merge.Rule.{Op, past_from}

pub All-past_from :
    (op : Op) (k : ℕ) (nodes : List Node) → All (λ p. p < k + length nodes) (past_from op k nodes)
All-past_from op k [] = tt
All-past_from op k (n ∷ ns) =
    let shift : suc k + length ns ≡ k + length (n ∷ ns) = omega arith in
    let rest =
      All-mono (λ p h. rw (sym shift) h) (past_from op (suc k) ns) (All-past_from op (suc k) ns) in
    elim (Bool-cases (op.past_contains n.id)) [
      | inl e ↦ rw e (omega arith, rest)
      | inr e ↦ rw e rest
    ]

pub IsBelow-append :
    (k : ℕ) (nodes : List Node) (n : Node)
    → IsBelow k nodes
    → All (λ p. p < k + length nodes) n.past
    → IsBelow k (nodes ++ n ∷ [])
IsBelow-append k [] n h p = (All-mono (λ q l. omega (arith, l)) n.past p, tt)
IsBelow-append k (m ∷ ms) n h p =
    (h.0, IsBelow-append (suc k) ms n h.1 (All-mono (λ q l. omega (arith, l)) n.past p))

any-append {ℓ} :
    {A : Type ℓ} (f : A → Bool) (xs ys : List A) → any f (xs ++ ys) ≡ (any f xs || any f ys)
any-append f [] ys = refl
any-append f (x ∷ xs) ys = ground (arith, any-append f xs ys)

find-none {ℓ} :
    {A : Type ℓ} (f : A → Bool) (xs : List A) → find f xs ≡ none → All (λ x. f x ≡ false) xs
find-none f [] h = tt
find-none f (x ∷ xs) h = elim (Bool-cases (f x)) [
  | inl e ↦ let bad = rw e at h in absurd (cc)
  | inr e ↦ (e, find-none f xs (rw e at h))
]

none-find {ℓ} :
    {A : Type ℓ} (f : A → Bool) (xs : List A) → All (λ x. f x ≡ false) xs → find f xs ≡ none
none-find f [] h = refl
none-find f (x ∷ xs) h = rw h.0 (none-find f xs h.1)

All-locks_of : (k : ℕ) (n : Node) → All (λ h. h.at ≡ k) (locks_of k n)
unfolding locks_of
All-locks_of k n = elim (Option-cases (node_checkpoint n)) [
  | inr (s, e) ↦ rw (locks_of, e) (of_state s.locks)
  | inl e ↦ rw (locks_of, e) (of_taken n.id.writer (taken_from n.op.edits []))
]
  where
    of_state : (ls : List Lock) → All (λ h. h.at ≡ k) (state_locks k ls)
    of_state [] = tt
    of_state (l ∷ ls) = (refl, of_state ls)

    of_taken : (by : String) (ss : List String) → All (λ h. h.at ≡ k) (taken_locks k by ss)
    of_taken by [] = tt
    of_taken by (s ∷ ss) = (refl, of_taken by ss)

locks_from-append :
    (k : ℕ) (nodes : List Node) (n : Node)
    → locks_from k (nodes ++ n ∷ []) ≡ locks_from k nodes ++ locks_of (k + length nodes) n
unfolding locks_from
locks_from-append k [] n = let at : k + 0 ≡ k = omega arith in rw at (append-nil (locks_of k n))
locks_from-append k (m ∷ ms) n =
    let shift : suc k + length ms ≡ k + length (m ∷ ms) = omega arith in
    ap (λ ls. locks_of k m ++ ls)
      (locks_from-append (suc k) ms n ∙ ap (λ i. locks_from (suc k) ms ++ locks_of i n) shift)
    ∙ sym (append_assoc (locks_of k m) (locks_from (suc k) ms) (locks_of (k + length (m ∷ ms)) n))

not_contains : (i k : ℕ) (ps : List ℕ) → All (λ p. p < k) ps → k ≤ i → contains i ps ≡ false
not_contains i k [] h l = refl
not_contains i k (p ∷ ps) h l =
    let apart : (p == i) ≡ false = ground (arith, h.0, l) in rw apart (not_contains i k ps h.1 l)

-- A lock that does not bar a version does not bar it among more versions.
bars_more :
    (nodes : List Node) (m n : Node) (h : Held)
    → bars nodes n h ≡ false
    → bars (nodes ++ m ∷ []) n h ≡ false
unfolding bars lifted
bars_more nodes m n h b = ground (arith, any-append (lifts h) nodes (m ∷ []), b)

-- A lock taken by a version that is not in the past does not bar.
bars_later :
    (nodes : List Node) (n : Node) (h : Held)
    → contains h.at n.past ≡ false
    → bars nodes n h ≡ false
unfolding bars
bars_later nodes n h c = ground (arith, c)

past_bound :
    (nodes : List Node) (k i : ℕ) (n : Node)
    → IsBelow k nodes
    → get_elem? nodes i ≡ some n
    → All (λ p. p < k + length nodes) n.past
past_bound [] k i n h e = absurd (cc)
past_bound (m ∷ ms) k zero n h e =
    let same : m ≡ n = cc in
    All-mono (λ p l. omega (arith, l)) n.past (subst (λ x. All (λ p. p < k) x.past) same h.0)
past_bound (m ∷ ms) k (suc i) n h e =
    All-mono (λ p l. omega (arith, l)) n.past (past_bound ms (suc k) i n h.1 e)

pub not_counted-append :
    (nodes : List Node) (m : Node) (i : ℕ)
    → IsAcyclic nodes
    → i < length nodes
    → not_counted nodes i (locks_from 0 nodes) ≡ none
    → not_counted (nodes ++ m ∷ []) i (locks_from 0 (nodes ++ m ∷ [])) ≡ none
unfolding not_counted
not_counted-append nodes m i acyclic l h = elim (Option-cases (get_elem? nodes i)) [
  | inl e ↦ rw (not_counted, get_elem?-append_left nodes (m ∷ []) i l, e) refl
  | inr (n, e) ↦
      let more = nodes ++ m ∷ [] in
      let none_before = find-none (bars nodes n) (locks_from 0 nodes) (rw (not_counted, e) at h) in
      let old = All-mono (λ k b. bars_more nodes m n k b) (locks_from 0 nodes) none_before in
      let new =
        All-mono
          (λ k at. bars_later more n k (
            not_contains k.at (0 + length nodes) n.past (past_bound nodes 0 i n acyclic e)
              (omega (arith, at))))
          (locks_of (0 + length nodes) m) (All-locks_of (0 + length nodes) m) in
      rw (not_counted, get_elem?-append_left nodes (m ∷ []) i l, e, locks_from-append 0 nodes m)
        (none-find (bars more n) (locks_from 0 nodes ++ locks_of (0 + length nodes) m) (
          All-append (λ k. bars more n k ≡ false) (locks_from 0 nodes)
            (locks_of (0 + length nodes) m) old new))
]
