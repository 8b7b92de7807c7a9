-- ===== src/Element/Text.antt =====
-- A splice can be undone.
use ndn_sim.Prelude.{
  ℕ, zero, suc, ◌+◌, ◌-◌, ◌≤◌, ◌≡◌, refl, sym, ap, ◌∙◌, min, [], ◌∷◌, ◌++◌, append_assoc, length,
  length-append, arith, sat_add, u64_max,
}
use ndn_sim.Element.{Text, Splice, take, drop, spliced}

length-take : (n : ℕ) (s : Text) → length (take n s) ≡ min n (length s)
length-take zero s = omega arith
length-take (suc n) [] = omega arith
length-take (suc n) (c ∷ s) = omega (arith, length-take n s)

length-drop : (n : ℕ) (s : Text) → length (drop n s) ≡ length s - n
length-drop zero s = omega arith
length-drop (suc n) [] = omega arith
length-drop (suc n) (c ∷ s) = omega (arith, length-drop n s)

take-append : (xs ys : Text) → take (length xs) (xs ++ ys) ≡ xs
take-append [] ys = refl
take-append (x ∷ xs) ys = ap (λ s. x ∷ s) (take-append xs ys)

drop-append : (xs ys : Text) → drop (length xs) (xs ++ ys) ≡ ys
drop-append [] ys = refl
drop-append (x ∷ xs) ys = drop-append xs ys

-- A text is its first `n` characters, those up to the `n + k`-th, and the rest.
take-drop : (n k : ℕ) (s : Text) → (take n s ++ take k (drop n s)) ++ drop (n + k) s ≡ s
take-drop zero zero s = refl
take-drop zero (suc k) [] = let sum : 0 + suc k ≡ suc k = omega arith in rw sum refl
take-drop zero (suc k) (c ∷ s) =
    let sum : 0 + suc k ≡ suc k = omega arith in
    let less : 0 + k ≡ k = omega arith in
    rw sum (ap (λ t. c ∷ t) (ap (λ m. take k s ++ drop m s) (sym less) ∙ take-drop zero k s))
take-drop (suc n) zero [] = let sum : suc n + 0 ≡ suc n = omega arith in rw sum refl
take-drop (suc n) (suc k) [] =
    let sum : suc n + suc k ≡ suc (n + suc k) = omega arith in rw sum refl
take-drop (suc n) k (c ∷ s) =
    let sum : suc n + k ≡ suc (n + k) = omega arith in rw sum (ap (λ t. c ∷ t) (take-drop n k s))

-- The splice that takes another one back: it removes what that inserted, and inserts what that
-- removed.
abbrev pub undo : Text → Splice → Splice
undo base splice =
    let at = min splice.at (length base) in
    let end = min (sat_add at splice.remove) (length base) in
    record { at = at; remove = length splice.insert; insert = take (end - at) (drop at base) }

cut_at :
    (xs ys zs : Text)
    → (take (length xs) ((xs ++ ys) ++ zs) ≡ xs)
      × (drop (length xs + length ys) ((xs ++ ys) ++ zs) ≡ zs)
cut_at xs ys zs = (
  rw (append_assoc xs ys zs) (take-append xs (ys ++ zs)),
  rw (sym (length-append xs ys)) (drop-append (xs ++ ys) zs),
)

-- In a text that fits in memory, a splice followed by the one that takes it back changes nothing,
-- also where the offsets were past the end.
pub spliced-undo :
    (base : Text) (splice : Splice)
    → length (spliced base splice) ≤ u64_max
    → spliced (spliced base splice) (undo base splice) ≡ base
unfolding spliced
spliced-undo base splice fits =
    let at = min splice.at (length base) in
    let end = min (sat_add at splice.remove) (length base) in
    let front = take at base in
    let back = drop end base in
    let out = (front ++ splice.insert) ++ back in
    let sizes : length out ≡ (length front + length splice.insert) + length back =
      length-append (front ++ splice.insert) back
      ∙ ap (λ n. n + length back) (length-append front splice.insert) in
    let front_size : length front ≡ at = omega (arith, length-take at base) in
    let at_eq : min at (length out) ≡ length front = omega (arith, sizes, front_size) in
    let end_eq : min (sat_add (min at (length out)) (length splice.insert)) (length out)
        ≡ length front + length splice.insert =
      omega (arith, sizes, front_size, fits) in
    let cut = cut_at front splice.insert back in
    let whole : at + (end - at) ≡ end = omega arith in
    rw (end_eq, at_eq, cut.0, cut.1)
      (ap (λ m. (front ++ take (end - at) (drop at base)) ++ drop m base) (sym whole)
        ∙ take-drop at (end - at) base)
