-- ===== src/Ip/Prefix.antt =====
-- The prefix test of crates/ndn-sim-studies/src/ip.rs looks at the leading bits alone.
use Prim.Native.Nat.{bit_and, digits, bit_and-bitwise}
use native.Mathlib.Nat.{pow-suc}
use ndn_sim.Prelude.{
  ℕ, zero, suc, ◌+◌, ◌-◌, ◌*◌, ◌/◌, ◌%◌, ◌^◌, ◌≤◌, ◌<◌, ◌≡◌, refl, sym, ◌∙◌, ap, ◌↔◌, Bool, true,
  false, ◌&&◌, min, arith, lt→leb_false, le→leb, ltb, ◌==◌, ==_iff, Bool-cases, inl, inr,
}
use ndn_sim.Ip.{prefix_mask, in_prefix}

-- The lowest digit of `bit_and`, from the digits that it stands for.
abbrev both : ℕ → ℕ → ℕ → ℕ
both fuel a b = digits (λ b. zero) min fuel a b

both_enough : (m n a b : ℕ) → a ≤ m → a ≤ n → both m a b ≡ both n a b
both_enough m n zero b h k = go m n
  where
    go : (m n : ℕ) → both m 0 b ≡ both n 0 b
    go zero zero = refl
    go zero (suc n) = refl
    go (suc m) zero = refl
    go (suc m) (suc n) = refl
both_enough zero n (suc a) b h k = absurd (omega arith)
both_enough (suc m) zero (suc a) b h k = absurd (omega arith)
both_enough (suc m) (suc n) (suc a) b h k =
    omega (arith, both_enough m n (suc a / 2) (b / 2) (omega arith) (omega arith))

bit_and-halves : (a b : ℕ) → bit_and a b ≡ bit_and (a / 2) (b / 2) * 2 + min (a % 2) (b % 2)
bit_and-halves zero b = omega (arith, bit_and-bitwise 0 b, bit_and-bitwise 0 (b / 2))
bit_and-halves (suc a) b = omega (
  arith,
  bit_and-bitwise (suc a) b,
  bit_and-bitwise (suc a / 2) (b / 2),
  both_enough a (suc a / 2) (suc a / 2) (b / 2) (omega arith) (omega arith),
)

-- All but the lowest `k` bits, and `k` zeros after a number.
abbrev pub leading : ℕ → ℕ → ℕ
leading zero x = x
leading (suc k) x = leading k (x / 2)

abbrev shifted : ℕ → ℕ → ℕ
shifted zero m = m
shifted (suc k) m = shifted k m * 2

abbrev ones : ℕ → ℕ
ones zero = 0
ones (suc j) = ones j * 2 + 1

bit_and-shifted : (k x m : ℕ) → bit_and x (shifted k m) ≡ shifted k (bit_and (leading k x) m)
bit_and-shifted zero x m = refl
bit_and-shifted (suc k) x m =
    let half : shifted k m * 2 / 2 ≡ shifted k m = omega arith in
    let step = bit_and-halves x (shifted k m * 2) in
    let ih = bit_and-shifted k (x / 2) m in
    let at_half : bit_and (x / 2) (shifted k m * 2 / 2) ≡ bit_and (x / 2) (shifted k m) =
      ap (bit_and (x / 2)) half in
    omega (arith, step, ih, at_half)

bit_and-ones : (j z : ℕ) → leading j z ≡ 0 → bit_and z (ones j) ≡ z
bit_and-ones zero z e = rw e refl
bit_and-ones (suc j) z e =
    let half : (ones j * 2 + 1) / 2 ≡ ones j = omega arith in
    let at_half : bit_and (z / 2) ((ones j * 2 + 1) / 2) ≡ bit_and (z / 2) (ones j) =
      ap (bit_and (z / 2)) half in
    omega (arith, bit_and-halves z (ones j * 2 + 1), bit_and-ones j (z / 2) e, at_half)

leading-leading : (k j x : ℕ) → leading j (leading k x) ≡ leading (k + j) x
leading-leading zero j x = let e : j ≡ 0 + j = omega arith in ap (λ n. leading n x) e
leading-leading (suc k) j x =
    let e : suc (k + j) ≡ suc k + j = omega arith in
    leading-leading k j (x / 2) ∙ ap (λ n. leading n x) e

leading-small : (j x : ℕ) → x < 2 ^ j → leading j x ≡ 0
leading-small zero x l = omega arith
leading-small (suc j) x l = leading-small j (x / 2) (omega (arith, pow-suc 2 j))

-- The masks of the prefixes from 1 to 31.
abbrev masks_from : ℕ → Bool
masks_from zero = true
masks_from (suc k) =
    (4294967295 - (2 ^ (suc k) - 1) == shifted (suc k) (ones (32 - suc k))) && masks_from k

masks_agree : masks_from 31 ≡ true
masks_agree = refl

and_parts : (a b : Bool) → (a && b) ≡ true → (a ≡ true) × (b ≡ true)
and_parts true b e = (refl, e)
and_parts false b e = absurd (cc)

masks_from_lem :
    (n k : ℕ)
    → masks_from n ≡ true
    → k < n
    → 4294967295 - (2 ^ suc k - 1) ≡ shifted (suc k) (ones (32 - suc k))
masks_from_lem zero k e l = absurd (omega arith)
masks_from_lem (suc n) k e l =
    let (first, rest) = and_parts _ (masks_from n) e in
    elim (Bool-cases (k == n)) [
      | inl f ↦
          let same : k ≡ n = (==_iff k n).0 f in
          let exact : 4294967295 - (2 ^ suc n - 1) ≡ shifted (suc n) (ones (32 - suc n)) =
            (==_iff _ _).0 first in
          rw same exact
      | inr f ↦ masks_from_lem n k rest (ground (arith, (==_iff k n).1))
    ]

shifted_inj : (k a b : ℕ) → shifted k a ≡ shifted k b → a ≡ b
shifted_inj zero a b e = e
shifted_inj (suc k) a b e = shifted_inj k a b (omega (arith, e))

-- What the mask of a prefix keeps of an address.
masked :
    (p x : ℕ)
    → 0 < p
    → p < 32
    → x < 4294967296
    → bit_and x (prefix_mask p) ≡ shifted (32 - p) (leading (32 - p) x)
masked p x h l r =
    let k = 32 - p in
    let least : 32 - p ≡ suc (31 - p) = omega arith in
    let mask : prefix_mask p ≡ shifted k (ones (32 - k)) =
      rw (lt→leb_false 32 p l, least) (masks_from_lem 31 (31 - p) masks_agree (omega arith)) in
    let rest : leading (32 - k) (leading k x) ≡ 0 =
      leading-leading k (32 - k) x ∙ ap (λ n. leading n x) full ∙ leading-small 32 x r in
    ap (bit_and x) mask
    ∙ bit_and-shifted k x (ones (32 - k))
    ∙ ap (shifted k) (bit_and-ones (32 - k) (leading k x) rest)
  where
    full : 32 - p + (32 - (32 - p)) ≡ 32
    full = omega arith

masked_any :
    (p x : ℕ)
    → 0 < p
    → x < 4294967296
    → bit_and x (prefix_mask p) ≡ shifted (32 - p) (leading (32 - p) x)
masked_any p x h r = elim (Bool-cases (ltb p 32)) [
  | inl e ↦ masked p x h (ground arith) r
  | inr e ↦
      let whole : 32 - p ≡ 0 = ground arith in
      rw (le→leb 32 p (ground arith), whole) (bit_and-ones 32 x (leading-small 32 x r))
]

-- An address of 32 bits is in a prefix of 32 bits exactly if the two agree in as many of their leading
-- bits as the length says, in all of them from 32 on.
pub in_prefix_lem :
    (addr net p : ℕ)
    → addr < 4294967296
    → net < 4294967296
    → (in_prefix addr net p ≡ true) ↔ (leading (32 - p) addr ≡ leading (32 - p) net)
unfolding in_prefix
in_prefix_lem addr net zero a n =
    (λ e. leading-small 32 addr a ∙ sym (leading-small 32 net n), λ e. refl)
in_prefix_lem addr net (suc q) a n =
    let some_bits : (suc q == 0) ≡ false = ground arith in
    let left = masked_any (suc q) addr (omega arith) a in
    let right = masked_any (suc q) net (omega arith) n in
    rw (some_bits, left, right)
      (
        λ e. shifted_inj (32 - suc q) _ _ ((==_iff _ _).0 e),
        λ e. (==_iff _ _).1 (ap (shifted (32 - suc q)) e),
      )
