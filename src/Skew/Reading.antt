-- ===== src/Skew/Reading.antt =====
-- What a skewed clock of crates/ndn-sim/src/clock_skew.rs can read.
use ndn_sim.Prelude.{
  ◌⊎◌, inl, inr, ℕ, suc, ◌+◌, ◌-◌, ◌*◌, ◌/◌, ◌^◌, ◌≤◌, ◌<◌, ◌≡◌, arith, min, ℤ, pos_part, neg_part,
  ◌+ℤ◌, ◌-ℤ◌, ◌*ℤ◌, quot, u64_max,
}
use ndn_sim.Skew.{ClockSkew, ahead, behind, elapsed, product, skewed, apply, i64_max, to_i64}

-- The sizes of the machine's signed integers.
abbrev pub IsI64 : ℤ → Type 0
IsI64 z = (pos_part z ≤ i64_max) × (neg_part z ≤ suc i64_max)

abbrev pub IsI128 : ℤ → Type 0
IsI128 z = (pos_part z < 2 ^ 127) × (neg_part z ≤ 2 ^ 127)

quot_parts :
    (z : ℤ)
    → (pos_part (quot z 1000000) ≡ pos_part z / 1000000)
      × (neg_part (quot z 1000000) ≡ neg_part z / 1000000)
unfolding quot
quot_parts z = ground arith

elapsed_parts : (t a : ℕ) → (pos_part (elapsed t a) ≡ t - a) × (neg_part (elapsed t a) ≡ a - t)
unfolding elapsed ◌-ℤ◌
elapsed_parts t a = ground arith

-- The skewed sum, by its parts.
skewed_parts :
    (s : ClockSkew) (t a : ℕ)
    → pos_part (skewed s t a) + neg_part s.offset_ns + neg_part (product s t a) / 1000000
      ≡ neg_part (skewed s t a) + t + pos_part s.offset_ns + pos_part (product s t a) / 1000000
unfolding skewed ◌+ℤ◌
skewed_parts s t a = ground (arith, quot_parts (product s t a))

product_bound :
    (x k : ℕ) → x ≤ u64_max → k ≤ suc i64_max → x * k ≤ 18446744073709551615 * 9223372036854775808
product_bound x k h h' = grind arith

-- The product has the size of its factors.
product_size :
    (s : ClockSkew) (t a : ℕ)
    → t ≤ u64_max
    → a ≤ u64_max
    → IsI64 s.drift_ppm
    → (pos_part (product s t a) ≤ 18446744073709551615 * 9223372036854775808)
      × (neg_part (product s t a) ≤ 18446744073709551615 * 9223372036854775808)
unfolding product ◌*ℤ◌
product_size s t a ht ha hd = ground (
  arith,
  elapsed_parts t a,
  product_bound (t - a) (pos_part s.drift_ppm),
  product_bound (a - t) (pos_part s.drift_ppm),
  product_bound (t - a) (neg_part s.drift_ppm),
  product_bound (a - t) (neg_part s.drift_ppm),
)

-- A clock with 64-bit readings and a 64-bit skew never overflows the 128-bit arithmetic, and what it
-- reads is a 64-bit number again: the skewed sum where that is one, 0 below it and the largest
-- number above it.
pub record Fits (s : ClockSkew) (t a : ℕ) : Type 0 where
  pub product : IsI128 (product s t a)
  pub sum : IsI128 (skewed s t a)
  pub low : pos_part (skewed s t a) ≡ 0 → apply s t a ≡ 0
  pub exact : pos_part (skewed s t a) ≤ u64_max → apply s t a ≡ pos_part (skewed s t a)
  pub high : u64_max < pos_part (skewed s t a) → apply s t a ≡ u64_max
  pub range : apply s t a ≤ u64_max

one_sided : (z : ℤ) → (pos_part z ≡ 0) ⊎ (neg_part z ≡ 0)
one_sided z = ground arith

-- For 64-bit readings and a 64-bit skew the reading is taken without an overflow.
pub apply-Fits :
    (s : ClockSkew) (t a : ℕ)
    → t ≤ u64_max
    → a ≤ u64_max
    → IsI64 s.offset_ns
    → IsI64 s.drift_ppm
    → Fits s t a
unfolding apply
apply-Fits s t a ht ha ho hd =
    let size = product_size s t a ht ha hd in
    let parts = skewed_parts s t a in
    let side = one_sided (skewed s t a) in
    record {
      product = (omega (arith, size), omega (arith, size));
      sum = (omega (arith, size, parts, side), omega (arith, size, parts, side));
      low = λ h. omega arith;
      exact = λ h. omega arith;
      high = λ h. omega arith;
      range = omega arith;
    }

-- The rate error changes by no more than the time does, up to a stopped clock.
quot_step : (x y k : ℕ) → x ≤ y → k ≤ 1000000 → y * k / 1000000 ≤ x * k / 1000000 + (y - x)
quot_step x y k h slow =
    let split : (x + (y - x)) * k ≡ x * k + (y - x) * k = grind arith in
    let sum : x + (y - x) ≡ y = omega arith in
    let less : (y - x) * k ≤ (y - x) * 1000000 = grind arith in
    let split' : y * k ≡ x * k + (y - x) * k = rw sum at split in omega (arith, split', less)

quot_mono : (x y k : ℕ) → x ≤ y → x * k / 1000000 ≤ y * k / 1000000
quot_mono x y k h = let less : x * k ≤ y * k = grind arith in omega (arith, less)

product_parts :
    (s : ClockSkew) (t a : ℕ)
    → (pos_part (product s t a) ≡ (t - a) * pos_part s.drift_ppm + (a - t) * neg_part s.drift_ppm)
      × (neg_part (product s t a) ≡ (t - a) * neg_part s.drift_ppm + (a - t) * pos_part s.drift_ppm)
unfolding product ◌*ℤ◌ elapsed ◌-ℤ◌
product_parts s t a = ground arith

-- What the rate error takes away between two readings is no more than the time between them.
drift_step :
    (s : ClockSkew) (t u a : ℕ)
    → t ≤ u
    → neg_part s.drift_ppm ≤ 1000000
    → t + pos_part (product s t a) / 1000000 + neg_part (product s u a) / 1000000
      ≤ u + pos_part (product s u a) / 1000000 + neg_part (product s t a) / 1000000
drift_step s t u a h slow =
    let p = pos_part s.drift_ppm in
    let n = neg_part s.drift_ppm in
    let before = product_parts s t a in
    let after = product_parts s u a in
    elim (one_sided s.drift_ppm) [
      | inl none ↦
          let gained = quot_step (t - a) (u - a) n (omega arith) slow in
          let owed = quot_step (a - u) (a - t) n (omega arith) slow in
          let b0 : pos_part (product s t a) ≡ (a - t) * n = grind arith in
          let b1 : neg_part (product s t a) ≡ (t - a) * n = grind arith in
          let a0 : pos_part (product s u a) ≡ (a - u) * n = grind arith in
          let a1 : neg_part (product s u a) ≡ (u - a) * n = grind arith in
          rw (b0, b1, a0, a1) (omega (arith, gained, owed))
      | inr none ↦
          let gained = quot_mono (t - a) (u - a) p (omega arith) in
          let owed = quot_mono (a - u) (a - t) p (omega arith) in
          let b0 : pos_part (product s t a) ≡ (t - a) * p = grind arith in
          let b1 : neg_part (product s t a) ≡ (a - t) * p = grind arith in
          let a0 : pos_part (product s u a) ≡ (u - a) * p = grind arith in
          let a1 : neg_part (product s u a) ≡ (a - u) * p = grind arith in
          rw (b0, b1, a0, a1) (omega (arith, gained, owed))
    ]

-- A clock that loses at most all of the time (a drift of -1000000 ppm or more) never runs backward.
pub apply_mono :
    (s : ClockSkew) (t u a : ℕ) → t ≤ u → neg_part s.drift_ppm ≤ 1000000 → apply s t a ≤ apply s u a
unfolding apply
apply_mono s t u a h slow = omega (
  arith,
  skewed_parts s t a,
  skewed_parts s u a,
  drift_step s t u a h slow,
  one_sided (skewed s t a),
  one_sided (skewed s u a),
)

-- At the moment a skew is applied only its offset shows.
pub ahead-exact : (by t : ℕ) → apply (ahead by) t t ≡ min (t + to_i64 by) u64_max
unfolding apply skewed product elapsed quot ◌+ℤ◌ ◌-ℤ◌ ◌*ℤ◌
ahead-exact by t = ground arith

pub behind-exact : (by t : ℕ) → apply (behind by) t t ≡ min (t - to_i64 by) u64_max
unfolding apply skewed product elapsed quot ◌+ℤ◌ ◌-ℤ◌ ◌*ℤ◌
behind-exact by t = ground arith
