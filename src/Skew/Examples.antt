-- ===== src/Skew/Examples.antt =====
-- Runs of Skew on concrete clocks, the tests of crates/ndn-sim/src/clock_skew.rs among them.
use ndn_sim.Prelude.{◌*◌, ◌≤◌, ◌≡◌, refl, arith, pos, negsuc, quot, ◌+ℤ◌, ◌-ℤ◌, ◌*ℤ◌, u64_max}
use ndn_sim.Skew.{ClockSkew, ahead, behind, drifting, elapsed, product, skewed, apply, no_skew}
use ndn_sim.Skew.Reading.{Fits, apply-Fits, apply_mono}

-- A clock 100 ns behind that gains 100 parts in a million.
abbrev slow_start : ClockSkew
slow_start = drifting (behind 100) (pos 100)

-- A clock that loses half of the time.
abbrev half_speed : ClockSkew
half_speed = drifting no_skew (negsuc 499999)

offset_and_drift_compose :
    (apply slow_start 5000000 5000000 ≡ 4999900) × (apply slow_start 6000000 5000000 ≡ 6000000)
unfolding apply skewed product elapsed quot ◌+ℤ◌ ◌-ℤ◌ ◌*ℤ◌
offset_and_drift_compose = (refl, refl)

readings_never_wrap :
    (apply (behind 10000000000) 5 5 ≡ 0) × (apply (ahead (u64_max * u64_max)) u64_max 0 ≡ u64_max)
unfolding apply skewed product elapsed quot ◌+ℤ◌ ◌-ℤ◌ ◌*ℤ◌
readings_never_wrap = (refl, refl)

apply-Fits_example : Fits slow_start 6000000 5000000
apply-Fits_example =
    apply-Fits slow_start 6000000 5000000 (omega arith) (omega arith) (omega arith, omega arith)
      (omega arith, omega arith)

apply_mono_example : apply half_speed 1000 0 ≤ apply half_speed 3000 0
apply_mono_example = apply_mono half_speed 1000 3000 0 (omega arith) (omega arith)
