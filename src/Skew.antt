-- ===== src/Skew.antt =====
-- crates/ndn-sim/src/clock_skew.rs: a node whose wall clock is wrong. The runtime under it is code
-- of the kernel: what it reads is a function of the world `W` at the time of the call.
use ndn_sim.Prelude.{
  ℕ, ◌-◌, ◌≤◌, min, Option, none, some, ℤ, pos, negsuc, pos_part, sub_ℕ, ◌+ℤ◌, ◌-ℤ◌, ◌*ℤ◌, quot,
  u64_max,
}
mod Reading
mod Examples

-- i64::MAX.
abbrev pub i64_max : ℕ
i64_max = 9223372036854775807

pub record ClockSkew : Type 0 where
  pub offset_ns : ℤ
  pub drift_ppm : ℤ

abbrev pub no_skew : ClockSkew
no_skew = record { offset_ns = pos 0; drift_ppm = pos 0 }

-- `i64::try_from(..).unwrap_or(i64::MAX)`.
abbrev pub to_i64 : ℕ → ℕ
to_i64 by = min by i64_max

-- A duration is its nanoseconds.
abbrev pub ahead : ℕ → ClockSkew
ahead by = record { offset_ns = pos (to_i64 by); drift_ppm = pos 0 }

abbrev pub behind : ℕ → ClockSkew
behind by = record { offset_ns = sub_ℕ 0 (to_i64 by); drift_ppm = pos 0 }

abbrev pub drifting : ClockSkew → ℤ → ClockSkew
drifting skew ppm = record skew { drift_ppm = ppm }

-- `clamp(0, u64::MAX) as u64`.
abbrev pub clamp_u64 : ℤ → ℕ
clamp_u64 z = min (pos_part z) u64_max

-- The steps of `apply`: the time since the anchor, what it is multiplied to, and the unclamped sum.
unfoldable pub elapsed : ℕ → ℕ → ℤ
elapsed true_ns anchor_ns = pos true_ns -ℤ pos anchor_ns

unfoldable pub product : ClockSkew → ℕ → ℕ → ℤ
product skew true_ns anchor_ns = elapsed true_ns anchor_ns *ℤ skew.drift_ppm

unfoldable pub skewed : ClockSkew → ℕ → ℕ → ℤ
skewed skew true_ns anchor_ns =
    pos true_ns +ℤ skew.offset_ns +ℤ quot (product skew true_ns anchor_ns) 1000000

unfoldable pub apply : ClockSkew → ℕ → ℕ → ℕ
apply skew true_ns anchor_ns = clamp_u64 (skewed skew true_ns anchor_ns)

-- What a node reads of a runtime.
pub record Runtime (W : Type 0) : Type 0 where
  pub now : W → ℕ
  pub unix_nanos : W → ℕ

-- The skew in force and the true time when it was applied.
pub record SkewedRuntime (W : Type 0) : Type 0 where
  pub inner : Runtime W
  pub state : ClockSkew × ℕ

abbrev pub new : {W : Type 0} → Runtime W → ClockSkew → W → SkewedRuntime W
new runtime skew w = record { inner = runtime; state = (skew, runtime.unix_nanos w) }

abbrev pub set : {W : Type 0} → ClockSkew → W → SkewedRuntime W → SkewedRuntime W
set skew w r = record r { state = (skew, r.inner.unix_nanos w) }

abbrev pub skew : {W : Type 0} → SkewedRuntime W → ClockSkew
skew r = r.state.0

abbrev pub unix_nanos : {W : Type 0} → SkewedRuntime W → W → ℕ
unix_nanos r w = apply r.state.0 (r.inner.unix_nanos w) r.state.1

-- The skewed runtime as a runtime: only the wall clock is its own.
abbrev pub as_runtime : {W : Type 0} → SkewedRuntime W → Runtime W
as_runtime r = record { now = r.inner.now; unix_nanos = λ w. unix_nanos r w }

abbrev pub node_runtime :
    {W : Type 0} → Runtime W → Option ClockSkew → W → Runtime W × Option (SkewedRuntime W)
node_runtime kernel none w = (kernel, none)
node_runtime kernel (some s) w = (as_runtime (new kernel s w), some (new kernel s w))
