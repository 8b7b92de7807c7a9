-- ===== src/Des/Deadline.antt =====
-- Virtual sleeps: when they fire, and that each registers one timer.
use ndn_sim.Prelude.{ℕ, ◌+◌, ◌≤◌, ◌<◌, ◌≡◌, ◌↔◌, ◌⊎◌, true, false, arith, u64_mod, u64_max}
use ndn_sim.Des.{Inner, Sleep, sleep, sleep_poll, push_timer}

module _ {F : Type 0} where
  -- A sleep of less than 2^64 ns that is polled later is ready exactly when the clock has moved on
  -- by its duration, or stands at the largest time that 64 bits hold.
  pub sleep_fires :
      (dur id : ℕ) (s t : Inner F)
      → dur < u64_mod
      → t.now_ns ≤ u64_max
      → ((sleep_poll (sleep dur s) id t).0 ≡ true)
        ↔ ((s.now_ns + dur ≤ t.now_ns) ⊎ (t.now_ns ≡ u64_max))
  unfolding sleep sleep_poll
  sleep_fires dur id s t h le = ground arith

  -- A sleep that is pending has registered its timer at its deadline for the task that polled it,
  -- and a second poll at the same time changes nothing.
  pub sleep_registers_once :
      (z : Sleep) (id : ℕ) (s : Inner F)
      → s.now_ns < z.deadline
      → z.registered ≡ false
      → let r = sleep_poll z id s in
        (r.0 ≡ false)
        × (r.2.timers
            ≡ push_timer (record { deadline = z.deadline; seq = s.seq; task = id }) s.timers)
        × (sleep_poll r.1 id r.2 ≡ r)
  unfolding sleep_poll
  sleep_registers_once z id s h new = ground arith

  -- A sleep of 2^64 ns or more loses at least 2^64 ns.
  pub sleep_cut :
      (dur : ℕ) (s : Inner F) → u64_mod ≤ dur → (sleep dur s).deadline + u64_mod ≤ s.now_ns + dur
  unfolding sleep
  sleep_cut dur s h = omega arith
