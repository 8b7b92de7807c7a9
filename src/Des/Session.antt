-- ===== src/Des/Session.antt =====
-- The loops that drive the event queue end, and what holds then.
use ndn_sim.Prelude.{
  ℕ, zero, suc, ◌≤◌, ◌<◌, ◌≡◌, refl, ◌⊎◌, inl, inr, Bool, true, false, List, [], Option, some,
  arith, Returns, Returns->>=, Returns-both, Returns-mono, Returns-some, ◌>>=◌, Bool-cases, ltb,
}
use ndn_sim.Des.{
  Inner, Effect, Outcome, jump, turn, poll_ready, drive_until, now_ns, step, run_until, Driven,
  returned, deadlock, fuel_out,
}
use ndn_sim.Des.Slots.{Inv}
use ndn_sim.Des.Loop.{turn-Inv, poll_ready_cases}
use ndn_sim.Des.Clock.{Jump, advance-Jump, poll_ready-Inv}
use ndn_sim.Des.Work.{potential, IsBounded, potential-turn, potential-pop, potential-Jump}

-- Nothing is ready and no timer is pending.
abbrev pub IsQuiescent : {F : Type 0} → Inner F → Type 0
IsQuiescent s = (s.ready ≡ []) × (s.timers ≡ [])

-- What polling leaves: nothing ready, the clock where it was, no more work than before.
pub record Polled {F : Type 0} (work : F → ℕ) (s s' : Inner F) : Type 0 where
  pub inv : Inv s'
  pub clock : s'.now_ns ≡ s.now_ns
  pub drained : s'.ready ≡ []
  pub less : potential work s' ≤ potential work s

-- Where a drive ends: it is done or nothing is left to wait for, with no more work than before.
pub record Ended {F : Type 0} (work : F → ℕ) (over : Type 0) (s s' : Inner F) : Type 0 where
  pub inv : Inv s'
  pub less : potential work s' ≤ potential work s
  pub clock : s.now_ns ≤ s'.now_ns
  pub because : over ⊎ IsQuiescent s'

-- What a step does, from `w` and `s`: it polls to `m`, stands at `t`, after a jump to the next event if
-- there is one, and polls from there to what it returns.
abbrev pub Stepped :
    {W F : Type 0}
    → (W → F → ℕ → ℕ → W × List (Effect F) × Outcome F)
    → (F → ℕ)
    → ℕ
    → W
    → Inner F
    → W × Inner F
    → Type 0
Stepped {W} {F} poll work fuel w s r =
    (any : Bool) × (w' : W) × (m : Inner F) × (poll_ready poll fuel false w s ≡ some (any, w', m))
    × Polled work s m
    × (t : Inner F) × (((m.timers ≡ []) × (t ≡ m)) ⊎ Jump m t)
    × (again : Bool) × (poll_ready poll fuel false w' t ≡ some (again, r.0, r.1))
    × Polled work t r.1

-- `block_on` returns with its future done, or nothing was left that could complete it.
abbrev pub Blocked : {W F : Type 0} → (W → Bool) → Option (W × Inner F) → Driven W F → Type 0
Blocked done end fuel_out = ⊥
Blocked {W} {F} done end deadlock =
    (w : W) × (s : Inner F) × (end ≡ some (w, s)) × (done w ≡ false) × IsQuiescent s
Blocked done end (returned w s) = (end ≡ some (w, s)) × (done w ≡ true) × Inv s

module _ {W F : Type 0} (poll : W → F → ℕ → ℕ → W × List (Effect F) × Outcome F) (work : F → ℕ)
    (bounded : IsBounded work poll) where
  poll_ready_total :
      (fuel : ℕ) (any : Bool) (w : W) (s : Inner F)
      → Inv s
      → potential work s < fuel
      → Returns (λ r. potential work r.2 ≤ potential work s) (poll_ready poll fuel any w s)
  poll_ready_total zero any w s v h = absurd (omega arith)
  poll_ready_total (suc fuel) any w s v h =
      poll_ready_cases poll (Returns (λ r. potential work r.2 ≤ potential work s)) fuel any w s
        (λ e. omega arith)
        λ id rest e.
          let s' = record s { ready = rest } in
          let v' : Inv s' = record {
            ordered = v.ordered;
            ahead = v.ahead;
            empty = v.empty;
            distinct = v.distinct;
          } in
          let less = potential-turn work poll bounded id w s' v' in
          let pop = potential-pop work poll id rest s e in
          Returns-mono _ _ _
            (λ r (b : potential work r.2 ≤ potential work (turn poll id w s').2).
              omega (arith, less, pop))
            (poll_ready_total fuel _ _ _ (turn-Inv poll id w s' v').0 (omega (arith, less, pop)))

  pub poll_ready-Polled :
      (fuel : ℕ) (any : Bool) (w : W) (s : Inner F)
      → Inv s
      → potential work s < fuel
      → Returns (λ r. Polled work s r.2) (poll_ready poll fuel any w s)
  poll_ready-Polled fuel any w s v h =
      Returns-mono _ _ (poll_ready poll fuel any w s)
        (λ r
            (b : (potential work r.2 ≤ potential work s)
              × ((Inv r.2 × (r.2.now_ns ≡ s.now_ns)) × (r.2.ready ≡ []))).
          record { inv = b.1.0.0; clock = b.1.0.1; drained = b.1.1; less = b.0 })
        (Returns-both _ _ (poll_ready poll fuel any w s) (poll_ready_total fuel any w s v h)
          (poll_ready-Inv poll fuel any w s v))

  Ended-idle :
      {over : Type 0} (s s' : Inner F) → Polled work s s' → s'.timers ≡ [] → Ended work over s s'
  Ended-idle s s' p idle = record {
    inv = p.inv;
    less = p.less;
    clock = omega (arith, p.clock);
    because = inr (p.drained, idle);
  }

  -- What ends later than a state that comes after `s` ends later than `s`.
  Ended-after :
      {over : Type 0} (s t u : Inner F)
      → s.now_ns ≤ t.now_ns
      → potential work t ≤ potential work s
      → Ended work over t u
      → Ended work over s u
  Ended-after s t u le fewer b = record {
    inv = b.inv;
    less = omega (arith, b.less, fewer);
    clock = omega (arith, b.clock, le);
    because = b.because;
  }

  -- With finite work, a drive ends when it is done or nothing is left to wait for.
  pub drive_until-Ended :
      (rounds fuel : ℕ) (done : W → Bool) (w : W) (s : Inner F)
      → Inv s
      → potential work s < rounds
      → potential work s < fuel
      → Returns (λ r. Ended work (done r.0 ≡ true) s r.1) (drive_until poll rounds fuel done w s)
  unfolding drive_until
  drive_until-Ended zero fuel done w s v h k = absurd (omega arith)
  drive_until-Ended (suc rounds) fuel done w s v h k =
      Returns->>= (λ r. Polled work s r.2) _ (poll_ready poll fuel false w s) _
        (poll_ready-Polled fuel false w s v k)
        λ r p. elim (Bool-cases (done r.1)) [
          | inl e ↦ rw e (record {
            inv = p.inv;
            less = p.less;
            clock = omega (arith, p.clock);
            because = inl e;
          })
          | inr e ↦ rw e (elim (advance-Jump r.2 p.inv) [
            | inl (idle, stop) ↦ rw stop (Ended-idle s r.2 p idle)
            | inr (s'', go_on, v'', j) ↦
                let less : potential work s'' < potential work s =
                  omega (arith, potential-Jump work r.2 s'' j, p.less) in
                rw go_on (
                  Returns-mono _ _ _
                    (λ q. Ended-after s s'' q.1 (omega (arith, p.clock, j.moved)) (omega arith))
                    (drive_until-Ended rounds fuel done r.1 s'' v'' (omega arith) (omega arith)))
          ])
        ]

  -- With finite work, `run_until` reaches its target or the end of all events.
  pub run_until-Ended :
      (rounds fuel epoch target : ℕ) (w : W) (s : Inner F)
      → Inv s
      → potential work s < rounds
      → potential work s < fuel
      → Returns
          (λ r. Ended work (target ≤ now_ns epoch r.1) s r.1)
          (run_until poll rounds fuel epoch target w s)
  unfolding run_until
  run_until-Ended zero fuel epoch target w s v h k = absurd (omega arith)
  run_until-Ended (suc rounds) fuel epoch target w s v h k =
      elim (Bool-cases (ltb (now_ns epoch s) target)) [
        | inr e ↦
            rw (e, run_until)
              (record {
                inv = v;
                less = omega arith;
                clock = omega arith;
                because = inl (ground arith);
              })
        | inl e ↦
            rw (e, run_until)
              (Returns->>= (λ r. Polled work s r.2) _ (poll_ready poll fuel false w s) _
                (poll_ready-Polled fuel false w s v k)
                λ r p. elim (advance-Jump r.2 p.inv) [
                  | inl (idle, stop) ↦ rw stop (Ended-idle s r.2 p idle)
                  | inr (s'', go_on, v'', j) ↦
                      let less : potential work s'' < potential work s =
                        omega (arith, potential-Jump work r.2 s'' j, p.less) in
                      rw go_on (
                        Returns->>= (λ q. Polled work s'' q.2) _
                          (poll_ready poll fuel false r.1 s'') _
                          (poll_ready-Polled fuel false r.1 s'' v'' (omega arith))
                          λ q pq.
                            Returns-mono _ _ _
                              (λ z.
                                Ended-after s q.2 z.1 (omega (arith, p.clock, j.moved, pq.clock))
                                  (omega (arith, pq.less)))
                              (run_until-Ended rounds fuel epoch target q.1 q.2 pq.inv
                                (omega (arith, pq.less)) (omega (arith, pq.less))))
                ])
      ]

  -- With finite work, a step ends. It runs the ready tasks until none is ready; goes exactly to the
  -- instant of the next event, if there is one; and runs the tasks that are then ready, with the fabric
  -- that the first run left, to the state and the fabric that it returns.
  pub step-Stepped :
      (fuel : ℕ) (w : W) (s : Inner F)
      → Inv s
      → potential work s < fuel
      → Returns (Stepped poll work fuel w s) (step poll fuel w s)
  unfolding step jump
  step-Stepped fuel w s v k =
      let ((any, w', m), e, p) =
        Returns-some (λ r. Polled work s r.2) (poll_ready poll fuel false w s)
          (poll_ready-Polled fuel false w s v k) in
      elim (advance-Jump m p.inv) [
        | inl (idle, stop) ↦
            let ((again, z, u), f, q) =
              Returns-some (λ r. Polled work m r.2) (poll_ready poll fuel false w' m)
                (poll_ready-Polled fuel false w' m p.inv (omega (arith, p.less, k))) in
            let ran : step poll fuel w s ≡ some (z, u) = rw (step, e, ◌>>=◌, jump, stop, f) refl in
            rw ran (any, w', m, e, p, m, inl (idle, refl), again, f, q)
        | inr (t, go_on, v', j) ↦
            let ((again, z, u), f, q) =
              Returns-some (λ r. Polled work t r.2) (poll_ready poll fuel false w' t)
                (poll_ready-Polled fuel false w' t v'
                  (omega (arith, potential-Jump work m t j, p.less, k))) in
            let ran : step poll fuel w s ≡ some (z, u) = rw (step, e, ◌>>=◌, jump, go_on, f) refl in
            rw ran (any, w', m, e, p, t, inr j, again, f, q)
      ]
