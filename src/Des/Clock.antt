-- ===== src/Des/Clock.antt =====
-- The virtual clock: where a jump leads, whom it wakes, and how far a session runs.
use ndn_sim.Prelude.{
  ℕ, ◌≤◌, ◌<◌, ◌≡◌, refl, sym, ap, ◌∙◌, subst, ◌⊎◌, inl, inr, ◌≢◌, Bool, List, [], ◌∷◌, ◌++◌, map,
  none, some, All, All-mono, OnSome, arith, max, append-nil, append_assoc, All-left, All-both,
}
use ndn_sim.Des.{
  Timer, Inner, Effect, Outcome, pop_due, wake, wake_all, advance_to_next_event, poll_ready,
}
use ndn_sim.Des.Timers.{Ordered, Before, After, pop_due-append, pop_due-left}
use ndn_sim.Des.Slots.{Inv, at_time, at_time-Inv, advance_cases}
use ndn_sim.Des.Loop.{turn-Inv, poll_ready_inv}

abbrev pub task_of : Timer → ℕ
task_of t = t.task

-- What a jump does: `woken` are the timers that fire.
pub record Jump {F : Type 0} (s s' : Inner F) : Type 0 where
  pub woken : List Timer
  pub split : s.timers ≡ woken ++ s'.timers
  pub some_fire : woken ≢ []
  pub due_now : All (λ t. t.deadline ≡ s'.now_ns) woken
  pub rest_later : All (After s'.now_ns) s'.timers
  pub moved : s.now_ns < s'.now_ns
  pub queued : s'.ready ≡ s.ready ++ map task_of woken
  pub same_tasks : s'.tasks ≡ s.tasks

module _ {F : Type 0} where
  wake_all_lem :
      (ts : List Timer) (s : Inner F)
      → wake_all ts s ≡ record s { ready = s.ready ++ map task_of ts }
  unfolding wake_all wake
  wake_all_lem [] s = simp append-nil
  wake_all_lem (t ∷ ts) s = simp (wake_all_lem ts, append_assoc)

  -- The first timer of an ordered queue that lies ahead of the clock is its earliest.
  earliest :
      (s : Inner F) (t : Timer) (ts : List Timer)
      → Inv s
      → s.timers ≡ t ∷ ts
      → (s.now_ns < t.deadline) × All (λ u. t.deadline ≤ u.deadline) s.timers
  earliest s t ts v e =
      let order : Ordered (t ∷ ts) = subst Ordered e v.ordered in
      let ahead : All (After s.now_ns) (t ∷ ts) = subst (All (After s.now_ns)) e v.ahead in
      (ahead.0, rw e (omega arith, All-mono (λ u (b : Before t u). ground arith) ts order.0))

  at_time-Jump :
      (t : Timer) (ts : List Timer) (s : Inner F)
      → Inv s
      → s.timers ≡ t ∷ ts
      → Jump s (at_time (max s.now_ns t.deadline) s)
  at_time-Jump t ts s v e =
      let n : ℕ = max s.now_ns t.deadline in
      let popped : List Timer = (pop_due n s.timers).0 in
      let left : List Timer = (pop_due n s.timers).1 in
      let (ahead, first) = earliest s t ts v e in
      let (split, due) = pop_due-append n s.timers in
      let (order, later) = pop_due-left n s.timers v.ordered in
      let from : All (λ u. t.deadline ≤ u.deadline) popped =
        All-left (λ u. t.deadline ≤ u.deadline) popped left
          (subst (All (λ u. t.deadline ≤ u.deadline)) split first) in
      rw (wake_all_lem popped (record s { now_ns = n; timers = left })) (record {
        woken = popped;
        split = split;
        some_fire = λ none_due.
            let same : t ∷ ts ≡ left = sym e ∙ split ∙ ap (λ l. l ++ left) none_due in
            let late : All (After n) (t ∷ ts) = subst (All (After n)) (sym same) later in
            absurd (omega (arith, late.0));
        due_now =
            All-mono
              (λ u (b : (t.deadline ≤ u.deadline) × (u.deadline ≤ n)). omega (arith, b.0, b.1))
              popped (All-both _ _ popped from due);
        rest_later = later;
        moved = omega arith;
        queued = refl;
        same_tasks = refl;
      })

  -- A jump goes to the earliest deadline, which lies ahead; it wakes the tasks of exactly the
  -- timers due then, in their order, and leaves the later ones. There is none only if no timer
  -- is pending.
  pub advance-Jump :
      (s : Inner F)
      → Inv s
      → ((s.timers ≡ []) × (advance_to_next_event s ≡ none))
        ⊎ ((s' : Inner F) × (advance_to_next_event s ≡ some s') × Inv s' × Jump s s')
  advance-Jump s v =
      advance_cases
        (λ o.
          ((s.timers ≡ []) × (o ≡ none)) ⊎ ((s' : Inner F) × (o ≡ some s') × Inv s' × Jump s s'))
        s (λ e. inl (e, refl)) λ t ts e. inr (_, refl, at_time-Inv _ s v, at_time-Jump t ts s v e)

module _ {W F : Type 0} (poll : W → F → ℕ → ℕ → W × List (Effect F) × Outcome F) where
  -- The loop ends with no task ready, at the time at which it began.
  pub poll_ready-Inv :
      (fuel : ℕ) (any : Bool) (w : W) (s : Inner F)
      → Inv s
      → OnSome
          (λ r. (Inv r.2 × (r.2.now_ns ≡ s.now_ns)) × (r.2.ready ≡ []))
          (poll_ready poll fuel any w s)
  poll_ready-Inv fuel any w s v =
      poll_ready_inv poll (λ _ u. Inv u × (u.now_ns ≡ s.now_ns))
        (λ id rest w' u h.
          let (v', same) =
            turn-Inv poll id w' (record u { ready = rest })
              (record {
                ordered = h.0.ordered;
                ahead = h.0.ahead;
                empty = h.0.empty;
                distinct = h.0.distinct;
              }) in
          (v', same ∙ h.1))
        fuel any w s (v, refl)
