-- ===== src/Des/Work.antt =====
-- A measure that shows when the executor's loops end: futures with a finite amount of work.
use ndn_sim.Prelude.{
  ℕ, zero, suc, ◌+◌, ◌*◌, ◌≤◌, ◌<◌, ◌≡◌, refl, ap, subst, Bool, List, [], ◌∷◌, ◌++◌, map, Option,
  none, some, arith, length, length-append, length-map, get_elem?, set, Bool-cases, inl, inr, leb,
  All,
}
use ndn_sim.Des.{
  Timer, Inner, Sleep, Effect, spawns, sleeps, wakes, Outcome, finished, pending, push_timer, wake,
  spawn, sleep_poll, run_effect, run_effects, settle, task_at, turn, poll_task,
}
use ndn_sim.Des.Slots.{
  IsEmpty, Inv, IsRunning, spawn_cases, spawn-Inv, sleep_poll-Inv, wake-Inv, run_effects-Inv,
}
use ndn_sim.Des.Loop.{taken_out, taken_out-Inv, task_at-get_elem?, turn_cases}
use ndn_sim.Des.Clock.{Jump, task_of}

length-push_timer : (t : Timer) (ts : List Timer) → length (push_timer t ts) ≡ suc (length ts)
unfolding push_timer
length-push_timer t [] = refl
length-push_timer t (u ∷ us) = ground (arith, length-push_timer t us)

module _ {F : Type 0} (work : F → ℕ) where
  -- What the effects of a poll cost, and what is left to do after it.
  abbrev pub cost : List (Effect F) → ℕ
  cost [] = 0
  cost (spawns fut ∷ es) = work fut + 1 + cost es
  cost (sleeps deadline ∷ es) = 2 + cost es
  cost (wakes id ∷ es) = 1 + cost es

  abbrev pub left : Outcome F → ℕ
  left finished = 0
  left (pending fut) = work fut

  load : List (Option F) → ℕ
  load [] = 0
  load (none ∷ ts) = load ts
  load (some fut ∷ ts) = work fut + load ts

  -- The work in the slots, the tasks that are ready, and twice the timers.
  unfoldable pub potential : Inner F → ℕ
  unfolding load
  potential s = load s.tasks + length s.ready + 2 * length s.timers

  load-append : (ts : List (Option F)) (fut : F) → load (ts ++ some fut ∷ []) ≡ load ts + work fut
  unfolding load
  load-append [] fut = omega arith
  load-append (none ∷ ts) fut = load-append ts fut
  load-append (some f ∷ ts) fut = omega (arith, load-append ts fut)

  load-set :
      (ts : List (Option F)) (i : ℕ) (fut : F)
      → IsEmpty ts i
      → load (set ts i (some fut)) ≡ load ts + work fut
  unfolding load
  load-set [] i fut h = absurd (cc)
  load-set (none ∷ ts) zero fut h = omega arith
  load-set (some f ∷ ts) zero fut h = absurd (cc)
  load-set (none ∷ ts) (suc i) fut h = load-set ts i fut h
  load-set (some f ∷ ts) (suc i) fut h = omega (arith, load-set ts i fut h)

  load-set-none : (ts : List (Option F)) (i : ℕ) → IsEmpty ts i → load (set ts i none) ≡ load ts
  unfolding load
  load-set-none [] i h = refl
  load-set-none (none ∷ ts) zero h = refl
  load-set-none (some f ∷ ts) zero h = absurd (cc)
  load-set-none (none ∷ ts) (suc i) h = load-set-none ts i h
  load-set-none (some f ∷ ts) (suc i) h = omega (arith, load-set-none ts i h)

  load-taken :
      (ts : List (Option F)) (i : ℕ) (fut : F)
      → get_elem? ts i ≡ some (some fut)
      → load ts ≡ load (set ts i none) + work fut
  unfolding load
  load-taken [] i fut h = absurd (cc)
  load-taken (none ∷ ts) zero fut h = absurd (cc)
  load-taken (some f ∷ ts) zero fut h = let same : f ≡ fut = cc in rw same (omega arith)
  load-taken (none ∷ ts) (suc i) fut h = load-taken ts i fut h
  load-taken (some f ∷ ts) (suc i) fut h = omega (arith, load-taken ts i fut h)

  potential-spawn :
      (fut : F) (s : Inner F) → Inv s → potential (spawn fut s) ≡ potential s + work fut + 1
  unfolding potential wake
  potential-spawn fut s v =
      spawn_cases (λ t. potential t ≡ potential s + work fut + 1) fut s
        (λ e. omega (arith, load-append s.tasks fut, length-append s.ready (length s.tasks ∷ [])))
        λ i rest e.
          let blank : All (IsEmpty s.tasks) (i ∷ rest) = subst (All (IsEmpty s.tasks)) e v.empty in
          omega (arith, load-set s.tasks i fut blank.0, length-append s.ready (i ∷ []))

  potential-wake : (id : ℕ) (s : Inner F) → potential (wake id s) ≡ potential s + 1
  unfolding potential wake
  potential-wake id s = omega (arith, length-append s.ready (id ∷ []))

  potential-sleep_poll :
      (z : Sleep) (id : ℕ) (s : Inner F) → potential (sleep_poll z id s).2 ≤ potential s + 2
  unfolding potential sleep_poll
  potential-sleep_poll z id s = elim (Bool-cases (leb z.deadline s.now_ns)) [
    | inl e ↦ rw e (omega arith)
    | inr e ↦ elim (Bool-cases z.registered) [
      | inl old ↦ rw (e, old) (omega arith)
      | inr new ↦ rw (e, new) (omega (arith, length-push_timer _ s.timers))
    ]
  ]

  potential-run_effects :
      (id : ℕ) (es : List (Effect F)) (s : Inner F)
      → Inv s
      → potential (run_effects id es s) ≤ potential s + cost es
  unfolding run_effects run_effect
  potential-run_effects id [] s v = omega arith
  potential-run_effects id (spawns fut ∷ es) s v = omega (
    arith,
    potential-spawn fut s v,
    potential-run_effects id es (spawn fut s) (spawn-Inv fut s v),
  )
  potential-run_effects id (sleeps deadline ∷ es) s v =
      let z = sleep_poll (record { deadline = deadline; registered = Bool.false }) id s in
      omega (
        arith,
        potential-sleep_poll (record { deadline = deadline; registered = Bool.false }) id s,
        potential-run_effects id es z.2 (sleep_poll-Inv _ id s v),
      )
  potential-run_effects id (wakes other ∷ es) s v = omega (
    arith,
    potential-wake other s,
    potential-run_effects id es (wake other s) (wake-Inv other s v),
  )

  potential-settle :
      (id : ℕ) (o : Outcome F) (s : Inner F)
      → IsRunning id s
      → potential (settle id o s) ≡ potential s + left o
  unfolding potential settle
  potential-settle id finished s r = omega (arith, load-set-none s.tasks id r.taken)
  potential-settle id (pending fut) s r = omega (arith, load-set s.tasks id fut r.taken)

  potential-taken_out :
      (id : ℕ) (s : Inner F) (fut : F)
      → task_at id s ≡ some fut
      → potential s ≡ potential (taken_out id s) + work fut
  unfolding potential
  potential-taken_out id s fut h =
      omega (arith, load-taken s.tasks id fut (task_at-get_elem? id s h))

  -- A jump turns the timers that fire into ready tasks, which weigh less.
  pub potential-Jump : (s s' : Inner F) → Jump s s' → potential s' < potential s
  unfolding potential
  potential-Jump s s' j =
      let pos : 0 < length j.woken = grind (arith, j.some_fire) in
      omega (
        arith,
        pos,
        ap length j.split,
        length-append j.woken s'.timers,
        ap length j.queued,
        length-append s.ready (map task_of j.woken),
        length-map j.woken task_of,
        ap load j.same_tasks,
      )

  module _ {W : Type 0} (poll : W → F → ℕ → ℕ → W × List (Effect F) × Outcome F) where
    -- What a poll causes and leaves to do is no more than what the future had to do.
    abbrev pub IsBounded : Type 0
    IsBounded =
        (w : W) (fut : F) (id now : ℕ)
        → cost (poll w fut id now).1 + left (poll w fut id now).2 ≤ work fut

    pub potential-turn :
        IsBounded
        → (id : ℕ) (w : W) (s : Inner F) → Inv s
        → potential (turn poll id w s).2 ≤ potential s
    unfolding poll_task
    potential-turn bounded id w s v =
        turn_cases poll (λ r. potential r.2 ≤ potential s) id w s (λ e. omega arith)
          λ fut e.
            let (u, r) = taken_out-Inv id s e v in
            let (w', effects, outcome) = poll w fut id s.now_ns in
            let (u', r') = run_effects-Inv id effects (taken_out id s) u r in
            omega (
              arith,
              bounded w fut id s.now_ns,
              potential-taken_out id s fut e,
              potential-run_effects id effects (taken_out id s) u,
              potential-settle id outcome _ r',
            )

    pub potential-pop :
        (id : ℕ) (rest : List ℕ) (s : Inner F)
        → s.ready ≡ id ∷ rest
        → potential s ≡ suc (potential (record s { ready = rest }))
    unfolding potential
    potential-pop id rest s e = omega (arith, ap length e)
