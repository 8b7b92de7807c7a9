-- ===== src/Des/Slots.antt =====
-- The executor's well-formedness, which every operation keeps.
use ndn_sim.Prelude.{
  ℕ, ◌<◌, ◌≡◌, refl, sym, ap, ◌∙◌, subst, inl, inr, ◌≢◌, List, [], ◌∷◌, ◌++◌, Option, none, some,
  All, arith, Bool-cases, leb, length, get_elem?, set, get_elem?-set_self, get_elem?-set_ne,
  get_elem?-append_left, get_elem?-lt, OnSome, max, some≢none, get_elem?-append_length,
}
use ndn_sim.Des.{
  Timer, Inner, Sleep, Effect, spawns, sleeps, wakes, Outcome, finished, pending, pop_due, start,
  wake, spawn, sleep_poll, run_effect, run_effects, settle, wake_all, advance_to_next_event, jump,
}
use ndn_sim.Des.Timers.{Ordered, After, All-push_timer, push_timer-Ordered, pop_due-left}

abbrev pub Distinct : List ℕ → Type 0
Distinct [] = Unit
Distinct (i ∷ is) = All (λ j. i ≢ j) is × Distinct is

module _ {F : Type 0} where
  -- The slot exists and holds no future.
  abbrev pub IsEmpty : List (Option F) → ℕ → Type 0
  IsEmpty tasks i = get_elem? tasks i ≡ some none

  pub record Inv (s : Inner F) : Type 0 where
    pub ordered : Ordered s.timers
    pub ahead : All (After s.now_ns) s.timers
    pub empty : All (IsEmpty s.tasks) s.free
    pub distinct : Distinct s.free

  -- The slot of the task that is being polled: empty, and not free.
  pub record IsRunning (id : ℕ) (s : Inner F) : Type 0 where
    pub taken : IsEmpty s.tasks id
    pub reserved : All (λ j. id ≢ j) s.free

  pub start-Inv : Inv start
  unfolding start
  start-Inv = record { ordered = tt; ahead = tt; empty = tt; distinct = tt }

  pub wake-Inv : (id : ℕ) (s : Inner F) → Inv s → Inv (wake id s)
  unfolding wake
  wake-Inv id s v = record {
    ordered = v.ordered;
    ahead = v.ahead;
    empty = v.empty;
    distinct = v.distinct;
  }

  pub IsEmpty-set_ne :
      (tasks : List (Option F)) (i : ℕ) (x : Option F) (js : List ℕ)
      → All (λ j. i ≢ j) js
      → All (IsEmpty tasks) js
      → All (IsEmpty (set tasks i x)) js
  IsEmpty-set_ne tasks i x [] h hs = tt
  IsEmpty-set_ne tasks i x (j ∷ js) h hs =
      (get_elem?-set_ne tasks i j x h.0 ∙ hs.0, IsEmpty-set_ne tasks i x js h.1 hs.1)

  IsEmpty-append :
      (tasks : List (Option F)) (x : Option F) (js : List ℕ)
      → All (IsEmpty tasks) js
      → All (IsEmpty (tasks ++ x ∷ [])) js
  IsEmpty-append tasks x [] hs = tt
  IsEmpty-append tasks x (j ∷ js) hs = (
    get_elem?-append_left tasks (x ∷ []) j (get_elem?-lt tasks j hs.0) ∙ hs.0,
    IsEmpty-append tasks x js hs.1,
  )

  -- `spawn` by the free list that it finds.
  pub spawn_cases {ℓ} :
      (P : Inner F → Type ℓ) (fut : F) (s : Inner F)
      → (s.free ≡ [] → P (wake (length s.tasks) (record s { tasks = s.tasks ++ some fut ∷ [] })))
      → ((i : ℕ) (rest : List ℕ)
          → s.free ≡ i ∷ rest
          → P (wake i (record s { free = rest; tasks = set s.tasks i (some fut) })))
      → P (spawn fut s)
  unfolding spawn wake
  spawn_cases P fut s grows reuses = go s.free refl
    where
      go : (l : List ℕ) → s.free ≡ l → P (spawn fut s)
      go [] e = rw (e, spawn) (grows e)
      go (i ∷ rest) e = rw (e, spawn) (reuses i rest e)

  pub spawn-Inv : (fut : F) (s : Inner F) → Inv s → Inv (spawn fut s)
  unfolding wake
  spawn-Inv fut s v =
      spawn_cases Inv fut s
        (λ e. record {
          ordered = v.ordered;
          ahead = v.ahead;
          empty = IsEmpty-append s.tasks (some fut) s.free v.empty;
          distinct = v.distinct;
        })
        λ i rest e.
          let apart : Distinct (i ∷ rest) = subst Distinct e v.distinct in
          let blank : All (IsEmpty s.tasks) (i ∷ rest) = subst (All (IsEmpty s.tasks)) e v.empty in
          record {
            ordered = v.ordered;
            ahead = v.ahead;
            empty = IsEmpty-set_ne s.tasks i (some fut) rest apart.0 blank.1;
            distinct = apart.1;
          }

  spawn-IsRunning : (id : ℕ) (fut : F) (s : Inner F) → IsRunning id s → IsRunning id (spawn fut s)
  unfolding wake
  spawn-IsRunning id fut s r =
      spawn_cases (IsRunning id) fut s
        (λ e. record {
          taken =
              get_elem?-append_left s.tasks (some fut ∷ []) id (get_elem?-lt s.tasks id r.taken)
              ∙ r.taken;
          reserved = r.reserved;
        })
        λ i rest e.
          let other : All (λ j. id ≢ j) (i ∷ rest) = subst (All (λ j. id ≢ j)) e r.reserved in
          record {
            taken = get_elem?-set_ne s.tasks i id (some fut) (λ p. other.0 (sym p)) ∙ r.taken;
            reserved = other.1;
          }

  -- A new task gets a slot that held no future, is put on the ready queue, and every other task
  -- keeps its slot.
  pub spawn_slot :
      (fut : F) (s : Inner F)
      → Inv s
      → (i : ℕ) × (get_elem? (spawn fut s).tasks i ≡ some (some fut))
        × ((g : F) → get_elem? s.tasks i ≢ some (some g))
        × ((spawn fut s).ready ≡ s.ready ++ i ∷ [])
        × ((j : ℕ) (g : F)
            → get_elem? s.tasks j ≡ some (some g)
            → get_elem? (spawn fut s).tasks j ≡ some (some g))
  unfolding wake
  spawn_slot fut s v =
      spawn_cases
        (λ u.
          (i : ℕ) × (get_elem? u.tasks i ≡ some (some fut))
          × ((g : F) → get_elem? s.tasks i ≢ some (some g))
          × (u.ready ≡ s.ready ++ i ∷ [])
          × ((j : ℕ) (g : F)
              → get_elem? s.tasks j ≡ some (some g)
              → get_elem? u.tasks j ≡ some (some g)))
        fut s
        (λ e. (
          length s.tasks,
          get_elem?-append_length s.tasks (some fut),
          (λ g held. absurd (omega (arith, get_elem?-lt s.tasks (length s.tasks) held))),
          refl,
          (λ j g held. get_elem?-append_left s.tasks _ j (get_elem?-lt s.tasks j held) ∙ held),
        ))
        λ i rest e.
          let blank : All (IsEmpty s.tasks) (i ∷ rest) = subst (All (IsEmpty s.tasks)) e v.empty in
          (
            i,
            get_elem?-set_self s.tasks i (some fut) (get_elem?-lt s.tasks i blank.0),
            (λ g held. some≢none (sym held ∙ blank.0)),
            refl,
            (λ j g held.
                get_elem?-set_ne s.tasks i j (some fut)
                  (λ same. some≢none (sym held ∙ sym (ap (get_elem? s.tasks) same) ∙ blank.0))
                ∙ held),
          )

  pub sleep_poll-Inv : (z : Sleep) (id : ℕ) (s : Inner F) → Inv s → Inv (sleep_poll z id s).2
  unfolding sleep_poll
  sleep_poll-Inv z id s v = elim (Bool-cases (leb z.deadline s.now_ns)) [
    | inl e ↦ rw e v
    | inr e ↦ elim (Bool-cases z.registered) [
      | inl old ↦ rw (e, old) v
      | inr new ↦
          let later : s.now_ns < z.deadline = ground arith in
          rw (e, new)
            (record {
              ordered = push_timer-Ordered _ s.timers v.ordered;
              ahead = All-push_timer (After s.now_ns) _ s.timers later v.ahead;
              empty = v.empty;
              distinct = v.distinct;
            })
    ]
  ]

  -- A poll of a sleep leaves the tasks, the queues and the clock alone.
  pub sleep_poll_same :
      (z : Sleep) (id : ℕ) (s : Inner F)
      → let t = (sleep_poll z id s).2 in
        (t.tasks ≡ s.tasks) × (t.free ≡ s.free) × (t.ready ≡ s.ready) × (t.now_ns ≡ s.now_ns)
  unfolding sleep_poll
  sleep_poll_same z id s = ground arith

  sleep_poll-IsRunning :
      (i : ℕ) (z : Sleep) (id : ℕ) (s : Inner F) → IsRunning i s → IsRunning i (sleep_poll z id s).2
  sleep_poll-IsRunning i z id s r =
      let (tasks, free, ready, clock) = sleep_poll_same z id s in
      record {
        taken = subst (λ l. IsEmpty l i) (sym tasks) r.taken;
        reserved = subst (All (λ j. i ≢ j)) (sym free) r.reserved;
      }

  pub run_effects-Inv :
      (id : ℕ) (es : List (Effect F)) (s : Inner F)
      → Inv s
      → IsRunning id s
      → Inv (run_effects id es s) × IsRunning id (run_effects id es s)
  unfolding run_effects run_effect wake
  run_effects-Inv id [] s v r = (v, r)
  run_effects-Inv id (spawns fut ∷ es) s v r =
      run_effects-Inv id es (spawn fut s) (spawn-Inv fut s v) (spawn-IsRunning id fut s r)
  run_effects-Inv id (sleeps deadline ∷ es) s v r =
      run_effects-Inv id es _ (sleep_poll-Inv _ id s v) (sleep_poll-IsRunning id _ id s r)
  run_effects-Inv id (wakes other ∷ es) s v r =
      run_effects-Inv id es (wake other s) (wake-Inv other s v)
        (record { taken = r.taken; reserved = r.reserved })

  pub settle-Inv :
      (id : ℕ) (o : Outcome F) (s : Inner F) → Inv s → IsRunning id s → Inv (settle id o s)
  unfolding settle
  settle-Inv id finished s v r =
      let same : get_elem? (set s.tasks id none) id ≡ some none =
        get_elem?-set_self s.tasks id none (get_elem?-lt s.tasks id r.taken) in
      record {
        ordered = v.ordered;
        ahead = v.ahead;
        empty = (same, IsEmpty-set_ne s.tasks id none s.free r.reserved v.empty);
        distinct = (r.reserved, v.distinct);
      }
  settle-Inv id (pending fut) s v r = record {
    ordered = v.ordered;
    ahead = v.ahead;
    empty = IsEmpty-set_ne s.tasks id (some fut) s.free r.reserved v.empty;
    distinct = v.distinct;
  }

  pub wake_all-Inv : (ts : List Timer) (s : Inner F) → Inv s → Inv (wake_all ts s)
  unfolding wake_all
  wake_all-Inv [] s v = v
  wake_all-Inv (t ∷ ts) s v = wake_all-Inv ts (wake t.task s) (wake-Inv t.task s v)

  -- The executor at the time `now`, with every timer that is due woken.
  abbrev pub at_time : ℕ → Inner F → Inner F
  at_time now s =
      wake_all (pop_due now s.timers).0
        (record s { now_ns = now; timers = (pop_due now s.timers).1 })

  -- `advance_to_next_event` by the queue that it finds.
  pub advance_cases {ℓ} :
      (P : Option (Inner F) → Type ℓ) (s : Inner F)
      → (s.timers ≡ [] → P none)
      → ((t : Timer) (ts : List Timer)
          → s.timers ≡ t ∷ ts
          → P (some (at_time (max s.now_ns t.deadline) s)))
      → P (advance_to_next_event s)
  unfolding advance_to_next_event
  advance_cases P s idle jumps = go s.timers refl
    where
      go : (l : List Timer) → s.timers ≡ l → P (advance_to_next_event s)
      go [] e = rw (e, advance_to_next_event) (idle e)
      go (t ∷ ts) e =
          let n : ℕ = max s.now_ns t.deadline in
          subst P (λ i. advance_to_next_event (record s { timers = sym e i }))
            (subst
              (λ l. P (
                some
                  (wake_all (pop_due n l).0 (record s { now_ns = n; timers = (pop_due n l).1 }))))
              e (jumps t ts e))

  pub at_time-Inv : (now : ℕ) (s : Inner F) → Inv s → Inv (at_time now s)
  at_time-Inv now s v =
      let (order, later) = pop_due-left now s.timers v.ordered in
      wake_all-Inv _ _
        (record { ordered = order; ahead = later; empty = v.empty; distinct = v.distinct })

  pub advance-Inv : (s : Inner F) → Inv s → OnSome Inv (advance_to_next_event s)
  advance-Inv s v = advance_cases (OnSome Inv) s (λ e. tt) (λ t ts e. at_time-Inv _ s v)

  pub jump-Inv : (s : Inner F) → Inv s → Inv (jump s)
  unfolding jump
  jump-Inv s v =
      advance_cases (λ o. Inv (elim o [ none ↦ s | some s' ↦ s' ])) s (λ e. v)
        λ t ts e. at_time-Inv _ s v
