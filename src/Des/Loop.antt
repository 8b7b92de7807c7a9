-- ===== src/Des/Loop.antt =====
-- One turn of the polling loop, and a rule for the loop.
use ndn_sim.Prelude.{
  ℕ, zero, suc, ◌≡◌, refl, sym, ◌∙◌, subst, ◌||◌, ◌≢◌, Bool, List, [], ◌∷◌, Option, none, some, All,
  OnSome, ap, get_elem?, set, get_elem?-set_self, get_elem?-lt, arith, some≢none,
}
use ndn_sim.Des.{
  Inner, Effect, spawns, sleeps, wakes, Outcome, finished, pending, wake, spawn, run_effect,
  run_effects, settle, task_at, turn, poll_task, poll_ready,
}
use ndn_sim.Des.Slots.{
  IsEmpty, Inv, IsRunning, IsEmpty-set_ne, spawn_cases, sleep_poll_same, run_effects-Inv,
  settle-Inv,
}

module _ {F : Type 0} where
  pub task_at-get_elem? :
      (id : ℕ) (s : Inner F) {fut : F}
      → task_at id s ≡ some fut
      → get_elem? s.tasks id ≡ some (some fut)
  unfolding task_at
  task_at-get_elem? id s h = ground arith

  -- A slot that holds a future is not free.
  held-reserved :
      (tasks : List (Option F)) (id : ℕ) (fut : F) (js : List ℕ)
      → get_elem? tasks id ≡ some (some fut)
      → All (IsEmpty tasks) js
      → All (λ j. id ≢ j) js
  held-reserved tasks id fut [] h hs = tt
  held-reserved tasks id fut (j ∷ js) h hs = (
    (λ e. absurd (some≢none (sym h ∙ ap (get_elem? tasks) e ∙ hs.0))),
    held-reserved tasks id fut js h hs.1,
  )

  -- The executor with a task's future taken out for its poll.
  abbrev pub taken_out : ℕ → Inner F → Inner F
  taken_out id s = record s { tasks = set s.tasks id none }

  pub taken_out-Inv :
      (id : ℕ) (s : Inner F) {fut : F}
      → task_at id s ≡ some fut
      → Inv s
      → Inv (taken_out id s) × IsRunning id (taken_out id s)
  taken_out-Inv id s {fut} h v =
      let held = task_at-get_elem? id s h in
      let apart = held-reserved s.tasks id fut s.free held v.empty in
      (
        record {
          ordered = v.ordered;
          ahead = v.ahead;
          empty = IsEmpty-set_ne s.tasks id none s.free apart v.empty;
          distinct = v.distinct;
        },
        record {
          taken = get_elem?-set_self s.tasks id none (get_elem?-lt s.tasks id held);
          reserved = apart;
        },
      )

  -- Nothing that a poll does moves the clock.
  pub clock-run_effects :
      (id : ℕ) (es : List (Effect F)) (s : Inner F) → (run_effects id es s).now_ns ≡ s.now_ns
  unfolding run_effects run_effect wake
  clock-run_effects id [] s = refl
  clock-run_effects id (spawns fut ∷ es) s =
      clock-run_effects id es (spawn fut s)
      ∙ spawn_cases (λ t. t.now_ns ≡ s.now_ns) fut s (λ e. refl) (λ i rest e. refl)
  clock-run_effects id (sleeps deadline ∷ es) s =
      clock-run_effects id es _ ∙ (sleep_poll_same _ id s).3
  clock-run_effects id (wakes other ∷ es) s = clock-run_effects id es (wake other s)

  pub clock-settle : (id : ℕ) (o : Outcome F) (s : Inner F) → (settle id o s).now_ns ≡ s.now_ns
  unfolding settle
  clock-settle id finished s = refl
  clock-settle id (pending fut) s = refl

module _ {W F : Type 0} (poll : W → F → ℕ → ℕ → W × List (Effect F) × Outcome F) where
  -- A turn skips an empty slot, or polls the future in it.
  pub turn_cases {ℓ} :
      (P : Bool × W × Inner F → Type ℓ) (id : ℕ) (w : W) (s : Inner F)
      → (task_at id s ≡ none → P (Bool.false, w, s))
      → ((fut : F)
          → task_at id s ≡ some fut
          → P (
            Bool.true,
            (poll_task poll id fut w (taken_out id s)).0,
            (poll_task poll id fut w (taken_out id s)).1,
          ))
      → P (turn poll id w s)
  unfolding turn
  turn_cases P id w s skips polls = go (task_at id s) refl
    where
      go : (o : Option F) → task_at id s ≡ o → P (turn poll id w s)
      go none e = rw (e, turn) (skips e)
      go (some fut) e = rw (e, turn) (polls fut e)

  pub turn-Inv :
      (id : ℕ) (w : W) (s : Inner F)
      → Inv s
      → Inv (turn poll id w s).2 × ((turn poll id w s).2.now_ns ≡ s.now_ns)
  unfolding poll_task
  turn-Inv id w s v =
      turn_cases (λ r. Inv r.2 × (r.2.now_ns ≡ s.now_ns)) id w s (λ e. (v, refl))
        λ fut e.
          let (u, r) = taken_out-Inv id s e v in
          let (w', effects, outcome) = poll w fut id s.now_ns in
          let (u', r') = run_effects-Inv id effects (taken_out id s) u r in
          (
            settle-Inv id outcome _ u' r',
            clock-settle id outcome _ ∙ clock-run_effects id effects (taken_out id s),
          )

  -- The loop ends, or takes a turn with the first task that is ready.
  pub poll_ready_cases {ℓ} :
      (P : Option (Bool × W × Inner F) → Type ℓ) (fuel : ℕ) (any : Bool) (w : W) (s : Inner F)
      → (s.ready ≡ [] → P (some (any, w, s)))
      → ((id : ℕ) (rest : List ℕ)
          → s.ready ≡ id ∷ rest
          → let r = turn poll id w (record s { ready = rest }) in
            P (poll_ready poll fuel (any || r.0) r.1 r.2))
      → P (poll_ready poll (suc fuel) any w s)
  unfolding poll_ready
  poll_ready_cases P fuel any w s ends turns = go s.ready refl
    where
      go : (l : List ℕ) → s.ready ≡ l → P (poll_ready poll (suc fuel) any w s)
      go [] e =
          subst P (λ i. poll_ready poll (suc fuel) any w (record s { ready = sym e i }))
            (subst P (λ i. some (any, w, record s { ready = e i })) (ends e))
      go (id ∷ rest) e =
          subst P (λ i. poll_ready poll (suc fuel) any w (record s { ready = sym e i }))
            (turns id rest e)

  -- What each turn keeps holds when the loop ends, and then no task is ready.
  pub poll_ready_inv {ℓ} :
      (P : W → Inner F → Type ℓ)
      → ((id : ℕ) (rest : List ℕ) (w : W) (s : Inner F)
          → P w s
          → P
              (turn poll id w (record s { ready = rest })).1
              (turn poll id w (record s { ready = rest })).2)
      → (fuel : ℕ) (any : Bool) (w : W) (s : Inner F) → P w s
      → OnSome (λ r. P r.1 r.2 × (r.2.ready ≡ [])) (poll_ready poll fuel any w s)
  poll_ready_inv P keeps zero any w s h = unfold poll_ready in tt
  poll_ready_inv P keeps (suc fuel) any w s h =
      poll_ready_cases (OnSome (λ r. P r.1 r.2 × (r.2.ready ≡ []))) fuel any w s (λ e. (h, e))
        λ id rest e. poll_ready_inv P keeps fuel _ _ _ (keeps id rest w s h)
