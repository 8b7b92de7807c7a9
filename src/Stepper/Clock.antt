-- ===== src/Stepper/Clock.antt =====
-- The clock of a stepper: where each command leaves it.
use ndn_sim.Prelude.{
  ap, ℕ, zero, suc, ◌+◌, ◌*◌, ◌≤◌, ◌<◌, ◌≡◌, refl, ◌⊎◌, inl, inr, ◌∙◌, List, [], ◌∷◌, none, some,
  ◌>>=◌, arith, Returns, Returns->>=, Returns-mono, sat_add, sat_mul, u64_max,
}
use ndn_sim.Des.{Inner, Effect, Outcome, now_ns, step, run_until}
use ndn_sim.Des.Slots.{Inv}
use ndn_sim.Des.Work.{potential, IsBounded, potential-Jump}
use ndn_sim.Des.Session.{Stepped, IsQuiescent, run_until-Ended, step-Stepped}
use ndn_sim.Stepper.{
  Stepper, Command, cmd_blank, cmd_step, cmd_run, cmd_until, cmd_show, cmd_quit, unwrap_or, now,
  elapsed_ms, step_once, run_to, run_for_ms, steps, run_command, prompt, session_log,
}

-- A list of clocks that starts at `t` or later and never runs backward.
abbrev pub Rises : ℕ → List ℕ → Type 0
Rises t [] = Unit
Rises t (c ∷ cs) = (t ≤ c) × Rises c cs

-- A stepper of the same session at the same time or later, with no more work left.
pub record Later {W F : Type 0} (work : F → ℕ) (st st' : Stepper W F) : Type 0 where
  pub inv : Inv st'.session
  pub less : potential work st'.session ≤ potential work st.session
  pub clock : st.session.now_ns ≤ st'.session.now_ns
  pub start : st'.start_ns ≡ st.start_ns

module _ {W F : Type 0} (poll : W → F → ℕ → ℕ → W × List (Effect F) × Outcome F) (work : F → ℕ)
    (bounded : IsBounded work poll) (rounds fuel epoch : ℕ) where
  -- The session is well formed and its work is below the fuel.
  abbrev IsFueled : Stepper W F → Type 0
  IsFueled st =
      Inv st.session × (potential work st.session < rounds) × (potential work st.session < fuel)

  Later-IsFueled : (st st' : Stepper W F) → IsFueled st → Later work st st' → IsFueled st'
  Later-IsFueled st st' v l = (l.inv, omega (arith, l.less, v.1), omega (arith, l.less, v.1))

  Later-trans : (a b c : Stepper W F) → Later work a b → Later work b c → Later work a c
  Later-trans a b c l k = record {
    inv = k.inv;
    less = omega (arith, k.less, l.less);
    clock = omega (arith, k.clock, l.clock);
    start = k.start ∙ l.start;
  }

  Later-elapsed :
      (st st' : Stepper W F)
      → Later work st st'
      → elapsed_ms poll rounds fuel epoch st ≤ elapsed_ms poll rounds fuel epoch st'
  unfolding now_ns
  Later-elapsed st st' l = omega (arith, l.clock, l.start)

  Later-refl : (st : Stepper W F) → IsFueled st → Later work st st
  Later-refl st v = record { inv = v.0; less = omega arith; clock = omega arith; start = refl }

  Later-Stepped :
      (st : Stepper W F) (r : W × Inner F)
      → Stepped poll work fuel st.fabric st.session r
      → Later work st (record st { session = r.1; fabric = r.0 })
  Later-Stepped st r (any, w', m, e, p, t, inl (idle, same), again, f, q) =
      let clock : t.now_ns ≡ m.now_ns = ap (λ z. z.now_ns) same in
      let work_left : potential work t ≡ potential work m = ap (potential work) same in
      record {
        inv = q.inv;
        less = omega (arith, work_left, p.less, q.less);
        clock = omega (arith, clock, p.clock, q.clock);
        start = refl;
      }
  Later-Stepped st r (any, w', m, e, p, t, inr j, again, f, q) = record {
    inv = q.inv;
    less = omega (arith, potential-Jump work m t j, p.less, q.less);
    clock = omega (arith, p.clock, j.moved, q.clock);
    start = refl;
  }

  step_once-Later :
      (st : Stepper W F)
      → IsFueled st
      → Returns (Later work st) (step_once poll rounds fuel epoch st)
  unfolding step_once
  step_once-Later st v =
      Returns->>= _ _ (step poll fuel st.fabric st.session) _
        (step-Stepped poll work bounded fuel st.fabric st.session v.0 v.2)
        λ r p. Later-Stepped st r p

  -- A run to a target reaches it, or nothing is left to wait for.
  run_to-Ended :
      (target : ℕ) (st : Stepper W F)
      → IsFueled st
      → Returns
          (λ st'.
            Later work st st'
            × ((target ≤ now poll rounds fuel epoch st') ⊎ IsQuiescent st'.session))
          (run_to poll rounds fuel epoch target st)
  unfolding run_to
  run_to-Ended target st v =
      Returns->>= _ _ (run_until poll rounds fuel epoch target st.fabric st.session) _
        (run_until-Ended poll work bounded rounds fuel epoch target st.fabric st.session v.0 v.1
          v.2)
        λ r e. (record { inv = e.inv; less = e.less; clock = e.clock; start = refl }, e.because)

  steps-Later :
      (n : ℕ) (st : Stepper W F)
      → IsFueled st
      → Returns (Later work st) (steps poll rounds fuel epoch n st)
  unfolding steps
  steps-Later zero st v = Later-refl st v
  steps-Later (suc n) st v =
      Returns->>= _ _ (step_once poll rounds fuel epoch st) _ (step_once-Later st v) λ st' l.
        Returns-mono _ _ (steps poll rounds fuel epoch n st') (λ u k. Later-trans st st' u l k)
          (steps-Later n st' (Later-IsFueled st st' v l))

  run_to-Later :
      (target : ℕ) (st : Stepper W F)
      → IsFueled st
      → Returns (Later work st) (run_to poll rounds fuel epoch target st)
  run_to-Later target st v =
      Returns-mono _ _ (run_to poll rounds fuel epoch target st) (λ u k. k.0)
        (run_to-Ended target st v)

  run_command-Later :
      (c : Command) (st : Stepper W F)
      → IsFueled st
      → Returns (Later work st) (run_command poll rounds fuel epoch c st)
  unfolding run_command
  run_command-Later cmd_blank st v = Later-refl st v
  run_command-Later (cmd_step n) st v = steps-Later (unwrap_or n 1) st v
  run_command-Later (cmd_run ms) st v = run_to-Later _ st v
  run_command-Later (cmd_until none) st v = Later-refl st v
  run_command-Later (cmd_until (some ms)) st v = run_to-Later _ st v
  run_command-Later cmd_show st v = Later-refl st v
  run_command-Later cmd_quit st v = Later-refl st v

  -- What a line adds to the clocks that the later lines print.
  prompt-line :
      (c : Command) (rest : List Command) (st : Stepper W F)
      → IsFueled st
      → ((st' : Stepper W F)
          → IsFueled st'
          → Returns
              (Rises (elapsed_ms poll rounds fuel epoch st'))
              (prompt poll rounds fuel epoch rest st'))
      → Returns (Rises (elapsed_ms poll rounds fuel epoch st)) (
          run_command poll rounds fuel epoch c st >>= λ st'.
          prompt poll rounds fuel epoch rest st' >>= λ clocks.
          some (elapsed_ms poll rounds fuel epoch st' ∷ clocks))
  prompt-line c rest st v ih =
      Returns->>= _ _ (run_command poll rounds fuel epoch c st) _ (run_command-Later c st v)
        λ st' l.
          Returns->>= _ _ (prompt poll rounds fuel epoch rest st') _
            (ih st' (Later-IsFueled st st' v l)) λ clocks r. (Later-elapsed st st' l, r)

  prompt-Rises :
      (lines : List Command) (st : Stepper W F)
      → IsFueled st
      → Returns
          (Rises (elapsed_ms poll rounds fuel epoch st))
          (prompt poll rounds fuel epoch lines st)
  unfolding prompt
  prompt-Rises [] st v = tt
  prompt-Rises (cmd_quit ∷ rest) st v = tt
  prompt-Rises (cmd_show ∷ rest) st v = prompt-Rises rest st v
  prompt-Rises (cmd_blank ∷ rest) st v = prompt-line cmd_blank rest st v (prompt-Rises rest)
  prompt-Rises (cmd_step n ∷ rest) st v = prompt-line (cmd_step n) rest st v (prompt-Rises rest)
  prompt-Rises (cmd_run n ∷ rest) st v = prompt-line (cmd_run n) rest st v (prompt-Rises rest)
  prompt-Rises (cmd_until n ∷ rest) st v = prompt-line (cmd_until n) rest st v (prompt-Rises rest)

  -- With finite work a session at the prompt always ends, and the clocks it prints never run
  -- backward.
  pub session_log-Rises :
      (lines : List Command) (st : Stepper W F)
      → Inv st.session
      → potential work st.session < rounds
      → potential work st.session < fuel
      → Returns
          (Rises (elapsed_ms poll rounds fuel epoch st))
          (session_log poll rounds fuel epoch lines st)
  unfolding session_log
  session_log-Rises lines st v h k =
      Returns->>= _ _ (prompt poll rounds fuel epoch lines st) _ (prompt-Rises lines st (v, h, k))
        λ clocks r. (omega arith, r)

  -- With finite work `run_for_ms` ends, and unless nothing is left to wait for the clock has moved on
  -- by that many milliseconds, as far as 64 bits go.
  pub run_for_ms-Reached :
      (ms : ℕ) (st : Stepper W F)
      → Inv st.session
      → potential work st.session < rounds
      → potential work st.session < fuel
      → st.start_ns ≤ now poll rounds fuel epoch st
      → now poll rounds fuel epoch st + ms * 1000000 ≤ u64_max
      → Returns
          (λ st'.
            (elapsed_ms poll rounds fuel epoch st + ms ≤ elapsed_ms poll rounds fuel epoch st')
            ⊎ IsQuiescent st'.session)
          (run_for_ms poll rounds fuel epoch ms st)
  run_for_ms-Reached ms st v h k started room =
      Returns-mono _ _ (run_for_ms poll rounds fuel epoch ms st)
        (λ st' r. elim r.1 [ inl reached ↦ inl (omega (arith, r.0.start)) | inr quiet ↦ inr quiet ])
        (run_to-Ended (sat_add (now poll rounds fuel epoch st) (sat_mul ms 1000000)) st (v, h, k))
