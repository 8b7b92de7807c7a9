-- ===== src/Stepper.antt =====
-- crates/ndn-sim/src/stepper.rs: a fabric on a session of the event queue, advanced by hand, and the
-- prompt of crates/ndn-sim/src/bin/ndn-lab.rs that does so. The fabric is the world `W` that the
-- futures share.
use ndn_sim.Prelude.{
  ℕ, zero, suc, ◌-◌, ◌/◌, Bool, true, false, List, [], ◌∷◌, Option, none, some, ◌>>=◌, sat_add,
  sat_mul,
}
use ndn_sim.Des.{
  Inner, Effect, Outcome, now_ns, step, run_until, block_on, Driven, fuel_out, deadlock, returned,
}
mod Clock
mod Examples

pub record Stepper (W F : Type 0) : Type 0 where
  pub session : Inner F
  pub fabric : W
  pub start_ns : ℕ

-- How `Stepper::build` ends: the session's future can deadlock, a panic, or give an error.
pub data Built (W F : Type 0) : Type 0 where
  no_fuel panic error : Built W F
  built : Stepper W F → Built W F

-- A line at the prompt, its argument parsed; no argument, or one that is no number, is `none`.
pub data Command : Type 0 where
  cmd_blank : Command
  cmd_step : Option ℕ → Command
  cmd_run : Option ℕ → Command
  cmd_until : Option ℕ → Command
  cmd_show : Command
  cmd_quit : Command

-- `unwrap_or`.
abbrev pub unwrap_or : Option ℕ → ℕ → ℕ
unwrap_or none d = d
unwrap_or (some n) d = n

module _ {W F : Type 0} (poll : W → F → ℕ → ℕ → W × List (Effect F) × Outcome F)
    (rounds fuel epoch : ℕ) where
  -- `is_built` reads whether the building future left a fabric or an error.
  abbrev pub build : (W → Bool) → (W → Bool) → F → W → Inner F → Built W F
  build done is_built fut w s = elim (block_on poll rounds fuel done fut w s) [
    | fuel_out ↦ no_fuel
    | deadlock ↦ panic
    | returned w' s' ↦ elim (is_built w') [
      | false ↦ error
      | true ↦ built (record { session = s'; fabric = w'; start_ns = now_ns epoch s' })
    ]
  ]

  abbrev pub now : Stepper W F → ℕ
  now st = now_ns epoch st.session

  abbrev pub elapsed_ms : Stepper W F → ℕ
  elapsed_ms st = (now st - st.start_ns) / 1000000

  unfoldable pub step_once : Stepper W F → Option (Stepper W F)
  step_once st = do
    (w, s) ← step poll fuel st.fabric st.session
    some (record st { session = s; fabric = w })

  -- `session.run_until(target)`.
  unfoldable pub run_to : ℕ → Stepper W F → Option (Stepper W F)
  run_to target st = do
    (w, s) ← run_until poll rounds fuel epoch target st.fabric st.session
    some (record st { session = s; fabric = w })

  abbrev pub run_for_ms : ℕ → Stepper W F → Option (Stepper W F)
  run_for_ms ms st = run_to (sat_add (now st) (sat_mul ms 1000000)) st

  abbrev pub run_until_ms : ℕ → Stepper W F → Option (Stepper W F)
  run_until_ms ms st = run_to (sat_add st.start_ns (sat_mul ms 1000000)) st

  -- `for _ in 0..n { stepper.step(); }`.
  unfoldable pub steps : ℕ → Stepper W F → Option (Stepper W F)
  steps zero st = some st
  steps (suc n) st = do st' ← step_once st; steps n st'

  -- One line of the prompt: the stepper after it and the clock it prints, if it prints one.
  unfoldable pub run_command : Command → Stepper W F → Option (Stepper W F)
  run_command cmd_blank st = some st
  run_command (cmd_step n) st = steps (unwrap_or n 1) st
  run_command (cmd_run ms) st = run_for_ms (unwrap_or ms 100) st
  run_command (cmd_until none) st = some st
  run_command (cmd_until (some ms)) st = run_until_ms ms st
  run_command cmd_show st = some st
  run_command cmd_quit st = some st

  -- `cmd_step`: the clocks that the lines print, up to the line that quits.
  unfoldable pub prompt : List Command → Stepper W F → Option (List ℕ)
  prompt [] st = some []
  prompt (cmd_quit ∷ rest) st = some []
  prompt (cmd_show ∷ rest) st = prompt rest st
  prompt (cmd ∷ rest) st = do
    st' ← run_command cmd st
    clocks ← prompt rest st'
    some (elapsed_ms st' ∷ clocks)

  unfoldable pub session_log : List Command → Stepper W F → Option (List ℕ)
  session_log lines st = do clocks ← prompt lines st; some (elapsed_ms st ∷ clocks)
