-- ===== src/Stepper/Examples.antt =====
-- Runs of Stepper with three sleepers, which wait for 10, 20 and 30 milliseconds.
use ndn_sim.Prelude.{
  ℕ, ◌+◌, ◌<◌, ◌≡◌, refl, List, [], ◌∷◌, ◌++◌, none, some, arith, if◌then◌else◌, leb, Returns,
}
use ndn_sim.Des.{Inner, Effect, sleeps, Outcome, finished, pending, now_ns, start, spawn}
use ndn_sim.Des.Slots.{Inv, start-Inv, spawn-Inv}
use ndn_sim.Des.Work.{IsBounded, potential}
use ndn_sim.Stepper.{
  Stepper, Command, cmd_step, cmd_run, cmd_until, cmd_show, cmd_quit, elapsed_ms, session_log,
}
use ndn_sim.Stepper.Clock.{Rises, session_log-Rises}

-- A task that is about to sleep for a time, or until one.
data Task : Type 0 where
  nap : ℕ → Task
  asleep : ℕ → Task

abbrev run_task : List ℕ → Task → ℕ → ℕ → List ℕ × List (Effect Task) × Outcome Task
run_task log (nap d) id now = (log, sleeps (now + d) ∷ [], pending (asleep (now + d)))
run_task log (asleep t) id now =
    if leb t now then (log ++ now ∷ [], [], finished) else (log, [], pending (asleep t))

abbrev work : Task → ℕ
work (nap d) = 2
work (asleep t) = 0

run_task-IsBounded : IsBounded work run_task
run_task-IsBounded w (nap d) id now = omega arith
run_task-IsBounded w (asleep t) id now = ground arith

abbrev three : Inner Task
three = spawn (nap 20000000) (spawn (nap 10000000) (spawn (nap 30000000) start))

three-Inv : Inv three
three-Inv = spawn-Inv _ _ (spawn-Inv _ _ (spawn-Inv _ _ start-Inv))

potential-nine : potential work three ≡ 9
unfolding potential spawn start
potential-nine = refl

potential-three : potential work three < 20
potential-three = rw potential-nine (omega arith)

at_zero : now_ns 0 three ≡ 0
unfolding now_ns spawn start
at_zero = refl

abbrev stepper : Stepper (List ℕ) Task
stepper = record { session = three; fabric = []; start_ns = 0 }

-- One step, 3 ms, up to 25 ms, and lines that are not reached.
abbrev lines : List Command
lines =
    cmd_step none ∷ cmd_run (some 3) ∷ cmd_show ∷ cmd_until (some 25) ∷ cmd_quit ∷ cmd_run none ∷ []

session_log-Rises_example :
    Returns
      (Rises (elapsed_ms run_task 20 20 0 stepper))
      (session_log run_task 20 20 0 lines stepper)
session_log-Rises_example =
    session_log-Rises run_task work run_task-IsBounded 20 20 0 lines stepper three-Inv
      potential-three potential-three
