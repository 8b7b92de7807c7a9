-- ===== src/Des/Examples.antt =====
-- Runs of the executor with tasks that sleep and then write the time into a log.
use ndn_sim.Prelude.{
  ℕ, ◌+◌, ◌≤◌, ◌<◌, ◌≡◌, refl, ◌↔◌, ◌⊎◌, inl, true, false, List, [], ◌∷◌, ◌++◌, none, some, arith,
  if◌then◌else◌, leb, Returns, length, u64_max,
}
use ndn_sim.Des.{
  Timer, Inner, Sleep, Effect, sleeps, Outcome, finished, pending, start, spawn, turn, poll_ready,
  task_at, poll_task, settle, run_effects, run_effect, wake, wake_all, pop_due, step, sleep,
  sleep_poll, run_until, drive_until, push_timer, advance_to_next_event, now_ns,
}
use ndn_sim.Des.Timers.{Ordered}
use ndn_sim.Des.Slots.{Inv, start-Inv, spawn-Inv}
use ndn_sim.Des.Loop.{turn-Inv}
use ndn_sim.Des.Clock.{Jump, advance-Jump}
use ndn_sim.Des.Work.{IsBounded, potential}
use ndn_sim.Des.Deadline.{sleep_fires}
use ndn_sim.Des.Session.{Ended, Stepped, drive_until-Ended, run_until-Ended, step-Stepped}

-- A task that is about to sleep for a time, or until one.
data Task : Type 0 where
  nap : ℕ → Task
  asleep : ℕ → Task

abbrev run_task : List ℕ → Task → ℕ → ℕ → List ℕ × List (Effect Task) × Outcome Task
run_task log (nap d) id now = (log, sleeps (now + d) ∷ [], pending (asleep (now + d)))
run_task log (asleep t) id now =
    if leb t now then (log ++ now ∷ [], [], finished) else (log, [], pending (asleep t))

abbrev work : Task → ℕ
work (nap d) = 2
work (asleep t) = 0

run_task-IsBounded : IsBounded work run_task
run_task-IsBounded w (nap d) id now = omega arith
run_task-IsBounded w (asleep t) id now = ground arith

-- Three sleepers, as in the source's own tests.
abbrev three : Inner Task
three = spawn (nap 20) (spawn (nap 10) (spawn (nap 30) start))

three-Inv : Inv three
three-Inv = spawn-Inv _ _ (spawn-Inv _ _ (spawn-Inv _ _ start-Inv))

potential-three : potential work three ≡ 9
unfolding potential spawn start
potential-three = refl

-- They wake in the order of time.
run_three :
    run_until run_task 20 20 0 100 [] three
    ≡ some (
      10 ∷ 20 ∷ 30 ∷ [],
      record {
        now_ns = 30;
        tasks = none ∷ none ∷ none ∷ [];
        ready = [];
        free = 0 ∷ 2 ∷ 1 ∷ [];
        timers = [];
        seq = 3;
      },
    )
unfolding run_until poll_ready turn task_at poll_task settle run_effects run_effect now_ns
    push_timer advance_to_next_event wake_all pop_due spawn start
run_three = refl

at_most_20 : potential work three < 20
at_most_20 = rw potential-three (omega arith)

run_until-Ended_example :
    Returns (λ r. Ended work (15 ≤ now_ns 0 r.1) three r.1) (run_until run_task 20 20 0 15 [] three)
run_until-Ended_example =
    run_until-Ended run_task work run_task-IsBounded 20 20 0 15 [] three three-Inv at_most_20
      at_most_20

drive_until-Ended_example :
    Returns
      (λ r. Ended work (leb 2 (length r.0) ≡ true) three r.1)
      (drive_until run_task 20 20 (λ log. leb 2 (length log)) [] three)
drive_until-Ended_example =
    drive_until-Ended run_task work run_task-IsBounded 20 20 (λ log. leb 2 (length log)) [] three
      three-Inv at_most_20 at_most_20

step-Stepped_example : Returns (Stepped run_task work 20 [] three) (step run_task 20 [] three)
step-Stepped_example =
    step-Stepped run_task work run_task-IsBounded 20 [] three three-Inv at_most_20

turn-Inv_example :
    Inv (turn run_task 1 [] three).2 × ((turn run_task 1 [] three).2.now_ns ≡ three.now_ns)
turn-Inv_example = turn-Inv run_task 1 [] three three-Inv

-- The executor with one timer pending.
abbrev dozing : Inner Task
dozing = (turn run_task 1 [] three).2

dozing-Inv : Inv dozing
dozing-Inv = (turn-Inv run_task 1 [] three three-Inv).0

advance-Jump_example :
    ((dozing.timers ≡ []) × (advance_to_next_event dozing ≡ none))
    ⊎ ((s' : Inner Task) × (advance_to_next_event dozing ≡ some s') × Inv s' × Jump dozing s')
advance-Jump_example = advance-Jump dozing dozing-Inv

abbrev queue : List Timer
queue =
    record { deadline = 10; seq = 0; task = 4 } ∷ record { deadline = 30; seq = 1; task = 5 } ∷ []

abbrev late : Timer
late = record { deadline = 10; seq = 2; task = 6 }

queue-Ordered : Ordered queue
queue-Ordered = ((inl (omega arith), tt), (tt, tt))

abbrev fresh : Sleep
fresh = record { deadline = 10; registered = false }

three_early : three.now_ns < 10
unfolding spawn wake start
three_early = omega arith

dozing_early : dozing.now_ns ≤ u64_max
dozing_early = rw (turn-Inv run_task 1 [] three three-Inv).1 (omega (arith, three_early))

sleep_fires_example :
    ((sleep_poll (sleep 5 (start {F = Task})) 0 dozing).0 ≡ true)
    ↔ (((start {F = Task}).now_ns + 5 ≤ dozing.now_ns) ⊎ (dozing.now_ns ≡ u64_max))
sleep_fires_example = sleep_fires 5 0 start dozing (omega arith) dozing_early
