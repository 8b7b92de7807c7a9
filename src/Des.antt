-- ===== src/Des.antt =====
-- The discrete-event executor of crates/ndn-sim/src/des.rs: its event queue, its task slots, the
-- loops that drive them, and the session that steps it event by event.
--
-- The heap of `Reverse<TimerEntry>` is a list in the order in which the heap pops. A waker is the
-- id of the task that `TaskWaker` pushes on the ready queue. The mutex is the threading of `Inner`.
-- A task's future is code outside this file: `poll` is a parameter, and what a poll does to the
-- executor is the list of calls that it makes of it (the fields of `Inner` are private). `W` is
-- whatever else the futures share. A loop takes fuel, and `none` means that the fuel ran out.
pub mod Timers
pub mod Slots
pub mod Loop
pub mod Clock
pub mod Deadline
pub mod Work
pub mod Session
mod Examples
use ndn_sim.Prelude.{
  ℕ, zero, suc, ◌+◌, Bool, true, false, ◌&&◌, ◌||◌, List, [], ◌∷◌, ◌++◌, Option, none, some,
  if◌then◌else◌, ltb, leb, ◌==◌, max, ◌>>=◌, length, get_elem?, set, u64, sat_add,
}

-- A pending timer: wake `task` once the clock reaches `deadline`; `seq` breaks ties.
pub record Timer : Type 0 where
  pub deadline : ℕ
  pub seq : ℕ
  pub task : ℕ

-- `TimerEntry::cmp`: by deadline, then by sequence number.
abbrev pub timer_lt : Timer → Timer → Bool
timer_lt t u = ltb t.deadline u.deadline || (t.deadline == u.deadline && ltb t.seq u.seq)

-- `timers.push`.
pub push_timer : Timer → List Timer → List Timer
push_timer t [] = t ∷ []
push_timer t (u ∷ us) = if timer_lt t u then t ∷ u ∷ us else u ∷ push_timer t us

-- The timers that the `while let` pops, in order, and those that it leaves.
pub pop_due : ℕ → List Timer → List Timer × List Timer
pop_due now [] = ([], [])
pop_due now (t ∷ ts) =
    let (popped, left) = pop_due now ts in
    if leb t.deadline now then (t ∷ popped, left) else ([], t ∷ ts)

pub record Inner (F : Type 0) : Type 0 where
  pub now_ns : ℕ
  pub tasks : List (Option F)
  pub ready : List ℕ
  pub free : List ℕ
  pub timers : List Timer
  pub seq : ℕ

-- A virtual sleep: registers its timer once.
pub record Sleep : Type 0 where
  pub deadline : ℕ
  pub registered : Bool

-- What a poll of a future asks of the executor, in order.
pub data Effect (F : Type 0) : Type 0 where
  spawns : F → Effect F
  sleeps : ℕ → Effect F
  wakes : ℕ → Effect F

-- What a poll returns; a pending future goes on as the given one.
pub data Outcome (F : Type 0) : Type 0 where
  finished : Outcome F
  pending : F → Outcome F

module _ {F : Type 0} where
  unfoldable pub start : Inner F
  start = record { now_ns = 0; tasks = []; ready = []; free = []; timers = []; seq = 0 }

  -- `TaskWaker::wake_by_ref`.
  pub wake : ℕ → Inner F → Inner F
  wake id s = record s { ready = s.ready ++ id ∷ [] }

  -- The last freed slot is the head of `free`.
  unfoldable pub spawn : F → Inner F → Inner F
  unfolding wake
  spawn fut s = elim s.free [
    | [] ↦ wake (length s.tasks) (record s { tasks = s.tasks ++ some fut ∷ [] })
    | i ∷ rest ↦ wake i (record s { free = rest; tasks = set s.tasks i (some fut) })
  ]

  -- `DesSleep::poll` by the task `id`: whether it is ready, the sleep, the executor.
  pub sleep_poll : Sleep → ℕ → Inner F → Bool × Sleep × Inner F
  sleep_poll z id s =
      if leb z.deadline s.now_ns then (true, z, s) else if z.registered then (false, z, s) else (
        false,
        record z { registered = true },
        record s {
          seq = u64 (s.seq + 1);
          timers = push_timer (record { deadline = z.deadline; seq = s.seq; task = id }) s.timers;
        },
      )

  pub run_effect : ℕ → Effect F → Inner F → Inner F
  unfolding wake spawn sleep_poll
  run_effect id (spawns fut) s = spawn fut s
  run_effect id (sleeps deadline) s =
      (sleep_poll (record { deadline = deadline; registered = false }) id s).2
  run_effect id (wakes other) s = wake other s

  pub run_effects : ℕ → List (Effect F) → Inner F → Inner F
  run_effects id [] s = s
  run_effects id (e ∷ es) s = run_effects id es (run_effect id e s)

  -- The two arms after a poll: a finished task frees its slot, a pending one goes back into it.
  pub settle : ℕ → Outcome F → Inner F → Inner F
  settle id finished s = record s { tasks = set s.tasks id none; free = id ∷ s.free }
  settle id (pending fut) s = record s { tasks = set s.tasks id (some fut) }

  -- The future in a slot, if there is one.
  pub task_at : ℕ → Inner F → Option F
  task_at id s = elim (get_elem? s.tasks id) [ none ↦ none | some fut ↦ fut ]

  pub wake_all : List Timer → Inner F → Inner F
  wake_all [] s = s
  wake_all (t ∷ ts) s = wake_all ts (wake t.task s)

  -- `none` if no timer is pending; the time that the source returns is the new state's clock.
  pub advance_to_next_event : Inner F → Option (Inner F)
  advance_to_next_event s = elim s.timers [
    | [] ↦ none
    | t ∷ ts ↦
        let now = max s.now_ns t.deadline in
        let (popped, left) = pop_due now (t ∷ ts) in
        some (wake_all popped (record s { now_ns = now; timers = left }))
  ]

  -- The jump with its answer ignored.
  pub jump : Inner F → Inner F
  jump s = elim (advance_to_next_event s) [ none ↦ s | some s' ↦ s' ]

-- `DesSession::now_ns` and `DesRuntime::unix_nanos`: the clock over the logical epoch.
unfoldable pub now_ns : {F : Type 0} → ℕ → Inner F → ℕ
now_ns epoch s = sat_add epoch s.now_ns

-- `DesRuntime::sleep`: the deadline of a sleep of `dur` nanoseconds; `as u64` cuts it to 64 bits.
pub sleep : {F : Type 0} → ℕ → Inner F → Sleep
sleep dur s = record { deadline = sat_add s.now_ns (u64 dur); registered = false }

pub data Driven (W F : Type 0) : Type 0 where
  fuel_out deadlock : Driven W F
  returned : W → Inner F → Driven W F

module _ {W F : Type 0} (poll : W → F → ℕ → ℕ → W × List (Effect F) × Outcome F) where
  -- One task polled with its slot empty: the future sees its id and the clock.
  pub poll_task : ℕ → F → W → Inner F → W × Inner F
  poll_task id fut w s =
      let (w', effects, outcome) = poll w fut id s.now_ns in
      (w', settle id outcome (run_effects id effects s))

  -- The loop's body after `pop_front`: whether a task was polled, and the state.
  pub turn : ℕ → W → Inner F → Bool × W × Inner F
  turn id w s = elim (task_at id s) [
    | none ↦ (false, w, s)
    | some fut ↦
        let (w', s') = poll_task id fut w (record s { tasks = set s.tasks id none }) in
        (true, w', s')
  ]

  pub poll_ready : ℕ → Bool → W → Inner F → Option (Bool × W × Inner F)
  poll_ready zero any w s = none
  poll_ready (suc fuel) any w s = elim s.ready [
    | [] ↦ some (any, w, s)
    | id ∷ rest ↦
        let (polled, w', s') = turn id w (record s { ready = rest }) in
        poll_ready fuel (any || polled) w' s'
  ]

  -- Each `poll_ready` gets `fuel`; the first number counts the rounds.
  pub drive_until : ℕ → ℕ → (W → Bool) → W → Inner F → Option (W × Inner F)
  drive_until zero fuel done w s = none
  drive_until (suc rounds) fuel done w s = do
    (any, w', s') ← poll_ready fuel false w s
    elim (done w') [
      | true ↦ some (w', s')
      | false ↦ elim (advance_to_next_event s') [
        | none ↦ some (w', s')
        | some s'' ↦ drive_until rounds fuel done w' s''
      ]
    ]

  -- `DesSession::step`: polls, jumps to the next event, polls.
  pub step : ℕ → W → Inner F → Option (W × Inner F)
  step fuel w s = do
    (any, w', s') ← poll_ready fuel false w s
    (again, v, u) ← poll_ready fuel false w' (jump s')
    some (v, u)

  -- `DesSession::run_until`: steps until the clock shows `target` or nothing is left to wait for.
  pub run_until : ℕ → ℕ → ℕ → ℕ → W → Inner F → Option (W × Inner F)
  run_until zero fuel epoch target w s = none
  run_until (suc rounds) fuel epoch target w s = elim (ltb (now_ns epoch s) target) [
    | false ↦ some (w, s)
    | true ↦ do
      (any, w', s') ← poll_ready fuel false w s
      elim (advance_to_next_event s') [
        | none ↦ some (w', s')
        | some s'' ↦ do
          (again, v, u) ← poll_ready fuel false w' s''
          run_until rounds fuel epoch target v u
      ]
  ]

  -- `DesSession::block_on` and `DesKernel::run`: the future writes its output into `W`, and
  -- `done` reads it. A future that does not complete is the panic of `expect`.
  pub block_on : ℕ → ℕ → (W → Bool) → F → W → Inner F → Driven W F
  block_on rounds fuel done fut w s = elim (drive_until rounds fuel done w (spawn fut s)) [
    | none ↦ fuel_out
    | some (w', s') ↦ elim (done w') [ true ↦ returned w' s' | false ↦ deadlock ]
  ]
