-- ===== src/Des/Timers.antt =====
-- The event queue: the order in which timers fire.
use ndn_sim.Prelude.{
  ℕ, ◌≤◌, ◌<◌, ◌≡◌, refl, ap, ◌⊎◌, inl, inr, true, false, List, [], ◌∷◌, ◌++◌, All, All-mono, arith,
  Bool-cases, leb,
}
use ndn_sim.Des.{Timer, timer_lt, push_timer, pop_due}

abbrev pub Before : Timer → Timer → Type 0
Before t u = (t.deadline < u.deadline) ⊎ ((t.deadline ≡ u.deadline) × (t.seq ≤ u.seq))

abbrev pub Ordered : List Timer → Type 0
Ordered [] = Unit
Ordered (t ∷ ts) = All (Before t) ts × Ordered ts

-- Later than the clock.
abbrev pub After : ℕ → Timer → Type 0
After now t = now < t.deadline

Before-trans : (t u v : Timer) → Before t u → Before u v → Before t v
Before-trans t u v h k = ground arith

pub All-push_timer :
    (P : Timer → Type 0) (t : Timer) (ts : List Timer) → P t → All P ts → All P (push_timer t ts)
unfolding push_timer
All-push_timer P t [] h hs = (h, tt)
All-push_timer P t (u ∷ us) h hs = elim (Bool-cases (timer_lt t u)) [
  | inl e ↦ rw e (h, hs)
  | inr e ↦ rw e (hs.0, All-push_timer P t us h hs.1)
]

timer_lt-Before : (t u : Timer) → timer_lt t u ≡ true → Before t u
timer_lt-Before t u h = ground arith

timer_lt-Before_not : (t u : Timer) → timer_lt t u ≡ false → Before u t
timer_lt-Before_not t u h = ground arith

pub push_timer-Ordered : (t : Timer) (ts : List Timer) → Ordered ts → Ordered (push_timer t ts)
unfolding push_timer
push_timer-Ordered t [] o = (tt, tt)
push_timer-Ordered t (u ∷ us) o = elim (Bool-cases (timer_lt t u)) [
  | inl e ↦
      let first = timer_lt-Before t u e in
      rw e ((first, All-mono (λ v h. Before-trans t u v first h) us o.0), o)
  | inr e ↦
      rw e (
        All-push_timer (Before u) t us (timer_lt-Before_not t u e) o.0,
        push_timer-Ordered t us o.1,
      )
]

-- A timer numbered after all those pending goes behind every timer due no later than it.
pub push_timer_fifo :
    (t : Timer) (ts : List Timer)
    → Ordered ts
    → All (λ u. u.seq < t.seq) ts
    → (front : List Timer) × (back : List Timer) × (ts ≡ front ++ back)
      × (push_timer t ts ≡ front ++ t ∷ back)
      × All (λ u. u.deadline ≤ t.deadline) front
      × All (λ u. t.deadline < u.deadline) back
unfolding push_timer
push_timer_fifo t [] o h = ([], [], refl, refl, tt, tt)
push_timer_fifo t (u ∷ us) o h = elim (Bool-cases (timer_lt t u)) [
  | inl e ↦
      let later : t.deadline < u.deadline = ground (arith, h.0) in
      rw e
        ([], u ∷ us, refl, refl, tt, (later, All-mono (λ v (b : Before u v). ground arith) us o.0))
  | inr e ↦
      let (front, back, split, pushed, fs, bs) = push_timer_fifo t us o.1 h.1 in
      rw e (
        u ∷ front,
        back,
        ap (◌∷◌ u) split,
        ap (◌∷◌ u) pushed,
        (ground (arith, timer_lt-Before_not t u e), fs),
        bs,
      )
]

-- What `pop_due` takes and leaves make up the queue, and all that it takes is due.
pub pop_due-append :
    (now : ℕ) (ts : List Timer)
    → (ts ≡ (pop_due now ts).0 ++ (pop_due now ts).1)
      × All (λ t. t.deadline ≤ now) (pop_due now ts).0
unfolding pop_due
pop_due-append now [] = (refl, tt)
pop_due-append now (t ∷ ts) = elim (Bool-cases (leb t.deadline now)) [
  | inl e ↦ rw e (ap (◌∷◌ t) (pop_due-append now ts).0, (ground arith, (pop_due-append now ts).1))
  | inr e ↦ rw e (refl, tt)
]

-- What it leaves is in order and later than the clock.
pub pop_due-left :
    (now : ℕ) (ts : List Timer)
    → Ordered ts
    → Ordered (pop_due now ts).1 × All (After now) (pop_due now ts).1
unfolding pop_due
pop_due-left now [] o = (tt, tt)
pop_due-left now (t ∷ ts) o = elim (Bool-cases (leb t.deadline now)) [
  | inl e ↦ rw e (pop_due-left now ts o.1)
  | inr e ↦
      let later : now < t.deadline = ground arith in
      rw e (o, (later, All-mono (λ u (b : Before t u). ground arith) ts o.0))
]
