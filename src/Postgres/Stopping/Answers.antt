-- ===== src/Postgres/Stopping/Answers.antt =====
-- lib/postgresMgr.js: how `_stop` ends.
use manatee.Base.{
  ℕ, suc, ◌-◌, ◌≤◌, codes, ◌≡◌, ◌⊎◌, inl, inr, refl, List, [], ◌∷◌, none, some, true, false, arith,
}
use manatee.Postgres.Stopping.{
  Stop, Stage, first, second, third, over, Event, exits, timer, Signal, sigint, sigquit, sigkill,
  answer, begin_stop, on_exit, on_timer, kill_unless_gone, give_up, step, run,
}

-- The signals that a process which is still there has got, and the timers that are left.
abbrev pub sent : Stage → List Signal
sent first = sigint ∷ []
sent second = sigint ∷ sigquit ∷ []
sent _ = sigint ∷ sigquit ∷ sigkill ∷ []

abbrev pub left : Stage → ℕ
left first = 3
left second = 2
left third = 1
left over = 0

-- The process has exited, and the caller knows.
abbrev pub HasStopped : Stop → Type 0
HasStopped s =
    (s.successful ≡ true) × (s.listening ≡ false) × (s.handle ≡ false) × (s.answers ≡ none ∷ [])

-- The process is still waited for.
abbrev pub IsWaiting : Stop → Type 0
IsWaiting s =
    (s.successful ≡ false)
    × (s.listening ≡ true)
    × (s.handle ≡ true)
    × (s.answers ≡ [])
    × (s.signals ≡ sent s.stage)
    × (1 ≤ left s.stage)

-- All three signals were sent in vain: the caller gets the error, and the handle stays.
abbrev pub HasFailed : Stop → Type 0
HasFailed s =
    (s.successful ≡ false)
    × (s.listening ≡ false)
    × (s.handle ≡ true)
    × (s.answers ≡ some (codes "SIGKILL failed") ∷ [])
    × (s.signals ≡ sigint ∷ sigquit ∷ sigkill ∷ [])

abbrev pub IsValid : Stop → Type 0
IsValid s = HasStopped s ⊎ IsWaiting s ⊎ (HasFailed s × (s.stage ≡ over))

step-IsValid : (e : Event) (g : Stage) (s : Stop) → s.stage ≡ g → IsValid s → IsValid (step e s)
unfolding step on_exit answer on_timer kill_unless_gone give_up
step-IsValid exits g s e (inl v) = inl (ground arith)
step-IsValid exits g s e (inr (inl v)) = inl (ground arith)
step-IsValid exits g s e (inr (inr v)) = inr (inr (ground arith))
step-IsValid timer first s e v = ground arith
step-IsValid timer second s e v = ground arith
step-IsValid timer third s e v = ground arith
step-IsValid timer over s e v = ground arith

pub run-IsValid : (events : List Event) (s : Stop) → IsValid s → IsValid (run events s)
unfolding run
run-IsValid [] s v = v
run-IsValid (e ∷ events) s v = run-IsValid events (step e s) (step-IsValid e s.stage s refl v)

abbrev pub timers : List Event → ℕ
timers [] = 0
timers (exits ∷ events) = timers events
timers (timer ∷ events) = suc (timers events)

step-left :
    (e : Event) (g : Stage) (s : Stop)
    → s.stage ≡ g
    → left (step e s).stage ≡ left g - timers (e ∷ [])
unfolding step on_exit on_timer kill_unless_gone give_up
step-left exits g s e = ground arith
step-left timer first s e = ground arith
step-left timer second s e = ground arith
step-left timer third s e = ground arith
step-left timer over s e = ground arith

run-left :
    (events : List Event) (s : Stop) → left (run events s).stage ≡ left s.stage - timers events
unfolding run
run-left [] s = omega arith
run-left (exits ∷ events) s =
    omega (arith, run-left events (step exits s), step-left exits s.stage s refl)
run-left (timer ∷ events) s =
    omega (arith, run-left events (step timer s), step-left timer s.stage s refl)

-- Once the three timers of a `_stop` have fired, whenever the process exits, the callback was called,
-- once: without an error where the process has exited and its handle is dropped, or else with an error
-- after SIGINT, SIGQUIT and SIGKILL were sent, in this order, with the handle kept.
pub run-answers :
    (events : List Event)
    → 3 ≤ timers events
    → let s = run events (begin_stop true) in HasStopped s ⊎ HasFailed s
unfolding begin_stop
run-answers events h = ground (
  arith,
  run-IsValid events (begin_stop true) (inr (inl (ground arith))),
  run-left events (begin_stop true),
)
