-- ===== src/Postgres/Stopping/Refines.antt =====
-- lib/postgresMgr.js: what `Postgres.Manager.stop_postgres` says of `_stop` in one step.
use manatee.Base.{
  ℕ, suc, take, Text, ◌≡◌, ◌≤◌, refl, List, [], ◌∷◌, Option, none, some, Bool, true, false, arith,
  Outcome, ok, err,
}
use manatee.Host.{Host, kill_postgres}
use manatee.Postgres.Manager.{Mgr, stop_postgres}
use manatee.Postgres.Stopping.{
  Stop, Signal, sigint, sigquit, sigkill, Event, exits, timer, begin_stop, run, step, on_exit,
  on_timer,
}
use manatee.Postgres.Stopping.Answers.{timers}
use manatee.Postgres.Stopping.Signals.{survived, kill_error, run-begin_stop}

-- The outcome of an operation whose callback gets an error, or none.
abbrev pub outcome_of : Option Text → Outcome Text (Unit {0})
outcome_of none = ok tt
outcome_of (some e) = err e

-- Without a process nothing happens.
run-idle : (events : List Event) → run events (begin_stop false) ≡ begin_stop false
unfolding run step on_exit on_timer begin_stop
run-idle [] = refl
run-idle (exits ∷ events) = run-idle events
run-idle (timer ∷ events) = run-idle events

-- What the callback got first.
abbrev pub answer_of : Stop → Option Text
answer_of s = elim s.answers [ [] ↦ none | e ∷ rest ↦ e ]

-- What both say: the callback is called once, its error decides the outcome, and the handle is the same.
abbrev pub Agrees : Outcome Text (Unit {0}) × Mgr → Stop → Type 0
Agrees (r, m) s =
    (s.answers ≡ answer_of s ∷ []) × ((r ≡ outcome_of (answer_of s)) × (m.postgres ≡ s.handle))

-- The signals that are sent to a process, if there is one, that survives `n` of the timers.
abbrev pub signals_for : Bool → ℕ → List Signal
signals_for false n = []
signals_for true n = take (suc n) (sigint ∷ sigquit ∷ sigkill ∷ [])

stop_postgres-Agrees :
    (host : Host) (m : Mgr) (events : List Event) (b : Bool)
    → m.postgres ≡ b
    → 3 ≤ timers events
    → host m.log kill_postgres ≡ kill_error (survived events)
    → Agrees (stop_postgres host m) (run events (begin_stop b))
      × ((run events (begin_stop b)).signals ≡ signals_for b (survived events))
unfolding stop_postgres begin_stop
stop_postgres-Agrees host m events false p t h = rw (run-idle events) (ground arith)
stop_postgres-Agrees host m events true p t h = ground (arith, run-begin_stop events t)

-- Let the command that kills the process fail exactly if the process is still there when the third timer
-- of `_stop` fires. Then the signals and timers do what the manager's operations take them for, that one
-- command: once the three timers have fired, whenever the process exits, the callback was called once,
-- with the outcome of the command, and the handle is left as the command leaves it. A process that is
-- there gets SIGINT, SIGQUIT and SIGKILL in this order, one for the start and one for each timer survived.
pub stop_postgres-run :
    (host : Host) (m : Mgr) (events : List Event)
    → 3 ≤ timers events
    → host m.log kill_postgres ≡ kill_error (survived events)
    → Agrees (stop_postgres host m) (run events (begin_stop m.postgres))
      × ((run events (begin_stop m.postgres)).signals ≡ signals_for m.postgres (survived events))
stop_postgres-run host m events t h = stop_postgres-Agrees host m events m.postgres refl t h
