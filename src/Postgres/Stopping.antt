-- ===== src/Postgres/Stopping.antt =====
-- lib/postgresMgr.js: `_stop`, signal by signal. `Postgres.Manager.stop_postgres` is the whole of it.
pub mod Answers
pub mod Signals
pub mod Refines
mod Tests
use manatee.Base.{
  ℕ, Text, codes, List, [], ◌∷◌, ◌++◌, Option, none, some, Bool, true, false, if◌then◌else◌,
}

pub data Signal : Type 0 where
  sigint sigquit sigkill : Signal

-- Which of the three nested timers is set.
pub data Stage : Type 0 where
  first second third over : Stage

-- `handle` says whether `_postgres` is set; `listening`, whether the listener for the exit is there;
-- `answers` are the calls of the callback that `once` lets through: an error, or none.
pub record Stop : Type 0 where
  pub handle : Bool
  pub listening : Bool
  pub successful : Bool
  pub stage : Stage
  pub signals : List Signal
  pub answers : List (Option Text)

pub data Event : Type 0 where
  exits timer : Event

unfoldable pub answer : Option Text → List (Option Text) → List (Option Text)
answer e [] = e ∷ []
answer e (f ∷ answers) = f ∷ answers

-- `_stop`, up to its return.
unfoldable pub begin_stop : Bool → Stop
begin_stop false = record {
  handle = false;
  listening = false;
  successful = false;
  stage = over;
  signals = [];
  answers = none ∷ [];
}
begin_stop true = record {
  handle = true;
  listening = true;
  successful = false;
  stage = first;
  signals = sigint ∷ [];
  answers = [];
}

-- The listener, which `postgres.once` removes.
on_exit : Stop → Stop
unfolding answer
on_exit s =
    if s.listening
    then record s {
      listening = false;
      handle = false;
      successful = true;
      answers = answer none s.answers;
    }
    else s

kill_unless_gone : Signal → Stop → Stop
kill_unless_gone signal s =
    if s.successful then s else record s { signals = s.signals ++ signal ∷ [] }

give_up : Stop → Stop
unfolding answer
give_up s =
    if s.successful
    then s
    else record s { listening = false; answers = answer (some (codes "SIGKILL failed")) s.answers }

on_timer : Stage → Stop → Stop
unfolding kill_unless_gone give_up
on_timer first s = record (kill_unless_gone sigquit s) { stage = second }
on_timer second s = record (kill_unless_gone sigkill s) { stage = third }
on_timer third s = record (give_up s) { stage = over }
on_timer over s = s

unfoldable pub step : Event → Stop → Stop
unfolding on_exit on_timer
step exits s = on_exit s
step timer s = on_timer s.stage s

unfoldable pub run : List Event → Stop → Stop
unfolding step
run [] s = s
run (e ∷ events) s = run events (step e s)
