-- ===== src/Postgres/Stopping/Signals.antt =====
-- lib/postgresMgr.js: which signals `_stop` sends, and how it ends, by when the process exits.
use manatee.Base.{
  ℕ, suc, ◌+◌, ◌≤◌, Text, codes, ◌≡◌, ◌⊎◌, inl, inr, refl, sym, subst, List, [], ◌∷◌, Option, none,
  some, true, false, leb, take, if◌then◌else◌, arith,
}
use manatee.Postgres.Stopping.{
  Stop, Stage, first, second, third, over, Event, exits, timer, sigint, sigquit, sigkill,
  begin_stop, answer, on_exit, on_timer, kill_unless_gone, give_up, step, run,
}
use manatee.Postgres.Stopping.Answers.{timers, sent}

-- How many of the timers fire before the process exits.
abbrev pub survived : List Event → ℕ
survived [] = 0
survived (exits ∷ events) = 0
survived (timer ∷ events) = suc (survived events)

-- What comes of a process that exits after `n` of the timers, if it does: it gets one signal more than
-- it has survived timers, of three in all, and has outlived the third if it is still there then.
abbrev pub kill_error : ℕ → Option Text
kill_error n = if leb 3 n then some (codes "SIGKILL failed") else none

abbrev pub Meets : ℕ → Stop → Type 0
Meets n s =
    (s.signals ≡ take (suc n) (sigint ∷ sigquit ∷ sigkill ∷ []))
    × (s.answers ≡ kill_error n ∷ [])
    × (s.handle ≡ leb 3 n)

-- Nothing is waited for any more.
abbrev IsStill : Stop → Type 0
IsStill s = (s.listening ≡ false) × ((s.successful ≡ true) ⊎ (s.stage ≡ over))

abbrev Same : Stop → Stop → Type 0
Same s t = (t.signals ≡ s.signals) × (t.answers ≡ s.answers) × (t.handle ≡ s.handle)

step-IsStill :
    (e : Event) (g : Stage) (s : Stop)
    → s.stage ≡ g
    → IsStill s
    → IsStill (step e s) × Same s (step e s)
unfolding step on_exit on_timer kill_unless_gone give_up
step-IsStill exits g s e h = ground arith
step-IsStill timer first s e h = ground arith
step-IsStill timer second s e h = ground arith
step-IsStill timer third s e h = ground arith
step-IsStill timer over s e h = ground arith

run-Meets :
    (n : ℕ) (events : List Event) (s : Stop) → IsStill s → Meets n s → Meets n (run events s)
unfolding run
run-Meets n [] s h m = m
run-Meets n (e ∷ events) s h m =
    let (h', same) = step-IsStill e s.stage s refl h in
    run-Meets n events (step e s) h' (ground arith)

-- Waiting, with the timer of a stage set.
abbrev waiting : Stage → Stop
waiting g = record (begin_stop true) { stage = g; signals = sent g }

-- From the third timer on the process has got all signals.
late-Meets :
    (k : ℕ) (s : Stop)
    → s.signals ≡ sigint ∷ sigquit ∷ sigkill ∷ []
    → s.answers ≡ some (codes "SIGKILL failed") ∷ []
    → s.handle ≡ true
    → Meets (suc (suc (suc k))) s
late-Meets k s e f g = ground arith

three_more : (k n : ℕ) → n ≡ 2 + suc k → suc (suc (suc k)) ≡ n
three_more k n e = omega (arith, e)

third-Meets :
    (events : List Event) (n : ℕ)
    → 1 ≤ timers events
    → n ≡ 2 + survived events
    → Meets n (run events (waiting third))
unfolding run step on_exit on_timer kill_unless_gone give_up answer begin_stop
third-Meets [] n t e = ground arith
third-Meets (exits ∷ events) n t e =
    subst (λ m. Meets m (run (exits ∷ events) (waiting third))) (sym e)
      (run-Meets 2 events (step exits (waiting third)) (refl, inl refl) (refl, refl, refl))
third-Meets (timer ∷ events) n t e =
    let k = survived events in
    subst (λ m. Meets m (run (timer ∷ events) (waiting third))) (three_more k n e)
      (run-Meets (suc (suc (suc k))) events (step timer (waiting third)) (refl, inr refl)
        (late-Meets k (step timer (waiting third)) refl refl refl))

second-Meets :
    (events : List Event) (n : ℕ)
    → 2 ≤ timers events
    → n ≡ 1 + survived events
    → Meets n (run events (waiting second))
unfolding run step on_exit on_timer kill_unless_gone answer begin_stop
second-Meets [] n t e = ground arith
second-Meets (exits ∷ events) n t e =
    subst (λ m. Meets m (run (exits ∷ events) (waiting second))) (sym e)
      (run-Meets 1 events (step exits (waiting second)) (refl, inl refl) (refl, refl, refl))
second-Meets (timer ∷ events) n t e = third-Meets events n (omega (arith, t)) (omega (arith, e))

-- Once the three timers of a `_stop` have fired, it has sent a process that was there one signal more than
-- the timers that it has survived, of SIGINT, SIGQUIT and SIGKILL in this order, has called back once, and
-- keeps its handle and reports an error exactly if it is still there after the third.
pub run-begin_stop :
    (events : List Event)
    → 3 ≤ timers events
    → Meets (survived events) (run events (begin_stop true))
unfolding run step on_exit on_timer kill_unless_gone answer begin_stop
run-begin_stop [] t = ground arith
run-begin_stop (exits ∷ events) t =
    run-Meets 0 events (step exits (waiting first)) (refl, inl refl) (refl, refl, refl)
run-begin_stop (timer ∷ events) t =
    second-Meets events (suc (survived events)) (omega (arith, t)) (omega arith)
