-- ===== src/Postgres/Health/Verdicts.antt =====
-- lib/postgresMgr.js: what the status says of the checks that were made.
use manatee.Base.{
  ◌-◌, ◌<◌, Text, ◌≡◌, List, [], ◌∷◌, Option, none, some, Bool, true, false, All, arith,
}
use manatee.Postgres.Health.{
  Health, Event, start, stop, interval, timer, reply, Notice, reset, healthy, unhealthy, step, run,
  is_due, on_timer, health_handler, start_health_check, stop_health_check, send_check,
  declare_unhealthy, Timeout,
}

-- The verdict and the error by the newest notice.
abbrev pub announced : List Notice → Option Bool × Option Text
announced [] = (none, none)
announced (reset ∷ rest) = (none, none)
announced (healthy ∷ rest) = (some true, none)
announced (unhealthy e ∷ rest) = (some false, some e)

abbrev pub IsAnnounced : Health → Type 0
IsAnnounced s = (s.verdict, s.last_error) ≡ announced s.notices

step-IsAnnounced :
    (timeout : Timeout) (e : Event) (s : Health) → IsAnnounced s → IsAnnounced (step timeout e s)
unfolding step start_health_check stop_health_check send_check on_timer health_handler
    declare_unhealthy
step-IsAnnounced timeout (start now) s h = ground arith
step-IsAnnounced timeout stop s h = ground arith
step-IsAnnounced timeout (interval now) s h = ground arith
step-IsAnnounced timeout (timer n now) s h = ground arith
step-IsAnnounced timeout (reply n none now) s h = ground arith
step-IsAnnounced timeout (reply n (some e) now) s h = ground arith

pub run-IsAnnounced :
    (timeout : Timeout) (events : List Event) (s : Health)
    → IsAnnounced s
    → IsAnnounced (run timeout events s)
unfolding run
run-IsAnnounced timeout [] s h = h
run-IsAnnounced timeout (e ∷ events) s h =
    run-IsAnnounced timeout events (step timeout e s) (step-IsAnnounced timeout e s h)

-- Neither a success nor a new start of the checks.
abbrev pub IsSilent : Event → Type 0
IsSilent (start now) = ⊥
IsSilent (reply n none now) = ⊥
IsSilent _ = Unit

-- A check whose timer fires in time, or one that fails when the last success is too long ago.
abbrev pub IsVerdict : Timeout → Health → Event → Type 0
IsVerdict timeout s (timer n now) = is_due n now s.timers ≡ true
IsVerdict timeout s (reply n (some e) now) = timeout < now - s.last_time
IsVerdict timeout s _ = ⊥

step-down :
    (timeout : Timeout) (e : Event) (s : Health)
    → IsVerdict timeout s e
    → (step timeout e s).verdict ≡ some false
unfolding step on_timer health_handler declare_unhealthy
step-down timeout (start now) s h = absurd h
step-down timeout stop s h = absurd h
step-down timeout (interval now) s h = absurd h
step-down timeout (timer n now) s h = ground arith
step-down timeout (reply n none now) s h = absurd h
step-down timeout (reply n (some e) now) s h = ground arith

step-stays_down :
    (timeout : Timeout) (e : Event) (s : Health)
    → IsSilent e
    → s.verdict ≡ some false
    → (step timeout e s).verdict ≡ some false
unfolding step stop_health_check send_check on_timer health_handler declare_unhealthy
step-stays_down timeout (start now) s h k = absurd h
step-stays_down timeout stop s h k = ground arith
step-stays_down timeout (interval now) s h k = ground arith
step-stays_down timeout (timer n now) s h k = ground arith
step-stays_down timeout (reply n none now) s h k = absurd h
step-stays_down timeout (reply n (some e) now) s h k = ground arith

run-stays_down :
    (timeout : Timeout) (events : List Event) (s : Health)
    → All IsSilent events
    → s.verdict ≡ some false
    → (run timeout events s).verdict ≡ some false
unfolding run
run-stays_down timeout [] s h k = k
run-stays_down timeout (e ∷ events) s h k =
    run-stays_down timeout events (step timeout e s) h.1 (step-stays_down timeout e s h.0 k)

pub run-down :
    (timeout : Timeout) (e : Event) (events : List Event) (s : Health)
    → IsVerdict timeout s e
    → All IsSilent events
    → (run timeout (e ∷ events) s).verdict ≡ some false
unfolding run
run-down timeout e events s h k =
    run-stays_down timeout events (step timeout e s) k (step-down timeout e s h)
