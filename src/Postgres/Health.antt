-- ===== src/Postgres/Health.antt =====
-- lib/postgresMgr.js: the periodic health check and `status`. Each event carries the time in
-- milliseconds; what a check finds comes from the query queue, as a reply to it.
pub mod Verdicts
use manatee.Base.{
  ℕ, suc, ◌+◌, ◌-◌, Text, codes, List, [], ◌∷◌, ◌++◌, Option, none, some, Bool, true, false, leb,
  ltb, ◌==◌, if◌then◌else◌,
}

-- `_healthChkTimeout`
abbrev pub Timeout : Type 0
Timeout = ℕ

-- A check under way: its number, and the time at which its timer fires.
pub record Check : Type 0 where
  pub number : ℕ
  pub due : ℕ

-- What becomes of the status, newest first: `reset` by the start of the checks, and the two events
-- that the manager emits.
pub data Notice : Type 0 where
  reset : Notice
  healthy : Notice
  unhealthy : Text → Notice

-- `_healthChkIntervalId` (whether it is set), `_healthy`, `_lastHealthChkErr` and
-- `_lastHealthChkTime`; `timers` are those of the checks, which nothing but a reply clears.
pub record Health : Type 0 where
  pub running : Bool
  pub verdict : Option Bool
  pub last_error : Option Text
  pub last_time : ℕ
  pub timers : List Check
  pub next : ℕ
  pub notices : List Notice

-- Before the checks are started.
abbrev pub unchecked : Health
unchecked = record {
  running = false;
  verdict = none;
  last_error = none;
  last_time = 0;
  timers = [];
  next = 0;
  notices = [];
}

pub data Event : Type 0 where
  start : ℕ → Event
  stop : Event
  interval : ℕ → Event
  timer : ℕ → ℕ → Event
  reply : ℕ → Option Text → ℕ → Event

-- What `status` returns.
pub record Status : Type 0 where
  pub is_healthy : Option Bool
  pub error : Option Text
  pub last_check : ℕ

unfoldable pub status : Health → Status
status s = record { is_healthy = s.verdict; error = s.last_error; last_check = s.last_time }

-- `_startHealthCheck`
unfoldable pub start_health_check : ℕ → Health → Health
start_health_check now s = if s.running then s else record s {
  running = true;
  verdict = none;
  last_error = none;
  last_time = now;
  notices = reset ∷ s.notices;
}

-- `_stopHealthCheck`
unfoldable pub stop_health_check : Health → Health
stop_health_check s = record s { running = false }

-- The function of `setInterval`: the timer is set and the check sent.
send_check : Timeout → ℕ → Health → Health
send_check timeout now s =
    if s.running
    then record s {
      timers = record { number = s.next; due = now + timeout } ∷ s.timers;
      next = suc s.next;
    }
    else s

declare_unhealthy : Text → Health → Health
declare_unhealthy e s = record s {
  verdict = some false;
  last_error = some e;
  notices = unhealthy e ∷ s.notices;
}

-- `clearTimeout`
abbrev pub clear_timer : ℕ → List Check → List Check
clear_timer n [] = []
clear_timer n (c ∷ timers) =
    let rest = clear_timer n timers in if c.number == n then rest else c ∷ rest

-- Whether the timer of a check is set, and its time has come.
abbrev pub is_due : ℕ → ℕ → List Check → Bool
is_due n now [] = false
is_due n now (c ∷ timers) =
    let rest = is_due n now timers in if c.number == n then leb c.due now else rest

-- The function of `setTimeout`.
unfoldable pub on_timer : ℕ → ℕ → Health → Health
unfolding declare_unhealthy
on_timer n now s =
    if is_due n now s.timers
    then declare_unhealthy (codes "PostgresMgr._startHealthCheck() timed out")
        (record s { timers = clear_timer n s.timers })
    else s

-- `new VError(err, msg)`: the message before the cause.
abbrev pub timed_out : Text → Text
timed_out e = codes "PostgresMgr.health: health check timed out: " ++ e

-- `healthHandler`
unfoldable pub health_handler : Timeout → ℕ → Option Text → ℕ → Health → Health
unfolding declare_unhealthy
health_handler timeout n (some e) now s =
    let cleared = record s { timers = clear_timer n s.timers } in
    if ltb timeout (now - s.last_time) then declare_unhealthy (timed_out e) cleared else cleared
health_handler timeout n none now s = record s {
  timers = clear_timer n s.timers;
  last_time = now;
  verdict = some true;
  last_error = none;
  notices = healthy ∷ s.notices;
}

unfoldable pub step : Timeout → Event → Health → Health
unfolding start_health_check stop_health_check send_check on_timer health_handler
step timeout (start now) s = start_health_check now s
step timeout stop s = stop_health_check s
step timeout (interval now) s = send_check timeout now s
step timeout (timer n now) s = on_timer n now s
step timeout (reply n e now) s = health_handler timeout n e now s

unfoldable pub run : Timeout → List Event → Health → Health
unfolding step
run timeout [] s = s
run timeout (e ∷ events) s = run timeout events (step timeout e s)
