-- ===== src/StatusServer/Pings.antt =====
-- lib/statusServer.js: what a ping says of the health checks.
use manatee.Base.{◌≡◌, ◌↔◌, List, [], ◌∷◌, some, false, All, arith}
use manatee.Postgres.Health.{Health, Event, Notice, reset, healthy, unhealthy, run, status, Timeout}
use manatee.Postgres.Health.Verdicts.{
  announced, IsAnnounced, run-IsAnnounced, IsSilent, IsVerdict, run-down,
}
use manatee.StatusServer.{ping, ping_status}

-- The newest notice, if there is one, is that Postgres is healthy.
abbrev pub EndsHealthy : List Notice → Type 0
EndsHealthy (healthy ∷ rest) = Unit
EndsHealthy _ = ⊥

ping-announced :
    (s : Health) (ns : List Notice)
    → (s.verdict, s.last_error) ≡ announced ns
    → ((ping (some (some s))).code ≡ 200) ↔ EndsHealthy ns
unfolding ping ping_status status
ping-announced s [] h = ground arith
ping-announced s (reset ∷ rest) h = ground arith
ping-announced s (healthy ∷ rest) h = ground arith
ping-announced s (unhealthy e ∷ rest) h = ground arith

-- Whatever becomes of the health checks, a ping answers 200 exactly if, of the events that the manager
-- emits and the starts of the checks, the newest is that Postgres is healthy.
pub ping-EndsHealthy_iff :
    (timeout : Timeout) (events : List Event) (s : Health)
    → IsAnnounced s
    → ((ping (some (some (run timeout events s)))).code ≡ 200)
      ↔ EndsHealthy (run timeout events s).notices
ping-EndsHealthy_iff timeout events s h =
    ping-announced (run timeout events s) (run timeout events s).notices
      (run-IsAnnounced timeout events s h)

ping-of_down : (s : Health) → s.verdict ≡ some false → (ping (some (some s))).code ≡ 503
unfolding ping ping_status status
ping-of_down s h = ground arith

-- Once the timer of a check fires in time, or a check fails with the last success more than the timeout
-- ago, pings answer 503 until a check succeeds or the checks are started anew.
pub ping-down :
    (timeout : Timeout) (e : Event) (events : List Event) (s : Health)
    → IsVerdict timeout s e
    → All IsSilent events
    → (ping (some (some (run timeout (e ∷ events) s)))).code ≡ 503
ping-down timeout e events s h k =
    ping-of_down (run timeout (e ∷ events) s) (run-down timeout e events s h k)
