-- ===== src/StatusServer/Tests.antt =====
-- Pings of a manager whose checks fail and succeed.
use manatee.Base.{codes, ◌≡◌, ◌↔◌, refl, List, [], ◌∷◌, none, some, arith}
use manatee.Postgres.Health.{
  Event, run, start, reply, interval, unchecked, start_health_check, health_handler,
}
use manatee.StatusServer.{ping, list}
use manatee.StatusServer.Pings.{EndsHealthy, ping-EndsHealthy_iff, ping-down}

abbrev answered : List Event
answered = start 0 ∷ interval 1000 ∷ reply 0 none 1500 ∷ []

ping-EndsHealthy_iff_example :
    ((ping (some (some (run 10000 answered unchecked)))).code ≡ 200)
    ↔ EndsHealthy (run 10000 answered unchecked).notices
ping-EndsHealthy_iff_example = ping-EndsHealthy_iff 10000 answered unchecked refl

-- A failure more than ten seconds after the last success.
refused_answers :
    (ping (
      some (
        some (
          run 10000
            (reply 1 (some (codes "refused")) 12000 ∷ interval 13000 ∷ [])
            (run 10000 answered unchecked))))).code
    ≡ 503
unfolding run start_health_check health_handler
refused_answers =
    ping-down 10000 (reply 1 (some (codes "refused")) 12000) (interval 13000 ∷ [])
      (run 10000 answered unchecked) (omega arith) (tt, tt)

routes : list (codes "get" ∷ codes "getping" ∷ []) ≡ codes "/\n/ping\n"
unfolding list
routes = refl
