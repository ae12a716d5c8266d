-- ===== src/Postgres/Stopping/Tests.antt =====
-- A process that outlives SIGINT and goes on SIGQUIT.
use manatee.Base.{◌≡◌, refl, List, [], ◌∷◌, none, false, true, arith}
use manatee.Postgres.Stopping.{Event, exits, timer, sigint, sigquit, begin_stop, run}
use manatee.Host.{Host}
use manatee.Postgres.Manager.{Mgr, stop_postgres}
use manatee.Postgres.Stopping.Refines.{Agrees, stop_postgres-run}

abbrev slow_exit : List Event
slow_exit = timer ∷ exits ∷ timer ∷ timer ∷ []

abbrev compliant : Host
compliant log c = none

abbrev manager : Mgr
manager = record {
  running = true;
  transitioning = false;
  pg_config = none;
  pgconfig = none;
  applied = false;
  postgres = true;
  transition = none;
  log = [];
}

stop_postgres-run_example :
    Agrees (stop_postgres compliant manager) (run slow_exit (begin_stop true))
    × ((run slow_exit (begin_stop true)).signals ≡ sigint ∷ sigquit ∷ [])
unfolding run begin_stop
stop_postgres-run_example = stop_postgres-run compliant manager slow_exit (omega arith) refl

two_signals : (run slow_exit (begin_stop true)).signals ≡ sigint ∷ sigquit ∷ []
unfolding run begin_stop
two_signals = refl
