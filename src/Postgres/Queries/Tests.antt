-- ===== src/Postgres/Queries/Tests.antt =====
-- Two queries, of which the first fails.
use manatee.Base.{Text, codes, ◌≡◌, refl, List, [], ◌∷◌, ◌++◌, map, none, some}
use manatee.Postgres.Queries.{
  Pg, Request, Reply, failed, result, Event, submit, query_error, client_error, new, kick, query_db,
  query_all, settle, fini, on_client_error, step, run,
}
use manatee.Postgres.Queries.Order.{Inv, IsBusy, replied, to_list, run-new-in_order}
use manatee.Postgres.Queries.Progress.{ending, drain_all}

abbrev health : Request
health = record { id = 0; query_str = codes "select current_time;" }

abbrev lag : Request
lag = record { id = 1; query_str = codes "SELECT now();" }

abbrev reset : Text
reset = codes "connection reset"

-- The first query is outstanding, and the second one waits.
abbrev waiting : Pg
waiting = record {
  outstanding = some health;
  queued = lag ∷ [];
  client = some 0;
  made = 1;
  submitted = health ∷ lag ∷ [];
  answered = [];
}

abbrev answered_one : Pg
answered_one = record {
  outstanding = some lag;
  queued = [];
  client = some 1;
  made = 2;
  submitted = health ∷ lag ∷ [];
  answered = (health, failed reset) ∷ [];
}

abbrev events : List Event
events = submit health ∷ submit lag ∷ query_error health reset [] ∷ []

events_pass : run events new ≡ some answered_one
unfolding run step query_db kick fini settle query_all new
events_pass = refl

run-new-in_order_example :
    (replied answered_one.answered ++ (to_list answered_one.outstanding ++ answered_one.queued)
      ≡ answered_one.submitted)
    × (answered_one.outstanding ≡ none → answered_one.queued ≡ [])
run-new-in_order_example = run-new-in_order events answered_one events_pass

waiting-Inv : Inv waiting
waiting-Inv = record { in_order = refl; connected = λ h e. cc }

waiting-IsBusy : IsBusy waiting
waiting-IsBusy h = cc

abbrev how : Request → Reply
how rq = result (some rq.query_str)

drain_all_example :
    (t : Pg) × (run (map (λ q. ending q (how q)) (health ∷ waiting.queued)) waiting ≡ some t)
    × (t.outstanding ≡ none)
    × (replied t.answered ≡ waiting.submitted)
drain_all_example = drain_all how health waiting waiting-Inv waiting-IsBusy refl

abbrev both_failed : Pg
both_failed = record {
  outstanding = none;
  queued = [];
  client = none;
  made = 2;
  submitted = health ∷ lag ∷ [];
  answered = (health, failed reset) ∷ (lag, failed reset) ∷ [];
}

both_fail :
    run (query_error health reset [] ∷ client_error reset [] ∷ []) waiting ≡ some both_failed
unfolding run step on_client_error kick fini settle query_all
both_fail = refl
