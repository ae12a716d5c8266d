-- ===== src/Zookeeper/Sessions/Tests.antt =====
-- A session that expires, and a manager that is closed in the middle of its set-up.
use manatee.Base.{codes, ◌≡◌, ◌≤◌, ◌+◌, refl, List, [], ◌∷◌, none, some, false}
use manatee.Zookeeper.Sessions.{
  Event, restart, connected, data_done, expired, close, created, run, find, update, reset_client,
}
use manatee.Zookeeper.Sessions.One.{count, opened, run-one}

abbrev renewed : List Event
renewed = restart ∷ connected 0 ∷ data_done 0 none ∷ expired 0 ∷ restart ∷ connected 1 ∷ []

run-one_example :
    (count opened (run renewed created).clients ≤ 1)
    × ((run renewed created).closed ≡ false
        → count opened (run renewed created).clients + (run renewed created).restarts ≡ 1)
    × ((run renewed created).inits ≤ 1)
run-one_example = run-one renewed

-- The set-up of the client fails because the manager is closed, and the closed manager connects again.
abbrev reopened : List Event
reopened =
    restart ∷ connected 0 ∷ close ∷ data_done 0 (some (codes "CONNECTION_LOSS")) ∷ restart ∷ []

closed_reopens : count opened (run reopened created).clients ≡ 1
unfolding run find update reset_client
closed_reopens = refl
