-- ===== src/Postgres/Xlog.antt =====
-- lib/postgresMgr.js: `getXLogLocation`, by what Postgres answers to its query.
use manatee.Base.{
  Text, codes, ◌≡◌, ◌≢◌, ◌⊎◌, inl, inr, refl, Option, none, some, Bool, true, false, Outcome, ok,
  err, thrown, List,
}
use manatee.Host.{Host}
use manatee.Postgres.Manager.{Setup, Mgr, Role, primary, PgConfig}
use manatee.Postgres.Roles.{RestoreInput}
use manatee.Postgres.Queries.{Reply, failed, result}
use manatee.Postgres.Lifecycle.{Call, run}
use manatee.Postgres.Lifecycle.Guards.{Inv, calls-Inv}

-- The query by the role.
unfoldable pub location_query : Role → Text
location_query primary = codes "SELECT pg_current_xlog_location() as loc;"
location_query _ = codes "SELECT pg_last_xlog_replay_location() as loc;"

-- `onResponse`; a result without a row has no field `loc` to read.
unfoldable pub on_response : Reply → Outcome Text Text
on_response (failed e) = err e
on_response (result none) = thrown
on_response (result (some loc)) = ok loc

location_in : (Text → Reply) → Bool → Option PgConfig → Outcome Text Text
unfolding location_query on_response
location_in reply false config = err (codes "postgres is not running")
location_in reply true none = thrown
location_in reply true (some c) = on_response (reply (location_query c.role))

unfoldable pub get_xlog_location : (Text → Reply) → Mgr → Outcome Text Text
unfolding location_in
get_xlog_location reply s = location_in reply s.running s.pg_config

-- A select without a table has one row.
abbrev pub HasRows : (Text → Reply) → Type 0
HasRows reply = (query : Text) → reply query ≢ result none

abbrev pub IsAnswered : Outcome Text Text → Type 0
IsAnswered o = ((loc : Text) × (o ≡ ok loc)) ⊎ ((e : Text) × (o ≡ err e))

on_response-IsAnswered : (r : Reply) → r ≢ result none → IsAnswered (on_response r)
unfolding on_response
on_response-IsAnswered (failed e) h = inr (e, refl)
on_response-IsAnswered (result none) h = absurd (h refl)
on_response-IsAnswered (result (some loc)) h = inl (loc, refl)

location_in-IsAnswered :
    (reply : Text → Reply) (running : Bool) (config : Option PgConfig)
    → HasRows reply
    → (running ≡ true → config ≢ none)
    → IsAnswered (location_in reply running config)
unfolding location_in
location_in-IsAnswered reply false config h v = inr (codes "postgres is not running", refl)
location_in-IsAnswered reply true none h v = absurd (v refl refl)
location_in-IsAnswered reply true (some c) h v =
    on_response-IsAnswered (reply (location_query c.role)) (h (location_query c.role))

-- After any calls of the manager, whatever became of them, `getXLogLocation` answers with a location or
-- an error, and does not throw for want of a configuration.
run-get_xlog_location :
    (host : Host) (self : Setup) (i : RestoreInput) (reply : Text → Reply) (calls : List Call)
    (s : Mgr)
    → HasRows reply
    → Inv host self i s
    → IsAnswered (get_xlog_location reply (run host self i calls s))
unfolding get_xlog_location
run-get_xlog_location host self i reply calls s h v =
    let t = run host self i calls s in
    location_in-IsAnswered reply t.running t.pg_config h
      (calls-Inv host self i calls s v).configured
