-- ===== src/Snapshots/Daemon/Sitter.antt =====
-- lib/snapShotter.js and lib/statusServer.js: the daemon asks the sitter before it takes a snapshot.
use manatee.Base.{Text, ◌≡◌, refl, List, ◌∷◌, some, true, false, All, arith, is_some, ok}
use manatee.Base.Texts.{is_empty}
use manatee.Postgres.Health.{Health, Event, run, Timeout}
use manatee.Postgres.Health.Verdicts.{IsSilent, IsVerdict}
use manatee.StatusServer.{Response, ping}
use manatee.StatusServer.Pings.{ping-down}
use manatee.Snapshots.Daemon.{Config, Zfs, Daemon, PingReply, create, skip_snapshot}

-- What restify's JSON client documents: the answer is an error from code 400 on.
abbrev pub ReportsFailures : (Response → PingReply) → Type 0
ReportsFailures client = (r : Response) → r.code ≡ 503 → is_some (client r).error ≡ true

skip_snapshot-of_error :
    (url : Text) (reply : PingReply)
    → is_empty url ≡ false
    → is_some reply.error ≡ true
    → skip_snapshot (some url) reply ≡ true
unfolding skip_snapshot
skip_snapshot-of_error url reply h k = ground arith

-- A daemon that knows the url of the sitter runs nothing and takes no snapshot from the moment that a
-- health check of Postgres has outlived its timeout, or failed with the last success too long ago, until a
-- check succeeds or the checks are started anew, if its client reports a code of 503 as an error.
pub create-of_down :
    (config : Config) (zfs : Zfs) (client : Response → PingReply) (url name : Text) (d : Daemon)
    (timeout : Timeout) (e : Event) (events : List Event) (s : Health)
    → ReportsFailures client
    → config.health_url ≡ some url
    → is_empty url ≡ false
    → IsVerdict timeout s e
    → All IsSilent events
    → create config zfs (client (ping (some (some (run timeout (e ∷ events) s))))) name d
      ≡ (ok tt, d)
unfolding create
create-of_down config zfs client url name d timeout e events s c h k v q =
    let answer = ping (some (some (run timeout (e ∷ events) s))) in
    rw
      (
        h,
        skip_snapshot-of_error url (client answer) k (c answer (ping-down timeout e events s v q)),
      )
      refl
