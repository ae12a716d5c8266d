-- ===== src/Snapshots/Tests.antt =====
-- The cleanup of three snapshots of which one is to be kept.
use manatee.Base.{
  ℕ, zero, map, ◌-◌, ◌≤◌, Text, codes, ◌≡◌, refl, ◌≢◌, List, [], ◌∷◌, none, some, arith, length, ok,
  err, suc, ◌++◌, take, true, if◌then◌else◌, ◌==◌,
}
use manatee.Snapshots.{
  fatal, error, Deleter, attempt, delete_each, delete_snapshots, is_manatee_snapshot, get_snapshots,
}
use manatee.Snapshots.Bounds.{delete_snapshots_bounds}
use manatee.Snapshots.Success.{destroying}
use manatee.Snapshots.Daemon.{
  Config, Zfs, Daemon, PingReply, is_snapshot, list_args, exec_zfs, list_and_delete, deleter,
  delete_snapshot, cleanup, create,
}
use manatee.Snapshots.Daemon.Own.{Told, cleanup-Told}
use manatee.Snapshots.Daemon.Newest.{unlines, cleanup-oldest}
use manatee.Snapshots.Daemon.Ends.{Follows, cleanup-Follows}
use manatee.Snapshots.Daemon.Sitter.{ReportsFailures, create-of_down}
use manatee.Postgres.Health.{
  Health, run, start, reply, interval, timer, start_health_check, health_handler, unchecked,
}
use manatee.StatusServer.{Response, ping}

abbrev old : Text
old = codes "zones/pg@1400000000000"

abbrev newer : Text
newer = codes "zones/pg@1400000000001"

abbrev latest : Text
latest = codes "zones/pg@1400000000002"

abbrev three : List Text
three = old ∷ newer ∷ latest ∷ []

-- The first deletion fails.
abbrev held : Deleter
held zero s = record { ran = destroying s ∷ []; error = some (codes "dataset is busy") }
held _ s = record { ran = destroying s ∷ []; error = none }

delete_snapshots_bounds_example :
    (length (delete_snapshots held 1 three).1.deleted ≤ length three - 1)
    × ((delete_snapshots held 1 three).1.level ≢ fatal)
    × ((delete_snapshots held 1 three).0 ≢ ok tt
        → (length (delete_snapshots held 1 three).1.stuck ≡ length three - 1)
          × ((delete_snapshots held 1 three).1.level ≡ error))
delete_snapshots_bounds_example = delete_snapshots_bounds held 1 three (omega arith)

cleaned : (delete_snapshots held 1 three).0 ≡ ok tt
unfolding delete_snapshots delete_each attempt
cleaned = refl

others_ignored :
    get_snapshots (codes "zones/pg@before upgrade" ∷ old ∷ codes "zones/pg" ∷ codes "" ∷ [])
    ≡ old ∷ []
unfolding get_snapshots is_manatee_snapshot
others_ignored = refl

-- A daemon over three snapshots and one of an operator; the first deletion fails.
abbrev listed : Text
listed = codes "zones/pg@1400000000000\nzones/pg@before upgrade\nzones/pg@1400000000001\n"

abbrev fails_first : Zfs
fails_first (suc (suc zero)) args = record { error = some (codes "busy"); stdout = [] }
fails_first n args = record { error = none; stdout = listed }

abbrev zones : Config
zones = record {
  dataset = codes "zones/pg";
  snapshot_number = 1;
  health_url = some (codes "http://sitter");
}

abbrev idle_daemon : Daemon
idle_daemon = record { zfs_runs = 0; errors = []; scheduled = 0; told = [] }

cleanup-Told_example :
    Told zones fails_first idle_daemon (cleanup zones fails_first idle_daemon).1.1.told
cleanup-Told_example = cleanup-Told zones fails_first idle_daemon

-- A zfs(1M) that does what it is told; only the listing has so many words.
abbrev docile : Zfs
docile n args =
    if length args == 11
    then record { error = none; stdout = unlines (codes "zones/pg@before upgrade" ∷ three) }
    else record { error = none; stdout = [] }

docile_lists :
    (n : ℕ)
    → docile n (list_args zones)
      ≡ (record { error = none; stdout = unlines (codes "zones/pg@before upgrade" ∷ three) })
unfolding list_args
docile_lists n = refl

cleanup-oldest_example :
    ((cleanup zones docile idle_daemon).0 ≡ ok tt)
    × ((cleanup zones docile idle_daemon).1.1.told
        ≡ ([] ++ list_args zones ∷ [])
          ++ map destroying (
              take
                (length (get_snapshots (codes "zones/pg@before upgrade" ∷ three)) - 1)
                (get_snapshots (codes "zones/pg@before upgrade" ∷ three))))
unfolding is_snapshot
cleanup-oldest_example =
    cleanup-oldest zones (codes "zones/pg@before upgrade" ∷ three) docile
      (docile_lists, λ n s. refl) idle_daemon refl (ground arith)

cleanup-Follows_example :
    Follows idle_daemon
      (cleanup zones fails_first idle_daemon).0
      (cleanup zones fails_first idle_daemon).1.1
unfolding is_snapshot
cleanup-Follows_example = cleanup-Follows zones fails_first idle_daemon refl

-- What the first deletion cannot do makes the cleanup fail, after two runs of zfs.
held_up : cleanup zones fails_first idle_daemon ≡ (
  err (codes "busy"),
  (
    record {
      deleted = [];
      stuck = old ∷ [];
      level = error;
      commands = (codes "destroy" ∷ old ∷ []) ∷ [];
    },
    record {
      zfs_runs = 2;
      errors = codes "busy" ∷ [];
      scheduled = 1;
      told = list_args zones ∷ (codes "destroy" ∷ old ∷ []) ∷ [];
    },
  ),
)
unfolding cleanup is_snapshot list_and_delete exec_zfs get_snapshots is_manatee_snapshot
    delete_snapshots delete_each attempt deleter delete_snapshot
held_up = refl

-- A client that reports every code but 200.
abbrev client : Response → PingReply
client r =
    if r.code == 200
    then record { error = none; healthy = some true }
    else record { error = some (codes "ServiceUnavailable"); healthy = none }

client-ReportsFailures : ReportsFailures client
client-ReportsFailures r h = rw h refl

-- A check sent at 1000 is not answered for the ten seconds of its timeout.
abbrev checking : Health
checking = run 10000 (start 0 ∷ reply 7 none 500 ∷ interval 1000 ∷ []) unchecked

create-of_down_example :
    create zones fails_first
      (client (ping (some (some (run 10000 (timer 0 11000 ∷ interval 12000 ∷ []) checking)))))
      (codes "1400000000002")
      idle_daemon
    ≡ (ok tt, idle_daemon)
unfolding run start_health_check health_handler
create-of_down_example =
    create-of_down zones fails_first client (codes "http://sitter") (codes "1400000000002")
      idle_daemon 10000 (timer 0 11000) (interval 12000 ∷ []) checking client-ReportsFailures refl
      refl refl (tt, tt)
