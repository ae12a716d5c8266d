-- ===== src/Postgres/Roles/Tests.antt =====
-- Changes of role on a machine where every command succeeds.
use manatee.Base.{codes, ◌≡◌, refl, [], ◌∷◌, none, some, Bool, true, false, if◌then◌else◌, ok}
use manatee.Host.{Host, Log, zfs_recv, write_recovery_conf}
use manatee.Zfs.{
  done, pending, assert_dataset, restore, poll_restore_completion, restore_steps, receive,
  backup_dataset, backup_steps, dataset_of,
}
use manatee.Postgres.Manager.{
  Setup, Mgr, Peer, stop_postgres, restart, sighup_postgres, update_pg_conf,
}
use manatee.Postgres.Roles.{
  RestoreInput, cancel_transitioning, start_repl_check, update_standby, update_configurations,
  restore_or_revert, restart_again, rebuild_standby, try_standby, or_rebuild, take_standby,
}
use manatee.Postgres.Roles.ReadOnly.{Serving}
use manatee.Postgres.Roles.Handle.{async_conf, take_standby-Serving}

abbrev pub calm : Host
calm log c = none

abbrev pub setup : Setup
setup = record {
  one_node_write_mode = false;
  zfs_client = record {
    dataset = codes "zones/pg";
    parent_dataset = codes "zones";
    mountpoint = codes "/pg";
    db_user = codes "postgres";
    zfs_host = codes "10.0.0.1";
  };
  db_user = codes "postgres";
  data_dir = codes "/pg/data";
}

-- A primary whose standby has not caught up yet.
abbrev pub leading : Mgr
leading = record {
  running = true;
  transitioning = true;
  pg_config = none;
  pgconfig = none;
  applied = true;
  postgres = true;
  transition = some (codes "s");
  log = [];
}

abbrev pub upstream : Peer
upstream = record { pg_url = codes "tcp://p"; backup_url = codes "http://p" }

abbrev pub input : RestoreInput
input = record {
  uuid = codes "u";
  before = codes "1";
  now = codes "2";
  replies = pending ∷ done ∷ [];
}

abbrev received : Log → Bool
received [] = false
received ((zfs_recv dataset, e) ∷ log) = true
received (_ ∷ log) = received log

-- No standby can be started from the data at hand: recovery.conf cannot be written before a restore.
abbrev unfit : Host
unfit log (write_recovery_conf url) = if received log then none else some (codes "ENOENT")
unfit log c = none

updated_standby : (update_standby calm setup (some (codes "t")) leading).0 ≡ ok tt
unfolding update_standby cancel_transitioning sighup_postgres update_pg_conf start_repl_check
updated_standby = refl

took_standby : (take_standby unfit setup upstream input leading).0 ≡ ok tt
unfolding take_standby cancel_transitioning stop_postgres assert_dataset try_standby or_rebuild
    rebuild_standby restore_or_revert restart_again dataset_of restore restore_steps receive
    poll_restore_completion backup_dataset backup_steps update_configurations restart
    sighup_postgres update_pg_conf
took_standby = refl

take_standby-Serving_example :
    Serving async_conf (some upstream.pg_url) tt (take_standby unfit setup upstream input leading).1
take_standby-Serving_example = take_standby-Serving unfit setup upstream input leading took_standby
