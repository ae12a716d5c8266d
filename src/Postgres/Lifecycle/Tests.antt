-- ===== src/Postgres/Lifecycle/Tests.antt =====
-- Calls of a manager on a machine where every command succeeds, or where no standby can be made.
use manatee.Base.{codes, ◌≡◌, refl, ◌≢◌, [], ◌∷◌, none, some, true, false, ok, err, lost}
use manatee.Host.{Host, write_recovery_conf, zfs_snapshot}
use manatee.Zfs.{assert_dataset, restore, backup_dataset, backup_steps}
use manatee.Postgres.Manager.{
  Setup, Mgr, Peer, PgConfig, primary, sync, no_role, stop_postgres, restart, update_pg_conf,
}
use manatee.Postgres.Roles.{
  RestoreInput, cancel_transitioning, take_standby, update_configurations, try_standby, or_rebuild,
  rebuild_standby, restore_or_revert,
}
use manatee.Postgres.Lifecycle.{
  well_formed, already_transitioning, apply_current, take_role, start, stop, starts, stops,
  reconfigures, call, run, new,
}
use manatee.Postgres.Lifecycle.Guards.{lost-stuck, Inv, calls-Inv}
use manatee.Postgres.Lifecycle.Contract.{start-ok}

abbrev calm : Host
calm log c = none

abbrev setup : Setup
setup = record {
  one_node_write_mode = false;
  zfs_client = record {
    dataset = codes "zones/pg";
    parent_dataset = codes "zones";
    mountpoint = codes "/pg";
    db_user = codes "postgres";
    zfs_host = codes "10.0.0.1";
  };
  db_user = codes "postgres";
  data_dir = codes "/pg/data";
}

abbrev input : RestoreInput
input = record { uuid = codes "u"; before = codes "1"; now = codes "2"; replies = [] }

abbrev peer : Peer
peer = record { pg_url = codes "tcp://p"; backup_url = codes "http://p" }

abbrev as_sync : PgConfig
as_sync = record { role = sync; upstream = some peer; downstream = none }

abbrev as_primary : PgConfig
as_primary = record { role = primary; upstream = none; downstream = some peer }

abbrev configured : Mgr
configured = record new { pg_config = some as_sync }

as_sync_formed : well_formed false as_sync ≡ true
unfolding well_formed
as_sync_formed = refl

new-Inv : Inv calm setup input new
new-Inv = record { configured = λ h. cc; formed = tt; misspelt = refl }

calls-Inv_example :
    Inv calm setup input (run calm setup input (reconfigures as_sync ∷ starts ∷ stops ∷ []) new)
calls-Inv_example =
    calls-Inv calm setup input (reconfigures as_sync ∷ starts ∷ stops ∷ []) new new-Inv

started : (start calm setup input configured).0 ≡ ok tt
unfolding start apply_current take_role take_standby cancel_transitioning stop_postgres
    assert_dataset try_standby or_rebuild update_configurations restart update_pg_conf
started = refl

start-ok_example :
    (configured.transitioning ≡ false)
    × (configured.running ≡ false)
    × ((start calm setup input configured).1.running ≡ true)
    × ((start calm setup input configured).1.transitioning ≡ false)
    × ((start calm setup input configured).1.applied ≡ true)
    × ((start calm setup input configured).1.pg_config ≡ configured.pg_config)
    × ((c : PgConfig) × (configured.pg_config ≡ some c) × (c.role ≢ no_role))
start-ok_example = start-ok calm setup input configured started

-- The data at hand are no use to a standby, and the dataset cannot be set aside for a restore.
abbrev unfit : Host
unfit log (write_recovery_conf url) = some (codes "ENOENT")
unfit log (zfs_snapshot s) = some (codes "out of space")
unfit log c = none

configured-Inv : Inv unfit setup input configured
configured-Inv = record { configured = λ h. cc; formed = as_sync_formed; misspelt = refl }

never_back : (call unfit setup input starts configured).0 ≡ lost
unfolding call start apply_current take_role take_standby cancel_transitioning stop_postgres
    assert_dataset try_standby or_rebuild update_configurations restart update_pg_conf
    rebuild_standby restore_or_revert restore backup_dataset backup_steps
never_back = refl

lost-stuck_example :
    let t = (call unfit setup input starts configured).1 in
    (run unfit setup input (stops ∷ starts ∷ []) t ≡ t)
    × ((start unfit setup input (run unfit setup input (stops ∷ starts ∷ []) t)).0
        ≡ err (already_transitioning unfit setup input))
    × ((stop unfit setup input (run unfit setup input (stops ∷ starts ∷ []) t)).0
        ≡ err (already_transitioning unfit setup input))
lost-stuck_example =
    lost-stuck unfit setup input starts (stops ∷ starts ∷ []) configured configured-Inv never_back
