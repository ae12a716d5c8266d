-- ===== src/Postgres/Roles.antt =====
-- lib/postgresMgr.js: `_primary`, `_updateStandby` and `_standby`, by which the local postgres takes
-- a role, and the replication check that a primary starts and the next change of role cancels.
pub mod ReadOnly
pub mod Handle
mod Tests
use manatee.Base.{
  Text, codes, List, [], ◌∷◌, ◌++◌, Option, none, some, Bool, true, false, if◌then◌else◌, ok, err,
  lost, thrown, Action, after, ◌>>=◌, ◌>>◌, return, fail,
}
use manatee.Host.{
  Host, Cmd, exec, exec_ignoring, chown, resolve_paths, unlink_recovery_conf, write_recovery_conf,
  take_snapshot, zfs_destroy,
}
use manatee.Zfs.{JobReply, assert_dataset, restore, restore_dataset, dataset_of}
use manatee.Postgres.Manager.{
  Setup, Mgr, Op, Peer, lift, modify, with_state, catch, read_only, synchronous_commit,
  synchronous_standby_names, format_standby_name, stop_postgres, restart, sighup_postgres,
  update_pg_conf, init_db,
}

-- `_enableWrites` of `_waitForStandby`: the standby is named, and read-only mode is left out.
abbrev pub enable_writes_conf : Text → List (Text × Text)
enable_writes_conf stdby = (synchronous_standby_names, format_standby_name stdby) ∷ []

-- `confOpts` of `_primary`.
abbrev pub primary_conf : Setup → List (Text × Text)
primary_conf self = if self.one_node_write_mode then [] else (read_only, codes "on") ∷ []

-- `confOpts` of `_updateStandby`.
abbrev pub standby_conf : Setup → Option Text → List (Text × Text)
standby_conf self (some stdby) =
    (synchronous_standby_names, format_standby_name stdby) ∷ (read_only, codes "on") ∷ []
standby_conf self none = if self.one_node_write_mode then [] else (read_only, codes "on") ∷ []

-- What a restore is given from outside: `uuid.v4()`, two readings of the clock and the replies of the
-- backup server.
pub record RestoreInput : Type 0 where
  pub uuid : Text
  pub before : Text
  pub now : Text
  pub replies : List JobReply

module _ (host : Host) where
  -- The rest of `_waitForStandby` once its check emits `done`, which it does when the standby has
  -- caught up and also when the check is cancelled.
  unfoldable pub finish_check : Text → Op
  finish_check stdby = do update_pg_conf host (enable_writes_conf stdby); sighup_postgres host

  -- `_transitionFunc = null`, then the error, if any, goes to the listener of the cancellation.
  end_transition : Op
  end_transition = modify (λ s. record s { transition = none })

  cancel : Option Text → Op
  unfolding finish_check end_transition
  cancel none = return tt
  cancel (some stdby) =
      catch (finish_check stdby)
        λ failure. elim failure [ none ↦ end_transition | some e ↦ end_transition >> fail e ]

  -- `_cancelTransitioning`
  unfoldable pub cancel_transitioning : Op
  unfolding cancel
  cancel_transitioning = with_state λ s. cancel s.transition

  -- `_startReplCheck`: the check runs on in the background.
  unfoldable pub start_repl_check : Option Text → Op
  start_repl_check none = return tt
  start_repl_check (some stdby) = modify (λ s. record s { transition = some stdby })

  -- `_primary`; `createSnapshot` never passes an error on.
  unfoldable pub take_primary : Setup → Option Text → Op
  take_primary self stdby = do
    cancel_transitioning
    init_db host self
    lift (exec host unlink_recovery_conf)
    update_pg_conf host (primary_conf self)
    restart host
    lift (exec_ignoring host take_snapshot)
    start_repl_check stdby

  -- `_updateStandby`
  unfoldable pub update_standby : Setup → Option Text → Op
  update_standby self stdby = do
    cancel_transitioning
    update_pg_conf host (standby_conf self stdby)
    sighup_postgres host
    start_repl_check stdby

  -- `updateConfigurations` of `_standby`.
  unfoldable pub update_configurations : Text → Op
  update_configurations prim_url = do
    lift (exec host resolve_paths)
    lift (exec host (write_recovery_conf prim_url))
    update_pg_conf host ((synchronous_commit, codes "off") ∷ [])

  -- `restoreDataset`, whatever it answers, and then the error that led to it.
  revert : Setup → Text → Text → Action Mgr Text Text
  revert self snapshot e =
      catch (lift (restore_dataset self.zfs_client host snapshot)) (λ ignored. fail e)

  chown_restored : Setup → Text → Action Mgr Text Text
  unfolding revert
  chown_restored self snapshot =
      catch (lift (exec host (chown self.db_user self.data_dir)))
        λ failure. elim failure [ none ↦ return snapshot | some e ↦ revert self snapshot e ]

  -- `_restore`: the snapshot of the dataset that was set aside, or its data back in place.
  unfoldable pub restore_or_revert : Setup → Text → RestoreInput → Action Mgr Text Text
  unfolding chown_restored
  restore_or_revert self backup_url i = do
    (failure, snapshot) ←
        lift (restore self.zfs_client host backup_url i.uuid i.before i.now i.replies)
    elim failure [ none ↦ chown_restored self snapshot | some e ↦ revert self snapshot e ]

  -- `_restartAgain`
  unfoldable pub restart_again : Setup → Text → Op
  unfolding revert
  restart_again self snapshot =
      catch (restart host)
        λ failure. elim failure [ none ↦ return tt | some e ↦ revert self snapshot e >> return tt ]

  -- The steps of `_standby` that run only if `_.isRestore` is set.
  unfoldable pub rebuild_standby : Setup → Peer → RestoreInput → Op
  rebuild_standby self upstream i = do
    snapshot ← restore_or_revert self upstream.backup_url i
    update_configurations upstream.pg_url
    restart_again self snapshot
    lift (exec host (zfs_destroy (dataset_of snapshot)))

  -- `_updateConfigs` and `_restart`: an error of either is kept in `_.isRestore`.
  unfoldable pub try_standby : Text → Op
  try_standby prim_url = update_configurations prim_url >> restart host

  unfoldable pub or_rebuild : Setup → Peer → RestoreInput → Option Text → Op
  or_rebuild self upstream i none = return tt
  or_rebuild self upstream i (some e) = rebuild_standby self upstream i

  -- `_standby`
  unfoldable pub take_standby : Setup → Peer → RestoreInput → Op
  take_standby self upstream i = do
    cancel_transitioning
    stop_postgres host
    lift (assert_dataset self.zfs_client host)
    catch (try_standby upstream.pg_url) (or_rebuild self upstream i)
