-- ===== src/Postgres/Manager.antt =====
-- lib/postgresMgr.js: the state of the manager, and the operations on the child process and its
-- files that the role changes are made of.
use manatee.Base.{
  Text, codes, List, ◌++◌, Option, none, some, Bool, true, false, Outcome, ok, err, lost, thrown,
  Action, after, ◌>>◌, return, fail,
}
use manatee.Host.{
  Host, Log, exec, exec_ignoring, chown, chmod, stat_dir, initdb, copy_hba_conf,
  copy_postgresql_conf, resolve_paths, unlink_pid, write_postgresql_conf, query_health,
  spawn_postgres, await_exit, await_health, kill_postgres, sighup,
}
use manatee.Zfs.{ZfsClient, assert_dataset}

-- The options that the operations read.
pub record Setup : Type 0 where
  pub one_node_write_mode : Bool
  pub zfs_client : ZfsClient
  pub db_user : Text
  pub data_dir : Text

pub data Role : Type 0 where
  primary sync async no_role : Role

pub record Peer : Type 0 where
  pub pg_url : Text
  pub backup_url : Text

pub record PgConfig : Type 0 where
  pub role : Role
  pub upstream : Option Peer
  pub downstream : Option Peer

-- `postgres` says whether `_postgres`, the handle of the child process, is set; `transition` is
-- `_transitionFunc`, by the standby that its replication check waits for. `pgconfig` is the field
-- `_pgconfig` that `_reconfigure` reads, beside `_pgConfig`, which is `pg_config`.
pub record Mgr : Type 0 where
  pub running : Bool
  pub transitioning : Bool
  pub pg_config : Option PgConfig
  pub pgconfig : Option PgConfig
  pub applied : Bool
  pub postgres : Bool
  pub transition : Option Text
  pub log : Log

abbrev pub Op : Type 0
Op = Action Mgr Text (Unit {0})

abbrev pub lift {ℓ} : {A : Type ℓ} → Action Log Text A → Action Mgr Text A
lift m s = let (r, log) = m s.log in (r, record s { log = log })

abbrev pub modify : (Mgr → Mgr) → Op
modify f s = (ok tt, f s)

abbrev pub set_postgres : Bool → Op
set_postgres b = modify (λ s. record s { postgres = b })

-- Goes on as the current state says.
abbrev pub with_state {ℓ} : {A : Type ℓ} → (Mgr → Action Mgr Text A) → Action Mgr Text A
with_state f s = f s s

abbrev pub resume {ℓ} :
    {A : Type ℓ}
    → (Option Text → Action Mgr Text A)
    → Outcome Text (Unit {0}) × Mgr
    → Outcome Text A × Mgr
resume handle (ok u, t) = handle none t
resume handle (err e, t) = handle (some e) t
resume handle (lost, t) = (lost, t)
resume handle (thrown, t) = (thrown, t)

-- An operation whose error goes to `handle`, which decides how to go on.
abbrev pub catch {ℓ} :
    {A : Type ℓ}
    → Action Mgr Text (Unit {0})
    → (Option Text → Action Mgr Text A)
    → Action Mgr Text A
catch m handle s = resume handle (m s)

abbrev pub read_only : Text
read_only = codes "default_transaction_read_only"

abbrev pub synchronous_commit : Text
synchronous_commit = codes "synchronous_commit"

abbrev pub synchronous_standby_names : Text
synchronous_standby_names = codes "synchronous_standby_names"

-- `formatStandbyName`: the name between double quotes, between single quotes.
unfoldable pub format_standby_name : Text → Text
format_standby_name name = codes "'\"" ++ (name ++ codes "\"'")

module _ (host : Host) where
  -- `_stop`: the signals are SIGINT, SIGQUIT and SIGKILL; it fails if the process outlives them all.
  unfoldable pub stop_postgres : Op
  stop_postgres s = elim s.postgres [
    | false ↦ (ok tt, s)
    | true ↦ after (λ _. set_postgres false) (lift (exec host kill_postgres) s)
  ]

  -- The poll of `_start`: the process exits before it is healthy, or stays unhealthy for too long and
  -- is stopped, or becomes healthy.
  await_start : Op
  unfolding stop_postgres
  await_start = catch (lift (exec host await_exit)) λ exited. elim exited [
    | some e ↦ set_postgres false >> fail e
    | none ↦
        catch (lift (exec host await_health))
          λ late. elim late [ some e ↦ catch stop_postgres (λ _. fail e) | none ↦ return tt ]
  ]

  -- `_start`
  unfoldable pub start_postgres : Op
  unfolding await_start
  start_postgres = do
    lift (exec host resolve_paths)
    lift (exec_ignoring host unlink_pid)
    lift (exec_ignoring host spawn_postgres)
    set_postgres true
    await_start

  -- `_restart`
  unfoldable pub restart : Op
  unfolding start_postgres stop_postgres
  restart = catch (lift (exec host query_health)) λ unhealthy. elim unhealthy [
    | some e ↦ start_postgres
    | none ↦ stop_postgres >> start_postgres
  ]

  -- `_sighup`: a call of a method of the handle, which may be null.
  unfoldable pub sighup_postgres : Op
  sighup_postgres s = elim s.postgres [
    | false ↦ (thrown, s)
    | true ↦ lift (exec_ignoring host sighup) s
  ]

  -- `_updatePgConf`
  unfoldable pub update_pg_conf : List (Text × Text) → Op
  update_pg_conf options = lift (exec host (write_postgresql_conf options))

  -- `_initDb`; the errors of the `initdb` command and of the copies of the shipped files are ignored.
  unfoldable pub init_db : Setup → Op
  unfolding stop_postgres
  init_db self = do
    stop_postgres
    lift (assert_dataset self.zfs_client host)
    lift (exec host (stat_dir self.data_dir))
    lift (exec host (chown self.db_user self.data_dir))
    lift (exec host (chmod (codes "700") self.data_dir))
    lift (exec host resolve_paths)
    lift (exec_ignoring host initdb)
    lift (exec_ignoring host copy_hba_conf)
    lift (exec_ignoring host copy_postgresql_conf)
