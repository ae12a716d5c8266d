-- ===== src/Host.antt =====
-- The machine that the program runs on, as the program sees it: each external command succeeds or
-- fails with an error, and what it answers may depend on all that was run before. The commands are
-- those that lib/zfsClient.js, lib/postgresMgr.js and lib/adm.js hand to `exec`, `spawn`, `net` and
-- `fs`, one constructor for each form of command, with the texts that are spliced into it.
use manatee.Base.{Text, ◌≡◌, ◌⊎◌, List, [], ◌∷◌, Option, none, some, Action, ok, err}

pub data Cmd : Type 0 where
  zfs_list zfs_create zfs_mount zfs_unmount zfs_promote zfs_destroy zfs_recv : Text → Cmd
  zfs_set_canmount : Text → Cmd
  zfs_set_mountpoint : Text → Text → Cmd
  zfs_snapshot : Text → Cmd
  zfs_clone : Text → Text → Cmd
  rm_contents mkdirp : Text → Cmd
  chown : Text → Text → Cmd
  chmod : Text → Text → Cmd
  listen : Text → Cmd
  post_backup : Text → Cmd
  stat_dir : Text → Cmd
  initdb : Cmd
  copy_hba_conf copy_postgresql_conf : Cmd
  unlink_recovery_conf unlink_pid : Cmd
  resolve_paths : Cmd
  write_postgresql_conf : List (Text × Text) → Cmd
  write_recovery_conf : Text → Cmd
  query_health : Cmd
  spawn_postgres await_exit await_health : Cmd
  kill_postgres : Cmd
  sighup : Cmd
  take_snapshot : Cmd
  svcadm_disable svcadm_enable : Text → Cmd

-- What was run, with the error it gave, newest first.
abbrev pub Log : Type 0
Log = List (Cmd × Option Text)

-- The answer to a command, after all that the log holds.
abbrev pub Host : Type 0
Host = Log → Cmd → Option Text

-- `exec(cmd, cb)`
abbrev pub exec : Host → Cmd → Action Log Text (Unit {0})
exec host c log = elim (host log c) [
  | none ↦ (ok tt, (c, none) ∷ log)
  | some e ↦ (err e, (c, some e) ∷ log)
]

-- `exec(cmd, function () { return cb(); })`: the error is dropped.
abbrev pub exec_ignoring : Host → Cmd → Action Log Text (Unit {0})
exec_ignoring host c log = (ok tt, (c, host log c) ∷ log)

-- `exec` for its answer alone.
abbrev pub probe : Host → Cmd → Action Log Text (Option Text)
probe host c log = (ok (host log c), (c, host log c) ∷ log)

abbrev pub Issued : Cmd → Log → Type 0
Issued c [] = ⊥
Issued c (e ∷ log) = (c ≡ e.0) ⊎ Issued c log

abbrev pub Succeeded : Cmd → Log → Type 0
Succeeded c [] = ⊥
Succeeded c ((d, none) ∷ log) = (c ≡ d) ⊎ Succeeded c log
Succeeded c ((d, some e) ∷ log) = Succeeded c log

-- Whenever `c` was run, `d` had succeeded before.
abbrev pub Guarded : Cmd → Cmd → Log → Type 0
Guarded c d [] = Unit
Guarded c d (e ∷ log) = (c ≡ e.0 → Succeeded d log) × Guarded c d log
