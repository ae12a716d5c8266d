-- ===== src/Zfs.antt =====
-- lib/zfsClient.js: the dataset of the local postgres is set aside, received from a peer, put back
-- or mounted.
pub mod Safety
mod Tests
use manatee.Base.{
  ℕ, zero, suc, Text, codes, List, [], ◌∷◌, ◌++◌, Option, none, some, Bool, true, false,
  if◌then◌else◌, Outcome, ok, err, lost, thrown, Action, after, ◌>>=◌, ◌>>◌, return, fail,
}
use manatee.Base.Texts.{split}
use manatee.Host.{
  Host, Log, Cmd, exec, exec_ignoring, probe, zfs_list, zfs_create, zfs_mount, zfs_unmount,
  zfs_promote, zfs_destroy, zfs_recv, zfs_set_canmount, zfs_set_mountpoint, zfs_snapshot, zfs_clone,
  rm_contents, mkdirp, chown, chmod, listen, post_backup,
}

-- The fields of the client that its operations read.
pub record ZfsClient : Type 0 where
  pub dataset : Text
  pub parent_dataset : Text
  pub mountpoint : Text
  pub db_user : Text
  pub zfs_host : Text

-- `snapshot.split('@')[0]`
abbrev pub first : List Text → Text
first [] = []
first (t ∷ ts) = t

unfoldable pub dataset_of : Text → Text
unfolding split
dataset_of snapshot = first (split b'@' snapshot)

-- What a poll of `/backup/<uuid>` gives: an error of the client, or the job with its `done` field.
pub data JobReply : Type 0 where
  unreachable : Text → JobReply
  done : JobReply
  job_failed : JobReply
  pending : JobReply

-- `_backupDataset`, whose pipeline has its callback called on success only.
unfoldable pub backup_steps : Host → Text → Text → Text → Text → Action Log Text (Unit {0})
backup_steps host dataset backup mountpoint snapshot_id = do
  exec host (zfs_snapshot (dataset ++ b'@' ∷ snapshot_id))
  exec host (zfs_clone (dataset ++ b'@' ∷ snapshot_id) backup)
  exec host (zfs_set_canmount backup)
  exec host (zfs_set_mountpoint mountpoint backup)
  exec host (zfs_promote backup)

-- `if (err) { err = new verror.VError(err); } else { … return callback(err, backupSnapshot); }`
abbrev pub call_on_success : Outcome Text (Unit {0}) × Log → Text → Outcome Text Text × Log
call_on_success (ok u, log) snapshot = (ok snapshot, log)
call_on_success (err e, log) snapshot = (lost, log)
call_on_success (lost, log) snapshot = (lost, log)
call_on_success (thrown, log) snapshot = (thrown, log)

unfoldable pub backup_dataset : Host → Text → Text → Text → Text → Action Log Text Text
unfolding backup_steps
backup_dataset host dataset backup mountpoint snapshot_id log =
    call_on_success (backup_steps host dataset backup mountpoint snapshot_id log)
      (backup ++ b'@' ∷ snapshot_id)

-- The polls of `_pollRestoreCompletion`: the callback runs at the first reply that is not pending.
unfoldable pub poll_restore_completion : List JobReply → Outcome Text (Unit {0})
poll_restore_completion [] = lost
poll_restore_completion (unreachable e ∷ rest) = err e
poll_restore_completion (done ∷ rest) = ok tt
poll_restore_completion (job_failed ∷ rest) = err (codes "restore job failed")
poll_restore_completion (pending ∷ rest) = poll_restore_completion rest

-- `_receive`. The callback of `_startZfsRecv` has run by the time the child process exits.
unfoldable pub receive : ZfsClient → Host → Text → List JobReply → Action Log Text (Unit {0})
unfolding poll_restore_completion
receive self host server_url replies = do
  exec host (zfs_destroy self.dataset)
  exec host (rm_contents self.mountpoint)
  exec_ignoring host (zfs_recv self.dataset)
  exec host (listen self.zfs_host)
  exec host (post_backup server_url)
  λ log. (poll_restore_completion replies, log)

-- The steps of `restore` that follow the backup.
unfoldable pub restore_steps :
    ZfsClient → Host → Text → Text → List JobReply → Action Log Text (Unit {0})
unfolding receive
restore_steps self host server_url now replies = do
  receive self host server_url replies
  exec host (zfs_set_mountpoint self.mountpoint self.dataset)
  exec host (zfs_set_canmount self.dataset)
  exec host (zfs_mount self.dataset)
  exec host (zfs_snapshot (self.dataset ++ b'@' ∷ now))

-- What the callback of `restore` is given: the error, if there was one, and the snapshot of the
-- dataset that was set aside.
abbrev pub with_snapshot :
    Text → Outcome Text (Unit {0}) × Log → Outcome Text (Option Text × Text) × Log
with_snapshot snapshot (ok u, log) = (ok (none, snapshot), log)
with_snapshot snapshot (err e, log) = (ok (some e, snapshot), log)
with_snapshot snapshot (lost, log) = (lost, log)
with_snapshot snapshot (thrown, log) = (thrown, log)

-- `restore`; `uuid` is what `uuid.v4()` gives, and `before` and `now` are the readings of the clock
-- before the backup and after the dataset was received.
unfoldable pub restore :
    ZfsClient
    → Host
    → Text
    → Text
    → Text
    → Text
    → List JobReply
    → Action Log Text (Option Text × Text)
unfolding backup_dataset restore_steps
restore self host server_url uuid before now replies = do
  snapshot ←
      backup_dataset host self.dataset (self.parent_dataset ++ b'/' ∷ uuid) self.mountpoint before
  λ log. with_snapshot snapshot (restore_steps self host server_url now replies log)

-- `restoreDataset`
unfoldable pub restore_dataset : ZfsClient → Host → Text → Action Log Text (Unit {0})
unfolding dataset_of
restore_dataset self host snapshot = do
  exec_ignoring host (zfs_destroy self.dataset)
  exec host (zfs_clone snapshot self.dataset)
  exec host (zfs_promote self.dataset)
  exec host (zfs_destroy (dataset_of snapshot))
  exec host (zfs_set_canmount self.dataset)
  exec host (zfs_set_mountpoint self.mountpoint self.dataset)
  exec host (mkdirp self.mountpoint)
  exec host (chown self.db_user self.mountpoint)
  exec host (chmod (codes "755") self.mountpoint)
  exec host (zfs_mount self.dataset)

-- `_createDataset`: only if `zfs list` failed.
create_unless : Host → Text → Option Text → Action Log Text (Unit {0})
create_unless host dataset none = return tt
create_unless host dataset (some e) = exec host (zfs_create dataset)

-- `assertDataset`
unfoldable pub assert_dataset : ZfsClient → Host → Action Log Text (Unit {0})
unfolding create_unless
assert_dataset self host = do
  missing ← probe host (zfs_list self.dataset)
  create_unless host self.dataset missing
  exec_ignoring host (zfs_unmount self.dataset)
  exec host (zfs_set_mountpoint self.mountpoint self.dataset)
  exec host (chown self.db_user self.mountpoint)
  exec host (chmod (codes "755") self.mountpoint)
  exec host (rm_contents self.mountpoint)
  exec host (zfs_mount self.dataset)
