-- ===== src/Zfs/Safety.antt =====
-- What a failure can and cannot destroy.
use manatee.Base.{
  zero, suc, replicate, ℕ, Text, ◌≡◌, ◌≢◌, ◌++◌, List, [], ◌∷◌, none, arith, ok, err, lost,
}
use manatee.Host.{
  zfs_list, Host, zfs_create, Issued, Succeeded, Guarded, zfs_destroy, zfs_promote, zfs_mount,
  zfs_set_mountpoint,
}
use manatee.Zfs.{
  pending, poll_restore_completion, receive, ZfsClient, JobReply, backup_steps, restore, dataset_of,
  restore_dataset, assert_dataset,
}

-- `restoreDataset` destroys the dataset that was set aside only after the clone of it has been
-- promoted in its place, whatever the machine answers, if the two have different names.
pub restore_dataset_guards_backup :
    (self : ZfsClient) (host : Host) (snapshot : Text)
    → dataset_of snapshot ≢ self.dataset
    → Guarded
        (zfs_destroy (dataset_of snapshot))
        (zfs_promote self.dataset)
        (restore_dataset self host snapshot []).1
unfolding restore_dataset
restore_dataset_guards_backup self host snapshot other = ground arith

-- Whatever the machine answers, `restore` destroys the dataset only after all of it has been set aside
-- and promoted under the backup's name.
pub restore_destroys_after_backup :
    (self : ZfsClient) (host : Host) (url uuid before now : Text) (replies : List JobReply)
    → Guarded
        (zfs_destroy self.dataset)
        (zfs_promote (self.parent_dataset ++ b'/' ∷ uuid))
        (restore self host url uuid before now replies []).1
unfolding restore
restore_destroys_after_backup self host url uuid before now replies = ground arith

-- `restore` calls back without an error only when the last poll found the job done and the dataset was
-- mounted, and the snapshot that it passes on is then that of the promoted backup.
restore-ok :
    (self : ZfsClient) (host : Host) (url uuid before now snapshot : Text) (replies : List JobReply)
    → (restore self host url uuid before now replies []).0 ≡ ok (none, snapshot)
    → (poll_restore_completion replies ≡ ok tt)
      × Succeeded (zfs_mount self.dataset) (restore self host url uuid before now replies []).1
      × Succeeded
          (zfs_promote (self.parent_dataset ++ b'/' ∷ uuid))
          (restore self host url uuid before now replies []).1
      × (snapshot ≡ (self.parent_dataset ++ b'/' ∷ uuid) ++ b'@' ∷ before)
unfolding restore receive
restore-ok self host url uuid before now snapshot replies h = ground arith

-- If one of the commands that set the dataset aside fails, the callback of `restore` is never
-- called, although no more commands run: `restore` neither succeeds nor reports the error.
restore_hangs :
    (self : ZfsClient) (host : Host) (url uuid before now e : Text) (replies : List JobReply)
    → (backup_steps host self.dataset
        (self.parent_dataset ++ b'/' ∷ uuid)
        self.mountpoint
        before
        []).0
      ≡ err e
    → (restore self host url uuid before now replies []).0 ≡ lost
unfolding restore backup_steps
restore_hangs self host url uuid before now e replies h = ground arith

-- `assertDataset` succeeds only with the dataset mounted at the configured mountpoint, and it creates
-- the dataset only if `zfs list` has failed.
pub assert_dataset-ok :
    (self : ZfsClient) (host : Host)
    → (assert_dataset self host []).0 ≡ ok tt
    → Succeeded (zfs_mount self.dataset) (assert_dataset self host []).1
      × Succeeded (zfs_set_mountpoint self.mountpoint self.dataset) (assert_dataset self host []).1
      × (Issued (zfs_create self.dataset) (assert_dataset self host []).1
          → host [] (zfs_list self.dataset) ≢ none)
unfolding assert_dataset
assert_dataset-ok self host h = ground arith

-- A poll that finds the job still running changes nothing: the callback gets what the first final
-- reply gives, however many replies come before or after it.
pub poll-first_final :
    (n : ℕ) (reply : JobReply) (rest : List JobReply)
    → reply ≢ pending
    → poll_restore_completion (replicate n pending ++ reply ∷ rest)
      ≡ poll_restore_completion (reply ∷ [])
unfolding poll_restore_completion
poll-first_final zero reply rest h = ground arith
poll-first_final (suc n) reply rest h = poll-first_final n reply rest h
