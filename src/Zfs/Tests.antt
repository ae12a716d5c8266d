-- ===== src/Zfs/Tests.antt =====
-- The operations of the client on a concrete machine.
use manatee.Base.{Text, codes, ◌≡◌, refl, ◌≢◌, ◌++◌, List, [], ◌∷◌, none, some, ok, err}
use manatee.Host.{Host, Guarded, zfs_destroy, zfs_promote, zfs_clone}
use manatee.Zfs.{
  ZfsClient, JobReply, pending, done, poll_restore_completion, receive, backup_dataset,
  backup_steps, restore_steps, restore, dataset_of, restore_dataset, assert_dataset,
}
use manatee.Zfs.Safety.{restore_dataset_guards_backup, restore_destroys_after_backup}

abbrev client : ZfsClient
client = record {
  dataset = codes "zones/pg";
  parent_dataset = codes "zones";
  mountpoint = codes "/pg";
  db_user = codes "postgres";
  zfs_host = codes "10.0.0.1";
}

-- Every command succeeds.
abbrev calm : Host
calm log c = none

-- A machine that cannot clone.
abbrev no_clone : Host
no_clone log (zfs_clone a b) = some (codes "out of space")
no_clone log _ = none

abbrev set_aside : Text
set_aside = codes "zones/x" ++ b'@' ∷ codes "1"

dataset_of-set_aside : dataset_of set_aside ≡ codes "zones/x"
unfolding dataset_of
dataset_of-set_aside = refl

set_aside_other : dataset_of set_aside ≢ client.dataset
unfolding dataset_of
set_aside_other h = cc

restore_dataset_guards_backup_example :
    Guarded
      (zfs_destroy (dataset_of set_aside))
      (zfs_promote client.dataset)
      (restore_dataset client calm set_aside []).1
restore_dataset_guards_backup_example =
    restore_dataset_guards_backup client calm set_aside set_aside_other

abbrev replies : List JobReply
replies = pending ∷ done ∷ []

restore_destroys_after_backup_example :
    Guarded
      (zfs_destroy client.dataset)
      (zfs_promote (client.parent_dataset ++ b'/' ∷ codes "u"))
      (restore client calm (codes "url") (codes "u") (codes "1") (codes "2") replies []).1
restore_destroys_after_backup_example =
    restore_destroys_after_backup client calm (codes "url") (codes "u") (codes "1") (codes "2")
      replies

abbrev backup_snapshot : Text
backup_snapshot = (client.parent_dataset ++ b'/' ∷ codes "u") ++ b'@' ∷ codes "1"

restored :
    (restore client calm (codes "url") (codes "u") (codes "1") (codes "2") replies []).0
    ≡ ok (none, backup_snapshot)
unfolding restore restore_steps backup_dataset backup_steps receive poll_restore_completion
restored = refl

clone_fails :
    (backup_steps no_clone client.dataset
      (client.parent_dataset ++ b'/' ∷ codes "u")
      client.mountpoint
      (codes "1")
      []).0
    ≡ err (codes "out of space")
unfolding backup_steps
clone_fails = refl

asserted : (assert_dataset client calm []).0 ≡ ok tt
unfolding assert_dataset
asserted = refl

done_final : done ≢ pending
done_final h = cc
