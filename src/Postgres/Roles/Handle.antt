-- ===== src/Postgres/Roles/Handle.antt =====
-- What a change of role that succeeds leaves behind: a running postgres under the role's own
-- configuration, and the replication check that belongs to it.
use manatee.Base.{
  Text, codes, ◌≡◌, List, [], ◌∷◌, Option, lost, thrown, none, some, true, arith, ok, err, Outcome,
  Post, Post-ok, Post-intro, Post-later, Post-then,
}
use manatee.Host.{Host, exec, zfs_destroy, unlink_recovery_conf, write_postgresql_conf}
use manatee.Zfs.{assert_dataset, dataset_of}
use manatee.Postgres.Manager.{
  Setup, Mgr, Peer, lift, resume, synchronous_commit, stop_postgres, restart, update_pg_conf,
  init_db, sighup_postgres,
}
use manatee.Postgres.Roles.{
  RestoreInput, enable_writes_conf, primary_conf, standby_conf, cancel_transitioning, take_primary,
  update_standby, start_repl_check, update_configurations, restore_or_revert, restart_again,
  rebuild_standby, try_standby, or_rebuild, take_standby,
}
use manatee.Postgres.Roles.ReadOnly.{conf_of, Configured, Serving, restart-Serving, restart-loaded}

abbrev pub async_conf : List (Text × Text)
async_conf = (synchronous_commit, codes "off") ∷ []

module _ (host : Host) where
  update_configurations-Configured :
      (url : Text) (s : Mgr)
      → Post (Configured async_conf (some url)) (update_configurations host url s)
  unfolding update_configurations update_pg_conf
  update_configurations-Configured url s = ground arith

  restart_again-Serving :
      (self : Setup) (snapshot url : Text) (s : Mgr)
      → Configured async_conf (some url) tt s
      → Post (Serving async_conf (some url)) (restart_again host self snapshot s)
  unfolding restart_again
  restart_again-Serving self snapshot url s h =
      ground (arith, restart-Serving host async_conf (some url) s h)

  destroy-Serving :
      (c url : Text) (s : Mgr)
      → Serving async_conf (some url) tt s
      → Post (Serving async_conf (some url)) (lift (exec host (zfs_destroy c)) s)
  destroy-Serving c url s h = ground arith

  rebuild_standby-Serving :
      (self : Setup) (upstream : Peer) (i : RestoreInput) (s : Mgr)
      → Post (Serving async_conf (some upstream.pg_url)) (rebuild_standby host self upstream i s)
  unfolding rebuild_standby
  rebuild_standby-Serving self upstream i s =
      let U = Serving async_conf (some upstream.pg_url) in
      Post-later U _ (restore_or_revert host self upstream.backup_url i s) λ snapshot s1.
        Post-then (Configured async_conf (some upstream.pg_url)) U _
          (update_configurations host upstream.pg_url s1)
          (update_configurations-Configured upstream.pg_url s1)
          λ _ s2 h.
            Post-then U U _ (restart_again host self snapshot s2)
              (restart_again-Serving self snapshot upstream.pg_url s2 h)
              λ _ s3 k. destroy-Serving (dataset_of snapshot) upstream.pg_url s3 k

  try_standby-Serving :
      (url : Text) (s : Mgr) → Post (Serving async_conf (some url)) (try_standby host url s)
  unfolding try_standby
  try_standby-Serving url s =
      Post-then (Configured async_conf (some url)) (Serving async_conf (some url)) _
        (update_configurations host url s) (update_configurations-Configured url s)
        λ _ s1 h. restart-Serving host async_conf (some url) s1 h

-- An operation whose error is mended by another one.
resume-Post :
    (P : Unit {0} → Mgr → Type 0) (k : Option Text → Mgr → Outcome Text (Unit {0}) × Mgr)
    (r : Outcome Text (Unit {0}) × Mgr)
    → Post P r
    → ((t : Mgr) → P tt t → Post P (k none t))
    → ((e : Text) (t : Mgr) → Post P (k (some e) t))
    → Post P (resume k r)
resume-Post P k (ok u, t) p h n = h t p
resume-Post P k (err e, t) p h n = n e t
resume-Post P k (lost, t) p h n = tt
resume-Post P k (thrown, t) p h n = tt

standby-Post :
    (host : Host) (self : Setup) (upstream : Peer) (i : RestoreInput) (s : Mgr)
    → Post (Serving async_conf (some upstream.pg_url)) (take_standby host self upstream i s)
unfolding take_standby or_rebuild
standby-Post host self upstream i s =
    let U = Serving async_conf (some upstream.pg_url) in
    Post-later U _ (cancel_transitioning host s) λ _ s1.
      Post-later U _ (stop_postgres host s1) λ _ s2.
        Post-later U _ (lift (assert_dataset self.zfs_client host) s2) λ _ s3.
          resume-Post U (or_rebuild host self upstream i) (try_standby host upstream.pg_url s3)
            (try_standby-Serving host upstream.pg_url s3) (λ t p. p)
            (λ e t. rebuild_standby-Serving host self upstream i t)

-- When `_standby` succeeds, at the first try or after a restore from the upstream peer, postgres runs and
-- has read its files as they were written last: a recovery.conf that names the upstream peer, which it
-- reads when it is started, and the options that turn synchronous commit off.
pub take_standby-Serving :
    (host : Host) (self : Setup) (upstream : Peer) (i : RestoreInput) (s : Mgr)
    → (take_standby host self upstream i s).0 ≡ ok tt
    → Serving async_conf (some upstream.pg_url) tt (take_standby host self upstream i s).1
take_standby-Serving host self upstream i s =
    Post-ok (Serving async_conf (some upstream.pg_url)) (take_standby host self upstream i s)
      (standby-Post host self upstream i s)

start_repl_check-Checks :
    (host : Host) (stdby : Text) (s : Mgr)
    → s.postgres ≡ true
    → Post
        (λ _ t. (t.postgres ≡ true) × (t.transition ≡ some stdby))
        (start_repl_check host (some stdby) s)
unfolding start_repl_check
start_repl_check-Checks host stdby s h = ground arith

primary-Post :
    (host : Host) (self : Setup) (stdby : Text) (s : Mgr)
    → Post
        (λ _ t. (t.postgres ≡ true) × (t.transition ≡ some stdby))
        (take_primary host self (some stdby) s)
unfolding take_primary
primary-Post host self stdby s =
    let C = λ (_ : Unit {0}) (t : Mgr). (t.postgres ≡ true) × (t.transition ≡ some stdby) in
    Post-later C _ (cancel_transitioning host s) λ _ s1.
      Post-later C _ (init_db host self s1) λ _ s2.
        Post-later C _ (lift (exec host unlink_recovery_conf) s2) λ _ s3.
          Post-later C _ (update_pg_conf host (primary_conf self) s3) λ _ s4.
            Post-then (λ _ t. t.postgres ≡ true) C _ (restart host s4)
              (Post-intro (λ _ t. t.postgres ≡ true) (restart host s4)
                (λ _ e. (restart-loaded host s4 e).1))
              λ _ s5 k. start_repl_check-Checks host stdby _ k

-- When `_primary` succeeds with a standby, postgres runs and the check for that standby is the one
-- under way: a check that an earlier change of role had started is no longer registered.
pub take_primary-checks :
    (host : Host) (self : Setup) (stdby : Text) (s : Mgr)
    → (take_primary host self (some stdby) s).0 ≡ ok tt
    → ((take_primary host self (some stdby) s).1.postgres ≡ true)
      × ((take_primary host self (some stdby) s).1.transition ≡ some stdby)
take_primary-checks host self stdby s =
    Post-ok (λ _ t. (t.postgres ≡ true) × (t.transition ≡ some stdby))
      (take_primary host self (some stdby) s) (primary-Post host self stdby s)

-- When `_updateStandby` succeeds, the new standby is named in a configuration that is still read-only,
-- its check is under way, and postgres was never restarted.
update_standby-ok :
    (host : Host) (self : Setup) (stdby : Text) (s : Mgr)
    → (update_standby host self (some stdby) s).0 ≡ ok tt
    → (conf_of (update_standby host self (some stdby) s).1.log
        ≡ some (standby_conf self (some stdby)))
      × ((update_standby host self (some stdby) s).1.transition ≡ some stdby)
      × (s.postgres ≡ true)
      × ((update_standby host self (some stdby) s).1.postgres ≡ true)
unfolding update_standby cancel_transitioning update_pg_conf sighup_postgres start_repl_check
update_standby-ok host self stdby s h = ground arith

-- Cancelling a replication check that waits for a standby writes the configuration that enables
-- writes, although the standby was never seen to catch up, whenever that file can be written.
cancel_enables_writes :
    (host : Host) (stdby : Text) (s : Mgr)
    → s.transition ≡ some stdby
    → host s.log (write_postgresql_conf (enable_writes_conf stdby)) ≡ none
    → conf_of (cancel_transitioning host s).1.log ≡ some (enable_writes_conf stdby)
unfolding cancel_transitioning update_pg_conf sighup_postgres
cancel_enables_writes host stdby s h k = ground arith
