-- ===== src/Postgres/Lifecycle/Frame.antt =====
-- The changes of role leave alone what the lifecycle decides by.
use manatee.Base.{
  Text, ◌≡◌, refl, ◌∙◌, Option, none, some, arith, ok, err, lost, thrown, Outcome, Action, after,
}
use manatee.Host.{
  write_postgresql_conf, Host, Log, exec, exec_ignoring, unlink_recovery_conf, take_snapshot,
}
use manatee.Zfs.{assert_dataset}
use manatee.Postgres.Manager.{
  Setup, Mgr, Peer, lift, resume, stop_postgres, start_postgres, restart, sighup_postgres,
  update_pg_conf, init_db,
}
use manatee.Postgres.Roles.{
  RestoreInput, cancel_transitioning, take_primary, update_standby, start_repl_check,
  update_configurations, restore_or_revert, restart_again, rebuild_standby, try_standby,
  primary_conf, or_rebuild, take_standby,
}

-- The same answers to every test of `start`, `stop` and `reconfigure`.
pub record SameFrame (s t : Mgr) : Type 0 where
  pub running : t.running ≡ s.running
  pub transitioning : t.transitioning ≡ s.transitioning
  pub pg_config : t.pg_config ≡ s.pg_config
  pub pgconfig : t.pgconfig ≡ s.pgconfig
  pub applied : t.applied ≡ s.applied

pub SameFrame-trans : {s t u : Mgr} → SameFrame s t → SameFrame t u → SameFrame s u
SameFrame-trans h k = record {
  running = k.running ∙ h.running;
  transitioning = k.transitioning ∙ h.transitioning;
  pg_config = k.pg_config ∙ h.pg_config;
  pgconfig = k.pgconfig ∙ h.pgconfig;
  applied = k.applied ∙ h.applied;
}

SameFrame-refl : (s : Mgr) → SameFrame s s
SameFrame-refl s = record {
  running = refl;
  transitioning = refl;
  pg_config = refl;
  pgconfig = refl;
  applied = refl;
}

-- A chain keeps the frame if its first part does and the rest does from any state.
after-SameFrame {ℓ κ} :
    {A : Type ℓ} {B : Type κ} (s : Mgr) (f : A → Action Mgr Text B) (r : Outcome Text A × Mgr)
    → SameFrame s r.1
    → ((a : A) (t : Mgr) → SameFrame t (f a t).1)
    → SameFrame s (after f r).1
after-SameFrame s f (ok a, t) h k = SameFrame-trans h (k a t)
after-SameFrame s f (err e, t) h k = h
after-SameFrame s f (lost, t) h k = h
after-SameFrame s f (thrown, t) h k = h

resume-SameFrame {ℓ} :
    {A : Type ℓ} (s : Mgr) (f : Option Text → Action Mgr Text A) (r : Outcome Text (Unit {0}) × Mgr)
    → SameFrame s r.1
    → ((o : Option Text) (t : Mgr) → SameFrame t (f o t).1)
    → SameFrame s (resume f r).1
resume-SameFrame s f (ok a, t) h k = SameFrame-trans h (k none t)
resume-SameFrame s f (err e, t) h k = SameFrame-trans h (k (some e) t)
resume-SameFrame s f (lost, t) h k = h
resume-SameFrame s f (thrown, t) h k = h

lift-SameFrame {ℓ} : {A : Type ℓ} (m : Action Log Text A) (s : Mgr) → SameFrame s (lift m s).1
lift-SameFrame m s = record {
  running = refl;
  transitioning = refl;
  pg_config = refl;
  pgconfig = refl;
  applied = refl;
}

module _ (host : Host) where
  pub stop_postgres-SameFrame : (s : Mgr) → SameFrame s (stop_postgres host s).1
  unfolding stop_postgres
  stop_postgres-SameFrame s = ground arith

  pub start_postgres-SameFrame : (s : Mgr) → SameFrame s (start_postgres host s).1
  unfolding start_postgres
  start_postgres-SameFrame s = ground arith

  restart-SameFrame : (s : Mgr) → SameFrame s (restart host s).1
  unfolding restart
  restart-SameFrame s = ground arith

  cancel_transitioning-SameFrame : (s : Mgr) → SameFrame s (cancel_transitioning host s).1
  unfolding cancel_transitioning sighup_postgres update_pg_conf
  cancel_transitioning-SameFrame s = ground arith

  start_repl_check-SameFrame :
      (stdby : Option Text) (s : Mgr) → SameFrame s (start_repl_check host stdby s).1
  unfolding start_repl_check
  start_repl_check-SameFrame none s = SameFrame-refl s
  start_repl_check-SameFrame (some stdby) s = ground arith

  init_db-SameFrame : (self : Setup) (s : Mgr) → SameFrame s (init_db host self s).1
  unfolding init_db
  init_db-SameFrame self s = ground arith

  update_configurations-SameFrame :
      (url : Text) (s : Mgr) → SameFrame s (update_configurations host url s).1
  unfolding update_configurations update_pg_conf
  update_configurations-SameFrame url s = ground arith

  restore_or_revert-SameFrame :
      (self : Setup) (url : Text) (i : RestoreInput) (s : Mgr)
      → SameFrame s (restore_or_revert host self url i s).1
  unfolding restore_or_revert
  restore_or_revert-SameFrame self url i s = ground arith

  restart_again-SameFrame :
      (self : Setup) (snapshot : Text) (s : Mgr)
      → SameFrame s (restart_again host self snapshot s).1
  unfolding restart_again
  restart_again-SameFrame self snapshot s = ground (arith, restart-SameFrame s)

  pub take_primary-SameFrame :
      (self : Setup) (stdby : Option Text) (s : Mgr)
      → SameFrame s (take_primary host self stdby s).1
  unfolding take_primary update_pg_conf
  take_primary-SameFrame self stdby s =
      after-SameFrame s _ (cancel_transitioning host s) (cancel_transitioning-SameFrame s) λ _ a.
        after-SameFrame a _ (init_db host self a) (init_db-SameFrame self a) λ _ b.
          after-SameFrame b _ (lift (exec host unlink_recovery_conf) b)
            (lift-SameFrame (exec host unlink_recovery_conf) b)
            λ _ c.
              after-SameFrame c _ (update_pg_conf host (primary_conf self) c)
                (lift-SameFrame (exec host (write_postgresql_conf (primary_conf self))) c)
                λ _ d. after-SameFrame d _ (restart host d) (restart-SameFrame d) λ _ e. ground (
                  arith,
                  start_repl_check-SameFrame stdby (lift (exec_ignoring host take_snapshot) e).1,
                )

  pub update_standby-SameFrame :
      (self : Setup) (stdby : Option Text) (s : Mgr)
      → SameFrame s (update_standby host self stdby s).1
  unfolding update_standby update_pg_conf sighup_postgres start_repl_check
  update_standby-SameFrame self stdby s =
      after-SameFrame s _ (cancel_transitioning host s) (cancel_transitioning-SameFrame s)
        λ _ a. ground arith

  rebuild_standby-SameFrame :
      (self : Setup) (upstream : Peer) (i : RestoreInput) (s : Mgr)
      → SameFrame s (rebuild_standby host self upstream i s).1
  unfolding rebuild_standby
  rebuild_standby-SameFrame self upstream i s =
      after-SameFrame s _ (restore_or_revert host self upstream.backup_url i s)
        (restore_or_revert-SameFrame self upstream.backup_url i s)
        λ snapshot a.
          after-SameFrame a _ (update_configurations host upstream.pg_url a)
            (update_configurations-SameFrame upstream.pg_url a)
            λ _ b.
              after-SameFrame b _ (restart_again host self snapshot b)
                (restart_again-SameFrame self snapshot b) λ _ c. ground arith

  or_rebuild-SameFrame :
      (self : Setup) (upstream : Peer) (i : RestoreInput) (o : Option Text) (s : Mgr)
      → SameFrame s (or_rebuild host self upstream i o s).1
  unfolding or_rebuild
  or_rebuild-SameFrame self upstream i none s = SameFrame-refl s
  or_rebuild-SameFrame self upstream i (some e) s = rebuild_standby-SameFrame self upstream i s

  try_standby-SameFrame : (url : Text) (s : Mgr) → SameFrame s (try_standby host url s).1
  unfolding try_standby
  try_standby-SameFrame url s =
      after-SameFrame s _ (update_configurations host url s) (update_configurations-SameFrame url s)
        λ _ a. restart-SameFrame a

  pub take_standby-SameFrame :
      (self : Setup) (upstream : Peer) (i : RestoreInput) (s : Mgr)
      → SameFrame s (take_standby host self upstream i s).1
  unfolding take_standby
  take_standby-SameFrame self upstream i s =
      after-SameFrame s _ (cancel_transitioning host s) (cancel_transitioning-SameFrame s) λ _ a.
        after-SameFrame a _ (stop_postgres host a) (stop_postgres-SameFrame a) λ _ b.
          after-SameFrame b _ (lift (assert_dataset self.zfs_client host) b)
            (lift-SameFrame (assert_dataset self.zfs_client host) b)
            λ _ c.
              resume-SameFrame c (or_rebuild host self upstream i)
                (try_standby host upstream.pg_url c) (try_standby-SameFrame upstream.pg_url c)
                (or_rebuild-SameFrame self upstream i)
