-- ===== src/Postgres/Roles/ReadOnly.antt =====
-- What postgres runs with after `_primary`.
use manatee.Base.{
  Text, ◌≡◌, List, [], ◌∷◌, Option, none, some, true, arith, ok, Post, Post-intro, ◌∙◌,
}
use mathlib.Core.Option
use manatee.Host.{
  Host, Log, copy_postgresql_conf, write_postgresql_conf, write_recovery_conf, unlink_recovery_conf,
  spawn_postgres, await_exit, kill_postgres, sighup,
}
use manatee.Postgres.Manager.{Mgr, restart}

-- The options that were last written to postgresql.conf, if it is not as it was found or shipped.
abbrev pub conf_of : Log → Option (List (Text × Text))
conf_of [] = none
conf_of ((copy_postgresql_conf, none) ∷ log) = none
conf_of ((write_postgresql_conf options, none) ∷ log) = some options
conf_of (_ ∷ log) = conf_of log

pub conf_of-restart : (host : Host) (s : Mgr) → conf_of (restart host s).1.log ≡ conf_of s.log
unfolding restart
conf_of-restart host s = ground arith

-- The primary that recovery.conf names, with `some none` for no such file and `none` for the file that
-- was found.
abbrev pub recovery_of : Log → Option (Option Text)
recovery_of [] = none
recovery_of ((write_recovery_conf url, none) ∷ log) = some (some url)
recovery_of ((unlink_recovery_conf, none) ∷ log) = some none
recovery_of (_ ∷ log) = recovery_of log

-- The two files as the postgres that runs has read them, if one runs: both when it was started, and
-- postgresql.conf again at each SIGHUP.
abbrev pub loaded : Log → Option (Option (List (Text × Text)) × Option (Option Text))
loaded [] = none
loaded ((spawn_postgres, e) ∷ log) = some (conf_of log, recovery_of log)
loaded ((sighup, e) ∷ log) = Option.map (λ f. (conf_of log, f.1)) (loaded log)
loaded ((await_exit, some e) ∷ log) = none
loaded ((kill_postgres, none) ∷ log) = none
loaded (_ ∷ log) = loaded log

-- Both files were written.
abbrev pub Configured : List (Text × Text) → Option Text → Unit {0} → Mgr → Type 0
Configured options recovery _ s =
    (conf_of s.log ≡ some options) × (recovery_of s.log ≡ some recovery)

-- Postgres runs, and has read the options and the recovery.conf that were written last.
abbrev pub Serving : List (Text × Text) → Option Text → Unit {0} → Mgr → Type 0
Serving options recovery u s =
    Configured options recovery u s
    × (loaded s.log ≡ some (some options, some recovery))
    × (s.postgres ≡ true)

restart-recovery_of :
    (host : Host) (s : Mgr) → recovery_of (restart host s).1.log ≡ recovery_of s.log
unfolding restart
restart-recovery_of host s = ground arith

pub restart-loaded :
    (host : Host) (s : Mgr)
    → (restart host s).0 ≡ ok tt
    → (loaded (restart host s).1.log ≡ some (conf_of s.log, recovery_of s.log))
      × ((restart host s).1.postgres ≡ true)
unfolding restart
restart-loaded host s h = ground arith

pub restart-Serving :
    (host : Host) (options : List (Text × Text)) (recovery : Option Text) (s : Mgr)
    → Configured options recovery tt s
    → Post (Serving options recovery) (restart host s)
restart-Serving host options recovery s (c, r) =
    Post-intro (Serving options recovery) (restart host s) λ _ e.
      let (l, p) = restart-loaded host s e in
      ((conf_of-restart host s ∙ c, restart-recovery_of host s ∙ r), rw (c, r) at l, p)

-- Without a recovery.conf postgres is no standby.
NoRecovery : Unit {0} → Mgr → Type 0
NoRecovery _ s = recovery_of s.log ≡ some none
