-- ===== src/Postgres/Lifecycle/Contract.antt =====
-- What the callbacks of the lifecycle promise.
use manatee.Base.{
  Text, ◌≡◌, ◌≢◌, inl, inr, Option-cases, none, some, true, false, arith, ok, err, thrown,
}
use manatee.Host.{Host, kill_postgres}
use manatee.Postgres.Manager.{Setup, Mgr, primary, sync, no_role, Peer, PgConfig, stop_postgres}
use manatee.Postgres.Roles.{RestoreInput, take_standby, cancel_transitioning}
use manatee.Postgres.Lifecycle.{
  well_formed, take_role, apply_config, apply_current, start, reconfigure, begin, already_applied,
}

module _ (host : Host) (self : Setup) (i : RestoreInput) where
  take_role-ok :
      (c : PgConfig) (s : Mgr)
      → (take_role host self i c s).0 ≡ ok tt
      → ((take_role host self i c s).1.pg_config ≡ some c)
        × ((take_role host self i c s).1.applied ≡ true)
  unfolding take_role
  take_role-ok c s h = ground arith

  -- When `start` calls back without an error, it was idle with a configuration whose role is not
  -- `none`; postgres is then marked as running, that configuration as applied, and the transition is
  -- over.
  pub start-ok :
      (s : Mgr)
      → (start host self i s).0 ≡ ok tt
      → (s.transitioning ≡ false)
        × (s.running ≡ false)
        × ((start host self i s).1.running ≡ true)
        × ((start host self i s).1.transitioning ≡ false)
        × ((start host self i s).1.applied ≡ true)
        × ((start host self i s).1.pg_config ≡ s.pg_config)
        × ((c : PgConfig) × (s.pg_config ≡ some c) × (c.role ≢ no_role))
  unfolding start apply_current
  start-ok s h = elim (Option-cases s.pg_config) [
    | inl p ↦ absurd (ground arith)
    | inr (c, p) ↦ ground (arith, take_role-ok c (begin host self i s))
  ]

  -- A manager that already runs as the synchronous standby of a peer, with that configuration applied,
  -- stops postgres when it is given the very same configuration: if the process outlives its signals,
  -- the call fails with that error.
  pub reconfigure_same_stops :
      (s : Mgr) (c : PgConfig) (u : Peer) (e : Text)
      → s.running ≡ true
      → s.transitioning ≡ false
      → s.pg_config ≡ some c
      → s.applied ≡ true
      → s.pgconfig ≡ none
      → s.postgres ≡ true
      → s.transition ≡ none
      → c.role ≡ sync
      → c.upstream ≡ some u
      → c.downstream ≡ none
      → host s.log kill_postgres ≡ some e
      → (reconfigure host self i c s).0 ≡ err e
  unfolding reconfigure well_formed apply_config already_applied take_role take_standby
      cancel_transitioning stop_postgres
  reconfigure_same_stops s c u e h1 h2 h3 h4 h5 h6 h7 h8 h9 ha hb = ground arith

  -- A primary that runs, and that is told to go on as a primary with no downstream peer, throws on the
  -- missing peer and is left in transition, although the assertions of `reconfigure` allow that
  -- configuration.
  primary_alone_throws :
      (s : Mgr) (c d : PgConfig)
      → s.running ≡ true
      → s.transitioning ≡ false
      → s.postgres ≡ true
      → s.pgconfig ≡ none
      → s.pg_config ≡ some d
      → d.role ≡ primary
      → c.role ≡ primary
      → c.upstream ≡ none
      → c.downstream ≡ none
      → ((reconfigure host self i c s).0 ≡ thrown)
        × ((reconfigure host self i c s).1.transitioning ≡ true)
  unfolding reconfigure well_formed apply_config already_applied
  primary_alone_throws s c d h1 h2 h3 h4 h5 h6 h7 h8 h9 = ground arith
