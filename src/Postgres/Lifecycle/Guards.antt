-- ===== src/Postgres/Lifecycle/Guards.antt =====
-- What holds of the manager between two calls, and what a call meets during a transition.
use manatee.Base.{
  List, [], ◌∷◌, ◌≡◌, refl, ◌⊎◌, ◌≢◌, inl, inr, Option-cases, Option, none, some, true, arith, err,
  lost,
}
use manatee.Host.{Host}
use manatee.Postgres.Manager.{Setup, Mgr, PgConfig}
use manatee.Postgres.Roles.{RestoreInput}
use manatee.Postgres.Lifecycle.{
  well_formed, already_transitioning, url_of, adopt, take_role, apply_config, apply_current, start,
  stop, reconfigure, close, Call, starts, stops, closes, reconfigures, call, run, begin,
  already_applied,
}
use manatee.Postgres.Lifecycle.Frame.{
  stop_postgres-SameFrame, take_primary-SameFrame, update_standby-SameFrame, take_standby-SameFrame,
}

module _ (host : Host) (self : Setup) (i : RestoreInput) where
  abbrev pub Formed : Option PgConfig → Type 0
  Formed none = Unit
  Formed (some c) = well_formed self.one_node_write_mode c ≡ true

  -- A running postgres has a configuration, every configuration met the assertions when it came in,
  -- and nothing ever sets `_pgconfig`.
  pub record Inv (s : Mgr) : Type 0 where
    pub configured : s.running ≡ true → s.pg_config ≢ none
    pub formed : Formed s.pg_config
    pub misspelt : s.pgconfig ≡ none

  -- What a change of role does to the fields that the lifecycle reads.
  record Adopts (c : PgConfig) (s t : Mgr) : Type 0 where
    running : t.running ≡ s.running
    transitioning : t.transitioning ≡ s.transitioning
    pgconfig : t.pgconfig ≡ s.pgconfig
    chosen : (t.pg_config ≡ s.pg_config) ⊎ (t.pg_config ≡ some c)

  take_role-Adopts : (c : PgConfig) (s : Mgr) → Adopts c s (take_role host self i c s).1
  unfolding take_role
  take_role-Adopts c s = elim (Option-cases c.upstream) [
    | inl p ↦ ground (arith, take_primary-SameFrame host self (url_of host self i c.downstream) s)
    | inr (u, p) ↦ ground (
      arith,
      take_primary-SameFrame host self (url_of host self i c.downstream) s,
      take_standby-SameFrame host self u i s,
    )
  ]

  apply_config-Adopts :
      (c : PgConfig) (s : Mgr) → s.pgconfig ≡ none → Adopts c s (apply_config host self i c s).1
  unfolding apply_config already_applied adopt
  apply_config-Adopts c s h = elim (Option-cases c.downstream) [
    | inl p ↦ ground (arith, take_role-Adopts c s)
    | inr (d, p) ↦
        ground (arith, take_role-Adopts c s, update_standby-SameFrame host self (some d.pg_url) s)
  ]

  start-Inv : (s : Mgr) → Inv s → Inv (start host self i s).1
  unfolding start apply_current
  start-Inv s v = elim (Option-cases s.pg_config) [
    | inl p ↦ ground arith
    | inr (c, p) ↦ ground (arith, take_role-Adopts c (begin host self i s))
  ]

  stop-Inv : (s : Mgr) → Inv s → Inv (stop host self i s).1
  unfolding stop
  stop-Inv s v = ground (arith, stop_postgres-SameFrame host (begin host self i s))

  reconfigure-Inv : (c : PgConfig) (s : Mgr) → Inv s → Inv (reconfigure host self i c s).1
  unfolding reconfigure
  reconfigure-Inv c s v = ground (arith, apply_config-Adopts c (begin host self i s))

  close-Inv : (s : Mgr) → Inv s → Inv (close host self i s).1
  unfolding close
  close-Inv s v = ground (arith, stop-Inv s v)

  call-Inv : (c : Call) (s : Mgr) → Inv s → Inv (call host self i c s).1
  unfolding call
  call-Inv starts s v = start-Inv s v
  call-Inv stops s v = stop-Inv s v
  call-Inv closes s v = close-Inv s v
  call-Inv (reconfigures c) s v = reconfigure-Inv c s v

  -- After any calls from a manager that keeps the invariant it still does, also where calls fail, throw
  -- or never come back: postgres is marked as running only with a configuration, and each configuration
  -- has the upstream and downstream peers that its role calls for.
  pub calls-Inv : (cs : List Call) (s : Mgr) → Inv s → Inv (run host self i cs s)
  unfolding run
  calls-Inv [] s v = v
  calls-Inv (c ∷ cs) s v = calls-Inv cs (call host self i c s).1 (call-Inv c s v)

  call-stuck : (c : Call) (s : Mgr) → s.transitioning ≡ true → (call host self i c s).1 ≡ s
  unfolding call start stop reconfigure close
  call-stuck c s h = ground arith

  run-stuck : (cs : List Call) (s : Mgr) → s.transitioning ≡ true → run host self i cs s ≡ s
  unfolding run
  run-stuck [] s h = refl
  run-stuck (c ∷ cs) s h = rw (call-stuck c s h) (run-stuck cs s h)

  start-lost :
      (s : Mgr) → (start host self i s).0 ≡ lost → (start host self i s).1.transitioning ≡ true
  unfolding start apply_current
  start-lost s h = elim (Option-cases s.pg_config) [
    | inl p ↦ ground arith
    | inr (c, p) ↦ ground (arith, take_role-Adopts c (begin host self i s))
  ]

  stop-lost :
      (s : Mgr) → (stop host self i s).0 ≡ lost → (stop host self i s).1.transitioning ≡ true
  unfolding stop
  stop-lost s h = ground (arith, stop_postgres-SameFrame host (begin host self i s))

  call-lost :
      (c : Call) (s : Mgr)
      → Inv s
      → (call host self i c s).0 ≡ lost
      → (call host self i c s).1.transitioning ≡ true
  unfolding call reconfigure close
  call-lost starts s v h = start-lost s h
  call-lost stops s v h = stop-lost s h
  call-lost closes s v h = ground (arith, stop-lost s)
  call-lost (reconfigures c) s v h =
      ground (arith, apply_config-Adopts c (begin host self i s) v.misspelt)

  stuck_answers :
      (s : Mgr)
      → s.transitioning ≡ true
      → ((start host self i s).0 ≡ err (already_transitioning host self i))
        × ((stop host self i s).0 ≡ err (already_transitioning host self i))
  unfolding start stop
  stuck_answers s h = ground arith

  -- From a manager that keeps the invariant, a call whose callback is never called, as when a restore
  -- cannot set its dataset aside, blocks the manager for good: whatever calls come after it, none changes
  -- the state or runs a command, and `start` and `stop` answer that a transition is under way.
  pub lost-stuck :
      (c : Call) (cs : List Call) (s : Mgr)
      → Inv s
      → (call host self i c s).0 ≡ lost
      → let t = (call host self i c s).1 in
        (run host self i cs t ≡ t)
        × ((start host self i (run host self i cs t)).0 ≡ err (already_transitioning host self i))
        × ((stop host self i (run host self i cs t)).0 ≡ err (already_transitioning host self i))
  lost-stuck c cs s v h =
      let t = (call host self i c s).1 in
      let busy = call-lost c s v h in
      let same = run-stuck cs t busy in
      (same, rw same (stuck_answers t busy).0, rw same (stuck_answers t busy).1)
