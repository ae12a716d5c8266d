-- ===== src/Postgres/Lifecycle.antt =====
-- lib/postgresMgr.js: `start`, `stop`, `reconfigure`, `_reconfigure` and `close`. A call runs to its
-- callback before the next one is looked at; what calls that come in between meet is the state with
-- `transitioning` set.
pub mod Guards
pub mod Frame
pub mod Contract
mod Tests
use manatee.Base.{
  List, ◌∷◌, Text, codes, text_eq, Option, none, some, Bool, true, false, ◌&&◌, ◌||◌, if◌then◌else◌,
  is_some, not, [], ok, err, Outcome, lost, thrown, Action, after, ◌>>=◌, ◌>>◌, return, fail,
}
use manatee.Host.{Host}
use manatee.Postgres.Manager.{
  Setup, Mgr, Op, Role, primary, sync, async, no_role, Peer, PgConfig, modify, start_postgres,
  stop_postgres,
}
use manatee.Postgres.Roles.{RestoreInput, take_primary, take_standby, update_standby}

abbrev pub is_primary : Role → Bool
is_primary primary = true
is_primary _ = false

abbrev pub same_role : Role → Role → Bool
same_role primary primary = true
same_role sync sync = true
same_role async async = true
same_role no_role no_role = true
same_role _ _ = false

well_formed_as : Bool → Option Peer → Option Peer → Role → Bool
well_formed_as one_node up down primary = not (is_some up) && (not one_node || not (is_some down))
well_formed_as one_node up down sync = is_some up && not (is_some down)
well_formed_as one_node up down async = is_some up && not (is_some down)
well_formed_as one_node up down no_role = not (is_some up) && not (is_some down)

-- The assertions at the head of `reconfigure`.
unfoldable pub well_formed : Bool → PgConfig → Bool
unfolding well_formed_as
well_formed one_node c = well_formed_as one_node c.upstream c.downstream c.role

-- `comparePeers`; a property of a missing peer is read where only one of the two is there.
unfoldable pub compare_peers : Option Peer → Option Peer → Outcome Text Bool
compare_peers none none = ok true
compare_peers (some a) (some b) =
    ok (text_eq a.pg_url b.pg_url && text_eq a.backup_url b.backup_url)
compare_peers _ _ = thrown

both : Bool → Outcome Text Bool → Outcome Text Bool → Outcome Text Bool
both applied (ok true) (ok b) = ok (b && applied)
both applied (ok true) r = r
both applied (ok false) r = ok false
both applied r _ = r

-- The test for a configuration that has been applied, which needs `_pgconfig` to be set.
unfoldable pub already_applied : Mgr → PgConfig → Outcome Text Bool
unfolding compare_peers both
already_applied s c = elim s.pgconfig [
  | none ↦ ok false
  | some _ ↦ elim s.pg_config [
    | none ↦ thrown
    | some d ↦
        if same_role c.role d.role
        then both s.applied (compare_peers c.upstream d.upstream)
            (compare_peers c.downstream d.downstream)
        else ok false
  ]
]

module _ (host : Host) (self : Setup) (i : RestoreInput) where
  -- `onReconfigure` after a success.
  unfoldable pub adopt : PgConfig → Op
  adopt c = modify (λ s. record s { pg_config = some c; applied = true })

  -- `pgConfig.upstream.pgUrl` and `pgConfig.downstream.pgUrl` are read of peers that may be null.
  follow : Option Peer → Op
  follow none s = (thrown, s)
  follow (some upstream) s = take_standby host self upstream i s

  replace_standby : Option Peer → Op
  replace_standby none s = (thrown, s)
  replace_standby (some downstream) s = update_standby host self (some downstream.pg_url) s

  abbrev pub url_of : Option Peer → Option Text
  url_of none = none
  url_of (some p) = some p.pg_url

  -- The full reconfiguration at the end of `_reconfigure`.
  unfoldable pub take_role : PgConfig → Op
  unfolding follow adopt
  take_role c =
      (if is_primary c.role
        then take_primary host self (url_of c.downstream)
        else follow c.upstream)
      >> adopt c

  role_is_primary : Option PgConfig → Bool
  role_is_primary none = false
  role_is_primary (some c) = is_primary c.role

  -- The tests of `_reconfigure` below its first return, for a configuration that was passed in.
  reconfigure_to : PgConfig → Bool → Op
  unfolding take_role replace_standby role_is_primary
  reconfigure_to c true s = if s.postgres then (ok tt, s) else start_postgres host s
  reconfigure_to c false s =
      (if s.postgres && role_is_primary s.pg_config && is_primary c.role
          then replace_standby c.downstream >> adopt c
          else take_role c)
        s

  abbrev answer : Outcome Text Bool → (Bool → Op) → Op
  answer (ok b) k s = k b s
  answer (err e) k s = (err e, s)
  answer lost k s = (lost, s)
  answer thrown k s = (thrown, s)

  -- `_reconfigure(pgConfig, callback)`
  unfoldable pub apply_config : PgConfig → Op
  unfolding reconfigure_to
  apply_config c s = elim c.role [
    | no_role ↦ adopt c s
    | _ ↦ answer (already_applied s c) (reconfigure_to c) s
  ]

  -- `_reconfigure(callback)`: the configuration at hand, in full.
  unfoldable pub apply_current : Op
  unfolding take_role
  apply_current s = elim s.pg_config [ none ↦ (thrown, s) | some c ↦ take_role c s ]

  abbrev pub already_transitioning : Text
  already_transitioning = codes "already transitioning"

  abbrev pub begin : Mgr → Mgr
  begin s = record s { transitioning = true }

  -- The callback that ends a transition. It does not run if the operation throws or is lost.
  abbrev pub finish : (Mgr → Mgr) → Outcome Text (Unit {0}) × Mgr → Outcome Text (Unit {0}) × Mgr
  finish done (ok u, t) = (ok u, record (done t) { transitioning = false })
  finish done (err e, t) = (err e, record t { transitioning = false })
  finish done (lost, t) = (lost, t)
  finish done (thrown, t) = (thrown, t)

  unfoldable pub start_as : Option PgConfig → Op
  start_as none s = (err (codes "postgres manager hasnt yet been configured"), s)
  start_as (some c) s = elim c.role [
    | no_role ↦ (err (codes "postgres manager role is none, not allowing start"), s)
    | _ ↦ finish (λ t. record t { running = true }) (apply_current (begin s))
  ]

  -- `start`
  unfoldable pub start : Op
  unfolding start_as
  start s =
      if s.transitioning
      then (err already_transitioning, s)
      else if s.running
      then (err (codes "postgres is already running"), s)
      else start_as s.pg_config s

  -- `stop`
  unfoldable pub stop : Op
  stop s =
      if s.transitioning
      then (err already_transitioning, s)
      else if s.running
      then finish (λ t. record t { running = false }) (stop_postgres host (begin s))
      else (err (codes "postgres is not running"), s)

  -- `reconfigure`
  unfoldable pub reconfigure : PgConfig → Op
  reconfigure c s =
      if not (well_formed self.one_node_write_mode c)
      then (thrown, s)
      else if s.transitioning
      then (err already_transitioning, s)
      else if s.running
      then finish (λ t. t) (apply_config c (begin s))
      else (ok tt, record s { pg_config = some c; applied = false })

  -- `_shutdownPostgres` of `close`; `_stopHealthCheck` never fails.
  unfoldable pub close : Op
  close s = if s.running then stop s else (ok tt, s)

-- The calls that the state machine makes.
pub data Call : Type 0 where
  starts stops closes : Call
  reconfigures : PgConfig → Call

module _ (host : Host) (self : Setup) (i : RestoreInput) where
  unfoldable pub call : Call → Op
  call starts = start host self i
  call stops = stop host self i
  call closes = close host self i
  call (reconfigures c) = reconfigure host self i c

  -- The state after a sequence of calls, whatever each of them answers.
  unfoldable pub run : List Call → Mgr → Mgr
  run [] s = s
  run (c ∷ cs) s = run cs (call c s).1

-- A manager as its constructor leaves it.
abbrev pub new : Mgr
new = record {
  running = false;
  transitioning = false;
  pg_config = none;
  pgconfig = none;
  applied = false;
  postgres = false;
  transition = none;
  log = [];
}
