-- ===== src/Adm/Details/Load.antt =====
-- lib/adm.js: `loadPeer`, the constructor `ManateeClusterDetails`, and the end of `loadClusterDetails`.
pub mod Total
use mathlib.Core.Option
use manatee.Base.{
  ℕ, Text, codes, List, [], ◌∷◌, map, take, Option, none, some, Bool, true, false, ◌&&◌, not,
  if◌then◌else◌, Outcome, ok, err, lost, thrown,
}
use manatee.Base.Texts.{is_missing}
use manatee.Base.Objects.{Object, insert}
use manatee.Adm.{Peer, Freeze, frozen, bare, ShardState}
use manatee.Adm.Edits.{State}
use manatee.Adm.History.{is_on}
use manatee.Adm.Details.{Repl, Detail, Details, Report, load_errors}
use manatee.Adm.Details.Status.{
  Lag, ErrorText, PeerError, written, other, PeerInfo, Answer, add_postgres_status,
  fill_empty_postgres_status,
}

text_of : Option Text → Text
text_of none = []
text_of (some t) = t

kept_repl : Option Repl → Option Repl
kept_repl none = none
kept_repl (some r) = if is_missing r.state then none else some r

kept_lag : Option Lag → Option (Object ℕ)
kept_lag none = none
kept_lag (some l) = l.time_lag

abbrev pub role_ids : Option (List PeerInfo) → List Text
role_ids none = []
role_ids (some ps) = map (λ p. p.ident.id) ps

abbrev freeze_parts : Option Freeze → Bool × Option Text × Option Text
freeze_parts none = (false, none, none)
freeze_parts (some (frozen date reason)) = (true, some reason, some date)
freeze_parts (some bare) = (true, some (codes "unknown"), some (codes "unknown"))

-- `verror cause format args` is the message of a `VError`, with the message of its cause if it has one.
module _ (verror : Option Text → Text → List Text → Text) where
  error_message : PeerError → Text
  unfolding text_of
  error_message (other t) = t
  error_message (written e) =
      if not (is_missing e.severity) && not (is_missing e.file)
      then verror none (codes "postgres: ") (e.text ∷ [])
      else if not (is_missing e.message)
      then verror none (codes "%s") (text_of e.message ∷ [])
      else if not (is_missing e.errno)
      then verror none (codes "%s") (text_of e.errno ∷ [])
      else verror none e.text []

  pg_error_of : Text → Option PeerError → Option Text
  unfolding error_message
  pg_error_of label none = none
  pg_error_of label (some e) =
      some (verror (some (error_message e)) (codes "peer \"%s\"") (label ∷ []))

  unfoldable pub detail : PeerInfo → Detail
  unfolding pg_error_of kept_repl kept_lag
  detail p = record {
    ident = p.ident;
    label = take 8 p.ident.zone_id;
    repl = kept_repl p.repl;
    lag = kept_lag p.lag;
    pg_error = pg_error_of (take 8 p.ident.zone_id) p.error;
  }

  -- `loadPeer`
  unfoldable pub load_peer : PeerInfo → Object Detail → Object Detail
  unfolding detail
  load_peer p peers = insert p.ident.id (detail p) peers

  unfoldable pub load_peers : List PeerInfo → Object Detail → Object Detail
  unfolding load_peer
  load_peers [] peers = peers
  load_peers (p ∷ ps) peers = load_peers ps (load_peer p peers)

  load_sync : Option PeerInfo → Object Detail → Object Detail
  unfolding load_peer
  load_sync none peers = peers
  load_sync (some p) peers = load_peer p peers

  load_deposed : Option (List PeerInfo) → Object Detail → Object Detail
  unfolding load_peers
  load_deposed none peers = peers
  load_deposed (some ps) peers = load_peers ps peers

  details_of : ShardState PeerInfo → PeerInfo → List PeerInfo → Details
  unfolding load_peer load_sync load_peers load_deposed
  details_of s p ps = record {
    peers = load_deposed s.deposed (load_peers ps (load_sync s.sync (load_peer p [])));
    primary = p.ident.id;
    sync = Option.map (λ q. q.ident.id) s.sync;
    asyncs = map (λ q. q.ident.id) ps;
    deposed = role_ids s.deposed;
    generation = s.generation;
    init_wal = s.init_wal;
    singleton = is_on s.one_node_write_mode;
    is_frozen = (freeze_parts s.freeze).0;
    freeze_reason = (freeze_parts s.freeze).1;
    freeze_time = (freeze_parts s.freeze).2;
  }

  -- `ManateeClusterDetails`, before `loadErrors`.
  unfoldable pub construct : ShardState PeerInfo → Outcome Text Details
  unfolding details_of
  construct s = elim s.primary [
    | none ↦ thrown
    | some p ↦ elim s.asyncs [ none ↦ thrown | some ps ↦ ok (details_of s p ps) ]
  ]

  with_report : Outcome Text Details → Outcome Text (Details × Report)
  with_report (ok c) = elim (load_errors c) [
    | ok r ↦ ok (c, r)
    | err e ↦ err e
    | lost ↦ lost
    | thrown ↦ thrown
  ]
  with_report (err e) = err e
  with_report lost = lost
  with_report thrown = thrown

  -- `loadClusterDetails`, from the cluster state on.
  unfoldable pub load_cluster_details :
      Bool → (Text → Answer Repl) → (Text → Answer Lag) → State → Outcome Text (Details × Report)
  unfolding with_report construct
  load_cluster_details skip_postgres repl lag s = with_report (
      construct
        (if skip_postgres then fill_empty_postgres_status s else add_postgres_status repl lag s))
