-- ===== src/Adm/Details/Status.antt =====
-- lib/adm.js: `_addPostgresStatus` and `_fillEmptyPostgresStatus`, what is known of each peer's postgres.
use mathlib.Core.Option
use manatee.Base.{ℕ, Text, codes, map, Option, none, some, Bool, true, false}
use manatee.Base.Objects.{Object, insert, lookup}
use manatee.Adm.{Peer, ShardState}
use manatee.Adm.Edits.{State}
use manatee.Adm.Details.{Repl}

-- The first row of the lag query. The interval holds numbers by unit.
pub record Lag : Type 0 where
  pub time_lag : Option (Object ℕ)

-- A text in JSON, by what `JSON.parse` makes of it.
pub record ErrorText : Type 0 where
  pub text : Text
  pub severity : Option Text
  pub file : Option Text
  pub message : Option Text
  pub errno : Option Text

-- The field `error` of a peer, where it is truthy: a text, or something else by its `toString()`.
pub data PeerError : Type 0 where
  written : ErrorText → PeerError
  other : Text → PeerError

-- A peer of the state with what is known of its postgres.
pub record PeerInfo : Type 0 where
  pub ident : Peer
  pub online : Option Bool
  pub repl : Option Repl
  pub lag : Option Lag
  pub error : Option PeerError

-- What a query answers: the error, or the first row, if there is one.
pub data Answer (A : Type 0) : Type 0 where
  failed : PeerError → Answer A
  answered : Option A → Answer A

pub data Role : Type 0 where
  primary sync async : Role

-- A peer as it is in the cluster state.
unfoldable pub unasked : Peer → PeerInfo
unasked p = record { ident = p; online = none; repl = none; lag = none; error = none }

zero_unless : Text → Object ℕ → Object ℕ
zero_unless unit interval = elim (lookup unit interval) [
  | none ↦ insert unit 0 interval
  | some n ↦ interval
]

-- An interval with the minutes and seconds that are elided when they are zero.
unfoldable pub filled : Lag → Lag
unfolding zero_unless
filled l = elim l.time_lag [
  | none ↦ l
  | some interval ↦ record {
    time_lag = some (zero_unless (codes "seconds") (zero_unless (codes "minutes") interval));
  }
]

abbrev no_repl : Repl
no_repl = record { state = none; client_addr = none; sync_state = none }

with_lag : PeerInfo → Answer Lag → PeerInfo
with_lag entry (failed e) = record entry { error = some e }
with_lag entry (answered none) = record entry { lag = some (filled (record { time_lag = none })) }
with_lag entry (answered (some l)) = record entry { lag = some (filled l) }

found_repl : Option Repl → Repl
found_repl none = no_repl
found_repl (some r) = r

with_repl : Role → PeerInfo → Answer Repl → Answer Lag → PeerInfo
unfolding found_repl with_lag
with_repl role entry (failed e) lag = record entry { error = some e; online = some false }
with_repl primary entry (answered r) lag = record entry {
  online = some true;
  repl = some (found_repl r);
}
with_repl sync entry (answered r) lag =
    with_lag (record entry { online = some true; repl = some (found_repl r) }) lag
with_repl async entry (answered r) lag =
    with_lag (record entry { online = some true; repl = some (found_repl r) }) lag

unfoldable pub ask : (Text → Answer Repl) → (Text → Answer Lag) → Role → Peer → PeerInfo
unfolding with_repl
ask repl lag role p = with_repl role (unasked p) (repl p.pg_url) (lag p.pg_url)

-- A state with something for each peer of it.
unfoldable pub each_peer :
    {P Q : Type 0} → (P → Q) → (P → Q) → (P → Q) → (P → Q) → ShardState P → ShardState Q
each_peer f g h k s = record {
  generation = s.generation;
  init_wal = s.init_wal;
  primary = Option.map f s.primary;
  sync = Option.map g s.sync;
  asyncs = Option.map (map h) s.asyncs;
  deposed = Option.map (map k) s.deposed;
  freeze = s.freeze;
  one_node_write_mode = s.one_node_write_mode;
}

-- `_addPostgresStatus`, with the answers by the URL that is asked. The deposed peers are not asked.
unfoldable pub add_postgres_status :
    (Text → Answer Repl) → (Text → Answer Lag) → State → ShardState PeerInfo
unfolding each_peer ask
add_postgres_status repl lag s =
    each_peer (ask repl lag primary) (ask repl lag sync) (ask repl lag async) unasked s

abbrev pub not_fetched : PeerError
not_fetched = written (record {
  text = codes "{\"name\":\"Error\",\"message\":\"postgres state not fetched for peer\"}";
  severity = none;
  file = none;
  message = some (codes "postgres state not fetched for peer");
  errno = none;
})

unfoldable pub unfetched : Peer → PeerInfo
unfetched p = record (unasked p) { online = some false; error = some not_fetched }

-- `_fillEmptyPostgresStatus`
unfoldable pub fill_empty_postgres_status : State → ShardState PeerInfo
unfolding each_peer
fill_empty_postgres_status s = each_peer unfetched unfetched unfetched unfetched s
