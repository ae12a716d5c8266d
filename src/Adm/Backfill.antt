-- ===== src/Adm/Backfill.antt =====
-- lib/adm.js: `stateBackfill`, which makes the first cluster state from the election nodes of version 1
-- (`_getLegacyClusterStates`).
pub mod Rearranged
mod Tests
use manatee.Base.{
  ℕ, Text, codes, List, [], ◌∷◌, ◌++◌, get_elem?, Option, none, some, Outcome, ok, err, lost,
  thrown,
}
use manatee.Base.Texts.{split, cut_last, parse_int, is_missing}
use manatee.Base.Sorting.{sort_by}
use manatee.Adm.{Peer, Freeze, frozen, ShardState}
use manatee.Adm.Edits.{State, Prompt, confirm}

-- The data of an election node. Those of version 1 have no backup URL.
pub record LegacyNode : Type 0 where
  pub ip : Text
  pub pg_url : Text
  pub zone_id : Text
  pub backup_url : Option Text

unfoldable pub part_of : List Text → ℕ → Text
part_of parts i = elim (get_elem? parts i) [ none ↦ codes "undefined" | some part ↦ part ]

-- `zkNode.split('-')[0].split(':')`
unfoldable pub address_parts : Text → List Text
address_parts zk_node = split b':' (part_of (split b'-' zk_node) 0)

unfoldable pub transform_backup_url : Text → Text
unfolding address_parts part_of
transform_backup_url zk_node =
    let parts = address_parts zk_node in
    codes "http://" ++ part_of parts 0 ++ codes ":" ++ part_of parts 2

unfoldable pub transform_pg_url : Text → Text
unfolding address_parts part_of
transform_pg_url zk_node =
    let parts = address_parts zk_node in
    codes "tcp://postgres@" ++ part_of parts 0 ++ codes ":" ++ part_of parts 1 ++ codes "/postgres"

-- The number that `compareNodeNames` sorts by.
unfoldable pub seq_of_node : Text → Option ℕ
seq_of_node name = parse_int (cut_last b'-' name).1

unfoldable pub backup_url_of : Text → Option Text → Text
backup_url_of name none = transform_backup_url name
backup_url_of name (some []) = transform_backup_url name
backup_url_of name (some (u ∷ url)) = u ∷ url

unfoldable pub legacy_peer : Text → LegacyNode → Peer
unfolding backup_url_of
legacy_peer name node = record {
  id = (cut_last b'-' name).0;
  ip = node.ip;
  pg_url = node.pg_url;
  zone_id = node.zone_id;
  backup_url = backup_url_of name node.backup_url;
}

pub record LegacyState : Type 0 where
  pub primary : Option Peer
  pub sync : Option Peer
  pub asyncs : Option (List Peer)

-- The roles by the order of the nodes.
unfoldable pub place : List Peer → LegacyState
place [] = record { primary = none; sync = none; asyncs = none }
place (p ∷ []) = record { primary = some p; sync = none; asyncs = none }
place (p ∷ s ∷ []) = record { primary = some p; sync = some s; asyncs = none }
place (p ∷ s ∷ a ∷ rest) = record { primary = some p; sync = some s; asyncs = some (a ∷ rest) }

with_peer : Text → Outcome Text LegacyNode → Outcome Text (List Peer) → Outcome Text (List Peer)
with_peer name (ok node) (ok peers) = ok (legacy_peer name node ∷ peers)
with_peer name (ok node) r = r
with_peer name (err e) r = err e
with_peer name lost r = lost
with_peer name thrown r = thrown

-- `_getPeerState`, with the data by node.
unfoldable pub read_peers : (Text → Outcome Text LegacyNode) → List Text → Outcome Text (List Peer)
unfolding with_peer
read_peers fetch [] = ok []
read_peers fetch (name ∷ names) = with_peer name (fetch name) (read_peers fetch names)

-- `_getLegacyClusterStates`, of one shard: the peers in the order of their roles.
unfoldable pub legacy_peers :
    (Text → Outcome Text LegacyNode) → List Text → Outcome Text (List Peer)
legacy_peers fetch names = read_peers fetch (sort_by seq_of_node names)

-- `list.pop()`, with what is left, of the list that starts with the given peer.
unfoldable pub pop : Peer → List Peer → Peer × List Peer
pop a [] = (a, [])
pop a (b ∷ rest) = let (z, before) = pop b rest in (z, a ∷ before)

shifted : LegacyState → Option Peer × List Peer
shifted l = elim l.asyncs [
  | none ↦ (l.sync, [])
  | some [] ↦ (l.sync, [])
  | some (a ∷ rest) ↦ elim l.sync [
    | none ↦ (none, a ∷ rest)
    | some s ↦ let (z, before) = pop a rest in (some z, before ++ s ∷ [])
  ]
]

-- `_rearrangeState`
unfoldable pub rearrange : Text → LegacyState → State
unfolding shifted
rearrange date l = record {
  generation = 0;
  init_wal = codes "0/0000000";
  primary = l.primary;
  sync = (shifted l).0;
  asyncs = some (shifted l).1;
  deposed = some [];
  freeze = some (frozen date (codes "manatee-adm state-backfill"));
  one_node_write_mode = none;
}

-- What `_verifyNoState` reads.
pub data Existing : Type 0 where
  no_node found : Existing
  unreadable : Text → Existing

-- What the caller is told, and the states that are sent to ZooKeeper.
pub record Backfilled : Type 0 where
  pub answer : Outcome Text State
  pub sent : List State

refused : Text → Backfilled
refused e = record { answer = err e; sent = [] }

committed : State → Outcome Text (Unit {0}) → Outcome Text State
committed s (ok u) = ok s
committed s (err e) = err e
committed s lost = lost
committed s thrown = thrown

confirmed : State → Outcome Text (Unit {0}) → (State → Outcome Text (Unit {0})) → Backfilled
unfolding refused committed
confirmed s (ok u) commit = record { answer = committed s (commit s); sent = s ∷ [] }
confirmed s (err e) commit = refused e
confirmed s lost commit = record { answer = lost; sent = [] }
confirmed s thrown commit = record { answer = thrown; sent = [] }

from_peers :
    Text → Outcome Text (List Peer) → Prompt → (State → Outcome Text (Unit {0})) → Backfilled
unfolding confirmed refused
from_peers date (ok peers) prompt commit =
    confirmed (rearrange date (place peers)) (confirm prompt) commit
from_peers date (err e) prompt commit = refused e
from_peers date lost prompt commit = record { answer = lost; sent = [] }
from_peers date thrown prompt commit = record { answer = thrown; sent = [] }

-- `stateBackfill`, at the given date.
unfoldable pub state_backfill :
    Text
    → Text
    → Existing
    → (Text → Outcome Text LegacyNode)
    → List Text
    → Prompt
    → (State → Outcome Text (Unit {0}))
    → Backfilled
unfolding from_peers refused
state_backfill date shard no_node fetch names prompt commit =
    from_peers date (legacy_peers fetch names) prompt commit
state_backfill date shard found fetch names prompt commit =
    refused (codes "State already exists for shard " ++ shard)
state_backfill date shard (unreadable e) fetch names prompt commit = refused e
