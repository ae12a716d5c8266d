-- ===== src/Adm/Samples.antt =====
-- A small shard, for the tests.
use manatee.Base.{codes, [], ◌∷◌, none, some}
use manatee.Adm.{Peer}
use manatee.Adm.Edits.{State}
use manatee.Adm.Backfill.{LegacyNode}

abbrev pub peer_a : Peer
peer_a = record {
  id = codes "10.0.0.1:5432:12345";
  ip = codes "10.0.0.1";
  pg_url = codes "tcp://a";
  zone_id = codes "zone-aaaa-1";
  backup_url = codes "http://10.0.0.1:12345";
}

abbrev pub peer_b : Peer
peer_b = record {
  id = codes "10.0.0.2:5432:12345";
  ip = codes "10.0.0.2";
  pg_url = codes "tcp://b";
  zone_id = codes "zone-bbbb-2";
  backup_url = codes "http://10.0.0.2:12345";
}

abbrev pub peer_c : Peer
peer_c = record {
  id = codes "10.0.0.3:5432:12345";
  ip = codes "10.0.0.3";
  pg_url = codes "tcp://c";
  zone_id = codes "zone-cccc-3";
  backup_url = codes "http://10.0.0.3:12345";
}

-- A primary, a sync and an async.
abbrev pub shard : State
shard = record {
  generation = 1;
  init_wal = codes "0/0";
  primary = some peer_a;
  sync = some peer_b;
  asyncs = some (peer_c ∷ []);
  deposed = some [];
  freeze = none;
  one_node_write_mode = none;
}

-- The sync has taken over, and the primary is deposed.
abbrev pub taken_over : State
taken_over = record shard {
  generation = 2;
  primary = some peer_b;
  sync = some peer_c;
  asyncs = some [];
  deposed = some (peer_a ∷ []);
}

-- The data of the election node of a peer, in version 1.
abbrev pub node_of : Peer → LegacyNode
node_of p = record { ip = p.ip; pg_url = p.pg_url; zone_id = p.zone_id; backup_url = none }
