-- ===== src/Shard.antt =====
-- lib/shard.js: how a peer names itself, in its election node and to its own state machine.
pub mod Names
pub mod Shutdown
mod Tests
use manatee.Base.{ℕ, Text, codes, ◌∷◌, ◌++◌, some, Bool, true, if◌then◌else◌}
use manatee.Adm.{Peer}
use manatee.Adm.Backfill.{LegacyNode}

-- What `Shard` uses of the sitter's configuration; the ports are as `%s` prints them.
pub record ShardConfig : Type 0 where
  pub ip : Text
  pub postgres_port : Text
  pub backup_port : Text
  pub zone_id : Text
  pub pg_url : Text

unfoldable pub shard_id : ShardConfig → Text
shard_id config = config.ip ++ b':' ∷ (config.postgres_port ++ b':' ∷ config.backup_port)

unfoldable pub shard_backup_url : ShardConfig → Text
shard_backup_url config = codes "http://" ++ config.ip ++ codes ":" ++ config.backup_port

-- `zkconfig.data`, which becomes the data of the election node.
unfoldable pub node_data : ShardConfig → LegacyNode
node_data config = record {
  ip = config.ip;
  pg_url = config.pg_url;
  zone_id = config.zone_id;
  backup_url = some (shard_backup_url config);
}

-- `self`, as the state machine knows it.
unfoldable pub shard_self : ShardConfig → Peer
shard_self config = record {
  id = shard_id config;
  ip = config.ip;
  pg_url = config.pg_url;
  zone_id = config.zone_id;
  backup_url = shard_backup_url config;
}
