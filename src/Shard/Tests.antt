-- ===== src/Shard/Tests.antt =====
-- lib/shard.js: a peer and its election node.
use manatee.Base.{codes, ◌≡◌, refl}
use manatee.Adm.Backfill.{legacy_peer}
use manatee.Shard.{ShardConfig, shard_self, node_data}
use manatee.Shard.Names.{node_name, old_data, legacy_peer-shard_self}

abbrev config : ShardConfig
config = record {
  ip = codes "10.0";
  postgres_port = codes "54";
  backup_port = codes "12";
  zone_id = codes "a-b";
  pg_url = codes "tcp://a";
}

legacy_peer-shard_self_example :
    (legacy_peer (node_name config (codes "07")) (node_data config) ≡ shard_self config)
    × (legacy_peer (node_name config (codes "07")) (old_data config) ≡ shard_self config)
legacy_peer-shard_self_example =
    legacy_peer-shard_self config (codes "07")
      (
        ((refl, (refl, (refl, (refl, tt)))), ((refl, (refl, tt)), ((refl, (refl, tt)), tt))),
        ((refl, (refl, (refl, (refl, tt)))), ((refl, (refl, tt)), ((refl, (refl, tt)), tt))),
      )
      (refl, (refl, tt))
