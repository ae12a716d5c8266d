-- ===== src/Shard/Names.antt =====
-- lib/shard.js and lib/adm.js: the election node of a peer, read back.
use manatee.Base.{Text, ◌≡◌, refl, [], ◌∷◌, ◌++◌, none, arith}
use manatee.Base.Texts.Splits.{Without, AllWithout, split-join, cut_last-append, Without-append}
use manatee.Adm.Backfill.{
  LegacyNode, legacy_peer, transform_backup_url, address_parts, part_of, backup_url_of,
}
use manatee.Shard.{ShardConfig, shard_id, shard_backup_url, node_data, shard_self}

-- The name of the election node that ZooKeeper makes for the peer.
abbrev pub node_name : ShardConfig → Text → Text
node_name config seq = shard_id config ++ b'-' ∷ seq

-- The address and the ports hold no dash, and no colon.
abbrev pub IsPlainConfig : ShardConfig → Type 0
IsPlainConfig config =
    AllWithout b'-' (config.ip ∷ config.postgres_port ∷ config.backup_port ∷ [])
    × AllWithout b':' (config.ip ∷ config.postgres_port ∷ config.backup_port ∷ [])

shard_id-no_dash : (config : ShardConfig) → IsPlainConfig config → Without b'-' (shard_id config)
unfolding shard_id
shard_id-no_dash config ((a, (b, (c, _))), _) =
    Without-append b'-' config.ip (b':' ∷ (config.postgres_port ++ b':' ∷ config.backup_port)) a (
      ground arith,
      Without-append b'-' config.postgres_port (b':' ∷ config.backup_port) b (ground arith, c),
    )

address_parts-node_name :
    (config : ShardConfig) (seq : Text)
    → IsPlainConfig config
    → Without b'-' seq
    → address_parts (node_name config seq)
      ≡ config.ip ∷ config.postgres_port ∷ config.backup_port ∷ []
unfolding address_parts part_of shard_id
address_parts-node_name config seq (d, c) h =
    rw (split-join b'-' (shard_id config) (seq ∷ []) (shard_id-no_dash config (d, c), (h, tt)))
      (split-join b':' config.ip (config.postgres_port ∷ config.backup_port ∷ []) c)

transform_backup_url-node_name :
    (config : ShardConfig) (seq : Text)
    → IsPlainConfig config
    → Without b'-' seq
    → transform_backup_url (node_name config seq) ≡ shard_backup_url config
unfolding transform_backup_url shard_backup_url part_of
transform_backup_url-node_name config seq p h = rw (address_parts-node_name config seq p h) refl

-- The data of the peer as a sitter of version 1 writes it, without a backup URL.
abbrev pub old_data : ShardConfig → LegacyNode
old_data config = record (node_data config) { backup_url = none }

-- From the name and the data of a peer's election node manatee-adm gets back the peer as its own state
-- machine knows it, with or without a backup URL in the data, if the address and the ports hold no dash
-- and no colon, and the sequence number no dash.
pub legacy_peer-shard_self :
    (config : ShardConfig) (seq : Text)
    → IsPlainConfig config
    → Without b'-' seq
    → (legacy_peer (node_name config seq) (node_data config) ≡ shard_self config)
      × (legacy_peer (node_name config seq) (old_data config) ≡ shard_self config)
unfolding legacy_peer node_data shard_self backup_url_of shard_backup_url
legacy_peer-shard_self config seq p h = (
  rw (cut_last-append b'-' (shard_id config) seq h) refl,
  rw (cut_last-append b'-' (shard_id config) seq h, transform_backup_url-node_name config seq p h)
      refl,
)
