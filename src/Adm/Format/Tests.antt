-- ===== src/Adm/Format/Tests.antt =====
-- A state with two asyncs and a deposed peer, laid out for display.
use mathlib.Core.Option
use manatee.Base.{ℕ, codes, ◌≡◌, refl, [], ◌∷◌, map, none, some, text_dec}
use manatee.Base.Texts.Decimals.{show}
use manatee.Base.Objects.{lookup, insert, keys}
use manatee.Adm.{ShardState, frozen}
use manatee.Adm.Format.{peer, label, insert_each, format_shard}
use manatee.Adm.Format.Labels.{list_at, format_shard-lookup}

abbrev shown : ShardState ℕ
shown = record {
  generation = 3;
  init_wal = codes "0/17B7188";
  primary = some 1;
  sync = some 2;
  asyncs = some (3 ∷ 4 ∷ []);
  deposed = some (5 ∷ []);
  freeze = some (frozen (codes "2018-01-01") (codes "repair"));
  one_node_write_mode = none;
}

labels_shown :
    keys (format_shard shown)
    ≡ map codes ("__FROZEN__" ∷ "primary" ∷ "sync" ∷ "async" ∷ "async1" ∷ "deposed" ∷ [])
unfolding format_shard insert_each label insert show text_dec
labels_shown = refl

format_shard-lookup_example :
    (lookup (codes "primary") (format_shard shown) ≡ Option.map peer shown.primary)
    × (lookup (codes "sync") (format_shard shown) ≡ Option.map peer shown.sync)
    × (lookup (label (codes "async") 1) (format_shard shown)
        ≡ Option.map peer (list_at shown.asyncs 1))
    × (lookup (label (codes "deposed") 1) (format_shard shown)
        ≡ Option.map peer (list_at shown.deposed 1))
format_shard-lookup_example = format_shard-lookup shown 1
