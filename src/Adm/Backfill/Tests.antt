-- ===== src/Adm/Backfill/Tests.antt =====
-- lib/adm.js: the backfill of a small shard.
use mathlib.Core.List.{Perm}
use manatee.Base.{
  Text, codes, ◌≡◌, ◌↔◌, ◌<◌, refl, List, [], ◌∷◌, length, some, Outcome, ok, err, text_dec,
}
use manatee.Base.Texts.{split, cut_last, parse_int}
use manatee.Base.Sorting.{sort_by}
use manatee.Adm.{Peer, frozen}
use manatee.Adm.Samples.{peer_a, shard, node_of}
use manatee.Adm.Edits.{State, answered, confirm}
use manatee.Adm.Details.Load.Total.{Complete}
use manatee.Adm.Backfill.{
  LegacyNode, seq_of_node, no_node, legacy_peers, legacy_peer, read_peers, place, pop, rearrange,
  state_backfill,
}
use manatee.Adm.Backfill.Rearranged.{all_peers, state_backfill-Perm}

abbrev names : List Text
names = codes "b-0000000002" ∷ codes "c-0000000003" ∷ codes "a-0000000001" ∷ []

-- The peers by the first letter of their nodes.
abbrev fetched : Text → Outcome Text LegacyNode
fetched [] = err (codes "NO_NODE")
fetched (c ∷ name) = ok (node_of (record peer_a { zone_id = c ∷ [] }))

abbrev commits : State → Outcome Text (Unit {0})
commits s = ok tt

abbrev named : Text → Text → Peer
named id zone = legacy_peer id (node_of (record peer_a { zone_id = zone }))

abbrev made : State
made = record shard {
  generation = 0;
  init_wal = codes "0/0000000";
  primary = some (named (codes "a-0000000001") (codes "a"));
  sync = some (named (codes "c-0000000003") (codes "c"));
  asyncs = some (named (codes "b-0000000002") (codes "b") ∷ []);
  freeze = some (frozen (codes "today") (codes "manatee-adm state-backfill"));
}

state_backfill-Perm_example :
    (peers : List Peer) × (legacy_peers fetched names ≡ ok peers)
    × (no_node ≡ no_node)
    × (confirm (answered (codes "y")) ≡ ok tt)
    × ((state_backfill
          (codes "today")
          (codes "1")
          no_node
          fetched
          names
          (answered (codes "y"))
          commits).sent
        ≡ made ∷ [])
    × Perm (all_peers made) peers
    × (Complete made ↔ (1 < length peers))
unfolding state_backfill confirm legacy_peers read_peers sort_by seq_of_node cut_last parse_int
    split rearrange place pop text_dec
state_backfill-Perm_example =
    state_backfill-Perm (codes "today") (codes "1") no_node fetched names (answered (codes "y"))
      commits made refl
