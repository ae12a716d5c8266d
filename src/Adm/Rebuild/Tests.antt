-- ===== src/Adm/Rebuild/Tests.antt =====
-- lib/adm.js: the rebuild of a deposed peer.
use manatee.Base.{
  codes, ◌≡◌, ◌≢◌, List, [], ◌∷◌, none, some, true, ok, lost, arith, text_eq, text_dec,
}
use manatee.Base.Objects.{Object}
use manatee.Host.{Host, Succeeded, rm_contents}
use manatee.Adm.{Peer, ShardState}
use manatee.Adm.Samples.{peer_a, peer_b, peer_c, taken_over, node_of}
use manatee.Adm.Edits.{State, answered, last_index}
use manatee.Adm.Edits.Reap.{CutAtLast}
use manatee.Adm.Backfill.{LegacyNode}
use manatee.Adm.Details.Status.{PeerInfo}
use manatee.Adm.Rebuild.Waiting.{active_zk_node, Look, wait_inactive, timeout_of}
use manatee.Adm.Rebuild.Waiting.Ends.{wait_inactive-ends}
use manatee.Adm.Rebuild.{Config, Scene, Trail, rebuild}
use manatee.Adm.Rebuild.Steps.{nothing_done}
use manatee.Adm.Rebuild.Safety.{rebuild-removes}

abbrev config : Config
config = record { zone_id = peer_a.zone_id; data_dir = codes "/data"; session_timeout = none }

abbrev node : Object LegacyNode
node = (codes "10.0.0.1:5432:12345-0000000001", node_of peer_a) ∷ []

abbrev looks : List Look
looks = record { seconds = 1; nodes = ok node } ∷ record { seconds = 61; nodes = ok [] } ∷ []

abbrev online : Peer → PeerInfo
online p = record { ident = p; online = some true; repl = none; lag = none; error = none }

-- The deposed peer has come back as the async.
abbrev back : ShardState PeerInfo
back = record {
  generation = 2;
  init_wal = codes "0/0";
  primary = some (online peer_b);
  sync = some (online peer_c);
  asyncs = some (online peer_a ∷ []);
  deposed = some [];
  freeze = none;
  one_node_write_mode = none;
}

abbrev scene : Scene
scene = record {
  state = ok taken_over;
  active = ok node;
  prompt = answered (codes "yes");
  looks = looks;
  polls = ok (record { cluster = back; answer = ok none }) ∷ [];
  commit = λ s. ok tt;
}

abbrev host : Host
host log c = none

cons_ne_nil : {s : State} {ss : List State} → s ∷ ss ≢ []
cons_ne_nil e = cc

abbrev left : Trail
left = (rebuild config host scene nothing_done).1

rebuild-removes_example :
    (s : State) × (ds : List Peer) × (rest : List Peer) × (scene.state ≡ ok s)
    × (s.deposed ≡ some ds)
    × (left.sent ≡ record s { deposed = some rest } ∷ [])
    × CutAtLast (λ d. text_eq d.zone_id config.zone_id) ds rest
    × Succeeded (rm_contents config.data_dir) left.log
unfolding rebuild text_dec active_zk_node last_index wait_inactive timeout_of
rebuild-removes_example = rebuild-removes config host scene cons_ne_nil

wait_inactive-ends_example :
    wait_inactive peer_a.zone_id 60000
      (record { seconds = 1; nodes = ok node } ∷ record { seconds = 91; nodes = ok node } ∷ [])
    ≢ lost
wait_inactive-ends_example =
    wait_inactive-ends peer_a.zone_id 60000 (record { seconds = 1; nodes = ok node } ∷ [])
      (record { seconds = 91; nodes = ok node }) [] ((λ e. cc), tt) (λ e. cc) (omega arith)
