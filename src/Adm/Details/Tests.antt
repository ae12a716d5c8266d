-- ===== src/Adm/Details/Tests.antt =====
-- lib/adm.js: the summary of a small shard.
use manatee.Base.{
  inr, Text, codes, ◌≡◌, ◌↔◌, refl, List, [], ◌∷◌, Option, none, some, false, ok, text_dec,
}
use manatee.Base.Objects.{lookup}
use manatee.Adm.{Peer}
use manatee.Adm.Samples.{peer_a, peer_b, peer_c, shard}
use manatee.Adm.Details.{
  Repl, Detail, Details, load_errors, load_repl_errors, async_errors, both_lists,
}
use manatee.Adm.Details.Health.{nothing_reported}
use manatee.Adm.Details.Runs.{Runs}
use manatee.Adm.Details.Status.{Answer, answered}
use manatee.Adm.Details.Load.{load_cluster_details}
use manatee.Adm.Details.Load.Total.{Complete, load_cluster_details_iff}

abbrev streams_to : Peer → Text → Repl
streams_to p kind = record {
  state = some (codes "streaming");
  client_addr = some p.ip;
  sync_state = some kind;
}

abbrev up : Peer → Option Repl → Detail
up p r = record { ident = p; label = codes "zone"; repl = r; lag = none; pg_error = none }

abbrev cluster : Details
cluster = record {
  peers =
      (peer_a.id, up peer_a (some (streams_to peer_b (codes "sync"))))
      ∷ (peer_b.id, up peer_b (some (streams_to peer_c (codes "async"))))
      ∷ (peer_c.id, up peer_c none)
      ∷ [];
  primary = peer_a.id;
  sync = some peer_b.id;
  asyncs = peer_c.id ∷ [];
  deposed = [];
  generation = 1;
  init_wal = codes "0/0";
  singleton = false;
  is_frozen = false;
  freeze_reason = none;
  freeze_time = none;
}

load_errors-cluster : load_errors cluster ≡ ok nothing_reported
unfolding load_errors load_repl_errors async_errors both_lists lookup text_dec
load_errors-cluster = refl

-- The message of an error, without what is formatted into it.
abbrev message : Option Text → Text → List Text → Text
message none format args = format
message (some cause) format args = cause

abbrev no_row : {A : Type 0} → Text → Answer A
no_row url = answered none

load_cluster_details_iff_example :
    Runs (load_cluster_details message false no_row no_row shard) ↔ Complete shard
load_cluster_details_iff_example = load_cluster_details_iff message false no_row no_row shard

load_cluster_details-shard : Runs (load_cluster_details message false no_row no_row shard)
load_cluster_details-shard =
    (load_cluster_details_iff message false no_row no_row shard).1
      ((λ e. cc), (λ e. cc), inr (λ e. cc))
