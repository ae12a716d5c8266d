-- ===== src/Adm/Rebuild/Success.antt =====
-- lib/adm.js: what a `rebuild` that succeeds has done and seen.
use mathlib.Core.List.{Mem}
use manatee.Base.{codes, ◌≡◌, List, some, true, ok}
use manatee.Host.{Host, rm_contents, svcadm_disable, svcadm_enable, Log, Succeeded}
use manatee.Adm.Details.Status.{PeerInfo}
use manatee.Adm.Rebuild.Watching.{Found, current_peer}
use manatee.Adm.Rebuild.{Config, Scene}

-- A poll of the sitter finds the peer of the zone online.
abbrev pub SeenOnline : Config → Scene → Type 0
SeenOnline config scene =
    (f : Found) × (p : PeerInfo) × Mem (ok f) scene.polls
    × (current_peer config.zone_id f.cluster ≡ some p)
    × (p.ident.zone_id ≡ config.zone_id)
    × (p.online ≡ some true)

-- The sitter was disabled and enabled, the data deleted, and the peer seen online.
abbrev pub Rebuilt : Config → Scene → Log → Type 0
Rebuilt config scene log =
    Succeeded (svcadm_disable (codes "manatee-sitter")) log
    × Succeeded (rm_contents config.data_dir) log
    × Succeeded (svcadm_enable (codes "manatee-sitter")) log
    × SeenOnline config scene
