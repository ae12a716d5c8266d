-- ===== src/Adm/Details/Health.antt =====
-- lib/adm.js: when nothing is reported of a cluster.
use manatee.Base.{codes, ◌≡◌, ◌≢◌, [], none, some}
use manatee.Base.Objects.{lookup}
use manatee.Adm.Details.{Detail, Details, Report, first, find}
use manatee.Adm.Details.Links.{Feeds, Chained}

-- The primary and the sync answer, there is an async and no deposed peer, and each peer replicates to
-- the next one.
abbrev pub Healthy : Details → Type 0
Healthy c =
    (p : Detail) × (s : Detail) × (lookup c.primary c.peers ≡ some p)
    × (find c.peers c.sync ≡ some s)
    × (p.pg_error ≡ none)
    × (s.pg_error ≡ none)
    × (c.deposed ≡ [])
    × (c.asyncs ≢ [])
    × Feeds c.peers p c.sync (codes "sync")
    × Feeds c.peers s (first c.asyncs) (codes "async")
    × Chained c.peers c.asyncs

abbrev pub nothing_reported : Report
nothing_reported = record { errors = []; warnings = [] }
