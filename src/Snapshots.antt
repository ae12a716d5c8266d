-- ===== src/Snapshots.antt =====
-- lib/snapShotter.js: the periodic cleanup of the snapshots that the daemon takes of its dataset.
pub mod Bounds
pub mod Daemon
mod Tests
pub mod Success
use manatee.Base.{
  ℕ, zero, suc, ◌+◌, ◌-◌, Text, codes, List, [], ◌∷◌, ◌++◌, Option, none, some, Bool, true, false,
  ◌&&◌, leb, ltb, ◌==◌, if◌then◌else◌, length, Outcome, ok, err, after,
}
use manatee.Base.Texts.{split}

-- The worst level at which a cleanup has logged.
pub data Level : Type 0 where
  quiet error fatal : Level

-- `deletedCount` and `stuckSnapshots`, each with the snapshots in the order of the attempts, and the
-- arguments of the runs of zfs(1M) that the attempts have made.
pub record Cleanup : Type 0 where
  pub deleted : List Text
  pub stuck : List Text
  pub level : Level
  pub commands : List (List Text)

abbrev pub all_digits : Text → Bool
all_digits [] = true
all_digits (c ∷ s) = (leb b'0' c && leb c b'9') && all_digits s

-- `/^\d{13}$/`
unfoldable pub is_timestamp : Text → Bool
is_timestamp s = length s == 13 && all_digits s

-- `RE_SNAPSHOT`: two parts around one `@`, neither of them empty nor holding another.
snapshot_parts : List Text → Option (Text × Text)
snapshot_parts ((a ∷ s) ∷ (b ∷ t) ∷ []) = some (a ∷ s, b ∷ t)
snapshot_parts _ = none

has_timestamp : Option (Text × Text) → Bool
has_timestamp none = false
has_timestamp (some (dataset, name)) = is_timestamp name

-- The filter of `_getSnapshots`, line by line of what `zfs list` printed.
unfoldable pub is_manatee_snapshot : Text → Bool
unfolding snapshot_parts has_timestamp is_timestamp split
is_manatee_snapshot line = has_timestamp (snapshot_parts (split b'@' line))

unfoldable pub get_snapshots : List Text → List Text
get_snapshots [] = []
get_snapshots (l ∷ lines) =
    let rest = get_snapshots lines in if is_manatee_snapshot l then l ∷ rest else rest

-- What `_deleteSnapshot` has zfs(1M) run, and the error that it calls back with.
pub record Deletion : Type 0 where
  pub ran : List (List Text)
  pub error : Option Text

-- By the number of the attempt and the snapshot.
abbrev pub Deleter : Type 0
Deleter = ℕ → Text → Deletion

-- One round of the pipeline, for a deletion that failed.
record_failure : ℕ → ℕ → Text → Text → Cleanup → Outcome Text (Unit {0}) × Cleanup
record_failure total excess s e c =
    let stuck = c.stuck ++ s ∷ [] in
    if leb total (length stuck)
    then (err e, record c { stuck = stuck; level = fatal })
    else if leb excess (length stuck)
    then (err e, record c { stuck = stuck; level = error })
    else (ok tt, record c { stuck = stuck })

abbrev try_delete : ℕ → ℕ → Text → Option Text → Cleanup → Outcome Text (Unit {0}) × Cleanup
try_delete total excess s none c = (ok tt, record c { deleted = c.deleted ++ s ∷ [] })
try_delete total excess s (some e) c = record_failure total excess s e c

unfoldable pub attempt : Deleter → ℕ → ℕ → Text → Cleanup → Outcome Text (Unit {0}) × Cleanup
unfolding record_failure
attempt delete total excess s c =
    if leb excess (length c.deleted)
    then (ok tt, c)
    else (let d = delete (length c.deleted + length c.stuck) s in
        try_delete total excess s d.error (record c { commands = c.commands ++ d.ran }))

-- `vasync.forEachPipeline` over the snapshots, oldest first: it stops at the first error.
unfoldable pub delete_each :
    Deleter → ℕ → ℕ → List Text → Cleanup → Outcome Text (Unit {0}) × Cleanup
delete_each delete total excess [] c = (ok tt, c)
delete_each delete total excess (s ∷ rest) c =
    after (λ _. delete_each delete total excess rest) (attempt delete total excess s c)

abbrev pub idle : Cleanup
idle = record { deleted = []; stuck = []; level = quiet; commands = [] }

-- `_deleteSnapshots`, with `keep` for `_snapshotNumber`.
unfoldable pub delete_snapshots : Deleter → ℕ → List Text → Outcome Text (Unit {0}) × Cleanup
delete_snapshots delete keep snapshots =
    if ltb (length snapshots) keep
    then (ok tt, idle)
    else if leb (length snapshots - keep) 0
    then (ok tt, idle)
    else delete_each delete (length snapshots) (length snapshots - keep) snapshots idle
