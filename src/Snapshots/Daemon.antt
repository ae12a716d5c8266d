-- ===== src/Snapshots/Daemon.antt =====
-- lib/snapShotter.js: the daemon, which takes a snapshot and cleans up, each time its timers fire.

pub mod Own
pub mod Newest
pub mod Ends
pub mod Sitter
use manatee.Base.{
  ℕ, zero, suc, ◌+◌, ◌-◌, Text, codes, List, [], ◌∷◌, ◌++◌, map, Option, none, some, Bool, true,
  false, not, is_some, length, if◌then◌else◌, Outcome, ok, err, lost, thrown,
}
use manatee.Base.Texts.{split, is_empty}
use manatee.Snapshots.{snapshot_parts, get_snapshots, delete_snapshots, Cleanup, Deleter, idle}

-- `RE_SNAPSHOT.test(s)`, by the parts that the pattern captures.
unfoldable pub is_snapshot : Text → Bool
unfolding snapshot_parts split
is_snapshot s = is_some (snapshot_parts (split b'@' s))

-- What `forkExecWait` answers to a run of zfs(1M).
pub record ZfsReply : Type 0 where
  pub error : Option Text
  pub stdout : Text

-- The answer to the run with a number, of the arguments.
abbrev pub Zfs : Type 0
Zfs = ℕ → List Text → ZfsReply

-- `_zfsRuns`, the errors emitted, how often the timer of the cleanup was set, and the arguments of the runs
-- of zfs(1M), the first one first.
pub record Daemon : Type 0 where
  pub zfs_runs : ℕ
  pub errors : List Text
  pub scheduled : ℕ
  pub told : List (List Text)

pub record Config : Type 0 where
  pub dataset : Text
  pub snapshot_number : ℕ
  pub health_url : Option Text

-- What the client makes of the sitter's answer to a ping: its error, and `obj`, if there is one, by
-- whether its field `healthy` is true.
pub record PingReply : Type 0 where
  pub error : Option Text
  pub healthy : Option Bool

-- `_execZfs`
unfoldable pub exec_zfs : Zfs → List Text → Daemon → ZfsReply × Daemon
exec_zfs zfs args d =
    let n = suc d.zfs_runs in (zfs n args, record d { zfs_runs = n; told = d.told ++ args ∷ [] })

-- `_writeSnapshot`
unfoldable pub write_snapshot : Zfs → Text → Daemon → Outcome Text (Unit {0}) × Daemon
unfolding exec_zfs is_snapshot
write_snapshot zfs snapshot d =
    if is_snapshot snapshot
    then (let (reply, d') = exec_zfs zfs (codes "snapshot" ∷ snapshot ∷ []) d in
        elim reply.error [ none ↦ (ok tt, d') | some e ↦ (err e, d') ])
    else (thrown, d)

-- An error is logged, and not passed on; an exception is.
abbrev pub logged : Outcome Text (Unit {0}) × Daemon → Outcome Text (Unit {0}) × Daemon
logged (err e, d) = (ok tt, d)
logged (ok u, d) = (ok tt, d)
logged (lost, d) = (lost, d)
logged (thrown, d) = (thrown, d)

-- `createSnapshot`
unfoldable pub create_snapshot : Config → Zfs → Text → Daemon → Outcome Text (Unit {0}) × Daemon
unfolding write_snapshot
create_snapshot config zfs name d = logged (write_snapshot zfs (config.dataset ++ b'@' ∷ name) d)

-- `err || (obj && !obj.healthy)`
abbrev pub is_unhealthy : PingReply → Bool
is_unhealthy reply = elim reply.error [
  | some e ↦ true
  | none ↦ elim reply.healthy [ none ↦ false | some h ↦ not h ]
]

-- `skipSnapshot`, after `checkHealth`; without an url, or with an empty one, nothing is asked.
unfoldable pub skip_snapshot : Option Text → PingReply → Bool
skip_snapshot none reply = false
skip_snapshot (some url) reply = if is_empty url then false else is_unhealthy reply

-- `create`, at a time that `String(Date.now())` prints as `name`.
unfoldable pub create : Config → Zfs → PingReply → Text → Daemon → Outcome Text (Unit {0}) × Daemon
unfolding skip_snapshot create_snapshot
create config zfs reply name d =
    if skip_snapshot config.health_url reply then (ok tt, d) else create_snapshot config zfs name d

-- `_deleteSnapshot`
unfoldable pub delete_snapshot : Zfs → Text → Daemon → Outcome Text (Unit {0}) × Daemon
unfolding exec_zfs is_snapshot
delete_snapshot zfs snapshot d =
    if is_snapshot snapshot
    then (let (reply, d') = exec_zfs zfs (codes "destroy" ∷ snapshot ∷ []) d in
        elim reply.error [ none ↦ (ok tt, d') | some e ↦ (err e, d') ])
    else (thrown, d)

-- The error of a deletion. An exception would end the process; no line that passes the filter of
-- `_getSnapshots` raises one.
abbrev pub error_of : Outcome Text (Unit {0}) → Option Text
error_of (ok u) = none
error_of (err e) = some e
error_of lost = none
error_of thrown = some []

-- The deletions of a cleanup, each after the runs of those before it, with what it adds to `told`.
unfoldable pub deleter : Zfs → Daemon → Deleter
unfolding delete_snapshot
deleter zfs d k snapshot =
    let (r, d') =
      delete_snapshot zfs snapshot (record d { zfs_runs = d.zfs_runs + k; told = [] }) in
    record { ran = d'.told; error = error_of r }

unfoldable pub list_args : Config → List Text
list_args config =
    map codes
      ("list" ∷ "-t" ∷ "snapshot" ∷ "-H" ∷ "-d" ∷ "1" ∷ "-s" ∷ "creation" ∷ "-o" ∷ "name" ∷ [])
    ++ config.dataset ∷ []

-- `onSnapshotterCleanupEnd`
on_end : Outcome Text (Unit {0}) → Daemon → Daemon
on_end (err e) d = record d { scheduled = suc d.scheduled; errors = e ∷ d.errors }
on_end (ok u) d = record d { scheduled = suc d.scheduled }
on_end lost d = d
on_end thrown d = d

-- `_deleteSnapshots`
delete_listed : Config → Zfs → List Text → Daemon → Outcome Text (Unit {0}) × (Cleanup × Daemon)
unfolding deleter delete_snapshots
delete_listed config zfs snapshots d =
    let (r, c) = delete_snapshots (deleter zfs d) config.snapshot_number snapshots in
    (
      r,
      (
        c,
        record d {
          zfs_runs = d.zfs_runs + (length c.deleted + length c.stuck);
          told = d.told ++ c.commands;
        },
      ),
    )

-- The two steps of a cleanup, after the assertions.
unfoldable pub list_and_delete :
    Config → Zfs → Daemon → Outcome Text (Unit {0}) × (Cleanup × Daemon)
unfolding exec_zfs list_args get_snapshots delete_listed
list_and_delete config zfs d =
    let (reply, d') = exec_zfs zfs (list_args config) d in
    elim reply.error [
      | some e ↦ (err e, (idle, d'))
      | none ↦ delete_listed config zfs (get_snapshots (split b'\n' reply.stdout)) d'
    ]

-- `cleanup`, with the deletions that it tried; a dataset named like a snapshot raises an exception.
unfoldable pub cleanup : Config → Zfs → Daemon → Outcome Text (Unit {0}) × (Cleanup × Daemon)
unfolding list_and_delete on_end is_snapshot
cleanup config zfs d =
    if is_snapshot config.dataset
    then (thrown, (idle, d))
    else (let (r, (c, d')) = list_and_delete config zfs d in (r, (c, on_end r d')))
