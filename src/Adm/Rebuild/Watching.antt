-- ===== src/Adm/Rebuild/Watching.antt =====
-- lib/adm.js: `_watchSitter`, by which `rebuild` waits for postgres to come up in the peer.
pub mod Online
use manatee.Base.{
  ℕ, suc, ◌+◌, Text, codes, text_eq, leb, List, [], ◌∷◌, Option, none, some, Bool, true, false,
  ◌&&◌, not, if◌then◌else◌, Outcome, ok, err, lost, thrown,
}
use manatee.Adm.{ShardState}
use manatee.Adm.Edits.{State}
use manatee.Adm.Details.Status.{PeerInfo}

-- The restore that the sitter reports, by its uuid, if it has one.
pub record Restore : Type 0 where
  pub uuid : Option Text

-- What a poll finds: the cluster state with the state of each postgres, and what the sitter answers.
pub record Found : Type 0 where
  pub cluster : ShardState PeerInfo
  pub answer : Outcome Text (Option Restore)

abbrev pub restore_retries : ℕ
restore_retries = 5

pub record Watch : Type 0 where
  pub restore : Option Restore
  pub last_restore : Option Restore
  pub restore_try : ℕ

abbrev pub start_watch : Watch
start_watch = record { restore = none; last_restore = none; restore_try = 1 }

is_zone : Text → PeerInfo → Bool
is_zone zone p = text_eq p.ident.zone_id zone

last_async : Text → List PeerInfo → Option PeerInfo
unfolding is_zone
last_async zone [] = none
last_async zone (p ∷ ps) = elim (last_async zone ps) [
  | some q ↦ some q
  | none ↦ if is_zone zone p then some p else none
]

in_asyncs : Text → Option (List PeerInfo) → Option PeerInfo
unfolding last_async
in_asyncs zone none = none
in_asyncs zone (some ps) = last_async zone ps

-- `_getCurrentPeer`
unfoldable pub current_peer : Text → ShardState PeerInfo → Option PeerInfo
unfolding in_asyncs is_zone
current_peer zone s = elim s.sync [
  | none ↦ in_asyncs zone s.asyncs
  | some p ↦ if is_zone zone p then some p else in_asyncs zone s.asyncs
]

abbrev pub is_online : Option PeerInfo → Bool
is_online none = false
is_online (some p) = elim p.online [ none ↦ false | some b ↦ b ]

other_uuid : Option Text → Option Text → Bool
other_uuid none u = false
other_uuid (some t) none = true
other_uuid (some t) (some u) = not (text_eq t u)

-- `lastRestore && ('uuid' in lastRestore) && lastRestore.uuid != restore.uuid`
unfoldable pub is_new : Option Restore → Restore → Bool
unfolding other_uuid
is_new none r = false
is_new (some l) r = other_uuid l.uuid r.uuid

judge_restore : Watch → Restore → Outcome Text Watch
judge_restore w r =
    if is_new w.last_restore r
    then (if leb restore_retries w.restore_try
        then err (
            codes
              "This Manatee instance is not an active peer after 5 restore attempts.  Check sitter logs.")
        else ok (record w { last_restore = some r; restore_try = suc w.restore_try }))
    else ok (record w { last_restore = some r })

-- What a poll does to the variables of the watch; a restore that is not reported leaves the last one.
unfoldable pub note_restore : Watch → Option Restore → Outcome Text Watch
unfolding judge_restore
note_restore w (some r) = judge_restore (record w { restore = some r }) r
note_restore w none = elim w.restore [ none ↦ ok w | some r ↦ judge_restore w r ]

noted : Watch → Outcome Text (Option Restore) → Outcome Text Watch
unfolding note_restore
noted w (ok r) = note_restore w r
noted w (err e) = err e
noted w lost = lost
noted w thrown = thrown

go_on : Outcome Text Watch → Bool → (Watch → Outcome Text Watch) → Outcome Text Watch
go_on (ok v) up more = if up then ok v else more v
go_on (err e) up more = err e
go_on lost up more = lost
go_on thrown up more = thrown

-- `checkPostgresStatus`, by what each poll finds.
unfoldable pub watch_sitter : Text → List (Outcome Text Found) → Watch → Outcome Text Watch
unfolding noted go_on
watch_sitter zone [] w = lost
watch_sitter zone (err e ∷ polls) w = err e
watch_sitter zone (lost ∷ polls) w = lost
watch_sitter zone (thrown ∷ polls) w = thrown
watch_sitter zone (ok f ∷ polls) w =
    go_on (noted w f.answer) (is_online (current_peer zone f.cluster)) (watch_sitter zone polls)

unfoldable pub first_poll : List (Outcome Text Found) → Outcome Text Watch
first_poll [] = lost
first_poll (ok f ∷ polls) = thrown
first_poll (err e ∷ polls) = err e
first_poll (lost ∷ polls) = lost
first_poll (thrown ∷ polls) = thrown

-- `_watchSitter`, in a pipeline that has read the state `held` before. `_getClusterStates` adds the shard
-- to that object, and `_addPostgresStatus` then takes each property of it for a shard, also a null sync.
unfoldable pub watch_from : State → Text → List (Outcome Text Found) → Outcome Text Watch
unfolding first_poll
watch_from held zone polls = elim held.sync [
  | some p ↦ watch_sitter zone polls start_watch
  | none ↦ first_poll polls
]
