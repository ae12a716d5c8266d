-- ===== src/Adm/Edits.antt =====
-- lib/adm.js: what `freeze`, `unfreeze`, `reap` and `setOnwm` do to the state between the read and the
-- write of it.
pub mod RoundTrips
pub mod Reap
use manatee.Base.{
  ℕ, zero, suc, Text, codes, text_eq, List, [], ◌∷◌, ◌++◌, Option, none, some, Bool, true, false,
  ◌&&◌, ◌||◌, not, if◌then◌else◌, Outcome, ok, err, lost, thrown,
}
use manatee.Base.Texts.{is_empty}
use manatee.Adm.{Peer, Freeze, frozen, bare, ShardState}

abbrev pub State : Type 0
State = ShardState Peer

unfoldable pub reason_of : Freeze → Text
reason_of (frozen date reason) = reason
reason_of bare = codes "undefined"

-- `_freeze`
unfoldable pub freeze : Text → Text → State → Outcome Text State
unfolding reason_of
freeze date reason s = elim s.freeze [
  | some f ↦ err (codes "shard is already been frozen: " ++ reason_of f)
  | none ↦ ok (record s { freeze = some (frozen date reason) })
]

-- `_unfreeze`
unfoldable pub unfreeze : State → Outcome Text State
unfreeze s = elim s.freeze [
  | none ↦ err (codes "shard is not frozen")
  | some f ↦ ok (record s { freeze = none })
]

-- The test of `_reap`; an argument that is not given is the empty text.
unfoldable pub is_meant : Text → Text → Peer → Bool
is_meant zonename ip d =
    (not (is_empty zonename) && text_eq zonename d.zone_id)
    || (not (is_empty ip) && text_eq ip d.ip)

-- `forEach(function (d, i) { if (…) { index = i; } })`, from index `i` on.
unfoldable pub last_index : (Peer → Bool) → ℕ → List Peer → Option ℕ
last_index p i [] = none
last_index p i (d ∷ rest) = elim (last_index p (suc i) rest) [
  | some j ↦ some j
  | none ↦ if p d then some i else none
]

-- `list.splice(i, 1)`
unfoldable pub splice : ℕ → List Peer → List Peer
splice i [] = []
splice zero (d ∷ rest) = rest
splice (suc i) (d ∷ rest) = d ∷ splice i rest

reap_at : Text → Text → List Peer → State → Option ℕ → Outcome Text State
unfolding splice
reap_at zonename ip ds s none =
    err ((if is_empty zonename then ip else zonename) ++ codes " not in deposed or does not exist")
reap_at zonename ip ds s (some i) = ok (record s { deposed = some (splice i ds) })

-- `_reap`, which reads a property of `deposed` whether or not it is there.
unfoldable pub reap : Text → Text → State → Outcome Text State
unfolding reap_at last_index is_meant
reap zonename ip s = elim s.deposed [
  | none ↦ thrown
  | some ds ↦ reap_at zonename ip ds s (last_index (is_meant zonename ip) 0 ds)
]

pub data Mode : Type 0 where
  on off other : Mode

-- What becomes of the prompt of `_confirm`.
pub data Prompt : Type 0 where
  ignored : Prompt
  prompt_failed : Text → Prompt
  answered : Text → Prompt

unfoldable pub confirm : Prompt → Outcome Text (Unit {0})
confirm ignored = ok tt
confirm (prompt_failed e) = err e
confirm (answered reply) =
    if text_eq reply (codes "yes") || text_eq reply (codes "y")
    then ok tt
    else err (codes "aborting cluster state backfill due to user command")

notice_change : Mode → Option Bool → Outcome Text (Unit {0})
notice_change on (some true) = err (codes "One node write mode already enabled")
notice_change off none = err (codes "One node write mode already disabled")
notice_change _ _ = ok tt

switched : Mode → Option Bool
switched on = some true
switched _ = none

both_pass : Outcome Text (Unit {0}) → Outcome Text (Unit {0}) → State → Outcome Text State
both_pass (ok u) (ok v) s = ok s
both_pass (ok u) (err e) s = err e
both_pass (err e) _ s = err e
both_pass _ _ s = thrown

-- `_noticeChange`, `_confirm` and `_setOnwm`.
unfoldable pub set_onwm : Mode → Prompt → State → Outcome Text State
unfolding notice_change switched both_pass confirm
set_onwm mode prompt s =
    both_pass (notice_change mode s.one_node_write_mode) (confirm prompt)
      (record s { one_node_write_mode = switched mode })

-- The edits that manatee-adm makes.
pub data Edit : Type 0 where
  freezes : Text → Text → Edit
  unfreezes : Edit
  reaps : Text → Text → Edit
  sets_onwm : Mode → Prompt → Edit

unfoldable pub apply : Edit → State → Outcome Text State
apply (freezes date reason) s = freeze date reason s
apply unfreezes s = unfreeze s
apply (reaps zonename ip) s = reap zonename ip s
apply (sets_onwm mode prompt) s = set_onwm mode prompt s
