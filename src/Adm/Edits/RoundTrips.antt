-- ===== src/Adm/Edits/RoundTrips.antt =====
-- Edits that undo each other.
use manatee.Base.{Text, ◌≡◌, codes, ◌++◌, refl, none, some, true, arith, ok, err}
use manatee.Adm.{frozen}
use manatee.Adm.Edits.{State, freeze, unfreeze, on, off, Prompt, confirm, set_onwm}

-- A shard that is not frozen can be frozen. Freezing it once more is refused with the reason of the
-- first time, and unfreezing it gives back the state as it was, of which unfreezing is refused.
pub unfreeze-freeze :
    (date reason again why : Text) (s : State)
    → s.freeze ≡ none
    → (t : State) × (freeze date reason s ≡ ok t)
      × (unfreeze t ≡ ok s)
      × (freeze again why t ≡ err (codes "shard is already been frozen: " ++ reason))
      × (unfreeze s ≡ err (codes "shard is not frozen"))
unfolding freeze unfreeze
unfreeze-freeze date reason again why s h = (
  record s { freeze = some (frozen date reason) },
  ground arith,
  ground arith,
  refl,
  ground arith,
)

-- Switching one-node-write mode on and off again, with both prompts confirmed, gives back a state in
-- which it was not set, and neither switch can be made where it is made already.
set_onwm-on_off :
    (p q : Prompt) (s : State)
    → confirm p ≡ ok tt
    → confirm q ≡ ok tt
    → s.one_node_write_mode ≡ none
    → (t : State) × (set_onwm on p s ≡ ok t)
      × (set_onwm off q t ≡ ok s)
      × (set_onwm on p t ≡ err (codes "One node write mode already enabled"))
      × (set_onwm off q s ≡ err (codes "One node write mode already disabled"))
unfolding set_onwm
set_onwm-on_off p q s hp hq h = (
  record s { one_node_write_mode = some true },
  ground arith,
  ground arith,
  ground arith,
  ground arith,
)
