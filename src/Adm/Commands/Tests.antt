-- ===== src/Adm/Commands/Tests.antt =====
-- The commands that only read, on two shards.
use manatee.Base.{
  Text, codes, text_eq, text_dec, ◌≡◌, refl, List, [], ◌∷◌, none, some, true, false, arith,
  if◌then◌else◌, Outcome, ok, err, inr,
}
use manatee.Base.Objects.{Object, lookup}
use manatee.Adm.Edits.{State}
use manatee.Adm.Samples.{shard, taken_over}
use manatee.Adm.Details.Status.{PeerInfo, answered}
use manatee.Adm.Format.{Shown}
use manatee.Adm.Connections.{a_client}
use manatee.Adm.Commands.{
  Failure, Zoo, Peers, released, new_error, begin, fetch_states, get_state, get_shards, status,
}
use manatee.Adm.Commands.Fetching.{calls_for, failures, fetch_states-calls_for}
use manatee.Adm.Commands.States.{has, IsRead}
use manatee.Adm.Commands.Shows.{IsRearranged, shown_of, status-lookup}

abbrev east : Text
east = codes "1.moray"

abbrev west : Text
west = codes "2.moray"

abbrev both : List Text
both = east ∷ west ∷ []

-- The answers come in the other order.
abbrev reversed : List Text → List Text
reversed (x ∷ y ∷ []) = y ∷ x ∷ []
reversed xs = xs

abbrev state_of : Text → Outcome Failure State
state_of x = if text_eq x east then ok shard else ok taken_over

abbrev zoo : Zoo Text
zoo = record {
  connection = a_client;
  children = λ path. ok both;
  state_of = state_of;
  active_node = λ name. ok name;
  stat = λ path. ok none;
}

abbrev peers : Peers
peers = record { repl = λ url. answered none; lag = λ url. answered none; order = reversed }

state_of-IsRead : (q : Text) → has q both ≡ true → IsRead (state_of q)
state_of-IsRead q h =
    elim (text_dec q east)
      as (λ d.
        IsRead (if elim d [ yes _ ↦ true | no _ ↦ false ] then ok shard else ok taken_over)) [
          | yes e ↦ (shard, refl)
          | no e ↦ (taken_over, refl)
        ]

reversed-IsRearranged : IsRearranged (reversed both) both
reversed-IsRearranged = (refl, λ q. ground arith)

status-lookup_example :
    (shown : Object (Object (Shown PeerInfo))) × ((status zoo peers none ≡ (ok shown, released))
      × ((q : Text) → lookup q shown ≡ (if has q both then shown_of zoo peers both q else none)))
unfolding get_shards
status-lookup_example =
    status-lookup zoo peers both none refl refl (omega arith) reversed-IsRearranged state_of-IsRead

-- Neither of the nodes is there.
abbrev missing : Text → Outcome Failure State
missing x = err (new_error x)

fetch_states-calls_for_example :
    (fetch_states missing (west ∷ east ∷ []) (begin both)).calls
    ≡ calls_for (failures missing (west ∷ east ∷ []))
fetch_states-calls_for_example =
    fetch_states-calls_for missing both (west ∷ east ∷ []) refl
      (inr (new_error west, refl), (inr (new_error east, refl), tt))

-- The callback is called twice.
called_twice :
    (fetch_states missing (west ∷ east ∷ []) (begin both)).calls
    ≡ some (new_error west) ∷ some (new_error east) ∷ []
unfolding fetch_states begin get_state
called_twice = refl
