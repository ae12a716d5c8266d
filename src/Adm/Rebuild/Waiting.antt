-- ===== src/Adm/Rebuild/Waiting.antt =====
-- lib/adm.js: whether a peer has a node in the election, and how `rebuild` waits until it has none.
pub mod Ends
use manatee.Base.{
  ℕ, zero, suc, ◌*◌, Text, codes, text_eq, ltb, List, [], ◌∷◌, Option, none, some, Bool, true,
  false, if◌then◌else◌, Outcome, ok, err, lost, thrown, ◌≡◌, refl, ◌≢◌, ◌≤◌, arith, Option-cases,
  inl, inr,
}
use manatee.Base.Objects.{Object}
use manatee.Adm.Backfill.{LegacyNode}

-- `_setActiveZkNode`, of the nodes that `_active` has read: the last node with the zone's name.
unfoldable pub active_zk_node : Text → Object LegacyNode → Option LegacyNode
active_zk_node zone [] = none
active_zk_node zone ((name, n) ∷ nodes) = elim (active_zk_node zone nodes) [
  | some m ↦ some m
  | none ↦ if text_eq n.zone_id zone then some n else none
]

-- A look at the election, after that many whole seconds.
pub record Look : Type 0 where
  pub seconds : ℕ
  pub nodes : Outcome Text (Object LegacyNode)

-- The session timeout in milliseconds; one that is missing or 0 counts as 60 seconds.
unfoldable pub timeout_of : Option ℕ → ℕ
timeout_of none = 60000
timeout_of (some zero) = 60000
timeout_of (some (suc t)) = suc t

-- `process.hrtime(waitStart)[0] > waitTimeout`, with the timeout in milliseconds times one and a half.
abbrev pub gives_up : ℕ → ℕ → Bool
gives_up timeout seconds = ltb (3 * timeout) (2000 * seconds)

-- The text of the error goes on with the timeout.
still_active : Bool → Outcome Text (Unit {0}) → Option LegacyNode → Outcome Text (Unit {0})
still_active late more none = ok tt
still_active late more (some n) =
    if late then err (codes "This Manatee instance has a ZooKeeper session") else more

look_again :
    Text
    → Bool
    → Outcome Text (Unit {0})
    → Outcome Text (Object LegacyNode)
    → Outcome Text (Unit {0})
unfolding still_active
look_again zone late more (ok nodes) = still_active late more (active_zk_node zone nodes)
look_again zone late more (err e) = err e
look_again zone late more lost = lost
look_again zone late more thrown = thrown

-- `_waitForZkInactive`, by what it sees at each look. It has not called back when the looks end.
unfoldable pub wait_inactive : Text → ℕ → List Look → Outcome Text (Unit {0})
unfolding look_again
wait_inactive zone timeout [] = lost
wait_inactive zone timeout (l ∷ looks) =
    let more = wait_inactive zone timeout looks in
    look_again zone (gives_up timeout l.seconds) more l.nodes
