-- ===== src/Adm/Backfill/Rearranged.antt =====
-- lib/adm.js: what becomes of the peers of version 1 in the first cluster state.
use mathlib.Core.List.Perm
use mathlib.Core.List.{Perm, append-nil}
use manatee.Base.{
  Text, ◌≡◌, refl, ◌↔◌, List, [], ◌∷◌, ◌++◌, length, ◌<◌, Option, none, some, arith, Outcome, ok,
  err, lost, thrown,
}
use manatee.Adm.{Peer}
use manatee.Adm.Edits.{State, Prompt, confirm}
use manatee.Adm.Details.Load.Total.{Complete}
use manatee.Adm.Backfill.{
  LegacyNode, place, pop, shifted, rearrange, legacy_peers, Existing, no_node, found, unreadable,
  state_backfill, from_peers, confirmed, refused, committed,
}

abbrev pub one : Option Peer → List Peer
one none = []
one (some p) = p ∷ []

abbrev pub each : Option (List Peer) → List Peer
each none = []
each (some ps) = ps

-- Every peer of a state, by its role.
abbrev pub all_peers : State → List Peer
all_peers s = one s.primary ++ one s.sync ++ each s.asyncs ++ each s.deposed

pop-Perm : (a : Peer) (rest : List Peer) → Perm ((pop a rest).0 ∷ (pop a rest).1) (a ∷ rest)
unfolding pop
pop-Perm a [] = Perm.refl (a ∷ [])
pop-Perm a (b ∷ rest) =
    Perm.trans (Perm.swap a (pop b rest).0 (pop b rest).1) (Perm.cons a (pop-Perm b rest))

last-Perm : (s : Peer) (before : List Peer) → Perm (before ++ s ∷ []) (s ∷ before)
last-Perm s [] = Perm.refl (s ∷ [])
last-Perm s (b ∷ before) = Perm.trans (Perm.cons b (last-Perm s before)) (Perm.swap s b before)

shift-Perm :
    (s z : Peer) (before : List Peer) → Perm (z ∷ (before ++ s ∷ []) ++ []) (s ∷ z ∷ before)
shift-Perm s z before =
    rw append-nil (Perm.trans (Perm.cons z (last-Perm s before)) (Perm.swap s z before))

rearrange-Perm :
    (date : Text) (peers : List Peer) → Perm (all_peers (rearrange date (place peers))) peers
unfolding rearrange place shifted
rearrange-Perm date [] = Perm.refl []
rearrange-Perm date (p ∷ []) = Perm.refl (p ∷ [])
rearrange-Perm date (p ∷ s ∷ []) = Perm.refl (p ∷ s ∷ [])
rearrange-Perm date (p ∷ s ∷ a ∷ rest) =
    Perm.cons p
      (Perm.trans (shift-Perm s (pop a rest).0 (pop a rest).1) (Perm.cons s (pop-Perm a rest)))

rearrange-Complete :
    (date : Text) (peers : List Peer) → Complete (rearrange date (place peers)) ↔ (1 < length peers)
unfolding rearrange place shifted
rearrange-Complete date [] = ground arith
rearrange-Complete date (p ∷ []) = ground arith
rearrange-Complete date (p ∷ s ∷ []) = ground arith
rearrange-Complete date (p ∷ s ∷ a ∷ rest) = ground arith

confirmed-ok :
    (s t : State) (r : Outcome Text (Unit {0})) (commit : State → Outcome Text (Unit {0}))
    → (confirmed t r commit).answer ≡ ok s
    → (t ≡ s) × (r ≡ ok tt) × ((confirmed t r commit).sent ≡ s ∷ [])
unfolding confirmed committed refused
confirmed-ok s t r commit h = ground arith

from_peers-ok :
    (date : Text) (r : Outcome Text (List Peer)) (prompt : Prompt)
    (commit : State → Outcome Text (Unit {0})) (s : State)
    → (from_peers date r prompt commit).answer ≡ ok s
    → (peers : List Peer) × (r ≡ ok peers)
      × (rearrange date (place peers) ≡ s)
      × (confirm prompt ≡ ok tt)
      × ((from_peers date r prompt commit).sent ≡ s ∷ [])
unfolding from_peers refused
from_peers-ok date (ok peers) prompt commit s h =
    let (e, c, f) = confirmed-ok s (rearrange date (place peers)) (confirm prompt) commit h in
    (peers, refl, e, c, f)
from_peers-ok date (err e) prompt commit s h = cc
from_peers-ok date lost prompt commit s h = cc
from_peers-ok date thrown prompt commit s h = cc

-- A backfill that succeeds found no cluster state and was confirmed or had no prompt, and it sent
-- one state, the one it answers with. The peers of that state are those of the election, none lost
-- and none twice, and it has a primary, a list of asyncs and a sync, as `loadClusterDetails`
-- requires, exactly if there are at least two.
pub state_backfill-Perm :
    (date shard : Text) (existing : Existing) (fetch : Text → Outcome Text LegacyNode)
    (names : List Text) (prompt : Prompt) (commit : State → Outcome Text (Unit {0})) (s : State)
    → (state_backfill date shard existing fetch names prompt commit).answer ≡ ok s
    → (peers : List Peer) × (legacy_peers fetch names ≡ ok peers)
      × (existing ≡ no_node)
      × (confirm prompt ≡ ok tt)
      × ((state_backfill date shard existing fetch names prompt commit).sent ≡ s ∷ [])
      × Perm (all_peers s) peers
      × (Complete s ↔ (1 < length peers))
unfolding state_backfill refused
state_backfill-Perm date shard no_node fetch names prompt commit s h =
    let (peers, r, e, c, f) = from_peers-ok date (legacy_peers fetch names) prompt commit s h in
    (
      peers,
      r,
      refl,
      c,
      f,
      rw⁻¹ e (rearrange-Perm date peers),
      rw⁻¹ e (rearrange-Complete date peers),
    )
state_backfill-Perm date shard found fetch names prompt commit s h = cc
state_backfill-Perm date shard (unreadable m) fetch names prompt commit s h = cc
