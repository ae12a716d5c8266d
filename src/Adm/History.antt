-- ===== src/Adm/History.antt =====
-- lib/adm.js: `annotateHistoryNode`, which says what happened between two states of the history of a
-- shard, and `history`, which does so for all of them.
pub mod Legal
pub mod Nodes
use manatee.Base.{
  ℕ, Text, text_eq, List, [], ◌∷◌, ◌++◌, map, Option, none, some, Bool, true, false, ◌&&◌, ◌||◌,
  not, ltb, ◌==◌, if◌then◌else◌, Outcome, ok, err, lost, thrown,
}
use manatee.Base.Texts.{is_empty}
use manatee.Base.Objects.{Object, insert, keys, lookup}
use manatee.Adm.{Peer, Freeze, frozen, bare, ShardState}
use manatee.Adm.Edits.{State}

-- The texts that are joined at the end of the annotation, by what they are formatted from.
pub data Change : Type 0 where
  cluster_frozen : Text → Change
  cluster_unfrozen : Change
  async_added async_removed now_deposed no_longer_deposed : Text → Change

-- The texts that are returned, by what they are formatted from.
pub data Annotation : Type 0 where
  v1_event setup_singleton setup_normal follow_up : Annotation
  generation_backwards to_singleton primary_without_generation not_previous_sync : Annotation
  generation_alone sync_without_generation : Annotation
  to_multi_peer : Annotation
  sync_took_over : Text → Text → Annotation
  sync_added : Text → Annotation
  new_sync : Text → Text → Text → Annotation
  changes : List Change → Annotation

-- The annotations that start with `error`.
abbrev pub is_error : Annotation → Bool
is_error generation_backwards = true
is_error to_singleton = true
is_error primary_without_generation = true
is_error not_previous_sync = true
is_error generation_alone = true
is_error sync_without_generation = true
is_error _ = false

abbrev pub is_on : Option Bool → Bool
is_on none = false
is_on (some b) = b

zone_set : Object (Unit {0}) → List Peer → Object (Unit {0})
unfolding insert
zone_set set [] = set
zone_set set (a ∷ peers) = zone_set (insert a.zone_id tt set) peers

absent : Object (Unit {0}) → List Text → List Text
unfolding lookup
absent known [] = []
absent known (z ∷ zones) =
    let rest = absent known zones in elim (lookup z known) [ some u ↦ rest | none ↦ z ∷ rest ]

-- The zones of `peers` that are not those of `others`, each once.
unfoldable pub only_in : List Peer → List Peer → List Text
unfolding zone_set absent
only_in peers others = absent (zone_set [] others) (keys (zone_set [] peers))

-- `sprintf` throws on a reason that is undefined, which is what a freeze that is no object has.
freeze_changes : Option Freeze → Option Freeze → Outcome Text (List Change)
freeze_changes (some (frozen date reason)) none = ok (cluster_frozen reason ∷ [])
freeze_changes (some bare) none = thrown
freeze_changes none (some g) = ok (cluster_unfrozen ∷ [])
freeze_changes none none = ok []
freeze_changes (some f) (some g) = ok []

with_changes : Outcome Text (List Change) → List Change → Outcome Text Annotation
with_changes (ok first) rest = ok (changes (first ++ rest))
with_changes (err e) rest = err e
with_changes lost rest = lost
with_changes thrown rest = thrown

abbrev or_empty : Option (List Peer) → List Peer
or_empty none = []
or_empty (some ds) = ds

-- The end of `annotateHistoryNode`, where the lists of asyncs must be there.
unfoldable pub list_changes :
    State → State → Option (List Peer) → Option (List Peer) → Outcome Text Annotation
unfolding freeze_changes with_changes only_in
list_changes nst lst (some new) (some old) =
    let new_deposed = or_empty nst.deposed in
    let old_deposed = or_empty lst.deposed in
    with_changes (freeze_changes nst.freeze lst.freeze) (
      map async_added (only_in new old)
      ++ (map async_removed (only_in old new)
          ++ (map now_deposed (only_in new_deposed old_deposed)
              ++ map no_longer_deposed (only_in old_deposed new_deposed))))
list_changes nst lst _ _ = thrown

-- Another primary than before.
take_over : State → State → Peer → Peer → Option Peer → Outcome Text Annotation
take_over nst lst p q none =
    ok (if nst.generation == lst.generation then primary_without_generation else not_previous_sync)
take_over nst lst p q (some s) = ok (
    if nst.generation == lst.generation
    then primary_without_generation
    else if text_eq p.zone_id s.zone_id
    then sync_took_over p.zone_id q.zone_id
    else not_previous_sync)

-- The same primary in a later generation; `substr` cuts the zones to eight characters in the text.
later_generation : Bool → Peer → Option Peer → Option Peer → Outcome Text Annotation
later_generation singleton p (some n) none = if singleton then thrown else ok (sync_added n.zone_id)
later_generation singleton p (some n) (some s) = ok (
    if text_eq n.zone_id s.zone_id
    then generation_alone
    else new_sync p.zone_id s.zone_id n.zone_id)
later_generation singleton p none _ = thrown

abbrev pub sync_differs : Option Peer → Option Peer → Bool
sync_differs none none = false
sync_differs (some a) (some b) = not (text_eq a.zone_id b.zone_id)
sync_differs _ _ = true

annotate_primaries : State → State → Option Peer → Option Peer → Outcome Text Annotation
unfolding list_changes take_over later_generation
annotate_primaries nst lst (some p) (some q) =
    if not (text_eq p.zone_id q.zone_id)
    then take_over nst lst p q lst.sync
    else if ltb lst.generation nst.generation
    then later_generation (is_on lst.one_node_write_mode) p nst.sync lst.sync
    else if sync_differs nst.sync lst.sync
    then ok sync_without_generation
    else list_changes nst lst nst.asyncs lst.asyncs
annotate_primaries nst lst _ _ = thrown

-- `annotateHistoryNode`, of two states.
unfoldable pub annotate_states : State → State → Outcome Text Annotation
unfolding annotate_primaries
annotate_states nst lst =
    if ltb nst.generation lst.generation
    then ok generation_backwards
    else if not (is_on lst.one_node_write_mode) && is_on nst.one_node_write_mode
    then ok to_singleton
    else if is_on lst.one_node_write_mode && not (is_on nst.one_node_write_mode)
    then ok to_multi_peer
    else annotate_primaries nst lst nst.primary lst.primary

-- An entry of the history: `action` is set on those of version 1, `state` on the others.
pub record Entry : Type 0 where
  pub time : Option ℕ
  pub zk_seq : Option Text
  pub action : Option Text
  pub state : Option State

abbrev pub has_action : Entry → Bool
has_action e = elim e.action [ none ↦ false | some a ↦ not (is_empty a) ]

abbrev setup : Option State → Outcome Text Annotation
setup none = thrown
setup (some s) = ok (if is_on s.one_node_write_mode then setup_singleton else setup_normal)

abbrev pub annotate_both : Option State → Option State → Outcome Text Annotation
annotate_both (some nst) (some lst) = annotate_states nst lst
annotate_both _ _ = thrown

after_entry : Entry → Option Entry → Outcome Text Annotation
after_entry e none = setup e.state
after_entry e (some last) =
    if has_action last then ok follow_up else annotate_both e.state last.state

-- `annotateHistoryNode`
unfoldable pub annotate : Entry → Option Entry → Outcome Text Annotation
unfolding after_entry
annotate e last = if has_action e then ok v1_event else after_entry e last

prepend : Annotation → Outcome Text (List Annotation) → Outcome Text (List Annotation)
prepend a (ok more) = ok (a ∷ more)
prepend a (err e) = err e
prepend a lost = lost
prepend a thrown = thrown

-- `hist.history.forEach(…)` with `prev`.
unfoldable pub annotate_all : Option Entry → List Entry → Outcome Text (List Annotation)
unfolding prepend
annotate_all prev [] = ok []
annotate_all prev (e ∷ entries) =
    let rest = annotate_all (some e) entries in
    elim (annotate e prev) [ ok a ↦ prepend a rest | err m ↦ err m | lost ↦ lost | thrown ↦ thrown ]
