-- ===== src/Adm/History/Legal.antt =====
-- Which steps of a shard the history reports as errors.
use manatee.Base.{
  length, ◌≤◌, ◌<◌, Text, ◌≡◌, refl, ◌≢◌, ◌⊎◌, ◌↔◌, List, [], ◌∷◌, Option, none, some, true, false,
  arith, Outcome, ok, err, lost, thrown, All,
}
use manatee.Adm.{Peer, bare}
use manatee.Adm.Edits.{State}
use manatee.Adm.History.{
  Annotation, is_error, is_on, Entry, annotate_states, annotate, annotate_all, list_changes,
  freeze_changes, with_changes, has_action,
}

abbrev pub zone : Option Peer → Option Text
zone none = none
zone (some p) = some p.zone_id

-- The step of the whole shard from `lst` to `nst`. It leaves one-node-write mode:
abbrev pub LeavesSingleton : State → State → Type 0
LeavesSingleton lst nst =
    (is_on lst.one_node_write_mode ≡ true)
    × (is_on nst.one_node_write_mode ≡ false)
    × (lst.generation ≤ nst.generation)

-- or the mode stays, and the sync takes over in a later generation,
abbrev pub SyncTakesOver : State → State → Type 0
SyncTakesOver lst nst =
    (zone nst.primary ≢ zone lst.primary)
    × (zone nst.primary ≡ zone lst.sync)
    × (lst.generation < nst.generation)

-- or the primary stays, and in a later generation has another sync,
abbrev pub SyncChanges : State → State → Type 0
SyncChanges lst nst =
    (zone nst.primary ≡ zone lst.primary)
    × (lst.generation < nst.generation)
    × (zone nst.sync ≢ none)
    × (zone nst.sync ≢ zone lst.sync)
    × ((zone lst.sync ≡ none) → (is_on lst.one_node_write_mode ≡ false))

-- or the primary, the sync and the generation stay, the lists of asyncs are there, and the shard is not
-- newly frozen without a reason.
abbrev pub StaysPut : State → State → Type 0
StaysPut lst nst =
    (zone nst.primary ≡ zone lst.primary)
    × (zone nst.sync ≡ zone lst.sync)
    × (nst.generation ≡ lst.generation)
    × (nst.asyncs ≢ none)
    × (lst.asyncs ≢ none)
    × ((nst.freeze ≡ some bare) → (lst.freeze ≢ none))

abbrev pub Legal : State → State → Type 0
Legal lst nst =
    LeavesSingleton lst nst
    ⊎ ((is_on nst.one_node_write_mode ≡ is_on lst.one_node_write_mode)
        × (zone nst.primary ≢ none)
        × (zone lst.primary ≢ none)
        × (SyncTakesOver lst nst ⊎ (SyncChanges lst nst ⊎ StaysPut lst nst)))

-- An annotation is given, and it is none of those that start with `error`.
abbrev pub IsFine : Outcome Text Annotation → Type 0
IsFine (ok a) = is_error a ≡ false
IsFine _ = ⊥

pub annotate_states-Legal : (nst lst : State) → Legal lst nst → IsFine (annotate_states nst lst)
unfolding annotate_states list_changes freeze_changes with_changes
annotate_states-Legal nst lst h = ground arith

annotate_states-only-Legal : (nst lst : State) → IsFine (annotate_states nst lst) → Legal lst nst
unfolding annotate_states list_changes freeze_changes with_changes
annotate_states-only-Legal nst lst h = ground arith

-- The annotation of two states is given and is no error exactly if the step between them is legal: the
-- sync takes over, or a later generation has a new sync, or neither changes and a new freeze has a reason,
-- or the shard leaves one-node-write mode.
pub annotate_states-Legal_iff : (nst lst : State) → IsFine (annotate_states nst lst) ↔ Legal lst nst
annotate_states-Legal_iff nst lst =
    (annotate_states-only-Legal nst lst, annotate_states-Legal nst lst)

-- In one-node-write mode a later generation with the same primary makes `annotateHistoryNode` throw on
-- the missing sync.
annotate_singleton_throws :
    (nst lst : State)
    → is_on lst.one_node_write_mode ≡ true
    → is_on nst.one_node_write_mode ≡ true
    → zone nst.primary ≡ zone lst.primary
    → lst.generation < nst.generation
    → lst.sync ≡ none
    → annotate_states nst lst ≡ thrown
unfolding annotate_states
annotate_singleton_throws nst lst h k p g s = ground arith

-- The entries are those of version 2, and each state is a legal step from the one before.
abbrev pub LegalChain : Entry → List Entry → Type 0
LegalChain last [] = Unit
LegalChain last (e ∷ entries) =
    ((lst : State) × (nst : State) × (has_action last ≡ false)
      × (has_action e ≡ false)
      × (last.state ≡ some lst)
      × (e.state ≡ some nst)
      × Legal lst nst)
    × LegalChain e entries

annotate-Legal :
    (e last : Entry) (nst lst : State)
    → has_action last ≡ false
    → has_action e ≡ false
    → last.state ≡ some lst
    → e.state ≡ some nst
    → Legal lst nst
    → IsFine (annotate e (some last))
unfolding annotate
annotate-Legal e last nst lst h k p q l = let fine = annotate_states-Legal nst lst l in ground arith

fine_annotation :
    (r : Outcome Text Annotation) → IsFine r → (a : Annotation) × (r ≡ ok a) × (is_error a ≡ false)
fine_annotation (ok a) h = (a, refl, h)
fine_annotation (err m) h = absurd h
fine_annotation lost h = absurd h
fine_annotation thrown h = absurd h

-- A history in which every step is legal is annotated to its end, with no error in it.
annotate_all-Legal :
    (last : Entry) (entries : List Entry)
    → LegalChain last entries
    → (as_said : List Annotation) × (annotate_all (some last) entries ≡ ok as_said)
      × (length as_said ≡ length entries)
      × All (λ a. is_error a ≡ false) as_said
unfolding annotate_all
annotate_all-Legal last [] h = ([], refl, refl, tt)
annotate_all-Legal last (e ∷ entries) ((lst, nst, x, y, p, q, l), h) =
    let (a, r, f) =
      fine_annotation (annotate e (some last)) (annotate-Legal e last nst lst x y p q l) in
    let (more, s, n, g) = annotate_all-Legal e entries h in
    (a ∷ more, rw (annotate_all, r, s) refl, omega (arith, n), (f, g))
