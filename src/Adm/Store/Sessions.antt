-- ===== src/Adm/Store/Sessions.antt =====
-- lib/adm.js: `_getState` and `_putState`, by which each command reads the state, and writes back what
-- its edit made of it. Any number of commands and other writers interleave.
use manatee.Base.{
  ℕ, Text, List, [], ◌∷◌, Option, none, some, ◌==◌, if◌then◌else◌, Outcome, ok, err, lost, thrown,
}
use manatee.Adm.Edits.{State, Edit, apply}
use manatee.Adm.Store.{Zk}

-- What was written: by a command, or by another client, such as a sitter.
pub data Write : Type 0 where
  edited : Edit → Write
  replaced : State → Write

-- Command `who` reads the state, or writes back its edit of what it has read; or another client writes
-- a state over one whose version it knows.
pub data Event : Type 0 where
  reads : ℕ → Event
  writes : ℕ → Edit → Event
  other_writes : State → ℕ → Event

module _ (zk : Zk) where
  -- `loaded` is what each command has read; `written` records the writes that went through, newest
  -- first.
  pub record World : Type 0 where
    pub store : zk.Store
    pub loaded : ℕ → Option (State × ℕ)
    pub written : List Write

  abbrev pub remember : ℕ → State × ℕ → (ℕ → Option (State × ℕ)) → ℕ → Option (State × ℕ)
  remember who p loaded k = if k == who then some p else loaded k

  -- `_getState`, whose error ends the command.
  unfoldable pub get_state : ℕ → World → World
  get_state who w = elim (zk.read w.store) [
    | none ↦ w
    | some p ↦ record w { loaded = remember who p w.loaded }
  ]

  unfoldable pub write : Write → Option zk.Store → World → World
  write what none w = w
  write what (some t) w = record w { store = t; written = what ∷ w.written }

  unfoldable pub put_edited : Edit → ℕ → Outcome Text State → World → World
  unfolding write
  put_edited e v (ok c) w = write (edited e) (zk.update c v w.store) w
  put_edited e v _ w = w

  -- The edit and `_putState`, with the version that was read.
  unfoldable pub put_state : ℕ → Edit → World → World
  unfolding put_edited
  put_state who e w = elim (w.loaded who) [ none ↦ w | some (c, v) ↦ put_edited e v (apply e c) w ]

  unfoldable pub step : Event → World → World
  unfolding write
  step (reads who) w = get_state who w
  step (writes who e) w = put_state who e w
  step (other_writes c v) w = write (replaced c) (zk.update c v w.store) w

  unfoldable pub run : List Event → World → World
  run [] w = w
  run (e ∷ events) w = run events (step e w)

-- The writes one after another, with nothing in between.
unfoldable pub replay : List Write → State → Option State
replay [] c = some c
replay (replaced d ∷ written) c = elim (replay written c) [ none ↦ none | some b ↦ some d ]
replay (edited e ∷ written) c = elim (replay written c) [
  | none ↦ none
  | some b ↦ elim (apply e b) [ ok d ↦ some d | err m ↦ none | lost ↦ none | thrown ↦ none ]
]
