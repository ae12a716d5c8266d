-- ===== src/Adm/Rebuild.antt =====
-- lib/adm.js: `rebuild`, which throws the data of a peer away and lets it restore from another one. The
-- waits are in the children.
pub mod Waiting
pub mod Watching
pub mod Steps
pub mod Safety
pub mod Success
mod Tests
use manatee.Base.{
  ℕ, Text, codes, text_eq, List, [], ◌∷◌, ◌++◌, ◌||◌, Option, none, some, Bool, true, false,
  if◌then◌else◌, Action, after, ◌>>◌, ◌>>=◌, Outcome, ok, err, lost, thrown,
}
use manatee.Base.Objects.{Object}
use manatee.Host.{Host, Log, exec, rm_contents, svcadm_disable, svcadm_enable}
use manatee.Adm.{Peer, ShardState}
use manatee.Adm.Edits.{State, Prompt, ignored, prompt_failed, answered, last_index, splice}
use manatee.Adm.Backfill.{LegacyNode}
use manatee.Adm.Rebuild.Waiting.{active_zk_node, Look, wait_inactive, timeout_of}
use manatee.Adm.Rebuild.Watching.{Found, watch_from}

-- What `rebuild` uses of the sitter's configuration.
pub record Config : Type 0 where
  pub zone_id : Text
  pub data_dir : Text
  pub session_timeout : Option ℕ

-- What it meets: the state, the election, the user, the looks at the election and the polls of the
-- sitter, and what becomes of a transaction that writes the state.
pub record Scene : Type 0 where
  pub state : Outcome Text State
  pub active : Outcome Text (Object LegacyNode)
  pub prompt : Prompt
  pub looks : List Look
  pub polls : List (Outcome Text Found)
  pub commit : State → Outcome Text (Unit {0})

-- What was run on the machine, and the states that were sent to ZooKeeper.
pub record Trail : Type 0 where
  pub log : Log
  pub sent : List State

abbrev pub Op : Type 0
Op = Action Trail Text (Unit {0})

abbrev pub on_machine : Action Log Text (Unit {0}) → Op
on_machine m t = let (r, log) = m t.log in (r, record t { log = log })

-- A step that leaves nothing behind.
abbrev pub quietly {ℓ} : {A : Type ℓ} → Outcome Text A → Action Trail Text A
quietly r t = (r, t)

-- `_checkPrimary` and `_checkNotPrimary`
unfoldable pub check_primary : Text → State → Outcome Text (Unit {0})
check_primary zone s = elim s.primary [
  | none ↦ err (codes "no primary")
  | some p ↦
      if text_eq p.zone_id zone
      then err (codes "This node is the primary.  Will not rebuild.")
      else ok tt
]

-- `_checkDeposed`: the index of the entry that is to be removed.
unfoldable pub check_deposed : Text → State → Option ℕ
check_deposed zone s = elim s.deposed [
  | none ↦ none
  | some ds ↦ last_index (λ d. text_eq d.zone_id zone) 0 ds
]

-- `_warnActive`; the text of the error goes on with what to do, and the timeout.
unfoldable pub warn_active : Option LegacyNode → Option ℕ → Outcome Text (Unit {0})
warn_active none index = ok tt
warn_active (some n) (some i) = ok tt
warn_active (some n) none = err (codes "There is an active ZK node for this host.")

-- `_promptConfirm`
unfoldable pub prompt_confirm : Prompt → Outcome Text (Unit {0})
prompt_confirm ignored = ok tt
prompt_confirm (prompt_failed e) = err e
prompt_confirm (answered reply) =
    if text_eq reply (codes "yes") || text_eq reply (codes "y")
    then ok tt
    else err (codes "aborting rollback due to user command")

-- `_.state.deposed.splice(_.deposedIndex, 1)`
unfoldable pub without : ℕ → State → State
without i s = elim s.deposed [ none ↦ s | some ds ↦ record s { deposed = some (splice i ds) } ]

-- `_putState`
put_state : (State → Outcome Text (Unit {0})) → State → Op
put_state commit s t = (commit s, record t { sent = s ∷ t.sent })

-- `_removeFromDeposed`
unfoldable pub remove_from_deposed : (State → Outcome Text (Unit {0})) → Option ℕ → State → Op
unfolding put_state without
remove_from_deposed commit none s t = (ok tt, t)
remove_from_deposed commit (some i) s t = put_state commit (without i s) t

-- The checks, before anything is changed: the state with the index to remove.
unfoldable pub checks : Config → Scene → Action Trail Text (State × Option ℕ)
unfolding check_primary check_deposed warn_active prompt_confirm
checks config scene = do
  s ← quietly scene.state
  quietly (check_primary config.zone_id s)
  nodes ← quietly scene.active
  quietly (warn_active (active_zk_node config.zone_id nodes) (check_deposed config.zone_id s))
  quietly (prompt_confirm scene.prompt)
  quietly (ok (s, check_deposed config.zone_id s))

-- The steps after the checks, up to the restart of the sitter.
unfoldable pub replace_data : Config → Host → Scene → State × Option ℕ → Op
unfolding remove_from_deposed
replace_data config host scene (s, index) = do
  on_machine (exec host (svcadm_disable (codes "manatee-sitter")))
  quietly (wait_inactive config.zone_id (timeout_of config.session_timeout) scene.looks)
  on_machine (exec host (rm_contents config.data_dir))
  remove_from_deposed scene.commit index s
  on_machine (exec host (svcadm_enable (codes "manatee-sitter")))

unfoldable pub forget : {A : Type 0} → Outcome Text A → Outcome Text (Unit {0})
forget (ok a) = ok tt
forget (err e) = err e
forget lost = lost
forget thrown = thrown

-- The state that the rest of the pipeline holds on to.
abbrev pub held : State × Option ℕ → State
held (s, none) = s
held (s, some i) = without i s

-- `rebuild`
unfoldable pub rebuild : Config → Host → Scene → Op
unfolding checks replace_data forget
rebuild config host scene = do
  found ← checks config scene
  replace_data config host scene found
  quietly (forget (watch_from (held found) config.zone_id scene.polls))
