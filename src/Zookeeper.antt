-- ===== src/Zookeeper.antt =====
-- lib/zookeeperMgr.js: the manager's cache of the active peers and of the cluster state, the handlers
-- that refresh it, and `putClusterState`.
pub mod Watch
pub mod Actives
pub mod Handlers
pub mod Setup
pub mod Sessions
mod Tests
use manatee.Base.{
  ℕ, Text, codes, text_eq, List, [], ◌∷◌, ◌++◌, map, Option, none, some, Bool, true, false, ◌==◌,
  ◌&&◌, not, if◌then◌else◌, get_elem?, Outcome, ok, err, lost, thrown, Action,
}
use manatee.Base.Texts.{split, is_missing}
use manatee.Base.Objects.{Object, lookup, insert}
use manatee.Zookeeper.Actives.{Active, parse_and_unique_actives, id_lists_equal}

-- An entry of `_active`. `node` is its field `data`, what `JSON.parse` makes of the node, an object of texts.
pub record Member : Type 0 where
  pub id : Text
  pub seq : Option ℕ
  pub name : Text
  pub node : Object Text

-- A cluster state, by its text and its `generation`.
pub record ClusterState : Type 0 where
  pub generation : ℕ
  pub body : Text

pub data Emitted : Type 0 where
  active_change : List (Object Text) → Emitted
  cluster_state_change : ClusterState → Emitted

-- `connected` says whether `_zk` is set; `emitted` records the events, newest first.
pub record ZkMgr : Type 0 where
  pub inited : Bool
  pub connected : Bool
  pub active : List Member
  pub cluster_state : Option ClusterState
  pub version : Option ℕ
  pub emitted : List Emitted

-- `Object.keys(a.data).forEach(function (k) { c[k] = a.data[k]; })`
copy : Object Text → Object Text → Object Text
copy [] c = c
copy ((k, v) ∷ rest) c = copy rest (insert k v c)

abbrev pub text_or : Text → Option Text → Text
text_or other none = other
text_or other (some []) = other
text_or other (some (u ∷ t)) = u ∷ t

-- `'http://' + ip + ':' + port` where `port = data[2] ? data[1] : '12345'`.
abbrev pub backup_port : Option Text → Option Text → Text
backup_port third second = if is_missing third then codes "12345" else text_or [] second

fill_pg_url : List Text → Object Text → Object Text
fill_pg_url parts c =
    if is_missing (lookup (codes "pgUrl") c)
    then insert (codes "pgUrl")
        (codes "tcp://postgres@"
          ++ (text_or [] (get_elem? parts 0)
              ++ (codes ":" ++ (text_or (codes "5432") (get_elem? parts 1) ++ codes "/postgres"))))
        c
    else c

fill_backup_url : List Text → Object Text → Object Text
fill_backup_url parts c =
    if is_missing (lookup (codes "backupUrl") c)
    then insert (codes "backupUrl")
        (codes "http://"
          ++ (text_or [] (get_elem? parts 0)
              ++ (codes ":" ++ backup_port (get_elem? parts 2) (get_elem? parts 1))))
        c
    else c

-- One entry of the getter `active`.
unfoldable pub expose : Member → Object Text
unfolding copy fill_pg_url fill_backup_url
expose a =
    fill_backup_url (split b':' a.id)
      (fill_pg_url (split b':' a.id) (copy a.node ((codes "id", a.id) ∷ [])))

-- `acache[c.id]`: of two entries with one id, the later.
unfoldable pub cached : Text → List Member → Option Member
cached id [] = none
cached id (a ∷ rest) = elim (cached id rest) [
  | some b ↦ some b
  | none ↦ if text_eq a.id id then some a else none
]

-- `===` on sequence numbers that may be NaN.
abbrev pub same_seq : Option ℕ → Option ℕ → Bool
same_seq (some m) (some n) = m == n
same_seq _ _ = false

abbrev pub to_member : Active → Object Text → Member
to_member c d = record { id = c.id; seq = c.seq; name = c.name; node = d }

-- The parallel reads all run; one that fails makes the whole fail.
abbrev pub and_also : Outcome Text Member → Outcome Text (List Member) → Outcome Text (List Member)
and_also thrown _ = thrown
and_also _ thrown = thrown
and_also lost _ = lost
and_also _ lost = lost
and_also (err e) _ = err e
and_also (ok m) (err e) = err e
and_also (ok m) (ok ms) = ok (m ∷ ms)

abbrev pub ids : List Member → List Text
ids = map (λ a. a.id)

-- The end of `handleActive`: `_active` is replaced, and `activeChange` goes out unless the ids are
-- the same as before, or nobody has been told of the first list yet.
unfoldable pub set_active : List Member → ZkMgr → ZkMgr
unfolding expose
set_active active self =
    let next = record self { active = active } in
    if self.inited && not (id_lists_equal (ids self.active) (ids active))
    then record next { emitted = active_change (map expose active) ∷ self.emitted }
    else next

-- `fetch` stands for `zk.getData` of a node and the `JSON.parse` of what it gives.
module _ (fetch : Text → Outcome Text (Object Text)) where
  abbrev pub with_data : Active → Outcome Text (Object Text) → Outcome Text Member
  with_data c (ok d) = ok (to_member c d)
  with_data c (err e) = err e
  with_data c lost = lost
  with_data c thrown = thrown

  abbrev pub read_or_cached : Active → Option Member → Outcome Text Member
  read_or_cached c none = with_data c (fetch c.name)
  read_or_cached c (some a) =
      if same_seq a.seq c.seq then ok (to_member c a.node) else with_data c (fetch c.name)

  -- `getData`
  unfoldable pub get_data : List Member → Active → Outcome Text Member
  unfolding cached
  get_data old c = read_or_cached c (cached c.id old)

  unfoldable pub get_all : List Member → List Active → Outcome Text (List Member)
  get_all old [] = ok []
  get_all old (c ∷ active) = let rest = get_all old active in and_also (get_data old c) rest

  abbrev pub finish_active : Outcome Text (List Member) → Action ZkMgr Text (List Member)
  finish_active (ok active) self = (ok active, set_active active self)
  finish_active (err e) self = (err e, self)
  finish_active lost self = (lost, self)
  finish_active thrown self = (thrown, self)

  -- `handleActive` with a callback; without one its errors are logged. `zk` says whether a client was
  -- passed in. The callback is never called where there is no `res`.
  unfoldable pub handle_active : Option (List Text) → Bool → Action ZkMgr Text (List Member)
  handle_active res zk self =
      if not (if zk then true else self.connected)
      then (err (codes "No zookeeper for fetching data."), self)
      else elim res [
        | none ↦ (lost, self)
        | some names ↦ finish_active (get_all self.active (parse_and_unique_actives names)) self
      ]

-- `handleClusterState`, for a node whose text parses, with the version that was read.
unfoldable pub handle_cluster_state : Option (ClusterState × ℕ) → ZkMgr → ZkMgr
handle_cluster_state none self = self
handle_cluster_state (some (c, v)) self =
    let next = record self { cluster_state = some c; version = some v } in
    if self.inited then record next { emitted = cluster_state_change c ∷ self.emitted } else next

-- The write of the state node that `putClusterState` puts in its transaction: an update, checked
-- against a version, or the creation of the node.
pub data StateWrite : Type 0 where
  set_data : ClusterState → Option ℕ → StateWrite
  create : ClusterState → StateWrite

unfoldable pub state_write : ClusterState → ZkMgr → StateWrite
state_write c self = elim self.cluster_state [
  | none ↦ create c
  | some old ↦ set_data c self.version
]

-- `putClusterState`; `commit` is the answer of ZooKeeper to the transaction that creates a history
-- node for the generation and does the write: an error, or the `version` of what it calls back with.
unfoldable pub put_cluster_state :
    (ℕ → StateWrite → Outcome Text (Option ℕ)) → ClusterState → Action ZkMgr Text (Unit {0})
unfolding state_write
put_cluster_state commit c self = elim (commit c.generation (state_write c self)) [
  | ok v ↦ (ok tt, record self { cluster_state = some c; version = v })
  | err e ↦ (err e, self)
  | lost ↦ (lost, self)
  | thrown ↦ (thrown, self)
]
