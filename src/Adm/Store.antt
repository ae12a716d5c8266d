-- ===== src/Adm/Store.antt =====
-- What manatee-adm relies on of ZooKeeper for the state of a shard: the state node has a version, and a
-- transaction that names a version goes through only while the node is at it; it then also appends to
-- the history of the shard.
pub mod Sessions
pub mod Serial
pub mod Stale
pub mod Memory
use manatee.Base.{ℕ, suc, List, [], ◌∷◌, ◌++◌, ◌≡◌, Option, some}
use manatee.Adm.Edits.{State}

pub record Zk : Type 1 where
  pub Store : Type 0
  -- `getData`, of the parsed node with its version; `none` is NO_NODE.
  pub read : Store → Option (State × ℕ)
  pub history : Store → List State
  -- `transaction().setData(p, data, version).create(historyPath, …).commit`; `none` is an error.
  pub update : State → ℕ → Store → Option Store

pub record IsLawful (zk : Zk) : Type 0 where
  pub update-version :
      (c : State) (v : ℕ) (s t : zk.Store)
      → zk.update c v s ≡ some t
      → (old : State) × (zk.read s ≡ some (old, v))
  pub read-update :
      (c : State) (v : ℕ) (s t : zk.Store) → zk.update c v s ≡ some t → zk.read t ≡ some (c, suc v)
  pub history-update :
      (c : State) (v : ℕ) (s t : zk.Store)
      → zk.update c v s ≡ some t
      → zk.history t ≡ zk.history s ++ c ∷ []
