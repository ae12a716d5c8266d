-- ===== src/Zookeeper/Setup.antt =====
-- lib/zookeeperMgr.js: `setupData`, by which a new client joins the shard and starts to watch it.
pub mod Joined
mod Tests
use manatee.Base.{
  ℕ, Text, codes, ◌==◌, List, [], ◌∷◌, ◌++◌, Option, Bool, true, false, if◌then◌else◌, Outcome, ok,
  err, lost, thrown, Action, after, ◌>>◌, ◌>>=◌, return,
}
use manatee.Base.Objects.{Object}
use manatee.Zookeeper.{Member, ZkMgr, ClusterState, handle_cluster_state, handle_active}

-- The server as the client sees it, over a state of its own. The two watches stand for `watch`, by
-- the first call of its callback: with what was read, or with nothing where the node is missing.
-- `get_data` is a read with the parsing of what it gives; the reads of a list all start together.
pub record Server (S : Type 0) : Type 0 where
  pub mkdirp : Text → Action S Text (Unit {0})
  pub watch_state : Text → Action S Text (Option (ClusterState × ℕ))
  pub create_sequential : Text → Text → Action S Text Text
  pub watch_children : Text → Action S Text (Option (List Text))
  pub get_data : S → Text → Outcome Text (Object Text)

-- `id`, `path`, and the text of `data`.
pub record Options : Type 0 where
  pub id : Text
  pub path : Text
  pub data_text : Text

ends_in : ℕ → Text → Bool
ends_in c [] = false
ends_in c (d ∷ []) = d == c
ends_in c (d ∷ e ∷ s) = ends_in c (e ∷ s)

-- The path with a slash at its end.
with_slash : Text → Text
unfolding ends_in
with_slash p = if ends_in b'/' p then p else p ++ b'/' ∷ []

unfoldable pub ephemeral_path : Options → Text
unfolding with_slash
ephemeral_path o = with_slash o.path ++ codes "election"

unfoldable pub ephemeral_node : Options → Text
unfolding ephemeral_path
ephemeral_node o = ephemeral_path o ++ b'/' ∷ (o.id ++ b'-' ∷ [])

unfoldable pub history_path : Options → Text
unfolding with_slash
history_path o = with_slash o.path ++ codes "history"

unfoldable pub cluster_state_path : Options → Text
unfolding with_slash
cluster_state_path o = with_slash o.path ++ codes "state"

module _ {S : Type 0} (server : Server S) (o : Options) where
  -- An operation of the server beside the manager.
  abbrev pub on_server {ℓ} : {A : Type ℓ} → Action S Text A → Action (S × ZkMgr) Text A
  on_server m (s, self) = let (r, t) = m s in (r, (t, self))

  abbrev pub set_state : Option (ClusterState × ℕ) → Action (S × ZkMgr) Text (Unit {0})
  set_state res (s, self) = (ok tt, (s, handle_cluster_state res self))

  abbrev pub set_actives : Option (List Text) → Action (S × ZkMgr) Text (List Member)
  set_actives res (s, self) =
      let (r, next) = handle_active (server.get_data s) res true self in (r, (s, next))

  -- The steps before the peer's own node is there.
  unfoldable pub prepare : Action (S × ZkMgr) Text (Unit {0})
  unfolding ephemeral_path history_path cluster_state_path handle_cluster_state
  prepare = do
    on_server (server.mkdirp (ephemeral_path o))
    on_server (server.mkdirp (history_path o))
    res ← on_server (server.watch_state (cluster_state_path o))
    set_state res

  unfoldable pub join : Action (S × ZkMgr) Text (List Member)
  unfolding ephemeral_node ephemeral_path handle_active
  join = do
    node ← on_server (server.create_sequential (ephemeral_node o) o.data_text)
    res ← on_server (server.watch_children (ephemeral_path o))
    set_actives res

  -- `setupData`
  unfoldable pub setup_data : Action (S × ZkMgr) Text (List Member)
  unfolding prepare join
  setup_data = do prepare; join
