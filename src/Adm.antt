-- ===== src/Adm.antt =====
-- lib/adm.js: the cluster state of a shard, as manatee-adm reads it, edits it and reports on it.
mod Samples
pub mod Edits
pub mod Format
pub mod Connections
pub mod Store
pub mod History
pub mod Details
pub mod Backfill
pub mod Commands
pub mod Rebuild
mod Tests
use manatee.Base.{ℕ, Text, List, Option, Bool}

-- A peer identifier.
pub record Peer : Type 0 where
  pub id : Text
  pub ip : Text
  pub pg_url : Text
  pub zone_id : Text
  pub backup_url : Text

-- The field `freeze`, where it is truthy: an object with a date and a reason, or something else.
pub data Freeze : Type 0 where
  frozen : Text → Text → Freeze
  bare : Freeze

-- A cluster state, by what stands for a peer in it. A primary or sync that is absent is null here.
pub record ShardState (P : Type 0) : Type 0 where
  pub generation : ℕ
  pub init_wal : Text
  pub primary : Option P
  pub sync : Option P
  pub asyncs : Option (List P)
  pub deposed : Option (List P)
  pub freeze : Option Freeze
  pub one_node_write_mode : Option Bool
