-- ===== src/Adm/Format.antt =====
-- lib/adm.js: `_formatState`, which lays a cluster state out for display.
pub mod Labels
pub mod Shards
mod Tests
use manatee.Base.{ℕ, zero, suc, Text, codes, List, [], ◌∷◌, ◌++◌, Option, none, some}
use manatee.Base.Texts.Decimals.{show}
use manatee.Base.Objects.{Object, insert}
use manatee.Adm.{Freeze, frozen, bare, ShardState}

-- What stands under a label: the text of the freeze, or a peer.
pub data Shown (P : Type 0) : Type 0 where
  notice : Text → Shown P
  peer : P → Shown P

-- `i === 0 ? '' : i`
suffix : ℕ → Text
unfolding show
suffix zero = []
suffix (suc i) = show (suc i)

unfoldable pub label : Text → ℕ → Text
unfolding suffix
label name i = name ++ suffix i

-- `f.date + ': ' + f.reason`, where a freeze that is no object has neither.
freeze_text : Freeze → Text
freeze_text (frozen date reason) = date ++ (codes ": " ++ reason)
freeze_text bare = codes "undefined: undefined"

module _ {P : Type 0} where
  -- The loop over the asyncs or over the deposed peers, from the number `i` on.
  unfoldable pub insert_each : Text → ℕ → List P → Object (Shown P) → Object (Shown P)
  unfolding label insert
  insert_each name i [] o = o
  insert_each name i (p ∷ peers) o =
      insert_each name (suc i) peers (insert (label name i) (peer p) o)

  insert_freeze : Option Freeze → Object (Shown P) → Object (Shown P)
  unfolding freeze_text insert
  insert_freeze none o = o
  insert_freeze (some f) o = insert (codes "__FROZEN__") (notice (freeze_text f)) o

  insert_one : Text → Option P → Object (Shown P) → Object (Shown P)
  unfolding insert
  insert_one name none o = o
  insert_one name (some p) o = insert name (peer p) o

  insert_list : Text → Option (List P) → Object (Shown P) → Object (Shown P)
  unfolding insert_each
  insert_list name none o = o
  insert_list name (some peers) o = insert_each name 0 peers o

  -- The state of one shard.
  unfoldable pub format_shard : ShardState P → Object (Shown P)
  unfolding insert_freeze insert_one insert_list
  format_shard s = insert_list (codes "deposed") s.deposed (
      insert_list (codes "async") s.asyncs (
        insert_one (codes "sync") s.sync
          (insert_one (codes "primary") s.primary (insert_freeze s.freeze []))))

  format_onto : Object (ShardState P) → Object (Object (Shown P)) → Object (Object (Shown P))
  unfolding insert format_shard
  format_onto [] o = o
  format_onto ((shard, s) ∷ states) o = format_onto states (insert shard (format_shard s) o)

  -- `_formatState`
  unfoldable pub format_state : Object (ShardState P) → Object (Object (Shown P))
  unfolding format_onto
  format_state states = format_onto states []
