-- ===== src/StatusServer.antt =====
-- lib/statusServer.js: the routes of the server, with what they answer. A response is the code and
-- the body that `res.send` gets.
pub mod Pings
mod Tests
use manatee.Base.{
  ℕ, zero, suc, Text, codes, List, [], ◌∷◌, ◌++◌, map, Option, none, some, Bool, true, false,
}
use manatee.Base.Texts.Splits.{join}
use manatee.Postgres.Health.{Health, Status, status}

pub data Body : Type 0 where
  stat : Status → Body
  message : Text → Body

pub record Response : Type 0 where
  pub code : ℕ
  pub body : Body

-- `_shard` and its `_pg`, each of which may be missing.
abbrev pub ShardRef : Type 0
ShardRef = Option (Option Health)

-- `stat.healthy` as a condition: null is false.
abbrev pub is_true : Option Bool → Bool
is_true none = false
is_true (some b) = b

unfoldable pub ping_status : Status → Response
ping_status s = elim (is_true s.is_healthy) [
  | true ↦ record { code = 200; body = stat s }
  | false ↦ record { code = 503; body = stat s }
]

-- `ping`
unfoldable pub ping : ShardRef → Response
unfolding ping_status status
ping (some (some pg)) = ping_status (status pg)
ping _ = record { code = 503; body = message (codes "PG not inited") }

-- `key.substring(3)`, which drops the verb of a route.
abbrev pub without_verb : Text → Text
without_verb (a ∷ b ∷ c ∷ rest) = rest
without_verb _ = []

abbrev route_lines : List Text → Text
route_lines [] = []
route_lines (route ∷ routes) = join b'\n' route routes

-- `list`, of the keys that restify gives to the routes.
unfoldable pub list : List Text → Text
list keys = route_lines (map (λ key. b'/' ∷ without_verb key) keys) ++ b'\n' ∷ []

-- `restore`, by `_restoreObject` of the client of the manager; what is missing leaves out the field.
unfoldable pub restore {ℓ} : {Job : Type ℓ} → Option (Option (Option Job)) → Option Job
restore (some (some job)) = job
restore _ = none
