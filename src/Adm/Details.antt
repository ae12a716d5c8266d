-- ===== src/Adm/Details.antt =====
-- lib/adm.js: `ManateeClusterDetails`, the summary of a shard with the problems that are found in it.
pub mod Links
pub mod Health
pub mod Runs
pub mod Status
pub mod Load
mod Tests
use manatee.Base.{
  ℕ, Text, codes, text_eq, List, [], ◌∷◌, ◌++◌, map, length, Option, none, some, Bool, true, false,
  ◌&&◌, not, ltb, if◌then◌else◌, Outcome, ok, err, lost, thrown,
}
use manatee.Base.Texts.{is_missing}
use manatee.Base.Objects.{Object, insert, lookup, keys}
use manatee.Adm.{Peer, Freeze, frozen, bare, ShardState}

-- A row of pg_stat_replication; a column that is missing is none.
pub record Repl : Type 0 where
  pub state : Option Text
  pub client_addr : Option Text
  pub sync_state : Option Text

-- An entry of `pgs_peers`.
pub record Detail : Type 0 where
  pub ident : Peer
  pub label : Text
  pub repl : Option Repl
  pub lag : Option (Object ℕ)
  pub pg_error : Option Text

pub data Problem : Type 0 where
  primary_unreachable sync_unreachable : Text → Problem
  several_in_singleton : ℕ → Problem
  has_deposed no_asyncs : Problem
  not_connected : Text → Problem
  wrong_downstream : Text → Text → Option Text → Problem
  not_streaming : Text → Option Text → Problem
  wrong_sync_state : Text → Text → Option Text → Problem

pub record Details : Type 0 where
  pub peers : Object Detail
  pub primary : Text
  pub sync : Option Text
  pub asyncs : List Text
  pub deposed : List Text
  pub generation : ℕ
  pub init_wal : Text
  pub singleton : Bool
  pub is_frozen : Bool
  pub freeze_reason : Option Text
  pub freeze_time : Option Text

-- `a != b`, of a value that may be undefined and a text.
abbrev pub differs : Option Text → Text → Bool
differs none t = true
differs (some s) t = not (text_eq s t)

abbrev wrong_peer : Detail → Detail → Repl → List Problem
wrong_peer up down r =
    if differs r.client_addr down.ident.ip
    then wrong_downstream up.label down.ident.ip r.client_addr ∷ []
    else []

abbrev not_yet : Detail → Repl → List Problem
not_yet up r =
    if differs r.state (codes "streaming") then not_streaming up.label r.state ∷ [] else []

abbrev wrong_kind : Detail → Repl → Text → List Problem
wrong_kind up r kind =
    if differs r.sync_state kind then wrong_sync_state up.label kind r.sync_state ∷ [] else []

-- The sync state is looked at only if nothing else is wrong.
abbrev unless_any : List Problem → List Problem → List Problem
unless_any [] more = more
unless_any (p ∷ ps) more = p ∷ ps

repl_errors : Detail → Option Detail → Text → Option Repl → Outcome Text (List Problem)
repl_errors up down kind none = ok (not_connected up.label ∷ [])
repl_errors up none kind (some r) = thrown
repl_errors up (some down) kind (some r) =
    ok (unless_any (wrong_peer up down r ++ not_yet up r) (wrong_kind up r kind))

-- `loadReplErrors`: what it appends to `errors`. The entry of the downstream peer is read only after the
-- test for a missing connection.
unfoldable pub load_repl_errors :
    Object Detail → Detail → Option Text → Text → Outcome Text (List Problem)
unfolding repl_errors lookup
load_repl_errors peers up none kind = ok []
load_repl_errors peers up (some id) kind = repl_errors up (lookup id peers) kind up.repl

abbrev pub first : List Text → Option Text
first [] = none
first (a ∷ rest) = some a

unfoldable pub both_lists :
    Outcome Text (List Problem) → Outcome Text (List Problem) → Outcome Text (List Problem)
both_lists (ok ps) (ok qs) = ok (ps ++ qs)
both_lists (ok ps) r = r
both_lists r q = r

-- `self.pgs_asyncs.forEach(…)`, each with the async after it.
unfoldable pub async_errors : Object Detail → List Text → Outcome Text (List Problem)
unfolding both_lists
async_errors peers [] = ok []
async_errors peers (a ∷ rest) =
    let more = async_errors peers rest in
    elim (lookup a peers) [
      | none ↦ thrown
      | some up ↦ both_lists (load_repl_errors peers up (first rest) (codes "async")) more
    ]

pub record Report : Type 0 where
  pub errors : List Problem
  pub warnings : List Problem

abbrev unreachable_primary : Option Text → List Problem
unreachable_primary none = []
unreachable_primary (some e) = primary_unreachable e ∷ []

abbrev topology_warnings : List Text → List Text → List Problem
topology_warnings deposed asyncs =
    (if ltb 0 (length deposed) then has_deposed ∷ [] else [])
    ++ (if not (ltb 0 (length asyncs)) then no_asyncs ∷ [] else [])

with_chain :
    List Problem
    → List Problem
    → Outcome Text (List Problem)
    → Outcome Text (List Problem)
    → Outcome Text Report
with_chain errors warnings (ok ps) (ok qs) =
    ok (record { errors = errors ++ ps; warnings = warnings ++ qs })
with_chain errors warnings (ok ps) (err e) = err e
with_chain errors warnings (err e) q = err e
with_chain errors warnings _ _ = thrown

-- What follows the check of the primary, in a cluster of more than one node.
sync_errors : Details → Detail → Detail → Outcome Text Report
unfolding with_chain both_lists
sync_errors c p s = elim s.pg_error [
  | some e ↦ ok (record {
    errors = unreachable_primary p.pg_error ++ sync_unreachable e ∷ [];
    warnings = topology_warnings c.deposed c.asyncs;
  })
  | none ↦
      with_chain (unreachable_primary p.pg_error) (topology_warnings c.deposed c.asyncs)
        (load_repl_errors c.peers p c.sync (codes "sync"))
        (both_lists (load_repl_errors c.peers s (first c.asyncs) (codes "async"))
          (async_errors c.peers c.asyncs))
]

abbrev singleton_report : Details → Detail → Report
singleton_report c p = record {
  errors = unreachable_primary p.pg_error;
  warnings =
      if ltb 1 (length (keys c.peers))
      then several_in_singleton (length (keys c.peers)) ∷ []
      else [];
}

unfoldable pub find : Object Detail → Option Text → Option Detail
find peers none = none
find peers (some id) = lookup id peers

with_peers : Details → Option Detail → Option Detail → Outcome Text Report
unfolding sync_errors
with_peers c none s = thrown
with_peers c (some p) s =
    if c.singleton
    then ok (singleton_report c p)
    else elim s [ none ↦ thrown | some t ↦ sync_errors c p t ]

-- `loadErrors`
unfoldable pub load_errors : Details → Outcome Text Report
unfolding with_peers find
load_errors c = with_peers c (lookup c.primary c.peers) (find c.peers c.sync)
