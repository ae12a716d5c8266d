-- ===== src/Adm/Commands.antt =====
-- lib/adm.js: the commands that only read: `status`, `zkState`, `zkActive` and `checkLock`.
pub mod Fetching
pub mod States
pub mod Closing
pub mod Shows
mod Tests
use manatee.Base.{
  ℕ, zero, suc, Text, codes, List, [], ◌∷◌, ◌++◌, map, length, ◌==◌, ◌-◌, Option, none, some, Bool,
  true, false, if◌then◌else◌, Outcome, ok, err, lost, thrown, Action, after, return, fail, ◌>>=◌,
  ◌>>◌,
}
use manatee.Base.Texts.{text_eq}
use manatee.Base.Objects.{Object, insert}
use manatee.Adm.{Peer, ShardState}
use manatee.Adm.Edits.{State}
use manatee.Adm.Details.{Repl}
use manatee.Adm.Details.Status.{Answer, Lag, PeerInfo, add_postgres_status}
use manatee.Adm.Format.{Shown, format_state}
use manatee.Adm.Connections.{ZkAnswer, a_client, no_client}

-- An error, by `err.name` and `err.message`.
pub record Failure : Type 0 where
  pub name : Text
  pub message : Text

-- `new Error(message)`
abbrev pub new_error : Text → Failure
new_error message = record { name = codes "Error"; message = message }

-- `_.zkClient`
pub data Client : Type 0 where
  absent live released : Client

-- What ZooKeeper and the calls of `createZkClient` answer. A node that is no JSON raises an exception.
pub record Zoo (N : Type 0) : Type 0 where
  pub connection : ZkAnswer
  pub children : Text → Outcome Failure (List Text)
  pub state_of : Text → Outcome Failure State
  pub active_node : Text → Outcome Failure N
  pub stat : Text → Outcome Failure (Option ℕ)

-- `_createZkClient`
unfoldable pub create_zk_client : ZkAnswer → Action Client Failure (Unit {0})
create_zk_client a_client c = (ok tt, live)
create_zk_client (no_client e) c = (err (new_error e), c)

-- `_closeZkClient`
unfoldable pub close_zk_client : Client → Client
close_zk_client absent = absent
close_zk_client live = released
close_zk_client released = released

-- The function that a command ends with, which maps its error.
unfoldable pub finish :
    {A : Type 0} → (Failure → Failure) → Outcome Failure A × Client → Outcome Failure A × Client
unfolding close_zk_client
finish f (ok a, c) = (ok a, close_zk_client c)
finish f (err e, c) = (err (f e), close_zk_client c)
finish f (lost, c) = (lost, c)
finish f (thrown, c) = (thrown, c)

-- `err.name === 'NO_NODE'`
unfoldable pub explained : Text → Failure → Failure
explained message e = if text_eq e.name (codes "NO_NODE") then new_error message else e

-- `_getClusterStates` between two answers: `opts.state`, how many of the calls of vasync are not over,
-- the calls of the callback, and whether an exception has ended the program.
pub record Fetch : Type 0 where
  pub states : Option (Object State)
  pub pending : ℕ
  pub calls : List (Option Failure)
  pub crashed : Bool

-- The call of vasync; without shards there is nothing to wait for.
unfoldable pub begin : List Text → Fetch
begin [] = record { states = none; pending = 0; calls = none ∷ []; crashed = false }
begin (s ∷ shards) = record {
  states = none;
  pending = suc (length shards);
  calls = [];
  crashed = false;
}

abbrev pub held : Option (Object State) → Object State
held none = []
held (some o) = o

-- `_subcb`, in vasync: the last of the calls ends the whole.
unfoldable pub sub_done : Fetch → Fetch
sub_done f =
    let left = f.pending - 1 in
    if left == 0
    then record f { pending = 0; calls = f.calls ++ none ∷ [] }
    else record f { pending = left }

-- The callback of `getData` in `getState`, which hands an error to the callback of the whole.
unfoldable pub get_state : Text → Outcome Failure State → Fetch → Fetch
unfolding sub_done insert
get_state shard (err e) f = record f { calls = f.calls ++ some e ∷ [] }
get_state shard (ok s) f = sub_done (record f { states = some (insert shard s (held f.states)) })
get_state shard lost f = f
get_state shard thrown f = record f { crashed = true }

-- The answers for the shards, in the order in which they come.
unfoldable pub fetch_states : (Text → Outcome Failure State) → List Text → Fetch → Fetch
unfolding get_state
fetch_states reply [] f = f
fetch_states reply (shard ∷ shards) f =
    if f.crashed then f else fetch_states reply shards (get_state shard (reply shard) f)

-- What the pipeline goes on with: the first call.
first_call : Fetch → Outcome Failure (Option (Object State))
first_call f = elim f.calls [
  | [] ↦ if f.crashed then thrown else lost
  | none ∷ rest ↦ ok f.states
  | some e ∷ rest ↦ err e
]

-- `opts.shards.join(', ')`
unfoldable pub comma_list : List Text → Text
comma_list [] = []
comma_list (s ∷ []) = s
comma_list (s ∷ t ∷ shards) = s ++ codes ", " ++ comma_list (t ∷ shards)

-- `_getShards`
unfoldable pub get_shards : {N : Type 0} → Zoo N → Option Text → Outcome Failure (List Text)
get_shards zoo none = zoo.children (codes "/manatee")
get_shards zoo (some []) = zoo.children (codes "/manatee")
get_shards zoo (some (c ∷ shard)) = ok ((c ∷ shard) ∷ [])

-- The answers of Postgres by the URL that is asked, and the order in which those of ZooKeeper come.
pub record Peers : Type 0 where
  pub repl : Text → Answer Repl
  pub lag : Text → Answer Lag
  pub order : List Text → List Text

-- `getState`, the part of `status` that needs no order of the nodes.
get_states : {N : Type 0} → Zoo N → Peers → List Text → Outcome Failure (Option (Object State))
unfolding first_call fetch_states begin
get_states zoo peers shards =
    first_call (fetch_states zoo.state_of (peers.order shards) (begin shards))

with_status : Peers → Object State → Object (ShardState PeerInfo)
unfolding add_postgres_status
with_status peers = map (λ e. (e.0, add_postgres_status peers.repl peers.lag e.1))

-- `_addPostgresStatus` and `_formatState`; the keys of an undefined state raise an exception.
show_states : Peers → Option (Object State) → Outcome Failure (Object (Object (Shown PeerInfo)))
unfolding with_status format_state
show_states peers none = thrown
show_states peers (some states) = ok (format_state (with_status peers states))

-- A call that changes nothing of the command's own.
abbrev pub call : {A : Type 0} → Outcome Failure A → Action Client Failure A
call r c = (r, c)

-- The error of the commands for one shard.
no_state : Text → Failure → Failure
unfolding explained
no_state shard = explained (codes "No state exists for shard " ++ shard)

-- An error is replaced on the way.
explain : {A : Type 0} → (Failure → Failure) → Outcome Failure A → Outcome Failure A
explain f (ok a) = ok a
explain f (err e) = err (f e)
explain f lost = lost
explain f thrown = thrown

explain_all :
    {A : Type 0} → (Failure → Failure) → Outcome Failure A × Client → Outcome Failure A × Client
unfolding explain
explain_all f (r, c) = (explain f r, c)

gathered :
    {N : Type 0}
    → Text
    → Outcome Failure N
    → Outcome Failure (Object N × List Failure)
    → Outcome Failure (Object N × List Failure)
gathered name thrown rest = thrown
gathered name r thrown = thrown
gathered name lost rest = lost
gathered name (ok n) (ok (nodes, errors)) = ok ((name, n) ∷ nodes, errors)
gathered name (err e) (ok (nodes, errors)) = ok (nodes, e ∷ errors)
gathered name (ok n) (err e) = err e
gathered name (err e) (err e') = err e'
gathered name (ok n) lost = lost
gathered name (err e) lost = lost

-- What `fetchChildren` makes of its operations.
reported :
    {N : Type 0}
    → (List Failure → Failure)
    → Outcome Failure (Object N × List Failure)
    → Outcome Failure (Object N)
reported multi (ok (nodes, [])) = ok nodes
reported multi (ok (nodes, e ∷ errors)) = err (multi (e ∷ errors))
reported multi (err e) = err e
reported multi lost = lost
reported multi thrown = thrown

-- The operations of `fetchChildren`: its results by node, and its errors.
gather :
    {N : Type 0}
    → (Text → Outcome Failure N)
    → List Text
    → Outcome Failure (Object N × List Failure)
unfolding gathered
gather reply [] = ok ([], [])
gather reply (name ∷ names) = gathered name (reply name) (gather reply names)

-- `status`, for the shards that ZooKeeper knows or for the one that is named; not in the legacy order.
unfoldable pub status :
    {N : Type 0}
    → Zoo N
    → Peers
    → Option Text
    → Outcome Failure (Object (Object (Shown PeerInfo))) × Client
unfolding create_zk_client finish explain explained get_states show_states comma_list get_shards
status zoo peers named =
    finish (λ e. e)
      ((do
        create_zk_client zoo.connection
        shards ← call (get_shards zoo named)
        states ← call (
            explain
              (explained
                (codes "No state object exists for one or more shards: " ++ comma_list shards))
              (get_states zoo peers shards))
        call (show_states peers states))
        absent)

-- `zkState`
unfoldable pub zk_state : {N : Type 0} → Zoo N → Text → Outcome Failure State × Client
unfolding create_zk_client finish no_state
zk_state zoo shard =
    finish (no_state shard) ((do create_zk_client zoo.connection; call (zoo.state_of shard)) absent)

-- `fetchChildren`, once every call is over; `multi` makes the one error that vasync reports.
unfoldable pub fetch_children :
    {N : Type 0}
    → (List Failure → Failure)
    → (Text → Outcome Failure N)
    → List Text
    → Outcome Failure (Object N)
unfolding gather reported
fetch_children multi reply names = reported multi (gather reply names)

-- `_active`
unfoldable pub active :
    {N : Type 0} → (List Failure → Failure) → Zoo N → Text → Action Client Failure (Object N)
unfolding fetch_children explain_all no_state
active multi zoo shard c = explain_all (no_state shard) (
    (do
      names ← call (zoo.children (codes "/manatee/" ++ shard ++ codes "/election"))
      call (fetch_children multi zoo.active_node names))
      c)

-- `zkActive`
unfoldable pub zk_active :
    {N : Type 0} → (List Failure → Failure) → Zoo N → Text → Outcome Failure (Object N) × Client
unfolding create_zk_client finish no_state active
zk_active multi zoo shard =
    finish (no_state shard) ((do create_zk_client zoo.connection; active multi zoo shard) absent)

-- `checkLock`, which does not close its client.
unfoldable pub check_lock : {N : Type 0} → Zoo N → Text → Outcome Failure (Option ℕ) × Client
unfolding create_zk_client
check_lock zoo path = (do create_zk_client zoo.connection; call (zoo.stat path)) absent
